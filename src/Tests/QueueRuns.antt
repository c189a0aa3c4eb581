-- ===== src/Tests/QueueRuns.antt =====
-- Output queues and timers on concrete data.
use opennap.Base.{
  ℕ, ◌≡◌, ◌+◌, refl, arith, false, List, [], ◌∷◌, ◌++◌, some, ℤ, pos, negsuc, inr, inl, length, map,
}
use opennap.Buffer.{Buffer, IsValid, buffer_queue}
use opennap.Buffer.Content.{content}
use opennap.Buffer.Queue.{Delivers, buffer_queue-Delivers}
use opennap.Buffer.Progress.{rounds, rounds_deliver}
use opennap.Timer.{Timer, Run, call_of, exec_timers}
use opennap.Timer.Order.{IsSorted, IsLive, NotBefore}
use opennap.Timer.Exec.{Advances, due, later, ending, exec_timers-due, exec_timers_leaks}

-- A block of four bytes with two in it, of which one is read.
abbrev half_read : Buffer
half_read = record { block = 10 ∷ 11 ∷ []; datamax = 4; consumed = 1 }

half_read-IsValid : IsValid half_read
half_read-IsValid = record { fits = omega arith; unread = inr (omega arith) }

abbrev half_full : Buffer
half_full = record { block = 12 ∷ 13 ∷ []; datamax = 4; consumed = 0 }

half_full-IsValid : IsValid half_full
half_full-IsValid = record { fits = omega arith; unread = inl refl }

-- The second block cannot be allocated.
buffer_queue-Delivers_example :
    Delivers
      (λ k. false)
      (content (half_read ∷ []) ++ 12 ∷ 13 ∷ 14 ∷ [])
      (buffer_queue (λ k. false) (half_read ∷ []) (12 ∷ 13 ∷ 14 ∷ []))
buffer_queue-Delivers_example =
    buffer_queue-Delivers (λ k. false) (half_read ∷ []) (12 ∷ 13 ∷ 14 ∷ []) (half_read-IsValid, tt)

-- A socket that takes one byte at a time, and a queue of two blocks with three bytes to send.
rounds_deliver_example :
    rounds 3 0
      (λ j b. 1)
      (λ bs. ([], []))
      8
      (record { sendbuf = half_read ∷ half_full ∷ []; outbuf = []; destroy = false })
    ≡ some (11 ∷ 12 ∷ 13 ∷ [], [])
unfolding content
rounds_deliver_example =
    rounds_deliver 3 0 (λ j b. 1) (λ bs. ([], [])) 8
      (record { sendbuf = half_read ∷ half_full ∷ []; outbuf = []; destroy = false })
      (λ j b h. (omega arith, omega arith)) (half_read-IsValid, (half_full-IsValid, tt))
      (omega arith) (omega arith) (omega arith)

abbrev timer_at : ℕ → ℕ → ℤ → ℕ → Timer
timer_at func' time interval_events n = record {
  func = func';
  arg = 0;
  next_time = time;
  interval = 60;
  events = interval_events;
  refnum = n;
}

-- Due at 90 for the last time, at 100 for ever, and at 130 twice.
abbrev three_timers : List Timer
three_timers = timer_at 1 90 (pos 1) 1 ∷ timer_at 2 100 (negsuc 0) 2 ∷ timer_at 3 130 (pos 2) 3 ∷ []

three_timers-IsSorted : IsSorted three_timers
three_timers-IsSorted = ((omega arith, (omega arith, tt)), ((omega arith, tt), (tt, tt)))

three_timers-IsLive : IsLive three_timers
three_timers-IsLive = (refl, (refl, (refl, tt)))

three_timers-Advances : Advances 100 100 three_timers
three_timers-Advances = (omega arith, (omega arith, (omega arith, tt)))

exec_timers-due_example :
    (r : Run) × (exec_timers 4 100 100 three_timers ≡ some r)
    × (r.fired ≡ map call_of (due 100 three_timers))
    × (due 100 three_timers ++ later 100 three_timers ≡ three_timers)
    × IsSorted r.pending
    × IsLive r.pending
    × NotBefore 101 r.pending
exec_timers-due_example =
    exec_timers-due 100 100 4 three_timers (omega arith) three_timers-IsSorted three_timers-IsLive
      three_timers-Advances

exec_timers_leaks_example :
    (r : Run) × (exec_timers 4 100 100 three_timers ≡ some r)
    × (r.freed ≡ [])
    × (length r.pending + ending (due 100 three_timers) ≡ 3)
exec_timers_leaks_example =
    exec_timers_leaks 100 100 4 three_timers (omega arith) three_timers-IsSorted three_timers-IsLive
      three_timers-Advances
