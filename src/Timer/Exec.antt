-- ===== src/Timer/Exec.antt =====
-- timer.c: the runs of `exec_timers`.
use opennap.Base.{
  subst, sym, Bool-cases, length-append, ℕ, zero, suc, ◌+◌, ◌≤◌, ◌<◌, ◌≡◌, refl, ap, ◌∙◌, inl, inr,
  false, List, [], ◌∷◌, ◌++◌, map, Option, some, arith, leb, All, if◌then◌else◌, length, ℤ, pos,
  negsuc,
}
use opennap.Timer.{
  Timer, Run, is_zero, schedule_timer, next_events, again, call_of, fire, exec_timers,
}
use opennap.Timer.Order.{
  NotBefore, IsSorted, IsLive, insert_timer-append, NotBefore-mono, length-insert_timer,
  insert_timer-NotBefore, schedule_timer-IsSorted, schedule_timer-IsLive,
}

-- The timers at the front that are due, and the others.
unfoldable pub due : ℕ → List Timer → List Timer
due now [] = []
due now (t ∷ l) = if leb t.next_time now then t ∷ due now l else []

unfoldable pub later : ℕ → List Timer → List Timer
later now [] = []
later now (t ∷ l) = if leb t.next_time now then later now l else t ∷ l

abbrev pub AllDue : ℕ → List Timer → Type 0
AllDue now = All (λ (t : Timer). t.next_time ≤ now)

due-append-later : (now : ℕ) (l : List Timer) → due now l ++ later now l ≡ l
unfolding due later
due-append-later now [] = refl
due-append-later now (t ∷ l) = ground (arith, due-append-later now l)

due-AllDue : (now : ℕ) (l : List Timer) → AllDue now (due now l)
unfolding due
due-AllDue now [] = tt
due-AllDue now (t ∷ l) = ground (arith, due-AllDue now l)

-- Events that are left after one, for a timer that has some.
abbrev pub less_one : ℤ → ℤ
less_one (pos zero) = pos zero
less_one (pos (suc n)) = pos n
less_one (negsuc zero) = negsuc zero
less_one (negsuc (suc n)) = negsuc (suc (suc n))

live_next_events :
    (events : ℤ) → is_zero events ≡ false → next_events events ≡ some (less_one events)
unfolding next_events
live_next_events (pos zero) h = cc
live_next_events (pos (suc n)) h = refl
live_next_events (negsuc zero) h = refl
live_next_events (negsuc (suc n)) h = refl

-- The queue after the due timers `d` have been put back behind the others, `r`.
unfoldable pub put_back : ℕ → List Timer → List Timer → List Timer
put_back current_time [] r = r
put_back current_time (t ∷ d) r =
    put_back current_time d (schedule_timer (again current_time t (less_one t.events)) r)

exec_step :
    (fuel now current_time : ℕ) (t : Timer) (l : List Timer)
    → t.next_time ≤ now
    → is_zero t.events ≡ false
    → exec_timers (suc fuel) now current_time (t ∷ l)
      ≡ fire t (
          exec_timers fuel now current_time
            (schedule_timer (again current_time t (less_one t.events)) l))
unfolding exec_timers
exec_step fuel now current_time t l h live = ground (arith, live_next_events t.events live)

-- A timer with an interval that ends after `now`.
abbrev pub Advances : ℕ → ℕ → List Timer → Type 0
Advances now current_time = All (λ (t : Timer). now < current_time + t.interval)

schedule_timer-append :
    (now : ℕ) (t : Timer) (d r : List Timer)
    → now < t.next_time
    → AllDue now d
    → schedule_timer t (d ++ r) ≡ d ++ schedule_timer t r
unfolding schedule_timer
schedule_timer-append now t d r h due = ground (arith, insert_timer-append t d r (earlier d due))
  where
    earlier : (d : List Timer) → AllDue now d → All (λ (u : Timer). u.next_time ≤ t.next_time) d
    earlier [] b = tt
    earlier (u ∷ d) b = (omega arith, earlier d b.1)

schedule_timer-NotBefore :
    (t : Timer) (n : ℕ) (l : List Timer)
    → n ≤ t.next_time
    → NotBefore n l
    → NotBefore n (schedule_timer t l)
unfolding schedule_timer
schedule_timer-NotBefore t n l h b = ground (arith, insert_timer-NotBefore t n l h b)

module _ (now current_time : ℕ) where
  abbrev finished : List Timer → List Timer → Option Run
  finished d r =
      some (record { pending = put_back current_time d r; fired = map call_of d; freed = [] })

  exec_rest :
      (fuel : ℕ) (r : List Timer)
      → 0 < fuel
      → NotBefore (suc now) r
      → exec_timers fuel now current_time r ≡ finished [] r
  unfolding exec_timers put_back
  exec_rest zero r h b = absurd (omega arith)
  exec_rest (suc fuel) [] h b = refl
  exec_rest (suc fuel) (t ∷ r) h b = ground arith

  exec_run :
      (d r : List Timer) (fuel : ℕ)
      → length d < fuel
      → AllDue now d
      → IsLive d
      → Advances now current_time d
      → NotBefore (suc now) r
      → exec_timers fuel now current_time (d ++ r) ≡ finished d r
  exec_run [] r fuel h due live adv b = exec_rest fuel r h b
  exec_run (t ∷ d) r zero h due live adv b = absurd (omega arith)
  exec_run (t ∷ d) r (suc fuel) h due live adv b =
      exec_step fuel now current_time t (d ++ r) due.0 live.0
      ∙ rw (schedule_timer-append now next d r adv.0 due.1) (
          ap (fire t) (
            exec_run d (schedule_timer next r) fuel (omega arith) due.1 live.1 adv.1
              (schedule_timer-NotBefore next (suc now) r adv.0 b))
          ∙ unfold put_back in refl)
    where
      next : Timer
      next = again current_time t (less_one t.events)

  put_back-keeps :
      (d r : List Timer)
      → Advances now current_time d
      → IsSorted r
      → IsLive r
      → NotBefore (suc now) r
      → IsSorted (put_back current_time d r)
        × IsLive (put_back current_time d r)
        × NotBefore (suc now) (put_back current_time d r)
  unfolding put_back
  put_back-keeps [] r adv s live b = (s, live, b)
  put_back-keeps (t ∷ d) r adv s live b =
      put_back-keeps d (schedule_timer next r) adv.1 (schedule_timer-IsSorted next r s)
        (schedule_timer-IsLive next r live) (schedule_timer-NotBefore next (suc now) r adv.0 b)
    where
      next : Timer
      next = again current_time t (less_one t.events)

All-parts {ℓ κ} : {A : Type ℓ} (P : A → Type κ) (a b : List A) → All P (a ++ b) → All P a × All P b
All-parts P [] b h = (tt, h)
All-parts P (x ∷ a) b h = let (p, q) = All-parts P a b h.1 in ((h.0, p), q)

later-NotBefore :
    (now : ℕ) (l : List Timer)
    → IsSorted l
    → IsSorted (later now l) × NotBefore (suc now) (later now l)
unfolding later
later-NotBefore now [] s = (tt, tt)
later-NotBefore now (t ∷ l) s = elim (Bool-cases (leb t.next_time now)) [
  | inl e ↦ rw e (later-NotBefore now l s.1)
  | inr e ↦ rw e (s, (ground arith, NotBefore-mono (suc now) t.next_time l (ground arith) s.0))
]

-- How many timers fire their last event.
unfoldable pub ending : List Timer → ℕ
ending [] = 0
ending (t ∷ d) = (if is_zero (less_one t.events) then 1 else 0) + ending d

length-schedule_timer :
    (t : Timer) (l : List Timer)
    → length (schedule_timer t l) + (if is_zero t.events then 1 else 0) ≡ length l + 1
unfolding schedule_timer
length-schedule_timer t l = ground (arith, length-insert_timer t l)

length-put_back :
    (current_time : ℕ) (d r : List Timer)
    → length (put_back current_time d r) + ending d ≡ length d + length r
unfolding put_back ending
length-put_back current_time [] r = omega arith
length-put_back current_time (t ∷ d) r = omega (
  arith,
  length-put_back current_time d (schedule_timer (again current_time t (less_one t.events)) r),
  length-schedule_timer (again current_time t (less_one t.events)) r,
)

due-length-le : (now : ℕ) (l : List Timer) → length (due now l) ≤ length l
unfolding due
due-length-le now [] = omega arith
due-length-le now (t ∷ l) = ground (arith, due-length-le now l)

abbrev final : ℕ → ℕ → List Timer → Run
final now current_time l = record {
  pending = put_back current_time (due now l) (later now l);
  fired = map call_of (due now l);
  freed = [];
}

exec_final :
    (now current_time fuel : ℕ) (l : List Timer)
    → length l < fuel
    → IsSorted l
    → IsLive l
    → Advances now current_time l
    → (exec_timers fuel now current_time l ≡ some (final now current_time l))
      × IsSorted (final now current_time l).pending
      × IsLive (final now current_time l).pending
      × NotBefore (suc now) (final now current_time l).pending
exec_final now current_time fuel l h s live adv =
    let split = due-append-later now l in
    let lives = All-parts _ (due now l) _ (subst IsLive (sym split) live) in
    let advs = All-parts _ (due now l) _ (subst (Advances now current_time) (sym split) adv) in
    let (sorted, after) = later-NotBefore now l s in
    let run =
      exec_run now current_time (due now l) (later now l) fuel (omega (arith, due-length-le now l))
        (due-AllDue now l) lives.0 advs.0 after in
    let keeps =
      put_back-keeps now current_time (due now l) (later now l) advs.0 sorted lives.1 after in
    (ap (exec_timers fuel now current_time) (sym split) ∙ run, keeps.0, keeps.1, keeps.2)

-- On an ordered queue whose timers all have events to come and intervals that end after `now`, a run
-- with more fuel than there are timers ends. It calls exactly the due timers, each once and in the
-- order of the queue; the queue that it leaves is ordered, and nothing in it is due.
pub exec_timers-due :
    (now current_time fuel : ℕ) (l : List Timer)
    → length l < fuel
    → IsSorted l
    → IsLive l
    → Advances now current_time l
    → (r : Run) × (exec_timers fuel now current_time l ≡ some r)
      × (r.fired ≡ map call_of (due now l))
      × (due now l ++ later now l ≡ l)
      × IsSorted r.pending
      × IsLive r.pending
      × NotBefore (suc now) r.pending
exec_timers-due now current_time fuel l h s live adv =
    let (run, sorted, live', after) = exec_final now current_time fuel l h s live adv in
    (final now current_time l, run, refl, due-append-later now l, sorted, live', after)

-- On an ordered queue whose timers all have events to come and intervals that end after `now`, a
-- run with more fuel than there are timers ends and frees nothing, although the timers that fire
-- their last event leave the queue: the queue is shorter by their number.
pub exec_timers_leaks :
    (now current_time fuel : ℕ) (l : List Timer)
    → length l < fuel
    → IsSorted l
    → IsLive l
    → Advances now current_time l
    → (r : Run) × (exec_timers fuel now current_time l ≡ some r)
      × (r.freed ≡ [])
      × (length r.pending + ending (due now l) ≡ length l)
exec_timers_leaks now current_time fuel l h s live adv = (
  final now current_time l,
  (exec_final now current_time fuel l h s live adv).0,
  refl,
  omega (
    arith,
    length-put_back current_time (due now l) (later now l),
    length-append (due now l) (later now l),
    ap length (due-append-later now l),
  ),
)
