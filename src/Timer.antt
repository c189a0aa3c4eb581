-- ===== src/Timer.antt =====
-- timer.c: the queue of pending timers, ordered by the time of their next event. Times and
-- intervals are not negative. The callbacks of the server start no timers, so that a run of
-- `exec_timers` is described by the calls that it makes, in their order. `current_time` is the
-- global `Current_Time`.
pub mod Order
pub mod Exec
use opennap.Base.{
  ℕ, zero, suc, ◌+◌, ◌-◌, Bool, true, false, List, [], ◌∷◌, Option, none, some, ltb, leb,
  if◌then◌else◌, length, ℤ, pos, negsuc,
}

-- `events` is the number of events left, or -1 for a timer that never ends.
pub record Timer : Type 0 where
  pub func : ℕ
  pub arg : ℕ
  pub next_time : ℕ
  pub interval : ℕ
  pub events : ℤ
  pub refnum : ℕ

-- Behind the timers that are due no later.
unfoldable pub insert_timer : Timer → List Timer → List Timer
insert_timer t [] = t ∷ []
insert_timer t (s ∷ slot) =
    if ltb t.next_time s.next_time then t ∷ s ∷ slot else s ∷ insert_timer t slot

abbrev pub is_zero : ℤ → Bool
is_zero (pos zero) = true
is_zero _ = false

-- A timer with no event left is not put in the queue.
unfoldable pub schedule_timer : Timer → List Timer → List Timer
unfolding insert_timer
schedule_timer t pending = if is_zero t.events then pending else insert_timer t pending

unfoldable pub make_refnum : List Timer → ℕ
make_refnum pending = length pending + 1

unfoldable pub add_timer : Bool → ℕ → ℕ → ℤ → ℕ → ℕ → List Timer → List Timer
unfolding schedule_timer make_refnum
add_timer alloc_ok current_time interval events func arg pending =
    if is_zero events
    then pending
    else if alloc_ok
    then schedule_timer
        (record {
          func = func;
          arg = arg;
          next_time = current_time + interval;
          interval = interval;
          events = events;
          refnum = make_refnum pending;
        })
        pending
    else pending

-- The `switch`: `none` where the timer is freed, else the events that are left.
unfoldable pub next_events : ℤ → Option ℤ
next_events (pos zero) = none
next_events (pos (suc n)) = some (pos n)
next_events (negsuc zero) = some (negsuc zero)
next_events (negsuc (suc n)) = some (negsuc (suc (suc n)))

abbrev pub again : ℕ → Timer → ℤ → Timer
again current_time t events = record t { next_time = current_time + t.interval; events = events }

-- The queue, the calls and the freed timers.
pub record Run : Type 0 where
  pub pending : List Timer
  pub fired : List (ℕ × ℕ)
  pub freed : List Timer

abbrev pub call_of : Timer → ℕ × ℕ
call_of t = (t.func, t.arg)

abbrev pub fire : Timer → Option Run → Option Run
fire t none = none
fire t (some r) = some (record r { fired = call_of t ∷ r.fired })

abbrev pub release : Timer → Option Run → Option Run
release t none = none
release t (some r) = some (record r { freed = t ∷ r.freed })

-- The loop; `none` is for fuel that runs out.
unfoldable pub exec_timers : ℕ → ℕ → ℕ → List Timer → Option Run
exec_timers zero now current_time pending = none
exec_timers (suc fuel) now current_time [] = some (record { pending = []; fired = []; freed = [] })
exec_timers (suc fuel) now current_time (t ∷ pending) =
    let freed = release t (exec_timers fuel now current_time pending) in
    let rescheduled = λ (events : ℤ).
      exec_timers fuel now current_time (schedule_timer (again current_time t events) pending) in
    if leb t.next_time now
    then fire t (elim (next_events t.events) [ none ↦ freed | some events ↦ rescheduled events ])
    else some (record { pending = t ∷ pending; fired = []; freed = [] })

-- The wait for the next event: 0 if it is late, -1 if there is none.
unfoldable pub next_timer : ℕ → List Timer → ℤ
next_timer current_time [] = negsuc 0
next_timer current_time (t ∷ pending) =
    if ltb t.next_time current_time then pos 0 else pos (t.next_time - current_time)

-- What is freed.
unfoldable pub free_timers : List Timer → List Timer
free_timers [] = []
free_timers (t ∷ pending) = t ∷ free_timers pending
