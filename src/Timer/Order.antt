-- ===== src/Timer/Order.antt =====
-- timer.c: the order of the queue.
use opennap.Base.{
  ℕ, ◌+◌, ◌-◌, ◌≤◌, ◌≡◌, refl, ◌⊎◌, inl, inr, Bool, false, List, [], ◌∷◌, ◌++◌, arith, ltb, All,
  if◌then◌else◌, length, ℤ, pos, negsuc, Bool-cases,
}
use native.Mathlib.Decide.{dec_le}
use opennap.Timer.{Timer, insert_timer, is_zero, schedule_timer, add_timer, next_timer}

-- No timer of the list comes before `n`.
abbrev pub NotBefore : ℕ → List Timer → Type 0
NotBefore n = All (λ (t : Timer). n ≤ t.next_time)

abbrev pub IsSorted : List Timer → Type 0
IsSorted [] = Unit
IsSorted (t ∷ l) = NotBefore t.next_time l × IsSorted l

-- Every timer in the queue has an event to come.
abbrev pub IsLive : List Timer → Type 0
IsLive = All (λ (t : Timer). is_zero t.events ≡ false)

pub NotBefore-mono : (m n : ℕ) (l : List Timer) → m ≤ n → NotBefore n l → NotBefore m l
NotBefore-mono m n [] h b = tt
NotBefore-mono m n (t ∷ l) h b = (omega arith, NotBefore-mono m n l h b.1)

pub insert_timer-NotBefore :
    (t : Timer) (n : ℕ) (l : List Timer)
    → n ≤ t.next_time
    → NotBefore n l
    → NotBefore n (insert_timer t l)
unfolding insert_timer
insert_timer-NotBefore t n [] h b = (h, tt)
insert_timer-NotBefore t n (s ∷ l) h b = ground (arith, insert_timer-NotBefore t n l h)

pub insert_timer-IsSorted : (t : Timer) (l : List Timer) → IsSorted l → IsSorted (insert_timer t l)
unfolding insert_timer
insert_timer-IsSorted t [] s = (tt, tt)
insert_timer-IsSorted t (u ∷ l) s = elim (Bool-cases (ltb t.next_time u.next_time)) [
  | inl e ↦ rw e ((ground arith, NotBefore-mono t.next_time u.next_time l (ground arith) s.0), s)
  | inr e ↦
      rw e
        (insert_timer-NotBefore t u.next_time l (ground arith) s.0, insert_timer-IsSorted t l s.1)
]

pub insert_timer-IsLive :
    (t : Timer) (l : List Timer) → is_zero t.events ≡ false → IsLive l → IsLive (insert_timer t l)
unfolding insert_timer
insert_timer-IsLive t [] h b = (h, tt)
insert_timer-IsLive t (s ∷ l) h b = ground (arith, insert_timer-IsLive t l h)

-- Timers that are due no later stay in front.
pub insert_timer-append :
    (t : Timer) (a b : List Timer)
    → All (λ (u : Timer). u.next_time ≤ t.next_time) a
    → insert_timer t (a ++ b) ≡ a ++ insert_timer t b
unfolding insert_timer
insert_timer-append t [] b h = refl
insert_timer-append t (u ∷ a) b h = ground (arith, insert_timer-append t a b h.1)

pub length-insert_timer : (t : Timer) (l : List Timer) → length (insert_timer t l) ≡ length l + 1
unfolding insert_timer
length-insert_timer t [] = omega arith
length-insert_timer t (s ∷ l) = ground (arith, length-insert_timer t l)

pub schedule_timer-IsSorted :
    (t : Timer) (l : List Timer) → IsSorted l → IsSorted (schedule_timer t l)
unfolding schedule_timer
schedule_timer-IsSorted t l s = ground (arith, insert_timer-IsSorted t l)

pub schedule_timer-IsLive : (t : Timer) (l : List Timer) → IsLive l → IsLive (schedule_timer t l)
unfolding schedule_timer
schedule_timer-IsLive t l s = elim (Bool-cases (is_zero t.events)) [
  | inl e ↦ rw e s
  | inr e ↦ rw e (insert_timer-IsLive t l e s)
]

-- `add_timer` keeps an ordered queue in order and free of timers without events, and makes it
-- longer by one, unless the timer has no events or cannot be allocated.
pub add_timer-IsSorted :
    (ok : Bool) (current_time interval : ℕ) (events : ℤ) (func arg : ℕ) (l : List Timer)
    → IsSorted l
    → IsLive l
    → let r = add_timer ok current_time interval events func arg l in
      IsSorted r
      × IsLive r
      × (length r ≡ length l + (if is_zero events then 0 else if ok then 1 else 0))
unfolding add_timer
add_timer-IsSorted ok current_time interval events func arg l s live =
    elim (Bool-cases (is_zero events)) [
      | inl e ↦ rw e (s, live, omega arith)
      | inr e ↦ elim (Bool-cases ok) [
        | inl a ↦
            rw (e, a)
              (insert_timer-IsSorted _ l s, insert_timer-IsLive _ l e live, length-insert_timer _ l)
        | inr a ↦ rw (e, a) (s, live, omega arith)
      ]
    ]

-- On an ordered queue the wait that `next_timer` names ends when the first timers are due: none is
-- due before, unless it is late already, and one is due then. The wait is -1 exactly for the empty
-- queue.
pub next_timer_lem :
    (current_time : ℕ) (l : List Timer)
    → IsSorted l
    → ((l ≡ []) × (next_timer current_time l ≡ negsuc 0))
      ⊎ ((w : ℕ) × (t : Timer) × (rest : List Timer) × (next_timer current_time l ≡ pos w)
          × (l ≡ t ∷ rest)
          × (t.next_time ≤ current_time + w)
          × ((w ≡ 0) ⊎ NotBefore (current_time + w) l))
unfolding next_timer
next_timer_lem current_time [] s = inl (refl, refl)
next_timer_lem current_time (t ∷ l) s = inr (
  t.next_time - current_time,
  t,
  l,
  ground arith,
  refl,
  omega arith,
  elim (dec_le t.next_time current_time) [
    | yes late ↦ inl (omega arith)
    | no early ↦ inr (omega arith, NotBefore-mono _ t.next_time l (omega arith) s.0)
  ],
)
