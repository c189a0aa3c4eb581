-- ===== src/Protocol/Find.antt =====
-- handler.c: `find_handler` on an ordered table, and on the table of commands.
use opennap.Base.{
  get_elem?, ℕ, zero, suc, ◌+◌, ◌-◌, ◌/◌, ◌≤◌, ◌<◌, ◌≡◌, ◌≢◌, refl, sym, subst, Bool, true, false,
  ◌&&◌, List, [], ◌∷◌, some, arith, ltb, ◌==◌, if◌then◌else◌, length, inl, inr, Bool-cases,
}
use native.Mathlib.Decide.{ℕ_discrete, dec_lt}
use opennap.Protocol.Names.{RequestHandler}
use opennap.Protocol.{
  Row, protocol, Search, found, absent, out_of_range, no_fuel, find_loop, find_handler,
}

-- The command number of a row, 0 behind the end.
unfoldable pub message : List Row → ℕ → ℕ
message [] i = 0
message (r ∷ t) zero = r.0
message (r ∷ t) (suc i) = message t i

row-message :
    (t : List Row) (i : ℕ)
    → i < length t
    → (h : RequestHandler) × (get_elem? t i ≡ some (message t i, h))
unfolding message
row-message [] i h = absurd (omega arith)
row-message (r ∷ t) zero h = (r.1, refl)
row-message (r ∷ t) (suc i) h = row-message t i (omega arith)

message_tail : (r : Row) (t : List Row) (i : ℕ) → message (r ∷ t) (suc i) ≡ message t i
unfolding message
message_tail r t i = refl

-- Command numbers rise along the table.
abbrev pub IsAscending : List Row → Type 0
IsAscending t = (i j : ℕ) → i < j → j < length t → message t i < message t j

-- The index of the command, or no row has it.
abbrev pub Finds : List Row → ℕ → Search → Type 0
Finds t tag (found i) = (i < length t) × (message t i ≡ tag)
Finds t tag absent = (i : ℕ) → i < length t → message t i ≢ tag
Finds t tag out_of_range = ⊥
Finds t tag no_fuel = ⊥

abbrev pub quiet : ℕ → Bool
quiet k = false

module _ (t : List Row) (tag : ℕ) (up : IsAscending t) where
  record Range (min max : ℕ) : Type 0 where
    ordered : min ≤ max
    inside : max < length t
    below : (i : ℕ) → i < min → message t i < tag
    above : (i : ℕ) → max < i → i < length t → tag < message t i

  only :
      (min max m : ℕ)
      → Range min max
      → min ≡ max
      → m ≡ min
      → message t m ≢ tag
      → (i : ℕ) → i < length t
      → message t i ≢ tag
  only min max m r e f h i b = elim (dec_lt i min) [
    | yes p ↦ omega (arith, r.below i p)
    | no p ↦ elim (dec_lt max i) [
      | yes q ↦ omega (arith, r.above i q b)
      | no q ↦ let same : m ≡ i = omega arith in subst (λ n. message t n ≢ tag) same h
    ]
  ]

  nothing_below :
      (min max m : ℕ)
      → Range min max
      → m ≡ min
      → tag < message t m
      → (i : ℕ) → i < length t
      → message t i ≢ tag
  nothing_below min max m r e h i b = elim (dec_lt i min) [
    | yes p ↦ omega (arith, r.below i p)
    | no p ↦ elim (ℕ_discrete i m) [
      | yes q ↦ subst (λ n. message t n ≢ tag) (sym q) (omega arith)
      | no q ↦ omega (arith, up m i (omega arith) b)
    ]
  ]

  nothing_above :
      (min max m : ℕ)
      → Range min max
      → m ≡ max
      → message t m < tag
      → (i : ℕ) → i < length t
      → message t i ≢ tag
  nothing_above min max m r e h i b = elim (dec_lt max i) [
    | yes p ↦ omega (arith, r.above i p b)
    | no p ↦ elim (ℕ_discrete i m) [
      | yes q ↦ subst (λ n. message t n ≢ tag) (sym q) (omega arith)
      | no q ↦ omega (arith, up i m (omega arith) (omega (arith, r.inside)))
    ]
  ]

  lower-Range :
      (min max m : ℕ) → Range min max → min < m → m ≤ max → tag < message t m → Range min (m - 1)
  lower-Range min max m r lo hi h = record {
    ordered = omega arith;
    inside = omega (arith, r.inside);
    below = r.below;
    above = λ i p b. elim (ℕ_discrete i m) [
      | yes q ↦ subst (λ n. tag < message t n) (sym q) h
      | no q ↦ omega (arith, up m i (omega arith) b)
    ];
  }

  upper-Range :
      (min max m : ℕ) → Range min max → min ≤ m → m < max → message t m < tag → Range (m + 1) max
  upper-Range min max m r lo hi h = record {
    ordered = omega arith;
    inside = r.inside;
    below = λ i p. elim (ℕ_discrete i m) [
      | yes q ↦ subst (λ n. message t n < tag) (sym q) h
      | no q ↦ omega (arith, up i m (omega arith) (omega (arith, r.inside)))
    ];
    above = r.above;
  }

  abbrev middle : ℕ → ℕ → ℕ
  middle min max = (max + min) / 2

  -- A round, with the row at the middle in hand.
  abbrev round : ℕ → ℕ → ℕ → ℕ → Search
  round fuel k min max =
      if tag == message t (middle min max)
      then found (middle min max)
      else if min == max
      then absent
      else if ltb tag (message t (middle min max))
      then if middle min max == min
        then absent
        else find_loop fuel quiet (suc k) t tag min (middle min max - 1)
      else if middle min max == max
      then absent
      else find_loop fuel quiet (suc k) t tag (middle min max + 1) max

  find_loop-round :
      (fuel k min max : ℕ)
      → middle min max < length t
      → find_loop (suc fuel) quiet k t tag min max ≡ round fuel k min max
  unfolding find_loop
  find_loop-round fuel k min max h =
      let (handler, e) = row-message t (middle min max) h in rw (e, find_loop)

  find_loop-Finds :
      (fuel k min max : ℕ)
      → max - min < fuel
      → Range min max
      → Finds t tag (find_loop fuel quiet k t tag min max)
  find_loop-Finds zero k min max h r = absurd (omega arith)
  find_loop-Finds (suc fuel) k min max h r =
      let m = middle min max in
      let lo : min ≤ m = omega (arith, r.ordered) in
      let hi : m ≤ max = omega (arith, r.ordered) in
      let inside : m < length t = omega (arith, r.inside) in
      subst (Finds t tag) (sym (find_loop-round fuel k min max inside))
        (elim (Bool-cases (tag == message t m)) [
          | inl same ↦ rw same (inside, ground arith)
          | inr other ↦ elim (Bool-cases (min == max)) [
            | inl one ↦
                rw (other, one) (only min max m r (ground arith) (ground arith) (ground arith))
            | inr more ↦ elim (Bool-cases (ltb tag (message t m))) [
              | inl less ↦ elim (Bool-cases (m == min)) [
                | inl first ↦
                    rw (other, more, less, first)
                      (nothing_below min max m r (ground arith) (ground arith))
                | inr inner ↦
                    rw (other, more, less, inner)
                      (find_loop-Finds fuel (suc k) min (m - 1) (ground arith)
                        (lower-Range min max m r (ground arith) hi (ground arith)))
              ]
              | inr greater ↦ elim (Bool-cases (m == max)) [
                | inl last ↦
                    rw (other, more, greater, last)
                      (nothing_above min max m r (ground arith) (ground arith))
                | inr inner ↦
                    rw (other, more, greater, inner)
                      (find_loop-Finds fuel (suc k) (m + 1) max (ground arith)
                        (upper-Range min max m r lo (ground arith) (ground arith)))
              ]
            ]
          ]
        ])

-- On a table that is not empty and has its command numbers in rising order, and with no signal
-- caught, the search ends inside the table: it answers the index of the command, or -1 if no row
-- has it.
pub find_handler-Finds :
    (t : List Row) (tag : ℕ) → 0 < length t → IsAscending t → Finds t tag (find_handler quiet t tag)
unfolding find_handler
find_handler-Finds t tag h up =
    find_loop-Finds t tag up (suc (length t)) 0 0 (length t - 1) (omega arith) (record {
      ordered = omega arith;
      inside = omega arith;
      below = λ i p. absurd (omega arith);
      above = λ i p b. absurd (omega arith);
    })

ascending : List Row → Bool
ascending [] = true
ascending (r ∷ []) = true
ascending (r ∷ s ∷ t) = ltb r.0 s.0 && ascending (s ∷ t)

ascending-head :
    (r : Row) (t : List Row) (j : ℕ) → ascending (r ∷ t) ≡ true → j < length t → r.0 < message t j
unfolding ascending message
ascending-head r [] j h b = absurd (omega arith)
ascending-head r (s ∷ t) zero h b = ground arith
ascending-head r (s ∷ t) (suc j) h b = ground (arith, ascending-head s t j)

ascending_tail : (r : Row) (t : List Row) → ascending (r ∷ t) ≡ true → ascending t ≡ true
unfolding ascending
ascending_tail r [] h = refl
ascending_tail r (s ∷ t) h = ground arith

ascending-IsAscending : (t : List Row) → ascending t ≡ true → IsAscending t
ascending-IsAscending [] h i j p b = absurd (omega arith)
ascending-IsAscending (r ∷ t) h zero zero p b = absurd (omega arith)
ascending-IsAscending (r ∷ t) h zero (suc j) p b =
    unfold message in ascending-head r t j h (omega arith)
ascending-IsAscending (r ∷ t) h (suc i) zero p b = absurd (omega arith)
ascending-IsAscending (r ∷ t) h (suc i) (suc j) p b = omega (
  arith,
  message_tail r t i,
  message_tail r t j,
  ascending-IsAscending t (ascending_tail r t h) i j (omega arith) (omega arith),
)

protocol-IsAscending : IsAscending protocol
unfolding protocol ascending
protocol-IsAscending = ascending-IsAscending protocol refl

-- With no signal caught, `find_handler` finds every command of the table of handler.c, and answers
-- -1 for every other number.
pub protocol-Finds : (tag : ℕ) → Finds protocol tag (find_handler quiet protocol tag)
protocol-Finds tag = find_handler-Finds protocol tag size protocol-IsAscending
  where
    size : 0 < length protocol
    size = unfold protocol in omega arith
