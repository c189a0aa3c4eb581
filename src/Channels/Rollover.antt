-- ===== src/Channels/Rollover.antt =====
-- join.c: the name of a rollover channel, in the 256 bytes of `chanbuf`.
use opennap.Base.{
  Bool-cases, inl, inr, ◌+◌, ◌/◌, ◌%◌, ◌++◌, ◌-◌, ◌≤◌, ◌≡◌, ◌&&◌, refl, true, take, take_all,
  append-nil, length, length-append, ℤ, pos, negsuc, ℕ, zero, suc, ltb, leb, [], ◌∷◌, some, arith,
}
use opennap.Text.{Bytes}
use opennap.Server.{atoi}
use opennap.Channels.{null_list}
use opennap.Channels.Names.{rollover, in_chanbuf, digits_room, split_number, digits_of, successor}

in_chanbuf-short : (s : Bytes) → length s ≤ 255 → in_chanbuf s ≡ some s
in_chanbuf-short s h = let short : ltb (length s) 256 ≡ true = ground arith in rw short refl

pub rollover_same :
    (scratch : ℕ) (name : Bytes)
    → length name ≤ 255
    → split_number name ≡ (name, [])
    → digits_room scratch - 1 ≡ 0
    → rollover scratch name ≡ some name
unfolding rollover
rollover_same scratch name short plain no_room =
    rw (take_all 255 name short, plain, no_room, append-nil name) (in_chanbuf-short name short)

length-digits_of : (fuel n : ℕ) → length (digits_of fuel n) ≤ fuel
unfolding digits_of
length-digits_of zero n = omega arith
length-digits_of (suc fuel) n = elim (Bool-cases (ltb n 10)) [
  | inl e ↦ rw e (omega arith)
  | inr e ↦ rw e (
      omega (
        arith,
        length-append (digits_of fuel (n / 10)) ((b'0' + n % 10) ∷ []),
        length-digits_of fuel (n / 10),
      ))
]

length-successor : (n : ℤ) → length (successor n) ≤ 12
length-successor (pos n) = omega (arith, length-digits_of 11 (n + 1))
length-successor (negsuc zero) = omega (arith, length-digits_of 11 0)
length-successor (negsuc (suc n)) = omega (arith, length-digits_of 11 (suc n))

length-split_number : (s : Bytes) → length ((split_number s).0) ≤ length s
unfolding split_number
length-split_number [] = omega arith
length-split_number (c ∷ s) = elim (Bool-cases (null_list ((split_number s).0) && leb c b'9')) [
  | inl e ↦ rw e (omega arith)
  | inr e ↦ rw e (omega (arith, length-split_number s))
]

length-take : (n : ℕ) (s : Bytes) → length (take n s) ≤ length s
length-take zero s = omega arith
length-take (suc n) [] = omega arith
length-take (suc n) (c ∷ s) = omega (arith, length-take n s)

-- A name of at most 243 bytes rolls over within `chanbuf`, whatever the length of the text in `Buf`,
-- and its rollover is at most 12 bytes longer.
pub length-rollover :
    (scratch : ℕ) (name : Bytes)
    → length name ≤ 243
    → (next : Bytes) × (rollover scratch name ≡ some next) × (length next ≤ length name + 12)
unfolding rollover
length-rollover scratch name short = (next, in_chanbuf-short next (omega (arith, bound)), bound)
  where
    base : Bytes
    base = (split_number (take 255 name)).0

    end : Bytes
    end = successor (atoi ((split_number (take 255 name)).1))

    next : Bytes
    next = base ++ take (digits_room scratch - 1) end

    bound : length next ≤ length name + 12
    bound = omega (
      arith,
      length-append base (take (digits_room scratch - 1) end),
      length-split_number (take 255 name),
      length-take 255 name,
      length-take (digits_room scratch - 1) end,
      length-successor (atoi ((split_number (take 255 name)).1)),
    )
