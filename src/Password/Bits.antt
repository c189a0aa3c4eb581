-- ===== src/Password/Bits.antt =====
-- util.c: the bit operations and the tables of the coding in base 64.
use opennap.Base.{
  ℕ, zero, suc, ◌+◌, ◌*◌, ◌<◌, ◌≡◌, refl, bit_or, Bool, true, false, ◌&&◌, none, some, arith, ◌==◌,
  if◌then◌else◌, ==_iff, not,
}
use opennap.Password.Codec.{letter, b64_lookup, pad}

-- A test that holds of each number below a bound, found by evaluation.
holds_below : (ℕ → Bool) → ℕ → Bool
holds_below test zero = true
holds_below test (suc k) = if test k then holds_below test k else false

holds_below_lem : (test : ℕ → Bool) (k i : ℕ) → i < k → holds_below test k ≡ true → test i ≡ true
unfolding holds_below
holds_below_lem test zero i h e = absurd (omega arith)
holds_below_lem test (suc k) i h e = ground (arith, holds_below_lem test k i)

-- The two parts of a byte that is put together at bit k.
joins : ℕ → ℕ → ℕ → Bool
unfolding holds_below
joins n m k = holds_below (λ i. holds_below (λ j. bit_or (i * k) j == i * k + j) m) n

joins_lem : (n m k i j : ℕ) → joins n m k ≡ true → i < n → j < m → bit_or (i * k) j ≡ i * k + j
unfolding joins
joins_lem n m k i j h lt lu =
    let row = holds_below_lem (λ i. holds_below (λ j. bit_or (i * k) j == i * k + j) m) n i lt h in
    (==_iff _ _).0 (holds_below_lem (λ j. bit_or (i * k) j == i * k + j) m j lu row)

pub join_16 : (i j : ℕ) → i < 16 → j < 16 → bit_or (i * 16) j ≡ i * 16 + j
join_16 i j h k = joins_lem 16 16 16 i j (unfold joins in refl) h k

pub join_4 : (i j : ℕ) → i < 64 → j < 4 → bit_or (i * 4) j ≡ i * 4 + j
join_4 i j h k = joins_lem 64 4 4 i j (unfold joins in refl) h k

pub join_64 : (i j : ℕ) → i < 4 → j < 64 → bit_or (i * 64) j ≡ i * 64 + j
join_64 i j h k = joins_lem 4 64 64 i j (unfold joins in refl) h k

finds : ℕ → ℕ → Bool
finds i c = elim (b64_lookup c) [ none ↦ false | some j ↦ i == j ]

finds_lem : (i c : ℕ) → finds i c ≡ true → b64_lookup c ≡ some i
unfolding finds
finds_lem i c h = ground arith

letter_table :
    holds_below (λ i. finds i (letter i) && (not (letter i == pad) && not (i == 255))) 64 ≡ true
unfolding holds_below finds b64_lookup letter
letter_table = refl

-- A letter of the alphabet is found at its number, and is no padding.
pub lookup-letter : (i : ℕ) → i < 64 → (b64_lookup (letter i) ≡ some i) × (letter i == pad ≡ false)
lookup-letter i h =
    let e =
      holds_below_lem (λ i. finds i (letter i) && (not (letter i == pad) && not (i == 255))) 64 i h
        letter_table in
    (finds_lem i (letter i) (ground arith), ground arith)
