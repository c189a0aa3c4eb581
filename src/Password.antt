-- ===== src/Password.antt =====
-- util.c: random bytes, nonces and the passwords of the user table, which are salted, hashed with MD5
-- and written in base 64. MD5 is an argument.
pub mod Codec
mod Bits
pub mod RoundTrip
pub mod Check
pub mod Nonce
use opennap.Base.{
  ℕ, zero, suc, ◌+◌, ◌*◌, ◌/◌, ◌%◌, ◌^◌, Bool, List, [], ◌∷◌, ◌++◌, map, Option, none, some, ◌==◌,
  ◌&&◌, ltb, if◌then◌else◌, length, take, drop, get_or, set,
}
use opennap.Text.{Bytes, codes}
use opennap.Receive.{strcmp_zero}
use Codec.{alphabet, letter, b64_encode, b64_decode}

-- `rands k` is the result of the k-th call of `rand`.
unfoldable pub get_random_bytes : (ℕ → ℕ) → ℕ → ℕ → Bytes
get_random_bytes rands k zero = []
get_random_bytes rands k (suc zero) = (rands k % 256) ∷ []
get_random_bytes rands k (suc (suc zero)) = (rands k % 256) ∷ (rands k / 2 ^ 8 % 256) ∷ []
get_random_bytes rands k (suc (suc (suc zero))) =
    (rands k % 256) ∷ (rands k / 2 ^ 8 % 256) ∷ (rands k / 2 ^ 16 % 256) ∷ []
get_random_bytes rands k (suc (suc (suc (suc dsize)))) =
    (rands k % 256)
    ∷ (rands k / 2 ^ 8 % 256)
    ∷ (rands k / 2 ^ 16 % 256)
    ∷ (rands k / 2 ^ 24 % 256)
    ∷ get_random_bytes rands (suc k) dsize

unfoldable pub hex : ℕ → ℕ
hex i = get_or (codes "0123456789ABCDEF") i 0

-- The loop of `expand_hex`, in place, from index `i - 1` down to 0.
unfoldable pub expand_hex : Bytes → ℕ → Bytes
expand_hex v zero = v
expand_hex v (suc i) =
    let low = set v (2 * i + 1) (hex (get_or v i 0 % 16)) in
    expand_hex (set low (2 * i) (hex (get_or low i 0 / 16 % 16))) i

-- The nonce in its array of 17 bytes, whose last is the terminator.
unfoldable pub generate_nonce : Bool → (ℕ → ℕ) → Option Bytes
unfolding get_random_bytes expand_hex hex
generate_nonce alloc_ok rands =
    if alloc_ok
    then some (
        take 16
          (expand_hex (get_random_bytes rands 0 8 ++ (0 ∷ 0 ∷ 0 ∷ 0 ∷ 0 ∷ 0 ∷ 0 ∷ 0 ∷ 0 ∷ [])) 8))
    else none

-- 0, -1, and a read outside of what has been written.
pub data Verdict : Type 0 where
  accepted rejected fault : Verdict

abbrev pub salt_of : (ℕ → ℕ) → Bytes
salt_of rands = map (λ c. letter (c % 64)) (get_random_bytes rands 0 8)

module _ (md5 : Bytes → Bytes) where
  -- `memcmp (real, hash, 16)`: the decoded hash must fill `real`, and fit in it.
  abbrev pub compare_hash : Option Bytes → Bytes → Verdict
  compare_hash none hash = fault
  compare_hash (some real) hash =
      if length real == 16 then if strcmp_zero real hash then accepted else rejected else fault

  abbrev pub check_salted : Bytes → Bytes → Bytes → Verdict
  check_salted salt [] pass = rejected
  check_salted salt (c ∷ info) pass =
      if c == b',' then compare_hash (b64_decode info) (md5 (salt ++ pass)) else rejected

  unfoldable pub check_pass : Bytes → Bytes → Verdict
  check_pass [] pass = rejected
  check_pass (c ∷ []) pass = rejected
  check_pass (c ∷ d ∷ info) pass =
      if c == b'1' && d == b','
      then if ltb (length info) 8 then fault else check_salted (take 8 info) (drop 8 info) pass
      else rejected

  -- The trailing `==` is cut off.
  unfoldable pub generate_pass : (ℕ → ℕ) → Bytes → Bytes
  generate_pass rands pass =
      b'1' ∷ b',' ∷ salt_of rands ++ (b',' ∷ take 22 (b64_encode (md5 (salt_of rands ++ pass))))
