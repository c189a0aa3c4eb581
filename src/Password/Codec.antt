-- ===== src/Password/Codec.antt =====
-- util.c: `b64_encode` and `b64_decode`, on the bytes of `char` arrays.
use opennap.Base.{
  get_elem?, ℕ, ◌*◌, ◌/◌, ◌%◌, bit_or, [], ◌∷◌, ◌++◌, Option, none, some, ◌==◌, if◌then◌else◌,
  get_or,
}
use opennap.Text.{Bytes, codes}

unfoldable pub alphabet : Bytes
alphabet = codes "ABCDEFGHIJKLMNOPQRSTUVWXYZabcdefghijklmnopqrstuvwxyz0123456789+/"

unfoldable pub letter : ℕ → ℕ
unfolding alphabet
letter i = get_or alphabet i 0

abbrev pub pad : ℕ
pad = b'='

-- The four characters of a round. 0xff marks what has no input.
unfoldable pub quad : ℕ → ℕ → ℕ → ℕ → Bytes
quad a b c d =
    letter a
    ∷ letter b
    ∷ (if c == 255 then pad ∷ pad ∷ [] else letter c ∷ (if d == 255 then pad else letter d) ∷ [])

unfoldable pub b64_encode : Bytes → Bytes
b64_encode [] = []
b64_encode (x ∷ []) = quad (x / 4 % 64) (x % 4 * 16) 255 255
b64_encode (x ∷ y ∷ []) = quad (x / 4 % 64) (bit_or (x % 4 * 16) (y / 16 % 16)) (y % 16 * 4) 255
b64_encode (x ∷ y ∷ z ∷ input) =
    quad (x / 4 % 64) (bit_or (x % 4 * 16) (y / 16 % 16)) (bit_or (y % 16 * 4) (z / 64 % 4))
      (z % 64)
    ++ b64_encode input

-- The table, with -1 as the `unsigned char` that it is stored in.
unfoldable pub lookup_table : Bytes
lookup_table =
    255 ∷ 255 ∷ 255 ∷ 255 ∷ 255 ∷ 255 ∷ 255 ∷ 255 ∷ 255 ∷ 255 ∷ 255 ∷ 255 ∷ 255 ∷ 255 ∷ 255 ∷ 255
    ∷ 255 ∷ 255 ∷ 255 ∷ 255 ∷ 255 ∷ 255 ∷ 255 ∷ 255 ∷ 255 ∷ 255 ∷ 255 ∷ 255 ∷ 255 ∷ 255 ∷ 255 ∷ 255
    ∷ 255 ∷ 255 ∷ 255 ∷ 255 ∷ 255 ∷ 255 ∷ 255 ∷ 255 ∷ 255 ∷ 255 ∷ 255 ∷ 62 ∷ 255 ∷ 255 ∷ 255 ∷ 63
    ∷ 52 ∷ 53 ∷ 54 ∷ 55 ∷ 56 ∷ 57 ∷ 58 ∷ 59 ∷ 60 ∷ 61 ∷ 255 ∷ 255 ∷ 255 ∷ 255 ∷ 255 ∷ 255 ∷ 255 ∷ 0
    ∷ 1 ∷ 2 ∷ 3 ∷ 4 ∷ 5 ∷ 6 ∷ 7 ∷ 8 ∷ 9 ∷ 10 ∷ 11 ∷ 12 ∷ 13 ∷ 14 ∷ 15 ∷ 16 ∷ 17 ∷ 18 ∷ 19 ∷ 20 ∷ 21
    ∷ 22 ∷ 23 ∷ 24 ∷ 25 ∷ 255 ∷ 255 ∷ 255 ∷ 255 ∷ 255 ∷ 255 ∷ 26 ∷ 27 ∷ 28 ∷ 29 ∷ 30 ∷ 31 ∷ 32 ∷ 33
    ∷ 34 ∷ 35 ∷ 36 ∷ 37 ∷ 38 ∷ 39 ∷ 40 ∷ 41 ∷ 42 ∷ 43 ∷ 44 ∷ 45 ∷ 46 ∷ 47 ∷ 48 ∷ 49 ∷ 50 ∷ 51 ∷ 255
    ∷ 255 ∷ 255 ∷ 255 ∷ 255 ∷ []

-- `none` where the index is outside the table.
unfoldable pub b64_lookup : ℕ → Option ℕ
unfolding lookup_table
b64_lookup c = get_elem? lookup_table c

infixl 5 ◌>>=◌
abbrev pub ◌>>=◌ : {A B : Type 0} → Option A → (A → Option B) → Option B
none >>= f = none
some a >>= f = f a

-- The bytes that two, three and four characters make.
unfoldable pub decode_two : ℕ → ℕ → Option Bytes
decode_two p q = do a ← b64_lookup p; b ← b64_lookup q; some (bit_or (a * 4) (b / 16) % 256 ∷ [])

unfoldable pub decode_three : ℕ → ℕ → ℕ → Option Bytes
decode_three p q s = do
  a ← b64_lookup p
  b ← b64_lookup q
  c ← b64_lookup s
  some (bit_or (a * 4) (b / 16) % 256 ∷ bit_or (b * 16 % 256) (c / 4) ∷ [])

unfoldable pub decode_four : ℕ → ℕ → ℕ → ℕ → Option Bytes
decode_four p q s t = do
  a ← b64_lookup p
  b ← b64_lookup q
  c ← b64_lookup s
  d ← b64_lookup t
  some
      (bit_or (a * 4) (b / 16) % 256 ∷ bit_or (b * 16 % 256) (c / 4) ∷ bit_or (c * 64 % 256) d ∷ [])

abbrev pub join : Option Bytes → Option Bytes → Option Bytes
join none r = none
join (some bs) none = none
join (some bs) (some cs) = some (bs ++ cs)

-- `none` where the function reads behind the end of its input, or outside the table.
unfoldable pub b64_decode : Bytes → Option Bytes
b64_decode [] = some []
b64_decode (p ∷ []) = none
b64_decode (p ∷ q ∷ []) = decode_two p q
b64_decode (p ∷ q ∷ s ∷ []) = if s == pad then decode_two p q else decode_three p q s
b64_decode (p ∷ q ∷ s ∷ t ∷ input) =
    let rest = b64_decode input in
    if s == pad
    then decode_two p q
    else if t == pad
    then decode_three p q s
    else join (decode_four p q s t) rest
