-- ===== src/Password/RoundTrip.antt =====
-- util.c: `b64_decode` on what `b64_encode` makes.
use opennap.Base.{
  ℕ, ◌+◌, ◌*◌, ◌/◌, ◌%◌, ◌<◌, ◌≡◌, refl, sym, ap, ◌∙◌, subst, ◌⊎◌, inl, inr, false, [], ◌∷◌, ◌++◌,
  some, arith, ◌==◌, All, bit_or,
}
use opennap.Text.{Bytes}
use opennap.Password.Codec.{
  letter, pad, quad, b64_encode, decode_two, decode_three, decode_four, join, b64_decode,
}
use opennap.Password.Bits.{join_16, join_4, join_64, lookup-letter}

abbrev pub AllBytes : Bytes → Type 0
AllBytes = All (λ c. c < 256)

-- The encoding without its padding, and the padding.
unfoldable pub b64_body : Bytes → Bytes
b64_body [] = []
b64_body (x ∷ []) = letter (x / 4) ∷ letter (x % 4 * 16) ∷ []
b64_body (x ∷ y ∷ []) = letter (x / 4) ∷ letter (x % 4 * 16 + y / 16) ∷ letter (y % 16 * 4) ∷ []
b64_body (x ∷ y ∷ z ∷ input) =
    letter (x / 4)
    ∷ letter (x % 4 * 16 + y / 16)
    ∷ letter (y % 16 * 4 + z / 64)
    ∷ letter (z % 64)
    ∷ b64_body input

unfoldable pub padding : Bytes → Bytes
padding [] = []
padding (x ∷ []) = pad ∷ pad ∷ []
padding (x ∷ y ∷ []) = pad ∷ []
padding (x ∷ y ∷ z ∷ input) = padding input

quad_three : (a b c : ℕ) → c < 64 → quad a b c 255 ≡ letter a ∷ letter b ∷ letter c ∷ pad ∷ []
unfolding quad
quad_three a b c h = let e : (c == 255) ≡ false = ground arith in rw e

quad_four :
    (a b c d : ℕ) → c < 64 → d < 64 → quad a b c d ≡ letter a ∷ letter b ∷ letter c ∷ letter d ∷ []
unfolding quad
quad_four a b c d h k =
    let e : (c == 255) ≡ false = ground arith in
    let f : (d == 255) ≡ false = ground arith in rw (e, f)

first_part : (x : ℕ) → x < 256 → x / 4 % 64 ≡ x / 4
first_part x h = omega arith

second_part : (x y : ℕ) → y < 256 → bit_or (x % 4 * 16) (y / 16 % 16) ≡ x % 4 * 16 + y / 16
second_part x y h = omega (arith, join_16 (x % 4) (y / 16 % 16) (omega arith) (omega arith))

third_part : (y z : ℕ) → z < 256 → bit_or (y % 16 * 4) (z / 64 % 4) ≡ y % 16 * 4 + z / 64
third_part y z h = omega (arith, join_4 (y % 16) (z / 64 % 4) (omega arith) (omega arith))

pub b64_encode-body : (bs : Bytes) → AllBytes bs → b64_encode bs ≡ b64_body bs ++ padding bs
unfolding b64_encode b64_body padding
b64_encode-body [] h = refl
b64_encode-body (x ∷ []) h = rw (first_part x h.0) (unfold quad in refl)
b64_encode-body (x ∷ y ∷ []) h =
    rw (first_part x h.0, second_part x y h.1.0)
      (quad_three (x / 4) (x % 4 * 16 + y / 16) (y % 16 * 4) (omega arith))
b64_encode-body (x ∷ y ∷ z ∷ input) h =
    rw (first_part x h.0, second_part x y h.1.0, third_part y z h.1.1.0)
      (ap (λ q. q ++ b64_encode input)
          (quad_four (x / 4) (x % 4 * 16 + y / 16) (y % 16 * 4 + z / 64) (z % 64) (omega arith)
            (omega arith))
        ∙ ap
            (λ (r : Bytes).
              letter (x / 4)
              ∷ letter (x % 4 * 16 + y / 16)
              ∷ letter (y % 16 * 4 + z / 64)
              ∷ letter (z % 64)
              ∷ r)
            (b64_encode-body input h.1.1.1))

first_byte : (a b : ℕ) → a < 64 → b < 64 → bit_or (a * 4) (b / 16) % 256 ≡ a * 4 + b / 16
first_byte a b h k = omega (arith, join_4 a (b / 16) h (omega arith))

second_byte : (b c : ℕ) → b < 64 → c < 64 → bit_or (b * 16 % 256) (c / 4) ≡ b % 16 * 16 + c / 4
second_byte b c h k =
    let e : b * 16 % 256 ≡ b % 16 * 16 = omega arith in
    rw e (join_16 (b % 16) (c / 4) (omega arith) (omega arith))

third_byte : (c d : ℕ) → c < 64 → d < 64 → bit_or (c * 64 % 256) d ≡ c % 4 * 64 + d
third_byte c d h k =
    let e : c * 64 % 256 ≡ c % 4 * 64 = omega arith in rw e (join_64 (c % 4) d (omega arith) k)

decode_two-letters :
    (a b : ℕ) → a < 64 → b < 64 → decode_two (letter a) (letter b) ≡ some ((a * 4 + b / 16) ∷ [])
unfolding decode_two
decode_two-letters a b h k = rw ((lookup-letter a h).0, (lookup-letter b k).0, first_byte a b h k)

decode_three-letters :
    (a b c : ℕ)
    → a < 64
    → b < 64
    → c < 64
    → decode_three (letter a) (letter b) (letter c)
      ≡ some ((a * 4 + b / 16) ∷ (b % 16 * 16 + c / 4) ∷ [])
unfolding decode_three
decode_three-letters a b c h k l = rw (
  (lookup-letter a h).0,
  (lookup-letter b k).0,
  (lookup-letter c l).0,
  first_byte a b h k,
  second_byte b c k l,
)

decode_four-letters :
    (a b c d : ℕ)
    → a < 64
    → b < 64
    → c < 64
    → d < 64
    → decode_four (letter a) (letter b) (letter c) (letter d)
      ≡ some ((a * 4 + b / 16) ∷ (b % 16 * 16 + c / 4) ∷ (c % 4 * 64 + d) ∷ [])
unfolding decode_four
decode_four-letters a b c d h k l m = rw (
  (lookup-letter a h).0,
  (lookup-letter b k).0,
  (lookup-letter c l).0,
  (lookup-letter d m).0,
  first_byte a b h k,
  second_byte b c k l,
  third_byte c d l m,
)

body_more :
    (x y z : ℕ) (input : Bytes)
    → b64_body (x ∷ y ∷ z ∷ input)
      ≡ letter (x / 4)
        ∷ letter (x % 4 * 16 + y / 16)
        ∷ letter (y % 16 * 4 + z / 64)
        ∷ letter (z % 64)
        ∷ b64_body input
unfolding b64_body
body_more x y z input = refl

list_two : (a b x y : ℕ) → a ≡ x → b ≡ y → a ∷ b ∷ [] ≡ x ∷ y ∷ []
list_two a b x y e f = rw (e, f)

list_three : (a b c x y z : ℕ) → a ≡ x → b ≡ y → c ≡ z → a ∷ b ∷ c ∷ [] ≡ x ∷ y ∷ z ∷ []
list_three a b c x y z e f g = rw (e, f, g)

-- What the reader sees behind the encoded bytes: nothing, or padding.
data Ending : Bytes → Type 0 where
  nothing : Ending []
  padded : (r : Bytes) → Ending (pad ∷ r)

decode-two_end : (p q : ℕ) (e : Bytes) → Ending e → b64_decode (p ∷ q ∷ e) ≡ decode_two p q
unfolding b64_decode
decode-two_end p q [] h = refl
decode-two_end p q (s ∷ []) (padded _) = refl
decode-two_end p q (s ∷ t ∷ r) (padded _) = refl

decode-three_end :
    (p q s : ℕ) (e : Bytes)
    → (s == pad) ≡ false
    → Ending e
    → b64_decode (p ∷ q ∷ s ∷ e) ≡ decode_three p q s
unfolding b64_decode
decode-three_end p q s [] n h = rw n
decode-three_end p q s (t ∷ r) n (padded _) = rw n

decode-four_more :
    (p q s t : ℕ) (r : Bytes)
    → (s == pad) ≡ false
    → (t == pad) ≡ false
    → b64_decode (p ∷ q ∷ s ∷ t ∷ r) ≡ join (decode_four p q s t) (b64_decode r)
unfolding b64_decode
decode-four_more p q s t r n m = rw (n, m)

padding-Ending : (x y : ℕ) → Ending (padding (x ∷ [])) × Ending (padding (x ∷ y ∷ []))
unfolding padding
padding-Ending x y = (padded (pad ∷ []), padded [])

-- The padding is there whole, or has been stripped.
abbrev pub Padded : Bytes → Bytes → Type 0
Padded bs e = (e ≡ []) ⊎ (e ≡ padding bs)

Padded-Ending : (bs e : Bytes) → Ending (padding bs) → Padded bs e → Ending e
Padded-Ending bs e h (inl q) = subst Ending (sym q) nothing
Padded-Ending bs e h (inr q) = subst Ending (sym q) h

-- The encoding of bytes, with its padding or without it, is decoded to the bytes.
pub b64_decode-b64_body :
    (bs e : Bytes) → AllBytes bs → Padded bs e → b64_decode (b64_body bs ++ e) ≡ some bs
b64_decode-b64_body [] e h p =
    unfold b64_body in ap b64_decode (empty p) ∙ unfold b64_decode in refl
  where
    empty : Padded [] e → e ≡ []
    empty (inl q) = q
    empty (inr q) = q ∙ unfold padding in refl
b64_decode-b64_body (x ∷ []) e h p =
    unfold b64_body in
    decode-two_end _ _ e (Padded-Ending (x ∷ []) e (padding-Ending x 0).0 p)
    ∙ decode_two-letters (x / 4) (x % 4 * 16) (omega arith) (omega arith)
    ∙ ap (λ (v : ℕ). some (v ∷ [])) back
  where
    back : x / 4 * 4 + x % 4 * 16 / 16 ≡ x
    back = omega arith
b64_decode-b64_body (x ∷ y ∷ []) e h p =
    let a = x / 4 in
    let b = x % 4 * 16 + y / 16 in
    let c = y % 16 * 4 in
    unfold b64_body in
    decode-three_end _ _ _ e (lookup-letter c (omega arith)).1
      (Padded-Ending (x ∷ y ∷ []) e (padding-Ending x y).1 p)
    ∙ decode_three-letters a b c (omega arith) (omega arith) (omega arith)
    ∙ ap some (list_two _ _ x y (omega arith) (omega arith))
b64_decode-b64_body (x ∷ y ∷ z ∷ input) e h p =
    let a = x / 4 in
    let b = x % 4 * 16 + y / 16 in
    let c = y % 16 * 4 + z / 64 in
    let d = z % 64 in
    ap (λ bs. b64_decode (bs ++ e)) (body_more x y z input)
    ∙ decode-four_more _ _ _ _ (b64_body input ++ e) (lookup-letter c (omega arith)).1
        (lookup-letter d (omega arith)).1
    ∙ ap (λ r. join r (b64_decode (b64_body input ++ e)))
        (decode_four-letters a b c d (omega arith) (omega arith) (omega arith) (omega arith)
          ∙ ap some (list_three _ _ _ x y z (omega arith) (omega arith) (omega arith)))
    ∙ ap (join (some (x ∷ y ∷ z ∷ []))) (b64_decode-b64_body input e h.1.1.1 (padding_more p))
  where
    padding_more : Padded (x ∷ y ∷ z ∷ input) e → Padded input e
    padding_more (inl q) = inl q
    padding_more (inr q) = inr (q ∙ unfold padding in refl)

-- A list of bytes that is encoded, padding included, is decoded to itself.
pub b64_decode-b64_encode : (bs : Bytes) → AllBytes bs → b64_decode (b64_encode bs) ≡ some bs
b64_decode-b64_encode bs h =
    ap b64_decode (b64_encode-body bs h) ∙ b64_decode-b64_body bs (padding bs) h (inr refl)
