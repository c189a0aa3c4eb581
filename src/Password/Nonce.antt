-- ===== src/Password/Nonce.antt =====
-- util.c: `expand_hex`, in place, and `generate_nonce`.
use opennap.Base.{
  ℕ, zero, suc, ◌+◌, ◌*◌, ◌/◌, ◌%◌, ◌≤◌, ◌<◌, ◌≡◌, ◌≢◌, refl, sym, ap, ◌∙◌, arith, length, get_or,
  set, length-set, get_or-set_self, get_or-set_ne,
}
use native.Mathlib.Decide.{ℕ_discrete}
use opennap.Text.{Bytes}
use opennap.Password.{hex, expand_hex}

-- One round of the loop.
abbrev spread : Bytes → ℕ → Bytes
spread v i =
    let low = set v (2 * i + 1) (hex (get_or v i 0 % 16)) in
    set low (2 * i) (hex (get_or low i 0 / 16 % 16))

-- Its first half, which writes the low digit.
abbrev low_half : Bytes → ℕ → Bytes
low_half v i = set v (2 * i + 1) (hex (get_or v i 0 % 16))

spread_low :
    (v : Bytes) (i : ℕ)
    → 2 * i + 1 < length v
    → get_or (spread v i) (2 * i + 1) 0 ≡ hex (get_or v i 0 % 16)
spread_low v i h =
    get_or-set_ne (low_half v i) (hex (get_or (low_half v i) i 0 / 16 % 16)) 0 (omega arith)
    ∙ get_or-set_self v (2 * i + 1) (hex (get_or v i 0 % 16)) 0 h

low_half-same : (v : Bytes) (i : ℕ) → get_or (low_half v i) i 0 ≡ get_or v i 0
low_half-same v i = get_or-set_ne v (hex (get_or v i 0 % 16)) 0 (omega arith)

spread_high :
    (v : Bytes) (i : ℕ)
    → 2 * i + 1 < length v
    → get_or (spread v i) (2 * i) 0 ≡ hex (get_or v i 0 / 16 % 16)
spread_high v i h =
    get_or-set_self (low_half v i) (2 * i) (hex (get_or (low_half v i) i 0 / 16 % 16)) 0
      (let e = length-set v (2 * i + 1) (hex (get_or v i 0 % 16)) in omega arith)
    ∙ ap (λ n. hex (n / 16 % 16)) (low_half-same v i)

spread_other :
    (v : Bytes) (i k : ℕ) → k ≢ 2 * i → k ≢ 2 * i + 1 → get_or (spread v i) k 0 ≡ get_or v k 0
spread_other v i k ne also =
    get_or-set_ne (low_half v i) (hex (get_or (low_half v i) i 0 / 16 % 16)) 0 (λ e. ne (sym e))
    ∙ get_or-set_ne v (hex (get_or v i 0 % 16)) 0 (λ e. also (sym e))

length-spread : (v : Bytes) (i : ℕ) → length (spread v i) ≡ length v
length-spread v i =
    length-set (low_half v i) (2 * i) (hex (get_or (low_half v i) i 0 / 16 % 16))
    ∙ length-set v (2 * i + 1) (hex (get_or v i 0 % 16))

expand_step : (v : Bytes) (i : ℕ) → expand_hex v (suc i) ≡ expand_hex (spread v i) i
unfolding expand_hex
expand_step v i = refl

expand_above : (n k : ℕ) (v : Bytes) → 2 * n ≤ k → get_or (expand_hex v n) k 0 ≡ get_or v k 0
unfolding expand_hex
expand_above zero k v h = refl
expand_above (suc n) k v h =
    expand_above n k (spread v n) (omega arith) ∙ spread_other v n k (omega arith) (omega arith)

-- `expand_hex` writes the two hexadecimal digits of each byte, the high one first, in place over the
-- bytes, where the array has room for them; it changes nothing behind them.
pub expand_hex-digits :
    (n j : ℕ) (v : Bytes)
    → 2 * n ≤ length v
    → j < n
    → (get_or (expand_hex v n) (2 * j) 0 ≡ hex (get_or v j 0 / 16 % 16))
      × (get_or (expand_hex v n) (2 * j + 1) 0 ≡ hex (get_or v j 0 % 16))
      × ((k : ℕ) → 2 * n ≤ k → get_or (expand_hex v n) k 0 ≡ get_or v k 0)
expand_hex-digits zero j v h lt = absurd (omega arith)
expand_hex-digits (suc n) j v h lt = elim (ℕ_discrete j n) [
  | yes e ↦ (
    rw (e, expand_step v n)
        (expand_above n (2 * n) (spread v n) (omega arith) ∙ spread_high v n (omega arith)),
    rw (e, expand_step v n)
        (expand_above n (2 * n + 1) (spread v n) (omega arith) ∙ spread_low v n (omega arith)),
    λ k more. expand_above (suc n) k v more,
  )
  | no ne ↦
      let len = length-spread v n in
      let (high, low, same) = expand_hex-digits n j (spread v n) (omega arith) (omega arith) in
      let kept = spread_other v n j (omega arith) (omega arith) in
      (
        ap (λ w. get_or w (2 * j) 0) (expand_step v n) ∙ high ∙ ap (λ b. hex (b / 16 % 16)) kept,
        ap (λ w. get_or w (2 * j + 1) 0) (expand_step v n) ∙ low ∙ ap (λ b. hex (b % 16)) kept,
        λ k more. expand_above (suc n) k v more,
      )
]
