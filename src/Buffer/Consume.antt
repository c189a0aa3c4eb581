-- ===== src/Buffer/Consume.antt =====
-- buffer.c: `buffer_consume` by the bytes that a chain delivers.
use opennap.Base.{
  ℕ, zero, suc, ◌+◌, ◌≤◌, ◌≡◌, refl, sym, ap, ◌∙◌, inl, inr, List, [], ◌∷◌, ◌++◌, arith, leb,
  length, drop, length-drop, Bool-cases, drop-append_le, drop_all,
}
use opennap.Text.{Bytes}
use opennap.Buffer.{Buffer, datasize, buffer_consume}
use opennap.Buffer.Content.{content, AllValid}

drop-nil {ℓ} : {A : Type ℓ} (n : ℕ) → drop {A = A} n [] ≡ []
drop-nil zero = refl
drop-nil (suc n) = refl

drop-drop {ℓ} : {A : Type ℓ} (c n : ℕ) (xs : List A) → drop n (drop c xs) ≡ drop (c + n) xs
drop-drop zero n xs = let e : n ≡ 0 + n = omega arith in ap (λ m. drop m xs) e
drop-drop (suc c) n [] = drop-nil n ∙ sym (drop-nil (suc c + n))
drop-drop (suc c) n (x ∷ xs) =
    let e : suc (c + n) ≡ suc c + n = omega arith in drop-drop c n xs ∙ ap (λ m. drop m (x ∷ xs)) e

drop-drop-append {ℓ} :
    {A : Type ℓ} (c n : ℕ) (xs ys : List A)
    → c + n ≤ length xs
    → drop n (drop c xs ++ ys) ≡ drop (c + n) xs ++ ys
drop-drop-append c n xs ys h =
    drop-append_le n (drop c xs) ys (omega (arith, length-drop c xs))
    ∙ ap (λ zs. zs ++ ys) (drop-drop c n xs)

-- Where `n` bytes are consumed of a chain of valid blocks, no more than its first block still has,
-- the chain delivers what is behind them, and its blocks stay valid.
pub buffer_consume-content :
    (b : Buffer) (bs : List Buffer) (n : ℕ)
    → AllValid (b ∷ bs)
    → b.consumed + n ≤ datasize b
    → (content (buffer_consume b bs n) ≡ drop n (content (b ∷ bs)))
      × AllValid (buffer_consume b bs n)
unfolding buffer_consume content
buffer_consume-content b bs n v h = elim (Bool-cases (leb (datasize b) (b.consumed + n))) [
  | inl e ↦ rw e (
    sym (
        drop-drop-append b.consumed n b.block (content bs) h
        ∙ ap (λ (xs : Bytes). xs ++ content bs) (drop_all (b.consumed + n) b.block (ground arith))),
    v.1,
  )
  | inr e ↦ rw e (
    sym (drop-drop-append b.consumed n b.block (content bs) h),
    (record { fits = v.0.fits; unread = inr (ground arith) }, v.1),
  )
]
