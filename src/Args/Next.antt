-- ===== src/Args/Next.antt =====
-- util.c: `next_arg` on printed arguments.
use opennap.Base.{
  ℕ, ◌≡◌, ◌≢◌, refl, ap, ◌∙◌, Bool, List, [], ◌∷◌, ◌++◌, Option, none, some, arith, All, Bool-cases,
  inl, inr,
}
use opennap.Text.{Bytes, is_space}
use opennap.Args.{
  quote, skip_spaces, is_delimiter, is_quote, split_at, take_arg, arg_at, null_if_empty, next_arg,
}
use opennap.Args.Lines.{
  Arg, plain, quoted, value, print_args, IsClean, NoSpace-delimiters, NoQuote-quotes,
  skip_print_args, split_at-none, split_at-some, print_plain, print_quoted,
}

-- The pointer to the printed arguments, null if there are none.
abbrev pub pointer : List Arg → Option Bytes
pointer [] = none
pointer (a ∷ as') = some (print_args (a ∷ as'))

skip_pointer :
    (b : Arg) (r : List Arg)
    → All IsClean (b ∷ r)
    → null_if_empty (skip_spaces (print_args (b ∷ r))) ≡ some (print_args (b ∷ r))
skip_pointer b r k = ap null_if_empty (skip_print_args (b ∷ r) k) ∙ nonempty b r
  where
    nonempty :
        (b : Arg) (r : List Arg) → null_if_empty (print_args (b ∷ r)) ≡ some (print_args (b ∷ r))
    nonempty (plain c f) [] = unfold print_args in refl
    nonempty (plain c f) (d ∷ r) = unfold print_args in refl
    nonempty (quoted f) [] = unfold print_args in refl
    nonempty (quoted f) (d ∷ r) = unfold print_args in refl

take_last : (stops : ℕ → Bool) (s : Bytes) → split_at stops s ≡ none → take_arg stops s ≡ (s, none)
take_last stops s e = rw (e, take_arg)

take_more :
    (stops : ℕ → Bool) (s f after : Bytes)
    → split_at stops s ≡ some (f, after)
    → take_arg stops s ≡ (f, null_if_empty (skip_spaces after))
take_more stops s f after e = rw (e, take_arg)

arg_plain : (c : ℕ) (s : Bytes) → c ≢ quote → arg_at (c ∷ s) ≡ take_arg is_delimiter (c ∷ s)
arg_plain c s h = elim (Bool-cases (is_quote c)) [
  | inl e ↦ absurd (h (ground arith))
  | inr e ↦ rw e
]

skip_nothing : skip_spaces [] ≡ []
unfolding skip_spaces
skip_nothing = refl

skip_one : (s : Bytes) → skip_spaces (32 ∷ s) ≡ skip_spaces s
unfolding skip_spaces is_space
skip_one s = refl

arg_at-print_args :
    (a : Arg) (as' : List Arg)
    → All IsClean (a ∷ as')
    → arg_at (print_args (a ∷ as')) ≡ (value a, pointer as')
arg_at-print_args (plain c f) [] k =
    unfold print_args in
    arg_plain c f k.0.0
    ∙ take_last is_delimiter (c ∷ f)
        (split_at-none is_delimiter (c ∷ f) (NoSpace-delimiters (c ∷ f) k.0.1))
arg_at-print_args (plain c f) (b ∷ r) k =
    ap arg_at (print_plain c f b r)
    ∙ arg_plain c (f ++ 32 ∷ print_args (b ∷ r)) k.0.0
    ∙ take_more is_delimiter _ (c ∷ f) (print_args (b ∷ r)) (
        split_at-some is_delimiter (c ∷ f) 32 _ (NoSpace-delimiters (c ∷ f) k.0.1)
          (unfold is_delimiter in refl))
    ∙ ap (λ t. (c ∷ f, t)) (skip_pointer b r k.1)
arg_at-print_args (quoted f) [] k =
    unfold print_args in
    take_more is_quote (f ++ quote ∷ []) f []
      (split_at-some is_quote f quote [] (NoQuote-quotes f k.0) refl)
    ∙ ap (λ t. (f, null_if_empty t)) skip_nothing
arg_at-print_args (quoted f) (b ∷ r) k =
    ap arg_at (print_quoted f b r)
    ∙ take_more is_quote _ f (32 ∷ print_args (b ∷ r))
        (split_at-some is_quote f quote (32 ∷ print_args (b ∷ r)) (NoQuote-quotes f k.0) refl)
    ∙ ap (λ t. (f, null_if_empty t)) (skip_one (print_args (b ∷ r)))
    ∙ ap (λ t. (f, t)) (skip_pointer b r k.1)

-- On clean arguments that are printed with single spaces, `next_arg` answers the value of the first
-- and moves the pointer to the next, or to null behind the last.
pub next_arg-print_args :
    (a : Arg) (as' : List Arg)
    → All IsClean (a ∷ as')
    → next_arg (pointer (a ∷ as')) ≡ (some (value a), pointer as')
unfolding next_arg
next_arg-print_args a as' k =
    ap (λ s. (some (arg_at s).0, (arg_at s).1)) (skip_print_args (a ∷ as') k)
    ∙ ap (λ (r : Bytes × Option Bytes). (some r.0, r.1)) (arg_at-print_args a as' k)
