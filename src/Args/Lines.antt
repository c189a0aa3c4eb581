-- ===== src/Args/Lines.antt =====
-- util.c: `split_line` on a line of printed arguments.
use opennap.Base.{
  ℕ, zero, suc, ◌≤◌, ◌≡◌, ◌≢◌, refl, subst, ap, ◌∙◌, Bool, true, false, List, [], ◌∷◌, ◌++◌, map,
  Option, none, some, arith, length, All, append_assoc, Bool-cases, inl, inr,
}
use opennap.Text.{Bytes, is_space}
use opennap.Args.{
  quote, skip_spaces, is_delimiter, is_quote, split_at, field, behind_quote, Split, counted,
  split_loop, split_template, split_line,
}

-- An argument as a message prints it, `%s` or `\"%s\"`.
pub data Arg : Type 0 where
  plain : ℕ → Bytes → Arg
  quoted : Bytes → Arg

-- A plain argument is not empty: its first byte stands apart.
abbrev pub value : Arg → Bytes
value (plain c f) = c ∷ f
value (quoted f) = f

abbrev pub print_arg : Arg → Bytes
print_arg (plain c f) = c ∷ f
print_arg (quoted f) = quote ∷ f ++ quote ∷ []

abbrev pub NoSpace : Bytes → Type 0
NoSpace = All (λ c. is_space c ≡ false)

abbrev pub NoQuote : Bytes → Type 0
NoQuote = All (λ c. c ≢ quote)

-- A plain argument has no space and does not begin with a quote; a quoted one has no quote.
abbrev pub IsClean : Arg → Type 0
IsClean (plain c f) = (c ≢ quote) × NoSpace (c ∷ f)
IsClean (quoted f) = NoQuote f

unfoldable pub print_args : List Arg → Bytes
print_args [] = []
print_args (a ∷ []) = print_arg a
print_args (a ∷ b ∷ as') = print_arg a ++ 32 ∷ print_args (b ∷ as')

pub split_at-none :
    (stops : ℕ → Bool) (f : Bytes) → All (λ c. stops c ≡ false) f → split_at stops f ≡ none
unfolding split_at
split_at-none stops [] h = refl
split_at-none stops (c ∷ f) h = ground (arith, split_at-none stops f h.1)

pub split_at-some :
    (stops : ℕ → Bool) (f : Bytes) (d : ℕ) (rest : Bytes)
    → All (λ c. stops c ≡ false) f
    → stops d ≡ true
    → split_at stops (f ++ d ∷ rest) ≡ some (f, rest)
unfolding split_at
split_at-some stops [] d rest h e = rw e
split_at-some stops (c ∷ f) d rest h e = ground (arith, split_at-some stops f d rest h.1 e)

space_delimits : (c : ℕ) → is_space c ≡ false → is_delimiter c ≡ false
unfolding is_space is_delimiter
space_delimits c h = ground arith

pub NoSpace-delimiters : (f : Bytes) → NoSpace f → All (λ c. is_delimiter c ≡ false) f
NoSpace-delimiters [] h = tt
NoSpace-delimiters (c ∷ f) h = (space_delimits c h.0, NoSpace-delimiters f h.1)

pub NoQuote-quotes : (f : Bytes) → NoQuote f → All (λ c. is_quote c ≡ false) f
NoQuote-quotes [] h = tt
NoQuote-quotes (c ∷ f) h = (ground arith, NoQuote-quotes f h.1)

-- Printed arguments do not begin with a space.
pub skip_print_args :
    (as' : List Arg) → All IsClean as' → skip_spaces (print_args as') ≡ print_args as'
unfolding skip_spaces print_args is_space
skip_print_args [] h = refl
skip_print_args (plain c f ∷ []) h = ground arith
skip_print_args (plain c f ∷ b ∷ r) h = ground arith
skip_print_args (quoted f ∷ []) h = refl
skip_print_args (quoted f ∷ b ∷ r) h = refl

loop_plain_last :
    (n c : ℕ) (s : Bytes)
    → is_quote c ≡ false
    → split_at is_delimiter (c ∷ s) ≡ none
    → split_loop (suc n) (c ∷ s) ≡ (false, (c ∷ s) ∷ [])
unfolding split_loop
loop_plain_last n c s q e = rw (q, e)

loop_plain :
    (n c : ℕ) (s f after : Bytes)
    → is_quote c ≡ false
    → split_at is_delimiter (c ∷ s) ≡ some (f, after)
    → split_loop (suc n) (c ∷ s) ≡ field f (split_loop n (skip_spaces after))
unfolding split_loop
loop_plain n c s f after q e = rw (q, e)

loop_quoted_last :
    (n : ℕ) (s f : Bytes)
    → split_at is_quote s ≡ some (f, [])
    → split_loop (suc n) (quote ∷ s) ≡ (false, f ∷ [])
unfolding split_loop
loop_quoted_last n s f e = rw e

loop_quoted :
    (n d : ℕ) (s f after : Bytes)
    → split_at is_quote s ≡ some (f, d ∷ after)
    → split_loop (suc n) (quote ∷ s) ≡ field f (split_loop n (skip_spaces after))
unfolding split_loop
loop_quoted n d s f after e = rw e

pub print_plain :
    (c : ℕ) (f : Bytes) (b : Arg) (r : List Arg)
    → print_args (plain c f ∷ b ∷ r) ≡ c ∷ (f ++ 32 ∷ print_args (b ∷ r))
unfolding print_args
print_plain c f b r = refl

pub print_quoted :
    (f : Bytes) (b : Arg) (r : List Arg)
    → print_args (quoted f ∷ b ∷ r) ≡ quote ∷ (f ++ quote ∷ 32 ∷ print_args (b ∷ r))
unfolding print_args
print_quoted f b r = ap (◌∷◌ quote) (append_assoc f (quote ∷ []) _)

split_loop_print :
    (n : ℕ) (as' : List Arg)
    → length as' ≤ n
    → All IsClean as'
    → split_loop n (print_args as') ≡ (false, map value as')
split_loop_print zero [] h k = unfold split_loop in refl
split_loop_print (suc n) [] h k = unfold split_loop print_args in refl
split_loop_print zero (a ∷ r) h k = absurd (omega arith)
split_loop_print (suc n) (plain c f ∷ []) h k =
    unfold print_args in
    loop_plain_last n c f (ground arith)
      (split_at-none is_delimiter (c ∷ f) (NoSpace-delimiters (c ∷ f) k.0.1))
split_loop_print (suc n) (plain c f ∷ b ∷ r) h k =
    let rest = print_args (b ∷ r) in
    let step = loop_plain n c (f ++ 32 ∷ rest) (c ∷ f) rest (ground arith) (
      split_at-some is_delimiter (c ∷ f) 32 rest (NoSpace-delimiters (c ∷ f) k.0.1)
        (unfold is_delimiter in refl)) in
    ap (split_loop (suc n)) (print_plain c f b r)
    ∙ step
    ∙ ap (λ t. field (c ∷ f) (split_loop n t)) (skip_print_args (b ∷ r) k.1)
    ∙ ap (field (c ∷ f)) (split_loop_print n (b ∷ r) (omega arith) k.1)
split_loop_print (suc n) (quoted f ∷ []) h k =
    unfold print_args in
    loop_quoted_last n (f ++ quote ∷ []) f
      (split_at-some is_quote f quote [] (NoQuote-quotes f k.0) refl)
split_loop_print (suc n) (quoted f ∷ b ∷ r) h k =
    let rest = print_args (b ∷ r) in
    let step =
      loop_quoted n 32 (f ++ quote ∷ 32 ∷ rest) f rest
        (split_at-some is_quote f quote (32 ∷ rest) (NoQuote-quotes f k.0) refl) in
    ap (split_loop (suc n)) (print_quoted f b r)
    ∙ step
    ∙ ap (λ t. field f (split_loop n t)) (skip_print_args (b ∷ r) k.1)
    ∙ ap (field f) (split_loop_print n (b ∷ r) (omega arith) k.1)

-- A line of clean arguments, no more than there is room for, is taken apart into their values, in
-- order, quotes and spaces removed.
pub split_line-print_args :
    (n : ℕ) (as' : List Arg)
    → length as' ≤ n
    → All IsClean as'
    → split_line n (print_args as') ≡ some (map value as')
unfolding split_line
split_line-print_args n as' h k =
    ap counted (ap (split_loop n) (skip_print_args as' k) ∙ split_loop_print n as' h k)

-- At most `n` entries are written.
abbrev AtMost : ℕ → Split → Type 0
AtMost n (bogus, template) = length template ≤ n

quoted-AtMost :
    (n : ℕ) (pkt : Bytes) (r : Option (Bytes × Bytes))
    → ((s : Bytes) → AtMost n (split_loop n s))
    → AtMost (suc n) (elim r [
      | none ↦ (true, pkt ∷ [])
      | some (f, after) ↦ elim (behind_quote after) [
        | none ↦ (false, f ∷ [])
        | some next ↦ field f (split_loop n next)
      ]
    ])
quoted-AtMost n pkt none ih = omega arith
quoted-AtMost n pkt (some (f, [])) ih = omega arith
quoted-AtMost n pkt (some (f, c ∷ after)) ih = let rest = ih (skip_spaces after) in omega arith

plain-AtMost :
    (n : ℕ) (whole : Bytes) (r : Option (Bytes × Bytes))
    → ((s : Bytes) → AtMost n (split_loop n s))
    → AtMost (suc n) (elim r [
      | none ↦ (false, whole ∷ [])
      | some (f, after) ↦ field f (split_loop n (skip_spaces after))
    ])
plain-AtMost n whole none ih = omega arith
plain-AtMost n whole (some (f, after)) ih = let rest = ih (skip_spaces after) in omega arith

split_loop-AtMost : (n : ℕ) (s : Bytes) → AtMost n (split_loop n s)
unfolding split_loop
split_loop-AtMost zero s = omega arith
split_loop-AtMost (suc n) [] = omega arith
split_loop-AtMost (suc n) (c ∷ s) = elim (Bool-cases (is_quote c)) [
  | inl q ↦ rw q (quoted-AtMost n s (split_at is_quote s) (split_loop-AtMost n))
  | inr q ↦ rw q (plain-AtMost n (c ∷ s) (split_at is_delimiter (c ∷ s)) (split_loop-AtMost n))
]

counted-AtMost :
    (n : ℕ) (r : Split) (fs : List Bytes) → AtMost n r → counted r ≡ some fs → length fs ≤ n
counted-AtMost n (true, template) fs h e = cc
counted-AtMost n (false, template) fs h e =
    let same : template ≡ fs = cc in subst (λ l. length l ≤ n) same h

-- `split_line` never writes more entries of `template` than there is room for, whether its result is
-- a count or -1, and a count that it answers is no more than that room.
pub length-split_line :
    (n : ℕ) (s : Bytes)
    → (length (split_template n s).1 ≤ n)
      × ((fs : List Bytes) → split_line n s ≡ some fs → length fs ≤ n)
unfolding split_line split_template
length-split_line n s = (
  split_loop-AtMost n (skip_spaces s),
  λ fs e.
      counted-AtMost n (split_loop n (skip_spaces s)) fs (split_loop-AtMost n (skip_spaces s)) e,
)
