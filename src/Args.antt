-- ===== src/Args.antt =====
-- util.c: taking the arguments of a message apart. The C functions write terminators into the packet
-- and hand out pointers; the model hands out the texts.
pub mod Lines
pub mod Next
use opennap.Base.{
  ℕ, zero, suc, Bool, true, false, ◌||◌, List, [], ◌∷◌, Option, none, some, ◌==◌, if◌then◌else◌,
}
use opennap.Text.{Bytes, is_space}

abbrev pub quote : ℕ
quote = 34

-- `while (ISSPACE (*pkt)) pkt++`
unfoldable pub skip_spaces : Bytes → Bytes
skip_spaces [] = []
skip_spaces (c ∷ pkt) = if is_space c then skip_spaces pkt else c ∷ pkt

-- The bytes that `strpbrk (pkt, " \t\r\n")` stops at.
unfoldable pub is_delimiter : ℕ → Bool
is_delimiter c = c == 32 || (c == 9 || (c == 13 || c == 10))

abbrev pub is_quote : ℕ → Bool
is_quote c = c == quote

-- `strchr` and `strpbrk`: the text before the first byte that stops, and the text behind it.
unfoldable pub split_at : (ℕ → Bool) → Bytes → Option (Bytes × Bytes)
split_at stops [] = none
split_at stops (c ∷ s) =
    if stops c
    then some ([], s)
    else elim (split_at stops s) [ none ↦ none | some (a, b) ↦ some (c ∷ a, b) ]

-- Whether the result is -1, and the entries of `template` that have been written, also then.
abbrev pub Split : Type 0
Split = Bool × List Bytes

abbrev pub field : Bytes → Split → Split
field f (bogus, template) = (bogus, f ∷ template)

-- `pkt++` behind a closing quote, unless the text ends there.
abbrev pub behind_quote : Bytes → Option Bytes
behind_quote [] = none
behind_quote (c ∷ pkt) = some (skip_spaces pkt)

-- The loop, with the number of fields that there is still room for. Behind a quote that is not closed
-- the rest of the text is written before the result is -1.
unfoldable pub split_loop : ℕ → Bytes → Split
split_loop zero pkt = (false, [])
split_loop (suc n) [] = (false, [])
split_loop (suc n) (c ∷ pkt) =
    let quoted : Split = elim (split_at is_quote pkt) [
      | none ↦ (true, pkt ∷ [])
      | some (f, after) ↦ elim (behind_quote after) [
        | none ↦ (false, f ∷ [])
        | some next ↦ field f (split_loop n next)
      ]
    ] in
    let plain : Split = elim (split_at is_delimiter (c ∷ pkt)) [
      | none ↦ (false, (c ∷ pkt) ∷ [])
      | some (f, after) ↦ field f (split_loop n (skip_spaces after))
    ] in
    if is_quote c then quoted else plain

unfoldable pub split_template : ℕ → Bytes → Split
split_template templatecount pkt = split_loop templatecount (skip_spaces pkt)

-- What the handlers use of it: `none` is the result -1, with which they read no field.
abbrev pub counted : Split → Option (List Bytes)
counted (true, template) = none
counted (false, template) = some template

unfoldable pub split_line : ℕ → Bytes → Option (List Bytes)
unfolding split_template
split_line templatecount pkt = counted (split_template templatecount pkt)

-- `next_arg_noskip`: the argument, and the text behind the space or null.
unfoldable pub next_arg_noskip : Bytes → Bytes × Option Bytes
next_arg_noskip r = elim (split_at (λ c. c == 32) r) [
  | none ↦ (r, none)
  | some (a, b) ↦ (a, some b)
]

abbrev pub null_if_empty : Bytes → Option Bytes
null_if_empty [] = none
null_if_empty (c ∷ s) = some (c ∷ s)

abbrev pub take_arg : (ℕ → Bool) → Bytes → Bytes × Option Bytes
take_arg stops r = elim (split_at stops r) [
  | none ↦ (r, none)
  | some (a, b) ↦ (a, null_if_empty (skip_spaces b))
]

abbrev pub arg_at : Bytes → Bytes × Option Bytes
arg_at [] = take_arg is_delimiter []
arg_at (c ∷ r) = if is_quote c then take_arg is_quote r else take_arg is_delimiter (c ∷ r)

-- `next_arg`: the argument, or null where the pointer is null, and the new value of the pointer.
unfoldable pub next_arg : Option Bytes → Option Bytes × Option Bytes
next_arg none = (none, none)
next_arg (some s) = let (r, rest) = arg_at (skip_spaces s) in (some r, rest)
