-- ===== src/Channels/Replay.antt =====
-- channel.c: what the mode message that is passed on does to the flags of another server.
use opennap.Base.{
  ℕ, zero, suc, ◌≡◌, ◌≤◌, refl, sym, ap, ◌∙◌, inl, inr, Bool, true, false, not, List, [], ◌∷◌, ◌++◌,
  Option, none, some, arith, if◌then◌else◌, ◌==◌, Bool-cases, length,
}
use opennap.Text.{Bytes}
use opennap.Args.{next_arg}
use opennap.Server.{Connection}
use opennap.Channels.Ops.{nicks}
use opennap.Channels.Modes.{
  Mode, has_bit, set_bit, Changes, turn_on, turn_off, by_prefix, mode_round, mode_loop, mode_named,
}

abbrev pub same_mode : Mode → Mode → Bool
same_mode Mode.private Mode.private = true
same_mode Mode.moderated Mode.moderated = true
same_mode Mode.invite Mode.invite = true
same_mode Mode.topic Mode.topic = true
same_mode a b = false

-- The sign of a word that names a mode, and the mode.
abbrev sign_of : ℕ → Option Mode → List (Bool × Mode)
sign_of prefix none = []
sign_of prefix (some bit) =
    if prefix == b'+' then (true, bit) ∷ [] else if prefix == b'-' then (false, bit) ∷ [] else []

unfoldable pub signs : List Bytes → List (Bool × Mode)
unfolding mode_named
signs [] = []
signs ([] ∷ l) = signs l
signs ((prefix ∷ name) ∷ l) = sign_of prefix (mode_named name) ++ signs l

-- The signs that come with a mode.
unfoldable pub signs_for : Mode → List (Bool × Mode) → List Bool
signs_for m [] = []
signs_for m ((on, bit) ∷ l) = if same_mode bit m then on ∷ signs_for m l else signs_for m l

-- Of one mode: its flag, and its bits in `onmask` and `offmask`.
pub record Bits : Type 0 where
  pub flag : Bool
  pub on : Bool
  pub off : Bool

abbrev turned : Bool → Bits → Bits
turned true b = record { flag = true; on = not b.flag; off = false }
turned false b = record { flag = false; on = false; off = b.flag }

all_turned : List Bool → Bits → Bits
all_turned [] b = b
all_turned (x ∷ l) b = all_turned l (turned x b)

abbrev pub bits_of : Mode → Changes → Bits
bits_of m ch = record {
  flag = has_bit (ch.flags) m;
  on = has_bit (ch.on) m;
  off = has_bit (ch.off) m;
}

bits_of-turn_on :
    (m bit : Mode) (ch : Changes)
    → bits_of m (turn_on bit ch)
      ≡ (if same_mode bit m then turned true (bits_of m ch) else bits_of m ch)
unfolding turn_on has_bit set_bit
bits_of-turn_on Mode.private Mode.private ch = refl
bits_of-turn_on Mode.private Mode.moderated ch = refl
bits_of-turn_on Mode.private Mode.invite ch = refl
bits_of-turn_on Mode.private Mode.topic ch = refl
bits_of-turn_on Mode.moderated Mode.private ch = refl
bits_of-turn_on Mode.moderated Mode.moderated ch = refl
bits_of-turn_on Mode.moderated Mode.invite ch = refl
bits_of-turn_on Mode.moderated Mode.topic ch = refl
bits_of-turn_on Mode.invite Mode.private ch = refl
bits_of-turn_on Mode.invite Mode.moderated ch = refl
bits_of-turn_on Mode.invite Mode.invite ch = refl
bits_of-turn_on Mode.invite Mode.topic ch = refl
bits_of-turn_on Mode.topic Mode.private ch = refl
bits_of-turn_on Mode.topic Mode.moderated ch = refl
bits_of-turn_on Mode.topic Mode.invite ch = refl
bits_of-turn_on Mode.topic Mode.topic ch = refl

bits_of-turn_off :
    (m bit : Mode) (ch : Changes)
    → bits_of m (turn_off bit ch)
      ≡ (if same_mode bit m then turned false (bits_of m ch) else bits_of m ch)
unfolding turn_off has_bit set_bit
bits_of-turn_off Mode.private Mode.private ch = refl
bits_of-turn_off Mode.private Mode.moderated ch = refl
bits_of-turn_off Mode.private Mode.invite ch = refl
bits_of-turn_off Mode.private Mode.topic ch = refl
bits_of-turn_off Mode.moderated Mode.private ch = refl
bits_of-turn_off Mode.moderated Mode.moderated ch = refl
bits_of-turn_off Mode.moderated Mode.invite ch = refl
bits_of-turn_off Mode.moderated Mode.topic ch = refl
bits_of-turn_off Mode.invite Mode.private ch = refl
bits_of-turn_off Mode.invite Mode.moderated ch = refl
bits_of-turn_off Mode.invite Mode.invite ch = refl
bits_of-turn_off Mode.invite Mode.topic ch = refl
bits_of-turn_off Mode.topic Mode.private ch = refl
bits_of-turn_off Mode.topic Mode.moderated ch = refl
bits_of-turn_off Mode.topic Mode.invite ch = refl
bits_of-turn_off Mode.topic Mode.topic ch = refl

signs_for-append :
    (m : Mode) (a b : List (Bool × Mode)) → signs_for m (a ++ b) ≡ signs_for m a ++ signs_for m b
unfolding signs_for
signs_for-append m [] b = refl
signs_for-append m ((on, bit) ∷ a) b = ground (arith, signs_for-append m a b)

all_turned-append :
    (a b : List Bool) (x : Bits) → all_turned (a ++ b) x ≡ all_turned b (all_turned a x)
unfolding all_turned
all_turned-append [] b x = refl
all_turned-append (y ∷ a) b x = all_turned-append a b (turned y x)

all_turned_if :
    (b x : Bool) (bits : Bits)
    → (if b then turned x bits else bits) ≡ all_turned (if b then x ∷ [] else []) bits
unfolding all_turned
all_turned_if true x bits = refl
all_turned_if false x bits = refl

-- A round of the loop on the bits of one mode.
round_bits :
    (m : Mode) (con : Connection) (prefix : ℕ) (name : Bytes) (ch : Changes) (o : Option Mode)
    → bits_of m (by_prefix con prefix name ch o)
      ≡ all_turned (signs_for m (sign_of prefix o)) (bits_of m ch)
unfolding all_turned signs_for
round_bits m con prefix name ch none = refl
round_bits m con prefix name ch (some bit) = elim (Bool-cases (prefix == b'+')) [
  | inl e ↦ rw e (bits_of-turn_on m bit ch ∙ all_turned_if (same_mode bit m) true (bits_of m ch))
  | inr e ↦ elim (Bool-cases (prefix == b'-')) [
    | inl f ↦
        rw (e, f) (bits_of-turn_off m bit ch ∙ all_turned_if (same_mode bit m) false (bits_of m ch))
    | inr f ↦ rw (e, f) refl
  ]
]

some-inj : {A : Type 0} (a b : A) → some a ≡ some b → a ≡ b
some-inj a b e = cc

same_bits :
    (m : Mode) (ch ch' : Changes)
    → some ch ≡ some ch'
    → bits_of m ch' ≡ all_turned (signs_for m (signs [])) (bits_of m ch)
unfolding all_turned signs_for signs
same_bits m ch ch' e = sym (ap (bits_of m) (some-inj ch ch' e))

by_word :
    (fuel : ℕ) (m : Mode) (con : Connection) (rest : Option Bytes) (ch ch' : Changes)
    (word : Option Bytes)
    → ((c : Changes)
        → mode_loop fuel con rest c ≡ some ch'
        → bits_of m ch' ≡ all_turned (signs_for m (signs (nicks fuel rest))) (bits_of m c))
    → elim word [
      | none ↦ none
      | some arg ↦ elim (mode_round con arg ch) [ none ↦ none | some c ↦ mode_loop fuel con rest c ]
    ]
      ≡ some ch'
    → bits_of m ch'
      ≡ all_turned
          (signs_for m (signs (elim word [ none ↦ [] | some arg ↦ arg ∷ nicks fuel rest ])))
          (bits_of m ch)
unfolding mode_round signs
by_word fuel m con rest ch ch' none ih e = cc
by_word fuel m con rest ch ch' (some []) ih e = cc
by_word fuel m con rest ch ch' (some (prefix ∷ name)) ih e =
    let o = mode_named name in
    let l = signs (nicks fuel rest) in
    ih (by_prefix con prefix name ch o) e
    ∙ ap (all_turned (signs_for m l)) (round_bits m con prefix name ch o)
    ∙ sym (all_turned-append (signs_for m (sign_of prefix o)) (signs_for m l) (bits_of m ch))
    ∙ ap (λ x. all_turned x (bits_of m ch)) (sym (signs_for-append m (sign_of prefix o) l))

-- The loop over the words of a packet.
mode_loop-signs :
    (fuel : ℕ) (m : Mode) (con : Connection) (pkt : Option Bytes) (ch ch' : Changes)
    → mode_loop fuel con pkt ch ≡ some ch'
    → bits_of m ch' ≡ all_turned (signs_for m (signs (nicks fuel pkt))) (bits_of m ch)
unfolding mode_loop nicks
mode_loop-signs zero m con none ch ch' e = same_bits m ch ch' e
mode_loop-signs (suc fuel) m con none ch ch' e = same_bits m ch ch' e
mode_loop-signs zero m con (some pkt) ch ch' e = cc
mode_loop-signs (suc fuel) m con (some pkt) ch ch' e =
    let (word, rest) = next_arg (some pkt) in
    by_word fuel m con rest ch ch' word (λ c. mode_loop-signs fuel m con rest c ch') e

-- What a server that has the first flags has when it turns on the bits of `onmask` and off those of
-- `offmask`.
abbrev pub replayed : Bool → Bool → Bool → Bool
replayed flag on off = if on then true else if off then false else flag

abbrev pub replay_bits : Bool → Bits → Bool
replay_bits flag b = replayed flag b.on b.off

-- A mode with one sign.
replay_one :
    (flag : Bool) (l : List Bool)
    → length l ≤ 1
    → let b = all_turned l (record { flag = flag; on = false; off = false }) in
      replay_bits flag b ≡ b.flag
unfolding all_turned
replay_one true [] h = refl
replay_one false [] h = refl
replay_one true (true ∷ []) h = refl
replay_one true (false ∷ []) h = refl
replay_one false (true ∷ []) h = refl
replay_one false (false ∷ []) h = refl
replay_one flag (a ∷ b ∷ l) h = absurd (omega arith)

abbrev pub Starts : Mode → Changes → Type 0
Starts m ch = (has_bit (ch.on) m ≡ false) × (has_bit (ch.off) m ≡ false)

bits_of-Starts :
    (m : Mode) (ch : Changes)
    → Starts m ch
    → bits_of m ch ≡ record { flag = has_bit (ch.flags) m; on = false; off = false }
bits_of-Starts m ch h = let a = h.0 in let b = h.1 in ground arith

-- The loop Starts with empty masks. Where the words of the packet give a mode one sign at most, a
-- server whose channel has the same flag for that mode gets, from the bits of `onmask` and
-- `offmask` that the loop ends with, the flag that the loop leaves.
pub mode_loop-replayed :
    (fuel : ℕ) (m : Mode) (con : Connection) (pkt : Option Bytes) (ch ch' : Changes)
    → Starts m ch
    → length (signs_for m (signs (nicks fuel pkt))) ≤ 1
    → mode_loop fuel con pkt ch ≡ some ch'
    → replayed (has_bit (ch.flags) m) (has_bit (ch'.on) m) (has_bit (ch'.off) m)
      ≡ has_bit (ch'.flags) m
mode_loop-replayed fuel m con pkt ch ch' h once e =
    let l = signs_for m (signs (nicks fuel pkt)) in
    let q = mode_loop-signs fuel m con pkt ch ch' e ∙ ap (all_turned l) (bits_of-Starts m ch h) in
    ap (λ (b : Bits). replay_bits (has_bit (ch.flags) m) b) q
    ∙ replay_one (has_bit (ch.flags) m) l once
    ∙ sym (ap (λ (b : Bits). b.flag) q)

-- Where the words turn a mode on twice that was off, the masks that are passed on leave the mode
-- off on the other server, while the loop leaves it on.
pub mode_loop-replayed_twice :
    (fuel : ℕ) (m : Mode) (con : Connection) (pkt : Option Bytes) (ch ch' : Changes)
    → Starts m ch
    → has_bit (ch.flags) m ≡ false
    → signs_for m (signs (nicks fuel pkt)) ≡ true ∷ true ∷ []
    → mode_loop fuel con pkt ch ≡ some ch'
    → (has_bit (ch'.flags) m ≡ true)
      × (replayed (has_bit (ch.flags) m) (has_bit (ch'.on) m) (has_bit (ch'.off) m) ≡ false)
unfolding all_turned
mode_loop-replayed_twice fuel m con pkt ch ch' h off twice e =
    let q =
      mode_loop-signs fuel m con pkt ch ch' e
      ∙ ap (all_turned (signs_for m (signs (nicks fuel pkt)))) (bits_of-Starts m ch h)
      ∙ ap (λ l. all_turned l (record { flag = has_bit (ch.flags) m; on = false; off = false }))
          twice in
    (ap (λ (b : Bits). b.flag) q, ap (λ (b : Bits). replay_bits (has_bit (ch.flags) m) b) q ∙ off)
