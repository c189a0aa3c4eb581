-- ===== src/Glob/Sound.antt =====
-- glob.c: what the texts are that `glob_match` accepts.
use mathlib.Core.Path.{◌≡◌}
use opennap.Base.{
  append-nil, All, ℕ, ◌≢◌, refl, sym, ap, ◌∙◌, subst, ◌⊎◌, inl, inr, Bool, true, false, ◌&&◌, [],
  ◌∷◌, ◌++◌, ◌==◌, arith, Bool-cases,
}
use native.Mathlib.Decide.{ℕ_discrete}
use opennap.Text.{Bytes, to_lower}
use opennap.Glob.{star, question, scan, glob_match, after_star}
use opennap.Glob.Complete.{step_one}
use opennap.Glob.Spec.{Matches, loose_from, is_loose}

-- A text with a part that the mask means behind some bytes.
abbrev Within : Bytes → Bytes → Type 0
Within p t = (before : Bytes) × (s : Bytes) × (t ≡ before ++ s) × Matches p s

-- Where the scan stops, the text splits.
scan_split :
    (rest : Bytes → Bool) (c : ℕ) (t : Bytes)
    → scan rest c t ≡ true
    → (before : Bytes) × (x : ℕ) × (s : Bytes) × (t ≡ before ++ x ∷ s)
      × (to_lower c ≡ to_lower x)
      × (rest s ≡ true)
unfolding scan
scan_split rest c [] h = cc
scan_split rest c (x ∷ t) h = elim (Bool-cases (scan rest c t)) [
  | inl later ↦
      let (before, y, s, e, same, r) = scan_split rest c t later in
      (x ∷ before, y, s, ap (◌∷◌ x) e, same, r)
  | inr here ↦ ([], x, t, refl, ground arith, ground arith)
]

abbrev Sound : Bytes → Type 0
Sound p =
    ((s : Bytes) → loose_from false p ≡ false → glob_match p s ≡ true → Matches p s)
    × ((t : Bytes) → loose_from true p ≡ false → after_star p t ≡ true → Within p t)

loose_split :
    (after : Bool) (c : ℕ) (p : Bytes)
    → loose_from after (c ∷ p) ≡ false
    → ((after && (c == question)) ≡ false) × (loose_from (c == star) p ≡ false)
unfolding loose_from
loose_split after c p h = ground arith

glob_cases :
    (c x : ℕ) (p s : Bytes)
    → glob_match (c ∷ p) (x ∷ s) ≡ true
    → ((c ≡ star) × (after_star p (x ∷ s) ≡ true))
      ⊎ ((c ≢ star) × ((c ≡ question) ⊎ (to_lower c ≡ to_lower x)) × (glob_match p s ≡ true))
unfolding glob_match
glob_cases c x p s h = elim (ℕ_discrete c star) [
  | yes e ↦ inl (e, ground arith)
  | no ne ↦ elim (ℕ_discrete c question) [
    | yes q ↦ inr (ne, inl q, ground arith)
    | no q ↦ inr (ne, inr (ground arith), ground arith)
  ]
]

after_cases :
    (c : ℕ) (p t : Bytes)
    → after_star (c ∷ p) t ≡ true
    → ((c ≡ star) × (after_star p t ≡ true))
      ⊎ ((c ≡ question) ⊎ ((c ≢ star) × (scan (glob_match p) c t ≡ true)))
unfolding after_star
after_cases c p t h = elim (ℕ_discrete c star) [
  | yes e ↦ inl (e, ground arith)
  | no ne ↦ elim (ℕ_discrete c question) [
    | yes q ↦ inr (inl q)
    | no q ↦ inr (inr (ne, ground arith))
  ]
]

from_star : (c : ℕ) (p t : Bytes) → c ≡ star → Within p t → Matches (c ∷ p) t
from_star c p t e (before, s, k, m) = Matches.run before e k m

Sound-glob :
    (c : ℕ) (p s : Bytes)
    → Sound p
    → loose_from false (c ∷ p) ≡ false
    → glob_match (c ∷ p) s ≡ true
    → Matches (c ∷ p) s
Sound-glob c p [] ih l h = unfold glob_match in cc
Sound-glob c p (x ∷ s) ih l h =
    let (_, tight) = loose_split false c p l in
    elim (glob_cases c x p s h) [
      | inl (e, m) ↦
          from_star c p (x ∷ s) e
            (ih.1 (x ∷ s) (subst (λ b. loose_from b p ≡ false) (star_test e) tight) m)
      | inr (ne, k, m) ↦
          Matches.one ne k (ih.0 s (subst (λ b. loose_from b p ≡ false) (literal_test ne) tight) m)
    ]
  where
    star_test : c ≡ star → (c == star) ≡ true
    star_test e = ground arith

    literal_test : c ≢ star → (c == star) ≡ false
    literal_test ne = ground arith

Sound-after :
    (c : ℕ) (p t : Bytes)
    → Sound p
    → loose_from true (c ∷ p) ≡ false
    → after_star (c ∷ p) t ≡ true
    → Within (c ∷ p) t
Sound-after c p t ih l h =
    let (plain, tight) = loose_split true c p l in
    elim (after_cases c p t h) [
      | inl (e, m) ↦ (
        [],
        t,
        refl,
        from_star c p t e (ih.1 t (subst (λ b. loose_from b p ≡ false) (star_test e) tight) m),
      )
      | inr (inl q) ↦ absurd (question_test q plain)
      | inr (inr (ne, m)) ↦
          let (before, x, s, k, same, r) = scan_split (glob_match p) c t m in
          (
            before,
            x ∷ s,
            k,
            Matches.one ne (inr same)
                (ih.0 s (subst (λ b. loose_from b p ≡ false) (literal_test ne) tight) r),
          )
    ]
  where
    star_test : c ≡ star → (c == star) ≡ true
    star_test e = ground arith

    literal_test : c ≢ star → (c == star) ≡ false
    literal_test ne = ground arith

    question_test : c ≡ question → (true && (c == question)) ≡ false → ⊥
    question_test q e = ground arith

sound : (p : Bytes) → Sound p
sound [] = (done_case, λ t l h. (t, [], sym (append-nil t), Matches.done))
  where
    done_case : (s : Bytes) → loose_from false [] ≡ false → glob_match [] s ≡ true → Matches [] s
    done_case [] l h = Matches.done
    done_case (x ∷ s) l h = unfold glob_match in cc
sound (c ∷ p) = (λ s l h. Sound-glob c p s (sound p) l h, λ t l h. Sound-after c p t (sound p) l h)

-- If no question mark follows a star in the mask, every text that `glob_match` accepts is one that
-- the mask means.
pub glob_match_sound : (p s : Bytes) → is_loose p ≡ false → glob_match p s ≡ true → Matches p s
unfolding is_loose
glob_match_sound p s l h = (sound p).0 s l h

-- The literal bytes of a mask.
abbrev pub Literal : Bytes → Type 0
Literal = All (λ c. (c ≢ star) × (c ≢ question))

-- A star behind literal bytes is not matched by the text that ends with them, although it should
-- stand for the empty rest.
pub trailing_star_rejects :
    (p : Bytes) → Literal p → (glob_match (p ++ star ∷ []) p ≡ false) × Matches (p ++ star ∷ []) p
trailing_star_rejects [] l = (unfold glob_match in refl, Matches.run [] refl refl Matches.done)
trailing_star_rejects (c ∷ p) l =
    let (r, m) = trailing_star_rejects p l.1 in
    (step_one c c (p ++ star ∷ []) p l.0.0 (inr refl) ∙ r, Matches.one l.0.0 (inr refl) m)
