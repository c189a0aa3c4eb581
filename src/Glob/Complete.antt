-- ===== src/Glob/Complete.antt =====
-- glob.c: `glob_match` on texts that the mask means.
use opennap.Base.{
  ℕ, ◌≡◌, ◌≢◌, refl, sym, ◌∙◌, subst, ◌⊎◌, inl, inr, Bool, true, false, [], ◌∷◌, ◌++◌, arith,
  append_assoc,
}
use native.Mathlib.Decide.{ℕ_discrete}
use opennap.Text.{Bytes, to_lower}
use opennap.Glob.{star, question, scan, glob_match, after_star}
use opennap.Glob.Spec.{Matches, ends_in_star}

scan_hit :
    (rest : Bytes → Bool) (c x : ℕ) (before s : Bytes)
    → to_lower c ≡ to_lower x
    → rest s ≡ true
    → scan rest c (before ++ x ∷ s) ≡ true
unfolding scan
scan_hit rest c x [] s e h = ground arith
scan_hit rest c x (y ∷ before) s e h = ground (arith, scan_hit rest c x before s e h)

ends_in_star_tail : (c : ℕ) (p : Bytes) → ends_in_star (c ∷ p) ≡ false → ends_in_star p ≡ false
unfolding ends_in_star
ends_in_star_tail c [] h = refl
ends_in_star_tail c (d ∷ p) h = h

step_star : (c x : ℕ) (p s : Bytes) → c ≡ star → glob_match (c ∷ p) (x ∷ s) ≡ after_star p (x ∷ s)
unfolding glob_match
step_star c x p s e = ground arith

pub step_one :
    (c x : ℕ) (p s : Bytes)
    → c ≢ star
    → (c ≡ question) ⊎ (to_lower c ≡ to_lower x)
    → glob_match (c ∷ p) (x ∷ s) ≡ glob_match p s
unfolding glob_match
step_one c x p s ne h = ground arith

skip_wild :
    (c : ℕ) (p s : Bytes) → (c ≡ star) ⊎ (c ≡ question) → after_star (c ∷ p) s ≡ after_star p s
unfolding after_star
skip_wild c p s h = ground arith

skip_literal :
    (c : ℕ) (p s : Bytes) → c ≢ star → c ≢ question → after_star (c ∷ p) s ≡ scan (glob_match p) c s
unfolding after_star
skip_literal c p s h k = ground arith

ends_in_star_cons :
    (c : ℕ) (p : Bytes)
    → c ≡ star
    → (p ≡ []) ⊎ (ends_in_star p ≡ true)
    → ends_in_star (c ∷ p) ≡ true
unfolding ends_in_star
ends_in_star_cons c [] e h = ground arith
ends_in_star_cons c (d ∷ p) e (inl h) = cc
ends_in_star_cons c (d ∷ p) e (inr h) = h

append_empty : (a b : Bytes) → a ++ b ≡ [] → b ≡ []
append_empty [] b h = h
append_empty (x ∷ a) b h = cc

-- A mask that matches the empty text has no byte, or ends in a star.
empty_ends_in_star : {p t : Bytes} → Matches p t → t ≡ [] → (p ≡ []) ⊎ (ends_in_star p ≡ true)
empty_ends_in_star Matches.done h = inl refl
empty_ends_in_star (Matches.one ne k m) h = cc
empty_ends_in_star (Matches.run {c} {p} before e k m) h =
    inr (ends_in_star_cons c p e (empty_ends_in_star m (append_empty before _ (sym k ∙ h))))

star_step :
    (c : ℕ) (p t : Bytes)
    → c ≡ star
    → (t ≢ [])
    → after_star p t ≡ true
    → glob_match (c ∷ p) t ≡ true
star_step c p [] e ne h = absurd (ne refl)
star_step c p (x ∷ t) e ne h = step_star c x p t e ∙ h

one_after :
    (c x : ℕ) (p s before : Bytes)
    → c ≢ star
    → (c ≡ question) ⊎ (to_lower c ≡ to_lower x)
    → glob_match p s ≡ true
    → after_star p ((before ++ x ∷ []) ++ s) ≡ true
    → after_star (c ∷ p) (before ++ x ∷ s) ≡ true
one_after c x p s before ne h m later = elim (ℕ_discrete c question) [
  | yes q ↦
      skip_wild c p _ (inr q) ∙ subst (λ t. after_star p t ≡ true) (append_assoc before _ s) later
  | no q ↦ skip_literal c p _ ne q ∙ scan_hit (glob_match p) c x before s (ground arith) m
]

complete :
    {p s : Bytes}
    → Matches p s
    → ends_in_star p ≡ false
    → (glob_match p s ≡ true) × ((before : Bytes) → after_star p (before ++ s) ≡ true)
complete Matches.done h = (unfold glob_match in refl, λ before. unfold after_star in refl)
complete (Matches.one {c} {x} {p} {s} ne k m) h =
    let (here, later) = complete m (ends_in_star_tail c p h) in
    (
      step_one c x p s ne k ∙ here,
      λ before. one_after c x p s before ne k here (later (before ++ x ∷ [])),
    )
complete (Matches.run {c} {p} {s} {t} before e k m) h =
    let (here, later) = complete m (ends_in_star_tail c p h) in
    (
      star_step c p t e (λ empty. nonempty (empty_ends_in_star (Matches.run before e k m) empty))
          (subst (λ u. after_star p u ≡ true) (sym k) (later before)),
      λ front.
          skip_wild c p _ (inl e)
          ∙ subst (λ u. after_star p (front ++ u) ≡ true) (sym k)
              (subst (λ u. after_star p u ≡ true) (append_assoc front before s)
                (later (front ++ before))),
    )
  where
    nonempty : (c ∷ p ≡ []) ⊎ (ends_in_star (c ∷ p) ≡ true) → ⊥
    nonempty (inl q) = cc
    nonempty (inr q) = cc

-- If a mask that does not end in a star means a text, `glob_match` accepts the text.
pub glob_match_complete :
    (p s : Bytes) → ends_in_star p ≡ false → Matches p s → glob_match p s ≡ true
glob_match_complete p s h m = (complete m h).0
