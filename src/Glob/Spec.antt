-- ===== src/Glob/Spec.antt =====
-- What a mask means: `*` stands for any run of bytes, `?` for one byte, and any other byte for
-- itself up to the case of letters.
use opennap.Base.{ℕ, ◌≡◌, ◌≢◌, ◌⊎◌, Bool, false, ◌||◌, ◌&&◌, [], ◌∷◌, ◌++◌, ◌==◌}
use opennap.Text.{Bytes, to_lower}
use opennap.Glob.{star, question}

pub data Matches : Bytes → Bytes → Type 0 where
  done : Matches [] []
  one :
      {c x : ℕ} {p s : Bytes}
      → c ≢ star
      → (c ≡ question) ⊎ (to_lower c ≡ to_lower x)
      → Matches p s
      → Matches (c ∷ p) (x ∷ s)
  run :
      {c : ℕ} {p s t : Bytes} (before : Bytes)
      → c ≡ star
      → t ≡ before ++ s
      → Matches p s
      → Matches (c ∷ p) t

-- The mask's last byte is a star.
unfoldable pub ends_in_star : Bytes → Bool
ends_in_star [] = false
ends_in_star (c ∷ []) = c == star
ends_in_star (c ∷ d ∷ p) = ends_in_star (d ∷ p)

-- A question mark stands in the run of wildcards behind a star.
unfoldable pub loose_from : Bool → Bytes → Bool
loose_from after [] = false
loose_from after (c ∷ p) = (after && (c == question)) || loose_from (c == star) p

unfoldable pub is_loose : Bytes → Bool
unfolding loose_from
is_loose p = loose_from false p
