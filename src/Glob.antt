-- ===== src/Glob.antt =====
-- glob.c: case-insensitive matching of ban masks, with `*` and `?`.
pub mod Spec
pub mod Complete
pub mod Sound
use opennap.Base.{ℕ, Bool, true, false, ◌||◌, ◌&&◌, List, [], ◌∷◌, ◌==◌, if◌then◌else◌}
use opennap.Text.{Bytes, to_lower}

abbrev pub star : ℕ
star = b'*'

abbrev pub question : ℕ
question = b'?'

-- The loop from the end of the text: a byte equal to `c`, after which `rest` accepts, the longest
-- part of the text before it first.
unfoldable pub scan : (Bytes → Bool) → ℕ → Bytes → Bool
scan rest c [] = false
scan rest c (x ∷ s) = scan rest c s || (to_lower x == to_lower c && rest s)

-- `after_star` is what follows a `*`: it skips the stars and question marks behind it.
unfoldable mutual
  pub glob_match : Bytes → Bytes → Bool
  glob_match [] [] = true
  glob_match [] (x ∷ s) = false
  glob_match (c ∷ p) [] = false
  glob_match (c ∷ p) (x ∷ s) =
      let wild = after_star p (x ∷ s) in
      let next = glob_match p s in
      if c == star then wild else if c == question || to_lower c == to_lower x then next else false

  pub after_star : Bytes → Bytes → Bool
  after_star [] s = true
  after_star (c ∷ p) s =
      let skipped = after_star p s in
      let found = scan (glob_match p) c s in if c == star || c == question then skipped else found
