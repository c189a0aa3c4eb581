-- ===== src/Text.antt =====
-- C strings, without their terminator, as lists of bytes, and the text functions that the whole
-- server uses: `strcasecmp` and `isspace` of the C library, and `strlower` of util.c.
pub mod Fold
use opennap.Base.{ℕ, ◌+◌, Bool, true, false, ◌&&◌, ◌||◌, List, [], ◌∷◌, leb, ◌==◌, if◌then◌else◌}
use Prim.Native.Char.{code}
use Prim.Native.String.{String}

abbrev pub Bytes : Type 0
Bytes = List ℕ

-- The bytes of an ASCII literal.
abbrev pub codes : String → Bytes
codes String.[] = []
codes (String.◌∷◌ c s) = code c ∷ codes s

-- `tolower` in the C locale.
unfoldable pub to_lower : ℕ → ℕ
to_lower c = if leb b'A' c && leb c b'Z' then c + 32 else c

-- `isspace` in the C locale, as `ISSPACE` of opennap.h calls it.
unfoldable pub is_space : ℕ → Bool
is_space c = c == 32 || (leb 9 c && leb c 13)

-- `strcasecmp (a, b) == 0`.
unfoldable pub case_eq : Bytes → Bytes → Bool
case_eq [] [] = true
case_eq [] (y ∷ ys) = false
case_eq (x ∷ xs) [] = false
case_eq (x ∷ xs) (y ∷ ys) = (to_lower x == to_lower y) && case_eq xs ys

-- `while (*s) *s++ = tolower (*s)`.
unfoldable pub strlower : Bytes → Bytes
strlower [] = []
strlower (c ∷ s) = to_lower c ∷ strlower s
