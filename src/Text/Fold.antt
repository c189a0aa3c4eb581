-- ===== src/Text/Fold.antt =====
-- `strcasecmp` of the C library beside `strlower` of util.c.
use opennap.Base.{◌≡◌, refl, sym, ◌∙◌, ◌↔◌, true, [], ◌∷◌, arith}
use opennap.Text.{Bytes, case_eq, strlower}

pub case_eq→strlower : (a b : Bytes) → case_eq a b ≡ true → strlower a ≡ strlower b
unfolding case_eq strlower
case_eq→strlower [] [] h = refl
case_eq→strlower [] (y ∷ ys) h = cc
case_eq→strlower (x ∷ xs) [] h = cc
case_eq→strlower (x ∷ xs) (y ∷ ys) h = ground (arith, case_eq→strlower xs ys)

pub strlower→case_eq : (a b : Bytes) → strlower a ≡ strlower b → case_eq a b ≡ true
unfolding case_eq strlower
strlower→case_eq [] [] h = refl
strlower→case_eq [] (y ∷ ys) h = cc
strlower→case_eq (x ∷ xs) [] h = cc
strlower→case_eq (x ∷ xs) (y ∷ ys) h = ground (arith, strlower→case_eq xs ys)

-- Two texts are equal for `strcasecmp` exactly when their lower-case forms are the same bytes.
pub case_eq_iff : (a b : Bytes) → (case_eq a b ≡ true) ↔ (strlower a ≡ strlower b)
case_eq_iff a b = (case_eq→strlower a b, strlower→case_eq a b)

pub case_eq_refl : (a : Bytes) → case_eq a a ≡ true
case_eq_refl a = strlower→case_eq a a refl

pub case_eq_symm : (a b : Bytes) → case_eq a b ≡ true → case_eq b a ≡ true
case_eq_symm a b h = strlower→case_eq b a (sym (case_eq→strlower a b h))

pub case_eq_trans : (a b c : Bytes) → case_eq a b ≡ true → case_eq b c ≡ true → case_eq a c ≡ true
case_eq_trans a b c h k = strlower→case_eq a c (case_eq→strlower a b h ∙ case_eq→strlower b c k)

pub case_eq_congr_left : (a b c : Bytes) → case_eq a b ≡ true → case_eq a c ≡ case_eq b c
case_eq_congr_left a b c h =
    ground (arith, case_eq_trans a b c, case_eq_trans b a c, case_eq_symm a b)

pub case_eq_congr_right : (a b c : Bytes) → case_eq b c ≡ true → case_eq a b ≡ case_eq a c
case_eq_congr_right a b c h =
    ground (arith, case_eq_trans a b c, case_eq_trans a c b, case_eq_symm b c)
