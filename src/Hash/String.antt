-- ===== src/Hash/String.antt =====
-- hash.c: `hash_string` on keys that `strcasecmp` finds equal.
use opennap.Base.{ℕ, ◌<◌, ◌%◌, ◌≡◌, refl, true, [], ◌∷◌, arith, ap, ◌&&◌, Bool, ==_iff}
use opennap.Text.{Bytes, to_lower, case_eq}
use opennap.Hash.{hash_step, hash_loop, hash_string}

and_true : (a b : Bool) → (a && b) ≡ true → (a ≡ true) × (b ≡ true)
and_true a b h = ground arith

hash_step_congr : (h x y : ℕ) → to_lower x ≡ to_lower y → hash_step h x ≡ hash_step h y
unfolding hash_step
hash_step_congr h x y e = rw e

hash_loop_congr : (h : ℕ) (a b : Bytes) → case_eq a b ≡ true → hash_loop h a ≡ hash_loop h b
unfolding hash_loop case_eq
hash_loop_congr h [] [] e = refl
hash_loop_congr h [] (y ∷ b) e = cc
hash_loop_congr h (x ∷ a) [] e = cc
hash_loop_congr h (x ∷ a) (y ∷ b) e =
    let (head, tail) = and_true _ _ e in
    rw (hash_step_congr h x y ((==_iff _ _).0 head)) (hash_loop_congr (hash_step h y) a b tail)

-- Keys that differ only in the case of their letters have one hash, for any number of buckets.
pub hash_string_congr :
    (n : ℕ) (a b : Bytes) → case_eq a b ≡ true → hash_string n a ≡ hash_string n b
unfolding hash_string
hash_string_congr n a b e = ap (λ h. h % n) (hash_loop_congr 0 a b e)

pub hash_string-lt : (n : ℕ) (a : Bytes) → 0 < n → hash_string n a < n
unfolding hash_string
hash_string-lt n a h = omega arith
