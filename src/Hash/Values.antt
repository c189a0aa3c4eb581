-- ===== src/Hash/Values.antt =====
-- hash.c: what a chain holds under a key, the data in the order in which lookups would find them.
use opennap.Base.{
  ◌+◌, ◌≡◌, refl, true, List, [], ◌∷◌, ◌++◌, Option, none, some, arith, length, if◌then◌else◌,
}
use opennap.Text.{Bytes, case_eq}
use opennap.Text.Fold.{case_eq_congr_left, case_eq_congr_right}
use opennap.Hash.{Entry, find_entry, unlink_entry}

module _ {ℓ} {D : Type ℓ} where
  abbrev pub head? : List D → Option D
  head? [] = none
  head? (d ∷ ds) = some d

  abbrev pub tail : List D → List D
  tail [] = []
  tail (d ∷ ds) = ds

  unfoldable pub values : Bytes → List (Entry D) → List D
  values q [] = []
  values q (he ∷ chain) = if case_eq q he.key then he.datum ∷ values q chain else values q chain

  pub find_entry-values : (q : Bytes) (c : List (Entry D)) → find_entry q c ≡ head? (values q c)
  unfolding find_entry values
  find_entry-values q [] = refl
  find_entry-values q (he ∷ c) = ground (arith, find_entry-values q c)

  pub values-append :
      (q : Bytes) (a b : List (Entry D)) → values q (a ++ b) ≡ values q a ++ values q b
  unfolding values
  values-append q [] b = refl
  values-append q (he ∷ a) b = ground (arith, values-append q a b)

  pub values_congr :
      (p q : Bytes) (c : List (Entry D)) → case_eq p q ≡ true → values p c ≡ values q c
  unfolding values
  values_congr p q [] e = refl
  values_congr p q (he ∷ c) e = ground (arith, values_congr p q c e, case_eq_congr_left p q he.key)

  pub values-unlink_entry :
      (k q : Bytes) (c : List (Entry D))
      → values q (unlink_entry k c) ≡ (if case_eq q k then tail (values q c) else values q c)
  unfolding values unlink_entry
  values-unlink_entry k q [] = ground arith
  values-unlink_entry k q (he ∷ c) = ground (
    arith,
    values-unlink_entry k q c,
    case_eq_congr_left q k he.key,
    case_eq_congr_right q k he.key,
    values_congr q k c,
  )

  pub length-unlink_entry :
      (k : Bytes) (c : List (Entry D)) (d : D)
      → find_entry k c ≡ some d
      → length (unlink_entry k c) + 1 ≡ length c
  unfolding find_entry unlink_entry
  length-unlink_entry k [] d h = cc
  length-unlink_entry k (he ∷ c) d h = ground (arith, length-unlink_entry k c d)

  pub unlink_entry_absent :
      (k : Bytes) (c : List (Entry D)) → find_entry k c ≡ none → unlink_entry k c ≡ c
  unfolding find_entry unlink_entry
  unlink_entry_absent k [] h = refl
  unlink_entry_absent k (he ∷ c) h = ground (arith, unlink_entry_absent k c)
