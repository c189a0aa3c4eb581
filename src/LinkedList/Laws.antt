-- ===== src/LinkedList/Laws.antt =====
-- list.c: the operations against the sequence that a list stands for.
use opennap.Base.{
  false, append-nil, ◌⊎◌, inl, inr, ℕ, ◌+◌, ◌-◌, ◌≡◌, refl, ap, ◌∙◌, Bool, true, List, [], ◌∷◌,
  ◌++◌, arith, length, length-append, if◌then◌else◌, ◌==◌,
}
use native.Mathlib.Decide.{ℕ_discrete}
use opennap.LinkedList.{
  list_delete, list_append, list_append_data, list_count_from, list_count, list_find,
}

-- How often a pointer stands in a list.
unfoldable pub count : ℕ → List ℕ → ℕ
count q [] = 0
count q (p ∷ l) = (if p == q then 1 else 0) + count q l

-- A deletion takes one occurrence of the pointer out, if there is one, and no other node.
pub count-list_delete :
    (l : List ℕ) (d q : ℕ)
    → count q (list_delete l d) ≡ (if q == d then count q l - 1 else count q l)
unfolding count list_delete
count-list_delete [] d q = ground arith
count-list_delete (p ∷ l) d q = ground (arith, count-list_delete l d q)

-- The node that is deleted is the first one, and the order of the others stays.
pub list_delete_first : (a b : List ℕ) (d : ℕ) → count d a ≡ 0 → list_delete (a ++ d ∷ b) d ≡ a ++ b
unfolding count list_delete
list_delete_first [] b d h = ground arith
list_delete_first (p ∷ a) b d h = ground (arith, list_delete_first a b d)

-- `list_find` answers null exactly when the pointer is not in the list; else it answers the node of
-- its first occurrence.
pub list_find-count :
    (l : List ℕ) (d : ℕ)
    → ((list_find l d ≡ []) × (count d l ≡ 0))
      ⊎ ((a : List ℕ) × (b : List ℕ) × (l ≡ a ++ d ∷ b) × (list_find l d ≡ d ∷ b) × (count d a ≡ 0))
unfolding count list_find
list_find-count [] d = inl (refl, refl)
list_find-count (p ∷ l) d = elim (ℕ_discrete p d) [
  | yes e ↦ inr ([], l, rw e, ground arith, refl)
  | no ne ↦ elim (list_find-count l d) [
    | inl (e, z) ↦ inl (ground arith, ground arith)
    | inr (a, b, e, f, z) ↦ inr (p ∷ a, b, ap (◌∷◌ p) e, ground arith, ground arith)
  ]
]

list_append-append : (l b : List ℕ) → list_append l b ≡ l ++ b
unfolding list_append
list_append-append [] b = refl
list_append-append (p ∷ l) b = ap (◌∷◌ p) (list_append-append l b)

list_count_from-length : (n : ℕ) (l : List ℕ) → list_count_from n l ≡ n + length l
unfolding list_count_from
list_count_from-length n [] = omega arith
list_count_from-length n (p ∷ l) = omega (arith, list_count_from-length (n + 1) l)

pub list_count-length : (l : List ℕ) → list_count l ≡ length l
unfolding list_count
list_count-length l = omega (arith, list_count_from-length 0 l)

-- Appending data makes the list longer by one at its end, or leaves it as it was where the new node
-- cannot be allocated; the count follows.
pub list_count-list_append_data :
    (ok : Bool) (l : List ℕ) (d : ℕ)
    → (list_append_data ok l d ≡ (if ok then l ++ d ∷ [] else l))
      × (list_count (list_append_data ok l d) ≡ list_count l + (if ok then 1 else 0))
list_count-list_append_data true l d =
    let e = list_append-append l (d ∷ []) in
    (
      unfold list_append_data in e,
      unfold list_append_data in
          rw (e, list_count-length, list_count-length l, length-append l (d ∷ [])) (omega arith),
    )
list_count-list_append_data false l d =
    let e = list_append-append l [] ∙ append-nil l in
    (unfold list_append_data in e, unfold list_append_data in rw e (omega arith))
