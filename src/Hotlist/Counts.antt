-- ===== src/Hotlist/Counts.antt =====
-- How often a pointer stands in the lists after it is entered or deleted.
use opennap.Base.{
  ℕ, ◌+◌, ◌-◌, ◌≡◌, refl, sym, ap, ◌∙◌, subst, Bool, true, false, ◌&&◌, List, arith, if◌then◌else◌,
  ◌==◌, Bool-cases, inl, inr, ==_iff, ==_refl,
}
use opennap.LinkedList.{list_find}
use opennap.LinkedList.Laws.{count, count-list_delete, list_find-count}
use opennap.Hotlist.{Store, wait_for, list_own, is_null, leave}

pub count_wait :
    (s : Store) (c h d j : ℕ)
    → count d (((wait_for s c h).hotlist j).users)
      ≡ (if (j == h) && (c == d) then 1 else 0) + count d ((s.hotlist j).users)
unfolding wait_for count
count_wait s c h d j = elim (Bool-cases (j == h)) [
  | inl e ↦ rw ((==_iff j h).0 e, ==_refl h) refl
  | inr e ↦ rw e (omega arith)
]

pub count_own :
    (s : Store) (c h d j : ℕ)
    → count j ((list_own s c h).own d) ≡ (if (j == h) && (c == d) then 1 else 0) + count j (s.own d)
unfolding list_own count
count_own s c h d j = elim (Bool-cases (d == c)) [
  | inl e ↦ rw ((==_iff d c).0 e, ==_refl c) (ground arith)
  | inr e ↦ rw e (ground arith)
]

-- The same of the two deletions.
pub count_left_user :
    (s : Store) (c h d j : ℕ)
    → count d (((leave s c h).hotlist j).users)
      ≡ count d ((s.hotlist j).users) - (if (j == h) && (c == d) then 1 else 0)
unfolding leave
count_left_user s c h d j = elim (Bool-cases (j == h)) [
  | inl e ↦
      rw ((==_iff j h).0 e, ==_refl h) (ground (arith, count-list_delete ((s.hotlist h).users) c d))
  | inr e ↦ rw e (omega arith)
]

pub count_left_own :
    (s : Store) (c h d j : ℕ)
    → count j ((leave s c h).own d) ≡ count j (s.own d) - (if (j == h) && (c == d) then 1 else 0)
unfolding leave
count_left_own s c h d j = elim (Bool-cases (d == c)) [
  | inl e ↦ rw ((==_iff d c).0 e, ==_refl c) (ground (arith, count-list_delete (s.own c) h j))
  | inr e ↦ rw e (ground arith)
]

abbrev NotNull : Bool → Type 0
NotNull true = ⊥
NotNull false = Unit

-- Nobody waits in a list that `list_find` finds nothing in.
pub count-not_found : (l : List ℕ) (d : ℕ) → is_null (list_find l d) ≡ true → count d l ≡ 0
count-not_found l d h = elim (list_find-count l d) [
  | inl (e, z) ↦ z
  | inr (a, b, e, f, z) ↦ absurd (subst NotNull (sym (ap is_null f) ∙ h) tt)
]
