-- ===== src/Hotlist/Closing.antt =====
-- remove_connection.c: the pointers between hotlists and connections when a connection closes.
use opennap.Base.{
  ℕ, ◌≡◌, refl, sym, ap, ◌∙◌, subst, Bool, true, false, List, [], ◌∷◌, if◌then◌else◌, ◌==◌,
  Bool-cases, inl, inr, ==_iff, ==_refl, update, fun_ext,
}
use opennap.LinkedList.{list_delete}
use opennap.Hotlist.{Store, leave, drop_empty, is_null, with_table}
use opennap.Hotlist.Mutual.{IsMutual, leave-IsMutual, drop_empty-IsMutual}
use opennap.Hash.{hash_remove}
use opennap.Channels.Quit.{stop_waiting, close_hotlists, close_waiting}

abbrev reown : Store → (ℕ → List ℕ) → Store
reown s o = record s { own = o }

drop_empty-reown :
    (s : Store) (h : ℕ) (o : ℕ → List ℕ) → drop_empty (reown s o) h ≡ reown (drop_empty s h) o
unfolding drop_empty
drop_empty-reown s h o = by_null (is_null ((s.hotlist h).users))
  where
    dropped : Store → Store
    dropped r = with_table r (hash_remove (s.table) ((s.hotlist h).nick)).1

    by_null :
        (b : Bool)
        → (if b then dropped (reown s o) else reown s o) ≡ reown (if b then dropped s else s) o
    by_null true = refl
    by_null false = refl

left :
    (s : Store) (o : ℕ → List ℕ) (con h : ℕ) (l : List ℕ)
    → leave (reown s (update o con (h ∷ l))) con h ≡ reown (stop_waiting con s h) (update o con l)
unfolding leave stop_waiting list_delete
left s o con h l = ap (reown (stop_waiting con s h)) (
    fun_ext (λ x. elim (Bool-cases (x == con)) [
      | inl e ↦ rw (e, ==_refl con, ==_refl h) refl
      | inr e ↦ rw e refl
    ]))

-- The loop over the hotlists, whose list is the part that is still to be seen.
close_hotlists-IsMutual :
    (con : ℕ) (l : List ℕ) (s : Store) (o : ℕ → List ℕ)
    → IsMutual (reown s (update o con l))
    → IsMutual (reown (close_hotlists con l s) (update o con []))
unfolding close_hotlists
close_hotlists-IsMutual con [] s o m = m
close_hotlists-IsMutual con (h ∷ l) s o m =
    close_hotlists-IsMutual con l (drop_empty (stop_waiting con s h) h) o (
      subst IsMutual
        (ap (λ (r : Store). drop_empty r h) (left s o con h l)
          ∙ drop_empty-reown (stop_waiting con s h) h (update o con l))
        (drop_empty-IsMutual _ h (leave-IsMutual _ con h m)))

close_hotlists-reown :
    (con : ℕ) (l : List ℕ) (s : Store) (o : ℕ → List ℕ)
    → close_hotlists con l (reown s o) ≡ reown (close_hotlists con l s) o
unfolding close_hotlists stop_waiting
close_hotlists-reown con [] s o = refl
close_hotlists-reown con (h ∷ l) s o =
    ap (close_hotlists con l) (drop_empty-reown (stop_waiting con s h) h o)
    ∙ close_hotlists-reown con l (drop_empty (stop_waiting con s h) h) o

pub close_waiting-IsMutual : (con : ℕ) (s : Store) → IsMutual s → IsMutual (close_waiting con s)
unfolding close_waiting
close_waiting-IsMutual con s m =
    subst (λ o. IsMutual (reown (close_hotlists con (s.own con) s) (update o con [])))
      (sym (ap (λ (r : Store). r.own) (close_hotlists-reown con (s.own con) s (s.own))))
      (close_hotlists-IsMutual con (s.own con) s (s.own)
        (subst (λ o. IsMutual (reown s o)) (sym (same_own (s.own))) m))
  where
    same_own : (o : ℕ → List ℕ) → update o con (o con) ≡ o
    same_own o = fun_ext (λ x. elim (Bool-cases (x == con)) [
      | inl e ↦ rw ((==_iff x con).0 e, ==_refl con) refl
      | inr e ↦ rw e refl
    ])
