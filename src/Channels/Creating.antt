-- ===== src/Channels/Creating.antt =====
-- join.c: the channel that a join makes, and the invariant of the links.
use opennap.Base.{
  ℕ, ◌<◌, ◌≡◌, refl, sym, ap, ◌∙◌, inl, inr, true, false, ltb, List, [], ◌∷◌, none, arith,
  if◌then◌else◌, ◌==◌, Bool-cases, ==_iff, ==_refl,
}
use opennap.Text.{Bytes, case_eq}
use opennap.Text.Fold.{case_eq_refl}
use opennap.Hash.Values.{head?}
use opennap.Hash.Laws.{view, view_congr, hash_lookup_lem, hash_add_lem}
use opennap.LinkedList.Laws.{count}
use opennap.Server.{User, Globals}
use opennap.Channels.{Chats, Settings, find}
use opennap.Channels.Join.{create}
use opennap.Channels.Links.{OneEntry, IsLinked}

-- The user is not in the channel, which the table has under its name.
pub record IsReady (s : Chats) (c : ℕ) (user : User) : Type 0 where
  pub linked : IsLinked s
  pub known : c < s.next
  pub new : count c (s.joined (user.address)) ≡ 0
  pub here : view (s.table) ((s.channel c).name) ≡ c ∷ []

module _ (g : Globals) (cfg : Settings) (s : Chats) (name : Bytes) (k : IsLinked s)
    (absent : find s name ≡ none) where
  abbrev made : Chats
  made = create g cfg true s name

  nothing : view (s.table) name ≡ []
  nothing = no_head (view (s.table) name) (sym (hash_lookup_lem (s.table) name) ∙ absent)
    where
      no_head : (l : List ℕ) → head? l ≡ none → l ≡ []
      no_head [] e = refl
      no_head (x ∷ l) e = cc

  views :
      (q : Bytes)
      → view (made.table) q
        ≡ (if case_eq q name then s.next ∷ view (s.table) q else view (s.table) q)
  unfolding create
  views q = (hash_add_lem (s.table) name (s.next) (k.valid)).2 q

  old_name : (d : ℕ) → d < s.next → (made.channel d).name ≡ (s.channel d).name
  unfolding create
  old_name d lt = elim (Bool-cases (d == s.next)) [
    | inl e ↦ absurd (let q = (==_iff d (s.next)).0 e in omega arith)
    | inr e ↦ rw e
  ]

  created-IsLinked : IsLinked made
  unfolding create
  created-IsLinked = record {
    valid = (hash_add_lem (s.table) name (s.next) (k.valid)).1;
    both = λ u d. elim (Bool-cases (d == s.next)) [
      | inl e ↦
          let q = (==_iff d (s.next)).0 e in rw e (unfold count in sym (k.fresh u d (omega arith)))
      | inr e ↦ rw e (k.both u d)
    ];
    once = k.once;
    fresh = λ u d more. k.fresh u d (omega arith);
    entry = λ q. elim (Bool-cases (case_eq q name)) [
      | inl e ↦ inr (
        s.next,
        views q ∙ rw e (ap (◌∷◌ (s.next)) (view_congr (s.table) q name e ∙ nothing)),
        rw (==_refl (s.next)) e,
        omega arith,
      )
      | inr e ↦ other q e (k.entry q)
    ];
    listed = λ u d joined.
        let lt : d < s.next = known u d joined in
        ap (view (made.table)) (old_name d lt)
        ∙ views ((s.channel d).name)
        ∙ elim (Bool-cases (case_eq ((s.channel d).name) name)) [
          | inl e ↦ absurd (
              nonempty d (
                sym (k.listed u d joined)
                ∙ view_congr (s.table) ((s.channel d).name) name e
                ∙ nothing))
          | inr e ↦ rw e (k.listed u d joined)
        ];
  }
    where
      known : (u d : ℕ) → 0 < count d (s.joined u) → d < s.next
      known u d joined = elim (Bool-cases (ltb d (s.next))) [
        | inl e ↦ ground arith
        | inr e ↦ absurd (let f = k.fresh u d (ground arith) in omega arith)
      ]

      nonempty : (d : ℕ) → d ∷ [] ≡ [] → ⊥
      nonempty d e = cc

      other : (q : Bytes) → case_eq q name ≡ false → OneEntry s q → OneEntry made q
      other q e (inl no_entry) = inl (views q ∙ rw e no_entry)
      other q e (inr (d, one, same, lt)) =
          inr (d, views q ∙ rw e one, ap (case_eq q) (old_name d lt) ∙ same, omega arith)

  pub created-IsReady : (user : User) → IsReady made (s.next) user
  unfolding create
  created-IsReady user = record {
    linked = created-IsLinked;
    known = omega arith;
    new = k.fresh (user.address) (s.next) (omega arith);
    here = rw (==_refl (s.next)) (views name ∙ rw (case_eq_refl name) (ap (◌∷◌ (s.next)) nothing));
  }
