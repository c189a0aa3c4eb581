-- ===== src/Hash/Laws.antt =====
-- hash.c: the table's invariant, and what each operation does to the data under a key.
use opennap.Base.{
  ℕ, zero, suc, ◌+◌, ◌-◌, ◌≤◌, ◌<◌, ◌≡◌, ◌≢◌, refl, sym, ap, subst, ◌∙◌, true, false, Bool, List,
  [], ◌∷◌, Option, none, some, arith, length, if◌then◌else◌, get_or, set, replicate, length-set,
  get_or-set_self, get_or-set_ne, length-replicate, get_or-replicate, ℤ, pos, negsuc, inl, inr,
  Bool-cases, Option-cases,
}
use mathlib.Core.Option.{some-injective}
use native.Mathlib.Decide.{ℕ_discrete}
use opennap.Text.{Bytes, case_eq}
use opennap.Hash.{
  Entry, HashTable, hash_string, hash_init, hash_add, chain_of, hash_lookup, find_entry,
  hash_remove, unlink_entry, destroyed,
}
use opennap.Hash.String.{hash_string_congr, hash_string-lt}
use opennap.Hash.Values.{
  head?, tail, values, find_entry-values, values_congr, values-unlink_entry, length-unlink_entry,
}

hash_string_apart : (n : ℕ) (q k : Bytes) → hash_string n q ≢ hash_string n k → case_eq q k ≡ false
hash_string_apart n q k ne = elim (Bool-cases (case_eq q k)) [
  | inl e ↦ absurd (ne (hash_string_congr n q k e))
  | inr e ↦ e
]

module _ {ℓ} {D : Type ℓ} where
  unfoldable pub total : List (List (Entry D)) → ℕ
  total [] = 0
  total (c ∷ bs) = length c + total bs

  total-set :
      (bs : List (List (Entry D))) (i : ℕ) (c : List (Entry D))
      → i < length bs
      → total (set bs i c) + length (get_or bs i []) ≡ total bs + length c
  unfolding total
  total-set [] i c h = absurd (omega arith)
  total-set (b ∷ bs) zero c h = omega arith
  total-set (b ∷ bs) (suc i) c h = omega (arith, total-set bs i c (omega arith))

  length-le-total : (bs : List (List (Entry D))) (i : ℕ) → length (get_or bs i []) ≤ total bs
  unfolding total
  length-le-total [] i = omega arith
  length-le-total (b ∷ bs) zero = omega arith
  length-le-total (b ∷ bs) (suc i) = omega (arith, length-le-total bs i)

  total-replicate : (n : ℕ) {bs : List (List (Entry D))} → replicate n [] ≡ bs → total bs ≡ 0
  unfolding total
  total-replicate zero e = subst (λ bs. total bs ≡ 0) e refl
  total-replicate (suc n) e = subst (λ bs. total bs ≡ 0) e (omega (arith, total-replicate n refl))

  -- The buckets are as many as `numbuckets` says, and at least one; `dbsize` counts the entries;
  -- a key's entries stand only in the bucket of its hash.
  pub record IsValid (t : HashTable D) : Type ℓ where
    pub width : length t.bucket ≡ t.numbuckets
    pub nonempty : 0 < t.numbuckets
    pub counted : t.dbsize ≡ total t.bucket
    pub placed :
        (q : Bytes) (i : ℕ) → hash_string t.numbuckets q ≢ i → values q (get_or t.bucket i []) ≡ []

  -- The data under a key, newest first.
  unfoldable pub view : HashTable D → Bytes → List D
  view t q = values q (chain_of t q)

  pub view_congr : (t : HashTable D) (p q : Bytes) → case_eq p q ≡ true → view t p ≡ view t q
  unfolding view chain_of
  view_congr t p q e = rw (hash_string_congr t.numbuckets p q e) (values_congr p q _ e)

  -- Replacing the chain of `k` by one that changes only the data under `k`, by `f`.
  module _ (t : HashTable D) (valid : IsValid t) (k : Bytes) (c : List (Entry D)) (n : ℕ)
      (f : List D → List D) (few : n + length (chain_of t k) ≡ t.dbsize + length c)
      (reads : (q : Bytes)
        → values q c
          ≡ (if case_eq q k then f (values q (chain_of t k)) else values q (chain_of t k))) where
    abbrev written : HashTable D
    written = record t { bucket = set t.bucket (hash_string t.numbuckets k) c; dbsize = n }

    home : hash_string t.numbuckets k < length t.bucket
    home = omega (arith, hash_string-lt t.numbuckets k valid.nonempty, valid.width)

    counted_written : n ≡ total written.bucket
    unfolding chain_of
    counted_written = omega (arith, few, valid.counted, total-set t.bucket _ c home)

    placed_written :
        (q : Bytes) (i : ℕ)
        → hash_string t.numbuckets q ≢ i
        → values q (get_or written.bucket i []) ≡ []
    unfolding chain_of
    placed_written q i ne = elim (ℕ_discrete (hash_string t.numbuckets k) i) [
      | yes e ↦ rw (← e) (
          rw (get_or-set_self t.bucket _ c [] home) (
            rw (reads q, hash_string_apart _ q k (λ h. ne (h ∙ e)))
              (valid.placed q _ (λ h. ne (h ∙ e)))))
      | no h ↦ rw (get_or-set_ne t.bucket c [] h) (valid.placed q i ne)
    ]

    written-IsValid : IsValid written
    written-IsValid = record {
      width = length-set t.bucket _ c ∙ valid.width;
      nonempty = valid.nonempty;
      counted = counted_written;
      placed = placed_written;
    }

    view-written : (q : Bytes) → view written q ≡ (if case_eq q k then f (view t q) else view t q)
    unfolding view chain_of
    view-written q = elim (ℕ_discrete (hash_string t.numbuckets q) (hash_string t.numbuckets k)) [
      | yes e ↦ rw (e, get_or-set_self t.bucket _ c [] home) (reads q)
      | no ne ↦ rw (get_or-set_ne t.bucket c [] (λ e. ne (sym e)), hash_string_apart _ q k ne)
    ]

  -- A new table is valid and holds nothing.
  pub hash_init_lem :
      (n : ℕ) (destroy : Bool) (t : HashTable D)
      → 0 < n
      → hash_init true true n destroy ≡ some t
      → IsValid t × ((q : Bytes) → view t q ≡ [])
  unfolding hash_init view values chain_of
  hash_init_lem n destroy t h e =
      subst (λ u. IsValid u × ((q : Bytes) → view u q ≡ [])) (some-injective _ _ e)
        (
          record {
            width = length-replicate n [];
            nonempty = h;
            counted = sym (total-replicate n refl);
            placed = λ q i _. ap (values q) (get_or-replicate {A = List (Entry D)} n i []);
          },
          λ q. ap (values q) (get_or-replicate {A = List (Entry D)} n _ []),
        )

  -- An addition to a valid table succeeds, keeps the table valid, and puts the new data in front
  -- of the older data of the same key; the data of every other key stay. The entry's memory is
  -- allocated.
  pub hash_add_lem :
      (t : HashTable D) (k : Bytes) (d : D)
      → IsValid t
      → let r = hash_add true t k d in
        (r.0 ≡ pos 0)
        × IsValid r.1
        × ((q : Bytes) → view r.1 q ≡ (if case_eq q k then d ∷ view t q else view t q))
  hash_add_lem t k d valid = (
    unfold hash_add in refl,
    unfold hash_add in written-IsValid t valid k c _ (◌∷◌ d) few (λ q. unfold values in refl),
    λ q. unfold hash_add in view-written t valid k c _ (◌∷◌ d) few (λ q. unfold values in refl) q,
  )
    where
      c : List (Entry D)
      c = record { key = k; datum = d } ∷ chain_of t k

      few : t.dbsize + 1 + length (chain_of t k) ≡ t.dbsize + length c
      few = omega arith

  -- A lookup finds the newest data of the key.
  pub hash_lookup_lem : (t : HashTable D) (q : Bytes) → hash_lookup (some t) q ≡ head? (view t q)
  unfolding hash_lookup view
  hash_lookup_lem t q = find_entry-values q _

  abbrev removed : HashTable D → Bytes → D → ℤ × HashTable D × List D
  removed t k d = (
    pos 0,
    record t {
      bucket = set t.bucket (hash_string t.numbuckets k) (unlink_entry k (chain_of t k));
      dbsize = t.dbsize - 1;
    },
    destroyed t d,
  )

  hash_remove_found :
      (t : HashTable D) (k : Bytes) (d : D)
      → find_entry k (chain_of t k) ≡ some d
      → hash_remove t k ≡ removed t k d
  unfolding hash_remove
  hash_remove_found t k d e = rw (e, hash_remove)

  hash_remove_absent :
      (t : HashTable D) (k : Bytes)
      → find_entry k (chain_of t k) ≡ none
      → hash_remove t k ≡ (negsuc 0, t, [])
  unfolding hash_remove
  hash_remove_absent t k e = rw (e, hash_remove)

  unlink_IsValid :
      (t : HashTable D) (k : Bytes) (d : D)
      → IsValid t
      → find_entry k (chain_of t k) ≡ some d
      → IsValid (removed t k d).1
        × ((q : Bytes)
            → view (removed t k d).1 q ≡ (if case_eq q k then tail (view t q) else view t q))
  unlink_IsValid t k d valid e = (
    written-IsValid t valid k _ _ tail few (λ q. values-unlink_entry k q _),
    view-written t valid k _ _ tail few (λ q. values-unlink_entry k q _),
  )
    where
      some_entry : length (chain_of t k) ≤ total t.bucket
      some_entry = unfold chain_of in length-le-total t.bucket _

      few : t.dbsize - 1 + length (chain_of t k) ≡ t.dbsize + length (unlink_entry k (chain_of t k))
      few = omega (arith, valid.counted, some_entry, length-unlink_entry k _ d e)

  -- What a removal answers and destroys, from what a lookup of the key would find.
  abbrev pub removal : HashTable D → Option D → ℤ × List D
  removal t none = (negsuc 0, [])
  removal t (some d) = (pos 0, destroyed t d)

  abbrev RemovesFrom : HashTable D → Bytes → ℤ × HashTable D × List D → Type ℓ
  RemovesFrom t k r =
      ((r.0, r.2) ≡ removal t (head? (view t k)))
      × IsValid r.1
      × ((q : Bytes) → view r.1 q ≡ (if case_eq q k then tail (view t q) else view t q))

  head-view : (t : HashTable D) (k : Bytes) → head? (view t k) ≡ find_entry k (chain_of t k)
  unfolding view
  head-view t k = sym (find_entry-values k _)

  empty_tail : (ds : List D) (b : Bool) → head? ds ≡ none → ds ≡ (if b then tail ds else ds)
  empty_tail [] b e = ground arith
  empty_tail (d ∷ ds) b e = cc

  view_absent :
      (t : HashTable D) (k q : Bytes)
      → head? (view t k) ≡ none
      → view t q ≡ (if case_eq q k then tail (view t q) else view t q)
  view_absent t k q e = elim (Bool-cases (case_eq q k)) [
    | inl same ↦ empty_tail (view t q) (case_eq q k) (rw (view_congr t q k same) e)
    | inr other ↦ rw other
  ]

  -- On a valid table, a removal of a key that is there takes its newest data out, hands them to
  -- the destructor, if the table has one, and answers 0; of any other key it answers -1 and
  -- destroys nothing. The table stays valid, and the data of every other key stay.
  pub hash_remove_lem :
      (t : HashTable D) (k : Bytes)
      → IsValid t
      → let r = hash_remove t k in
        ((r.0, r.2) ≡ removal t (head? (view t k)))
        × IsValid r.1
        × ((q : Bytes) → view r.1 q ≡ (if case_eq q k then tail (view t q) else view t q))
  hash_remove_lem t k valid = elim (Option-cases (find_entry k (chain_of t k))) [
    | inl e ↦
        subst (RemovesFrom t k) (sym (hash_remove_absent t k e))
          (rw (head-view t k, e), valid, λ q. view_absent t k q (head-view t k ∙ e))
    | inr (d, e) ↦
        let (keeps, views) = unlink_IsValid t k d valid e in
        subst (RemovesFrom t k) (sym (hash_remove_found t k d e))
          (rw (head-view t k, e), keeps, views)
  ]
