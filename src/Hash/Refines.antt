-- ===== src/Hash/Refines.antt =====
-- hash.c: the table against a plain list of entries, as lookups and a walk see it.
use mathlib.Core.List.{flatten, foldl}
use opennap.Base.{
  append-nil, ℕ, zero, suc, ◌<◌, ◌≡◌, ◌≢◌, refl, sym, ap, ◌∙◌, true, Bool, List, [], ◌∷◌, ◌++◌,
  some, arith, length, length-append, map, if◌then◌else◌, get_or,
}
use opennap.Text.{Bytes, case_eq}
use opennap.Hash.{
  Entry, HashTable, hash_init, hash_add, hash_lookup, hash_remove, chain_of, find_entry,
  unlink_entry, foreach_chain, foreach_buckets, hash_foreach, free_chain, free_buckets, free_hash,
}
use opennap.Hash.Values.{values, find_entry-values, values-append, values-unlink_entry}
use opennap.Hash.Laws.{
  IsValid, total, view, hash_init_lem, hash_add_lem, hash_lookup_lem, hash_remove_lem,
}

-- What a client asks of a table.
pub data Command {ℓ} (D : Type ℓ) : Type ℓ where
  add : Bytes → D → Command D
  remove : Bytes → Command D

module _ {ℓ} {D : Type ℓ} where
  unfoldable pub run_table : HashTable D → List (Command D) → HashTable D
  run_table t [] = t
  run_table t (add k d ∷ cs) = run_table (hash_add true t k d).1 cs
  run_table t (remove k ∷ cs) = run_table (hash_remove t k).1 cs

  -- The specification: a list of entries, newest first.
  unfoldable pub run_list : List (Entry D) → List (Command D) → List (Entry D)
  run_list es [] = es
  run_list es (add k d ∷ cs) = run_list (record { key = k; datum = d } ∷ es) cs
  run_list es (remove k ∷ cs) = run_list (unlink_entry k es) cs

  abbrev Simulates : HashTable D → List (Entry D) → Type ℓ
  Simulates t es = IsValid t × ((q : Bytes) → view t q ≡ values q es)

  run-Simulates :
      (cs : List (Command D)) (t : HashTable D) (es : List (Entry D))
      → Simulates t es
      → Simulates (run_table t cs) (run_list es cs)
  unfolding run_table run_list
  run-Simulates [] t es s = s
  run-Simulates (add k d ∷ cs) t es s =
      let (_, valid, views) = hash_add_lem t k d s.0 in
      run-Simulates cs _ _ (valid, λ q. views q ∙ add_values q)
    where
      add_values :
          (q : Bytes)
          → (if case_eq q k then d ∷ view t q else view t q)
            ≡ values q (record { key = k; datum = d } ∷ es)
      add_values q = unfold values in rw (s.1 q)
  run-Simulates (remove k ∷ cs) t es s =
      let (_, valid, views) = hash_remove_lem t k s.0 in
      run-Simulates cs _ _ (valid, λ q. views q ∙ rw (s.1 q) (sym (values-unlink_entry k q es)))

  -- After any additions and removals, a table made by `hash_init` with at least one bucket answers
  -- every lookup as the list of the entries does, searched from the newest.
  pub hash_lookup-run :
      (n : ℕ) (destroy : Bool) (t : HashTable D) (cs : List (Command D)) (q : Bytes)
      → 0 < n
      → hash_init true true n destroy ≡ some t
      → hash_lookup (some (run_table t cs)) q ≡ find_entry q (run_list [] cs)
  hash_lookup-run n destroy t cs q h e =
      let (valid, empty) = hash_init_lem n destroy t h e in
      let s = run-Simulates cs t [] (valid, λ p. empty p ∙ unfold values in refl) in
      hash_lookup_lem _ q ∙ rw (s.1 q) (sym (find_entry-values q _))

  length-flatten : (bs : List (List (Entry D))) → length (flatten bs) ≡ total bs
  unfolding total flatten
  length-flatten [] = refl
  length-flatten (c ∷ bs) = omega (arith, length-append c (flatten bs), length-flatten bs)

  values-flatten_none :
      (q : Bytes) (bs : List (List (Entry D)))
      → ((i : ℕ) → values q (get_or bs i []) ≡ [])
      → values q (flatten bs) ≡ []
  unfolding flatten
  values-flatten_none q [] h = unfold values in refl
  values-flatten_none q (c ∷ bs) h =
      rw (values-append q c (flatten bs), h 0) (values-flatten_none q bs (λ i. h (suc i)))

  values-flatten_home :
      (q : Bytes) (bs : List (List (Entry D))) (j : ℕ)
      → ((i : ℕ) → j ≢ i → values q (get_or bs i []) ≡ [])
      → values q (flatten bs) ≡ values q (get_or bs j [])
  unfolding flatten
  values-flatten_home q [] j h = refl
  values-flatten_home q (c ∷ bs) zero h =
      rw (values-append q c (flatten bs), values-flatten_none q bs (λ i. h (suc i) (omega arith)))
        (append-nil _)
  values-flatten_home q (c ∷ bs) (suc j) h =
      rw (values-append q c (flatten bs), h 0 (omega arith))
        (values-flatten_home q bs j (λ i n. h (suc i) (omega arith)))

  -- All the entries of a table in the order in which a walk meets them.
  abbrev pub entries : HashTable D → List (Entry D)
  entries t = flatten t.bucket

  view-entries : (t : HashTable D) (q : Bytes) → IsValid t → values q (entries t) ≡ view t q
  unfolding view chain_of
  view-entries t q valid = values-flatten_home q t.bucket _ (λ i n. valid.placed q i n)

module _ {ℓ κ} {D : Type ℓ} {S : Type κ} (func : D → S → S) where
  foreach_chain-append :
      (a b : List (Entry D)) (s : S)
      → foreach_chain func (a ++ b) s ≡ foreach_chain func b (foreach_chain func a s)
  unfolding foreach_chain
  foreach_chain-append [] b s = refl
  foreach_chain-append (he ∷ a) b s = foreach_chain-append a b (func he.datum s)

  foreach_buckets-flatten :
      (bs : List (List (Entry D))) (s : S)
      → foreach_buckets func bs s ≡ foreach_chain func (flatten bs) s
  unfolding foreach_buckets flatten
  foreach_buckets-flatten [] s = unfold foreach_chain in refl
  foreach_buckets-flatten (c ∷ bs) s =
      rw (foreach_chain-append c (flatten bs) s)
        (foreach_buckets-flatten bs (foreach_chain func c s))

  foreach_chain-foldl :
      (c : List (Entry D)) (s : S)
      → foreach_chain func c s ≡ foldl (λ r d. func d r) s (map (λ he. he.datum) c)
  unfolding foreach_chain
  foreach_chain-foldl [] s = refl
  foreach_chain-foldl (he ∷ c) s = foreach_chain-foldl c (func he.datum s)

  -- A walk over a valid table calls `func` once on the datum of each entry, one after the other, each
  -- call with what the one before has left. The entries are `dbsize` in number, and under each key
  -- they are the data that lookups and removals would find, in that order.
  pub hash_foreach-entries :
      (t : HashTable D) (s : S)
      → IsValid t
      → (hash_foreach func t s ≡ foldl (λ r d. func d r) s (map (λ he. he.datum) (entries t)))
        × (length (entries t) ≡ t.dbsize)
        × ((q : Bytes) → values q (entries t) ≡ view t q)
  unfolding hash_foreach
  hash_foreach-entries t s valid = (
    foreach_buckets-flatten t.bucket s ∙ foreach_chain-foldl (entries t) s,
    length-flatten t.bucket ∙ sym valid.counted,
    λ q. view-entries t q valid,
  )

module _ {ℓ} {D : Type ℓ} where
  free_chain-append : (a b : List (Entry D)) → free_chain (a ++ b) ≡ free_chain a ++ free_chain b
  unfolding free_chain
  free_chain-append [] b = refl
  free_chain-append (he ∷ a) b = ap (◌∷◌ he.datum) (free_chain-append a b)

  free_buckets-flatten : (bs : List (List (Entry D))) → free_buckets bs ≡ free_chain (flatten bs)
  unfolding free_buckets flatten
  free_buckets-flatten [] = unfold free_chain in refl
  free_buckets-flatten (c ∷ bs) =
      rw (free_chain-append c (flatten bs)) (ap (◌++◌ (free_chain c)) (free_buckets-flatten bs))

  -- `free_hash` hands the data of every entry to the destructor, if the table has one.
  pub free_hash-entries :
      (t : HashTable D) → free_hash t ≡ (if t.destroy then free_chain (entries t) else [])
  unfolding free_hash
  free_hash-entries t = rw (free_buckets-flatten t.bucket)
