-- ===== src/Tests/TableRuns.antt =====
-- Hash tables and lists on concrete keys.
use mathlib.Core.List.{foldl}
use opennap.Base.{map, ℕ, ◌≡◌, refl, arith, ◌+◌, true, [], ◌∷◌, some, length, if◌then◌else◌}
use opennap.Text.{Bytes, codes, case_eq, to_lower}
use opennap.Hash.{
  HashTable, hash_init, hash_add, hash_lookup, hash_remove, find_entry, unlink_entry, hash_foreach,
}
use opennap.Hash.Values.{head?, tail, values}
use opennap.Hash.Laws.{IsValid, view, removal, hash_init_lem, hash_add_lem, hash_remove_lem}
use opennap.Hash.Refines.{
  add, remove, run_table, run_list, entries, hash_lookup-run, hash_foreach-entries,
}

abbrev bob : Bytes
bob = codes "bob"

abbrev big_bob : Bytes
big_bob = codes "BOB"

abbrev amy : Bytes
amy = codes "amy"

abbrev empty : HashTable ℕ
empty = record { bucket = [] ∷ [] ∷ [] ∷ []; numbuckets = 3; dbsize = 0; destroy = true }

empty-IsValid : IsValid empty
unfolding hash_init
empty-IsValid = (hash_init_lem 3 true empty (omega arith) refl).0

abbrev with_bob : HashTable ℕ
with_bob = (hash_add true empty bob 7).1

with_bob-IsValid : IsValid with_bob
with_bob-IsValid = (hash_add_lem empty bob 7 empty-IsValid).1

-- The second entry of a key hides the first until it is removed, whatever the case of the letters.
hash_lookup-run_example :
    hash_lookup
      (some (run_table empty (add bob 1 ∷ add big_bob 2 ∷ add amy 3 ∷ remove bob ∷ [])))
      bob
    ≡ some 1
unfolding hash_init run_list find_entry unlink_entry case_eq to_lower
hash_lookup-run_example =
    hash_lookup-run 3 true empty (add bob 1 ∷ add big_bob 2 ∷ add amy 3 ∷ remove bob ∷ []) bob
      (omega arith) refl

hash_remove_lem_example :
    let r = hash_remove with_bob big_bob in
    ((r.0, r.2) ≡ removal with_bob (head? (view with_bob big_bob)))
    × IsValid r.1
    × ((q : Bytes)
        → view r.1 q ≡ (if case_eq q big_bob then tail (view with_bob q) else view with_bob q))
hash_remove_lem_example = hash_remove_lem with_bob big_bob with_bob-IsValid

hash_foreach-entries_example :
    (hash_foreach (λ (d s : ℕ). d + s) with_bob 0
      ≡ foldl (λ (r d : ℕ). d + r) 0 (map (λ he. he.datum) (entries with_bob)))
    × (length (entries with_bob) ≡ with_bob.dbsize)
    × ((q : Bytes) → values q (entries with_bob) ≡ view with_bob q)
hash_foreach-entries_example = hash_foreach-entries (λ (d s : ℕ). d + s) with_bob 0 with_bob-IsValid
