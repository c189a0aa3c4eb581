-- ===== src/Hash.antt =====
-- hash.c and hash.h: the chained hash table with case-insensitive keys. An entry's key points into
-- its data; the model keeps the bytes. The answer of the allocator is an argument.
pub mod String
pub mod Values
pub mod Laws
pub mod Refines
use opennap.Base.{
  ℕ, ◌+◌, ◌-◌, ◌*◌, ◌/◌, ◌%◌, ◌^◌, bit_and, bit_xor, Bool, true, false, List, [], ◌∷◌, ◌++◌, Option,
  none, some, ltb, ◌==◌, if◌then◌else◌, get_or, set, replicate, ℤ, pos, negsuc,
}
use opennap.Text.{Bytes, to_lower, case_eq}

pub record Entry {ℓ} (D : Type ℓ) : Type ℓ where
  pub key : Bytes
  pub datum : D

-- `destroy` says whether the table has a destructor; the operations return what it is called on.
pub record HashTable {ℓ} (D : Type ℓ) : Type ℓ where
  pub bucket : List (List (Entry D))
  pub numbuckets : ℕ
  pub dbsize : ℕ
  pub destroy : Bool

-- A byte as a `char`, which is signed, converted to a 64-bit `unsigned long`. The letters that
-- `tolower` changes are below 128.
abbrev pub extend : ℕ → ℕ
extend c = if ltb c 128 then c else 2 ^ 64 - 256 + c

-- One round of the loop of `hash_string`, on a 64-bit `unsigned long`.
unfoldable pub hash_step : ℕ → ℕ → ℕ
unfolding to_lower
hash_step h c =
    let h₁ = (h * 16 + extend (to_lower c)) % 2 ^ 64 in
    let g = bit_and h₁ 0xF000_0000 in
    let h₂ = if g == 0 then h₁ else bit_xor h₁ (g / 2 ^ 24) in bit_and h₂ (2 ^ 64 - 1 - g)

unfoldable pub hash_loop : ℕ → Bytes → ℕ
unfolding hash_step
hash_loop h [] = h
hash_loop h (c ∷ key) = hash_loop (hash_step h c) key

unfoldable pub hash_string : ℕ → Bytes → ℕ
unfolding hash_loop
hash_string numbuckets key = hash_loop 0 key % numbuckets

module _ {ℓ} {D : Type ℓ} where
  -- The two allocations are of the table and of its buckets.
  unfoldable pub hash_init : Bool → Bool → ℕ → Bool → Option (HashTable D)
  hash_init table_ok bucket_ok buckets destroy =
      if table_ok
      then if bucket_ok
        then some (record {
          bucket = replicate buckets [];
          numbuckets = buckets;
          dbsize = 0;
          destroy = destroy;
        })
        else none
      else none

  unfoldable pub chain_of : HashTable D → Bytes → List (Entry D)
  unfolding hash_string
  chain_of t key = get_or t.bucket (hash_string t.numbuckets key) []

  -- 0, or -1 where the entry cannot be allocated.
  unfoldable pub hash_add : Bool → HashTable D → Bytes → D → ℤ × HashTable D
  unfolding hash_string chain_of
  hash_add he_ok t key datum =
      if he_ok
      then (
        pos 0,
        record t {
          bucket =
              set t.bucket (hash_string t.numbuckets key)
                (record { key = key; datum = datum } ∷ chain_of t key);
          dbsize = t.dbsize + 1;
        },
      )
      else (negsuc 0, t)

  unfoldable pub find_entry : Bytes → List (Entry D) → Option D
  unfolding case_eq to_lower
  find_entry key [] = none
  find_entry key (he ∷ chain) = if case_eq key he.key then some he.datum else find_entry key chain

  -- A null table has no entries.
  unfoldable pub hash_lookup : Option (HashTable D) → Bytes → Option D
  unfolding chain_of find_entry
  hash_lookup none key = none
  hash_lookup (some t) key = find_entry key (chain_of t key)

  -- The chain without its first entry under the key.
  unfoldable pub unlink_entry : Bytes → List (Entry D) → List (Entry D)
  unfolding case_eq to_lower
  unlink_entry key [] = []
  unlink_entry key (he ∷ chain) = if case_eq key he.key then chain else he ∷ unlink_entry key chain

  -- What the destructor is called on.
  abbrev pub destroyed : HashTable D → D → List D
  destroyed t d = if t.destroy then d ∷ [] else []

  -- 0 and the destroyed data, or -1 where no entry has the key.
  unfoldable pub hash_remove : HashTable D → Bytes → ℤ × HashTable D × List D
  unfolding hash_string chain_of find_entry unlink_entry
  hash_remove t key = elim (find_entry key (chain_of t key)) [
    | none ↦ (negsuc 0, t, [])
    | some d ↦ (
      pos 0,
      record t {
        bucket = set t.bucket (hash_string t.numbuckets key) (unlink_entry key (chain_of t key));
        dbsize = t.dbsize - 1;
      },
      destroyed t d,
    )
  ]

  -- The calls of the destructor by `free_hash`, chain by chain.
  unfoldable pub free_chain : List (Entry D) → List D
  free_chain [] = []
  free_chain (he ∷ chain) = he.datum ∷ free_chain chain

  unfoldable pub free_buckets : List (List (Entry D)) → List D
  unfolding free_chain
  free_buckets [] = []
  free_buckets (chain ∷ bs) = free_chain chain ++ free_buckets bs

  unfoldable pub free_hash : HashTable D → List D
  unfolding free_buckets
  free_hash t = if t.destroy then free_buckets t.bucket else []

  module _ {κ} {S : Type κ} (func : D → S → S) where
    unfoldable pub foreach_chain : List (Entry D) → S → S
    foreach_chain [] s = s
    foreach_chain (he ∷ chain) s = foreach_chain chain (func he.datum s)

    unfoldable pub foreach_buckets : List (List (Entry D)) → S → S
    unfolding foreach_chain
    foreach_buckets [] s = s
    foreach_buckets (chain ∷ bs) s = foreach_buckets bs (foreach_chain chain s)

    -- `func` is called on each entry's data in turn, and passes `funcdata` on.
    unfoldable pub hash_foreach : HashTable D → S → S
    unfolding foreach_buckets
    hash_foreach t s = foreach_buckets t.bucket s
