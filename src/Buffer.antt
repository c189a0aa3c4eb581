-- ===== src/Buffer.antt =====
-- buffer.c: chains of fixed-size blocks that queue the bytes of a connection. A block holds the
-- bytes that have been written to it, so `datasize` is their number. `mem k` says whether the k-th
-- allocation succeeds.
pub mod Content
pub mod Queue
pub mod Consume
pub mod Send
pub mod Progress
use opennap.Base.{
  ℕ, zero, suc, ◌+◌, ◌-◌, ◌≤◌, ◌<◌, ◌≡◌, ◌⊎◌, min, Bool, List, [], ◌∷◌, ◌++◌, Option, none, some,
  leb, ◌==◌, if◌then◌else◌, length, take, drop,
}
use opennap.Text.{Bytes}

abbrev pub buffer_block : ℕ
buffer_block = 2048

pub record Buffer : Type 0 where
  pub block : Bytes
  pub datamax : ℕ
  pub consumed : ℕ

abbrev pub datasize : Buffer → ℕ
datasize b = length b.block

-- What `buffer_validate` checks of the numbers.
pub record IsValid (b : Buffer) : Type 0 where
  pub fits : datasize b ≤ b.datamax
  pub unread : (b.consumed ≡ 0) ⊎ (b.consumed < datasize b)

abbrev pub Memory : Type 0
Memory = ℕ → Bool

-- Two allocations, of the record and of its block.
unfoldable pub buffer_new : Memory → ℕ → Option Buffer
buffer_new mem k =
    if mem k
    then if mem (suc k)
      then some (record { block = []; datamax = buffer_block; consumed = 0 })
      else none
    else none

-- `no_fuel` belongs to the model only.
pub data Queued : Type 0 where
  queued : List Buffer → Queued
  no_memory no_fuel : Queued

abbrev pub link : Buffer → Queued → Queued
link b (queued bs) = queued (b ∷ bs)
link b no_memory = no_memory
link b no_fuel = no_fuel

-- The bytes that one round copies.
abbrev pub room : Buffer → Bytes → ℕ
room b d = min (length d) (b.datamax - datasize b)

unfoldable pub fill : Buffer → Bytes → Buffer
fill b d = record b { block = b.block ++ take (room b d) d }

-- The loop, at the last block of the chain.
unfoldable pub queue_loop : ℕ → Memory → ℕ → Buffer → Bytes → Queued
queue_loop zero mem k b d = no_fuel
queue_loop (suc fuel) mem k b [] = queued (b ∷ [])
queue_loop (suc fuel) mem k b (x ∷ d) =
    let grown : Queued = elim (buffer_new mem k) [
      | none ↦ no_memory
      | some c ↦
          link b (queue_loop fuel mem (k + 2) (fill c (x ∷ d)) (drop (room c (x ∷ d)) (x ∷ d)))
    ] in
    let here = queue_loop fuel mem k (fill b (x ∷ d)) (drop (room b (x ∷ d)) (x ∷ d)) in
    if datasize b == b.datamax then grown else here

-- The fuel is one round for each byte, and one to see that none is left.
unfoldable pub buffer_queue : Memory → List Buffer → Bytes → Queued
buffer_queue mem [] [] = queued []
buffer_queue mem [] (x ∷ d) = elim (buffer_new mem 0) [
  | none ↦ no_memory
  | some b ↦ queue_loop (suc (length (x ∷ d))) mem 2 b (x ∷ d)
]
buffer_queue mem (b ∷ []) d = queue_loop (suc (length d)) mem 0 b d
buffer_queue mem (b ∷ c ∷ bs) d = link b (buffer_queue mem (c ∷ bs) d)

-- A block that has been read to its end leaves the chain.
unfoldable pub buffer_consume : Buffer → List Buffer → ℕ → List Buffer
buffer_consume b next n =
    let b' = record b { consumed = b.consumed + n } in
    if leb (datasize b) b'.consumed then next else b' ∷ next

unfoldable pub buffer_append : List Buffer → List Buffer → List Buffer
buffer_append [] b = b
buffer_append (a ∷ as') b = a ∷ buffer_append as' b

unfoldable pub size_from : ℕ → List Buffer → ℕ
size_from n [] = n
size_from n (b ∷ bs) = size_from (n + (datasize b - b.consumed)) bs

unfoldable pub buffer_size : List Buffer → ℕ
unfolding size_from
buffer_size bs = size_from 0 bs
