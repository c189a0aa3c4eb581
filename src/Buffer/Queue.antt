-- ===== src/Buffer/Queue.antt =====
-- buffer.c: `buffer_queue` by the bytes that a chain delivers.
use opennap.Base.{
  ℕ, zero, suc, ◌+◌, ◌≤◌, ◌<◌, ◌≡◌, refl, sym, ap, ◌∙◌, ◌⊎◌, inl, inr, false, List, [], ◌∷◌, ◌++◌,
  none, some, arith, ◌==◌, length, take, drop, length-append, length-take, length-drop,
  take-append-drop, append_assoc, append-nil, drop-append_le, Bool-cases, subst,
}
use opennap.Text.{Bytes}
use opennap.Buffer.{
  Buffer, datasize, IsValid, Memory, buffer_new, Queued, queued, no_memory, no_fuel, link, room,
  fill, queue_loop, buffer_queue, buffer_block,
}
use opennap.Buffer.Content.{content, AllValid}

-- The result delivers `bytes`, or an allocation failed; the fuel did not run out.
abbrev pub Delivers : Memory → Bytes → Queued → Type 0
Delivers mem bytes (queued bs) = AllValid bs × (content bs ≡ bytes)
Delivers mem bytes no_memory = (k : ℕ) × (mem k ≡ false)
Delivers mem bytes no_fuel = ⊥

Delivers-congr :
    (mem : Memory) {a b : Bytes} (q : Queued) → a ≡ b → Delivers mem a q → Delivers mem b q
Delivers-congr mem q e h = subst (λ bytes. Delivers mem bytes q) e h

Delivers-link :
    (mem : Memory) (b : Buffer) (bytes : Bytes) (r : Queued)
    → IsValid b
    → Delivers mem bytes r
    → Delivers mem (drop b.consumed b.block ++ bytes) (link b r)
Delivers-link mem b bytes (queued bs) v h =
    ((v, h.0), unfold content in ap (◌++◌ (drop b.consumed b.block)) h.1)
Delivers-link mem b bytes no_memory v h = h
Delivers-link mem b bytes no_fuel v h = h

buffer_new_lem :
    (mem : Memory) (k : ℕ)
    → ((buffer_new mem k ≡ none) × ((j : ℕ) × (mem j ≡ false)))
      ⊎ (buffer_new mem k ≡ some (record { block = []; datamax = buffer_block; consumed = 0 }))
unfolding buffer_new
buffer_new_lem mem k = elim (Bool-cases (mem k)) [
  | inr e ↦ inl (rw e, (k, e))
  | inl e ↦ elim (Bool-cases (mem (suc k))) [
    | inr f ↦ inl (rw (e, f), (suc k, f))
    | inl f ↦ inr (rw (e, f))
  ]
]

abbrev empty : Buffer
empty = record { block = []; datamax = buffer_block; consumed = 0 }

empty-IsValid : IsValid empty
empty-IsValid = record { fits = omega arith; unread = inl refl }

fill-IsValid : (b : Buffer) (d : Bytes) → IsValid b → IsValid (fill b d)
unfolding fill
fill-IsValid b d v = record {
  fits = omega (arith, v.fits, length-append b.block (take (room b d) d), length-take (room b d) d);
  unread = elim v.unread [
    | inl e ↦ inl e
    | inr h ↦ inr (omega (arith, h, length-append b.block (take (room b d) d)))
  ];
}

consumed-le : (b : Buffer) → IsValid b → b.consumed ≤ datasize b
consumed-le b v = elim v.unread [ inl e ↦ omega arith | inr h ↦ omega arith ]

fill-content :
    (b : Buffer) (d : Bytes)
    → IsValid b
    → drop (fill b d).consumed (fill b d).block ++ drop (room b d) d ≡ drop b.consumed b.block ++ d
unfolding fill
fill-content b d v = rw (drop-append_le b.consumed b.block (take (room b d) d) (consumed-le b v)) (
    append_assoc (drop b.consumed b.block) _ _
    ∙ ap (◌++◌ (drop b.consumed b.block)) (take-append-drop (room b d) d))

room_left :
    (b : Buffer) (x : ℕ) (d : Bytes)
    → datasize b < b.datamax
    → length (drop (room b (x ∷ d)) (x ∷ d)) ≤ length d
room_left b x d h = omega (arith, length-drop (room b (x ∷ d)) (x ∷ d))

queue_loop-Delivers :
    (fuel : ℕ) (mem : Memory) (k : ℕ) (b : Buffer) (d : Bytes)
    → length d < fuel
    → IsValid b
    → Delivers mem (drop b.consumed b.block ++ d) (queue_loop fuel mem k b d)
unfolding queue_loop
queue_loop-Delivers zero mem k b d h v = absurd (omega arith)
queue_loop-Delivers (suc fuel) mem k b [] h v = ((v, tt), unfold content in refl)
queue_loop-Delivers (suc fuel) mem k b (x ∷ d) h v = elim (Bool-cases (datasize b == b.datamax)) [
  | inl full ↦ elim (buffer_new_lem mem k) [
    | inl (e, failed) ↦ rw (full, e) failed
    | inr e ↦
        rw (full, e)
          (Delivers-link mem b (x ∷ d) _ v (
            Delivers-congr mem
              (queue_loop fuel mem (k + 2) (fill empty (x ∷ d)) (drop (room empty (x ∷ d)) (x ∷ d)))
              (fill-content empty (x ∷ d) empty-IsValid)
              (queue_loop-Delivers fuel mem (k + 2) (fill empty (x ∷ d))
                (drop (room empty (x ∷ d)) (x ∷ d))
                (omega (arith, room_left empty x d (omega arith)))
                (fill-IsValid empty (x ∷ d) empty-IsValid))))
  ]
  | inr free ↦ rw free (
      Delivers-congr mem (queue_loop fuel mem k (fill b (x ∷ d)) (drop (room b (x ∷ d)) (x ∷ d)))
        (fill-content b (x ∷ d) v)
        (queue_loop-Delivers fuel mem k (fill b (x ∷ d)) (drop (room b (x ∷ d)) (x ∷ d))
          (omega (arith, room_left b x d (ground (arith, v.fits)))) (fill-IsValid b (x ∷ d) v)))
]

queue_failed :
    (mem : Memory) (x : ℕ) (d : Bytes)
    → buffer_new mem 0 ≡ none
    → buffer_queue mem [] (x ∷ d) ≡ no_memory
unfolding buffer_queue
queue_failed mem x d e = rw (e, buffer_queue)

queue_first :
    (mem : Memory) (x : ℕ) (d : Bytes)
    → buffer_new mem 0 ≡ some empty
    → buffer_queue mem [] (x ∷ d) ≡ queue_loop (suc (length (x ∷ d))) mem 2 empty (x ∷ d)
unfolding buffer_queue
queue_first mem x d e = rw (e, buffer_queue)

-- On a chain of valid blocks `buffer_queue` answers a chain of valid blocks that delivers the old
-- bytes and then the new ones; only a failed allocation makes it answer null. Its loop ends.
pub buffer_queue-Delivers :
    (mem : Memory) (bs : List Buffer) (d : Bytes)
    → AllValid bs
    → Delivers mem (content bs ++ d) (buffer_queue mem bs d)
unfolding buffer_queue content
buffer_queue-Delivers mem [] [] v = (tt, unfold content in refl)
buffer_queue-Delivers mem [] (x ∷ d) v = elim (buffer_new_lem mem 0) [
  | inl (e, failed) ↦ subst (Delivers mem (x ∷ d)) (sym (queue_failed mem x d e)) failed
  | inr e ↦
      subst (Delivers mem (x ∷ d)) (sym (queue_first mem x d e))
        (queue_loop-Delivers (suc (length (x ∷ d))) mem 2 empty (x ∷ d) (omega arith) empty-IsValid)
]
buffer_queue-Delivers mem (b ∷ []) d v =
    Delivers-congr mem (queue_loop (suc (length d)) mem 0 b d) last
      (queue_loop-Delivers (suc (length d)) mem 0 b d (omega arith) v.0)
  where
    last : drop b.consumed b.block ++ d ≡ content (b ∷ []) ++ d
    last =
        unfold content in ap (λ (xs : Bytes). xs ++ d) (sym (append-nil (drop b.consumed b.block)))
buffer_queue-Delivers mem (b ∷ c ∷ bs) d v =
    Delivers-congr mem (link b (buffer_queue mem (c ∷ bs) d)) first (
      Delivers-link mem b (content (c ∷ bs) ++ d) (buffer_queue mem (c ∷ bs) d) v.0
        (buffer_queue-Delivers mem (c ∷ bs) d v.1))
  where
    first : drop b.consumed b.block ++ (content (c ∷ bs) ++ d) ≡ content (b ∷ c ∷ bs) ++ d
    first = unfold content in sym (append_assoc (drop b.consumed b.block) _ _)
