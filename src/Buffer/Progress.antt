-- ===== src/Buffer/Progress.antt =====
-- buffer.c: the writes of a connection of a user, one after another.
use opennap.Base.{
  ℕ, zero, suc, ◌+◌, ◌≤◌, ◌<◌, ◌≡◌, refl, sym, ap, ◌∙◌, subst, inl, inr, Bool, false, List, [], ◌∷◌,
  ◌++◌, Option, none, some, arith, leb, ℤ, pos, negsuc, length, take, drop, All, Bool-cases,
  take-append_le, take-append-drop, length-drop, length-append,
}
use opennap.Text.{Bytes}
use opennap.Buffer.{Buffer, datasize, buffer_consume, buffer_size}
use opennap.Buffer.Content.{content, AllValid, buffer_size-content}
use opennap.Buffer.Consume.{buffer_consume-content}
use opennap.Buffer.Send.{Written, wrote, Queues, Compress, offered, within, send_queued_data}

-- How many bytes the socket accepts of a buffer, in each round.
abbrev pub Socket : Type 0
Socket = ℕ → Buffer → ℕ

-- The bytes that a round hands over.
abbrev handed : Socket → ℕ → List Buffer → Bytes
handed socket i [] = []
handed socket i (b ∷ bs) = take (socket i b) (drop b.consumed b.block)

abbrev accepted : Socket → ℕ → List Buffer → Written
accepted socket i [] = wrote 0
accepted socket i (b ∷ bs) = wrote (socket i b)

abbrev then_sent : Bytes → Option (Bytes × List Buffer) → Option (Bytes × List Buffer)
then_sent s none = none
then_sent s (some (more, bs)) = some (s ++ more, bs)

-- Rounds of `send_queued_data` for a user, from round `i` on: the bytes that were written and the
-- chain that is left, or nothing where a round closes the connection.
unfoldable pub rounds : ℕ → ℕ → Socket → Compress → ℕ → Queues → Option (Bytes × List Buffer)
rounds zero i socket compress limit q = some ([], q.sendbuf)
rounds (suc n) i socket compress limit q =
    let (result, q') = send_queued_data compress false limit (accepted socket i (q.sendbuf)) q in
    elim result [
      | negsuc k ↦ none
      | pos k ↦ then_sent (handed socket i (q.sendbuf)) (rounds n (suc i) socket compress limit q')
    ]

-- Every block has a byte that has not been read.
abbrev pub AllUnread : List Buffer → Type 0
AllUnread = All (λ b. b.consumed < datasize b)

consumed-AllUnread :
    (b : Buffer) (bs : List Buffer) (n : ℕ) → AllUnread (b ∷ bs) → AllUnread (buffer_consume b bs n)
unfolding buffer_consume
consumed-AllUnread b bs n u = elim (Bool-cases (leb (datasize b) (b.consumed + n))) [
  | inl e ↦ rw e (u.1)
  | inr e ↦ rw e (ground arith, u.1)
]

within_ok : (limit : ℕ) (q : Queues) → buffer_size (q.sendbuf) ≤ limit → within limit q ≡ (pos 0, q)
within_ok limit q h = ground arith

rounds_step :
    (n i : ℕ) (socket : Socket) (compress : Compress) (limit : ℕ) (q q' : Queues) (more : Bytes)
    (left : List Buffer)
    → send_queued_data compress false limit (accepted socket i (q.sendbuf)) q ≡ (pos 0, q')
    → rounds n (suc i) socket compress limit q' ≡ some (more, left)
    → rounds (suc n) i socket compress limit q ≡ some (handed socket i (q.sendbuf) ++ more, left)
unfolding rounds
rounds_step n i socket compress limit q q' more left e h =
    subst
      (λ (r : ℤ × Queues).
        elim r.0 [
          | negsuc k ↦ none
          | pos k ↦
              then_sent (handed socket i (q.sendbuf)) (rounds n (suc i) socket compress limit r.1)
        ]
        ≡ some (handed socket i (q.sendbuf) ++ more, left))
      (sym e) (rw h)

module _ (socket : Socket) (compress : Compress) (limit : ℕ)
    (accepts : (j : ℕ) (b : Buffer)
      → b.consumed < datasize b
      → (0 < socket j b) × (socket j b ≤ offered b))
    (o : List Buffer) (d : Bool) where
  abbrev of_chain : List Buffer → Queues
  of_chain bs = record { sendbuf = bs; outbuf = o; destroy = d }

  abbrev wrote_some : ℕ → Buffer → List Buffer → List Buffer
  wrote_some i b bs = buffer_consume b bs (socket i b)

  round_answer :
      (i : ℕ) (b : Buffer) (bs : List Buffer)
      → 0 < socket i b
      → buffer_size (wrote_some i b bs) ≤ limit
      → send_queued_data compress false limit (wrote (socket i b)) (of_chain (b ∷ bs))
        ≡ (pos 0, of_chain (wrote_some i b bs))
  round_answer i b bs h small = by_count (socket i b) h small
    where
      by_count :
          (n : ℕ)
          → 0 < n
          → buffer_size (buffer_consume b bs n) ≤ limit
          → send_queued_data compress false limit (wrote n) (of_chain (b ∷ bs))
            ≡ (pos 0, of_chain (buffer_consume b bs n))
      by_count zero h small = absurd (omega arith)
      by_count (suc n) h small =
          unfold send_queued_data in within_ok limit (of_chain (buffer_consume b bs (suc n))) small

  -- The bytes of a round are the first ones of the chain.
  handed-content :
      (i : ℕ) (b : Buffer) (bs : List Buffer)
      → socket i b ≤ offered b
      → handed socket i (b ∷ bs) ≡ take (socket i b) (content (b ∷ bs))
  unfolding content
  handed-content i b bs h = sym (
      take-append_le (socket i b) (drop b.consumed b.block) (content bs)
        (omega (arith, length-drop b.consumed b.block)))

  length-content :
      (b : Buffer) (bs : List Buffer) → length (content (b ∷ bs)) ≡ offered b + length (content bs)
  unfolding content
  length-content b bs =
      length-append (drop b.consumed b.block) (content bs)
      ∙ ap (λ (n : ℕ). n + length (content bs)) (length-drop b.consumed b.block)

  deliver :
      (n i : ℕ) (bs : List Buffer)
      → AllValid bs
      → AllUnread bs
      → length (content bs) ≤ limit
      → length (content bs) ≤ n
      → rounds n i socket compress limit (of_chain bs) ≡ some (content bs, [])
  unfolding rounds
  deliver zero i [] valid unread small enough = unfold content in refl
  deliver zero i (b ∷ bs) valid unread small enough =
      absurd (omega (arith, length-content b bs, unread.0))
  deliver (suc n) i [] valid unread small enough =
      nothing (deliver n (suc i) [] valid unread small (unfold content in omega arith))
    where
      nothing :
          rounds n (suc i) socket compress limit (of_chain []) ≡ some (content [], [])
          → rounds (suc n) i socket compress limit (of_chain []) ≡ some (content [], [])
      nothing e = unfold send_queued_data in rw e refl
  deliver (suc n) i (b ∷ bs) valid unread small enough =
      let (some_bytes, few) = accepts i b unread.0 in
      let k = socket i b in
      let (rest, valid') = buffer_consume-content b bs k valid (omega (arith, unread.0)) in
      let shorter = ap length rest ∙ length-drop k (content (b ∷ bs)) in
      let ih =
        deliver n (suc i) (buffer_consume b bs k) valid' (consumed-AllUnread b bs k unread)
          (omega arith) (omega (arith, length-content b bs)) in
      let answered =
        round_answer i b bs some_bytes
          (omega (arith, buffer_size-content (buffer_consume b bs k))) in
      rounds_step n i socket compress limit (of_chain (b ∷ bs)) (of_chain (buffer_consume b bs k)) _
        [] answered ih
      ∙ ap (λ (c : Bytes). some (c, []))
          (rw (handed-content i b bs few, rest) (take-append-drop k (content (b ∷ bs))))

-- Where a socket accepts at least one byte of every buffer that it is offered, and what is queued is
-- within the limit of the queue, all that is queued for a user is written, in order and once: in as
-- many rounds as there are bytes the queue is empty, and no round closes the connection.
pub rounds_deliver :
    (n i : ℕ) (socket : Socket) (compress : Compress) (limit : ℕ) (q : Queues)
    → ((j : ℕ) (b : Buffer) → b.consumed < datasize b → (0 < socket j b) × (socket j b ≤ offered b))
    → AllValid (q.sendbuf)
    → AllUnread (q.sendbuf)
    → length (content (q.sendbuf)) ≤ limit
    → length (content (q.sendbuf)) ≤ n
    → rounds n i socket compress limit q ≡ some (content (q.sendbuf), [])
rounds_deliver n i socket compress limit q accepts valid unread small enough =
    deliver socket compress limit accepts (q.outbuf) (q.destroy) n i (q.sendbuf) valid unread small
      enough
