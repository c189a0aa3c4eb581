-- ===== src/Buffer/Send.antt =====
-- buffer.c: what is queued for a connection, and what is written to its socket. The result of `WRITE`
-- and the compression of the data for a server are arguments.
use opennap.Base.{
  ℕ, zero, suc, ◌-◌, Bool, true, false, List, [], ◌∷◌, ltb, if◌then◌else◌, ℤ, pos, negsuc,
}
use opennap.Text.{Bytes}
use opennap.Buffer.{
  Buffer, datasize, Memory, Queued, queued, no_memory, no_fuel, buffer_queue, buffer_consume,
  buffer_append, buffer_size,
}

-- A number of bytes, the error EWOULDBLOCK or EDEADLK, or another error.
pub data Written : Type 0 where
  wrote : ℕ → Written
  not_now broken : Written

-- `outbuf` is used by connections of servers only.
pub record Queues : Type 0 where
  pub sendbuf : List Buffer
  pub outbuf : List Buffer
  pub destroy : Bool

-- `buffer_compress` on a chain that is not empty: its result, and what is left of the chain.
abbrev pub Compress : Type 0
Compress = List Buffer → List Buffer × List Buffer

abbrev pub compressed : List Buffer × List Buffer → Queues → Queues
compressed (r, outbuf') q = record q { sendbuf = buffer_append (q.sendbuf) r; outbuf = outbuf' }

abbrev pub flush : Compress → List Buffer → Queues → Queues
flush compress [] q = q
flush compress (b ∷ bs) q = compressed (compress (b ∷ bs)) q

-- What `WRITE` is asked to write.
abbrev pub offered : Buffer → ℕ
offered b = datasize b - b.consumed

-- -1 where the connection is to be closed.
abbrev pub within : ℕ → Queues → ℤ × Queues
within limit q = if ltb limit (buffer_size (q.sendbuf)) then (negsuc 0, q) else (pos 0, q)

abbrev pub written : ℕ → Written → Queues → Buffer → List Buffer → ℤ × Queues
written limit broken q b bs = (negsuc 0, q)
written limit not_now q b bs = (pos 0, q)
written limit (wrote zero) q b bs = within limit q
written limit (wrote (suc n)) q b bs =
    within limit (record q { sendbuf = buffer_consume b bs (suc n) })

abbrev pub write_first : ℕ → Written → Queues → List Buffer → ℤ × Queues
write_first limit w q [] = (pos 0, q)
write_first limit w q (b ∷ bs) = written limit w q b bs

unfoldable pub send_queued_data : Compress → Bool → ℕ → Written → Queues → ℤ × Queues
unfolding buffer_append buffer_consume buffer_size
send_queued_data compress is_server limit w q =
    let q' = if is_server then flush compress (q.outbuf) q else q in
    write_first limit w q' (q'.sendbuf)

-- The buffers are lost where memory runs out; the result null closes the connection.
abbrev pub chain : Queued → List Buffer
chain (queued bs) = bs
chain no_memory = []
chain no_fuel = []

abbrev pub is_null : List Buffer → Bool
is_null [] = true
is_null (b ∷ bs) = false

unfoldable pub queue_data : Memory → Bool → Queues → Bytes → Queues
unfolding buffer_queue
queue_data mem is_server q s =
    let out = chain (buffer_queue mem (q.outbuf) s) in
    let send = chain (buffer_queue mem (q.sendbuf) s) in
    if is_server
    then record q { outbuf = out; destroy = if is_null out then true else q.destroy }
    else record q { sendbuf = send; destroy = if is_null send then true else q.destroy }
