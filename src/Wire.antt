-- ===== src/Wire.antt =====
-- The framing of messages: `set_val` of util.c, `set_tag` and `set_len` of opennap.h, and the
-- formatting functions of serverlib.c, on text that `vsnprintf` has produced. `Buf` has 2048 bytes.
pub mod Frame
use opennap.Base.{
  ℕ, ◌+◌, ◌-◌, ◌*◌, ◌/◌, ◌%◌, ◌^◌, ◌≤◌, Bool, List, [], ◌∷◌, ◌++◌, Option, none, some, ltb,
  if◌then◌else◌, length, take, drop,
}
use opennap.Text.{Bytes}

-- The two bytes of an `unsigned short`, the low one first.
unfoldable pub set_val : ℕ → Bytes
set_val val = (val % 256) ∷ (val / 256 % 256) ∷ []

-- What `memcpy` and `BSWAP16` make of them.
unfoldable pub get_val : ℕ → ℕ → ℕ
get_val lo hi = lo + 256 * hi

abbrev pub buf_size : ℕ
buf_size = 2048

-- What `vsnprintf (Buf + 4, sizeof (Buf) - 4, ...)` leaves of the text.
abbrev pub clip : ℕ → Bytes → Bytes
clip dsize text = take (dsize - 4 - 1) text

-- The message in the buffer, with its length and its tag in front of the text.
unfoldable pub form_message : ℕ → ℕ → Bytes → Bytes
unfolding set_val
form_message dsize tag text = set_val (length (clip dsize text)) ++ (set_val tag ++ clip dsize text)

-- The bytes that `send_cmd` queues.
unfoldable pub send_cmd : ℕ → Bytes → Bytes
unfolding form_message
send_cmd msgtype text = form_message buf_size msgtype text

-- The bytes that `send_cmd_pre` queues: a client that does not know the opennap numerics gets the
-- text behind a prefix as a message 404.
unfoldable pub send_cmd_pre : Bool → ℕ → Bytes → Bytes → Bytes
unfolding form_message
send_cmd_pre numerics tag prefix text =
    if numerics then form_message buf_size tag text else form_message buf_size 404 (prefix ++ text)

-- A message, as the reader takes it off the front of its input.
pub record Command : Type 0 where
  pub tag : ℕ
  pub body : Bytes
  pub rest : Bytes

-- `none` where the header or the body has not arrived whole.
unfoldable pub read_command : Bytes → Option Command
unfolding get_val
read_command (l ∷ m ∷ s ∷ t ∷ data') =
    let len = get_val l m in
    if ltb (length data') len
    then none
    else some (record { tag = get_val s t; body = take len data'; rest = drop len data' })
read_command _ = none
