-- ===== src/Wire/Frame.antt =====
-- util.c, serverlib.c and handler.c: the form of a message, written and read.
use opennap.Base.{
  ℕ, ◌/◌, ◌%◌, ◌<◌, ◌≡◌, false, ◌++◌, some, arith, ltb, length, take, length-append, length-take,
  take-append, drop-append,
}
use opennap.Text.{Bytes}
use opennap.Wire.{set_val, get_val, send_cmd, read_command}

get_val-set_val : (v : ℕ) → v < 65536 → get_val (v % 256) (v / 256 % 256) ≡ v
unfolding get_val
get_val-set_val v h = omega arith

-- A header of length and tag, a body of that length, and anything behind.
abbrev pub frame : ℕ → Bytes → Bytes
frame tag body = set_val (length body) ++ (set_val tag ++ body)

long_enough : (body rest : Bytes) → ltb (length (body ++ rest)) (length body) ≡ false
long_enough body rest = ground (arith, length-append body rest)

-- The reader takes a whole message off the front of its input and leaves what is behind it.
pub read_command-frame :
    (tag : ℕ) (body rest : Bytes)
    → tag < 65536
    → length body < 65536
    → read_command (frame tag body ++ rest) ≡ some (record { tag = tag; body = body; rest = rest })
unfolding read_command set_val
read_command-frame tag body rest h k = rw (
  get_val-set_val (length body) k,
  get_val-set_val tag h,
  long_enough body rest,
  take-append body rest,
  drop-append body rest,
)

-- What `send_cmd` queues for a tag that is a 16-bit number is read back as the tag and the text, cut
-- to the 2043 bytes that `Buf` has for it.
pub read_command-send_cmd :
    (tag : ℕ) (text rest : Bytes)
    → tag < 65536
    → read_command (send_cmd tag text ++ rest)
      ≡ some (record { tag = tag; body = take 2043 text; rest = rest })
unfolding send_cmd
read_command-send_cmd tag text rest h =
    read_command-frame tag (take 2043 text) rest h (omega (arith, length-take 2043 text))
