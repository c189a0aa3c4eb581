-- ===== src/Channels/Names.antt =====
-- join.c: the names of channels, of the channels behind full ones, and the names that a channel
-- lists. `scratch` is the length of the text in the global `Buf`, which the size of the name of a
-- rollover channel is computed from.
use opennap.Base.{
  ℕ, zero, suc, ◌+◌, ◌-◌, ◌/◌, ◌%◌, ◌^◌, Bool, true, false, ◌&&◌, ◌||◌, not, List, [], ◌∷◌, ◌++◌,
  Option, none, some, ltb, leb, ◌==◌, if◌then◌else◌, ℤ, pos, negsuc, take, length,
}
use opennap.Text.{Bytes, codes, case_eq}
use opennap.Glob.{glob_match}
use opennap.Ban.{Ban, contains}
use opennap.Server.{is_over, atoi}
use opennap.Channels.{Settings, null_list}

unfoldable pub any_invalid : Bytes → Bool
any_invalid [] = false
any_invalid (c ∷ s) = ltb c b'!' || (ltb b'~' c || (contains c (codes "%$*?\",") || any_invalid s))

unfoldable pub invalid_channel : Settings → Bytes → Bool
unfolding any_invalid is_over
invalid_channel cfg [] = true
invalid_channel cfg (c ∷ s) =
    not (c == b'#' || c == b'&')
    || (any_invalid s || ((length s == 0) || is_over (cfg.max_channel_length) (length s)))

-- The first ban whose mask matches, in the list of a channel.
unfoldable pub first_ban : List Ban → Bytes → Option Ban
first_ban [] mask = none
first_ban (b ∷ bans') mask = if glob_match (b.target) mask then some b else first_ban bans' mask

unfoldable pub is_banned : List Ban → Bytes → Bytes → Option Ban
unfolding first_ban
is_banned bans' nick host = first_ban bans' (take 255 (nick ++ b'!' ∷ host))

unfoldable pub names_user : List Bytes → Bytes → Bool
unfolding case_eq
names_user [] nick = false
names_user (op ∷ ops) nick = case_eq nick op || names_user ops nick

-- `%d`: the digits of a number, by at most `fuel` divisions.
unfoldable pub digits_of : ℕ → ℕ → Bytes
digits_of zero n = []
digits_of (suc fuel) n =
    let more = digits_of fuel (n / 10) in
    if ltb n 10 then (b'0' + n) ∷ [] else more ++ (b'0' + n % 10) ∷ []

-- `n + 1` of an `int` of at most ten digits.
abbrev pub successor : ℤ → Bytes
successor (pos n) = digits_of 11 (n + 1)
successor (negsuc zero) = digits_of 11 0
successor (negsuc (suc n)) = b'-' ∷ digits_of 11 (suc n)

-- The text, and the longest end of it whose bytes pass ISDIGIT, which are those up to '9'.
unfoldable pub split_number : Bytes → Bytes × Bytes
split_number [] = ([], [])
split_number (c ∷ s) =
    let (base, tail) = split_number s in
    if null_list base && leb c b'9' then ([], c ∷ tail) else (c ∷ base, tail)

-- `sizeof (chanbuf) - strlen (Buf)`, an unsigned 64-bit number.
abbrev pub digits_room : ℕ → ℕ
digits_room scratch = (256 + 2 ^ 64 - scratch) % 2 ^ 64

-- A text in `chanbuf`, which has 256 bytes: `none` is a write behind its end.
abbrev pub in_chanbuf : Bytes → Option Bytes
in_chanbuf s = if ltb (length s) 256 then some s else none

-- The name of the rollover channel that is tried behind a full one. The room that `snprintf` is told
-- of does not count the text that stands in front of the digits.
unfoldable pub rollover : ℕ → Bytes → Option Bytes
unfolding split_number digits_of atoi
rollover scratch name =
    let (base, tail) = split_number (take 255 name) in
    in_chanbuf (base ++ take (digits_room scratch - 1) (successor (atoi tail)))

-- The name, put behind a `#` where it starts with neither mark.
unfoldable pub channel_name : Bytes → Bytes
channel_name [] = codes "#"
channel_name (c ∷ s) = if c == b'#' || c == b'&' then c ∷ s else take 255 (b'#' ∷ c ∷ s)
