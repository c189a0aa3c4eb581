-- ===== src/Ban.antt =====
-- ban.c: the list of bans, its messages, and the test of a user that signs on.
pub mod Removal
pub mod Signon
pub mod Unique
pub mod Permission
pub mod Active
use opennap.Base.{
  ℕ, ◌+◌, ◌-◌, Bool, true, false, ◌&&◌, ◌||◌, List, [], ◌∷◌, ◌++◌, Option, none, some, ltb, ◌==◌,
  if◌then◌else◌, take, ℤ, pos, negsuc, length,
}
use opennap.Text.{Bytes, codes, case_eq}
use Prim.Native.String.{String}
use opennap.Glob.{glob_match}
use opennap.Args.{split_line}
use opennap.Server.{
  User, Connection, unknown_con, user_con, server_con, is_user, Value, text, number, Output, sent,
  passed, mods_notified, Globals, permission_denied, unparsable, truncate_reason, invalid_nick,
  atoi, Popped, failed, null_user, popped, pop_user_server, pop_user, fields, level_moderator,
  msg_nosuch,
}

pub record Ban : Type 0 where
  pub target : Bytes
  pub setby : Bytes
  pub reason : Bytes
  pub when : ℕ
  pub timeout : ℕ

-- The new list of bans, and what was sent.
pub record Reply : Type 0 where
  pub bans : List Ban
  pub outputs : List Output

abbrev pub contains : ℕ → Bytes → Bool
contains c [] = false
contains c (x ∷ s) = (x == c) || contains c s

abbrev pub ends_in_dot : Bytes → Bool
ends_in_dot [] = false
ends_in_dot (c ∷ []) = c == b'.'
ends_in_dot (c ∷ d ∷ s) = ends_in_dot (d ∷ s)

-- The mask in the form `user!host`; `snprintf` cuts what it makes at `destlen - 1` bytes.
unfoldable pub normalize_ban : Globals → Bytes → ℕ → Bytes
normalize_ban g src destlen =
    let host = if ends_in_dot src then codes "*!" ++ src ++ codes "*" else codes "*!" ++ src in
    if contains b'!' src
    then src
    else if invalid_nick g src
    then take (destlen - 1) host
    else take (destlen - 1) (src ++ codes "!*")

abbrev pub banlog_mode : ℕ
banlog_mode = 2

abbrev pub killlog_mode : ℕ
killlog_mode = 8

abbrev pub msg_ban : ℕ
msg_ban = 612

abbrev pub msg_unban : ℕ
msg_unban = 614

unfoldable pub is_banned : Bytes → List Ban → Bool
is_banned banptr [] = false
is_banned banptr (b ∷ more) = case_eq banptr (b.target) || is_banned banptr more

abbrev pub answer : Connection → List Ban → String → Reply
answer con bans' message = record {
  bans = bans';
  outputs = if is_user con then sent msg_nosuch message [] ∷ [] else [];
}

abbrev pub ban_notice : Bytes → Ban → Bytes → Output
ban_notice sendernick b seconds =
    if ltb 0 (b.timeout)
    then mods_notified banlog_mode "%s banned %s%s%s%s: %s" (
        text sendernick
        ∷ text (b.target)
        ∷ text (codes " for ")
        ∷ text seconds
        ∷ text (codes " seconds")
        ∷ text (b.reason)
        ∷ [])
    else mods_notified banlog_mode "%s banned %s%s%s%s: %s"
        (text sendernick ∷ text (b.target) ∷ text [] ∷ text [] ∷ text [] ∷ text (b.reason) ∷ [])

-- The handler from the search for an old ban on: the mask as it came and in its full form.
unfoldable pub set_ban :
    Globals → Connection → List Ban → Bool → Bytes → Bytes → Bytes → Bytes → ℕ → Bytes → Reply
unfolding is_banned is_user
set_ban g con bans' alloc_ok sendernick mask banptr why seconds' given =
    let b : Ban = record {
      target = banptr;
      setby = sendernick;
      reason = why;
      when = g.current_time;
      timeout = seconds';
    } in
    let relayed : Output =
      passed true msg_ban ":%s %s \"%s\" %d"
        (text sendernick ∷ text mask ∷ text why ∷ number seconds' ∷ []) in
    if is_banned banptr bans'
    then answer con bans' "already banned"
    else if alloc_ok
    then record { bans = b ∷ bans'; outputs = relayed ∷ ban_notice sendernick b given ∷ [] }
    else record { bans = bans'; outputs = relayed ∷ [] }

abbrev pub with_timeout :
    Globals → Connection → List Ban → Bool → Bytes → Bytes → Bytes → Bytes → ℤ → Reply
with_timeout g con bans' alloc_ok nick mask why given (pos seconds') =
    set_ban g con bans' alloc_ok nick mask (normalize_ban g mask 256) (truncate_reason g why)
      seconds' given
with_timeout g con bans' alloc_ok nick mask why given (negsuc n) =
    answer con bans' "invalid ban timeout"

abbrev pub ban_fields : Globals → Connection → List Ban → Bool → Bytes → Option (List Bytes) → Reply
ban_fields g con bans' alloc_ok nick none = record { bans = bans'; outputs = unparsable con }
ban_fields g con bans' alloc_ok nick (some []) = record { bans = bans'; outputs = unparsable con }
ban_fields g con bans' alloc_ok nick (some (mask ∷ [])) =
    with_timeout g con bans' alloc_ok nick mask [] [] (pos 0)
ban_fields g con bans' alloc_ok nick (some (mask ∷ why ∷ [])) =
    with_timeout g con bans' alloc_ok nick mask why [] (pos 0)
ban_fields g con bans' alloc_ok nick (some (mask ∷ why ∷ given ∷ more)) =
    with_timeout g con bans' alloc_ok nick mask why given (atoi given)

-- `sender && sender->level < LEVEL_MODERATOR`
unfoldable pub too_low : Option User → Bool
too_low none = false
too_low (some sender) = ltb (sender.level) level_moderator

abbrev pub ban_popped : Globals → Connection → List Ban → Bool → Popped → Option Reply
ban_popped g con bans' alloc_ok failed = some (record { bans = bans'; outputs = [] })
ban_popped g con bans' alloc_ok null_user = none
ban_popped g con bans' alloc_ok (popped nick sender pkt) = some (
    if too_low sender
    then record { bans = bans'; outputs = permission_denied con }
    else ban_fields g con bans' alloc_ok nick (fields 3 pkt))

-- `none` is a read through a null pointer.
unfoldable pub ban : Globals → Connection → List Ban → Bool → Bytes → Option Reply
unfolding pop_user_server too_low permission_denied unparsable set_ban
ban g con bans' alloc_ok pkt = ban_popped g con bans' alloc_ok (pop_user_server g con pkt)
