-- ===== src/Ban/Removal.antt =====
-- ban.c: the messages 614 and 615, which remove a ban and list the bans.
use opennap.Base.{true, List, [], ◌∷◌, Option, none, some, ltb, if◌then◌else◌}
use opennap.Text.{Bytes, case_eq}
use opennap.Server.{
  User, Connection, is_user, text, number, Output, sent, passed, mods_notified, Globals,
  permission_denied, unparsable, truncate_reason, Popped, failed, null_user, popped, pop_user,
  fields, level_moderator,
}
use opennap.Ban.{Ban, Reply, normalize_ban, banlog_mode, msg_unban, answer}

-- The list without its first ban on the mask, and that ban.
unfoldable pub remove_ban : Bytes → List Ban → Option (Ban × List Ban)
remove_ban banptr [] = none
remove_ban banptr (b ∷ more) =
    if case_eq banptr (b.target)
    then some (b, more)
    else elim (remove_ban banptr more) [ none ↦ none | some (found, rest) ↦ some (found, b ∷ rest) ]

abbrev pub removed : Connection → List Ban → Bytes → Bytes → Option (Ban × List Ban) → Reply
removed con bans' nick why none = answer con bans' "no such ban"
removed con bans' nick why (some (b, rest)) = record {
  bans = rest;
  outputs =
      mods_notified banlog_mode "%s removed ban on %s: %s"
        (text nick ∷ text (b.target) ∷ text why ∷ [])
      ∷ passed true msg_unban ":%s %s \"%s\"" (text nick ∷ text (b.target) ∷ text why ∷ [])
      ∷ [];
}

abbrev pub unban_mask : Globals → Connection → List Ban → User → Bytes → Bytes → Reply
unban_mask g con bans' user mask why =
    if ltb (user.level) level_moderator
    then record { bans = bans'; outputs = permission_denied con }
    else removed con bans' (user.nick) (truncate_reason g why)
        (remove_ban (normalize_ban g mask 256) bans')

abbrev pub unban_fields : Globals → Connection → List Ban → User → Option (List Bytes) → Reply
unban_fields g con bans' user none = record { bans = bans'; outputs = unparsable con }
unban_fields g con bans' user (some []) = record { bans = bans'; outputs = unparsable con }
unban_fields g con bans' user (some (mask ∷ [])) = unban_mask g con bans' user mask []
unban_fields g con bans' user (some (mask ∷ why ∷ more)) = unban_mask g con bans' user mask why

abbrev pub unban_popped : Globals → Connection → List Ban → Popped → Option Reply
unban_popped g con bans' failed = some (record { bans = bans'; outputs = [] })
unban_popped g con bans' null_user = none
unban_popped g con bans' (popped nick none pkt) = none
unban_popped g con bans' (popped nick (some user) pkt) =
    some (unban_fields g con bans' user (fields 2 pkt))

unfoldable pub unban : Globals → Connection → List Ban → Bytes → Option Reply
unfolding pop_user permission_denied unparsable is_user remove_ban
unban g con bans' pkt = unban_popped g con bans' (pop_user g con pkt)

abbrev pub ban_lines : List Ban → List Output
ban_lines [] = sent 615 "" [] ∷ []
ban_lines (b ∷ more) =
    sent 616 "%s %s \"%s\" %ld %d" (
      text (b.target)
      ∷ text (b.setby)
      ∷ text (b.reason)
      ∷ number (b.when)
      ∷ number (b.timeout)
      ∷ [])
    ∷ ban_lines more

unfoldable pub banlist : Connection → List Ban → List Output
unfolding is_user
banlist con bans' = if is_user con then ban_lines bans' else []
