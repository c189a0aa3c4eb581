-- ===== src/Channels/Bans.antt =====
-- channel.c: the messages about the bans of a channel.
use opennap.Base.{ℕ, Bool, true, not, List, [], ◌∷◌, ◌++◌, Option, none, some, if◌then◌else◌}
use opennap.Text.{Bytes, codes, case_eq}
use opennap.LinkedList.{list_find}
use opennap.Ban.{Ban, normalize_ban, is_banned}
use opennap.Server.{
  User, Connection, Value, text, number, Output, sent, passed, Globals, is_user, permission_denied,
  unparsable, fields,
}
use opennap.Channels.{
  Chats, Told, tell, reply, null_list, has, nonull, is_chanop, lacks_rights, notify_ops, find, put,
  with_user, with_sender, on_channel,
}

-- The third field of a message, or null.
abbrev pub given : List Bytes → Option Bytes
given [] = none
given (why ∷ l) = some why

-- The reason in quotes, as the last arguments of `:%s %s %s%s%s%s`.
abbrev pub quoted_reason : Option Bytes → List Value
quoted_reason none = text [] ∷ text [] ∷ text [] ∷ []
quoted_reason (some why) = text (codes " \"") ∷ text why ∷ text (codes "\"") ∷ []

-- The handler behind its checks, with the mask in its full form.
unfoldable pub add_ban :
    Globals → Connection → ℕ → Chats → Bool → Bytes → Bytes → Option Bytes → ℕ → Told
unfolding is_banned notify_ops
add_ban g con tag s alloc_ok sender banptr why c =
    let chan = s.channel c in
    let b : Ban = record {
      target = banptr;
      setby = sender;
      reason = nonull why;
      when = g.current_time;
      timeout = 0;
    } in
    if is_banned banptr (chan.bans)
    then tell s []
    else if alloc_ok
    then tell (put s c (record chan { bans = b ∷ chan.bans })) (
        passed true tag ":%s %s %s%s%s%s"
          (text sender ∷ text (chan.name) ∷ text banptr ∷ quoted_reason why)
        ∷ notify_ops chan "%s banned %s from %s: %s"
            (text sender ∷ text banptr ∷ text (chan.name) ∷ text (nonull why) ∷ []))
    else tell s []

unfoldable pub ban_on :
    Globals → Connection → ℕ → Chats → Bool → Bytes → Option User → Bytes → Option Bytes → ℕ → Told
unfolding add_ban lacks_rights normalize_ban permission_denied
ban_on g con tag s alloc_ok sender user mask why c =
    if lacks_rights (s.channel c) user
    then tell s (permission_denied con)
    else add_ban g con tag s alloc_ok sender (normalize_ban g mask 256) why c

-- A message with a channel, a mask and a reason.
abbrev pub mask_fields :
    Connection → Chats → (Bytes → Option Bytes → ℕ → Told) → Option (List Bytes) → Told
mask_fields con s k none = tell s (unparsable con)
mask_fields con s k (some []) = tell s (unparsable con)
mask_fields con s k (some (name ∷ [])) = tell s (unparsable con)
mask_fields con s k (some (name ∷ mask ∷ l)) = on_channel con s (k mask (given l)) (find s name)

-- The message 422. The flag says whether the ban and its list node can be allocated.
unfoldable pub channel_ban : Globals → Connection → ℕ → Bool → Bytes → Chats → Option Told
unfolding ban_on
channel_ban g con tag alloc_ok pkt s = with_sender g con pkt s (λ sender user rest.
    some (mask_fields con s (ban_on g con tag s alloc_ok sender user) (fields 3 rest)))

-- The first ban with the mask, and the list without it.
unfoldable pub unlink_ban : Bytes → List Ban → Option (Ban × List Ban)
unfolding case_eq
unlink_ban banptr [] = none
unlink_ban banptr (b ∷ more) =
    let later : Option (Ban × List Ban) = elim (unlink_ban banptr more) [
      | none ↦ none
      | some (found, rest) ↦ some (found, b ∷ rest)
    ] in
    if case_eq banptr (b.target) then some (b, more) else later

abbrev pub unban_found :
    Connection → ℕ → Chats → Bytes → Option Bytes → ℕ → Option (Ban × List Ban) → Told
unban_found con tag s sender why c none = tell s (reply con "no such ban" [])
unban_found con tag s sender why c (some (b, rest)) =
    let chan = s.channel c in
    tell (put s c (record chan { bans = rest })) (
      passed true tag ":%s %s %s%s%s%s"
        (text sender ∷ text (chan.name) ∷ text (b.target) ∷ quoted_reason why)
      ∷ notify_ops chan "%s unbanned %s from %s: %s"
          (text sender ∷ text (b.target) ∷ text (chan.name) ∷ text (nonull why) ∷ []))

unfoldable pub unban_on :
    Globals → Connection → ℕ → Chats → Bytes → Option User → Bytes → Option Bytes → ℕ → Told
unfolding unlink_ban lacks_rights normalize_ban permission_denied notify_ops
unban_on g con tag s sender user mask why c =
    if lacks_rights (s.channel c) user
    then tell s (permission_denied con)
    else unban_found con tag s sender why c
        (unlink_ban (normalize_ban g mask 256) ((s.channel c).bans))

-- The message 423.
unfoldable pub channel_unban : Globals → Connection → ℕ → Bytes → Chats → Option Told
unfolding unban_on
channel_unban g con tag pkt s = with_sender g con pkt s (λ sender user rest.
    some (mask_fields con s (unban_on g con tag s sender user) (fields 3 rest)))

unfoldable pub channel_ban_lines : List Ban → List Output
channel_ban_lines [] = []
channel_ban_lines (b ∷ bans') =
    sent 421 "%s %s \"%s\" %d %d" (
      text (b.target)
      ∷ text (b.setby)
      ∷ text (b.reason)
      ∷ number (b.when)
      ∷ number (b.timeout)
      ∷ [])
    ∷ channel_ban_lines bans'

-- The message 420.
unfoldable pub channel_banlist : Connection → ℕ → Bytes → Chats → Told
unfolding channel_ban_lines
channel_banlist con tag pkt s =
    if is_user con
    then on_channel con s
        (λ c. tell s (channel_ban_lines ((s.channel c).bans) ++ sent tag "" [] ∷ [])) (find s pkt)
    else tell s []

unfoldable pub clear_bans_on : Connection → ℕ → Chats → User → ℕ → Told
unfolding list_find is_chanop permission_denied notify_ops
clear_bans_on con tag s sender c =
    let chan = s.channel c in
    let relayed = passed true tag ":%s %s" (text (sender.nick) ∷ text (chan.name) ∷ []) in
    if not (has (s.joined (sender.address)) c)
    then tell s (reply con "You are not on that channel" [])
    else if lacks_rights chan (some sender)
    then tell s (permission_denied con)
    else if null_list (chan.bans)
    then tell s (relayed ∷ reply con "There are no bans" [])
    else tell (put s c (record chan { bans = [] })) (
        relayed
        ∷ notify_ops chan "%s cleared the ban list on %s"
            (text (sender.nick) ∷ text (chan.name) ∷ []))

abbrev pub clear_bans_sent : Connection → ℕ → Chats → User → Option Bytes → Told
clear_bans_sent con tag s sender none = tell s (unparsable con)
clear_bans_sent con tag s sender (some pkt) =
    on_channel con s (clear_bans_on con tag s sender) (find s pkt)

-- The message 424.
unfoldable pub channel_clear_bans : Globals → Connection → ℕ → Bytes → Chats → Option Told
unfolding clear_bans_on
channel_clear_bans g con tag pkt s =
    with_user g con pkt s (λ sender rest. some (clear_bans_sent con tag s sender rest))
