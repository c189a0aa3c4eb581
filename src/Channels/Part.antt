-- ===== src/Channels/Part.antt =====
-- part.c, part_channel.c and kick.c: the messages by which members leave a channel.
use opennap.Base.{
  ℕ, Bool, true, ◌&&◌, ◌||◌, not, List, [], ◌∷◌, ◌++◌, Option, none, some, ltb, leb, ◌==◌,
  if◌then◌else◌, update,
}
use opennap.Text.{Bytes, codes}
use opennap.Hash.{hash_lookup}
use opennap.LinkedList.{list_delete, list_find}
use opennap.Args.{next_arg, split_line}
use opennap.Server.{
  User, Connection, Value, text, number, Output, sent, passed, Globals, is_user, permission_denied,
  unparsable, nosuchuser, truncate_reason, level_moderator, level_elite, msg_nosuch,
}
use opennap.Channels.{
  Member, Channel, Chats, Told, tell, reply, null_list, has, nonull, same_user, is_chanop,
  to_members, notify_ops, to_user, find, find_channel, put, destroy_channel, with_user, on_channel,
}

abbrev pub msg_part : ℕ
msg_part = 401

abbrev pub msg_parted : ℕ
msg_parted = 407

unfoldable pub channel_remove : List Member → User → List Member
channel_remove [] user = []
channel_remove (m ∷ l) user = if same_user (m.user) user then l else m ∷ channel_remove l user

-- The members of this server that may know of the user.
abbrev pub sees : User → Member → Bool
sees user m = m.user.local && (not (user.cloaked) || leb level_moderator (m.user.level))

abbrev pub parted : Channel → User → List Member → List Output
parted chan user rest =
    to_members (sees user) msg_parted "%s %s %d %d"
      (text (chan.name) ∷ text (user.nick) ∷ number (user.shared) ∷ number (user.speed) ∷ []) rest

unfoldable pub part_channel : Chats → ℕ → User → Told
unfolding channel_remove to_members destroy_channel
part_channel s c user =
    let chan = s.channel c in
    let rest = channel_remove (chan.users) user in
    let left = put s c (record chan { users = rest }) in
    if null_list rest
    then if chan.user_made then tell (destroy_channel left (chan.name)) [] else tell left []
    else tell left (parted chan user rest)

-- `user->channels = list_delete (user->channels, chan)`
unfoldable pub unlist : Chats → ℕ → User → Chats
unfolding list_delete
unlist s c user = record s {
  joined = update (s.joined) (user.address) (list_delete (s.joined (user.address)) c);
}

abbrev pub after : List Output → Told → Told
after outputs' t = tell (t.chats) (outputs' ++ t.outputs)

abbrev pub part_found : Connection → ℕ → User → Chats → Option ℕ → Told
part_found con tag user s none = tell s (reply con "You are not in that channel" [])
part_found con tag user s (some c) =
    let name' = (s.channel c).name in
    after
      ((if is_user con then sent tag "%s" (text name' ∷ []) ∷ [] else [])
        ++ passed true msg_part ":%s %s" (text (user.nick) ∷ text name' ∷ []) ∷ [])
      (part_channel (unlist s c user) c user)

abbrev pub part_sent : Connection → ℕ → Chats → User → Option Bytes → Option Told
part_sent con tag s user none = some (tell s [])
part_sent con tag s user (some pkt) =
    some (part_found con tag user s (find_channel s (s.joined (user.address)) pkt))

-- The message 401.
unfoldable pub part : Globals → Connection → ℕ → Bytes → Chats → Option Told
unfolding find_channel part_channel unlist
part g con tag pkt s = with_user g con pkt s (part_sent con tag s)

unfoldable pub can_kick : Channel → User → User → Bool
unfolding is_chanop
can_kick chan sender user =
    (sender.level == level_elite)
    || (ltb (user.level) (sender.level) || (is_chanop chan sender && (sender.level == user.level)))

-- The name of the sender, which a user below moderator does not see of a cloaked one.
abbrev pub kicker : User → User → List Value
kicker sender user =
    if sender.cloaked && ltb (user.level) level_moderator
    then text [] ∷ text [] ∷ []
    else text (codes " by ") ∷ text (sender.nick) ∷ []

abbrev pub kick_relay : ℕ → Channel → User → User → Option Bytes → Output
kick_relay tag chan sender user (some why) =
    passed true tag ":%s %s %s \"%s\""
      (text (sender.nick) ∷ text (chan.name) ∷ text (user.nick) ∷ text why ∷ [])
kick_relay tag chan sender user none =
    passed true tag ":%s %s %s" (text (sender.nick) ∷ text (chan.name) ∷ text (user.nick) ∷ [])

-- The handler behind its checks.
unfoldable pub kick_out : ℕ → Chats → ℕ → User → User → Option Bytes → Told
unfolding part_channel unlist notify_ops
kick_out tag s c sender user why =
    let chan = s.channel c in
    after
      (kick_relay tag chan sender user why ∷ to_user user msg_part "%s" (text (chan.name) ∷ [])
        ++ to_user user msg_nosuch "You were kicked from channel %s%s%s: %s"
            (text (chan.name) ∷ kicker sender user ++ text (nonull why) ∷ [])
        ++ notify_ops chan "%s kicked %s out of channel %s: %s"
            (text (sender.nick) ∷ text (user.nick) ∷ text (chan.name) ∷ text (nonull why) ∷ []))
      (part_channel (unlist s c user) c user)

abbrev pub kick_target : Connection → ℕ → Chats → ℕ → User → Option Bytes → Option User → Told
kick_target con tag s c sender why none = tell s (nosuchuser con)
kick_target con tag s c sender why (some user) =
    if ltb (sender.level) ((s.channel c).level) || not (can_kick (s.channel c) sender user)
    then tell s (permission_denied con)
    else if has (s.joined (user.address)) c
    then kick_out tag s c sender user why
    else tell s (reply con "users is not on that channel" [])

unfoldable pub kick_from : Globals → Connection → ℕ → Chats → User → Bytes → Option Bytes → ℕ → Told
unfolding list_find can_kick kick_out permission_denied nosuchuser
kick_from g con tag s sender nick why c =
    if has (s.joined (sender.address)) c
    then kick_target con tag s c sender why (hash_lookup (g.users) nick)
    else tell s (reply con "You are not on that channel" [])

abbrev pub cut_reason : Globals → List Bytes → Option Bytes
cut_reason g [] = none
cut_reason g (why ∷ l) = some (truncate_reason g why)

abbrev pub kick_fields : Globals → Connection → ℕ → Chats → User → Option (List Bytes) → Told
kick_fields g con tag s sender none = tell s (unparsable con)
kick_fields g con tag s sender (some []) = tell s (unparsable con)
kick_fields g con tag s sender (some (name ∷ [])) = tell s (unparsable con)
kick_fields g con tag s sender (some (name ∷ nick ∷ l)) =
    on_channel con s (kick_from g con tag s sender nick (cut_reason g l)) (find s name)

-- `split_line` reads the packet through its pointer.
abbrev pub kick_sent : Globals → Connection → ℕ → Chats → User → Option Bytes → Option Told
kick_sent g con tag s sender none = none
kick_sent g con tag s sender (some pkt) = some (kick_fields g con tag s sender (split_line 3 pkt))

-- The message 10202.
unfoldable pub kick : Globals → Connection → ℕ → Bytes → Chats → Option Told
unfolding kick_from
kick g con tag pkt s = with_user g con pkt s (kick_sent g con tag s)

abbrev pub cleared_notices : Chats → ℕ → User → Bytes → User → List Output
cleared_notices s c sender why user =
    to_user user msg_part "%s" (text ((s.channel c).name) ∷ [])
    ++ to_user user msg_nosuch "%s cleared channel %s: %s"
        (text (sender.nick) ∷ text ((s.channel c).name) ∷ text why ∷ [])

-- The loop over the members as they were; the rights are read from the channel as it is.
unfoldable pub clear_members : ℕ → User → Bytes → List Member → Chats → Told
unfolding can_kick part_channel unlist
clear_members c sender why [] s = tell s []
clear_members c sender why (m ∷ l) s =
    let step : Told =
      if not (same_user (m.user) sender) && can_kick (s.channel c) sender (m.user)
      then after (cleared_notices s c sender why (m.user))
          (part_channel (unlist s c (m.user)) c (m.user))
      else tell s [] in
    after (step.outputs) (clear_members c sender why l (step.chats))

unfoldable pub clear_from : Connection → ℕ → Chats → User → Option Bytes → ℕ → Told
unfolding clear_members permission_denied notify_ops
clear_from con tag s sender why c =
    let chan = s.channel c in
    if ltb (sender.level) (chan.level)
    then tell s (permission_denied con)
    else after
        (passed true tag ":%s %s %s"
            (text (sender.nick) ∷ text (chan.name) ∷ text (nonull why) ∷ [])
          ∷ notify_ops chan "%s cleared channel %s: %s"
              (text (sender.nick) ∷ text (chan.name) ∷ text (nonull why) ∷ []))
        (clear_members c sender (nonull why) (chan.users) s)

abbrev pub cut : Globals → Option Bytes → Option Bytes
cut g none = none
cut g (some why) = some (truncate_reason g why)

abbrev pub clear_arg : Globals → Connection → ℕ → Chats → User → Option Bytes × Option Bytes → Told
clear_arg g con tag s sender (none, why) = tell s (unparsable con)
clear_arg g con tag s sender (some name, why) =
    on_channel con s (clear_from con tag s sender (cut g why)) (find s name)

-- The message 820.
unfoldable pub clear_channel : Globals → Connection → ℕ → Bytes → Chats → Option Told
unfolding clear_from
clear_channel g con tag pkt s =
    with_user g con pkt s (λ sender rest. some (clear_arg g con tag s sender (next_arg rest)))
