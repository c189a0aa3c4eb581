-- ===== src/Channels/Limits.antt =====
-- join.c and topic.c: the messages that set the level, the limit and the topic of a channel.
use opennap.Base.{
  ℕ, Bool, true, false, ◌&&◌, ◌||◌, not, List, [], ◌∷◌, ◌++◌, Option, none, some, ltb, ◌==◌,
  if◌then◌else◌, ℤ, pos, negsuc, ltb_ℤ, take, length,
}
use opennap.Text.{Bytes}
use opennap.Args.{Split, next_arg, split_template}
use opennap.LinkedList.{list_find}
use opennap.Account.Level.{level_name}
use opennap.Server.{
  Connection, unknown_con, user_con, server_con, Value, text, number, Output, sent, passed, Globals,
  is_user, is_over, permission_denied, unparsable, atoi, get_level, level_moderator, msg_nosuch,
}
use opennap.Channels.{
  Channel, Chats, Settings, Told, tell, reply, has, is_chanop, to_members, notify_ops, find, put,
  on_channel,
}

-- The name of the sender and the rest of the packet, of a message that the handler gives up, or a
-- read through a null pointer.
pub data Source : Type 0 where
  given_up : Source
  null_read : Source
  from : Bytes → Option Bytes → Source

abbrev pub named_source : Option Bytes × Option Bytes → Source
named_source (none, pkt) = null_read
named_source (some nick, pkt) = from nick pkt

unfoldable pub source_of : Connection → Bytes → Source
source_of unknown_con pkt = null_read
source_of (user_con user) pkt = from (user.nick) (some pkt)
source_of server_con [] = given_up
source_of server_con (c ∷ pkt) = if c == b':' then named_source (next_arg (some pkt)) else given_up

-- A user may not set a level above the own one, nor below moderator without being an operator.
unfoldable pub may_not_set : Connection → Channel → ℕ → Bool
unfolding is_chanop
may_not_set unknown_con chan level' = false
may_not_set server_con chan level' = false
may_not_set (user_con user) chan level' =
    ltb (user.level) (chan.level)
    || (ltb (user.level) level' || (ltb (user.level) level_moderator && not (is_chanop chan user)))

abbrev pub is_link : Connection → Bool
is_link unknown_con = false
is_link (user_con user) = false
is_link server_con = true

-- A server's time stamp that is newer than the channel.
abbrev pub is_newer : Connection → Channel → List Bytes → Bool
is_newer con chan [] = false
is_newer con chan (ts ∷ l) = is_link con && ltb_ℤ (pos (chan.timestamp)) (atoi ts)

unfoldable pub set_level : Connection → Chats → ℕ → Bytes → ℕ → List Bytes → Told
unfolding may_not_set atoi permission_denied notify_ops level_name
set_level con s c sender level' stamp =
    let chan = s.channel c in
    if chan.level == level'
    then tell s []
    else if may_not_set con chan level'
    then tell s (permission_denied con)
    else if is_newer con chan stamp
    then tell s []
    else tell (put s c (record chan { level = level' })) (
        passed true 823 ":%s %s %s" (text sender ∷ text (chan.name) ∷ text (level_name level') ∷ [])
        ∷ notify_ops chan "%s set channel %s to level %s"
            (text sender ∷ text (chan.name) ∷ text (level_name level') ∷ []))

abbrev pub level_arg : Connection → Chats → ℕ → Bytes → ℤ → List Bytes → Told
level_arg con s c sender (negsuc n) stamp = tell s (reply con "invalid level" [])
level_arg con s c sender (pos level') stamp = set_level con s c sender level' stamp

abbrev pub level_on : Connection → Chats → Bytes → List Bytes → ℕ → Told
level_on con s sender [] c = tell s (
    reply con "channel %s is set to level %s"
      (text ((s.channel c).name) ∷ text (level_name ((s.channel c).level)) ∷ []))
level_on con s sender (level' ∷ stamp) c = level_arg con s c sender (get_level level') stamp

-- With a count of -1 the fields behind the first are not read: `ac > 1` does not hold.
abbrev pub read_fields : Bool → List Bytes → List Bytes
read_fields true rest = []
read_fields false rest = rest

-- The fields go to an array for three, of which the call says that it has 24: `none` where a fourth
-- field is written behind its end, or where the first is read and has not been written. The only
-- count that is refused is 0.
abbrev pub set_level_fields : Connection → Chats → Bytes → Split → Option Told
set_level_fields con s sender (true, []) = none
set_level_fields con s sender (false, []) = some (tell s (unparsable con))
set_level_fields con s sender (bogus, name ∷ rest) =
    if ltb 2 (length rest)
    then none
    else some (on_channel con s (level_on con s sender (read_fields bogus rest)) (find s name))

abbrev pub level_from : Connection → Chats → Source → Option Told
level_from con s given_up = some (tell s [])
level_from con s null_read = none
level_from con s (from sender none) = none
level_from con s (from sender (some pkt)) = set_level_fields con s sender (split_template 24 pkt)

-- The message 823.
unfoldable pub channel_level : Connection → Bytes → Chats → Option Told
unfolding source_of set_level get_level
channel_level con pkt s = level_from con s (source_of con pkt)

abbrev pub limit_denied : Connection → Channel → Bool
limit_denied unknown_con chan = false
limit_denied server_con chan = false
limit_denied (user_con user) chan = ltb (user.level) level_moderator && not (is_chanop chan user)

abbrev pub stamp_of : Option Bytes → List Bytes
stamp_of none = []
stamp_of (some ts) = ts ∷ []

unfoldable pub set_limit : Globals → Connection → ℕ → Chats → Bytes → ℕ → Option Bytes → ℕ → Told
unfolding is_chanop atoi permission_denied notify_ops
set_limit g con tag s sender limit' stamp c =
    let chan = s.channel c in
    if chan.limit == limit'
    then tell s []
    else if limit_denied con chan
    then tell s (permission_denied con)
    else if is_newer con chan (stamp_of stamp)
    then tell s []
    else tell (put s c (record chan { limit = limit'; timestamp = g.current_time })) (
        passed true tag ":%s %s %d" (text sender ∷ text (chan.name) ∷ number limit' ∷ [])
        ∷ notify_ops chan "%s set limit on channel %s to %d"
            (text sender ∷ text (chan.name) ∷ number limit' ∷ []))

abbrev pub limit_value : Globals → Connection → ℕ → Chats → Bytes → Bytes → Option Bytes → ℤ → Told
limit_value g con tag s sender name stamp (negsuc n) = tell s (reply con "invalid limit" [])
limit_value g con tag s sender name stamp (pos limit') =
    if ltb 65535 limit'
    then tell s (reply con "invalid limit" [])
    else on_channel con s (set_limit g con tag s sender limit' stamp) (find s name)

abbrev pub limit_args :
    Globals → Connection → ℕ → Chats → Bytes → Option Bytes → Option Bytes × Option Bytes → Told
limit_args g con tag s sender (some name) (some limit', stamp) =
    limit_value g con tag s sender name stamp (atoi limit')
limit_args g con tag s sender (some name) (none, stamp) = tell s (unparsable con)
limit_args g con tag s sender none arg = tell s (unparsable con)

abbrev pub limit_from : Globals → Connection → ℕ → Chats → Source → Option Told
limit_from g con tag s given_up = some (tell s [])
limit_from g con tag s null_read = none
limit_from g con tag s (from sender pkt) =
    let (name, rest) = next_arg pkt in some (limit_args g con tag s sender name (next_arg rest))

-- The message 826.
unfoldable pub channel_limit : Globals → Connection → ℕ → Bytes → Chats → Option Told
unfolding source_of set_limit
channel_limit g con tag pkt s = limit_from g con tag s (source_of con pkt)

-- `pkt++` is not preceded by a test here: it passes the end of an empty message.
unfoldable pub topic_source : Connection → Bytes → Source
topic_source unknown_con pkt = null_read
topic_source (user_con user) pkt = from (user.nick) (some pkt)
topic_source server_con [] = null_read
topic_source server_con (c ∷ pkt) = named_source (next_arg (some pkt))

-- Why a user may not change the topic: nothing where it may.
unfoldable pub topic_refused : Connection → Chats → ℕ → List Output
unfolding is_chanop list_find permission_denied
topic_refused unknown_con s c = []
topic_refused server_con s c = []
topic_refused (user_con user) s c =
    let chan = s.channel c in
    if ltb (user.level) (chan.level)
    then permission_denied (user_con user)
    else if ltb (user.level) level_moderator
    then if has (s.joined (user.address)) c
      then if not (chan.open_topic) && not (is_chanop chan user)
        then sent msg_nosuch "topic change failed: permission denied" [] ∷ []
        else []
      else sent msg_nosuch "topic change failed: you are not on channel %s" (text (chan.name) ∷ [])
        ∷ []
    else []

unfoldable pub no_line_ends : Bytes → Bytes
no_line_ends [] = []
no_line_ends (c ∷ s) = (if c == 13 || c == 10 then 32 else c) ∷ no_line_ends s

unfoldable pub new_topic : Settings → Bytes → Bytes
unfolding no_line_ends is_over
new_topic cfg pkt =
    let cut : ℤ → Bytes = λ limit'. elim limit' [ pos n ↦ take n pkt | negsuc n ↦ pkt ] in
    no_line_ends (if is_over (cfg.max_topic) (length pkt) then cut (cfg.max_topic) else pkt)

abbrev pub topic_change : Connection → ℕ → Chats → Bytes → Bytes → ℕ → List Output → Told
topic_change con tag s nick topic' c [] =
    let chan = s.channel c in
    let args : List Value = text (chan.name) ∷ text topic' ∷ [] in
    tell (put s c (record chan { topic = topic' })) (
      passed true tag ":%s %s %s" (text nick ∷ args)
        ∷ to_members (λ m. m.user.local) tag "%s %s" args (chan.users)
      ++ notify_ops chan "%s set topic on %s: %s" (text nick ∷ args))
topic_change con tag s nick topic' c (o ∷ l) = tell s (o ∷ l)

-- The copy of the topic is taken to succeed.
unfoldable pub topic_on : Settings → Connection → ℕ → Chats → Bytes → Option Bytes → ℕ → Told
unfolding topic_refused new_topic to_members notify_ops
topic_on cfg con tag s nick none c = tell s (
    if is_user con
    then sent tag "%s %s" (text ((s.channel c).name) ∷ text ((s.channel c).topic) ∷ []) ∷ []
    else [])
topic_on cfg con tag s nick (some pkt) c =
    topic_change con tag s nick (new_topic cfg pkt) c (topic_refused con s c)

abbrev pub topic_args :
    Settings → Connection → ℕ → Chats → Bytes → Option Bytes × Option Bytes → Option Told
topic_args cfg con tag s nick (none, rest) = none
topic_args cfg con tag s nick (some name, rest) =
    some (on_channel con s (topic_on cfg con tag s nick rest) (find s name))

abbrev pub topic_from : Settings → Connection → ℕ → Chats → Source → Option Told
topic_from cfg con tag s given_up = some (tell s [])
topic_from cfg con tag s null_read = none
topic_from cfg con tag s (from nick none) = some (tell s [])
topic_from cfg con tag s (from nick (some pkt)) =
    topic_args cfg con tag s nick (next_arg (some pkt))

-- The message 410.
unfoldable pub topic : Settings → Connection → ℕ → Bytes → Chats → Option Told
unfolding topic_source topic_on
topic cfg con tag pkt s = topic_from cfg con tag s (topic_source con pkt)
