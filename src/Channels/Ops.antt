-- ===== src/Channels/Ops.antt =====
-- channel.c: the operators of a channel, and the messages that drop a channel and that speak to its
-- operators.
use opennap.Base.{
  ℕ, zero, suc, Bool, true, false, ◌||◌, List, [], ◌∷◌, ◌++◌, Option, none, some, ltb, ◌==◌,
  if◌then◌else◌, length,
}
use opennap.Text.{Bytes, case_eq}
use opennap.Args.{next_arg}
use opennap.Hash.{hash_lookup}
use opennap.Server.{
  User, Connection, user_con, Value, text, number, Output, sent, passed, Globals, permission_denied,
  unparsable, invalid_nick, fields, level_moderator, msg_nosuch,
}
use opennap.Hotlist.{invalid_nick_msg}
use opennap.Channels.{
  Member, Channel, Chats, Told, tell, reply, null_list, is_there, lacks_rights, find_chanuser,
  change_member, notify_ops, to_user, find, put, destroy_channel, with_user, with_sender,
  on_channel, invalid_channel_msg,
}

abbrev pub msg_op : ℕ
msg_op = 10204

abbrev pub msg_deop : ℕ
msg_deop = 10205

abbrev pub with_operator : Bool → Member → Member
with_operator on m = record m { operator = on }

-- The channel, and what was sent.
pub record Named : Type 0 where
  pub channel : Channel
  pub outputs : List Output

abbrev pub name_only : Channel → List Output → Named
name_only chan outputs' = record { channel = chan; outputs = outputs' }

unfoldable pub is_op : List Bytes → Bytes → Bool
unfolding case_eq
is_op [] nick = false
is_op (op ∷ ops) nick = case_eq op nick || is_op ops nick

unfoldable pub delete_op : List Bytes → Bytes → List Bytes
unfolding case_eq
delete_op [] nick = []
delete_op (op ∷ ops) nick = if case_eq op nick then ops else op ∷ delete_op ops nick

abbrev pub with_operators : Channel → Bool → User → Channel
with_operators chan on user = record chan {
  users = change_member (with_operator on) (chan.users) user;
}

-- A user that is signed on and a member has the flag changed too. On DEOP the operators are told
-- after that, so that the user is not among them for the flag; on OP before it.
unfoldable pub take_rights : Bytes → Channel → Option User → Named
unfolding find_chanuser change_member notify_ops
take_rights sender chan none = name_only chan []
take_rights sender chan (some user) =
    let after_it = with_operators chan false user in
    if is_there (find_chanuser (chan.users) user)
    then name_only after_it (
        to_user user msg_nosuch "%s removed you as operator on channel %s"
          (text sender ∷ text (chan.name) ∷ [])
        ++ notify_ops after_it "%s removed %s as operator on channel %s"
            (text sender ∷ text (user.nick) ∷ text (chan.name) ∷ []))
    else name_only chan []

unfoldable pub give_rights : Bytes → Channel → Bytes → Option User → Named
unfolding find_chanuser change_member notify_ops
give_rights sender chan nick none = name_only chan []
give_rights sender chan nick (some user) =
    if is_there (find_chanuser (chan.users) user)
    then name_only (with_operators chan true user) (
        to_user user msg_nosuch "%s set you as operator on channel %s"
          (text sender ∷ text (chan.name) ∷ [])
        ++ notify_ops chan "%s set %s as operator on channel %s"
            (text sender ∷ text nick ∷ text (chan.name) ∷ []))
    else name_only chan []

-- The channel is kept when its members leave.
abbrev pub kept : Named → Named
kept n = name_only (record (n.channel) { user_made = false }) (n.outputs)

-- A round of the loop, for one nick. `*list = CALLOC` puts a new operator at the end.
unfoldable pub op_nick : Globals → Connection → ℕ → Bytes → Channel → Bytes → Named
unfolding invalid_nick is_op delete_op take_rights give_rights
op_nick g con tag sender chan nick =
    let taken : Channel = record chan { ops = delete_op (chan.ops) nick } in
    let given : Channel = record chan { ops = chan.ops ++ nick ∷ [] } in
    if invalid_nick g nick
    then name_only chan (invalid_nick_msg con)
    else if is_op (chan.ops) nick
    then if tag == msg_deop
      then take_rights sender taken (hash_lookup (g.users) nick)
      else name_only chan []
    else if tag == msg_op
    then kept (give_rights sender given nick (hash_lookup (g.users) nick))
    else name_only chan []

abbrev pub before : List Output → Named → Named
before outputs' n = name_only (n.channel) (outputs' ++ n.outputs)

-- `while (pkt)`: the nicks of a packet, with fuel for its length.
unfoldable pub nicks : ℕ → Option Bytes → List Bytes
unfolding next_arg
nicks fuel none = []
nicks zero (some pkt) = []
nicks (suc fuel) (some pkt) =
    let (word, rest) = next_arg (some pkt) in
    elim word [ none ↦ [] | some nick ↦ nick ∷ nicks fuel rest ]

abbrev pub words : Bytes → List Bytes
words pkt = nicks (suc (length pkt)) (some pkt)

unfoldable pub op_nicks : Globals → Connection → ℕ → Bytes → Channel → List Bytes → Named
unfolding op_nick
op_nicks g con tag sender chan [] = name_only chan []
op_nicks g con tag sender chan (nick ∷ l) =
    let n = op_nick g con tag sender chan nick in
    before (n.outputs) (op_nicks g con tag sender (n.channel) l)

unfoldable pub op_on : Globals → Connection → ℕ → Chats → Bytes → Bytes → ℕ → Told
unfolding op_nicks nicks
op_on g con tag s sender pkt c =
    let n = op_nicks g con tag sender (s.channel c) (words pkt) in
    tell (put s c (n.channel)) (
      passed true tag ":%s %s %s" (text sender ∷ text ((s.channel c).name) ∷ text pkt ∷ [])
      ∷ n.outputs)

abbrev pub op_args : Globals → Connection → ℕ → Chats → Bytes → Option Bytes × Option Bytes → Told
op_args g con tag s sender (some name, some pkt) =
    on_channel con s (op_on g con tag s sender pkt) (find s name)
op_args g con tag s sender (some name, none) = tell s (unparsable con)
op_args g con tag s sender (none, pkt) = tell s (unparsable con)

abbrev pub is_below_moderator : Option User → Bool
is_below_moderator none = false
is_below_moderator (some user) = ltb (user.level) level_moderator

unfoldable pub op_sent :
    Globals → Connection → ℕ → Chats → Bytes → Option User → Option Bytes → Told
unfolding op_on permission_denied
op_sent g con tag s sender user pkt =
    if is_below_moderator user
    then tell s (permission_denied con)
    else op_args g con tag s sender (next_arg pkt)

-- The messages 10204 and 10205.
unfoldable pub channel_op : Globals → Connection → ℕ → Bytes → Chats → Option Told
unfolding op_sent
channel_op g con tag pkt s =
    with_sender g con pkt s (λ sender user rest. some (op_sent g con tag s sender user rest))

abbrev pub op_lines : List Bytes → List Output
op_lines [] = []
op_lines (op ∷ ops) = sent 205 "ChanServ %s" (text op ∷ []) ∷ op_lines ops

abbrev pub op_list_on : Connection → Chats → User → ℕ → Told
op_list_on con s user c =
    let chan = s.channel c in
    if lacks_rights chan (some user)
    then tell s (permission_denied con)
    else tell s (
        sent 205 "ChanServ Operators for channel %s:" (text (chan.name) ∷ []) ∷ op_lines (chan.ops)
        ++ sent 205 "ChanServ END of operators for channel %s (%d total)"
            (text (chan.name) ∷ number (length (chan.ops)) ∷ [])
          ∷ [])

-- The message 10206.
unfoldable pub channel_op_list : Connection → Bytes → Chats → Told
unfolding lacks_rights permission_denied
channel_op_list (user_con user) pkt s =
    on_channel (user_con user) s (op_list_on (user_con user) s user) (find s pkt)
channel_op_list con pkt s = tell s []

abbrev pub second : List Bytes → Bytes
second [] = []
second (x ∷ l) = x

unfoldable pub drop_on : Connection → ℕ → Chats → User → Bytes → ℕ → Told
unfolding destroy_channel permission_denied notify_ops
drop_on con tag s sender why c =
    let chan = s.channel c in
    if chan.user_made
    then tell s (reply con "channel %s is not registered" (text (chan.name) ∷ []))
    else if ltb (sender.level) level_moderator || ltb (sender.level) (chan.level)
    then tell s (permission_denied con)
    else tell
        (if null_list (chan.users)
          then destroy_channel s (chan.name)
          else put s c (record chan { user_made = true }))
        (passed true tag ":%s %s \"%s\"" (text (sender.nick) ∷ text (chan.name) ∷ text why ∷ [])
          ∷ notify_ops chan "%s dropped channel %s: %s"
              (text (sender.nick) ∷ text (chan.name) ∷ text why ∷ []))

abbrev pub drop_fields : Connection → ℕ → Chats → User → Option (List Bytes) → Told
drop_fields con tag s sender none = tell s (unparsable con)
drop_fields con tag s sender (some []) = tell s (unparsable con)
drop_fields con tag s sender (some (name ∷ l)) =
    on_channel con s (drop_on con tag s sender (second l)) (find s name)

-- The message 10207.
unfoldable pub channel_drop : Globals → Connection → ℕ → Bytes → Chats → Option Told
unfolding drop_on
channel_drop g con tag pkt s =
    with_user g con pkt s (λ sender rest. some (drop_fields con tag s sender (fields 2 rest)))

abbrev pub wallop_on : Connection → ℕ → Chats → User → Bytes → Option ℕ → Told
wallop_on con tag s sender pkt none = tell s (invalid_channel_msg con)
wallop_on con tag s sender pkt (some c) =
    let chan = s.channel c in
    let args : List Value = text (sender.nick) ∷ text (chan.name) ∷ text pkt ∷ [] in
    if lacks_rights chan (some sender)
    then tell s (permission_denied con)
    else tell s (passed true tag ":%s %s %s" args ∷ notify_ops chan "%s [ops/%s]: %s" args)

abbrev pub wallop_args : Connection → ℕ → Chats → User → Option Bytes × Option Bytes → Told
wallop_args con tag s sender (some name, some pkt) = wallop_on con tag s sender pkt (find s name)
wallop_args con tag s sender (some name, none) = tell s (unparsable con)
wallop_args con tag s sender (none, pkt) = tell s (unparsable con)

-- The message 10208.
unfoldable pub channel_wallop : Globals → Connection → ℕ → Bytes → Chats → Option Told
unfolding lacks_rights permission_denied notify_ops
channel_wallop g con tag pkt s = with_user g con pkt s (λ sender rest. some (
    if sender.muzzled
    then tell s (reply con "channel wallop failed: you are muzzled" [])
    else wallop_args con tag s sender (next_arg rest)))
