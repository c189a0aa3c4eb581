-- ===== src/Channels/Voices.antt =====
-- channel.c: the messages that give a voice to members, that muzzle them, and that invite a user.
use opennap.Base.{
  ℕ, Bool, true, false, ◌&&◌, ◌||◌, not, List, [], ◌∷◌, ◌++◌, Option, none, some, ltb, ◌==◌,
  if◌then◌else◌, update,
}
use opennap.Text.{Bytes, codes}
use opennap.Args.{next_arg}
use opennap.Hash.{hash_lookup}
use opennap.LinkedList.{list_find}
use opennap.Server.{
  User, Connection, Value, text, Output, sent, passed, Globals, is_user, permission_denied,
  unparsable, nosuchuser, fields, level_elite, msg_nosuch,
}
use opennap.Channels.{
  Member, Channel, Chats, Told, tell, reply, has, nonull, is_member, cloaked_sender, lacks_rights,
  find_chanuser, change_member, notify_ops, to_user, find, put, with_user, with_sender, on_channel,
}
use opennap.Channels.Bans.{given}
use opennap.Channels.Ops.{Named, name_only, before, words, nicks}

abbrev pub msg_voice : ℕ
msg_voice = 10211

abbrev pub msg_unvoice : ℕ
msg_unvoice = 10212

abbrev pub msg_channel_muzzle : ℕ
msg_channel_muzzle = 10213

-- A voice ends a muzzle, and a muzzle ends a voice.
unfoldable pub voice_member : ℕ → Member → Member
voice_member tag m =
    if tag == msg_unvoice
    then record m { voice = false }
    else record m { voice = true; muzzled = false }

unfoldable pub muzzle_member : ℕ → Member → Member
muzzle_member tag m =
    if tag == msg_channel_muzzle
    then record m { voice = false; muzzled = true }
    else record m { muzzled = false }

-- `(sender && sender->cloaked) ? "Operator" : senderName`
abbrev pub shown_name : Option User → Bytes → Bytes
shown_name sender name = if cloaked_sender sender then codes "Operator" else name

abbrev pub voice_notices : ℕ → Bytes → Option User → Channel → User → Member → List Output
voice_notices tag name sender chan user m =
    to_user (m.user) msg_nosuch "%s %s voice on channel %s" (
      text (shown_name sender name)
      ∷ text (if (voice_member tag m).voice then codes "gave you" else codes "removed your")
      ∷ text (chan.name)
      ∷ [])
    ++ notify_ops (record chan { users = change_member (voice_member tag) (chan.users) user })
        "%s %s voice %s %s on channel %s"
        (text name
          ∷ text (if tag == msg_voice then codes "gave" else codes "removed")
          ∷ text (if tag == msg_voice then codes "to" else codes "from")
          ∷ text (user.nick)
          ∷ text (chan.name)
          ∷ [])

abbrev pub voice_found :
    Connection → ℕ → Bytes → Option User → Channel → User → Option Member → Named
voice_found con tag name sender chan user none =
    name_only chan (
      reply con "channel voice: %s is not on channel %s" (text (user.nick) ∷ text (chan.name) ∷ []))
voice_found con tag name sender chan user (some m) =
    name_only (record chan { users = change_member (voice_member tag) (chan.users) user })
      (voice_notices tag name sender chan user m)

abbrev pub voice_user : Connection → ℕ → Bytes → Option User → Channel → Bytes → Option User → Named
voice_user con tag name sender chan nick none =
    name_only chan (reply con "channel voice: %s is not online" (text nick ∷ []))
voice_user con tag name sender chan nick (some user) =
    voice_found con tag name sender chan user (find_chanuser (chan.users) user)

unfoldable pub voice_nicks :
    Globals → Connection → ℕ → Bytes → Option User → Channel → List Bytes → Named
unfolding find_chanuser change_member voice_member notify_ops
voice_nicks g con tag name sender chan [] = name_only chan []
voice_nicks g con tag name sender chan (nick ∷ l) =
    let n = voice_user con tag name sender chan nick (hash_lookup (g.users) nick) in
    before (n.outputs) (voice_nicks g con tag name sender (n.channel) l)

unfoldable pub voiced : List Member → List Output
voiced [] = []
voiced (m ∷ l) =
    let more = voiced l in
    if m.voice then sent 205 "ChanServ %s" (text (m.user.nick) ∷ []) ∷ more else more

unfoldable pub voice_on :
    Globals → Connection → ℕ → Chats → Bytes → Option User → Option Bytes → ℕ → Told
unfolding voice_nicks voiced nicks lacks_rights permission_denied
voice_on g con tag s name sender none c =
    let chan = s.channel c in
    tell s (
      if is_user con
      then sent 205 "ChanServ Voiced users on channel %s" (text (chan.name) ∷ [])
          ∷ voiced (chan.users)
        ++ sent 205 "ChanServ End of voiced users on channel %s" (text (chan.name) ∷ []) ∷ []
      else [])
voice_on g con tag s name sender (some pkt) c =
    let n = voice_nicks g con tag name sender (s.channel c) (words pkt) in
    if lacks_rights (s.channel c) sender
    then tell s (permission_denied con)
    else tell (put s c (n.channel)) (
        passed true tag ":%s %s %s" (text name ∷ text ((s.channel c).name) ∷ text pkt ∷ [])
        ∷ n.outputs)

abbrev pub voice_args :
    Globals → Connection → ℕ → Chats → Bytes → Option User → Option Bytes × Option Bytes → Told
voice_args g con tag s name sender (none, rest) = tell s (unparsable con)
voice_args g con tag s name sender (some chan, rest) =
    on_channel con s (voice_on g con tag s name sender rest) (find s chan)

-- The messages 10211 and 10212.
unfoldable pub channel_voice : Globals → Connection → ℕ → Bytes → Chats → Option Told
unfolding voice_on
channel_voice g con tag pkt s =
    with_sender g con pkt s
      (λ name sender rest. some (voice_args g con tag s name sender (next_arg rest)))

-- A sender below elite, and below the user.
abbrev pub is_under : Option User → User → Bool
is_under none user = false
is_under (some sender) user = not (sender.level == level_elite) && ltb (sender.level) (user.level)

abbrev pub un_text : Bool → Value
un_text muzzled = text (if muzzled then [] else codes "un")

abbrev pub muzzle_found : ℕ → Bytes → Option User → Channel → User → Bytes → Option Member → Named
muzzle_found tag name sender chan user why none = name_only chan []
muzzle_found tag name sender chan user why (some m) =
    let chan' : Channel = record chan {
      users = change_member (muzzle_member tag) (chan.users) user;
    } in
    let un = un_text ((muzzle_member tag m).muzzled) in
    name_only chan' (
      to_user (m.user) msg_nosuch "%s %smuzzled you on channel %s: %s"
        (text (shown_name sender name) ∷ un ∷ text (chan.name) ∷ text why ∷ [])
      ++ notify_ops chan' "%s %smuzzled %s on channel %s: %s"
          (text name ∷ un ∷ text (user.nick) ∷ text (chan.name) ∷ text why ∷ []))

unfoldable pub muzzle_user :
    Connection → ℕ → Chats → Bytes → Option User → Bytes → ℕ → Option User → Told
unfolding find_chanuser change_member muzzle_member permission_denied nosuchuser notify_ops
muzzle_user con tag s name sender why c none = tell s (nosuchuser con)
muzzle_user con tag s name sender why c (some user) =
    let chan = s.channel c in
    let n = muzzle_found tag name sender chan user why (find_chanuser (chan.users) user) in
    if is_under sender user
    then tell s (permission_denied con)
    else tell (put s c (n.channel)) (
        n.outputs
        ++ passed true tag ":%s %s %s \"%s\""
            (text name ∷ text (chan.name) ∷ text (user.nick) ∷ text why ∷ [])
          ∷ [])

unfoldable pub muzzle_on :
    Globals → Connection → ℕ → Chats → Bytes → Option User → Bytes → Option Bytes → ℕ → Told
unfolding muzzle_user lacks_rights permission_denied
muzzle_on g con tag s name sender nick why c =
    if lacks_rights (s.channel c) sender
    then tell s (permission_denied con)
    else muzzle_user con tag s name sender (nonull why) c (hash_lookup (g.users) nick)

-- A message with a channel, a nick and more.
abbrev pub nick_fields :
    Connection → Chats → (Bytes → Option Bytes → ℕ → Told) → Option (List Bytes) → Told
nick_fields con s k none = tell s (unparsable con)
nick_fields con s k (some []) = tell s (unparsable con)
nick_fields con s k (some (name ∷ [])) = tell s (unparsable con)
nick_fields con s k (some (name ∷ nick ∷ l)) = on_channel con s (k nick (given l)) (find s name)

-- The messages 10213 and 10214.
unfoldable pub channel_muzzle : Globals → Connection → ℕ → Bytes → Chats → Option Told
unfolding muzzle_on
channel_muzzle g con tag pkt s = with_sender g con pkt s (λ name sender rest.
    some (nick_fields con s (muzzle_on g con tag s name sender) (fields 3 rest)))

-- The pointers of an invitation, in both directions.
unfoldable pub list_invitation : Chats → ℕ → User → Chats
list_invitation s c user =
    let chan = s.channel c in
    record s {
      channel = update (s.channel) c (record chan { invited = user.address ∷ chan.invited });
      invitations = update (s.invitations) (user.address) (c ∷ s.invitations (user.address));
    }

abbrev pub invitation : ℕ → User → User → Channel → List Output
invitation tag sender user chan =
    if user.numerics
    then to_user user tag "%s %s" (text (chan.name) ∷ text (sender.nick) ∷ [])
    else to_user user msg_nosuch "%s invited you to channel %s"
        (text (sender.nick) ∷ text (chan.name) ∷ [])

unfoldable pub invite_user : Connection → ℕ → Chats → User → ℕ → Option User → Told
unfolding list_invitation list_find is_member nosuchuser notify_ops
invite_user con tag s sender c none = tell s (nosuchuser con)
invite_user con tag s sender c (some user) =
    let chan = s.channel c in
    if is_member chan user
    then tell s (reply con "user is already in channel" [])
    else if has (s.invitations (user.address)) c
    then tell s []
    else tell (list_invitation s c user) (
        passed true tag ":%s %s %s" (text (sender.nick) ∷ text (chan.name) ∷ text (user.nick) ∷ [])
          ∷ invitation tag sender user chan
        ++ notify_ops chan "%s invited %s to channel %s"
            (text (sender.nick) ∷ text (user.nick) ∷ text (chan.name) ∷ []))

unfoldable pub invite_on : Globals → Connection → ℕ → Chats → User → Bytes → Option Bytes → ℕ → Told
unfolding invite_user is_member permission_denied
invite_on g con tag s sender nick more c =
    let chan = s.channel c in
    if not (chan.invite_only)
    then tell s (reply con "channel is not invite only" [])
    else if ltb (sender.level) (chan.level) || not (is_member chan sender)
    then tell s (permission_denied con)
    else invite_user con tag s sender c (hash_lookup (g.users) nick)

-- The message 10210.
unfoldable pub channel_invite : Globals → Connection → ℕ → Bytes → Chats → Option Told
unfolding invite_on
channel_invite g con tag pkt s =
    with_user g con pkt s
      (λ sender rest. some (nick_fields con s (invite_on g con tag s sender) (fields 2 rest)))
