-- ===== src/Channels/Talk.antt =====
-- public.c and list_channels.c: what members say to a channel, and the lists of the channels.
use Prim.Native.String.{String}
use opennap.Base.{
  ℕ, Bool, true, ◌&&◌, not, List, [], ◌∷◌, ◌++◌, Option, none, some, ltb, if◌then◌else◌, take,
  length,
}
use opennap.Text.{Bytes, codes}
use opennap.Args.{next_arg_noskip, split_line}
use opennap.Hash.{hash_foreach}
use opennap.Server.{
  User, Connection, Value, text, number, Output, sent, sent_to, passed, Globals, is_user,
  unparsable, level_moderator, msg_nosuch,
}
use opennap.Channels.{
  Member, Channel, Chats, Told, tell, reply, find_chanuser, to_user, find_channel, with_user,
}

-- The sender may speak, or what it is told.
pub data Verdict : Type 0 where
  may : Verdict
  denied : List Output → Verdict

unfoldable pub check_member : Channel → User → Option Member → Verdict
check_member chan sender none = denied []
check_member chan sender (some m) =
    if ltb (sender.level) level_moderator && not (m.operator)
    then if chan.moderated
      then if m.voice
        then may
        else denied (to_user sender msg_nosuch "permission denied: channel is moderated" [])
      else if m.muzzled
      then denied (to_user sender msg_nosuch "permission denied: muzzled on channel" [])
      else may
    else may

unfoldable pub check_permission : Channel → User → Verdict
unfolding check_member find_chanuser
check_permission chan sender = check_member chan sender (find_chanuser (chan.users) sender)

-- Every member of this server gets the message; the name of a cloaked sender only those above the
-- level of a user.
unfoldable pub to_everyone : ℕ → String → User → Channel → Bytes → List Member → List Output
to_everyone tag fmt sender chan said [] = []
to_everyone tag fmt sender chan said (m ∷ l) =
    let more = to_everyone tag fmt sender chan said l in
    let hidden = sender.cloaked && not (ltb 1 (m.user.level)) in
    if m.user.local
    then sent_to (m.user.nick) tag fmt (
        text (chan.name) ∷ text (if hidden then codes "Operator" else sender.nick) ∷ text said ∷ [])
      ∷ more
    else more

abbrev pub relayed : ℕ → String → User → Channel → Bytes → Output
relayed tag fmt sender chan said =
    passed true tag fmt (text (sender.nick) ∷ text (chan.name) ∷ text said ∷ [])

abbrev pub speak_checked : ℕ → ℕ → String → String → Chats → User → Channel → Bytes → Verdict → Told
speak_checked tag shown fmt line s sender chan said (denied outputs') = tell s outputs'
speak_checked tag shown fmt line s sender chan said may =
    tell s (relayed tag fmt sender chan said ∷ to_everyone shown line sender chan said (chan.users))

-- The handlers from `find_channel` on. `tag` is that of the message to the servers, `shown` that of
-- the message to the members.
unfoldable pub speak : Connection → ℕ → ℕ → String → String → Chats → User → Bytes → Option ℕ → Told
unfolding check_permission to_everyone
speak con tag shown fmt line s sender said none =
    tell s (reply con "You are not a member of that channel" [])
speak con tag shown fmt line s sender said (some c) =
    speak_checked tag shown fmt line s sender (s.channel c) said
      (check_permission (s.channel c) sender)

-- `len` counts the message, of which `pop_user` has left the packet `pkt`.
abbrev pub public_args : Connection → ℕ → Chats → User → Bytes × Option Bytes → Told
public_args con tag s sender (name, none) = tell s (unparsable con)
public_args con tag s sender (name, some said) =
    speak con tag 403 ":%s %s %s" "%s %s %s" s sender said
      (find_channel s (s.joined (sender.address)) name)

-- More than 180 bytes are cropped.
abbrev pub public_sent : Connection → ℕ → Chats → User → Option Bytes → Option Told
public_sent con tag s sender none = none
public_sent con tag s sender (some pkt) =
    some (public_args con tag s sender (next_arg_noskip (take 180 pkt)))

-- The message 402.
unfoldable pub public : Globals → Connection → ℕ → Bytes → Chats → Option Told
unfolding speak find_channel
public g con tag pkt s = with_user g con pkt s (λ sender rest.
    if sender.muzzled
    then some (tell s (reply con "You are muzzled." []))
    else public_sent con tag s sender rest)

-- The cropped text ends in a quote.
unfoldable pub crop_emote : Bytes → Bytes
crop_emote pkt = if ltb 180 (length pkt) then take 179 pkt ++ b'"' ∷ [] else pkt

abbrev pub emote_fields : Connection → ℕ → Chats → User → Option (List Bytes) → Told
emote_fields con tag s sender none = tell s (unparsable con)
emote_fields con tag s sender (some []) = tell s (unparsable con)
emote_fields con tag s sender (some (name ∷ [])) = tell s (unparsable con)
emote_fields con tag s sender (some (name ∷ said ∷ l)) =
    speak con tag tag ":%s %s \"%s\"" "%s %s \"%s\"" s sender said
      (find_channel s (s.joined (sender.address)) name)

abbrev pub emote_sent : Connection → ℕ → Chats → User → Option Bytes → Option Told
emote_sent con tag s sender none = none
emote_sent con tag s sender (some pkt) =
    some (emote_fields con tag s sender (split_line 2 (crop_emote pkt)))

-- The message 824.
unfoldable pub emote : Globals → Connection → ℕ → Bytes → Chats → Option Told
unfolding speak find_channel crop_emote
emote g con tag pkt s = with_user g con pkt s (λ sender rest.
    if sender.muzzled
    then some (tell s (reply con "You are muzzled" []))
    else emote_sent con tag s sender rest)

-- The callback of `hash_foreach`, which appends to what was sent.
unfoldable pub channel_info : Chats → ℕ → List Output → List Output
channel_info s c outputs =
    let chan = s.channel c in
    if chan.hidden
    then outputs
    else outputs
      ++ sent 618 "%s %d %s"
          (text (chan.name) ∷ number (length (chan.users)) ∷ text (chan.topic) ∷ [])
        ∷ []

-- The message 617.
unfoldable pub list_channels : Connection → Chats → List Output
unfolding hash_foreach channel_info
list_channels con s =
    if is_user con then hash_foreach (channel_info s) (s.table) [] ++ sent 617 "" [] ∷ [] else []

abbrev pub bit : Bool → Value
bit on = number (if on then 1 else 0)

unfoldable pub full_channel_info : Chats → ℕ → List Output → List Output
full_channel_info s c outputs =
    let chan = s.channel c in
    if chan.hidden
    then outputs
    else outputs
      ++ sent 828 "%s %d %d %d %d \"%s\"" (
          text (chan.name)
          ∷ number (length (chan.users))
          ∷ bit (chan.user_made)
          ∷ number (chan.level)
          ∷ number (chan.limit)
          ∷ text (chan.topic)
          ∷ [])
        ∷ []

-- The message 827.
unfoldable pub full_channel_list : Connection → ℕ → Chats → List Output
unfolding hash_foreach full_channel_info
full_channel_list con tag s =
    if is_user con
    then hash_foreach (full_channel_info s) (s.table) [] ++ sent tag "" [] ∷ []
    else []
