-- ===== src/Channels/Join.antt =====
-- join.c: the message that joins a channel. `scratch` is the length of the text in the global `Buf`,
-- which the size of the name of a rollover channel is computed from.
use opennap.Base.{
  ℕ, zero, suc, Bool, true, false, ◌&&◌, ◌||◌, not, List, [], ◌∷◌, ◌++◌, Option, none, some, ltb,
  leb, if◌then◌else◌, update, length,
}
use opennap.Text.{Bytes, codes}
use opennap.Hash.{hash_add}
use opennap.LinkedList.{list_delete, list_find, list_count}
use opennap.Ban.{Ban}
use opennap.Account.Level.{level_name}
use opennap.Server.{
  User, Connection, text, number, Output, sent, passed, Globals, is_user, permission_denied,
  unparsable, level_moderator, msg_nosuch,
}
use opennap.Channels.Names.{invalid_channel, is_banned, names_user, rollover, channel_name}
use opennap.Channels.{
  Member, Channel, Chats, Settings, Told, tell, reply, null_list, has, same_user, to_members,
  notify_ops, to_user, find, put, destroy_channel, with_user, invalid_channel_msg,
}

-- Which allocations succeed: of the channel, its name and its topic, of its entry in the table, and
-- of the two list nodes. The allocation of the CHANUSER is not looked at by the code.
pub record Memory : Type 0 where
  pub object : Bool
  pub name : Bool
  pub topic : Bool
  pub entry : Bool
  pub own_node : Bool
  pub user_node : Bool

abbrev pub new_channel : Globals → Settings → Bytes → Channel
new_channel g cfg name' = record {
  name = name';
  topic = codes "Welcome to the " ++ name' ++ codes " channel.";
  ops = [];
  users = [];
  limit = cfg.default_limit;
  level = 1;
  bans = [];
  timestamp = g.current_time;
  invited = [];
  user_made = true;
  hidden = false;
  moderated = false;
  invite_only = false;
  open_topic = false;
}

-- The new channel, in the table.
unfoldable pub create : Globals → Settings → Bool → Chats → Bytes → Chats
unfolding hash_add
create g cfg entry s name =
    let made : Chats = put s (s.next) (new_channel g cfg name) in
    record made { table = (hash_add entry (s.table) name (s.next)).1; next = suc (s.next) }

-- A round of the loop: the handler is left, another name is tried, `chanbuf` is written behind its
-- end, or the channel is found, with `chanop`.
pub data Round : Type 0 where
  left : List Output → Round
  try_again : Bytes → Round
  overrun : Round
  entering : Chats → ℕ → Bool → Round

unfoldable pub make_round : Globals → Settings → Memory → Connection → Chats → User → Bytes → Round
unfolding create invalid_channel permission_denied invalid_channel_msg
make_round g cfg mem con s user name =
    if cfg.strict_channels && ltb (user.level) level_moderator
    then left (permission_denied con)
    else if invalid_channel cfg name
    then left (invalid_channel_msg con)
    else if mem.object && (mem.name && mem.topic)
    then entering (create g cfg (mem.entry) s name) (s.next) false
    else left []

abbrev pub is_full : Channel → Bool
is_full chan = ltb 0 (chan.limit) && leb (chan.limit) (length (chan.users))

abbrev pub rolled_to : Option Bytes → Round
rolled_to none = overrun
rolled_to (some name) = try_again name

-- Behind the test for a ban, of a user that is below moderator and not listed as an operator.
abbrev pub room_round : ℕ → Connection → Chats → User → Bytes → ℕ → Round
room_round scratch con s user name c =
    if (s.channel c).invite_only && not (has (s.invitations (user.address)) c)
    then left (reply con "channel join failed: invite only" [])
    else if is_full (s.channel c)
    then if (s.channel c).user_made
      then left (reply con "channel join failed: channel full" [])
      else rolled_to (rollover scratch name)
    else entering s c false

abbrev pub ban_round : Round → User → Option Ban → Round
ban_round next user none = next
ban_round next user (some ban) =
    left (to_user user msg_nosuch "channel join failed: banned: %s" (text (ban.reason) ∷ []))

unfoldable pub old_round : ℕ → Connection → Chats → User → Bytes → ℕ → Round
unfolding list_find is_banned names_user rollover level_name
old_round scratch con s user name c =
    let chan = s.channel c in
    if has (s.joined (user.address)) c
    then left (reply con "channel join failed: already joined channel" [])
    else if ltb (user.level) (chan.level)
    then left
        (reply con "channel join failed: requires level %s" (text (level_name (chan.level)) ∷ []))
    else if names_user (chan.ops) (user.nick)
    then entering s c true
    else if leb level_moderator (user.level)
    then entering s c false
    else ban_round (room_round scratch con s user name c) user
        (is_banned (chan.bans) (user.nick) (user.host))

abbrev pub round_at : Round → (ℕ → Round) → Option ℕ → Round
round_at new old none = new
round_at new old (some c) = old c

unfoldable pub join_round :
    Globals → Settings → Memory → ℕ → Connection → Chats → User → Bytes → Round
unfolding make_round old_round
join_round g cfg mem scratch con s user name =
    round_at (make_round g cfg mem con s user name) (old_round scratch con s user name)
      (find s name)

abbrev pub new_member : User → Member
new_member user' = record { user = user'; operator = false; voice = false; muzzled = false }

-- The lists of invitations without the user, where the channel is for the invited.
unfoldable pub use_invitation : Chats → ℕ → User → Chats
unfolding list_delete
use_invitation s c user =
    let chan = s.channel c in
    let cleaned : Chats = record s {
      channel =
          update (s.channel) c
            (record chan { invited = list_delete (chan.invited) (user.address) });
      invitations =
          update (s.invitations) (user.address) (list_delete (s.invitations (user.address)) c);
    } in
    if chan.invite_only then cleaned else s

unfoldable pub list_joined : Chats → ℕ → User → Chats
list_joined s c user = record s {
  joined = update (s.joined) (user.address) (c ∷ s.joined (user.address));
}

unfoldable pub list_member : Chats → ℕ → User → Bool → Chats
list_member s c user chanop' =
    let chan = s.channel c in
    let m : Member = new_member user in
    put s c (record chan { users = record m { operator = chanop' } ∷ chan.users })

-- The label `error`. The first `list_delete` looks for the user among the CHANUSERs, and deletes
-- none.
unfoldable pub undo_join : Chats → ℕ → User → Chats
unfolding list_delete destroy_channel
undo_join s c user =
    let undone : Chats = record s {
      joined = update (s.joined) (user.address) (list_delete (s.joined (user.address)) c);
    } in
    if null_list ((s.channel c).users) then destroy_channel undone ((s.channel c).name) else undone

-- The members of this server other than the user that are told of the user.
abbrev pub is_told : User → Member → Bool
is_told user m =
    m.user.local
    && (not (same_user (m.user) user) && (not (user.cloaked) || leb level_moderator (m.user.level)))

unfoldable pub user_list : Channel → User → List Member → List Output
user_list chan user [] = []
user_list chan user (m ∷ l) =
    let more = user_list chan user l in
    if not (m.user.cloaked) || leb level_moderator (user.level)
    then sent 408 "%s %s %d %d" (
        text (chan.name) ∷ text (m.user.nick) ∷ number (m.user.shared) ∷ number (m.user.speed) ∷ [])
      ∷ more
    else more

abbrev pub welcome : Globals → Channel → Bool → List Output
welcome g chan chanop =
    sent 409 "%s" (text (chan.name) ∷ [])
    ∷ sent 410 "%s %s" (text (chan.name) ∷ text (chan.topic) ∷ [])
    ∷ (if chanop
        then sent msg_nosuch "%s set you as operator on channel %s"
            (text (g.server_name) ∷ text (chan.name) ∷ [])
          ∷ []
        else [])

-- What is sent when the user has become a member of `chan`, which has the user's flags still clear.
unfoldable pub join_notices : Globals → Connection → ℕ → User → Channel → Bool → List Output
unfolding user_list to_members notify_ops
join_notices g con tag user chan chanop =
    passed true tag ":%s %s" (text (user.nick) ∷ text (chan.name) ∷ [])
      ∷ (if is_user con
          then sent 405 "%s" (text (chan.name) ∷ []) ∷ user_list chan user (chan.users)
          else [])
    ++ to_members (is_told user) 406 "%s %s %d %d"
        (text (chan.name) ∷ text (user.nick) ∷ number (user.shared) ∷ number (user.speed) ∷ [])
        (chan.users)
    ++ (if chanop
        then notify_ops chan "%s set %s as operator on channel %s"
            (text (g.server_name) ∷ text (user.nick) ∷ text (chan.name) ∷ [])
        else [])
    ++ (if is_user con then welcome g chan chanop else [])

-- The handler behind the loop.
unfoldable pub enter_channel : Globals → Memory → Connection → ℕ → User → Chats → ℕ → Bool → Told
unfolding use_invitation list_joined list_member undo_join join_notices
enter_channel g mem con tag user s c chanop =
    let s' = use_invitation s c user in
    let listed = list_joined s' c user in
    if mem.own_node
    then if mem.user_node
      then tell (list_member listed c user chanop)
          (join_notices g con tag user ((list_member listed c user false).channel c) chanop)
      else tell (undo_join listed c user) []
    else tell (undo_join s' c user) []

-- The loop over the names, with fuel; `none` means that the fuel ran out, or that `chanbuf` was
-- written behind its end.
unfoldable pub join_loop :
    ℕ → Globals → Settings → Memory → ℕ → Connection → ℕ → Chats → User → Bytes → Option Told
unfolding join_round enter_channel
join_loop zero g cfg mem scratch con tag s user name = none
join_loop (suc fuel) g cfg mem scratch con tag s user name =
    elim (join_round g cfg mem scratch con s user name) [
      | left outputs' ↦ some (tell s outputs')
      | try_again other ↦ join_loop fuel g cfg mem scratch con tag s user other
      | overrun ↦ none
      | entering s' c chanop ↦ some (enter_channel g mem con tag user s' c chanop)
    ]

-- The two tests of a user below moderator.
abbrev pub refusal : Settings → Connection → Chats → User → Option (List Output)
refusal cfg con s user =
    if ltb (user.level) level_moderator
    then if ltb (cfg.max_user_channels) (list_count (s.joined (user.address)))
      then some (
          reply con "channel join failed: you may only join %d channels"
            (number (cfg.max_user_channels) ∷ []))
      else if user.muzzled
      then some (reply con "channel join failed: can't join channels while muzzled" [])
      else none
    else none

unfoldable pub join_user :
    ℕ → Globals → Settings → Memory → ℕ → Connection → ℕ → Chats → User → Option Bytes → Option Told
unfolding join_loop channel_name list_count
join_user fuel g cfg mem scratch con tag s user none = some (tell s (unparsable con))
join_user fuel g cfg mem scratch con tag s user (some []) = some (tell s (unparsable con))
join_user fuel g cfg mem scratch con tag s user (some (c ∷ pkt)) = elim (refusal cfg con s user) [
  | some outputs' ↦ some (tell s outputs')
  | none ↦ join_loop fuel g cfg mem scratch con tag s user (channel_name (c ∷ pkt))
]

-- The message 400.
unfoldable pub join :
    ℕ → Globals → Settings → Memory → ℕ → Connection → ℕ → Bytes → Chats → Option Told
unfolding join_user
join fuel g cfg mem scratch con tag pkt s =
    with_user g con pkt s (join_user fuel g cfg mem scratch con tag s)
