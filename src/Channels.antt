-- ===== src/Channels.antt =====
-- channel.c, join.c, part.c, part_channel.c, kick.c, topic.c, public.c and list_channels.c: the
-- channels, their members, and the messages on them. A CHANNEL is a number, its address. No message
-- of these files writes to the record of a user but to its two lists of channels, which stand in the
-- store beside the channels; a member holds the rest of the record.
pub mod Bans
pub mod Join
pub mod Links
pub mod Changes
pub mod Creating
pub mod Joining
pub mod Leaving
pub mod Limits
pub mod Modes
pub mod Ops
pub mod Names
pub mod Part
pub mod Partings
pub mod Voices
pub mod Ranks
pub mod Replay
pub mod Rights
pub mod Hearing
pub mod Admission
pub mod Quit
pub mod Departures
pub mod Forgetting
pub mod Entering
pub mod Rollover
pub mod Rolling
pub mod Reach
pub mod Talk
use opennap.Base.{
  ℕ, suc, ◌≤◌, Bool, true, false, ◌&&◌, ◌||◌, not, List, [], ◌∷◌, ◌++◌, map, Option, none, some,
  ltb, leb, ◌==◌, if◌then◌else◌, ℤ, update,
}
use opennap.Text.{Bytes, codes, case_eq}
use opennap.Hash.{HashTable, hash_lookup, hash_remove}
use opennap.LinkedList.{list_delete, list_find}
use opennap.Ban.{Ban}
use opennap.Server.{
  User, Connection, user_con, is_user, Value, text, number, Output, sent, sent_to, Globals, Popped,
  failed, null_user, popped, pop_user, pop_user_server, level_moderator, msg_nosuch,
}
use Prim.Native.String.{String}

-- CHANUSER, with the bits of its flags.
pub record Member : Type 0 where
  pub user : User
  pub operator : Bool
  pub voice : Bool
  pub muzzled : Bool

-- The last five fields are the bits ON_CHANNEL_USER, _PRIVATE, _MODERATED, _INVITE and _TOPIC.
pub record Channel : Type 0 where
  pub name : Bytes
  pub topic : Bytes
  pub ops : List Bytes
  pub users : List Member
  pub limit : ℕ
  pub level : ℕ
  pub bans : List Ban
  pub timestamp : ℕ
  pub invited : List ℕ
  pub user_made : Bool
  pub hidden : Bool
  pub moderated : Bool
  pub invite_only : Bool
  pub open_topic : Bool

-- `table` is `Channels`; `joined` and `invitations` are the fields `channels` and `invited` of the
-- user with an address; `next` is the first address that has not been handed out.
pub record Chats : Type 0 where
  pub table : HashTable ℕ
  pub channel : ℕ → Channel
  pub joined : ℕ → List ℕ
  pub invitations : ℕ → List ℕ
  pub next : ℕ

-- The globals of the configuration that only the channels read.
pub record Settings : Type 0 where
  pub max_channel_length : ℤ
  pub max_user_channels : ℕ
  pub default_limit : ℕ
  pub max_topic : ℤ
  pub strict_channels : Bool

pub record Told : Type 0 where
  pub chats : Chats
  pub outputs : List Output

abbrev pub tell : Chats → List Output → Told
tell s outputs' = record { chats = s; outputs = outputs' }

-- `if (ISUSER (con)) send_cmd (con, MSG_SERVER_NOSUCH, ...)`
abbrev pub reply : Connection → String → List Value → List Output
reply con fmt args = if is_user con then sent msg_nosuch fmt args ∷ [] else []

unfoldable pub nosuchchannel : Connection → List Output
nosuchchannel con = reply con "no such channel" []

unfoldable pub invalid_channel_msg : Connection → List Output
invalid_channel_msg con = reply con "invalid channel" []

abbrev pub null_list : {A : Type 0} → List A → Bool
null_list [] = true
null_list (x ∷ l) = false

abbrev pub has : List ℕ → ℕ → Bool
has l p = not (null_list (list_find l p))

-- A packet that may be null, as the argument of a format.
abbrev pub nonull : Option Bytes → Bytes
nonull none = []
nonull (some s) = s

-- Two pointers to users.
abbrev pub same_user : User → User → Bool
same_user a b = a.address == b.address

abbrev pub addresses : List Member → List ℕ
addresses [] = []
addresses (m ∷ l) = m.user.address ∷ addresses l

-- The name of an operator or of a voiced user may be hidden: `cloaked` of a sender who may be null.
abbrev pub cloaked_sender : Option User → Bool
cloaked_sender none = false
cloaked_sender (some user) = user.cloaked

-- The first member that is the user, or null.
unfoldable pub find_chanuser : List Member → User → Option Member
find_chanuser [] user = none
find_chanuser (m ∷ l) user = if same_user (m.user) user then some m else find_chanuser l user

abbrev pub operator_of : Option Member → Bool
operator_of none = false
operator_of (some m) = m.operator

unfoldable pub is_chanop : Channel → User → Bool
unfolding find_chanuser
is_chanop chan user = operator_of (find_chanuser (chan.users) user)

abbrev pub is_there : {A : Type 0} → Option A → Bool
is_there none = false
is_there (some a) = true

unfoldable pub is_member : Channel → User → Bool
unfolding find_chanuser
is_member chan user = is_there (find_chanuser (chan.users) user)

-- Below moderator, and not an operator of the channel; a null sender is a server.
unfoldable pub lacks_rights : Channel → Option User → Bool
unfolding is_chanop
lacks_rights chan none = false
lacks_rights chan (some sender) = ltb (sender.level) level_moderator && not (is_chanop chan sender)

-- The flags of the first member that is the user are changed.
unfoldable pub change_member : (Member → Member) → List Member → User → List Member
change_member f [] user = []
change_member f (m ∷ l) user =
    if same_user (m.user) user then f m ∷ l else m ∷ change_member f l user

-- What is sent to each member for which a test holds.
unfoldable pub to_members : (Member → Bool) → ℕ → String → List Value → List Member → List Output
to_members test tag fmt args [] = []
to_members test tag fmt args (m ∷ l) =
    let more = to_members test tag fmt args l in
    if test m then sent_to (m.user.nick) tag fmt args ∷ more else more

abbrev pub is_notified : Member → Bool
is_notified m = m.user.local && (m.operator || ltb 1 (m.user.level))

unfoldable pub notify_ops : Channel → String → List Value → List Output
unfolding to_members
notify_ops chan fmt args = to_members is_notified msg_nosuch fmt args (chan.users)

-- `if (ISUSER (user->con)) send_cmd (user->con, MSG_SERVER_NOSUCH, ...)`
abbrev pub to_user : User → ℕ → String → List Value → List Output
to_user user tag fmt args = if user.local then sent_to (user.nick) tag fmt args ∷ [] else []

abbrev pub find : Chats → Bytes → Option ℕ
find s name = hash_lookup (some (s.table)) name

-- Among the channels of a list, by name.
unfoldable pub find_channel : Chats → List ℕ → Bytes → Option ℕ
find_channel s [] name = none
find_channel s (c ∷ l) name =
    if case_eq ((s.channel c).name) name then some c else find_channel s l name

abbrev pub put : Chats → ℕ → Channel → Chats
put s c chan = record s { channel = update (s.channel) c chan }

-- The user no longer has the invitation: the loop of `free_channel`.
abbrev pub uninvite : List ℕ → ℕ → (ℕ → List ℕ) → ℕ → List ℕ
uninvite [] c inv = inv
uninvite (u ∷ l) c inv = uninvite l c (update inv u (list_delete (inv u) c))

-- A freed channel has no lists of pointers any more.
abbrev pub freed : Channel → Channel
freed chan = record chan { ops = []; users = []; bans = []; invited = [] }

unfoldable pub free_channel : Chats → ℕ → Chats
free_channel s c = record s {
  channel = update (s.channel) c (freed (s.channel c));
  invitations = uninvite ((s.channel c).invited) c (s.invitations);
}

abbrev pub free_all : Chats → List ℕ → Chats
free_all s [] = s
free_all s (c ∷ l) = free_all (free_channel s c) l

abbrev pub with_table : Chats → HashTable ℕ → Chats
with_table s t = record s { table = t }

-- `hash_remove (Channels, name)`, whose destructor is `free_channel`.
unfoldable pub destroy_channel : Chats → Bytes → Chats
unfolding hash_remove free_channel
destroy_channel s name =
    let (result, t, gone) = hash_remove (s.table) name in free_all (with_table s t) gone

-- The start of a handler: the sender, and the channel that a name stands for. `none` is a read
-- through a null pointer.
abbrev pub sender_popped : Chats → (User → Option Bytes → Option Told) → Popped → Option Told
sender_popped s k failed = some (tell s [])
sender_popped s k null_user = none
sender_popped s k (popped nick none pkt) = none
sender_popped s k (popped nick (some user) pkt) = k user pkt

abbrev pub with_user :
    Globals → Connection → Bytes → Chats → (User → Option Bytes → Option Told) → Option Told
with_user g con pkt s k = sender_popped s k (pop_user g con pkt)

abbrev pub source_popped :
    Chats → (Bytes → Option User → Option Bytes → Option Told) → Popped → Option Told
source_popped s k failed = some (tell s [])
source_popped s k null_user = none
source_popped s k (popped nick user pkt) = k nick user pkt

abbrev pub with_sender :
    Globals
    → Connection
    → Bytes
    → Chats
    → (Bytes → Option User → Option Bytes → Option Told)
    → Option Told
with_sender g con pkt s k = source_popped s k (pop_user_server g con pkt)

abbrev pub on_channel : Connection → Chats → (ℕ → Told) → Option ℕ → Told
on_channel con s k none = tell s (nosuchchannel con)
on_channel con s k (some c) = k c
