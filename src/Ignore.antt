-- ===== src/Ignore.antt =====
-- privmsg.c: private messages and the lists of those whom a user ignores, with `is_ignoring` of
-- serverlib.c. A list is the field `uopt->ignore` of a connection.
pub mod Lists
pub mod Delivery
pub mod Services
pub mod Commands
use opennap.Base.{
  ℕ, Bool, true, false, ◌&&◌, ◌||◌, List, [], ◌∷◌, Option, none, some, ltb, length, take, ℤ, pos,
  negsuc, if◌then◌else◌,
}
use opennap.Text.{Bytes, codes, case_eq}
use opennap.Hash.{hash_lookup}
use opennap.Args.{next_arg, next_arg_noskip}
use opennap.Server.{
  User, Connection, is_user, Value, text, number, Output, sent, sent_to, Globals, is_over,
  invalid_nick, nosuchuser, unparsable, Popped, failed, null_user, popped, pop_user, msg_nosuch,
}
use opennap.Hotlist.{invalid_nick_msg}
use Prim.Native.String.{String}

unfoldable pub is_ignoring : List Bytes → Bytes → Bool
is_ignoring [] nick = false
is_ignoring (name ∷ ignore') nick = case_eq nick name || is_ignoring ignore' nick

pub record Change : Type 0 where
  pub list : List Bytes
  pub outputs : List Output

abbrev pub change : List Bytes → List Output → Change
change list' outputs' = record { list = list'; outputs = outputs' }

abbrev pub limit_of : ℤ → ℕ
limit_of (pos n) = n
limit_of (negsuc n) = 0

-- The message 322. The limit is printed where it is greater than 0.
unfoldable pub ignore : Globals → ℤ → Connection → ℕ → Bytes → List Bytes → Change
unfolding is_ignoring invalid_nick is_user is_over
ignore g max_ignore con tag pkt l =
    if is_user con
    then if invalid_nick g pkt
      then change l (invalid_nick_msg con)
      else if is_ignoring l pkt
      then change l (sent 325 "%s" (text pkt ∷ []) ∷ [])
      else if is_over max_ignore (length l)
      then change l (
          sent msg_nosuch "ignore list is limited to %d users" (number (limit_of max_ignore) ∷ [])
          ∷ [])
      else change (pkt ∷ l) (sent tag "%s" (text pkt ∷ []) ∷ [])
    else change l []

unfoldable pub unlink_name : Bytes → List Bytes → List Bytes
unlink_name pkt [] = []
unlink_name pkt (name ∷ l) = if case_eq pkt name then l else name ∷ unlink_name pkt l

-- The message 323.
unfoldable pub unignore : Globals → Connection → ℕ → Bytes → List Bytes → Change
unfolding is_ignoring unlink_name invalid_nick is_user
unignore g con tag pkt l =
    if is_user con
    then if invalid_nick g pkt
      then change l (invalid_nick_msg con)
      else if is_ignoring l pkt
      then change (unlink_name pkt l) (sent tag "%s" (text pkt ∷ []) ∷ [])
      else change l (sent 324 "%s" (text pkt ∷ []) ∷ [])
    else change l []

-- The message 326.
unfoldable pub clear_ignore : Connection → ℕ → List Bytes → Change
unfolding is_user
clear_ignore con tag l =
    if is_user con then change [] (sent tag "%d" (number (length l) ∷ []) ∷ []) else change l []

abbrev pub entries : List Bytes → List Output
entries [] = []
entries (name ∷ l) = sent 321 "%s" (text name ∷ []) ∷ entries l

abbrev pub counted : ℕ → ℕ → List Output → List Output
counted tag n [] = sent tag "%d" (number n ∷ []) ∷ []
counted tag n (o ∷ l) = o ∷ counted tag n l

-- The message 320.
unfoldable pub ignore_list : Connection → ℕ → List Bytes → List Output
unfolding is_user
ignore_list con tag l = if is_user con then counted tag (length l) (entries l) else []

-- What `privmsg` comes to: calls of `send_cmd`, a call of `send_user`, or a call of one of the two
-- services with the text behind its name.
pub data Outcome : Type 0 where
  done : List Output → Outcome
  user_told : User → ℕ → String → List Value → Outcome
  operserv : Bytes → Outcome
  chanserv : Bytes → Outcome

abbrev pub msg_privmsg : ℕ
msg_privmsg = 205

-- `ignores` has the list of the connection of the user with an address.
unfoldable pub deliver : Connection → (ℕ → List Bytes) → User → Bytes → Option User → Outcome
unfolding is_ignoring nosuchuser
deliver con ignores sender pkt none = done (nosuchuser con)
deliver con ignores sender pkt (some user) =
    if user.local
    then if is_ignoring (ignores (user.address)) (sender.nick)
      then user_told sender msg_nosuch "%s is ignoring you" (text (user.nick) ∷ [])
      else done (sent_to (user.nick) msg_privmsg "%s %s" (text (sender.nick) ∷ text pkt ∷ []) ∷ [])
    else done (
        sent_to (user.nick) msg_privmsg ":%s %s %s"
          (text (sender.nick) ∷ text (user.nick) ∷ text pkt ∷ [])
        ∷ [])

abbrev pub level_user : ℕ
level_user = 1

abbrev pub privmsg_args :
    Globals → Connection → (ℕ → List Bytes) → User → Bytes × Option Bytes → Outcome
privmsg_args g con ignores sender (name, none) = done (unparsable con)
privmsg_args g con ignores sender (name, some pkt) =
    if is_user con && (ltb level_user (sender.level) && case_eq name (codes "operserv"))
    then operserv pkt
    else if is_user con && case_eq (codes "chanserv") name
    then chanserv pkt
    else deliver con ignores sender pkt (hash_lookup (g.users) name)

-- More than 180 bytes are cropped. `none` is a read through a null pointer.
abbrev pub privmsg_popped : Globals → Connection → (ℕ → List Bytes) → Popped → Option Outcome
privmsg_popped g con ignores failed = some (done [])
privmsg_popped g con ignores null_user = none
privmsg_popped g con ignores (popped nick none pkt) = none
privmsg_popped g con ignores (popped nick (some sender) none) = none
privmsg_popped g con ignores (popped nick (some sender) (some pkt)) =
    some (privmsg_args g con ignores sender (next_arg_noskip (take 180 pkt)))

-- The message 205.
unfoldable pub privmsg : Globals → Connection → Bytes → (ℕ → List Bytes) → Option Outcome
unfolding deliver pop_user next_arg_noskip hash_lookup is_user
privmsg g con pkt ignores = privmsg_popped g con ignores (pop_user g con pkt)
