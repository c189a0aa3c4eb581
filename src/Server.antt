-- ===== src/Server.antt =====
-- serverlib.c: what the handlers of messages share, with `invalid_nick` of login.c and `get_level` of
-- userdb.c. What a handler sends is a list of outputs, each with the arguments of the call in the
-- source: the text is made by `vsnprintf`.
pub mod Senders
use opennap.Base.{
  ℕ, zero, suc, ◌+◌, ◌-◌, ◌*◌, Bool, true, false, ◌&&◌, ◌||◌, not, List, [], ◌∷◌, ◌++◌, map, Option,
  none, some, ltb, leb, ◌==◌, if◌then◌else◌, length, take, ℤ, pos, negsuc,
}
use opennap.Text.{Bytes, codes, case_eq, is_space, to_lower}
use opennap.Hash.{HashTable, hash_lookup}
use opennap.Args.{next_arg, split_line}
use Prim.Native.String.{String}

-- The positions of the enumeration of levels.
abbrev pub level_moderator : ℕ
level_moderator = 2

abbrev pub level_elite : ℕ
level_elite = 4

-- `address` is the address of the record. `host` is the text of `ip`, by `my_ntoa`. Of the user's
-- connection the handlers read `numerics`; `local` says that it is of class CLASS_USER.
pub record User : Type 0 where
  pub nick : Bytes
  pub level : ℕ
  pub local : Bool
  pub muzzled : Bool
  pub cloaked : Bool
  pub speed : ℕ
  pub address : ℕ
  pub shared : ℕ
  pub host : Bytes
  pub numerics : Bool

-- The connection that a message came in on: its class, and its user where it has one.
pub data Connection : Type 0 where
  unknown_con : Connection
  user_con : User → Connection
  server_con : Connection

unfoldable pub is_user : Connection → Bool
is_user (user_con u) = true
is_user unknown_con = false
is_user server_con = false

pub data Value : Type 0 where
  text : Bytes → Value
  number : ℕ → Value

-- `send_cmd (con, ...)`, `pass_message_args`, whose first argument says whether `con` is passed over,
-- `notify_mods`, and `send_cmd` to the user of a nick.
pub data Output : Type 0 where
  sent : ℕ → String → List Value → Output
  passed : Bool → ℕ → String → List Value → Output
  mods_notified : ℕ → String → List Value → Output
  sent_to : Bytes → ℕ → String → List Value → Output

-- The globals that the handlers read.
pub record Globals : Type 0 where
  pub users : Option (HashTable User)
  pub servers : List Bytes
  pub server_links : List (Bytes × Bytes)
  pub server_name : Bytes
  pub current_time : ℕ
  pub max_reason : ℤ
  pub max_nick_length : ℤ

-- A limit that is set, and exceeded.
unfoldable pub is_over : ℤ → ℕ → Bool
is_over (pos zero) count = false
is_over (pos (suc limit)) count = ltb (suc limit) count
is_over (negsuc limit) count = false

abbrev pub msg_nosuch : ℕ
msg_nosuch = 404

unfoldable pub nosuchuser : Connection → List Output
unfolding is_user
nosuchuser con = if is_user con then sent msg_nosuch "User is not currently online." [] ∷ [] else []

unfoldable pub permission_denied : Connection → List Output
unfolding is_user
permission_denied con = if is_user con then sent msg_nosuch "permission denied" [] ∷ [] else []

unfoldable pub unparsable : Connection → List Output
unfolding is_user
unparsable con = if is_user con then sent msg_nosuch "parameters are unparsable" [] ∷ [] else []

unfoldable pub truncate_reason : Globals → Bytes → Bytes
unfolding is_over
truncate_reason g s = if is_over (g.max_reason) (length s) then cut (g.max_reason) else s
  where
    cut : ℤ → Bytes
    cut (pos n) = take n s
    cut (negsuc n) = s

abbrev pub any_host : Bytes → List Bytes → Bool
any_host s [] = false
any_host s (host ∷ more) = case_eq s host || any_host s more

abbrev pub any_link : Bytes → List (Bytes × Bytes) → Bool
any_link s [] = false
any_link s ((server, peer) ∷ more) = (case_eq s server || case_eq s peer) || any_link s more

unfoldable pub is_server : Globals → Bytes → Bool
is_server g s = any_host s (g.servers) || any_link s (g.server_links)

unfoldable pub bad_char : ℕ → Bool
bad_char c = ltb c b'!' || (ltb b'~' c || forbidden (codes "%$*?.!\","))
  where
    forbidden : Bytes → Bool
    forbidden [] = false
    forbidden (x ∷ s) = (c == x) || forbidden s

unfoldable pub any_bad : Bytes → Bool
unfolding bad_char
any_bad [] = false
any_bad (c ∷ s) = bad_char c || any_bad s

abbrev pub bad_start : Bytes → Bool
bad_start [] = false
bad_start (c ∷ s) = (c == b'#') || ((c == b'&') || (c == b':'))

unfoldable pub invalid_nick : Globals → Bytes → Bool
unfolding any_bad is_over
invalid_nick g s =
    ((case_eq s (codes "operserv") || case_eq s (codes "chanserv")) || case_eq s (codes "operator"))
    || (bad_start s || (any_bad s || ((length s == 0) || is_over (g.max_nick_length) (length s))))

-- `atoi`: the digits behind spaces and a sign. The code relies on results that fit in an `int`.
abbrev pub digits : ℕ → Bytes → ℕ
digits n [] = n
digits n (c ∷ s) = if leb b'0' c && leb c b'9' then digits (10 * n + (c - b'0')) s else n

abbrev pub negative : ℕ → ℤ
negative zero = pos 0
negative (suc n) = negsuc n

unfoldable pub atoi : Bytes → ℤ
atoi [] = pos 0
atoi (c ∷ s) =
    let later = atoi s in
    if is_space c
    then later
    else if c == b'-'
    then negative (digits 0 s)
    else if c == b'+'
    then pos (digits 0 s)
    else pos (digits 0 (c ∷ s))

-- The results of `pop_user` and of `pop_user_server`: -1, a read through a null pointer, or the nick
-- of the sender, its user where it has one, and the rest of the packet.
pub data Popped : Type 0 where
  failed : Popped
  null_user : Popped
  popped : Bytes → Option User → Option Bytes → Popped

-- Where there is no such user, the null pointer is the argument of `%s` in the call of `log`.
abbrev pub known_user : Bytes → Option User → Option Bytes → Popped
known_user nick none pkt = null_user
known_user nick (some user) pkt = popped nick (some user) pkt

-- `*nick = next_arg (pkt)`, behind the colon.
abbrev pub pop_sender : Globals → Option Bytes × Option Bytes → Popped
pop_sender g (none, pkt) = null_user
pop_sender g (some nick, pkt) =
    if is_server g nick
    then popped nick none pkt
    else known_user nick (hash_lookup (g.users) nick) pkt

unfoldable pub pop_user_server : Globals → Connection → Bytes → Popped
pop_user_server g unknown_con pkt = null_user
pop_user_server g (user_con user) pkt = popped (user.nick) (some user) (some pkt)
pop_user_server g server_con [] = failed
pop_user_server g server_con (c ∷ pkt) =
    if c == b':' then pop_sender g (next_arg (some pkt)) else failed

-- A user of this server is not one that another server may speak for.
abbrev pub remote_user : Option User → Option Bytes → Popped
remote_user none pkt = failed
remote_user (some user) pkt = if user.local then failed else popped (user.nick) (some user) pkt

abbrev pub pop_remote : Globals → Option Bytes × Option Bytes → Popped
pop_remote g (none, pkt) = null_user
pop_remote g (some nick, pkt) = remote_user (hash_lookup (g.users) nick) pkt

unfoldable pub pop_user : Globals → Connection → Bytes → Popped
pop_user g unknown_con pkt = null_user
pop_user g (user_con user) pkt = popped (user.nick) (some user) (some pkt)
pop_user g server_con [] = failed
pop_user g server_con (c ∷ pkt) = if c == b':' then pop_remote g (next_arg (some pkt)) else failed

-- `strncasecmp (name, s, 3) == 0` for a name of three letters.
abbrev pub starts_with : Bytes → Bytes → Bool
starts_with name s = case_eq name (take 3 s)

unfoldable pub get_level : Bytes → ℤ
get_level s =
    if starts_with (codes "lee") s
    then pos 0
    else if starts_with (codes "use") s
    then pos 1
    else if starts_with (codes "mod") s
    then pos 2
    else if starts_with (codes "eli") s
    then pos 4
    else if starts_with (codes "adm") s
    then pos 3
    else negsuc 0

-- `if (pkt) ac = split_line (...)`, with ac = -1 before: `none` is a count of -1.
abbrev pub fields : ℕ → Option Bytes → Option (List Bytes)
fields count none = none
fields count (some pkt) = split_line count pkt

-- The class of the connection is known.
unfoldable pub is_known : Connection → Bool
is_known unknown_con = false
is_known (user_con user) = true
is_known server_con = true
