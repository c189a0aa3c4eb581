-- ===== src/Account/Level.antt =====
-- level.c: the handler that changes a user's level.
use opennap.Base.{
  ℕ, ◌-◌, ◌%◌, ◌^◌, zero, suc, Bool, true, false, ◌&&◌, not, List, [], ◌∷◌, ◌++◌, Option, none,
  some, ltb, leb, ◌==◌, if◌then◌else◌, ℤ, pos, negsuc, ltb_ℤ,
}
use opennap.Text.{Bytes, codes, case_eq}
use opennap.Hash.{HashTable, hash_lookup}
use opennap.Server.{
  fields, User, Connection, unknown_con, user_con, server_con, is_user, text, number, Output, sent,
  passed, mods_notified, sent_to, Globals, permission_denied, unparsable, atoi, get_level, Popped,
  failed, null_user, popped, pop_user_server, level_moderator, level_elite, msg_nosuch,
}
use opennap.Account.{
  UserDb, Change, same, create_db, says, user_level, level_is, is_cloaked, no_change,
}

-- `Levels` of synch.c.
unfoldable pub level_name : ℕ → Bytes
level_name zero = codes "Leech"
level_name (suc zero) = codes "User"
level_name (suc (suc zero)) = codes "Moderator"
level_name (suc (suc (suc zero))) = codes "Admin"
level_name (suc (suc (suc (suc n)))) = codes "Elite"

-- `con->user->level < LEVEL_ELITE && level >= con->user->level`, of a local user.
unfoldable pub above_own : Connection → ℕ → Bool
above_own unknown_con level' = false
above_own server_con level' = false
above_own (user_con u) level' = ltb (u.level) level_elite && leb (u.level) level'

-- `senderUser == user`: the records of users are found by their nicks.
abbrev pub is_self : User → Option User → Bool
is_self sender none = false
is_self sender (some user) = case_eq (sender.nick) (user.nick)

unfoldable pub may_not_change : Option User → Option User → UserDb → Bool
may_not_change none user db = false
may_not_change (some sender) user db =
    not (is_self sender user) && (ltb (sender.level) level_elite && leb (sender.level) (db.level))

-- The entry with its new level: below a moderator nobody stays cloaked.
unfoldable pub set_db_level : Globals → ℕ → UserDb → UserDb
set_db_level g level' db = record db {
  level = level';
  timestamp = pos (g.current_time);
  cloaked = db.cloaked && not (ltb level' level_moderator);
}

unfoldable pub set_user_level : ℕ → Option User → Option User
set_user_level level' none = none
set_user_level level' (some user) =
    some
      (record user { level = level'; cloaked = user.cloaked && not (ltb level' level_moderator) })

abbrev pub shown_sender : Option User → ℕ → Bytes → Bytes
shown_sender sender level' name =
    if is_cloaked sender && ltb level' level_moderator then codes "Operator" else name

abbrev pub decloak_outputs : ℕ → User → List Output
decloak_outputs level' user =
    if ltb level' level_moderator && user.cloaked
    then mods_notified 4 "%s has decloaked" (text (user.nick) ∷ [])
      ∷ (if user.local
          then sent_to (user.nick) msg_nosuch "You are no longer cloaked." [] ∷ []
          else [])
    else []

abbrev pub level_notice : ℕ → Bytes → Option User → Option User → List Output
level_notice level' name sender none = []
level_notice level' name sender (some user) =
    (if user.local
      then sent_to (user.nick) msg_nosuch "%s changed your user level to %s (%d)"
          (text (shown_sender sender level' name) ∷ text (level_name level') ∷ number level' ∷ [])
        ∷ []
      else [])
    ++ decloak_outputs level' user

-- From the permission on: both records get the level.
unfoldable pub change_level :
    Globals → Connection → ℕ → Bytes → Option User → ℕ → Option User → UserDb → Change
unfolding may_not_change set_db_level set_user_level permission_denied level_name
change_level g con tag name sender level' user db =
    if may_not_change sender user db
    then same user (some db) (permission_denied con)
    else same (set_user_level level' user) (some (set_db_level g level' db)) (
        passed true tag ":%s %s %s" (text name ∷ text (db.nick) ∷ text (level_name level') ∷ [])
        ∷ mods_notified 16 "%s changed %s's user level to %s (%d)"
            (text name ∷ text (db.nick) ∷ text (level_name level') ∷ number level' ∷ [])
        ∷ level_notice level' name sender user)

-- The timestamp that a server sends behind the level: the older one stands, and the sender of a newer
-- one is told of the level that it should have.
-- A `time_t` that the format `%u` reads as an `unsigned int`.
abbrev pub unsigned : ℤ → ℕ
unsigned (pos n) = n % 2 ^ 32
unsigned (negsuc n) = 2 ^ 32 - 1 - n % 2 ^ 32

unfoldable pub with_stamp :
    Globals
    → Connection
    → ℕ
    → Bytes
    → Option User
    → ℕ
    → Option Bytes
    → Option User
    → UserDb
    → Change
unfolding level_name
with_stamp g unknown_con tag name sender level' stamp user db =
    change_level g unknown_con tag name sender level' user db
with_stamp g (user_con u) tag name sender level' stamp user db =
    change_level g (user_con u) tag name sender level' user db
with_stamp g server_con tag name sender level' none user db =
    change_level g server_con tag name sender level' user db
with_stamp g server_con tag name sender level' (some given) user db =
    if ltb_ℤ (db.timestamp) (atoi given)
    then same user (some db) (
        sent 606 ":%s %s %s %u" (
          text (g.server_name)
          ∷ text (db.nick)
          ∷ text (level_name (db.level))
          ∷ number (unsigned (db.timestamp))
          ∷ [])
        ∷ [])
    else change_level g server_con tag name sender level' user
        (record db { timestamp = atoi given })

-- The entry of the target, made where it is missing and the target is signed on.
unfoldable pub level_target :
    Globals
    → Bool
    → Connection
    → ℕ
    → Bytes
    → Option User
    → ℕ
    → Option Bytes
    → Option User
    → Option UserDb
    → Change
unfolding with_stamp is_user
level_target g created con tag name sender level' stamp user (some db) =
    if db.level == level'
    then same user (some db) []
    else if level_is (λ l. l == level') (user_level user)
    then same user (some db) []
    else with_stamp g con tag name sender level' stamp user db
level_target g created con tag name sender level' stamp none none =
    same none none (says con "user is is not registered")
level_target g created con tag name sender level' stamp (some user) none =
    if user.level == level' then same (some user) none [] else elim (create_db g created user) [
      | none ↦ same (some user) none []
      | some db ↦ with_stamp g con tag name sender level' stamp (some user) db
    ]

abbrev pub level_value :
    Globals
    → Option (HashTable UserDb)
    → Bool
    → Connection
    → ℕ
    → Bytes
    → Option User
    → Bytes
    → ℤ
    → Option Bytes
    → Change
level_value g dbs created con tag name sender target (negsuc n) stamp =
    no_change (says con "invalid level")
level_value g dbs created con tag name sender target (pos level') stamp =
    if above_own con level'
    then no_change (permission_denied con)
    else level_target g created con tag name sender level' stamp (hash_lookup (g.users) target)
        (hash_lookup dbs target)

abbrev pub level_fields :
    Globals
    → Option (HashTable UserDb)
    → Bool
    → Connection
    → ℕ
    → Bytes
    → Option User
    → Option (List Bytes)
    → Change
level_fields g dbs created con tag name sender none = no_change (unparsable con)
level_fields g dbs created con tag name sender (some []) = no_change (unparsable con)
level_fields g dbs created con tag name sender (some (target ∷ [])) = no_change (unparsable con)
level_fields g dbs created con tag name sender (some (target ∷ value ∷ [])) =
    level_value g dbs created con tag name sender target (get_level value) none
level_fields g dbs created con tag name sender (some (target ∷ value ∷ stamp ∷ more)) =
    level_value g dbs created con tag name sender target (get_level value) (some stamp)

abbrev pub level_popped :
    Globals → Option (HashTable UserDb) → Bool → Connection → ℕ → Popped → Option Change
level_popped g dbs created con tag failed = some (no_change [])
level_popped g dbs created con tag null_user = none
level_popped g dbs created con tag (popped nick sender pkt) =
    some (level_fields g dbs created con tag nick sender (fields 3 pkt))

unfoldable pub level :
    Globals → Option (HashTable UserDb) → Bool → Connection → ℕ → Bytes → Option Change
unfolding pop_user_server unparsable level_target above_own get_level is_user permission_denied
level g dbs created con tag pkt = level_popped g dbs created con tag (pop_user_server g con pkt)
