-- ===== src/Account.antt =====
-- muzzle.c and level.c: the handlers that change what a user may do, in its record among the users
-- that are signed on and in its entry of the user table. `dbs` is the table `User_Db`.
pub mod Muzzles
pub mod Level
pub mod Levels
use opennap.Base.{
  ℕ, ◌+◌, Bool, true, false, ◌&&◌, ◌||◌, not, List, [], ◌∷◌, ◌++◌, Option, none, some, ltb, leb,
  ◌==◌, if◌then◌else◌, ℤ, pos, negsuc, ltb_ℤ,
}
use opennap.Text.{Bytes, codes, case_eq}
use opennap.Hash.{HashTable, hash_lookup}
use opennap.Args.{split_line}
use opennap.Server.{
  User, Connection, unknown_con, user_con, server_con, is_user, Value, text, number, Output, sent,
  passed, mods_notified, sent_to, Globals, permission_denied, unparsable, nosuchuser,
  truncate_reason, atoi, get_level, Popped, failed, null_user, popped, fields, pop_user_server,
  level_moderator, level_elite, msg_nosuch,
}
use Prim.Native.String.{String}

-- `muzzled` and `cloaked` are the bits ON_MUZZLED and ON_CLOAKED of the flags.
pub record UserDb : Type 0 where
  pub nick : Bytes
  pub level : ℕ
  pub timestamp : ℤ
  pub muzzled : Bool
  pub cloaked : Bool

-- The records of the target as they are when the handler returns.
pub record Change : Type 0 where
  pub user : Option User
  pub db : Option UserDb
  pub outputs : List Output

abbrev pub same : Option User → Option UserDb → List Output → Change
same user' db' outputs' = record { user = user'; db = db'; outputs = outputs' }

-- `create_db`, which fails without memory or where the table refuses the entry.
abbrev pub create_db : Globals → Bool → User → Option UserDb
create_db g created user =
    if created
    then some (record {
      nick = user.nick;
      level = user.level;
      timestamp = pos (g.current_time);
      muzzled = false;
      cloaked = false;
    })
    else none

abbrev pub says : Connection → String → List Output
says con message = if is_user con then sent msg_nosuch message [] ∷ [] else []

abbrev pub user_level : Option User → Option ℕ
user_level none = none
user_level (some user) = some (user.level)

abbrev pub db_level : Option UserDb → Option ℕ
db_level none = none
db_level (some db) = some (db.level)

-- The level is there, and the test holds of it.
abbrev pub level_is : (ℕ → Bool) → Option ℕ → Bool
level_is test none = false
level_is test (some level) = test level

abbrev pub user_muzzled : Option User → Bool
user_muzzled none = false
user_muzzled (some user) = user.muzzled

abbrev pub db_muzzled : Option UserDb → Bool
db_muzzled none = false
db_muzzled (some db) = db.muzzled

unfoldable pub set_user_muzzled : Bool → Option User → Option User
set_user_muzzled on none = none
set_user_muzzled on (some user) = some (record user { muzzled = on })

unfoldable pub set_db_muzzled : Bool → Option UserDb → Option UserDb
set_db_muzzled on none = none
set_db_muzzled on (some db) = some (record db { muzzled = on })

-- `sender && sender->level < LEVEL_ELITE && (...)`: the sender is not above the target.
unfoldable pub may_not_muzzle : Option User → Option User → Option UserDb → Bool
may_not_muzzle none user db = false
may_not_muzzle (some sender) user db =
    ltb (sender.level) level_elite
    && (level_is (leb (sender.level)) (user_level user)
        || level_is (leb (sender.level)) (db_level db))

abbrev pub is_cloaked : Option User → Bool
is_cloaked none = false
is_cloaked (some sender) = sender.cloaked

-- The text to the target, where it is a client of this server.
abbrev pub muzzle_notice : Bool → Bytes → Option User → Bytes → Option User → List Output
muzzle_notice on sender_name sender why none = []
muzzle_notice on sender_name sender why (some user) =
    if user.local
    then sent_to (user.nick) msg_nosuch "You have been %smuzzled%s%s: %s" (
        text (if on then [] else codes "un")
        ∷ text (if is_cloaked sender then [] else codes " by ")
        ∷ text (if is_cloaked sender then [] else sender_name)
        ∷ text why
        ∷ [])
      ∷ []
    else []

abbrev pub msg_muzzle : ℕ
msg_muzzle = 622

-- What both messages end in.
abbrev pub muzzled_outputs : ℕ → Bytes → Option User → Bytes → Bytes → Option User → List Output
muzzled_outputs tag sender_name sender target why user =
    passed true tag ":%s %s \"%s\"" (text sender_name ∷ text target ∷ text why ∷ [])
      ∷ muzzle_notice (tag == msg_muzzle) sender_name sender why user
    ++ (mods_notified 64 "%s has %smuzzled %s: %s" (
          text sender_name
          ∷ text (if tag == msg_muzzle then [] else codes "un")
          ∷ text target
          ∷ text why
          ∷ [])
        ∷ [])

-- The branch of MSG_CLIENT_MUZZLE, behind the forced registration.
unfoldable pub set_muzzle :
    Connection → ℕ → Bytes → Option User → Bytes → Bytes → Option User → Option UserDb → Change
unfolding set_user_muzzled set_db_muzzled is_user
set_muzzle con tag sender_name sender target why user db =
    if user_muzzled user || db_muzzled db
    then same user db (says con "user is already muzzled")
    else same (set_user_muzzled true user) (set_db_muzzled true db)
        (muzzled_outputs tag sender_name sender target why (set_user_muzzled true user))

abbrev pub is_unmuzzled : Option User → Bool
is_unmuzzled none = false
is_unmuzzled (some user) = not (user.muzzled)

unfoldable pub clear_muzzle :
    Connection → ℕ → Bytes → Option User → Bytes → Bytes → Option User → Option UserDb → Change
unfolding set_user_muzzled set_db_muzzled is_user
clear_muzzle con tag sender_name sender target why user db =
    if is_unmuzzled user || not (db_muzzled db)
    then same user db (says con "user is not muzzled")
    else same (set_user_muzzled false user) (set_db_muzzled false db)
        (muzzled_outputs tag sender_name sender target why (set_user_muzzled false user))

abbrev pub registered : Globals → Bool → Option User → Option UserDb → Option UserDb
registered g created user (some db) = some db
registered g created none none = none
registered g created (some user) none = create_db g created user

abbrev pub is_absent : Option User → Option UserDb → Bool
is_absent none none = true
is_absent (some user) db = false
is_absent none (some db) = false

-- The handler from the two lookups on.
unfoldable pub muzzle_target :
    Globals
    → Bool
    → Connection
    → ℕ
    → Bytes
    → Option User
    → Bytes
    → Bytes
    → Option User
    → Option UserDb
    → Change
unfolding may_not_muzzle permission_denied nosuchuser set_muzzle clear_muzzle
muzzle_target g created con tag sender_name sender target why user db =
    let reason' = truncate_reason g why in
    if may_not_muzzle sender user db
    then same user db (permission_denied con)
    else if is_absent user db
    then same user db (nosuchuser con)
    else if tag == msg_muzzle
    then set_muzzle con tag sender_name sender target reason' user (registered g created user db)
    else clear_muzzle con tag sender_name sender target reason' user db

abbrev pub no_change : List Output → Change
no_change outputs' = same none none outputs'

abbrev pub muzzle_fields :
    Globals
    → Option (HashTable UserDb)
    → Bool
    → Connection
    → ℕ
    → Bytes
    → Option User
    → Option (List Bytes)
    → Change
muzzle_fields g dbs created con tag nick sender none = no_change (unparsable con)
muzzle_fields g dbs created con tag nick sender (some []) = no_change (unparsable con)
muzzle_fields g dbs created con tag nick sender (some (target ∷ [])) =
    muzzle_target g created con tag nick sender target [] (hash_lookup (g.users) target)
      (hash_lookup dbs target)
muzzle_fields g dbs created con tag nick sender (some (target ∷ why ∷ more)) =
    muzzle_target g created con tag nick sender target why (hash_lookup (g.users) target)
      (hash_lookup dbs target)

abbrev pub muzzle_popped :
    Globals → Option (HashTable UserDb) → Bool → Connection → ℕ → Popped → Option Change
muzzle_popped g dbs created con tag failed = some (no_change [])
muzzle_popped g dbs created con tag null_user = none
muzzle_popped g dbs created con tag (popped nick sender pkt) =
    some (muzzle_fields g dbs created con tag nick sender (fields 2 pkt))

-- `none` is a read through a null pointer; a handler that stops before its lookups gives no record.
unfoldable pub muzzle :
    Globals → Option (HashTable UserDb) → Bool → Connection → ℕ → Bytes → Option Change
unfolding pop_user_server unparsable muzzle_target
muzzle g dbs created con tag pkt = muzzle_popped g dbs created con tag (pop_user_server g con pkt)
