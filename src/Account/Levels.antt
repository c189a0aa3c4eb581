-- ===== src/Account/Levels.antt =====
-- level.c: the records of the target before and after, and who asked.
use opennap.Base.{
  ℕ, ◌≡◌, ◌≢◌, ◌⊎◌, ◌<◌, refl, subst, Bool, true, false, ◌&&◌, not, Option, none, some, arith,
  if◌then◌else◌, ltb, leb, ◌==◌, inl, inr, ltb_ℤ, ℤ, pos,
}
use opennap.Text.{Bytes}
use opennap.Hash.{HashTable, hash_lookup}
use opennap.Server.{
  User, Connection, unknown_con, user_con, server_con, Globals, level_moderator, level_elite, atoi,
}
use opennap.Account.{UserDb, Change, user_level, level_is}
use opennap.Account.Level.{
  above_own, is_self, may_not_change, set_db_level, set_user_level, change_level, with_stamp,
  level_target, level_value,
}

-- A change of the level that a user of this server asks for is one to a level below its own, and of a
-- target that is that user itself or stands below it, unless the user is of the highest level.
abbrev pub IsAllowed : User → Option User → UserDb → ℕ → Type 0
IsAllowed u user db l = (l < u.level) × ((is_self u user ≡ true) ⊎ (db.level < u.level))

-- The entry is one that the target may have now.
abbrev Fine : User → Option User → UserDb → ℕ → Option UserDb → Type 0
Fine u user db l none = Unit
Fine u user db l (some d) = (d.level ≡ db.level) ⊎ IsAllowed u user db l

holds_if :
    (P : Change → Type 0) (t : Bool) (a b : Change)
    → P a
    → (t ≡ false → P b)
    → P (if t then a else b)
holds_if P true a b h k = h
holds_if P false a b h k = k refl

below : (a b : Bool) → a ≡ true → (a && b) ≡ false → b ≡ false
below a b h k = ground arith

allowed :
    (self low le : Bool)
    → low ≡ true
    → (not self && (low && le)) ≡ false
    → (self ≡ true) ⊎ (le ≡ false)
allowed self low le h k = ground arith

leb-false : (a b : ℕ) → leb a b ≡ false → b < a
leb-false a b h = ground arith

change_level-Fine :
    (g : Globals) (u : User) (tag l : ℕ) (user : Option User) (db : UserDb)
    → ltb (u.level) level_elite ≡ true
    → above_own (user_con u) l ≡ false
    → Fine u user db l ((change_level g (user_con u) tag (u.nick) (some u) l user db).db)
unfolding change_level above_own may_not_change
change_level-Fine g u tag l user db low own =
    holds_if (λ c. Fine u user db l (c.db)) (may_not_change (some u) user db) _ _ (inl refl)
      (λ may. inr (
        leb-false (u.level) l (below (ltb (u.level) level_elite) (leb (u.level) l) low own),
        elim (allowed (is_self u user) (ltb (u.level) level_elite) (leb (u.level) (db.level)) low
            may) [ inl e ↦ inl e | inr e ↦ inr (leb-false (u.level) (db.level) e) ],
      ))

level_target-Fine :
    (g : Globals) (created : Bool) (u : User) (tag l : ℕ) (stamp : Option Bytes)
    (user : Option User) (db : UserDb)
    → ltb (u.level) level_elite ≡ true
    → above_own (user_con u) l ≡ false
    → Fine u user db l
        ((level_target g created (user_con u) tag (u.nick) (some u) l stamp user (some db)).db)
unfolding level_target with_stamp
level_target-Fine g created u tag l stamp user db low own =
    holds_if (λ c. Fine u user db l (c.db)) (db.level == l) _ _ (inl refl)
      (λ differs.
        holds_if (λ c. Fine u user db l (c.db)) (level_is (λ k. k == l) (user_level user)) _ _
          (inl refl) (λ also. change_level-Fine g u tag l user db low own))

-- Where a user of this server that is below the highest level asks for a level of a target with an
-- entry, the entry's level changes only if the new level is below the asking user's own and the target
-- is that user itself or its old level is below the asking user's.
pub level_guard :
    (g : Globals) (dbs : Option (HashTable UserDb)) (created : Bool) (u : User) (tag : ℕ)
    (target : Bytes) (l : ℕ) (stamp : Option Bytes) (db d : UserDb)
    → ltb (u.level) level_elite ≡ true
    → hash_lookup dbs target ≡ some db
    → (level_value g dbs created (user_con u) tag (u.nick) (some u) target (pos l) stamp).db
      ≡ some d
    → d.level ≢ db.level
    → IsAllowed u (hash_lookup (g.users) target) db l
level_guard g dbs created u tag target l stamp db d low found e differs =
    elim (subst (Fine u (hash_lookup (g.users) target) db l) e fine) [
      | inl q ↦ absurd (differs q)
      | inr q ↦ q
    ]
  where
    fine :
        Fine u
          (hash_lookup (g.users) target)
          db
          l
          ((level_value g dbs created (user_con u) tag (u.nick) (some u) target (pos l) stamp).db)
    fine =
        holds_if (λ c. Fine u (hash_lookup (g.users) target) db l (c.db)) (above_own (user_con u) l)
          _ _ tt
          (λ own.
            rw found
              (level_target-Fine g created u tag l stamp (hash_lookup (g.users) target) db low own))

-- Nobody below a moderator is cloaked.
abbrev pub IsShown : ℕ → Bool → Type 0
IsShown l cloaked = ltb l level_moderator ≡ true → cloaked ≡ false

-- The level is the same in both records, and below a moderator neither is cloaked.
abbrev pub IsSettled : Option User → Option UserDb → Type 0
IsSettled (some user) (some db) =
    (user.level ≡ db.level) × IsShown (user.level) (user.cloaked) × IsShown (db.level) (db.cloaked)
IsSettled none (some db) = IsShown (db.level) (db.cloaked)
IsSettled (some user) none = IsShown (user.level) (user.cloaked)
IsSettled none none = Unit

abbrev pub Settles : Change → Type 0
Settles c = IsSettled (c.user) (c.db)

shown : (cloaked low : Bool) → low ≡ true → (cloaked && not low) ≡ false
shown cloaked low h = ground arith

IsSettled-set :
    (g : Globals) (l : ℕ) (user : Option User) (db : UserDb)
    → IsSettled (set_user_level l user) (some (set_db_level g l db))
unfolding set_user_level set_db_level
IsSettled-set g l none db = shown (db.cloaked) (ltb l level_moderator)
IsSettled-set g l (some user) db =
    (refl, shown (user.cloaked) (ltb l level_moderator), shown (db.cloaked) (ltb l level_moderator))

change_level-Settles :
    (g : Globals) (con : Connection) (tag : ℕ) (name : Bytes) (sender : Option User) (l : ℕ)
    (user : Option User) (db : UserDb)
    → IsSettled user (some db)
    → Settles (change_level g con tag name sender l user db)
unfolding change_level
change_level-Settles g con tag name sender l user db h =
    holds_if Settles (may_not_change sender user db) _ _ h (λ may. IsSettled-set g l user db)

IsSettled-stamp :
    (user : Option User) (db : UserDb) (z : ℤ)
    → IsSettled user (some db)
    → IsSettled user (some (record db { timestamp = z }))
IsSettled-stamp none db z h = h
IsSettled-stamp (some user) db z h = h

with_stamp-Settles :
    (g : Globals) (con : Connection) (tag : ℕ) (name : Bytes) (sender : Option User) (l : ℕ)
    (stamp : Option Bytes) (user : Option User) (db : UserDb)
    → IsSettled user (some db)
    → Settles (with_stamp g con tag name sender l stamp user db)
unfolding with_stamp
with_stamp-Settles g unknown_con tag name sender l stamp user db h =
    change_level-Settles g unknown_con tag name sender l user db h
with_stamp-Settles g (user_con u) tag name sender l stamp user db h =
    change_level-Settles g (user_con u) tag name sender l user db h
with_stamp-Settles g server_con tag name sender l none user db h =
    change_level-Settles g server_con tag name sender l user db h
with_stamp-Settles g server_con tag name sender l (some given) user db h =
    holds_if Settles (ltb_ℤ (db.timestamp) (atoi given)) _ _ h (λ older.
      change_level-Settles g server_con tag name sender l user _
        (IsSettled-stamp user db (atoi given) h))

-- If the target's level is the same in both records, where it has both, and neither is cloaked
-- below the level of a moderator, then this is so when the handler returns, whoever asks, with or
-- without a timestamp, and whether or not the table takes a new entry.
pub level_target-Settles :
    (g : Globals) (created : Bool) (con : Connection) (tag : ℕ) (name : Bytes)
    (sender : Option User) (l : ℕ) (stamp : Option Bytes) (user : Option User) (db : Option UserDb)
    → IsSettled user db
    → Settles (level_target g created con tag name sender l stamp user db)
unfolding level_target
level_target-Settles g created con tag name sender l stamp user (some db) h =
    holds_if Settles (db.level == l) _ _ h (λ differs.
      holds_if Settles (level_is (λ k. k == l) (user_level user)) _ _ h
        (λ also. with_stamp-Settles g con tag name sender l stamp user db h))
level_target-Settles g created con tag name sender l stamp none none h = tt
level_target-Settles g true con tag name sender l stamp (some user) none h =
    holds_if Settles (user.level == l) _ _ h (λ differs.
      with_stamp-Settles g con tag name sender l stamp (some user) _ (refl, h, λ low. refl))
level_target-Settles g false con tag name sender l stamp (some user) none h =
    holds_if Settles (user.level == l) _ _ h (λ differs. h)
