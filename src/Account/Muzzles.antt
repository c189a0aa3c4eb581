-- ===== src/Account/Muzzles.antt =====
-- muzzle.c: the records of the target before and after.
use opennap.Base.{
  ℕ, ◌≡◌, refl, sym, ap, Bool, true, false, ◌||◌, not, Option, none, some, arith, if◌then◌else◌,
  ◌==◌, Bool-cases, inl, inr,
}
use opennap.Text.{Bytes}
use opennap.Server.{User, Connection, Globals, nosuchuser, truncate_reason}
use opennap.Account.{
  UserDb, Change, same, user_muzzled, db_muzzled, set_user_muzzled, set_db_muzzled, may_not_muzzle,
  set_muzzle, clear_muzzle, registered, is_absent, muzzle_target, msg_muzzle, is_unmuzzled,
}

-- The two records say the same.
abbrev pub Agree : Option User → Option UserDb → Type 0
Agree (some user) (some db) = user.muzzled ≡ db.muzzled
Agree (some user) none = user.muzzled ≡ false
Agree none db = Unit

Agree-set :
    (on : Bool) (user : Option User) (db : UserDb)
    → Agree (set_user_muzzled on user) (set_db_muzzled on (some db))
unfolding set_user_muzzled set_db_muzzled
Agree-set on none db = tt
Agree-set on (some user) db = refl

set_muzzle-Agree :
    (con : Connection) (tag : ℕ) (name : Bytes) (sender : Option User) (target why : Bytes)
    (user : Option User) (db : UserDb)
    → Agree user (some db)
    → Agree
        ((set_muzzle con tag name sender target why user (some db)).user)
        ((set_muzzle con tag name sender target why user (some db)).db)
unfolding set_muzzle
set_muzzle-Agree con tag name sender target why user db h =
    elim (Bool-cases (user_muzzled user || db_muzzled (some db))) [
      | inl e ↦ rw e h
      | inr e ↦ rw e (Agree-set true user db)
    ]

or_true : (a : Bool) → (a || true) ≡ true
or_true a = ground arith

clear_muzzle-Agree :
    (con : Connection) (tag : ℕ) (name : Bytes) (sender : Option User) (target why : Bytes)
    (user : Option User) (db : Option UserDb)
    → Agree user db
    → Agree
        ((clear_muzzle con tag name sender target why user db).user)
        ((clear_muzzle con tag name sender target why user db).db)
unfolding clear_muzzle
clear_muzzle-Agree con tag name sender target why user none h = rw (or_true (is_unmuzzled user)) h
clear_muzzle-Agree con tag name sender target why user (some db) h =
    elim (Bool-cases (is_unmuzzled user || not (db_muzzled (some db)))) [
      | inl e ↦ rw e h
      | inr e ↦ rw e (Agree-set false user db)
    ]

abbrev pub Agreed : Change → Type 0
Agreed c = Agree (c.user) (c.db)

Agreed-if : (t : Bool) (a b : Change) → Agreed a → Agreed b → Agreed (if t then a else b)
Agreed-if true a b h k = h
Agreed-if false a b h k = k

-- Where the table takes a new entry, both messages keep the records of their target in agreement
-- on whether the target is muzzled; a target with no entry counts as not muzzled.
pub muzzle_target-Agreed :
    (g : Globals) (con : Connection) (tag : ℕ) (name : Bytes) (sender : Option User)
    (target why : Bytes) (user : Option User) (db : Option UserDb)
    → Agree user db
    → Agreed (muzzle_target g true con tag name sender target why user db)
unfolding muzzle_target
muzzle_target-Agreed g con tag name sender target why user db h =
    Agreed-if (may_not_muzzle sender user db) _ _ h (by_records user db h)
  where
    by_records :
        (user : Option User) (db : Option UserDb)
        → Agree user db
        → Agreed (
            if is_absent user db
            then same user db (nosuchuser con)
            else if tag == msg_muzzle
            then set_muzzle con tag name sender target
                (truncate_reason g why)
                user
                (registered g true user db)
            else clear_muzzle con tag name sender target (truncate_reason g why) user db)
    by_records none none h = tt
    by_records none (some db) h =
        Agreed-if (tag == msg_muzzle) _ _ (set_muzzle-Agree con tag name sender target _ none db h)
          (clear_muzzle-Agree con tag name sender target _ none (some db) h)
    by_records (some user) (some db) h =
        Agreed-if (tag == msg_muzzle) _ _
          (set_muzzle-Agree con tag name sender target _ (some user) db h)
          (clear_muzzle-Agree con tag name sender target _ (some user) (some db) h)
    by_records (some user) none h =
        Agreed-if (tag == msg_muzzle) _ _
          (set_muzzle-Agree con tag name sender target _ (some user) _ h)
          (clear_muzzle-Agree con tag name sender target _ (some user) none h)

-- A target that is signed on, has an entry and is not muzzled is muzzled in both records by the
-- message 622 of a sender that is allowed to, and the message 623 of the same sender gives both
-- records back as they were.
unmuzzle-muzzle :
    (g : Globals) (con : Connection) (name : Bytes) (sender : Option User) (target why : Bytes)
    (user : User) (db : UserDb)
    → may_not_muzzle sender (some user) (some db) ≡ false
    → user.muzzled ≡ false
    → db.muzzled ≡ false
    → let muzzled_user : User = record user { muzzled = true } in
      let muzzled_db : UserDb = record db { muzzled = true } in
      ((muzzle_target g true con 622 name sender target why (some user) (some db)).user
        ≡ some muzzled_user)
      × ((muzzle_target g true con 622 name sender target why (some user) (some db)).db
          ≡ some muzzled_db)
      × ((muzzle_target g true con 623 name sender target why
            (some muzzled_user)
            (some muzzled_db)).user
          ≡ some user)
      × ((muzzle_target g true con 623 name sender target why
            (some muzzled_user)
            (some muzzled_db)).db
          ≡ some db)
unfolding muzzle_target set_muzzle clear_muzzle set_user_muzzled set_db_muzzled may_not_muzzle
unmuzzle-muzzle g con name none target why user db may u d = (
  rw (u, d) refl,
  rw (u, d) refl,
  ap (λ m. some (record user { muzzled = m })) (sym u),
  ap (λ m. some (record db { muzzled = m })) (sym d),
)
unmuzzle-muzzle g con name (some sender) target why user db may u d = (
  rw (may, u, d) refl,
  rw (may, u, d) refl,
  rw may (ap (λ m. some (record user { muzzled = m })) (sym u)),
  rw may (ap (λ m. some (record db { muzzled = m })) (sym d)),
)
