-- ===== src/Tests/MessageRuns.antt =====
-- Messages about bans, muzzles and levels from concrete users.
use opennap.Base.{ℕ, ◌≡◌, ◌<◌, ◌⊎◌, refl, arith, true, false, List, [], ◌∷◌, none, some, pos}
use opennap.Text.{Bytes, codes, case_eq, to_lower, is_space}
use opennap.Hash.{HashTable, hash_lookup, find_entry, chain_of, hash_string, hash_step, hash_loop}
use opennap.Args.{split_line, split_template, skip_spaces, split_loop, split_at, is_delimiter}
use opennap.Server.{
  User, unknown_con, user_con, server_con, is_known, Globals, sent, any_bad, bad_char, is_over,
  invalid_nick, msg_nosuch,
}
use opennap.Server.Senders.{NamesNobody}
use opennap.Ban.{Ban, Reply, is_banned, normalize_ban, ban}
use opennap.Ban.Removal.{unban}
use opennap.Ban.Signon.{check_ban, expire_bans}
use opennap.Ban.Unique.{IsUnique, ban-IsUnique}
use opennap.Ban.Permission.{IsRefusal, bans_of, low_user-refused, unban-ban}
use opennap.Ban.Active.{First, None, catches, refused, check_ban-First, check_ban-expire_bans}
use opennap.Account.{UserDb, muzzle_target}
use opennap.Account.Muzzles.{Agreed, muzzle_target-Agreed}
use opennap.Account.Level.{
  level_target, above_own, is_self, may_not_change, change_level, with_stamp, set_db_level,
}
use opennap.Account.Levels.{Settles, level_guard, level_target-Settles}

abbrev user_of : Bytes → ℕ → User
user_of nick' level' = record {
  nick = nick';
  level = level';
  local = true;
  muzzled = false;
  cloaked = false;
  speed = 5;
  address = 1;
  shared = 0;
  host = codes "10.0.0.1";
  numerics = false;
}

abbrev db_of : Bytes → ℕ → UserDb
db_of nick' level' = record {
  nick = nick';
  level = level';
  timestamp = pos 5;
  muzzled = false;
  cloaked = false;
}

-- A moderator and a plain user.
abbrev ann : User
ann = user_of (codes "mod") 2

abbrev joe : User
joe = user_of (codes "joe") 1

abbrev one_bucket : {A : Type 0} → Bytes → A → HashTable A
one_bucket k d = record {
  bucket = (record { key = k; datum = d } ∷ []) ∷ [];
  numbuckets = 1;
  dbsize = 1;
  destroy = true;
}

abbrev globals : Globals
globals = record {
  users = some (one_bucket (codes "joe") joe);
  servers = [];
  server_links = [];
  server_name = codes "hub";
  current_time = 100;
  max_reason = pos 64;
  max_nick_length = pos 19;
}

abbrev ban_of : Bytes → ℕ → ℕ → Ban
ban_of mask when' timeout' = record {
  target = mask;
  setby = codes "mod";
  reason = [];
  when = when';
  timeout = timeout';
}

-- One ban for ever, one that has expired.
abbrev two_bans : List Ban
two_bans = ban_of (codes "*!1.2.3.*") 50 0 ∷ ban_of (codes "eve!*") 20 30 ∷ []

two_bans-IsUnique : IsUnique two_bans
unfolding IsUnique is_banned case_eq to_lower
two_bans-IsUnique = (refl, (refl, tt))

ban-IsUnique_example :
    (NamesNobody globals (user_con ann) (codes "EVE!* \"again\" 60")
      × (ban globals (user_con ann) two_bans true (codes "EVE!* \"again\" 60") ≡ none))
    ⊎ ((r : Reply) × (ban globals (user_con ann) two_bans true (codes "EVE!* \"again\" 60")
          ≡ some r)
        × IsUnique r.bans)
unfolding is_known
ban-IsUnique_example =
    ban-IsUnique globals (user_con ann) two_bans true (codes "EVE!* \"again\" 60") refl
      two_bans-IsUnique

low_user-refused_example :
    (ban globals (user_con joe) two_bans true (codes "mod")
      ≡ some (record { bans = two_bans; outputs = sent msg_nosuch "permission denied" [] ∷ [] }))
    × IsRefusal two_bans (unban globals (user_con joe) two_bans (codes "mod"))
low_user-refused_example = low_user-refused globals joe two_bans true (codes "mod") refl

unban-ban_example :
    (b : Ban) × (b.target ≡ codes "bob!*")
    × (bans_of (ban globals (user_con ann) two_bans true (codes "bob")) ≡ some (b ∷ two_bans))
    × (bans_of (unban globals (user_con ann) (b ∷ two_bans) (codes "bob")) ≡ some two_bans)
unfolding split_line split_template skip_spaces split_loop split_at is_space is_delimiter is_banned
    case_eq to_lower normalize_ban invalid_nick any_bad bad_char is_over
unban-ban_example = unban-ban globals ann two_bans (codes "bob") (codes "bob") refl refl refl refl

check_ban-First_example :
    (None (catches 100 (codes "amy!1.2.3.4")) two_bans
      × (check_ban globals unknown_con false two_bans (codes "amy") (codes "1.2.3.4")
          ≡ record { banned = false; destroy = false; outputs = [] }))
    ⊎ ((b : Ban) × First (catches 100 (codes "amy!1.2.3.4")) two_bans b
        × (check_ban globals unknown_con false two_bans (codes "amy") (codes "1.2.3.4")
            ≡ refused globals unknown_con false (codes "amy") (codes "1.2.3.4") b))
check_ban-First_example =
    check_ban-First globals unknown_con false two_bans (codes "amy") (codes "1.2.3.4")

check_ban-expire_bans_example :
    check_ban globals server_con false
      (expire_bans globals two_bans).bans
      (codes "eve")
      (codes "5.6.7.8")
    ≡ check_ban globals server_con false two_bans (codes "eve") (codes "5.6.7.8")
check_ban-expire_bans_example =
    check_ban-expire_bans globals server_con false two_bans (codes "eve") (codes "5.6.7.8")

muzzle_target-Agreed_example : Agreed (
    muzzle_target globals true
      (user_con ann)
      622
      (codes "mod")
      (some ann)
      (codes "joe")
      (codes "flood")
      (some joe)
      none)
muzzle_target-Agreed_example =
    muzzle_target-Agreed globals (user_con ann) 622 (codes "mod") (some ann) (codes "joe")
      (codes "flood") (some joe) none refl

abbrev joe_db : UserDb
joe_db = db_of (codes "joe") 1

-- The moderator makes the user a leech.
level_guard_example :
    (0 < 2) × ((is_self ann (hash_lookup (globals.users) (codes "joe")) ≡ true) ⊎ (1 < 2))
unfolding hash_lookup find_entry chain_of hash_string hash_step hash_loop case_eq to_lower
    level_target with_stamp change_level may_not_change above_own set_db_level
level_guard_example =
    level_guard globals (some (one_bucket (codes "joe") joe_db)) true ann 606 (codes "joe") 0 none
      joe_db (record joe_db { level = 0; timestamp = pos 100 }) refl refl refl (omega arith)

level_target-Settles_example : Settles (
    level_target globals true server_con 606
      (codes "hub")
      none
      1
      (some (codes "4"))
      (some ann)
      (some (db_of (codes "mod") 2)))
level_target-Settles_example =
    level_target-Settles globals true server_con 606 (codes "hub") none 1 (some (codes "4"))
      (some ann) (some (db_of (codes "mod") 2)) (refl, (λ low. refl), (λ low. refl))
