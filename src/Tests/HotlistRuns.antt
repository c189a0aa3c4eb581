-- ===== src/Tests/HotlistRuns.antt =====
-- A user that waits for another, and no longer waits.
use opennap.Base.{ℕ, ◌<◌, sym, subst, refl, arith, true, false, All, [], ◌∷◌, none, pos}
use opennap.Text.{codes}
use opennap.Hash.{HashTable, hash_init}
use opennap.Hash.Laws.{hash_init_lem}
use opennap.LinkedList.Laws.{count}
use opennap.Server.{User, user_con, Globals}
use opennap.Hotlist.{Store, add_hotlist}
use opennap.Hotlist.Mutual.{IsMutual, all_ok, add_hotlist-IsMutual}
use opennap.Hotlist.Acts.{adding, removing, closing, acts, acts-IsMutual}

abbrev amy : User
amy = record {
  nick = codes "amy";
  level = 1;
  local = true;
  muzzled = false;
  cloaked = false;
  speed = 5;
  address = 1;
  shared = 0;
  host = codes "10.0.0.1";
  numerics = false;
}

abbrev globals : Globals
globals = record {
  users = none;
  servers = [];
  server_links = [];
  server_name = codes "hub";
  current_time = 100;
  max_reason = pos 64;
  max_nick_length = pos 19;
}

abbrev table : HashTable ℕ
table = record { bucket = [] ∷ [] ∷ [] ∷ []; numbuckets = 3; dbsize = 0; destroy = true }

abbrev no_hotlists : Store
no_hotlists = record {
  table = table;
  hotlist = λ h. record { nick = []; users = [] };
  own = λ c. [];
  next = 0;
}

no_hotlists-IsMutual : IsMutual no_hotlists
unfolding hash_init count
no_hotlists-IsMutual =
    let (valid, nothing) = hash_init_lem 3 true table (omega arith) refl in
    record {
      valid = valid;
      both = λ c h. refl;
      once = λ c h. omega arith;
      fresh = λ c h more. refl;
      known = λ k. subst (All (λ h. h < 0)) (sym (nothing k)) tt;
    }

abbrev pub waiting_for_bob : Store
waiting_for_bob =
    (add_hotlist globals (pos 32) (user_con amy) all_ok no_hotlists 7 (codes "bob")).store

pub waiting_for_bob-IsMutual : IsMutual waiting_for_bob
waiting_for_bob-IsMutual =
    add_hotlist-IsMutual globals (pos 32) (user_con amy) no_hotlists 7 (codes "bob")
      no_hotlists-IsMutual

acts-IsMutual_example : IsMutual (
    acts
      (adding globals (pos 32) (user_con amy) 7 (codes "bob")
        ∷ adding globals (pos 32) (user_con amy) 7 (codes "carl")
        ∷ removing (user_con amy) 7 (codes "BOB")
        ∷ closing 7
        ∷ [])
      no_hotlists)
acts-IsMutual_example =
    acts-IsMutual
      (adding globals (pos 32) (user_con amy) 7 (codes "bob")
        ∷ adding globals (pos 32) (user_con amy) 7 (codes "carl")
        ∷ removing (user_con amy) 7 (codes "BOB")
        ∷ closing 7
        ∷ [])
      no_hotlists no_hotlists-IsMutual
