-- ===== src/Hotlist.antt =====
-- hotlist.c: who is told when a user signs on. A HOTLIST is a number, its address; so is a connection.
-- The two lists of pointers, from a hotlist to the connections that wait and from a connection to its
-- hotlists, stand in the store.
mod Counts
pub mod Mutual
pub mod Closing
pub mod Acts
use opennap.Base.{
  ℕ, suc, update, Bool, true, false, not, List, [], ◌∷◌, Option, none, some, ℤ, pos, negsuc, ◌==◌,
  if◌then◌else◌, ◌&&◌,
}
use opennap.Text.{Bytes}
use opennap.Hash.{HashTable, hash_add, hash_lookup, hash_remove}
use opennap.LinkedList.{list_count, list_delete, list_find}
use opennap.Server.{
  User, Connection, is_user, Value, text, number, Output, sent, Globals, is_over, invalid_nick,
  msg_nosuch,
}

pub record Hotlist : Type 0 where
  pub nick : Bytes
  pub users : List ℕ

-- `next` is the first address that has not been handed out.
pub record Store : Type 0 where
  pub table : HashTable ℕ
  pub hotlist : ℕ → Hotlist
  pub own : ℕ → List ℕ
  pub next : ℕ

pub record Answer : Type 0 where
  pub store : Store
  pub outputs : List Output

-- Which allocations succeed: of the hotlist, of its entry in the table, and of the two list nodes.
pub record Memory : Type 0 where
  pub object : Bool
  pub entry : Bool
  pub user_node : Bool
  pub own_node : Bool

abbrev pub only : Store → List Output → Answer
only s outputs' = record { store = s; outputs = outputs' }

-- `invalid_nick_msg`
abbrev pub invalid_nick_msg : Connection → List Output
invalid_nick_msg con = if is_user con then sent msg_nosuch "invalid nickname" [] ∷ [] else []

abbrev pub signon : Option User → List Output
signon none = []
signon (some user) = sent 209 "%s %d" (text (user.nick) ∷ number (user.speed) ∷ []) ∷ []

abbrev pub is_null : List ℕ → Bool
is_null [] = true
is_null (x ∷ l) = false

unfoldable pub wait_for : Store → ℕ → ℕ → Store
wait_for s c h = record s {
  hotlist = update (s.hotlist) h (record (s.hotlist h) { users = c ∷ (s.hotlist h).users });
}

unfoldable pub list_own : Store → ℕ → ℕ → Store
list_own s c h = record s { own = update (s.own) c (h ∷ s.own c) }

-- The handler from `list_find` on.
unfoldable pub enter : Globals → Memory → Store → ℕ → ℕ → Answer
unfolding wait_for list_own list_find
enter g mem s c h =
    if is_null (list_find ((s.hotlist h).users) c)
    then if mem.user_node
      then if mem.own_node
        then only (list_own (wait_for s c h) c h) (
            sent 301 "%s" (text ((s.hotlist h).nick) ∷ [])
            ∷ signon (hash_lookup (g.users) ((s.hotlist h).nick)))
        else only (wait_for s c h) []
      else only s []
    else only s []

abbrev pub new_hotlist : Store → Bytes → Store
new_hotlist s pkt = record s {
  hotlist = update (s.hotlist) (s.next) (record { nick = pkt; users = [] });
  next = suc (s.next);
}

abbrev pub with_table : Store → HashTable ℕ → Store
with_table s t = record s { table = t }

-- A hotlist that is not in the table is made and added.
unfoldable pub make_hotlist : Globals → Connection → Memory → Store → ℕ → Bytes → Answer
unfolding enter hash_add invalid_nick is_user
make_hotlist g con mem s c pkt =
    if invalid_nick g pkt
    then only s (invalid_nick_msg con)
    else if mem.object
    then if mem.entry
      then enter g mem (with_table (new_hotlist s pkt) (hash_add true (s.table) pkt (s.next)).1) c
          (s.next)
      else only s []
    else only s []

abbrev pub find_or_make : Globals → Connection → Memory → Store → ℕ → Bytes → Option ℕ → Answer
find_or_make g con mem s c pkt none = make_hotlist g con mem s c pkt
find_or_make g con mem s c pkt (some h) = enter g mem s c h

-- The notice is sent where the count is the limit, although it is greater here.
abbrev pub limit_notice : ℤ → ℕ → List Output
limit_notice (pos n) count =
    if count == n
    then sent msg_nosuch "hotlist is limited to %d entries" (number n ∷ []) ∷ []
    else []
limit_notice (negsuc n) count = []

unfoldable pub add_hotlist : Globals → ℤ → Connection → Memory → Store → ℕ → Bytes → Answer
unfolding is_user list_count is_over make_hotlist enter hash_lookup
add_hotlist g max_hotlist con mem s c pkt =
    if is_user con
    then if is_over max_hotlist (list_count (s.own c))
      then only s (limit_notice max_hotlist (list_count (s.own c)))
      else find_or_make g con mem s c pkt (hash_lookup (some (s.table)) pkt)
    else only s []

-- The two deletions.
unfoldable pub leave : Store → ℕ → ℕ → Store
unfolding list_delete
leave s c h = record s {
  hotlist =
      update (s.hotlist) h (record (s.hotlist h) { users = list_delete ((s.hotlist h).users) c });
  own = update (s.own) c (list_delete (s.own c) h);
}

-- A hotlist that nobody waits for is taken out of the table.
unfoldable pub drop_empty : Store → ℕ → Store
unfolding hash_remove
drop_empty s h =
    if is_null ((s.hotlist h).users)
    then with_table s (hash_remove (s.table) ((s.hotlist h).nick)).1
    else s

abbrev pub remove_found : Store → ℕ → Option ℕ → Answer
remove_found s c none = only s (sent msg_nosuch "user is not in your hotlist" [] ∷ [])
remove_found s c (some h) = only (drop_empty (leave s c h) h) []

unfoldable pub remove_hotlist : Connection → Store → ℕ → Bytes → Answer
unfolding is_user leave drop_empty hash_lookup
remove_hotlist con s c pkt =
    if is_user con then remove_found s c (hash_lookup (some (s.table)) pkt) else only s []
