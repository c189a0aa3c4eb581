-- ===== src/Hotlist/Mutual.antt =====
-- hotlist.c: the invariant of the pointers between hotlists and connections, and its messages.
use opennap.Base.{
  ℕ, suc, ◌+◌, ◌-◌, ◌≤◌, ◌<◌, ◌≡◌, sym, ap, ◌∙◌, subst, Bool, true, false, ◌&&◌, List, [], ◌∷◌,
  Option, none, some, arith, if◌then◌else◌, ◌==◌, Bool-cases, inl, inr, All, ℤ, ==_iff,
}
use opennap.Text.{Bytes, case_eq}
use opennap.Hash.{hash_add, hash_lookup}
use opennap.Hash.Values.{head?, tail}
use opennap.Hash.Laws.{IsValid, view, hash_add_lem, hash_lookup_lem, hash_remove_lem}
use opennap.LinkedList.{list_find, list_count}
use opennap.LinkedList.Laws.{count}
use opennap.Server.{Connection, Globals, is_user, is_over, invalid_nick}
use opennap.Hotlist.Counts.{count_wait, count_own, count_left_user, count_left_own, count-not_found}
use opennap.Hotlist.{
  Store, Memory, wait_for, list_own, enter, is_null, make_hotlist, new_hotlist, with_table,
  find_or_make, add_hotlist, leave, drop_empty, remove_found, remove_hotlist,
}

-- A connection waits in a hotlist as often as the hotlist is in the list of the connection, which is
-- at most once; addresses that have not been handed out are in no list and not in the table.
pub record IsMutual (s : Store) : Type 0 where
  pub valid : IsValid (s.table)
  pub both : (c h : ℕ) → count c ((s.hotlist h).users) ≡ count h (s.own c)
  pub once : (c h : ℕ) → count h (s.own c) ≤ 1
  pub fresh : (c h : ℕ) → s.next ≤ h → count h (s.own c) ≡ 0
  pub known : (k : Bytes) → All (λ h. h < s.next) (view (s.table) k)

abbrev pub all_ok : Memory
all_ok = record { object = true; entry = true; user_node = true; own_node = true }

-- A connection that does not wait in the hotlist yet is entered on both sides.
entered-IsMutual :
    (s : Store) (c h : ℕ)
    → h < s.next
    → count c ((s.hotlist h).users) ≡ 0
    → IsMutual s
    → IsMutual (list_own (wait_for s c h) c h)
unfolding wait_for list_own
entered-IsMutual s c h lt new m = record {
  valid = m.valid;
  both = λ d j.
      count_wait s c h d j
      ∙ ap (λ n. (if (j == h) && (c == d) then 1 else 0) + n) (m.both d j)
      ∙ sym (count_own (wait_for s c h) c h d j);
  once = λ d j.
      let own = count_own (wait_for s c h) c h d j in
      let before = m.once d j in let absent = sym (m.both c h) ∙ new in grind arith;
  fresh = λ d j more.
      let own = count_own (wait_for s c h) c h d j in let before = m.fresh d j more in grind arith;
  known = m.known;
}

enter-IsMutual :
    (g : Globals) (s : Store) (c h : ℕ)
    → h < s.next
    → IsMutual s
    → IsMutual ((enter g all_ok s c h).store)
unfolding enter
enter-IsMutual g s c h lt m = elim (Bool-cases (is_null (list_find ((s.hotlist h).users) c))) [
  | inr e ↦ rw e m
  | inl e ↦ rw e (entered-IsMutual s c h lt (count-not_found ((s.hotlist h).users) c e) m)
]

pub leave-IsMutual : (s : Store) (c h : ℕ) → IsMutual s → IsMutual (leave s c h)
unfolding leave
leave-IsMutual s c h m = record {
  valid = m.valid;
  both = λ d j.
      count_left_user s c h d j
      ∙ ap (λ n. n - (if (j == h) && (c == d) then 1 else 0)) (m.both d j)
      ∙ sym (count_left_own s c h d j);
  once = λ d j. let own = count_left_own s c h d j in let before = m.once d j in grind arith;
  fresh = λ d j more.
      let own = count_left_own s c h d j in let before = m.fresh d j more in grind arith;
  known = m.known;
}

All-tail : (n : ℕ) (l : List ℕ) → All (λ h. h < n) l → All (λ h. h < n) (tail l)
All-tail n [] a = tt
All-tail n (x ∷ l) a = a.1

All-head : (n h : ℕ) (l : List ℕ) → All (λ x. x < n) l → head? l ≡ some h → h < n
All-head n h [] a e = cc
All-head n h (x ∷ l) a e = ground (arith, a.0)

All-suc : (n : ℕ) (l : List ℕ) → All (λ h. h < n) l → All (λ h. h < suc n) l
All-suc n [] a = tt
All-suc n (x ∷ l) a = let lt = a.0 in (omega arith, All-suc n l a.1)

pub drop_empty-IsMutual : (s : Store) (h : ℕ) → IsMutual s → IsMutual (drop_empty s h)
unfolding drop_empty
drop_empty-IsMutual s h m = elim (Bool-cases (is_null ((s.hotlist h).users))) [
  | inr e ↦ rw e m
  | inl e ↦ rw e (record {
    valid = (hash_remove_lem (s.table) ((s.hotlist h).nick) (m.valid)).1;
    both = m.both;
    once = m.once;
    fresh = m.fresh;
    known = λ k.
        subst (All (λ x. x < s.next))
          (sym ((hash_remove_lem (s.table) ((s.hotlist h).nick) (m.valid)).2 k))
          (either (case_eq k ((s.hotlist h).nick)) k);
  })
]
  where
    either :
        (b : Bool) (k : Bytes)
        → All (λ x. x < s.next) (if b then tail (view (s.table) k) else view (s.table) k)
    either true k = All-tail (s.next) (view (s.table) k) (m.known k)
    either false k = m.known k

count-new :
    (s : Store) (pkt : Bytes)
    → IsMutual s
    → (c h : ℕ) → count c (((new_hotlist s pkt).hotlist h).users) ≡ count h (s.own c)
unfolding count
count-new s pkt m c h = elim (Bool-cases (h == s.next)) [
  | inl e ↦ let q = (==_iff h (s.next)).0 e in rw e (sym (m.fresh c h (omega arith)))
  | inr e ↦ rw e (m.both c h)
]

added-IsMutual :
    (s : Store) (pkt : Bytes)
    → IsMutual s
    → IsMutual (with_table (new_hotlist s pkt) (hash_add true (s.table) pkt (s.next)).1)
added-IsMutual s pkt m = record {
  valid = (hash_add_lem (s.table) pkt (s.next) (m.valid)).1;
  both = count-new s pkt m;
  once = m.once;
  fresh = λ c h more. m.fresh c h (omega arith);
  known = λ k.
      subst (All (λ x. x < suc (s.next)))
        (sym ((hash_add_lem (s.table) pkt (s.next) (m.valid)).2 k)) (either (case_eq k pkt) k);
}
  where
    either :
        (b : Bool) (k : Bytes)
        → All (λ x. x < suc (s.next)) (if b then s.next ∷ view (s.table) k else view (s.table) k)
    either true k = (omega arith, All-suc (s.next) (view (s.table) k) (m.known k))
    either false k = All-suc (s.next) (view (s.table) k) (m.known k)

make_hotlist-IsMutual :
    (g : Globals) (con : Connection) (s : Store) (c : ℕ) (pkt : Bytes)
    → IsMutual s
    → IsMutual ((make_hotlist g con all_ok s c pkt).store)
unfolding make_hotlist
make_hotlist-IsMutual g con s c pkt m = elim (Bool-cases (invalid_nick g pkt)) [
  | inl e ↦ rw e m
  | inr e ↦ rw e (
      enter-IsMutual g (with_table (new_hotlist s pkt) (hash_add true (s.table) pkt (s.next)).1) c
        (s.next) (omega arith) (added-IsMutual s pkt m))
]

find_or_make-IsMutual :
    (g : Globals) (con : Connection) (s : Store) (c : ℕ) (pkt : Bytes) (o : Option ℕ)
    → head? (view (s.table) pkt) ≡ o
    → IsMutual s
    → IsMutual ((find_or_make g con all_ok s c pkt o).store)
find_or_make-IsMutual g con s c pkt none e m = make_hotlist-IsMutual g con s c pkt m
find_or_make-IsMutual g con s c pkt (some h) e m =
    enter-IsMutual g s c h (All-head (s.next) h (view (s.table) pkt) (m.known pkt) e) m

-- Where every allocation succeeds, the messages 207 and 208 keep the pointers between hotlists and
-- connections going both ways, each at most once.
pub add_hotlist-IsMutual :
    (g : Globals) (max_hotlist : ℤ) (con : Connection) (s : Store) (c : ℕ) (pkt : Bytes)
    → IsMutual s
    → IsMutual ((add_hotlist g max_hotlist con all_ok s c pkt).store)
unfolding add_hotlist
add_hotlist-IsMutual g max_hotlist con s c pkt m = elim (Bool-cases (is_user con)) [
  | inr e ↦ rw e m
  | inl e ↦ elim (Bool-cases (is_over max_hotlist (list_count (s.own c)))) [
    | inl over ↦ rw (e, over) m
    | inr below ↦
        rw (e, below)
          (find_or_make-IsMutual g con s c pkt (hash_lookup (some (s.table)) pkt)
            (sym (hash_lookup_lem (s.table) pkt)) m)
  ]
]

remove_found-IsMutual :
    (s : Store) (c : ℕ) (o : Option ℕ) → IsMutual s → IsMutual ((remove_found s c o).store)
remove_found-IsMutual s c none m = m
remove_found-IsMutual s c (some h) m = drop_empty-IsMutual (leave s c h) h (leave-IsMutual s c h m)

-- The message 303 keeps the pointers between hotlists and connections going both ways, each at
-- most once.
pub remove_hotlist-IsMutual :
    (con : Connection) (s : Store) (c : ℕ) (pkt : Bytes)
    → IsMutual s
    → IsMutual ((remove_hotlist con s c pkt).store)
unfolding remove_hotlist
remove_hotlist-IsMutual con s c pkt m = elim (Bool-cases (is_user con)) [
  | inr e ↦ rw e m
  | inl e ↦ rw e (remove_found-IsMutual s c (hash_lookup (some (s.table)) pkt) m)
]
