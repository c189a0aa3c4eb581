-- ===== src/Channels/Links.antt =====
-- The channels of users and the members of channels: the invariant of the two lists and the table,
-- and the writes that keep it.
use opennap.Base.{
  ℕ, ◌+◌, ◌≤◌, ◌<◌, ◌≡◌, refl, sym, ap, ◌∙◌, subst, ◌⊎◌, inl, inr, Bool, true, false, ◌&&◌, ltb,
  List, [], ◌∷◌, Option, none, some, arith, if◌then◌else◌, ◌==◌, Bool-cases, ==_iff, ==_refl,
  update,
}
use opennap.Text.{Bytes, case_eq}
use opennap.Hash.Values.{head?}
use opennap.Hash.Laws.{IsValid, view, view_congr, hash_lookup_lem}
use opennap.LinkedList.{list_delete, list_find}
use opennap.LinkedList.Laws.{count}
use opennap.Server.{
  User, Connection, Globals, Popped, failed, null_user, popped, pop_user, pop_user_server,
}
use opennap.Channels.{
  Member, Channel, Chats, Told, addresses, change_member, has, find, put, with_user, with_sender,
  on_channel, sender_popped, source_popped,
}
use opennap.Channels.Part.{channel_remove}
use opennap.Channels.Join.{list_joined, list_member}

-- At most one channel stands under a name, and that is its own name but for case.
abbrev pub OneEntry : Chats → Bytes → Type 0
OneEntry s k =
    (view (s.table) k ≡ [])
    ⊎ ((c : ℕ) × (view (s.table) k ≡ c ∷ [])
        × (case_eq k ((s.channel c).name) ≡ true)
        × (c < s.next))

-- A user is a member of a channel as often as the channel is in the list of the user, which is at
-- most once. A channel that a user has joined is the one that the table has under its name. Addresses
-- that have not been handed out are in no list.
pub record IsLinked (s : Chats) : Type 0 where
  pub valid : IsValid (s.table)
  pub both : (u c : ℕ) → count u (addresses ((s.channel c).users)) ≡ count c (s.joined u)
  pub once : (u c : ℕ) → count c (s.joined u) ≤ 1
  pub fresh : (u c : ℕ) → s.next ≤ c → count c (s.joined u) ≡ 0
  pub entry : (k : Bytes) → OneEntry s k
  pub listed : (u c : ℕ) → 0 < count c (s.joined u) → view (s.table) ((s.channel c).name) ≡ c ∷ []

abbrev pub Linked : Told → Type 0
Linked t = IsLinked (t.chats)

pub Linked-if :
    (b : Bool) (x y : Told)
    → (b ≡ true → Linked x)
    → (b ≡ false → Linked y)
    → Linked (if b then x else y)
Linked-if true x y h k = h refl
Linked-if false x y h k = k refl

pub addresses-channel_remove :
    (l : List Member) (user : User)
    → addresses (channel_remove l user) ≡ list_delete (addresses l) (user.address)
unfolding channel_remove list_delete
addresses-channel_remove [] user = refl
addresses-channel_remove (m ∷ l) user = ground (arith, addresses-channel_remove l user)

pub addresses-change_member :
    (f : Member → Member) (l : List Member) (user : User)
    → ((m : Member) → (f m).user ≡ m.user)
    → addresses (change_member f l user) ≡ addresses l
unfolding change_member
addresses-change_member f [] user h = refl
addresses-change_member f (m ∷ l) user h = elim (Bool-cases (m.user.address == user.address)) [
  | inl e ↦ rw e (ap (λ (u : User). u.address ∷ addresses l) (h m))
  | inr e ↦ rw e (ap (◌∷◌ (m.user.address)) (addresses-change_member f l user h))
]

-- A list that is written at one address.
pub count-update :
    (l : ℕ → List ℕ) (a x d : ℕ) (v : List ℕ)
    → count d (update l a v x) ≡ (if x == a then count d v else count d (l x))
count-update l a x d v = ground arith

pub has-count : (l : List ℕ) (d : ℕ) → has l d ≡ ltb 0 (count d l)
unfolding list_find count
has-count [] d = refl
has-count (p ∷ l) d = ground (arith, has-count l d)

-- A write to a channel that leaves its name and the users of its members as they are.
pub put-IsLinked :
    (s : Chats) (c : ℕ) (chan : Channel)
    → chan.name ≡ (s.channel c).name
    → addresses (chan.users) ≡ addresses ((s.channel c).users)
    → IsLinked s
    → IsLinked (put s c chan)
put-IsLinked s c chan same_name same_users k = record {
  valid = k.valid;
  both = λ u d. ap (count u) (users_of d) ∙ k.both u d;
  once = k.once;
  fresh = k.fresh;
  entry = λ name. entry_of name (k.entry name);
  listed = λ u d joined. ap (view (s.table)) (name_of d) ∙ k.listed u d joined;
}
  where
    name_of : (d : ℕ) → ((put s c chan).channel d).name ≡ (s.channel d).name
    name_of d = elim (Bool-cases (d == c)) [
      | inl e ↦ rw ((==_iff d c).0 e, ==_refl c) same_name
      | inr e ↦ rw e
    ]

    users_of :
        (d : ℕ) → addresses (((put s c chan).channel d).users) ≡ addresses ((s.channel d).users)
    users_of d = elim (Bool-cases (d == c)) [
      | inl e ↦ rw ((==_iff d c).0 e, ==_refl c) same_users
      | inr e ↦ rw e
    ]

    entry_of : (name : Bytes) → OneEntry s name → OneEntry (put s c chan) name
    entry_of name (inl e) = inl e
    entry_of name (inr (d, e, same, lt)) = inr (d, e, ap (case_eq name) (name_of d) ∙ same, lt)

pub entered-IsLinked :
    (s : Chats) (c : ℕ) (user : User) (op : Bool)
    → c < s.next
    → count c (s.joined (user.address)) ≡ 0
    → view (s.table) ((s.channel c).name) ≡ c ∷ []
    → IsLinked s
    → IsLinked (list_member (list_joined s c user) c user op)
unfolding list_member list_joined
entered-IsLinked s c user op lt new here k = record {
  valid = k.valid;
  both = λ u d. members_of u d ∙ ap (λ (n : ℕ). one u d + n) (k.both u d) ∙ sym (joined_of u d);
  once = λ u d. let j = joined_of u d in let before = k.once u d in grind arith;
  fresh = λ u d more. let j = joined_of u d in let before = k.fresh u d more in grind arith;
  entry = λ name. entry_of name (k.entry name);
  listed = λ u d joined. ap (view (s.table)) (name_of d) ∙ listed_of u d joined;
}
  where
    s' : Chats
    s' = list_member (list_joined s c user) c user op

    one : ℕ → ℕ → ℕ
    one u d = if (d == c) && (user.address == u) then 1 else 0

    members_of :
        (u d : ℕ)
        → count u (addresses ((s'.channel d).users))
          ≡ one u d + count u (addresses ((s.channel d).users))
    members_of u d =
        unfold count in
        elim (Bool-cases (d == c)) [
          | inl e ↦ rw ((==_iff d c).0 e, ==_refl c) refl
          | inr e ↦ rw e (omega arith)
        ]

    joined_of : (u d : ℕ) → count d (s'.joined u) ≡ one u d + count d (s.joined u)
    joined_of u d =
        unfold count in
        elim (Bool-cases (u == user.address)) [
          | inl e ↦ rw ((==_iff u (user.address)).0 e, ==_refl (user.address)) (ground arith)
          | inr e ↦ rw e (ground arith)
        ]

    name_of : (d : ℕ) → (s'.channel d).name ≡ (s.channel d).name
    name_of d = elim (Bool-cases (d == c)) [
      | inl e ↦ rw ((==_iff d c).0 e, ==_refl c) refl
      | inr e ↦ rw e
    ]

    entry_of : (name : Bytes) → OneEntry s name → OneEntry s' name
    entry_of name (inl e) = inl e
    entry_of name (inr (d, e, same, less)) = inr (d, e, ap (case_eq name) (name_of d) ∙ same, less)

    listed_of : (u d : ℕ) → 0 < count d (s'.joined u) → view (s.table) ((s.channel d).name) ≡ d ∷ []
    listed_of u d joined = elim (Bool-cases (d == c)) [
      | inl e ↦ rw ((==_iff d c).0 e) here
      | inr e ↦ k.listed u d (let j = joined_of u d in ground arith)
    ]

-- What a handler leaves, unless it read through a null pointer.
abbrev pub LinkedResult : Option Told → Type 0
LinkedResult none = Unit
LinkedResult (some t) = Linked t

pub LinkedResult-if :
    (b : Bool) (x y : Option Told)
    → LinkedResult x
    → LinkedResult y
    → LinkedResult (if b then x else y)
LinkedResult-if true x y h k = h
LinkedResult-if false x y h k = k

pub with_user-Linked :
    (g : Globals) (con : Connection) (pkt : Bytes) (s : Chats)
    (k : User → Option Bytes → Option Told)
    → IsLinked s
    → ((user : User) (rest : Option Bytes) → LinkedResult (k user rest))
    → LinkedResult (with_user g con pkt s k)
with_user-Linked g con pkt s k h keeps = by_popped (pop_user g con pkt)
  where
    by_popped : (p : Popped) → LinkedResult (sender_popped s k p)
    by_popped failed = h
    by_popped null_user = tt
    by_popped (popped nick none rest) = tt
    by_popped (popped nick (some user) rest) = keeps user rest

pub with_sender-Linked :
    (g : Globals) (con : Connection) (pkt : Bytes) (s : Chats)
    (k : Bytes → Option User → Option Bytes → Option Told)
    → IsLinked s
    → ((nick : Bytes) (user : Option User) (rest : Option Bytes) → LinkedResult (k nick user rest))
    → LinkedResult (with_sender g con pkt s k)
with_sender-Linked g con pkt s k h keeps = by_popped (pop_user_server g con pkt)
  where
    by_popped : (p : Popped) → LinkedResult (source_popped s k p)
    by_popped failed = h
    by_popped null_user = tt
    by_popped (popped nick user rest) = keeps nick user rest

pub on_channel-Linked :
    (con : Connection) (s : Chats) (k : ℕ → Told) (o : Option ℕ)
    → IsLinked s
    → ((c : ℕ) → o ≡ some c → Linked (k c))
    → Linked (on_channel con s k o)
on_channel-Linked con s k none h keeps = h
on_channel-Linked con s k (some c) h keeps = keeps c refl

-- A channel that the table has under a name is the one under its own name.
pub find_lem :
    (s : Chats) (name : Bytes) (c : ℕ)
    → IsLinked s
    → find s name ≡ some c
    → (view (s.table) ((s.channel c).name) ≡ c ∷ []) × (c < s.next)
find_lem s name c k e = by_entry (k.entry name)
  where
    head_is : head? (view (s.table) name) ≡ some c
    head_is = sym (hash_lookup_lem (s.table) name) ∙ e

    by_entry : OneEntry s name → (view (s.table) ((s.channel c).name) ≡ c ∷ []) × (c < s.next)
    by_entry (inl nothing) = let h = sym (ap head? nothing) ∙ head_is in cc
    by_entry (inr (d, one, same, lt)) =
        let h = sym (ap head? one) ∙ head_is in
        let d_is_c : d ≡ c = cc in
        (
          sym (
                view_congr (s.table) name ((s.channel c).name)
                  (subst (λ x. case_eq name ((s.channel x).name) ≡ true) d_is_c same))
              ∙ one
              ∙ ap (λ x. x ∷ []) d_is_c,
          subst (λ x. x < s.next) d_is_c lt,
        )
