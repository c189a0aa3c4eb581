-- ===== src/Channels/Leaving.antt =====
-- part_channel.c, kick.c and serverlib.c: the invariant of the links when a member leaves a channel
-- and when a channel is destroyed.
use opennap.Base.{
  ℕ, ◌-◌, ◌<◌, ◌≡◌, refl, sym, ap, ◌∙◌, subst, inl, inr, Bool, true, false, ◌&&◌, List, [], ◌∷◌,
  arith, if◌then◌else◌, ◌==◌, Bool-cases, ==_iff, ==_refl, ℤ,
}
use opennap.Text.{Bytes, case_eq}
use opennap.Hash.{HashTable, hash_remove}
use opennap.Hash.Values.{head?, tail}
use opennap.Hash.Laws.{IsValid, view, view_congr, hash_remove_lem, removal}
use opennap.LinkedList.Laws.{count, count-list_delete}
use opennap.Server.{User}
use opennap.Channels.{
  Member, Chats, Told, addresses, null_list, put, destroy_channel, free_channel, free_all, freed,
  with_table,
}
use opennap.Channels.Part.{channel_remove, part_channel, unlist}
use opennap.Channels.Links.{OneEntry, IsLinked, Linked-if, put-IsLinked, addresses-channel_remove}

abbrev pub without : Chats → ℕ → User → Chats
without s c user =
    let chan = s.channel c in
    put (unlist s c user) c (record chan { users = channel_remove (chan.users) user })

pub left-IsLinked : (s : Chats) (c : ℕ) (user : User) → IsLinked s → IsLinked (without s c user)
unfolding unlist
left-IsLinked s c user k = record {
  valid = k.valid;
  both = λ u d. members_of u d ∙ ap (λ (n : ℕ). n - one u d) (k.both u d) ∙ sym (joined_of u d);
  once = λ u d. let j = joined_of u d in let before = k.once u d in grind arith;
  fresh = λ u d more. let j = joined_of u d in let before = k.fresh u d more in grind arith;
  entry = λ name. entry_of name (k.entry name);
  listed = λ u d joined.
      ap (view (s.table)) (name_of d) ∙ k.listed u d (let j = joined_of u d in omega arith);
}
  where
    s' : Chats
    s' = without s c user

    one : ℕ → ℕ → ℕ
    one u d = if (d == c) && (u == user.address) then 1 else 0

    members_of :
        (u d : ℕ)
        → count u (addresses ((s'.channel d).users))
          ≡ count u (addresses ((s.channel d).users)) - one u d
    members_of u d = elim (Bool-cases (d == c)) [
      | inl e ↦
          rw ((==_iff d c).0 e, ==_refl c, addresses-channel_remove ((s.channel c).users) user)
            (ground (arith, count-list_delete (addresses ((s.channel c).users)) (user.address) u))
      | inr e ↦ rw e (omega arith)
    ]

    joined_of : (u d : ℕ) → count d (s'.joined u) ≡ count d (s.joined u) - one u d
    joined_of u d = elim (Bool-cases (u == user.address)) [
      | inl e ↦
          rw ((==_iff u (user.address)).0 e, ==_refl (user.address))
            (ground (arith, count-list_delete (s.joined (user.address)) c d))
      | inr e ↦ rw e (ground arith)
    ]

    name_of : (d : ℕ) → (s'.channel d).name ≡ (s.channel d).name
    name_of d = elim (Bool-cases (d == c)) [
      | inl e ↦ rw ((==_iff d c).0 e, ==_refl c) refl
      | inr e ↦ rw e
    ]

    entry_of : (name : Bytes) → OneEntry s name → OneEntry s' name
    entry_of name (inl e) = inl e
    entry_of name (inr (d, e, same, less)) = inr (d, e, ap (case_eq name) (name_of d) ∙ same, less)

-- A channel with no members.
abbrev pub IsEmpty : Chats → ℕ → Type 0
IsEmpty s c = (s.channel c).users ≡ []

free_channel-IsLinked : (s : Chats) (c : ℕ) → IsEmpty s c → IsLinked s → IsLinked (free_channel s c)
unfolding free_channel
free_channel-IsLinked s c empty k =
    let p = put-IsLinked s c (freed (s.channel c)) refl (sym (ap addresses empty)) k in
    record {
      valid = p.valid;
      both = p.both;
      once = p.once;
      fresh = p.fresh;
      entry = p.entry;
      listed = p.listed;
    }

module _ (s : Chats) (c : ℕ) (empty : IsEmpty s c) (k : IsLinked s) where
  abbrev name : Bytes
  name = (s.channel c).name

  nobody : (u : ℕ) → count c (s.joined u) ≡ 0
  nobody u = sym (k.both u c) ∙ unfold count in ap (λ l. count u (addresses l)) empty

  unnamed-IsLinked :
      (t : HashTable ℕ)
      → view (s.table) name ≡ c ∷ []
      → IsValid t
      → ((q : Bytes)
          → view t q ≡ (if case_eq q name then tail (view (s.table) q) else view (s.table) q))
      → IsLinked (with_table s t)
  unnamed-IsLinked t here valid' views = record {
    valid = valid';
    both = k.both;
    once = k.once;
    fresh = k.fresh;
    entry = λ q. elim (Bool-cases (case_eq q name)) [
      | inl e ↦ inl (views q ∙ rw (e, view_congr (s.table) q name e, here) refl)
      | inr e ↦ other q e (k.entry q)
    ];
    listed = λ u d joined. elim (Bool-cases (case_eq ((s.channel d).name) name)) [
      | inl e ↦ absurd (omega (arith, gone u d e joined))
      | inr e ↦ views ((s.channel d).name) ∙ rw e (k.listed u d joined)
    ];
  }
    where
      other : (q : Bytes) → case_eq q name ≡ false → OneEntry s q → OneEntry (with_table s t) q
      other q e (inl nothing) = inl (views q ∙ rw e nothing)
      other q e (inr (d, one, same, less)) = inr (d, views q ∙ rw e one, same, less)

      same_channel : (d e : ℕ) → d ∷ [] ≡ e ∷ [] → d ≡ e
      same_channel d e h = cc

      gone :
          (u d : ℕ)
          → case_eq ((s.channel d).name) name ≡ true
          → 0 < count d (s.joined u)
          → count d (s.joined u) ≡ 0
      gone u d e joined =
          rw
            (same_channel d c
              (sym (k.listed u d joined) ∙ view_congr (s.table) ((s.channel d).name) name e ∙ here))
            (nobody u)

  pub destroy_channel-IsLinked : view (s.table) name ≡ c ∷ [] → IsLinked (destroy_channel s name)
  unfolding destroy_channel
  destroy_channel-IsLinked here =
      let (result, valid', views) = hash_remove_lem (s.table) name (k.valid) in
      let t = (hash_remove (s.table) name).1 in
      subst (λ l. IsLinked (free_all (with_table s t) l))
        (sym (ap (λ (r : ℤ × List ℕ). r.1) result ∙ ap (λ l. (removal (s.table) (head? l)).1) here))
        (freeing (s.table.destroy) t (unnamed-IsLinked t here valid' views))
    where
      freeing :
          (b : Bool) (t : HashTable ℕ)
          → IsLinked (with_table s t)
          → IsLinked (free_all (with_table s t) (if b then c ∷ [] else []))
      freeing true t p = free_channel-IsLinked (with_table s t) c empty p
      freeing false t p = p

pub null_list→[] : (l : List Member) → null_list l ≡ true → l ≡ []
null_list→[] [] e = refl
null_list→[] (m ∷ l) e = cc

-- `part_channel` of a member whose list of channels has lost the channel.
pub part_channel-IsLinked :
    (s : Chats) (c : ℕ) (user : User)
    → view (s.table) ((s.channel c).name) ≡ c ∷ []
    → IsLinked s
    → IsLinked (part_channel (unlist s c user) c user).chats
unfolding part_channel unlist
part_channel-IsLinked s c user here k =
    let rest = channel_remove ((s.channel c).users) user in
    let left = left-IsLinked s c user k in
    Linked-if (null_list rest) _ _
      (λ e.
        Linked-if ((s.channel c).user_made) _ _
          (λ u.
            subst (λ n. IsLinked (destroy_channel (without s c user) n)) same_name
              (destroy_channel-IsLinked (without s c user) c (same_users ∙ null_list→[] rest e) left
                (ap (view (s.table)) same_name ∙ here)))
          (λ u. left))
      (λ e. left)
  where
    same_name : ((without s c user).channel c).name ≡ (s.channel c).name
    same_name = rw (==_refl c) refl

    same_users : ((without s c user).channel c).users ≡ channel_remove ((s.channel c).users) user
    same_users = rw (==_refl c) refl

free_all-IsEmpty : (s : Chats) (l : List ℕ) (c : ℕ) → IsEmpty s c → IsEmpty (free_all s l) c
free_all-IsEmpty s [] c empty = empty
free_all-IsEmpty s (d ∷ l) c empty =
    free_all-IsEmpty (free_channel s d) l c
      (unfold free_channel in elim (Bool-cases (c == d)) [ inl e ↦ rw e | inr e ↦ rw e empty ])

destroy_channel-IsEmpty :
    (s : Chats) (name : Bytes) (c : ℕ) → IsEmpty s c → IsEmpty (destroy_channel s name) c
unfolding destroy_channel
destroy_channel-IsEmpty s name c empty =
    let (result, t, gone) = hash_remove (s.table) name in
    free_all-IsEmpty (with_table s t) gone c empty

abbrev HasUsers : ℕ → List Member → Told → Type 0
HasUsers c l t = ((t.chats).channel c).users ≡ l

HasUsers-if :
    (c : ℕ) (l : List Member) (b : Bool) (x y : Told)
    → (b ≡ true → HasUsers c l x)
    → (b ≡ false → HasUsers c l y)
    → HasUsers c l (if b then x else y)
HasUsers-if c l true x y h k = h refl
HasUsers-if c l false x y h k = k refl

-- The members that stay when a member leaves, whether the channel is destroyed or not.
pub part_channel-channel_remove :
    (s : Chats) (c : ℕ) (user : User)
    → ((part_channel (unlist s c user) c user).chats.channel c).users
      ≡ channel_remove ((s.channel c).users) user
unfolding part_channel unlist
part_channel-channel_remove s c user =
    let rest = channel_remove ((s.channel c).users) user in
    let stays : ((without s c user).channel c).users ≡ rest = rw (==_refl c) refl in
    HasUsers-if c rest (null_list rest) _ _
      (λ e.
        HasUsers-if c rest ((s.channel c).user_made) _ _
          (λ u.
            destroy_channel-IsEmpty (without s c user) ((s.channel c).name) c
              (stays ∙ null_list→[] rest e)
            ∙ sym (null_list→[] rest e))
          (λ u. stays))
      (λ e. stays)
