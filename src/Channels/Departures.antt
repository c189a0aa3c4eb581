-- ===== src/Channels/Departures.antt =====
-- free_user.c, client_quit.c and remove_connection.c: the invariant of the links when a user goes.
use opennap.Base.{
  ℕ, ◌<◌, ◌≡◌, refl, sym, ap, ◌∙◌, subst, inl, inr, Bool, true, false, List, [], ◌∷◌, arith,
  if◌then◌else◌, ◌==◌, Bool-cases, ==_iff, ==_refl, update, fun_ext,
}
use opennap.Text.{Bytes}
use opennap.Hash.{hash_remove}
use opennap.LinkedList.{list_delete}
use opennap.LinkedList.Laws.{count}
use opennap.Server.{User}
use opennap.Channels.{
  Member, Chats, Told, tell, null_list, destroy_channel, free_channel, free_all, put, with_table,
}
use opennap.Channels.Part.{channel_remove, part_channel, parted, unlist}
use opennap.Channels.Links.{IsLinked, Linked, put-IsLinked}
use opennap.Channels.Leaving.{part_channel-IsLinked}
use opennap.Channels.Quit.{part_all, withdraw, withdraw_all, forget, leave_chats}

abbrev rejoin : Chats → (ℕ → List ℕ) → Chats
rejoin s j = record s { joined = j }

free_all-rejoin :
    (l : List ℕ) (s : Chats) (j : ℕ → List ℕ) → free_all (rejoin s j) l ≡ rejoin (free_all s l) j
unfolding free_channel
free_all-rejoin [] s j = refl
free_all-rejoin (c ∷ l) s j = free_all-rejoin l (free_channel s c) j

destroy_channel-rejoin :
    (s : Chats) (name : Bytes) (j : ℕ → List ℕ)
    → destroy_channel (rejoin s j) name ≡ rejoin (destroy_channel s name) j
unfolding destroy_channel
destroy_channel-rejoin s name j =
    let (result, t, out) = hash_remove (s.table) name in free_all-rejoin out (with_table s t) j

-- `part_channel` does not read the lists of channels of the users.
part_channel-rejoin :
    (s : Chats) (c : ℕ) (user : User) (j : ℕ → List ℕ)
    → (part_channel (rejoin s j) c user).chats ≡ rejoin ((part_channel s c user).chats) j
unfolding part_channel
part_channel-rejoin s c user j = by_rest (null_list rest)
  where
    rest : List Member
    rest = channel_remove ((s.channel c).users) user

    left : Chats
    left = put s c (record (s.channel c) { users = rest })

    destroyed : Chats → Told
    destroyed t = tell (destroy_channel t ((s.channel c).name)) []

    by_made :
        (b : Bool)
        → (if b then destroyed (rejoin left j) else tell (rejoin left j) []).chats
          ≡ rejoin ((if b then destroyed left else tell left []).chats) j
    by_made true = destroy_channel-rejoin left ((s.channel c).name) j
    by_made false = refl

    made : Chats → Told
    made t = if (s.channel c).user_made then destroyed t else tell t []

    by_rest :
        (b : Bool)
        → (if b
            then made (rejoin left j)
            else tell (rejoin left j) (parted (s.channel c) user rest)).chats
          ≡ rejoin ((if b then made left else tell left (parted (s.channel c) user rest)).chats) j
    by_rest true = by_made ((s.channel c).user_made)
    by_rest false = refl

part_channel-joined :
    (s : Chats) (c : ℕ) (user : User) → (part_channel s c user).chats.joined ≡ s.joined
part_channel-joined s c user =
    ap (λ (t : Chats). t.joined) (part_channel-rejoin s c user (s.joined))

part_all-joined :
    (user : User) (l : List ℕ) (s : Chats) → (part_all user l s).chats.joined ≡ s.joined
unfolding part_all
part_all-joined user [] s = refl
part_all-joined user (c ∷ l) s =
    part_all-joined user l ((part_channel s c user).chats) ∙ part_channel-joined s c user

same_joined : (j : ℕ → List ℕ) (u : ℕ) → update j u (j u) ≡ j
same_joined j u = fun_ext (λ x. elim (Bool-cases (x == u)) [
  | inl e ↦ rw ((==_iff x u).0 e, ==_refl u) refl
  | inr e ↦ rw e refl
])

unlisted :
    (s : Chats) (j : ℕ → List ℕ) (user : User) (c : ℕ) (l : List ℕ)
    → unlist (rejoin s (update j (user.address) (c ∷ l))) c user
      ≡ rejoin s (update j (user.address) l)
unfolding unlist list_delete
unlisted s j user c l = ap (rejoin s) (
    fun_ext (λ x. elim (Bool-cases (x == user.address)) [
      | inl e ↦ rw (e, ==_refl (user.address), ==_refl c) refl
      | inr e ↦ rw e refl
    ]))

-- The loop over the channels, whose list is the part that is still to be seen.
part_all-IsLinked :
    (user : User) (l : List ℕ) (s : Chats) (j : ℕ → List ℕ)
    → IsLinked (rejoin s (update j (user.address) l))
    → IsLinked (rejoin ((part_all user l s).chats) (update j (user.address) []))
unfolding part_all count
part_all-IsLinked user [] s j k = k
part_all-IsLinked user (c ∷ l) s j k = part_all-IsLinked user l ((part_channel s c user).chats) j (
    subst IsLinked
      (ap (λ (t : Chats). (part_channel t c user).chats) (unlisted s j user c l)
        ∙ part_channel-rejoin s c user (update j (user.address) l))
      (part_channel-IsLinked _ c user (k.listed (user.address) c there) k))
  where
    there : 0 < count c (update j (user.address) (c ∷ l) (user.address))
    there = rw (==_refl (user.address), ==_refl c) (omega arith)

withdraw_all-IsLinked :
    (user : User) (l : List ℕ) (s : Chats) → IsLinked s → IsLinked (withdraw_all user l s)
unfolding withdraw_all
withdraw_all-IsLinked user [] s k = k
withdraw_all-IsLinked user (c ∷ l) s k =
    withdraw_all-IsLinked user l (withdraw s user c) (put-IsLinked s c _ refl refl k)

withdraw_all-rejoin :
    (user : User) (l : List ℕ) (s : Chats) (j : ℕ → List ℕ)
    → withdraw_all user l (rejoin s j) ≡ rejoin (withdraw_all user l s) j
unfolding withdraw_all
withdraw_all-rejoin user [] s j = refl
withdraw_all-rejoin user (c ∷ l) s j = withdraw_all-rejoin user l (withdraw s user c) j

-- The channels behind a user who has gone.
pub leave_chats-Linked : (user : User) (s : Chats) → IsLinked s → Linked (leave_chats user s)
unfolding leave_chats forget
leave_chats-Linked user s k = record {
  valid = left.valid;
  both = left.both;
  once = left.once;
  fresh = left.fresh;
  entry = left.entry;
  listed = left.listed;
}
  where
    a : ℕ
    a = user.address

    s' : Chats
    s' = (part_all user (s.joined a) s).chats

    w : Chats
    w = withdraw_all user (s'.invitations a) s'

    w_joined : w.joined ≡ s.joined
    w_joined =
        ap (λ (t : Chats). t.joined) (withdraw_all-rejoin user (s'.invitations a) s' (s'.joined))
        ∙ part_all-joined user (s.joined a) s

    parted_all : IsLinked (rejoin s' (update (s.joined) a []))
    parted_all =
        part_all-IsLinked user (s.joined a) s (s.joined)
          (subst (λ j. IsLinked (rejoin s j)) (sym (same_joined (s.joined) a)) k)

    left : IsLinked (rejoin w (update (w.joined) a []))
    left =
        subst (λ j. IsLinked (rejoin w (update j a []))) (sym w_joined)
          (subst IsLinked (withdraw_all-rejoin user (s'.invitations a) s' (update (s.joined) a []))
            (withdraw_all-IsLinked user (s'.invitations a) _ parted_all))
