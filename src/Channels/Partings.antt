-- ===== src/Channels/Partings.antt =====
-- part.c and kick.c: the messages by which members leave, and the invariant of the links.
use opennap.Base.{
  ℕ, ◌≤◌, ◌<◌, ◌≡◌, refl, inl, inr, ◌&&◌, ◌||◌, not, ltb, List, [], ◌∷◌, Option, none, some, arith,
  Bool-cases, ==_refl,
}
use opennap.Text.{Bytes}
use opennap.Hash.{hash_lookup}
use opennap.Args.{next_arg, split_line}
use opennap.LinkedList.Laws.{count, count-list_delete}
use opennap.Server.{User, Connection, Globals}
use opennap.Channels.{Member, Chats, addresses, has, find, find_channel, same_user}
use opennap.Channels.Part.{
  part_channel, unlist, part_found, part_sent, part, kick_out, kick_target, kick_from, kick_fields,
  kick_sent, kick, can_kick, clear_members, clear_from, clear_arg, clear_channel, cut_reason,
}
use opennap.Channels.Links.{
  IsLinked, Linked, Linked-if, LinkedResult, with_user-Linked, on_channel-Linked, has-count,
  addresses-channel_remove,
}
use opennap.Channels.Leaving.{part_channel-IsLinked, part_channel-channel_remove}

-- What `find_channel` finds is in the list.
pub find_channel-count :
    (s : Chats) (l : List ℕ) (name : Bytes) (c : ℕ) → find_channel s l name ≡ some c → 0 < count c l
unfolding find_channel count
find_channel-count s [] name c e = cc
find_channel-count s (d ∷ l) name c e = ground (arith, find_channel-count s l name c)

part_found-Linked :
    (con : Connection) (tag : ℕ) (user : User) (s : Chats) (o : Option ℕ)
    → ((c : ℕ) → o ≡ some c → 0 < count c (s.joined (user.address)))
    → IsLinked s
    → Linked (part_found con tag user s o)
part_found-Linked con tag user s none joined k = k
part_found-Linked con tag user s (some c) joined k =
    part_channel-IsLinked s c user (k.listed (user.address) c (joined c refl)) k

part_sent-Linked :
    (con : Connection) (tag : ℕ) (s : Chats) (user : User) (pkt : Option Bytes)
    → IsLinked s
    → LinkedResult (part_sent con tag s user pkt)
part_sent-Linked con tag s user none k = k
part_sent-Linked con tag s user (some pkt) k =
    part_found-Linked con tag user s _
      (λ c e. find_channel-count s (s.joined (user.address)) pkt c e) k

pub part-Linked :
    (g : Globals) (con : Connection) (tag : ℕ) (pkt : Bytes) (s : Chats)
    → IsLinked s
    → LinkedResult (part g con tag pkt s)
unfolding part
part-Linked g con tag pkt s k =
    with_user-Linked g con pkt s _ k (λ user rest. part_sent-Linked con tag s user rest k)

kick_target-Linked :
    (con : Connection) (tag : ℕ) (s : Chats) (c : ℕ) (sender : User) (why : Option Bytes)
    (o : Option User)
    → IsLinked s
    → Linked (kick_target con tag s c sender why o)
unfolding kick_out
kick_target-Linked con tag s c sender why none k = k
kick_target-Linked con tag s c sender why (some user) k =
    Linked-if (ltb (sender.level) ((s.channel c).level) || not (can_kick (s.channel c) sender user))
      _ _ (λ e. k)
      (λ e.
        Linked-if (has (s.joined (user.address)) c) _ _
          (λ there.
            part_channel-IsLinked s c user
              (k.listed (user.address) c
                (let h = has-count (s.joined (user.address)) c in ground arith))
              k)
          (λ absent. k))

kick_fields-Linked :
    (g : Globals) (con : Connection) (tag : ℕ) (s : Chats) (sender : User) (l : Option (List Bytes))
    → IsLinked s
    → Linked (kick_fields g con tag s sender l)
unfolding kick_from
kick_fields-Linked g con tag s sender none k = k
kick_fields-Linked g con tag s sender (some []) k = k
kick_fields-Linked g con tag s sender (some (name ∷ [])) k = k
kick_fields-Linked g con tag s sender (some (name ∷ nick ∷ l)) k =
    on_channel-Linked con s _ (find s name) k (λ c e.
      Linked-if (has (s.joined (sender.address)) c) _ _
        (λ there.
          kick_target-Linked con tag s c sender (cut_reason g l) (hash_lookup (g.users) nick) k)
        (λ absent. k))

pub kick-Linked :
    (g : Globals) (con : Connection) (tag : ℕ) (pkt : Bytes) (s : Chats)
    → IsLinked s
    → LinkedResult (kick g con tag pkt s)
unfolding kick
kick-Linked g con tag pkt s k =
    with_user-Linked g con pkt s _ k (λ sender rest. by_packet sender rest)
  where
    by_packet :
        (sender : User) (rest : Option Bytes) → LinkedResult (kick_sent g con tag s sender rest)
    by_packet sender none = tt
    by_packet sender (some rest) = kick_fields-Linked g con tag s sender (split_line 3 rest) k

-- The members that the loop still has to see are members of the channel as it is.
abbrev StillMembers : List Member → Chats → ℕ → Type 0
StillMembers l s c = (u : ℕ) → count u (addresses l) ≤ count u (addresses ((s.channel c).users))

still_members :
    (m : Member) (l : List Member) (s : Chats) (c : ℕ)
    → StillMembers (m ∷ l) s c
    → StillMembers l ((part_channel (unlist s c (m.user)) c (m.user)).chats) c
unfolding count
still_members m l s c h u =
    rw
      (
        part_channel-channel_remove s c (m.user),
        addresses-channel_remove ((s.channel c).users) (m.user),
      )
      (let d = count-list_delete (addresses ((s.channel c).users)) (m.user.address) u in
        let hu = h u in ground arith)

pub clear_members-Linked :
    (c : ℕ) (sender : User) (why : Bytes) (l : List Member) (s : Chats)
    → StillMembers l s c
    → IsLinked s
    → Linked (clear_members c sender why l s)
unfolding clear_members count
clear_members-Linked c sender why [] s h k = k
clear_members-Linked c sender why (m ∷ l) s h k =
    elim (Bool-cases (not (same_user (m.user) sender) && can_kick (s.channel c) sender (m.user))) [
      | inr e ↦ rw e (clear_members-Linked c sender why l s (λ u. let hu = h u in omega arith) k)
      | inl e ↦ rw e (
          clear_members-Linked c sender why l
            ((part_channel (unlist s c (m.user)) c (m.user)).chats) (still_members m l s c h)
            (part_channel-IsLinked s c (m.user) (k.listed (m.user.address) c there) k))
    ]
  where
    there : 0 < count c (s.joined (m.user.address))
    there =
        let b = k.both (m.user.address) c in
        let hu = h (m.user.address) in let self = ==_refl (m.user.address) in ground arith

pub clear_channel-Linked :
    (g : Globals) (con : Connection) (tag : ℕ) (pkt : Bytes) (s : Chats)
    → IsLinked s
    → LinkedResult (clear_channel g con tag pkt s)
unfolding clear_channel
clear_channel-Linked g con tag pkt s k =
    with_user-Linked g con pkt s _ k (λ sender rest. by_arg sender (next_arg rest))
  where
    by_arg :
        (sender : User) (a : Option Bytes × Option Bytes) → Linked (clear_arg g con tag s sender a)
    by_arg sender (none, why) = k
    by_arg sender (some name, why) = on_channel-Linked con s _ (find s name) k (λ c e.
        unfold clear_from in
        Linked-if (ltb (sender.level) ((s.channel c).level)) _ _ (λ low. k)
          (λ high. clear_members-Linked c sender _ ((s.channel c).users) s (λ u. omega arith) k))
