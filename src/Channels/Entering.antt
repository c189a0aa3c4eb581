-- ===== src/Channels/Entering.antt =====
-- join.c: the whole message that joins, and the invariant of the links.
use opennap.Base.{ℕ, zero, suc, ◌≡◌, true, List, [], ◌∷◌, Option, none, some}
use opennap.Text.{Bytes}
use opennap.Server.{User, Connection, Globals, Output}
use opennap.Channels.{Chats, Settings, tell}
use opennap.Channels.Names.{channel_name}
use opennap.Channels.Join.{
  Memory, Round, left, try_again, overrun, entering, join_round, enter_channel, join_loop, refusal,
  join_user, join,
}
use opennap.Channels.Links.{IsLinked, LinkedResult, with_user-Linked}
use opennap.Channels.Joining.{RoundReady, join_round-RoundReady, enter-Linked}

join_loop-Linked :
    (fuel : ℕ) (g : Globals) (cfg : Settings) (mem : Memory) (scratch : ℕ) (con : Connection)
    (tag : ℕ) (s : Chats) (user : User) (name : Bytes)
    → mem.entry ≡ true
    → IsLinked s
    → LinkedResult (join_loop fuel g cfg mem scratch con tag s user name)
unfolding join_loop
join_loop-Linked zero g cfg mem scratch con tag s user name entry k = tt
join_loop-Linked (suc fuel) g cfg mem scratch con tag s user name entry k =
    by_round (join_round g cfg mem scratch con s user name)
      (join_round-RoundReady g cfg mem scratch con s user name entry k)
      (λ other. join_loop-Linked fuel g cfg mem scratch con tag s user other entry k)
  where
    by_round :
        (r : Round)
        → RoundReady user r
        → ((other : Bytes) → LinkedResult (join_loop fuel g cfg mem scratch con tag s user other))
        → LinkedResult (elim r [
          | left outputs' ↦ some (tell s outputs')
          | try_again other ↦ join_loop fuel g cfg mem scratch con tag s user other
          | overrun ↦ none
          | entering s' c chanop ↦ some (enter_channel g mem con tag user s' c chanop)
        ])
    by_round (left outputs) ready more = k
    by_round (try_again other) ready more = more other
    by_round overrun ready more = tt
    by_round (entering s' c op) ready more = enter-Linked g mem con tag user s' c op ready

-- Where the entry of a new channel can be allocated, the message 400 keeps the links of members
-- and channels, whatever else cannot be allocated.
pub join-Linked :
    (fuel : ℕ) (g : Globals) (cfg : Settings) (mem : Memory) (scratch : ℕ) (con : Connection)
    (tag : ℕ) (pkt : Bytes) (s : Chats)
    → mem.entry ≡ true
    → IsLinked s
    → LinkedResult (join fuel g cfg mem scratch con tag pkt s)
unfolding join join_user
join-Linked fuel g cfg mem scratch con tag pkt s entry k =
    with_user-Linked g con pkt s _ k by_packet
  where
    by_refusal :
        (user : User) (name : Bytes) (o : Option (List Output))
        → LinkedResult (elim o [
          | some outputs' ↦ some (tell s outputs')
          | none ↦ join_loop fuel g cfg mem scratch con tag s user name
        ])
    by_refusal user name (some outputs) = k
    by_refusal user name none = join_loop-Linked fuel g cfg mem scratch con tag s user name entry k

    by_packet :
        (user : User) (rest : Option Bytes)
        → LinkedResult (join_user fuel g cfg mem scratch con tag s user rest)
    by_packet user none = k
    by_packet user (some []) = k
    by_packet user (some (c ∷ rest)) =
        by_refusal user (channel_name (c ∷ rest)) (refusal cfg con s user)
