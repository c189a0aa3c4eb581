-- ===== src/Channels/Forgetting.antt =====
-- free_user.c, client_quit.c and remove_connection.c: what is left of a user who has gone.
use opennap.Base.{
  ℕ, ◌≡◌, refl, sym, ap, ◌∙◌, subst, Bool, true, false, List, [], ◌∷◌, Option, none, some,
  if◌then◌else◌, ==_refl,
}
use opennap.Text.{Bytes}
use opennap.Hash.{HashTable, chain_of, find_entry, hash_lookup, hash_remove}
use opennap.LinkedList.Laws.{count}
use opennap.Server.{User, Connection, unknown_con, user_con, server_con, Globals}
use opennap.Hotlist.{Store}
use opennap.Hotlist.Mutual.{IsMutual}
use opennap.Hotlist.Closing.{close_waiting-IsMutual}
use opennap.Channels.{Chats, addresses}
use opennap.Channels.Links.{IsLinked}
use opennap.Channels.Departures.{leave_chats-Linked}
use opennap.Channels.Quit.{
  World, Gone, leave_chats, forget, free_user, free_users, remove_from, remove_nick, quit_found,
  client_quit, close_waiting, remove_user,
}

abbrev pub WorldLinked : World → Type 0
WorldLinked w = IsLinked (w.chats)

abbrev pub LinkedAfter : Globals × Gone → Type 0
LinkedAfter (g, a) = WorldLinked (a.world)

pub free_users-Linked :
    (g : Globals) (l : List User) (w : World)
    → WorldLinked w
    → WorldLinked ((free_users g l w).world)
unfolding free_users free_user
free_users-Linked g [] w k = k
free_users-Linked g (user ∷ l) w k =
    free_users-Linked g l ((free_user g user w).world) (leave_chats-Linked user (w.chats) k)

pub remove_nick-Linked :
    (g : Globals) (nick : Bytes) (w : World) → WorldLinked w → LinkedAfter (remove_nick g nick w)
unfolding remove_nick
remove_nick-Linked g nick w k = by_table (g.users)
  where
    by_table : (o : Option (HashTable User)) → LinkedAfter (remove_from g nick w o)
    by_table none = k
    by_table (some table) =
        let (result, t, out) = hash_remove table nick in free_users-Linked g out w k

pub client_quit-Linked :
    (g : Globals) (con : Connection) (tag : ℕ) (pkt : Bytes) (w : World)
    → WorldLinked w
    → LinkedAfter (client_quit g con tag pkt w)
unfolding client_quit
client_quit-Linked g unknown_con tag pkt w k = k
client_quit-Linked g (user_con u) tag pkt w k = k
client_quit-Linked g server_con tag pkt w k = by_user (hash_lookup (g.users) pkt)
  where
    after_if :
        (b : Bool) (x y : Globals × Gone)
        → LinkedAfter x
        → LinkedAfter y
        → LinkedAfter (if b then x else y)
    after_if true x y h k = h
    after_if false x y h k = k

    by_user : (o : Option User) → LinkedAfter (quit_found g tag w o)
    by_user none = k
    by_user (some user) = after_if (user.local) _ _ k (remove_nick-Linked g (user.nick) w k)

-- No channel has the user as a member.
abbrev pub NoMember : ℕ → Chats → Type 0
NoMember user s = (c : ℕ) → count user (addresses ((s.channel c).users)) ≡ 0

-- The connection waits in no hotlist.
abbrev pub NotWaiting : ℕ → Store → Type 0
NotWaiting con h = (hotlist : ℕ) → count con ((h.hotlist hotlist).users) ≡ 0

leave_chats-NoMember :
    (user : User) (s : Chats) → IsLinked s → NoMember (user.address) (leave_chats user s).chats
leave_chats-NoMember user s k c =
    (leave_chats-Linked user s k).both (user.address) c ∙ unfold count in ap (count c) none_joined
  where
    none_joined : (leave_chats user s).chats.joined (user.address) ≡ []
    none_joined = unfold leave_chats in unfold forget in rw (==_refl (user.address)) refl

close_waiting-NotWaiting : (con : ℕ) (h : Store) → IsMutual h → NotWaiting con (close_waiting con h)
close_waiting-NotWaiting con h m hotlist =
    (close_waiting-IsMutual con h m).both con hotlist ∙ unfold count in ap (count hotlist) none_own
  where
    none_own : (close_waiting con h).own con ≡ []
    none_own = unfold close_waiting in rw (==_refl con) refl

hash_remove-destroyed :
    (t : HashTable User) (nick : Bytes) (user : User)
    → hash_lookup (some t) nick ≡ some user
    → t.destroy ≡ true
    → (hash_remove t nick).2 ≡ user ∷ []
unfolding hash_remove hash_lookup
hash_remove-destroyed t nick user found destroys =
    let f : find_entry nick (chain_of t nick) ≡ some user = found in
    rw (f, hash_remove, destroys) refl

-- The user alone is freed.
abbrev Freed : User → World → Gone → Type 0
Freed user w a =
    (a.world.chats ≡ (leave_chats user (w.chats)).chats) × (a.world.hotlists ≡ w.hotlists)

remove_nick-Freed :
    (g : Globals) (t : HashTable User) (user : User) (w : World)
    → g.users ≡ some t
    → hash_lookup (some t) (user.nick) ≡ some user
    → t.destroy ≡ true
    → Freed user w (remove_nick g (user.nick) w).1
unfolding remove_nick free_users free_user
remove_nick-Freed g t user w e found destroys =
    subst (λ o. Freed user w (remove_from g (user.nick) w o).1) (sym e)
      (subst (λ l. Freed user w (free_users g l w))
        (sym (hash_remove-destroyed t (user.nick) user found destroys)) (refl, refl))

-- A user of this server whose connection is closed, and whose record the table has under its nick, is
-- a member of no channel any more, and the connection waits in no hotlist. The pointers between
-- members and channels, and between hotlists and connections, still go both ways. The table of the
-- users calls its destructor.
pub remove_user-Forgets :
    (g : Globals) (t : HashTable User) (con : ℕ) (user : User) (w : World)
    → g.users ≡ some t
    → hash_lookup (some t) (user.nick) ≡ some user
    → t.destroy ≡ true
    → IsLinked (w.chats)
    → IsMutual (w.hotlists)
    → let w' = (remove_user g con user w).1.world in
      NoMember (user.address) (w'.chats)
      × NotWaiting con (w'.hotlists)
      × IsLinked (w'.chats)
      × IsMutual (w'.hotlists)
unfolding remove_user
remove_user-Forgets g t con user w e found destroys k m =
    let (chats', hotlists') = remove_nick-Freed g t user w e found destroys in
    (
      subst (NoMember (user.address)) (sym chats') (leave_chats-NoMember user (w.chats) k),
      subst (λ h. NotWaiting con (close_waiting con h)) (sym hotlists')
          (close_waiting-NotWaiting con (w.hotlists) m),
      subst IsLinked (sym chats') (leave_chats-Linked user (w.chats) k),
      subst (λ h. IsMutual (close_waiting con h)) (sym hotlists')
          (close_waiting-IsMutual con (w.hotlists) m),
    )
