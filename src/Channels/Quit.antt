-- ===== src/Channels/Quit.antt =====
-- free_user.c, client_quit.c and `remove_user` of remove_connection.c: the users who go.
-- `hash_remove (Users, nick)` calls `free_user`.
use opennap.Base.{
  ℕ, ◌+◌, ◌-◌, Bool, true, ◌&&◌, not, List, [], ◌∷◌, ◌++◌, Option, none, some, leb, if◌then◌else◌,
  ℤ, pos, negsuc, update,
}
use opennap.Text.{Bytes}
use opennap.Hash.{HashTable, hash_lookup, hash_remove}
use opennap.LinkedList.{list_delete}
use opennap.Server.{
  User, Connection, unknown_con, user_con, server_con, text, Output, passed, Globals,
}
use opennap.Hotlist.{Store, drop_empty}
use opennap.Channels.{Chats, Told, tell, null_list, put}
use opennap.Channels.Part.{part_channel, after}

abbrev pub msg_client_quit : ℕ
msg_client_quit = 10000

-- `n -= m`.
abbrev pub minus : ℤ → ℕ → ℤ
minus (pos n) m = if leb m n then pos (n - m) else negsuc (m - n - 1)
minus (negsuc n) m = negsuc (n + m)

-- `dbs` is the table `User_Db` of the addresses of its entries, `last_seen` the field `lastSeen` of
-- the entry with an address. `libsize`, and `killed` of the connection, are fields of the user with an
-- address. The three numbers are counted in files, and in kB.
pub record World : Type 0 where
  pub chats : Chats
  pub hotlists : Store
  pub dbs : HashTable ℕ
  pub last_seen : ℕ → ℕ
  pub libsize : ℕ → ℕ
  pub killed : ℕ → Bool
  pub num_files : ℤ
  pub num_gigs : ℤ
  pub local_files : ℤ

-- `signed_off` are the connections that a MSG_SERVER_USER_SIGNOFF is sent to, each with the nick.
pub record Gone : Type 0 where
  pub world : World
  pub outputs : List Output
  pub signed_off : List (ℕ × Bytes)

abbrev pub gone : World → List Output → List (ℕ × Bytes) → Gone
gone w outputs' signed_off' = record { world = w; outputs = outputs'; signed_off = signed_off' }

-- The loop over `user->channels`.
unfoldable pub part_all : User → List ℕ → Chats → Told
unfolding part_channel
part_all user [] s = tell s []
part_all user (c ∷ l) s =
    let t = part_channel s c user in after (t.outputs) (part_all user l (t.chats))

-- `chan->invited = list_delete (chan->invited, user)`
abbrev pub withdraw : Chats → User → ℕ → Chats
withdraw s user c =
    let chan = s.channel c in
    put s c (record chan { invited = list_delete (chan.invited) (user.address) })

-- The loop over `user->invited`.
unfoldable pub withdraw_all : User → List ℕ → Chats → Chats
unfolding list_delete
withdraw_all user [] s = s
withdraw_all user (c ∷ l) s = withdraw_all user l (withdraw s user c)

-- The record of the user goes with its lists.
unfoldable pub forget : User → Chats → Chats
forget user s = record s {
  joined = update (s.joined) (user.address) [];
  invitations = update (s.invitations) (user.address) [];
}

abbrev pub told_off : Store → Bytes → Option ℕ → List (ℕ × Bytes)
told_off h nick none = []
told_off h nick (some hotlist) = each ((h.hotlist hotlist).users)
  where
    each : List ℕ → List (ℕ × Bytes)
    each [] = []
    each (con ∷ l) = (con, nick) ∷ each l

abbrev pub logged_off : ℕ → (ℕ → ℕ) → Option ℕ → ℕ → ℕ
logged_off now last_seen' none = last_seen'
logged_off now last_seen' (some db) = update last_seen' db now

-- The channels behind `free_user`, with what their members are sent.
unfoldable pub leave_chats : User → Chats → Told
unfolding part_all withdraw_all forget
leave_chats user s =
    let t = part_all user (s.joined (user.address)) s in
    let s' = t.chats in
    tell (forget user (withdraw_all user (s'.invitations (user.address)) s')) (t.outputs)

unfoldable pub free_user : Globals → User → World → Gone
unfolding leave_chats hash_lookup
free_user g user w =
    let t = leave_chats user (w.chats) in
    gone
      (record w {
        chats = t.chats;
        num_files = minus (w.num_files) (user.shared);
        num_gigs = minus (w.num_gigs) (w.libsize (user.address));
        local_files = if user.local then minus (w.local_files) (user.shared) else w.local_files;
        last_seen =
            logged_off (g.current_time) (w.last_seen) (hash_lookup (some (w.dbs)) (user.nick));
      })
      ((if user.local && (not (null_list (g.servers)) && not (w.killed (user.address)))
          then passed true msg_client_quit "%s" (text (user.nick) ∷ []) ∷ []
          else [])
        ++ t.outputs)
      (told_off (w.hotlists) (user.nick) (hash_lookup (some (w.hotlists.table)) (user.nick)))

abbrev pub both_gone : Gone → Gone → Gone
both_gone a b = gone (b.world) (a.outputs ++ b.outputs) (a.signed_off ++ b.signed_off)

-- The calls of the destructor.
unfoldable pub free_users : Globals → List User → World → Gone
unfolding free_user
free_users g [] w = gone w [] []
free_users g (user ∷ l) w =
    let first = free_user g user w in both_gone first (free_users g l (first.world))

abbrev pub with_users : Globals → HashTable User → Globals
with_users g t = record g { users = some t }

abbrev pub remove_from : Globals → Bytes → World → Option (HashTable User) → Globals × Gone
remove_from g nick w none = (g, gone w [] [])
remove_from g nick w (some table) =
    let (result, t, out) = hash_remove table nick in (with_users g t, free_users g out w)

-- `hash_remove (Users, nick)`
unfoldable pub remove_nick : Globals → Bytes → World → Globals × Gone
unfolding free_users hash_remove
remove_nick g nick w = remove_from g nick w (g.users)

abbrev pub announced : ℕ → Bytes → Globals × Gone → Globals × Gone
announced tag nick (g, a) =
    (g, gone (a.world) (passed true tag "%s" (text nick ∷ []) ∷ a.outputs) (a.signed_off))

-- `user->local` is set where the connection is of class CLASS_USER.
abbrev pub quit_found : Globals → ℕ → World → Option User → Globals × Gone
quit_found g tag w none = (g, gone w [] [])
quit_found g tag w (some user) =
    if user.local
    then (g, gone w [] [])
    else announced tag (user.nick) (remove_nick g (user.nick) w)

-- The message 10000.
unfoldable pub client_quit : Globals → Connection → ℕ → Bytes → World → Globals × Gone
unfolding remove_nick hash_lookup
client_quit g unknown_con tag pkt w = (g, gone w [] [])
client_quit g (user_con u) tag pkt w = (g, gone w [] [])
client_quit g server_con tag pkt w = quit_found g tag w (hash_lookup (g.users) pkt)

-- `hotlist->users = list_delete (hotlist->users, con)`
unfoldable pub stop_waiting : ℕ → Store → ℕ → Store
unfolding list_delete
stop_waiting con s h = record s {
  hotlist =
      update (s.hotlist) h (record (s.hotlist h) { users = list_delete ((s.hotlist h).users) con });
}

-- The loop over `con->uopt->hotlist`.
unfoldable pub close_hotlists : ℕ → List ℕ → Store → Store
unfolding stop_waiting drop_empty
close_hotlists con [] s = s
close_hotlists con (h ∷ l) s = close_hotlists con l (drop_empty (stop_waiting con s h) h)

-- The list of hotlists of the connection goes.
unfoldable pub close_waiting : ℕ → Store → Store
unfolding close_hotlists
close_waiting con s =
    let closed = close_hotlists con (s.own con) s in
    record closed { own = update (closed.own) con [] }

abbrev pub closed : ℕ → Globals × Gone → Globals × Gone
closed con (g, a) =
    let w = a.world in
    (g, gone (record w { hotlists = close_waiting con (w.hotlists) }) (a.outputs) (a.signed_off))

-- `user` is the one of the connection. Its other options go with it.
unfoldable pub remove_user : Globals → ℕ → User → World → Globals × Gone
unfolding remove_nick close_waiting
remove_user g con user w = closed con (remove_nick g (user.nick) w)
