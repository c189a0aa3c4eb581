-- ===== src/Tests/QuitRuns.antt =====
-- A user on a channel who waits for another, and whose connection is closed.
use opennap.Base.{◌≡◌, refl, true, false, some, pos, [], ◌∷◌}
use opennap.Text.{codes}
use opennap.Hash.{HashTable, hash_add, hash_lookup, hash_remove}
use opennap.Server.{User, Globals, server_con, text, number, sent_to, pop_user}
use opennap.Hotlist.{add_hotlist}
use opennap.Hotlist.Mutual.{IsMutual}
use opennap.Channels.{addresses}
use opennap.Channels.Join.{join}
use opennap.Channels.Links.{IsLinked}
use opennap.Channels.Quit.{World, remove_user, client_quit}
use opennap.Channels.Forgetting.{NoMember, NotWaiting, remove_user-Forgets}
use opennap.Channels.Reach.{handle}
use opennap.Tests.ChannelRuns.{amy, globals, table, bob_joins, bob_joins-IsLinked}
use opennap.Tests.HotlistRuns.{waiting_for_bob, waiting_for_bob-IsMutual}

abbrev users_of_amy : HashTable User
users_of_amy =
    (hash_add true (record { bucket = [] ∷ [] ∷ []; numbuckets = 2; dbsize = 0; destroy = true })
      (codes "amy") amy).1

abbrev with_amy : Globals
with_amy = record globals { users = some users_of_amy }

abbrev world : World
world = record {
  chats = bob_joins;
  hotlists = waiting_for_bob;
  dbs = table;
  last_seen = λ db. 0;
  libsize = λ u. 0;
  killed = λ u. false;
  num_files = pos 0;
  num_gigs = pos 0;
  local_files = pos 0;
}

abbrev amy_gone : World
amy_gone = (remove_user with_amy 7 amy world).1.world

bob_stays :
    (addresses ((bob_joins.channel 0).users) ≡ 2 ∷ 1 ∷ [])
    × (addresses ((amy_gone.chats.channel 0).users) ≡ 2 ∷ [])
    × ((waiting_for_bob.hotlist 0).users ≡ 7 ∷ [])
    × ((amy_gone.hotlists.hotlist 0).users ≡ [])
    × (amy_gone.hotlists.table.dbsize ≡ 0)
unfolding remove_user handle join pop_user hash_lookup hash_add hash_remove add_hotlist
bob_stays = (refl, refl, refl, refl, refl)

-- bob is told.
bob_is_told :
    (remove_user with_amy 7 amy world).1.outputs
    ≡ sent_to
        (codes "bob")
        407
        "%s %s %d %d"
        (text (codes "#tea") ∷ text (codes "amy") ∷ number 0 ∷ number 5 ∷ [])
      ∷ []
unfolding remove_user handle join pop_user hash_lookup hash_add hash_remove add_hotlist
bob_is_told = refl

-- A server cannot take a user of this server off it.
amy_is_local :
    addresses
      (((client_quit with_amy server_con 10000 (codes "AMY") world).1.world.chats.channel 0).users)
    ≡ 2 ∷ 1 ∷ []
unfolding client_quit handle join pop_user hash_lookup hash_add hash_remove add_hotlist
amy_is_local = refl

remove_user-Forgets_example :
    NoMember 1 (amy_gone.chats)
    × NotWaiting 7 (amy_gone.hotlists)
    × IsLinked (amy_gone.chats)
    × IsMutual (amy_gone.hotlists)
unfolding hash_lookup hash_add
remove_user-Forgets_example =
    remove_user-Forgets with_amy users_of_amy 7 amy world refl refl refl bob_joins-IsLinked
      waiting_for_bob-IsMutual
