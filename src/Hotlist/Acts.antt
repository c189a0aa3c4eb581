-- ===== src/Hotlist/Acts.antt =====
-- hotlist.c and remove_connection.c: all that is done to the hotlists, in any order.
use opennap.Base.{ℕ, List, [], ◌∷◌, ℤ}
use opennap.Text.{Bytes}
use opennap.Server.{Connection, Globals}
use opennap.Hotlist.{Store, add_hotlist, remove_hotlist}
use opennap.Hotlist.Mutual.{IsMutual, all_ok, add_hotlist-IsMutual, remove_hotlist-IsMutual}
use opennap.Hotlist.Closing.{close_waiting-IsMutual}
use opennap.Channels.Quit.{close_waiting}

-- A message 207 or 208, a message 303, and the end of a connection.
pub data Act : Type 0 where
  adding : Globals → ℤ → Connection → ℕ → Bytes → Act
  removing : Connection → ℕ → Bytes → Act
  closing : ℕ → Act

unfoldable pub act : Act → Store → Store
act (adding g max_hotlist con c pkt) s = (add_hotlist g max_hotlist con all_ok s c pkt).store
act (removing con c pkt) s = (remove_hotlist con s c pkt).store
act (closing c) s = close_waiting c s

unfoldable pub acts : List Act → Store → Store
unfolding act
acts [] s = s
acts (a ∷ l) s = acts l (act a s)

act-IsMutual : (a : Act) (s : Store) → IsMutual s → IsMutual (act a s)
unfolding act
act-IsMutual (adding g max_hotlist con c pkt) s m = add_hotlist-IsMutual g max_hotlist con s c pkt m
act-IsMutual (removing con c pkt) s m = remove_hotlist-IsMutual con s c pkt m
act-IsMutual (closing c) s m = close_waiting-IsMutual c s m

-- Where every allocation succeeds, the messages 207, 208 and 303 and the ends of connections, in any
-- order, keep the pointers between hotlists and connections going both ways, each at most once.
pub acts-IsMutual : (l : List Act) (s : Store) → IsMutual s → IsMutual (acts l s)
unfolding acts
acts-IsMutual [] s m = m
acts-IsMutual (a ∷ l) s m = acts-IsMutual l (act a s) (act-IsMutual a s m)
