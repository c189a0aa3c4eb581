-- ===== src/Receive.antt =====
-- handler.c: what `handle_connection` does with the bytes of its input buffer. The handlers are
-- arguments, functions from a command to the new state of the connection; what is sent and logged is
-- a list of events.
pub mod Commands
pub mod Messages
pub mod Registered
use opennap.Base.{
  get_elem?, ℕ, zero, suc, ◌+◌, ◌-◌, ◌*◌, ◌/◌, ◌≤◌, Bool, true, false, ◌&&◌, ◌||◌, not, List, [],
  ◌∷◌, ◌++◌, Option, none, some, ltb, leb, ◌==◌, if◌then◌else◌, length, take,
}
use opennap.Text.{Bytes}
use opennap.Wire.{Command, read_command}
use opennap.Protocol.Names.{RequestHandler}
use opennap.Protocol.{protocol, Search, found, absent, out_of_range, no_fuel, find_handler}

pub data Class : Type 0 where
  unknown user server : Class

abbrev pub is_user : Class → Bool
is_user user = true
is_user unknown = false
is_user server = false

abbrev pub is_unknown : Class → Bool
is_unknown unknown = true
is_unknown user = false
is_unknown server = false

-- The fields of the connection and of its user that `handle_connection` reads or sets.
pub record Peer : Type 0 where
  pub class : Class
  pub destroy : Bool
  pub flood : ℕ
  pub nick : Bytes
  pub sharing : Bool
  pub unsharing : Bool
  pub shared : ℕ
  pub libsize : ℕ

-- The globals: `servers` says whether there are peer servers.
pub record Config : Type 0 where
  pub current_time : ℕ
  pub flood_time : ℕ
  pub flood_commands : ℕ
  pub servers : Bool
  pub sig_caught : ℕ → Bool

pub data Event : Type 0 where
  handled : RequestHandler → ℕ → Bytes → Event
  unknown_command : ℕ → Event
  invalid_command : Event
  share_report : Bytes → ℕ → ℕ → Event
  flood_notice : Bytes → ℕ → Event

pub record Session : Type 0 where
  pub peer : Peer
  pub last_flooder : Bytes
  pub events : List Event

abbrev pub emit : Session → Event → Session
emit s e = record s { events = s.events ++ e ∷ [] }

abbrev pub Handlers : Type 0
Handlers = RequestHandler → ℕ → Bytes → Peer → Peer

-- Membership of a tag in a list of numbers.
unfoldable pub one_of : ℕ → List ℕ → Bool
one_of tag [] = false
one_of tag (t ∷ ts) = tag == t || one_of tag ts

-- The commands that a connection may send before it has logged in.
abbrev pub registration_tags : List ℕ
registration_tags = 2 ∷ 6 ∷ 7 ∷ 10010 ∷ 10011 ∷ 0 ∷ 4 ∷ 300 ∷ 11 ∷ []

-- `strcmp (a, b) == 0`
unfoldable pub strcmp_zero : Bytes → Bytes → Bool
strcmp_zero [] [] = true
strcmp_zero [] (y ∷ b) = false
strcmp_zero (x ∷ a) [] = false
strcmp_zero (x ∷ a) (y ∷ b) = x == y && strcmp_zero a b

unfoldable pub protect_flood : Config → ℕ → Session → Session
unfolding one_of strcmp_zero
protect_flood cfg tag s =
    let p = s.peer in
    let start = if ltb p.flood cfg.current_time then cfg.current_time else p.flood in
    let flood = start + cfg.flood_time / cfg.flood_commands in
    let counted : Session = record s { peer = record p { flood = flood } } in
    if is_user p.class && ltb 0 cfg.flood_commands && not (one_of tag (100 ∷ 10300 ∷ 102 ∷ []))
    then if leb (cfg.current_time + cfg.flood_time) flood && not (strcmp_zero s.last_flooder p.nick)
      then record (emit counted (flood_notice p.nick tag)) { last_flooder = take 63 p.nick }
      else counted
    else s

-- The end of a series of share or unshare commands is reported to the peer servers.
unfoldable pub report_sharing : Config → ℕ → Session → Session
unfolding one_of
report_sharing cfg tag s =
    let p = s.peer in
    let report = share_report p.nick p.shared p.libsize in
    if cfg.servers && is_user p.class
    then if p.sharing
      then if not (one_of tag (100 ∷ 10300 ∷ 870 ∷ []))
        then record (emit s report) { peer = record p { sharing = false } }
        else s
      else if p.unsharing
      then if not (tag == 102)
        then record (emit s report) { peer = record p { unsharing = false } }
        else s
      else s
    else s

-- The handler of the row that a search has found.
abbrev pub row_handler : Search → Option RequestHandler
row_handler (found i) = elim (get_elem? protocol i) [ none ↦ none | some (_, h) ↦ some h ]
row_handler absent = none
row_handler out_of_range = none
row_handler no_fuel = none

unfoldable pub dispatch_command : Config → Handlers → ℕ → Bytes → Session → Session
dispatch_command cfg handlers tag pkt s =
    elim (row_handler (find_handler cfg.sig_caught protocol tag)) [
      | none ↦ emit s (unknown_command tag)
      | some h ↦ record (emit s (handled h tag pkt)) { peer = handlers h tag pkt s.peer }
    ]

-- How the loop over the commands ends: with the bytes that wait for more, or with those that stand
-- in the buffer when the connection is given up. `out_of_fuel` belongs to the model only.
pub data Outcome : Type 0 where
  waiting : Session → Bytes → Outcome
  given_up : Session → Bytes → Outcome
  out_of_fuel : Outcome

abbrev pub give_up : Session → Session
give_up s = record (emit s invalid_command) { peer = record s.peer { destroy = true } }

-- What is done with one command before the next is read.
unfoldable pub run_command : Config → Handlers → Command → Session → Session
run_command cfg handlers c s =
    dispatch_command cfg handlers c.tag c.body
      (report_sharing cfg c.tag (protect_flood cfg c.tag s))

-- `while (con->recvbuf->consumed < con->recvbuf->datasize)`, on the bytes behind `consumed`.
unfoldable pub command_loop : ℕ → Config → Handlers → Session → Bytes → Outcome
command_loop zero cfg handlers s data' = out_of_fuel
command_loop (suc fuel) cfg handlers s data' = elim (read_command data') [
  | none ↦ waiting s data'
  | some c ↦
      let next = command_loop fuel cfg handlers (run_command cfg handlers c s) c.rest in
      if is_unknown s.peer.class && not (one_of c.tag registration_tags)
      then given_up (give_up s) data'
      else next
]

-- The fuel is one round for each byte, and one to see that no command is left.
unfoldable pub process_commands : Config → Handlers → Session → Bytes → Outcome
process_commands cfg handlers s data' = command_loop (suc (length data')) cfg handlers s data'
