-- ===== src/Tests/InputRuns.antt =====
-- Connections that have sent concrete bytes.
use opennap.Base.{
  ◌≡◌, ◌≢◌, refl, arith, true, false, List, [], ◌∷◌, ◌++◌, some, ◌&&◌, not, if◌then◌else◌,
}
use opennap.Text.{Bytes, codes}
use opennap.Wire.{read_command, send_cmd}
use opennap.Wire.Frame.{read_command-send_cmd}
use opennap.Protocol.{find_handler, protocol}
use opennap.Protocol.Find.{Finds, quiet, protocol-Finds}
use opennap.Receive.{
  is_unknown, one_of, registration_tags, Class, unknown, user, server, Peer, Config, Session,
  Handlers, waiting, out_of_fuel, process_commands,
}
use opennap.Receive.Commands.{resume, process_commands-append, process_commands_total}
use opennap.Receive.Messages.{Message, frames, run_messages, process_commands-frames}
use opennap.Receive.Registered.{process_commands_registered}

abbrev peer_of : Class → Peer
peer_of class' = record {
  class = class';
  destroy = false;
  flood = 0;
  nick = codes "bob";
  sharing = true;
  unsharing = false;
  shared = 3;
  libsize = 9;
}

abbrev session_of : Class → Session
session_of class' = record { peer = peer_of class'; last_flooder = []; events = [] }

abbrev quiet_config : Config
quiet_config = record {
  current_time = 100;
  flood_time = 10;
  flood_commands = 5;
  servers = true;
  sig_caught = λ k. false;
}

-- Handlers that leave the connection as it is.
abbrev idle : Handlers
idle h tag body p = p

-- Message 215 with two bytes, and the first three bytes of another.
abbrev first_part : Bytes
first_part = 2 ∷ 0 ∷ 215 ∷ 0 ∷ 97 ∷ 98 ∷ 1 ∷ 0 ∷ 208 ∷ []

process_commands-append_example :
    process_commands quiet_config idle (session_of user) (first_part ++ 0 ∷ 99 ∷ [])
    ≡ resume quiet_config idle
        (process_commands quiet_config idle (session_of user) first_part)
        (0 ∷ 99 ∷ [])
process_commands-append_example =
    process_commands-append quiet_config idle (session_of user) first_part (0 ∷ 99 ∷ [])

process_commands_total_example :
    process_commands quiet_config idle (session_of unknown) first_part ≢ out_of_fuel
process_commands_total_example =
    process_commands_total quiet_config idle (session_of unknown) first_part

abbrev two_messages : List Message
two_messages = (215, 97 ∷ []) ∷ (208, []) ∷ []

process_commands-frames_example :
    process_commands quiet_config idle (session_of server) (frames two_messages ++ 3 ∷ [])
    ≡ waiting (run_messages quiet_config idle two_messages (session_of server)) (3 ∷ [])
unfolding read_command
process_commands-frames_example =
    process_commands-frames quiet_config idle (λ h tag body p known. known) two_messages (3 ∷ [])
      (session_of server) ((omega arith, omega arith), ((omega arith, omega arith), tt)) refl refl

-- Handlers that close a connection that has not logged in, on any other command.
abbrev closing : Handlers
closing h tag body p =
    if is_unknown p.class && not (one_of tag registration_tags)
    then record p { destroy = true }
    else p

process_commands_registered_example :
    process_commands quiet_config idle (session_of unknown) first_part
    ≡ process_commands quiet_config closing (session_of unknown) first_part
process_commands_registered_example =
    process_commands_registered quiet_config idle closing (λ h tag body p ok. rw ok refl)
      (session_of unknown) first_part

protocol-Finds_example : Finds protocol 215 (find_handler quiet protocol 215)
protocol-Finds_example = protocol-Finds 215

read_command-send_cmd_example :
    read_command (send_cmd 404 (codes "no such ban") ++ 9 ∷ [])
    ≡ some (record { tag = 404; body = codes "no such ban"; rest = 9 ∷ [] })
read_command-send_cmd_example =
    read_command-send_cmd 404 (codes "no such ban") (9 ∷ []) (omega arith)
