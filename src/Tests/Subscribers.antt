-- ===== src/Tests/Subscribers.antt =====
-- Sessions and rooms that agree, and runs that keep them so.
use soii_ipc.Base.{
  Option, List, none, ℕ, ◌≡◌, ◌⊎◌, ◌+◌, refl, true, false, [], ◌∷◌, some, arith, replicate,
}
use soii_ipc.Server.Messages.{handle_message, message_text, publish}
use soii_ipc.Base.Words.{of_bytes}
use soii_ipc.Server.{Server, Connection}
use soii_ipc.Seq.{find, find_from}
use soii_ipc.Server.Util.{
  conn_compare, compare_fd, send_new, add_fd, set_non_blocking, broadcast_room,
}
use soii_ipc.Server.Clients.{ClientEvent, failed, handle_client, accept_client}
use soii_ipc.Server.Commands.{run_command, add_command, subscribe, cmd_add, handle_command}
use soii_ipc.Server.Cleanup.{
  garb_collec_old_conn, garb_collec_old_packets, walk_connections, walk_packets,
}
use soii_ipc.Server.Loop.{
  Round, start, rounds, round, round_from, handle_clients, later_part, handle_commands,
  receive_message, clean_up,
}
use soii_ipc.Server.Loop.Faults.{FatalRun, none_left, one_more, no_round, one_round}
use soii_ipc.Server.Subscribers.{WellFormed}
use soii_ipc.Server.Subscribers.Runs.{OrderlyRun, rounds-WellFormed}
use soii_ipc.Tests.Samples.{sample_md5, sample_printf, two_sessions}

two_sessions-WellFormed : WellFormed two_sessions
two_sessions-WellFormed = record {
  rooms = refl;
  once = ((refl, tt), (tt, (tt, tt)));
  counted = (refl, (refl, tt), (refl, tt, tt));
  sheltered = λ fd (old, others). ground arith;
}

-- A client connects over socket 4 and is given the token 10.
abbrev connecting : ClientEvent
connecting = record {
  fd = 3;
  hangup = false;
  readable = true;
  accepted = 4;
  random = 10;
  input = failed;
}

-- It is added to room 0, and the memory producer sends 7 kB.
abbrev opening : Round
opening = record {
  events = some (connecting ∷ []);
  commands = some (record { type = cmd_add; socket = 10; productor = 0 } ∷ []);
  message = some (record { id = 0; timestamp = 1004; content = 7 ∷ replicate 39 0 });
}

abbrev from_1000 : ℕ → ℕ
from_1000 n = 1000 + n

opening-OrderlyRun :
    OrderlyRun ⦃md5 = sample_md5⦄ ⦃printf = sample_printf⦄ 3 (opening ∷ []) (start from_1000)
unfolding start
opening-OrderlyRun =
    ((record { fresh = λ e. (tt, refl); own = λ p e. cc }, λ t gives. tt), λ t gives. tt)

rounds-WellFormed_example :
    FatalRun ⦃md5 = sample_md5⦄ ⦃printf = sample_printf⦄ 3 (opening ∷ []) (start from_1000)
    ⊎ ((t : Server) × (rounds ⦃md5 = sample_md5⦄ ⦃printf = sample_printf⦄ 3
            (opening ∷ [])
            (start from_1000)
          ≡ some t)
        × WellFormed t)
rounds-WellFormed_example =
    rounds-WellFormed ⦃md5 = sample_md5⦄ ⦃printf = sample_printf⦄ 3 from_1000 (opening ∷ [])
      (one_round _ _ (one_more _ _ (omega arith) none_left) no_round) opening-OrderlyRun

abbrev view : Option Server → Option (List Connection × List (List ℕ))
view none = none
view (some s) = some (s.connections, s.rooms)

-- The run, seen by sessions and rooms: the client is in room 0, and its counter is 1.
opening_run :
    view (rounds ⦃md5 = sample_md5⦄ ⦃printf = sample_printf⦄ 3 (opening ∷ []) (start from_1000))
    ≡ some (
      record { timestamp = 1005; susc_counter = 1; sockfd = 4; token = 10 } ∷ [],
      (4 ∷ []) ∷ [] ∷ [] ∷ [],
    )
unfolding start rounds round round_from handle_clients handle_client accept_client later_part
    handle_commands handle_command run_command add_command subscribe receive_message handle_message
    message_text publish broadcast_room clean_up garb_collec_old_conn garb_collec_old_packets
    walk_connections walk_packets find find_from conn_compare compare_fd send_new add_fd
    set_non_blocking of_bytes
opening_run = refl
