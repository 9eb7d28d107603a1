-- ===== src/Tests/Rounds.antt =====
-- Rounds of the main loop from its beginning.
use soii_ipc.Base.{refl, ℕ, ◌≡◌, true, false, [], ◌∷◌, ◌+◌, some, none, replicate}
use soii_ipc.Server.Clients.{accept_client, handle_client, ClientEvent, received, failed}
use soii_ipc.Server.Commands.{subscribe, add_command, run_command, handle_command, cmd_add}
use soii_ipc.Server.Loop.{
  receive_message, handle_commands, later_part, round_from, round, Round, start, rounds,
  handle_clients,
}
use soii_ipc.Server.Messages.{handle_message, message_text, publish}
use soii_ipc.Base.Words.{of_bytes}
use soii_ipc.Seq.{find, find_from}
use soii_ipc.Server.Util.{
  conn_compare, compare_fd, send_new, add_fd, set_non_blocking, broadcast_room,
}
use soii_ipc.Server.Clients.{handle_client, accept_client}
use soii_ipc.Server.Commands.{run_command, add_command, subscribe, handle_command}
use soii_ipc.Server.Cleanup.{
  garb_collec_old_conn, garb_collec_old_packets, walk_connections, walk_packets,
}
use soii_ipc.Server.Loop.{round, round_from, later_part, handle_commands, receive_message, clean_up}
use soii_ipc.Server.Wire.{AllSent, IsFair}
use soii_ipc.Server.Wire.Runs.{rounds-AllSent}
use soii_ipc.Server.{Server}
use soii_ipc.Base.{Option}
use soii_ipc.Tests.Samples.{sample_md5, sample_printf, two_sessions, packet_at}

abbrev pub seconds : ℕ → ℕ
seconds n = 1000 + n

-- A client connects over socket 4 and is given the token 10.
abbrev pub arrival : ClientEvent
arrival = record {
  fd = 3;
  hangup = false;
  readable = true;
  accepted = 4;
  random = 10;
  input = failed;
}

-- A client sends a packet that is not an acknowledgement.
abbrev talk : ClientEvent
talk = record arrival { fd = 4; input = received (packet_at 150) }

-- The client that connects is added to room 0, and the memory producer sends 7 kB.
abbrev first_round : Round
first_round = record {
  events = some (arrival ∷ talk ∷ []);
  commands = some (record { type = cmd_add; socket = 10; productor = 0 } ∷ []);
  message = some (record { id = 0; timestamp = 1004; content = 7 ∷ replicate 39 0 });
}

abbrev pub quiet_round : Round
quiet_round = record first_round { events = some (arrival ∷ []) }

-- The state that the round leads to.
abbrev pub reached : Option Server → Server
reached none = two_sessions
reached (some t) = t

abbrev pub afterwards : Option Server
afterwards = rounds ⦃md5 = sample_md5⦄ ⦃printf = sample_printf⦄ 3 (quiet_round ∷ []) (start seconds)

-- The run comes to its end.
pub quiet_run :
    rounds ⦃md5 = sample_md5⦄ ⦃printf = sample_printf⦄ 3 (quiet_round ∷ []) (start seconds)
    ≡ some (reached afterwards)
unfolding start rounds round round_from handle_clients handle_client accept_client later_part
    handle_commands handle_command run_command add_command subscribe receive_message handle_message
    message_text publish broadcast_room clean_up garb_collec_old_conn garb_collec_old_packets
    walk_connections walk_packets find find_from conn_compare compare_fd send_new add_fd
    set_non_blocking of_bytes
quiet_run = refl

rounds-AllSent_example : AllSent (IsFair ⦃md5 = sample_md5⦄) (reached afterwards).trace
rounds-AllSent_example =
    rounds-AllSent ⦃md5 = sample_md5⦄ ⦃printf = sample_printf⦄ 3 seconds (quiet_round ∷ [])
      (reached afterwards) quiet_run
