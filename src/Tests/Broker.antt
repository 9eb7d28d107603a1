-- ===== src/Tests/Broker.antt =====
-- What a run of the server sends to whom.
use soii_ipc.Server.Broker.Reached.{StartsWith, rounds-reached}
use soii_ipc.Base.Text.{codes}
use soii_ipc.Base.Words.{of_bytes, to_bytes}
use soii_ipc.Queue.{Message}
use soii_ipc.Protocol.{gen_packet}
use soii_ipc.Seq.{find, find_from}
use soii_ipc.Server.{Server, now}
use soii_ipc.Server.Broker.{copies}
use soii_ipc.Server.Util.{conn_compare, compare_fd, send_new, add_fd, set_non_blocking}
use soii_ipc.Server.Clients.{accept_client, handle_client}
use soii_ipc.Server.Commands.{Command, cmd_add, subscribe, add_command, run_command, handle_command}
use soii_ipc.Server.Messages.{message_text, data_packet}
use soii_ipc.Server.Loop.{◌>>=◌, start, rounds, handle_clients, handle_commands}
use soii_ipc.Tests.Rounds.{arrival}
use soii_ipc.Base.{List, ℕ, ◌++◌, replicate, [], ◌∷◌, ◌≡◌, refl, arith, Each}
use soii_ipc.Server.Clients.{failed}
use soii_ipc.Server.Loop.Inductive.{Inputs, Met}
use soii_ipc.Server.Broker.{members_of, inbox_of}
use soii_ipc.Server.Broker.Senders.{IsFrom, rounds-inbox}
use soii_ipc.Server.Broker.Privacy.{Elsewhere, rounds-apart}
use soii_ipc.Tests.Samples.{sample_md5, sample_printf}
use soii_ipc.Tests.Rounds.{seconds, quiet_round, reached, afterwards, quiet_run}

-- No client writes, commands name room 0, and the message is the memory producer's.
abbrev calm : Inputs
calm = record {
  event = λ e. e.input ≡ failed;
  command = λ c. c.productor ≡ 0;
  message = λ m. m.id ≡ 0;
}

quiet_round-Met : Each (Met calm) (quiet_round ∷ [])
quiet_round-Met = (record { events = (refl, tt); commands = (refl, tt); message = refl }, tt)

rounds-inbox_example :
    Each
      (IsFrom ⦃md5 = sample_md5⦄ ⦃printf = sample_printf⦄ calm.message)
      (inbox_of 4 (reached afterwards).trace)
rounds-inbox_example =
    rounds-inbox ⦃md5 = sample_md5⦄ ⦃printf = sample_printf⦄ calm 3 seconds (quiet_round ∷ [])
      (reached afterwards) 4 quiet_round-Met quiet_run

-- Nobody is in room 1.
rounds-apart_example :
    (members_of (reached afterwards).rooms 1 4 ≡ 0)
    × Each
        (IsFrom ⦃md5 = sample_md5⦄ ⦃printf = sample_printf⦄ (Elsewhere calm 1))
        (inbox_of 4 (reached afterwards).trace)
rounds-apart_example =
    rounds-apart ⦃md5 = sample_md5⦄ ⦃printf = sample_printf⦄ calm 1
      (λ c names add room. ground arith)
      (λ fd. λ (e, p, quiet, over, writes, intact, type). absurd (cc (quiet, writes))) 3 seconds
      (quiet_round ∷ []) (reached afterwards) 4 quiet_round-Met quiet_run

-- The command and the message of the round.
abbrev entrance : Command
entrance = record { type = cmd_add; socket = 10; productor = 0 }

abbrev seven : Message
seven = record { id = 0; timestamp = 1004; content = 7 ∷ replicate 39 0 }

abbrev seven_text : List ℕ
seven_text = codes "Memoria disponible del sistema: " ++ (7 ∷ codes " kB")

abbrev entered_state : Server
entered_state = reached (
    handle_clients ⦃md5 = sample_md5⦄ ⦃printf = sample_printf⦄ 3 (arrival ∷ []) (start seconds)
    >>= handle_commands ⦃md5 = sample_md5⦄ ⦃printf = sample_printf⦄ (entrance ∷ []))

-- The client is in room 0 when the message is taken, and has got none before.
rounds-reached_example :
    StartsWith
      (copies 1 (data_packet ⦃md5 = sample_md5⦄ (now entered_state) 1004 seven_text))
      (inbox_of 4 (reached afterwards).trace)
unfolding start rounds handle_clients handle_client accept_client handle_commands handle_command
    run_command add_command subscribe find find_from conn_compare compare_fd send_new add_fd
    set_non_blocking message_text of_bytes gen_packet to_bytes
rounds-reached_example =
    rounds-reached ⦃md5 = sample_md5⦄ ⦃printf = sample_printf⦄ 3 seconds [] [] (arrival ∷ [])
      (entrance ∷ []) seven seven_text (4 ∷ []) (start seconds) entered_state (reached afterwards) 4
      refl refl refl refl quiet_run
