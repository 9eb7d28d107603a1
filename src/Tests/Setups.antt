-- ===== src/Tests/Setups.antt =====
-- The start of the server, and its log.
use soii_ipc.Base.{◌⊎◌, none, false, ◌+◌, ◌≡◌, ◌<◌, refl, true, [], ◌∷◌, some, pos, length}
use soii_ipc.Base.Text.{codes}
use soii_ipc.Server.Logging.{Strftime, log_event, printed, datetime_size, log_event-printed}
use soii_ipc.Tests.Samples.{sample_md5, sample_printf}
use soii_ipc.Server.Loop.Faults.{FatalRun, none_left, no_round, one_round}
use soii_ipc.Server.Clients.{failed}
use soii_ipc.Server.Loop.{Round, start, rounds}
use soii_ipc.Cli.{atoi}
use soii_ipc.Transfer.{setup_tcpsocket}
use soii_ipc.Server.{no_productores}
use soii_ipc.Server.Clients.Faults.{Kept}
use soii_ipc.Server.Setup.Serves.{set_up-serves}
use soii_ipc.Server.Setup.{
  check, open_mq, open_cli, listen_on, open_port, read_port, Environment, set_up,
}

abbrev sample_strftime : Strftime
sample_strftime = record { stamp = λ now. codes "01/02/24 10:20:30 "; length-stamp = λ now. refl }

log_event-printed_example :
    (log_event ⦃strftime = sample_strftime⦄ (some 200) (codes "Cliente aceptado\n")
      ≡ printed (codes "01/02/24 10:20:30 Cliente aceptado\n"))
    × (length (codes "01/02/24 10:20:30 Cliente aceptado\n") + 50 < datetime_size)
log_event-printed_example =
    log_event-printed ⦃strftime = sample_strftime⦄ 200 (codes "Cliente aceptado\n")

abbrev fine : Environment
fine = record {
  arguments = codes "server" ∷ codes "5000" ∷ [];
  limit_raised = true;
  clientes_opened = true;
  productores_opened = true;
  socket = some 5;
  address = record { sin_family = 0; sin_addr = 0; sin_port = 0 };
  bound = true;
  listen_result = pos 0;
  epollfd = 6;
  clock = λ n. 200 + n;
  cli_fd = 7;
  epoll_cli = 8;
  mq = pos 9;
  random = 1 ∷ 2 ∷ 3 ∷ 4 ∷ [];
}

-- A client connects over socket 4 and is given the token 10.
abbrev arriving : Round
arriving = record {
  events = some (
      record { fd = 5; hangup = false; readable = true; accepted = 10; random = 10; input = failed }
      ∷ []);
  commands = some [];
  message = none;
}

set_up-serves_example :
    (fine.socket ≡ some 5)
    × (FatalRun ⦃md5 = sample_md5⦄ ⦃printf = sample_printf⦄ 5 (arriving ∷ []) (start fine.clock)
        ⊎ Kept no_productores (
            rounds ⦃md5 = sample_md5⦄ ⦃printf = sample_printf⦄ 5
              (arriving ∷ [])
              (start fine.clock)))
unfolding set_up read_port open_port listen_on open_cli open_mq check atoi setup_tcpsocket
set_up-serves_example =
    set_up-serves ⦃md5 = sample_md5⦄ ⦃printf = sample_printf⦄ fine 5 (start fine.clock) _
      (arriving ∷ []) refl (one_round _ _ none_left no_round)
