-- ===== src/Server/Setup.antt =====
-- server/src/srv.c: `main` up to its loop.
pub mod Outcomes
pub mod Serves
use soii_ipc.Base.{
  ℕ, zero, suc, ◌+◌, ◌*◌, ◌^◌, ◌%◌, Bool, true, false, List, [], ◌∷◌, ◌++◌, Option, none, some,
  ◌==◌, if◌then◌else◌, ℤ, pos, negsuc,
}
use soii_ipc.Base.Text.{codes}
use soii_ipc.Base.Words.{of_bytes, int_minus_one}
use soii_ipc.Cli.{atoi}
use soii_ipc.Queue.{queue_name, queue_maxmsg, queue_perms, is_negative}
use soii_ipc.Server.{Server}
use soii_ipc.Server.Loop.{start}
use soii_ipc.Transfer.{SocketAddress, setup_tcpsocket}

abbrev pub listen_backlog : ℕ
listen_backlog = 10000

abbrev pub log_clientes : List ℕ
log_clientes = codes "logs/server/log_DM_clientes"

abbrev pub log_productores : List ℕ
log_productores = codes "logs/server/log_DM_productores"

abbrev pub cli_fifo : List ℕ
cli_fifo = codes "/tmp/cli_dm_fifo"

-- The bytes of a `msg_producer_t`: an `int`, padding, a `time_t` and the union.
abbrev pub message_size : ℕ
message_size = 4 + 4 + 8 + 40

-- The calls, in the order made. `watched` is `add_fd`: EPOLL_CTL_ADD, and the socket does not block.
pub data SetupCall : Type 0 where
  ignore_sigpipe : SetupCall
  limit_files : ℕ → ℕ → SetupCall
  open_log : List ℕ → SetupCall
  buffer_lines : ℕ → SetupCall
  bind : ℕ → SocketAddress → SetupCall
  log_start : SocketAddress → SetupCall
  listen : ℕ → ℕ → SetupCall
  watched : ℕ → ℕ → SetupCall
  make_fifo open_fifo : List ℕ → SetupCall
  open_queue : List ℕ → ℕ → ℕ → ℕ → SetupCall
  seed : ℕ → SetupCall
  on_exit : ℤ → SetupCall

-- What the calls return: descriptors are bit patterns.
pub record Environment : Type 0 where
  pub arguments : List (List ℕ)
  pub limit_raised : Bool
  pub clientes_opened : Bool
  pub productores_opened : Bool
  pub socket : Option ℕ
  pub address : SocketAddress
  pub bound : Bool
  pub listen_result : ℤ
  pub epollfd : ℕ
  pub clock : ℕ → ℕ
  pub cli_fd : ℕ
  pub epoll_cli : ℕ
  pub mq : ℤ
  pub random : List ℕ

-- The loop is reached, with the listening socket; the process ends with a status, by `exit` or by
-- `return`; or a numeral is too large for `atoi`.
pub data Startup : Type 0 where
  running : ℕ → Server → List SetupCall → Startup
  exited : ℕ → List SetupCall → Startup
  returned : ℤ → List SetupCall → Startup
  undefined : Startup

abbrev exit_failure : ℕ
exit_failure = 1

-- `if (!ok) exit(EXIT_FAILURE);`
abbrev pub exit_unless : Bool → List SetupCall → Startup → Startup
exit_unless ok calls next = if ok then next else exited exit_failure calls

-- `CHECK(x)`, by the value of `x`
unfoldable pub check : ℤ → List SetupCall → Startup → Startup
check (pos zero) calls next = next
check (pos (suc n)) calls next = returned (pos (suc n)) calls
check (negsuc n) calls next = returned (negsuc n) calls

abbrev pub is_descriptor : ℕ → Bool
is_descriptor fd = if fd == int_minus_one then false else true

abbrev pub not_negative : ℤ → Bool
not_negative mq = if is_negative mq then false else true

-- From the queue on.
unfoldable pub open_mq : Environment → ℕ → List SetupCall → Startup
open_mq e listenfd calls =
    let asked = calls ++ open_queue queue_name queue_maxmsg message_size queue_perms ∷ [] in
    exit_unless (not_negative e.mq) asked
      (running listenfd (start e.clock) (asked ++ seed (of_bytes e.random) ∷ on_exit e.mq ∷ []))

-- From the FIFO on; the descriptor of the FIFO is not tested.
unfoldable pub open_cli : Environment → ℕ → List SetupCall → Startup
open_cli e listenfd calls =
    let asked = calls ++ make_fifo cli_fifo ∷ open_fifo cli_fifo ∷ [] in
    exit_unless (is_descriptor e.epoll_cli) asked
      (open_mq e listenfd (asked ++ watched e.epoll_cli e.cli_fd ∷ []))

-- From the new socket on, given as its descriptor and address.
unfoldable pub listen_on : Environment → ℕ × SocketAddress → List SetupCall → Startup
listen_on e (listenfd, address) calls =
    let tried = calls ++ bind listenfd address ∷ [] in
    let listening = tried ++ log_start address ∷ listen listenfd listen_backlog ∷ [] in
    exit_unless e.bound tried (
      exit_unless (is_descriptor listenfd) tried (
        check e.listen_result listening (
          exit_unless (is_descriptor e.epollfd) listening
            (open_cli e listenfd (listening ++ watched e.epollfd listenfd ∷ [])))))

-- From the port on, if `atoi` is defined there.
unfoldable pub open_port : Environment → Option ℕ → List SetupCall → Startup
open_port e none calls = undefined
open_port e (some port) calls =
    listen_on e (setup_tcpsocket (port % 2 ^ 16) e.socket e.address) calls

-- `argv[0]` is the first argument.
unfoldable pub read_port : Environment → List (List ℕ) → List SetupCall → Startup
read_port e (name ∷ port ∷ rest) calls = open_port e (atoi port) calls
read_port e _ calls = exited exit_failure calls

unfoldable pub set_up : Environment → Startup
set_up e =
    let limited = ignore_sigpipe ∷ limit_files 5100 6000 ∷ [] in
    let logs = limited ++ open_log log_clientes ∷ open_log log_productores ∷ [] in
    exit_unless e.limit_raised limited (
      exit_unless e.clientes_opened logs (
        exit_unless e.productores_opened logs
          (read_port e e.arguments (logs ++ buffer_lines 512 ∷ []))))
