-- ===== src/Server/Loop.antt =====
-- One round of the main loop of server/src/srv.c, and the loop.
pub mod RoundTrip
pub mod Faults
pub mod Inductive
pub mod Handlers
use soii_ipc.Base.{ℕ, ◌+◌, List, [], ◌∷◌, Option, none, some, replicate}
use soii_ipc.Protocol.{Md5}
use soii_ipc.Server.{Server, conn_timeout, buffer_cleanup_period, no_productores}
use soii_ipc.Server.Clients.{ClientEvent, handle_client}
use soii_ipc.Server.Commands.{Command, handle_command}
use soii_ipc.Server.Messages.{Printf, handle_message}
use soii_ipc.Queue.{Message}
use soii_ipc.Server.Cleanup.{garb_collec_old_conn, garb_collec_old_packets}

-- A failed step is undefined behaviour: nothing follows.
infixl 5 ◌>>=◌
abbrev pub ◌>>=◌ : {A B : Type 0} → Option A → (A → Option B) → Option B
none >>= f = none
some a >>= f = f a

-- What a round meets: the client events and the commands, each `none` if its `epoll_wait` failed,
-- and the message that `mq_receive` gave, if one was there. An event of the FIFO that cannot be read
-- leaves no command.
pub record Round : Type 0 where
  pub events : Option (List ClientEvent)
  pub commands : Option (List Command)
  pub message : Option Message

-- The state when the loop begins. `time` was read for each of the two cleanings.
unfoldable pub start : (ℕ → ℕ) → Server
start clock = record {
  connections = [];
  rooms = replicate no_productores [];
  packets = [];
  last_time_cleanup = clock 0;
  last_gc_time = clock 1;
  clock = λ n. clock (2 + n);
  trace = [];
}

module _ ⦃md5 : Md5⦄ ⦃printf : Printf⦄ where
  unfoldable pub handle_clients : ℕ → List ClientEvent → Server → Option Server
  handle_clients listenfd [] s = some s
  handle_clients listenfd (e ∷ es) s = handle_client listenfd e s >>= handle_clients listenfd es

  unfoldable pub handle_commands : List Command → Server → Option Server
  handle_commands [] s = some s
  handle_commands (c ∷ cs) s = handle_command c s >>= handle_commands cs

  unfoldable pub receive_message : Option Message → Server → Option Server
  receive_message none s = some s
  receive_message (some m) s = handle_message m s

  unfoldable pub clean_up : Server → Server
  clean_up s = garb_collec_old_packets buffer_cleanup_period (garb_collec_old_conn conn_timeout s)

  -- The rest of a round, from the commands on.
  unfoldable pub later_part : Option (List Command) → Option Message → Server → Option Server
  later_part none message s = some s
  later_part (some commands) message s = do
    served ← handle_commands commands s
    published ← receive_message message served
    some (clean_up published)

  -- A round that `epoll_wait` fails is left at once, by `continue`.
  unfoldable pub round_from : ℕ → Option (List ClientEvent) → Round → Server → Option Server
  round_from listenfd none r s = some s
  round_from listenfd (some events) r s =
      handle_clients listenfd events s >>= later_part r.commands r.message

  unfoldable pub round : ℕ → Round → Server → Option Server
  round listenfd r s = round_from listenfd r.events r s

  unfoldable pub rounds : ℕ → List Round → Server → Option Server
  rounds listenfd [] s = some s
  rounds listenfd (r ∷ rs) s = round listenfd r s >>= rounds listenfd rs
