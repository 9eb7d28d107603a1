-- ===== src/Server.antt =====
-- The delivery manager's state (server/include/srv_util.h, the variables of `main` in
-- server/src/srv.c) and the system calls that it makes. A list of server/src/list.c is the sequence
-- of its items here.
pub mod Util
pub mod Clients
pub mod Commands
pub mod Messages
pub mod Cleanup
pub mod Loop
pub mod Subscribers
pub mod Logging
pub mod Exit
pub mod Setup
pub mod Wire
pub mod Broker
use soii_ipc.Base.{ℕ, suc, Bool, ◌+◌, List, [], ◌∷◌, ◌++◌, ltb}
use soii_ipc.Protocol.{Packet}

abbrev pub conn_timeout : ℕ
conn_timeout = 5

abbrev pub buffer_cleanup_period : ℕ
buffer_cleanup_period = 30

abbrev pub no_productores : ℕ
no_productores = 3

-- `connection_t`; the `int`s are bit patterns.
pub record Connection : Type 0 where
  pub timestamp : ℕ
  pub susc_counter : ℕ
  pub sockfd : ℕ
  pub token : ℕ

-- The lines of the two log files, by what they report.
pub data LogLine : Type 0 where
  client_accepted client_disconnected client_reconnected connection_closed : ℕ → ℕ → LogLine
  auth_failed new_token_missing old_token_missing : LogLine
  subscribed unsubscribed : ℕ → ℕ → ℕ → LogLine
  message_received : ℕ → ℕ → LogLine
  buffer_cleaned packet_dropped : ℕ → LogLine

-- The calls by which the server acts on the world, in the order made.
pub data Effect : Type 0 where
  epoll_add epoll_del set_nonblocking close start_transfer : ℕ → Effect
  sent : ℕ → Packet → Effect
  logged : LogLine → Effect
  invalid_command : Effect

pub record Server : Type 0 where
  pub connections : List Connection
  pub rooms : List (List ℕ)
  pub packets : List Packet
  pub last_time_cleanup : ℕ
  pub last_gc_time : ℕ
  -- What the coming calls of `time` return.
  pub clock : ℕ → ℕ
  pub trace : List Effect

abbrev pub emit : Effect → Server → Server
emit e s = record s { trace = s.trace ++ e ∷ [] }

-- `time`: the reading, and the state after it.
abbrev pub now : Server → ℕ
now s = s.clock 0

abbrev pub tick : Server → Server
tick s = record s { clock = λ n. s.clock (suc n) }

-- `time_actual - timestamp > CONN_TIMEOUT`
abbrev pub is_old : ℕ → ℕ → Bool
is_old time_actual timestamp = ltb (timestamp + conn_timeout) time_actual
