-- ===== src/Server/Clients.antt =====
-- The main loop's treatment of one event of a client's socket (server/src/srv.c). `none` is
-- undefined behaviour: NULL is used. The field `timestamp` is the first of its structure, so that the
-- `&connection->timestamp` of an unknown token is NULL itself, with which `time` stores nothing.
pub mod Sessions
pub mod Faults
use soii_ipc.Base.{
  ℕ, Bool, true, false, List, [], ◌∷◌, ◌++◌, Option, none, some, ltb, ◌==◌, if◌then◌else◌, ℤ, pos,
  negsuc, map, set, get_elem?,
}
use soii_ipc.Base.Words.{to_bytes}
use soii_ipc.Seq.{add_last, find, delete, get}
use soii_ipc.Protocol.{
  Md5, Packet, check_packet_md5, payload_int, m_type_ack, m_type_auth, m_type_conn_accepted,
}
use soii_ipc.Server.{
  Connection, Server, LogLine, client_accepted, client_disconnected, client_reconnected,
  auth_failed, new_token_missing, old_token_missing, Effect, epoll_del, close, sent, logged, emit,
  now, tick,
}
use soii_ipc.Server.Util.{
  conn_compare, with_token, find_by_socket, add_fd, retarget, send_new, send_fin,
}

-- What `read` gave: its failure, or what the buffer holds after it.
pub data ReadResult : Type 0 where
  failed : ReadResult
  received : Packet → ReadResult

-- One entry of `events`, with what the calls that treat it return: `accepted` is the result of
-- `accept` and `random` that of `rand`.
pub record ClientEvent : Type 0 where
  pub fd : ℕ
  pub hangup : Bool
  pub readable : Bool
  pub accepted : ℕ
  pub random : ℕ
  pub input : ReadResult

unfoldable pub hang_up : ℕ → Server → Server
hang_up fd s = elim (find_by_socket fd s.connections) [
  | none ↦ emit (epoll_del fd) s
  | some c ↦ emit (logged (client_disconnected c.sockfd c.token)) (emit (epoll_del fd) s)
]

-- A write through the pointer that `list_get` returned.
abbrev pub set_at : ℤ → Connection → List Connection → List Connection
set_at (pos i) c cs = set cs i c
set_at (negsuc _) c cs = cs

-- The result of `list_get` is used without a test; behind NULL nothing is stored.
unfoldable pub acknowledge : Packet → Server → Option Server
acknowledge p s =
    let index = find conn_compare (with_token (payload_int 0 p.payload)) s.connections in
    elim (get index s.connections) [
      | none ↦ some s
      | some c ↦ some (record (tick s) {
        connections = set_at index (record c { timestamp = now s }) s.connections;
      })
    ]

-- The buffered packets that came no earlier than the client's last sign of life are sent again.
unfoldable pub resend : ℕ → ℕ → List Packet → Server → Server
resend fd since [] s = s
resend fd since (p ∷ ps) s =
    resend fd since ps (if ltb p.timestamp since then s else emit (sent fd p) s)

module _ ⦃md5 : Md5⦄ where
  -- A new connection. `accept` may have failed: its -1 is used as a socket.
  unfoldable pub accept_client : ℕ → ℕ → Server → Server
  accept_client connfd token s =
      let welcomed = send_new connfd m_type_conn_accepted (to_bytes 4 token) (add_fd connfd s) in
      let noted = emit (logged (client_accepted connfd token)) welcomed in
      record (tick noted) {
        connections =
            add_last
              (record { timestamp = now noted; susc_counter = 0; sockfd = connfd; token = token })
              noted.connections;
      }

  unfoldable pub reject : LogLine → LogLine → ℕ → Server → Server
  reject first second fd s = send_fin fd (emit (logged second) (emit (logged first) s))

  -- The session `c`, at index `i`, goes on over the socket `fd`.
  unfoldable pub take_over : ℕ → ℕ → Connection → Server → Server
  take_over fd i c s =
      let moved = record s { rooms = map (retarget c.sockfd fd) s.rooms } in
      let closed = emit (close c.sockfd) moved in
      let renamed = record closed {
        connections = set closed.connections i (record c { sockfd = fd });
      } in
      emit (logged (client_reconnected fd c.token)) (resend fd c.timestamp renamed.packets renamed)

  -- The session with the old token is looked for.
  unfoldable pub resume : ℕ → ℕ → Server → Option Server
  resume fd old s = elim (find conn_compare (with_token old) s.connections) [
    | negsuc _ ↦ some (reject auth_failed old_token_missing fd s)
    | pos i ↦ elim (get_elem? s.connections i) [ none ↦ none | some c ↦ some (take_over fd i c s) ]
  ]

  -- The session that the client has just been given is dropped, in favour of its old one.
  unfoldable pub authenticate : ℕ → Packet → Server → Option Server
  authenticate fd p s =
      let index = find conn_compare (with_token (payload_int 1 p.payload)) s.connections in
      elim index [
        | negsuc _ ↦ some (reject new_token_missing auth_failed fd s)
        | pos i ↦
            resume fd (payload_int 0 p.payload)
              (record s { connections = (delete (pos i) s.connections).0 })
      ]

  unfoldable pub handle_packet : ℕ → Packet → Server → Option Server
  handle_packet fd p s =
      if check_packet_md5 p
      then (if p.mtype == m_type_ack
          then acknowledge p s
          else if p.mtype == m_type_auth
          then authenticate fd p s
          else some s)
      else some s

  unfoldable pub handle_input : ℕ → ReadResult → Server → Option Server
  handle_input fd failed s = some s
  handle_input fd (received p) s = handle_packet fd p s

  unfoldable pub handle_client : ℕ → ClientEvent → Server → Option Server
  handle_client listenfd e s =
      if e.fd == listenfd
      then some (accept_client e.accepted e.random s)
      else (if e.hangup
          then some (hang_up e.fd s)
          else if e.readable
          then handle_input e.fd e.input s
          else some s)
