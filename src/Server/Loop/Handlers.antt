-- ===== src/Server/Loop/Handlers.antt =====
-- The handlers by their branches: what holds after each branch holds after the handler.
use soii_ipc.Base.{
  refl, ℕ, ◌≡◌, true, false, inl, inr, List, Option, none, some, arith, ◌==◌, Bool-cases,
  Option-cases, get_elem?, ℤ, pos, negsuc,
}
use soii_ipc.Protocol.{Md5, Packet, check_packet_md5, payload_int, m_type_ack, m_type_auth}
use soii_ipc.Seq.{find, delete}
use soii_ipc.Server.{
  Connection, Server, new_token_missing, old_token_missing, auth_failed, invalid_command, emit,
}
use soii_ipc.Server.Util.{conn_compare, compare_fd, with_token}
use soii_ipc.Server.Clients.{
  failed, received, ReadResult, ClientEvent, hang_up, acknowledge, accept_client, reject, take_over,
  resume, authenticate, handle_packet, handle_input, handle_client,
}
use soii_ipc.Server.Commands.{
  Command, is_bad_room, is_found, cmd_add, cmd_del, cmd_log, touch, subscribe, add_command,
  unsubscribe, del_command, log_command, run_command, handle_command,
}
use soii_ipc.Server.Loop.Inductive.{After}

module _ ⦃md5 : Md5⦄ (P : Server → Type 0) where
  pub resume-After :
      (fd old : ℕ) (s : Server)
      → P (reject auth_failed old_token_missing fd s)
      → ((i : ℕ) (c : Connection) → P (take_over fd i c s))
      → After P (resume fd old s)
  unfolding resume
  resume-After fd old s refused taken = at (find conn_compare (with_token old) s.connections)
    where
      found :
          (i : ℕ) (o : Option Connection)
          → After P (elim o [ none ↦ none | some c ↦ some (take_over fd i c s) ])
      found i none = tt
      found i (some c) = taken i c

      at :
          (r : ℤ)
          → After P (elim r [
            | negsuc _ ↦ some (reject auth_failed old_token_missing fd s)
            | pos i ↦ elim (get_elem? s.connections i) [
              | none ↦ none
              | some c ↦ some (take_over fd i c s)
            ]
          ])
      at (negsuc _) = refused
      at (pos i) = found i (get_elem? s.connections i)

  pub authenticate-After :
      (fd : ℕ) (p : Packet) (s : Server)
      → P (reject new_token_missing auth_failed fd s)
      → ((cs : List Connection)
          → After P (resume fd (payload_int 0 p.payload) (record s { connections = cs })))
      → After P (authenticate fd p s)
  unfolding authenticate
  authenticate-After fd p s refused resumed =
      at (find conn_compare (with_token (payload_int 1 p.payload)) s.connections)
    where
      at :
          (r : ℤ)
          → After P (elim r [
            | negsuc _ ↦ some (reject new_token_missing auth_failed fd s)
            | pos i ↦
                resume fd
                  (payload_int 0 p.payload)
                  (record s { connections = (delete (pos i) s.connections).0 })
          ])
      at (negsuc _) = refused
      at (pos i) = resumed (delete (pos i) s.connections).0

  handle_packet-After :
      (fd : ℕ) (p : Packet) (s : Server)
      → P s
      → After P (acknowledge p s)
      → (check_packet_md5 p ≡ true → p.mtype ≡ m_type_auth → After P (authenticate fd p s))
      → After P (handle_packet fd p s)
  unfolding handle_packet
  handle_packet-After fd p s same acknowledged authenticated =
      elim (Bool-cases (check_packet_md5 p)) [
        | inr broken ↦ rw (broken, handle_packet) same
        | inl intact ↦ elim (Bool-cases (p.mtype == m_type_ack)) [
          | inl ack ↦ rw (intact, ack, handle_packet) acknowledged
          | inr other ↦ elim (Bool-cases (p.mtype == m_type_auth)) [
            | inl auth ↦
                rw (intact, other, auth, handle_packet) (authenticated intact (ground arith))
            | inr neither ↦ rw (intact, other, neither, handle_packet) same
          ]
        ]
      ]

  handle_input-After :
      (fd : ℕ) (i : ReadResult) (s : Server)
      → P s
      → ((p : Packet) → After P (acknowledge p s))
      → ((p : Packet)
          → i ≡ received p
          → check_packet_md5 p ≡ true
          → p.mtype ≡ m_type_auth
          → After P (authenticate fd p s))
      → After P (handle_input fd i s)
  unfolding handle_input
  handle_input-After fd failed s same acknowledged authenticated = same
  handle_input-After fd (received p) s same acknowledged authenticated =
      handle_packet-After fd p s same (acknowledged p) (authenticated p refl)

  pub handle_client-After :
      (listenfd : ℕ) (e : ClientEvent) (s : Server)
      → P s
      → P (accept_client e.accepted e.random s)
      → P (hang_up e.fd s)
      → ((p : Packet) → After P (acknowledge p s))
      → ((p : Packet)
          → e.input ≡ received p
          → check_packet_md5 p ≡ true
          → p.mtype ≡ m_type_auth
          → After P (authenticate e.fd p s))
      → After P (handle_client listenfd e s)
  unfolding handle_client
  handle_client-After listenfd e s same accepted left acknowledged authenticated =
      elim (Bool-cases (e.fd == listenfd)) [
        | inl new ↦ rw (new, handle_client) accepted
        | inr client ↦ elim (Bool-cases e.hangup) [
          | inl gone ↦ rw (client, gone, handle_client) left
          | inr connected ↦ elim (Bool-cases e.readable) [
            | inl readable ↦
                rw (client, connected, readable, handle_client)
                  (handle_input-After e.fd e.input s same acknowledged authenticated)
            | inr silent ↦ rw (client, connected, silent, handle_client) same
          ]
        ]
      ]

  pub add_command-After :
      (i : ℕ) (c : Connection) (k : ℕ) (s : Server)
      → P (emit invalid_command s)
      → ((room : List ℕ)
          → get_elem? s.rooms k ≡ some room
          → is_found (find compare_fd c.sockfd room) ≡ false
          → P (subscribe i c k room s))
      → After P (add_command i c k s)
  unfolding add_command
  add_command-After i c k s refused joined = elim (Bool-cases (is_bad_room k)) [
    | inl bad ↦ rw (bad, add_command) refused
    | inr good ↦ elim (Option-cases (get_elem? s.rooms k)) [
      | inl missing ↦ rw (good, missing, add_command) tt
      | inr (room, there) ↦ elim (Bool-cases (is_found (find compare_fd c.sockfd room))) [
        | inl inside ↦ rw (good, there, inside, add_command) refused
        | inr outside ↦ rw (good, there, outside, add_command) (joined room there outside)
      ]
    ]
  ]

  pub del_command-After :
      (i : ℕ) (c : Connection) (k : ℕ) (s : Server)
      → P (emit invalid_command s)
      → ((room : List ℕ)
          → get_elem? s.rooms k ≡ some room
          → P (unsubscribe i c k room (find compare_fd c.sockfd room) s))
      → After P (del_command i c k s)
  unfolding del_command
  del_command-After i c k s refused parted = elim (Bool-cases (is_bad_room k)) [
    | inl bad ↦ rw (bad, del_command) refused
    | inr good ↦ elim (Option-cases (get_elem? s.rooms k)) [
      | inl missing ↦ rw (good, missing, del_command) tt
      | inr (room, there) ↦ elim (Bool-cases (is_found (find compare_fd c.sockfd room))) [
        | inl inside ↦ rw (good, there, inside, del_command) (parted room there)
        | inr outside ↦ rw (good, there, outside, del_command) refused
      ]
    ]
  ]

  pub run_command-After :
      (i : ℕ) (c : Connection) (cmd : Command) (s : Server)
      → (cmd.type ≡ cmd_add → After P (add_command i c cmd.productor s))
      → (cmd.type ≡ cmd_del → After P (del_command i c cmd.productor s))
      → P (log_command i c s)
      → P (touch i c s)
      → After P (run_command i c cmd s)
  unfolding run_command
  run_command-After i c cmd s adds dels logs touches = elim (Bool-cases (cmd.type == cmd_add)) [
    | inl add ↦ rw (add, run_command) (adds (ground arith))
    | inr not_add ↦ elim (Bool-cases (cmd.type == cmd_del)) [
      | inl del ↦ rw (not_add, del, run_command) (dels (ground arith))
      | inr not_del ↦ elim (Bool-cases (cmd.type == cmd_log)) [
        | inl log ↦ rw (not_add, not_del, log, run_command) logs
        | inr other ↦ rw (not_add, not_del, other, run_command) touches
      ]
    ]
  ]

  pub handle_command-After :
      (cmd : Command) (s : Server)
      → P s
      → ((i : ℕ) (c : Connection) → After P (run_command i c cmd s))
      → After P (handle_command cmd s)
  unfolding handle_command
  handle_command-After cmd s same runs =
      at (find conn_compare (with_token cmd.socket) s.connections)
    where
      found :
          (i : ℕ) (o : Option Connection)
          → After P (elim o [ none ↦ some s | some c ↦ run_command i c cmd s ])
      found i none = same
      found i (some c) = runs i c

      at :
          (r : ℤ)
          → After P (elim r [
            | negsuc _ ↦ some s
            | pos i ↦ elim (get_elem? s.connections i) [
              | none ↦ some s
              | some c ↦ run_command i c cmd s
            ]
          ])
      at (negsuc _) = same
      at (pos i) = found i (get_elem? s.connections i)
