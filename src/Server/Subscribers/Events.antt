-- ===== src/Server/Subscribers/Events.antt =====
-- Events of clients keep what holds between sessions and rooms, if the clients are orderly.
use soii_ipc.Base.{
  ℕ, ◌≡◌, ◌⊎◌, refl, subst, true, inl, inr, none, some, ◌==◌, Bool-cases, Option-cases,
}
use soii_ipc.Seq.Matching.{first_match}
use soii_ipc.Protocol.{Md5, Packet, check_packet_md5, payload_int, m_type_ack, m_type_auth}
use soii_ipc.Server.{Connection, Server}
use soii_ipc.Server.Util.{find_by_socket, send_fin, send_new}
use soii_ipc.Server.Util.Search.{has_token}
use soii_ipc.Server.Clients.{
  ReadResult, failed, received, ClientEvent, hang_up, accept_client, reject, authenticate,
  handle_packet, handle_input, handle_client,
}
use soii_ipc.Server.Clients.Sessions.{authenticate-new_unknown}
use soii_ipc.Server.Subscribers.{enrolled, Others, WellFormed}
use soii_ipc.Server.Subscribers.Steps.{Stays}
use soii_ipc.Server.Subscribers.Sessions.{accept_client-WellFormed, acknowledge-WellFormed}
use soii_ipc.Server.Subscribers.Reconnection.{authenticate-Stays}

-- The new token that a client names is no session's, or that of the client's own session, which is
-- in no room.
abbrev pub Owned : ℕ → Packet → Server → Type 0
Owned fd p s =
    (first_match (has_token (payload_int 1 p.payload)) s.connections ≡ none)
    ⊎ ((d : Connection) × (first_match (has_token (payload_int 1 p.payload)) s.connections ≡ some d)
        × (d.sockfd ≡ fd)
        × (d.susc_counter ≡ 0))

-- A new connection's socket is no session's and in no room; a client reconnects by its own session.
pub record Orderly (listenfd : ℕ) (e : ClientEvent) (s : Server) : Type 0 where
  pub fresh :
      (e.fd == listenfd) ≡ true
      → Others e.accepted s.connections × (enrolled e.accepted s.rooms ≡ 0)
  pub own : (p : Packet) → e.input ≡ received p → (p.mtype == m_type_auth) ≡ true → Owned e.fd p s

module _ ⦃md5 : Md5⦄ (s : Server) (ok : WellFormed s) where
  hang_up-WellFormed : (fd : ℕ) → WellFormed (hang_up fd s)
  unfolding hang_up
  hang_up-WellFormed fd = elim (Option-cases (find_by_socket fd s.connections)) [
    | inl missing ↦
        rw (missing, hang_up)
          (record {
            rooms = ok.rooms;
            once = ok.once;
            counted = ok.counted;
            sheltered = ok.sheltered;
          })
    | inr (c, there) ↦
        rw (there, hang_up)
          (record {
            rooms = ok.rooms;
            once = ok.once;
            counted = ok.counted;
            sheltered = ok.sheltered;
          })
  ]

  authenticate-Owned : (fd : ℕ) (p : Packet) → Owned fd p s → Stays (authenticate fd p s)
  unfolding reject send_fin send_new
  authenticate-Owned fd p owned = elim owned [
    | inl unknown ↦ (
      _,
      authenticate-new_unknown fd p s unknown,
      record { rooms = ok.rooms; once = ok.once; counted = ok.counted; sheltered = ok.sheltered },
    )
    | inr (d, known, is, zero) ↦
        subst (λ f. Stays (authenticate f p s)) is (authenticate-Stays p s d ok known zero)
  ]

  handle_packet-Stays :
      (fd : ℕ) (p : Packet)
      → ((p.mtype == m_type_auth) ≡ true → Owned fd p s)
      → Stays (handle_packet fd p s)
  unfolding handle_packet
  handle_packet-Stays fd p own = elim (Bool-cases (check_packet_md5 p)) [
    | inr broken ↦ (s, rw (broken, handle_packet), ok)
    | inl intact ↦ elim (Bool-cases (p.mtype == m_type_ack)) [
      | inl ack ↦
          let (t, gives, fine) = acknowledge-WellFormed s ok p in
          (t, rw (intact, ack, handle_packet) gives, fine)
      | inr other ↦ elim (Bool-cases (p.mtype == m_type_auth)) [
        | inl auth ↦
            let (t, gives, fine) = authenticate-Owned fd p (own auth) in
            (t, rw (intact, other, auth, handle_packet) gives, fine)
        | inr neither ↦ (s, rw (intact, other, neither, handle_packet), ok)
      ]
    ]
  ]

  handle_input-Stays :
      (fd : ℕ) (i : ReadResult)
      → ((p : Packet) → i ≡ received p → (p.mtype == m_type_auth) ≡ true → Owned fd p s)
      → Stays (handle_input fd i s)
  unfolding handle_input
  handle_input-Stays fd failed own = (s, refl, ok)
  handle_input-Stays fd (received p) own = handle_packet-Stays fd p (own p refl)

  -- An event of an orderly client keeps the count of every session, the sockets apart
  -- and every room free of repetitions.
  pub handle_client-Stays :
      (listenfd : ℕ) (e : ClientEvent) → Orderly listenfd e s → Stays (handle_client listenfd e s)
  unfolding handle_client
  handle_client-Stays listenfd e orderly = elim (Bool-cases (e.fd == listenfd)) [
    | inl new ↦
        let (others, nowhere) = orderly.fresh new in
        (
          accept_client e.accepted e.random s,
          rw (new, handle_client),
          accept_client-WellFormed s ok e.accepted e.random others nowhere,
        )
    | inr client ↦ elim (Bool-cases e.hangup) [
      | inl gone ↦ (hang_up e.fd s, rw (client, gone, handle_client), hang_up-WellFormed e.fd)
      | inr connected ↦ elim (Bool-cases e.readable) [
        | inr silent ↦ (s, rw (client, connected, silent, handle_client), ok)
        | inl readable ↦
            let (t, gives, fine) = handle_input-Stays e.fd e.input orderly.own in
            (t, rw (client, connected, readable, handle_client) gives, fine)
      ]
    ]
  ]
