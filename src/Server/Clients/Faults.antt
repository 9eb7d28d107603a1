-- ===== src/Server/Clients/Faults.antt =====
-- Which events of clients the server survives.
use soii_ipc.Base.{
  ℕ, suc, ◌≡◌, refl, ap, ◌∙◌, inl, inr, List, [], ◌∷◌, Option, some, ◌==◌, Bool-cases, Option-cases,
  map, length,
}
use soii_ipc.Seq.Matching.{first_match}
use soii_ipc.Protocol.{Md5, Packet, check_packet_md5, payload_int, m_type_ack, m_type_auth}
use soii_ipc.Server.{Server}
use soii_ipc.Server.Util.{find_by_socket, add_fd, set_non_blocking, send_fin, send_new}
use soii_ipc.Server.Util.Search.{has_token}
use soii_ipc.Server.Clients.{
  ReadResult, failed, received, ClientEvent, hang_up, accept_client, reject, handle_packet,
  handle_input, handle_client, acknowledge, authenticate, resume,
}
use soii_ipc.Server.Clients.Sessions.{
  acknowledge-known, acknowledge-unknown, authenticate-new_unknown, authenticate-resume,
  resume-known, resume-unknown, without_new,
}

-- A step gave a state, with `n` rooms.
abbrev pub Kept : ℕ → Option Server → Type 0
Kept n o = (s : Server) × (o ≡ some s) × (length s.rooms ≡ n)

pub length-map : {A B : Type 0} (f : A → B) (xs : List A) → length (map f xs) ≡ length xs
length-map f [] = refl
length-map f (x ∷ xs) = ap suc (length-map f xs)

module _ ⦃md5 : Md5⦄ (n : ℕ) where
  resume-Kept : (fd old : ℕ) (s : Server) → length s.rooms ≡ n → Kept n (resume fd old s)
  unfolding reject send_fin send_new
  resume-Kept fd old s rooms = elim (Option-cases (first_match (has_token old) s.connections)) [
    | inl unknown ↦ (_, resume-unknown fd old s unknown, rooms)
    | inr (c, known) ↦ (_, resume-known fd old c s known, length-map _ s.rooms ∙ rooms)
  ]

  authenticate-Kept :
      (fd : ℕ) (p : Packet) (s : Server) → length s.rooms ≡ n → Kept n (authenticate fd p s)
  unfolding reject send_fin send_new
  authenticate-Kept fd p s rooms =
      elim (Option-cases (first_match (has_token (payload_int 1 p.payload)) s.connections)) [
        | inl unknown ↦ (_, authenticate-new_unknown fd p s unknown, rooms)
        | inr (d, known) ↦
            let (t, gives, kept) =
              resume-Kept fd (payload_int 0 p.payload) (without_new p s) rooms in
            (t, authenticate-resume fd p s d known ∙ gives, kept)
      ]

  acknowledge-Kept : (p : Packet) (s : Server) → length s.rooms ≡ n → Kept n (acknowledge p s)
  acknowledge-Kept p s rooms =
      elim (Option-cases (first_match (has_token (payload_int 0 p.payload)) s.connections)) [
        | inl unknown ↦ (s, acknowledge-unknown p s unknown, rooms)
        | inr (c, known) ↦ (_, acknowledge-known p s c known, rooms)
      ]

  handle_packet-Kept :
      (fd : ℕ) (p : Packet) (s : Server) → length s.rooms ≡ n → Kept n (handle_packet fd p s)
  unfolding handle_packet
  handle_packet-Kept fd p s rooms = elim (Bool-cases (check_packet_md5 p)) [
    | inr broken ↦ (s, rw (broken, handle_packet), rooms)
    | inl intact ↦ elim (Bool-cases (p.mtype == m_type_ack)) [
      | inl ack ↦
          let (t, gives, kept) = acknowledge-Kept p s rooms in
          (t, rw (intact, ack, handle_packet) gives, kept)
      | inr other ↦ elim (Bool-cases (p.mtype == m_type_auth)) [
        | inl auth ↦
            let (t, gives, kept) = authenticate-Kept fd p s rooms in
            (t, rw (intact, other, auth, handle_packet) gives, kept)
        | inr neither ↦ (s, rw (intact, other, neither, handle_packet), rooms)
      ]
    ]
  ]

  handle_input-Kept :
      (fd : ℕ) (i : ReadResult) (s : Server) → length s.rooms ≡ n → Kept n (handle_input fd i s)
  unfolding handle_input
  handle_input-Kept fd failed s rooms = (s, refl, rooms)
  handle_input-Kept fd (received p) s rooms = handle_packet-Kept fd p s rooms

  hang_up-Kept : (fd : ℕ) (s : Server) → length s.rooms ≡ n → length (hang_up fd s).rooms ≡ n
  unfolding hang_up
  hang_up-Kept fd s rooms = elim (Option-cases (find_by_socket fd s.connections)) [
    | inl missing ↦ rw (missing, hang_up) rooms
    | inr (c, there) ↦ rw (there, hang_up) rooms
  ]

  accept_client-Kept :
      (connfd token : ℕ) (s : Server)
      → length s.rooms ≡ n
      → length (accept_client connfd token s).rooms ≡ n
  unfolding accept_client add_fd set_non_blocking send_new
  accept_client-Kept connfd token s rooms = rooms

  -- The server survives every event of a client.
  pub handle_client-Kept :
      (listenfd : ℕ) (e : ClientEvent) (s : Server)
      → length s.rooms ≡ n
      → Kept n (handle_client listenfd e s)
  unfolding handle_client
  handle_client-Kept listenfd e s rooms = elim (Bool-cases (e.fd == listenfd)) [
    | inl new ↦ (
      accept_client e.accepted e.random s,
      rw (new, handle_client),
      accept_client-Kept e.accepted e.random s rooms,
    )
    | inr client ↦ elim (Bool-cases e.hangup) [
      | inl gone ↦ (hang_up e.fd s, rw (client, gone, handle_client), hang_up-Kept e.fd s rooms)
      | inr connected ↦ elim (Bool-cases e.readable) [
        | inr silent ↦ (s, rw (client, connected, silent, handle_client), rooms)
        | inl readable ↦
            let (t, gives, kept) = handle_input-Kept e.fd e.input s rooms in
            (t, rw (client, connected, readable, handle_client) gives, kept)
      ]
    ]
  ]
