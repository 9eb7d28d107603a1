-- ===== src/Client/Session.antt =====
-- Client and server together: what the client writes, and what the server makes of it.
use mathlib.Core.Path.{ap₂}
use soii_ipc.Base.{
  false, ℕ, ◌-◌, ◌^◌, ◌≤◌, ◌<◌, ◌≡◌, ap, ◌∙◌, true, List, [], ◌∷◌, ◌++◌, Option, none, some, arith,
  length, length-append, append_assoc, replicate,
}
use soii_ipc.Base.Words.{to_bytes, length-to_bytes}
use soii_ipc.Protocol.{
  Md5, Packet, gen_packet, check_packet_md5, payload_int, payload_size, m_type_ack, m_type_auth,
  m_type_conn_accepted,
}
use soii_ipc.Protocol.Integrity.{gen_packet-check}
use soii_ipc.Protocol.Wire.{payload_int-first, payload_int-front}
use soii_ipc.Seq.Matching.{
  first_match, replace_first, remove_first, first_match-passes, first_match-replace_first,
}
use soii_ipc.Server.{Server, Connection, now, tick}
use soii_ipc.Server.Util.Search.{has_token}
use soii_ipc.Server.Clients
use soii_ipc.Server.Clients.{acknowledge, authenticate}
use soii_ipc.Server.Clients.Sessions.{acknowledge-known, authenticate-known, taken_over}
use soii_ipc.Client.{Client, Deed, sent, full, write_new, send_ack, enter, handle_packet, round}

module _ ⦃md5 : Md5⦄ where
  -- The packets that the client makes.
  abbrev pub ack_packet : ℕ → ℕ → Packet
  ack_packet time token = (gen_packet time m_type_ack (to_bytes 4 token)).0

  abbrev pub auth_packet : ℕ → ℕ → ℕ → Packet
  auth_packet time old new = (gen_packet time m_type_auth (to_bytes 4 old ++ to_bytes 4 new)).0

  -- The server takes packets of one client in turn.
  unfoldable pub serve : ℕ → List Packet → Server → Option Server
  serve fd [] s = some s
  serve fd (p ∷ ps) s = elim (Clients.handle_packet fd p s) [ none ↦ none | some t ↦ serve fd ps t ]

  module _ (time token : ℕ) (word : token < 256 ^ 4) (fd : ℕ) (s : Server) where
    fits : length (to_bytes 4 token) ≤ payload_size
    fits = omega (arith, length-to_bytes 4 token)

    ack_packet-token : payload_int 0 (ack_packet time token).payload ≡ token
    ack_packet-token =
        ap (payload_int 0) (gen_packet-check time m_type_ack (to_bytes 4 token) fits).4
        ∙ payload_int-first token _ word

    ack_packet-served :
        Clients.handle_packet fd (ack_packet time token) s ≡ acknowledge (ack_packet time token) s
    unfolding Clients.handle_packet
    ack_packet-served =
        let (ok, done, at, type, payload) =
          gen_packet-check time m_type_ack (to_bytes 4 token) fits in
        rw (ok, type, Clients.handle_packet)

    -- The client's acknowledgement, at a server that has a session with its token, sets the first
    -- such session's last sign of life, and changes nothing else.
    pub ack_packet-acknowledge :
        (c : Connection)
        → first_match (has_token token) s.connections ≡ some c
        → Clients.handle_packet fd (ack_packet time token) s
          ≡ some (record (tick s) {
            connections =
                replace_first (has_token token) (record c { timestamp = now s }) s.connections;
          })
    ack_packet-acknowledge c known =
        let same = ack_packet-token in
        ack_packet-served
        ∙ acknowledge-known (ack_packet time token) s c
            (ap (λ k. first_match (has_token k) s.connections) same ∙ known)
        ∙ ap
            (λ k. some (record (tick s) {
              connections =
                  replace_first (has_token k) (record c { timestamp = now s }) s.connections;
            }))
            same

  -- The server after a session was taken over: `c` had the old token.
  abbrev pub resumed : ℕ → ℕ → ℕ → Connection → Server → Server
  resumed fd old new c s =
      taken_over fd old c (record s { connections = remove_first (has_token new) s.connections })

  module _ (time old new : ℕ) (old_word : old < 256 ^ 4) (new_word : new < 256 ^ 4) (fd : ℕ)
      (s : Server) where
    both : List ℕ
    both = to_bytes 4 old ++ to_bytes 4 new

    both_fit : length both ≤ payload_size
    unfolding both
    both_fit = omega (
      arith,
      length-append {0} (to_bytes 4 old) (to_bytes 4 new),
      length-to_bytes 4 old,
      length-to_bytes 4 new,
    )

    auth_packet-tokens :
        (payload_int 0 (auth_packet time old new).payload ≡ old)
        × (payload_int 1 (auth_packet time old new).payload ≡ new)
    unfolding both
    auth_packet-tokens =
        let zeros = replicate (payload_size - length both) 0 in
        let layout : (auth_packet time old new).payload
            ≡ to_bytes 4 old ++ (to_bytes 4 new ++ zeros) =
          (gen_packet-check time m_type_auth both both_fit).4
          ∙ append_assoc (to_bytes 4 old) (to_bytes 4 new) zeros in
        let (first, second) = payload_int-front old new zeros old_word new_word in
        (ap (payload_int 0) layout ∙ first, ap (payload_int 1) layout ∙ second)

    auth_packet-served :
        Clients.handle_packet fd (auth_packet time old new) s
        ≡ authenticate fd (auth_packet time old new) s
    unfolding Clients.handle_packet both
    auth_packet-served =
        let (ok, done, at, type, payload) = gen_packet-check time m_type_auth both both_fit in
        rw (ok, type, Clients.handle_packet)

    auth_packet-resumed :
        (c d : Connection)
        → first_match (has_token new) s.connections ≡ some d
        → first_match (has_token old) (remove_first (has_token new) s.connections) ≡ some c
        → Clients.handle_packet fd (auth_packet time old new) s ≡ some (resumed fd old new c s)
    auth_packet-resumed c d known before =
        let (first, second) = auth_packet-tokens in
        let p = auth_packet time old new in
        auth_packet-served
        ∙ authenticate-known fd p s d c
            (ap (λ k. first_match (has_token k) s.connections) second ∙ known)
            (ap₂ (λ j k. first_match (has_token j) (remove_first (has_token k) s.connections)) first
                second
              ∙ before)
        ∙ ap₂ (λ j k. some (resumed fd j k c s)) first second

-- The packets among what a client did.
abbrev pub packets_of : List Deed → List Packet
packets_of [] = []
packets_of (sent fd p ∷ ds) = p ∷ packets_of ds
packets_of (_ ∷ ds) = packets_of ds

module _ ⦃md5 : Md5⦄ (c : Client) (p : Packet) (fd : ℕ) (s : Server) (o d : Connection)
    (intact : check_packet_md5 p ≡ true) (type : p.mtype ≡ m_type_conn_accepted)
    (returning : c.tflag ≡ true) (alive : c.killed ≡ false) (unbroken : c.broken 0 ≡ false)
    (still : c.broken 1 ≡ false) (silent : c.trace ≡ []) (old_word : c.token < 256 ^ 4)
    (new_word : payload_int 0 p.payload < 256 ^ 4)
    (known : first_match (has_token (payload_int 0 p.payload)) s.connections ≡ some d)
    (before : first_match
        (has_token c.token)
        (remove_first (has_token (payload_int 0 p.payload)) s.connections)
      ≡ some o) where
  abbrev pub new_token : ℕ
  new_token = payload_int 0 p.payload

  answer :
      packets_of (round (full p) c).trace
      ≡ auth_packet (c.clock 0) c.token new_token ∷ ack_packet (c.clock 1) c.token ∷ []
  unfolding round handle_packet enter send_ack write_new
  answer = rw (intact, type, returning, silent, alive, unbroken, still, round)

  -- The server between the two packets.
  abbrev pub again : Server
  again = resumed fd c.token new_token o s

  known_again : first_match (has_token c.token) again.connections ≡ some (record o { sockfd = fd })
  known_again =
      first_match-replace_first (has_token c.token) (record o { sockfd = fd }) _ o
        (first_match-passes (has_token c.token) _ o before) before

  -- A client that has sent nothing yet, comes back with an old token and is welcomed by an intact
  -- packet with a new one answers with two packets. A server that has both sessions takes them in
  -- turn: the old session goes on over the client's socket, with its rooms and the packets that it
  -- missed, the new one is gone, and the old one's last sign of life is now. The tokens are 32-bit
  -- patterns, and the client lives and its connection is open at both writes.
  pub serve-round :
      serve fd (packets_of (round (full p) c).trace) s
      ≡ some (record (tick again) {
        connections =
            replace_first
              (has_token c.token)
              (record o { sockfd = fd; timestamp = now s })
              again.connections;
      })
  unfolding serve Clients.handle_packet check_packet_md5
  serve-round = rw (
    answer,
    auth_packet-resumed (c.clock 0) c.token new_token old_word new_word fd s o d known before,
    ack_packet-acknowledge (c.clock 1) c.token old_word fd again (record o { sockfd = fd })
        known_again,
  )
