-- ===== src/Client/Answers.antt =====
-- Server and client together: a message that is published, and what a subscriber makes of it.
use soii_ipc.Base.{
  ◌∙◌, false, arith, ◌==◌, ◌⊎◌, suc, get_elem?, ◌^◌, ◌<◌, ◌≡◌, ◌≢◌, ℕ, List, [], ◌∷◌, ◌++◌, some,
  true, inl, inr, length, Bool-cases,
}
use soii_ipc.Protocol.{Md5, Packet, header_bytes, check_packet_md5, gen_packet, m_type_data}
use soii_ipc.Queue.{Message}
use soii_ipc.Seq.Matching.{first_match, replace_first}
use soii_ipc.Server.{Server, Connection, now, tick}
use soii_ipc.Server.Util.Search.{has_token}
use soii_ipc.Server.Clients
use soii_ipc.Server.Messages.{Printf, message_text, data_packet, handle_message}
use soii_ipc.Server.Messages.Delivery.{
  data_packet-mtype, published, AreBytes, message_text-le, handle_message-delivers,
}
use soii_ipc.Server.Messages.Freshness.{data_packet-check_iff}
use soii_ipc.Client.{sent, write_new, Client, full, round, send_ack, handle_packet}
use soii_ipc.Client.Session.{serve, ack_packet, ack_packet-acknowledge}

module _ ⦃md5 : Md5⦄ where
  -- The client holds the packet, and acknowledges it or does nothing.
  round-fresh :
      (p : Packet) (c : Client)
      → p.mtype ≡ m_type_data
      → check_packet_md5 p ≡ true
      → round (full p) c ≡ send_ack c.token (record c { buffer = p })
  unfolding round handle_packet
  round-fresh p c type ok = rw (ok, type, round)

  round-refused :
      (p : Packet) (c : Client)
      → check_packet_md5 p ≢ true
      → round (full p) c ≡ record c { buffer = p }
  unfolding round
  round-refused p c bad = elim (Bool-cases (check_packet_md5 p)) [
    | inl ok ↦ absurd (bad ok)
    | inr refused ↦ rw (refused, round)
  ]

  -- The client behind its acknowledgement of a packet.
  abbrev pub answered : Packet → Client → Client
  answered p c = record c {
    buffer = p;
    clock = λ n. c.clock (suc n);
    broken = λ n. c.broken (suc n);
    trace = c.trace ++ sent c.sockfd (ack_packet (c.clock 0) c.token) ∷ [];
  }

  -- The server behind the acknowledgement of the session `d`.
  abbrev pub refreshed : ℕ → Connection → Server → Server
  refreshed token d s = record (tick s) {
    connections = replace_first (has_token token) (record d { timestamp = now s }) s.connections;
  }

  round-answered :
      (p : Packet) (c : Client)
      → p.mtype ≡ m_type_data
      → check_packet_md5 p ≡ true
      → c.killed ≡ false
      → c.broken 0 ≡ false
      → round (full p) c ≡ answered p c
  unfolding send_ack write_new
  round-answered p c type ok alive unbroken = round-fresh p c type ok ∙ rw (alive, unbroken)

  serve-refreshed :
      (time token : ℕ) (word : token < 256 ^ 4) (fd : ℕ) (s : Server) (d : Connection)
      → first_match (has_token token) s.connections ≡ some d
      → serve fd (ack_packet time token ∷ []) s ≡ some (refreshed token d s)
  unfolding serve Clients.handle_packet check_packet_md5
  serve-refreshed time token word fd s d known =
      rw (ack_packet-acknowledge time token word fd s d known)

  -- A producer's message that has a text and a room goes out to the room. A client of the server that
  -- gets the packet acknowledges it, and the server takes that for its session's last sign of life,
  -- if the producer's time is the server's; and else the client does nothing. Provided that MD5 does
  -- not collide on the headers, the client lives and its connection is open when it writes, the content is one of 40 bytes, the times are 64-bit patterns and the
  -- token is a 32-bit pattern.
  pub handle_message-answered :
      ⦃printf : Printf⦄ (m : Message) (text room : List ℕ) (s : Server) (c : Client) (fd : ℕ)
      (d : Connection)
      → message_text m ≡ some text
      → get_elem? s.rooms m.id ≡ some room
      → length m.content ≡ 40
      → AreBytes m.content
      → now s < 256 ^ 8
      → m.timestamp < 256 ^ 8
      → (md5.digest (header_bytes (data_packet (now s) m.timestamp text))
            ≡ md5.digest (header_bytes (gen_packet (now s) m_type_data text).0)
          → header_bytes (data_packet (now s) m.timestamp text)
            ≡ header_bytes (gen_packet (now s) m_type_data text).0)
      → c.token < 256 ^ 4
      → c.killed ≡ false
      → c.broken 0 ≡ false
      → first_match (has_token c.token) s.connections ≡ some d
      → let p = data_packet (now s) m.timestamp text in
        let t = published m text room s in
        (handle_message m s ≡ some t)
        × (((m.timestamp ≡ now s)
              × (round (full p) c ≡ answered p c)
              × (serve fd (ack_packet (c.clock 0) c.token ∷ []) t ≡ some (refreshed c.token d t)))
            ⊎ ((m.timestamp ≢ now s) × (round (full p) c ≡ record c { buffer = p })))
  handle_message-answered m text room s c fd d has at content bytes time stamp apart word alive
        unbroken known =
      let p = data_packet (now s) m.timestamp text in
      let fresh =
        data_packet-check_iff (now s) m.timestamp text time stamp
          (message_text-le m text content bytes has) apart in
      (
        handle_message-delivers m text room s has at,
        elim (Bool-cases (m.timestamp == now s)) [
          | inl same ↦ inl (
            ground arith,
            round-answered p c (data_packet-mtype _ _ text) (fresh.1 (ground arith)) alive unbroken,
            serve-refreshed (c.clock 0) c.token word fd (published m text room s) d known,
          )
          | inr other ↦
              inr
                ((λ e. ground arith), round-refused p c λ ok. (let e = fresh.0 ok in ground arith))
        ],
      )
