-- ===== src/Server/Wire/Deliveries.antt =====
-- Messages and cleanings write whole packets, and, but for messages, packets that pass the check.
use soii_ipc.Base.{
  Each, ℕ, ◌+◌, refl, inl, inr, List, [], ◌∷◌, ltb, Bool-cases, Option-cases, get_elem?, zero, suc,
  erase_idx,
}
use soii_ipc.Queue.{Message}
use soii_ipc.Seq.{delete}
use soii_ipc.Protocol.{Md5, Packet, m_type_data}
use soii_ipc.Protocol.Shapes.{gen_packet-IsWhole, gen_packet-mtype}
use soii_ipc.Server.{
  buffer_cleaned, packet_dropped, Connection, Server, sent, logged, close, epoll_del, emit, now,
  tick, is_old,
}
use soii_ipc.Server.Util.{broadcast_room}
use soii_ipc.Server.Messages.{Printf, message_text, data_packet, publish, handle_message}
use soii_ipc.Server.Cleanup.{
  is_inactive, drop_connection, walk_connections, garb_collec_old_conn, walk_packets,
  garb_collec_old_packets,
}
use soii_ipc.Server.Loop.Inductive.{After}
use soii_ipc.Server.Wire.{
  IsMessage, IsClean, IsClean-same, emit-IsClean, IsMessage-IsFair, send_fin-IsClean,
}

Each-erase_idx :
    (P : Packet → Type 0) (ps : List Packet) (i : ℕ) → Each P ps → Each P (erase_idx ps i)
Each-erase_idx P [] i all = tt
Each-erase_idx P (p ∷ ps) zero (here, all) = all
Each-erase_idx P (p ∷ ps) (suc i) (here, all) = (here, Each-erase_idx P ps i all)

module _ ⦃md5 : Md5⦄ where
  data_packet-IsMessage : (time stamp : ℕ) (text : List ℕ) → IsMessage (data_packet time stamp text)
  unfolding data_packet
  data_packet-IsMessage time stamp text =
      let whole = gen_packet-IsWhole time m_type_data text in
      record {
        whole = record { payload = whole.payload; hash = whole.hash };
        type = gen_packet-mtype time m_type_data text;
      }

  broadcast_room-IsClean :
      (room : List ℕ) (p : Packet) (s : Server)
      → IsMessage p
      → IsClean s
      → IsClean (broadcast_room room p s)
  unfolding broadcast_room
  broadcast_room-IsClean [] p s is clean = clean
  broadcast_room-IsClean (fd ∷ room) p s is clean =
      broadcast_room-IsClean room p _ is
        (emit-IsClean (sent fd p) s (IsMessage-IsFair p is, tt) clean)

  publish-IsClean :
      (m : Message) (room text : List ℕ) (s : Server) → IsClean s → IsClean (publish m room text s)
  unfolding publish
  publish-IsClean m room text s clean =
      let is = data_packet-IsMessage (now s) m.timestamp text in
      let told = broadcast_room-IsClean room _ (tick s) is (IsClean-same s _ refl refl clean) in
      record { sent = told.sent; buffered = (is, told.buffered) }

  pub handle_message-IsClean :
      ⦃printf : Printf⦄ (m : Message) (s : Server) → IsClean s → After IsClean (handle_message m s)
  unfolding handle_message
  handle_message-IsClean m s clean = elim (Option-cases (message_text m)) [
    | inl endless ↦ rw (endless, handle_message) tt
    | inr (text, has) ↦ elim (Option-cases (get_elem? s.rooms m.id)) [
      | inl missing ↦ rw (has, missing, handle_message) tt
      | inr (room, there) ↦
          rw (has, there, handle_message)
            (publish-IsClean m room text _ (emit-IsClean _ s tt clean))
    ]
  ]

  drop_connection-IsClean :
      (i : ℕ) (c : Connection) (s : Server) → IsClean s → IsClean (drop_connection i c s)
  unfolding drop_connection
  drop_connection-IsClean i c s clean =
      let told = send_fin-IsClean c.sockfd _ (emit-IsClean _ s tt clean) in
      let forgotten = emit-IsClean (epoll_del c.sockfd) _ tt told in
      IsClean-same (emit (close c.sockfd) _) _ refl refl
        (emit-IsClean (close c.sockfd) _ tt forgotten)

  walk_connections-IsClean :
      (t : ℕ) (cs : List Connection) (i : ℕ) (s : Server)
      → IsClean s
      → IsClean (walk_connections t cs i s)
  unfolding walk_connections
  walk_connections-IsClean t [] i s clean = clean
  walk_connections-IsClean t (c ∷ cs) i s clean = elim (Bool-cases (is_inactive t c)) [
    | inl old ↦
        rw (old, walk_connections)
          (walk_connections-IsClean t cs i _ (drop_connection-IsClean i c s clean))
    | inr young ↦ rw (young, walk_connections) (walk_connections-IsClean t cs (i + 1) s clean)
  ]

  pub garb_collec_old_conn-IsClean :
      (period : ℕ) (s : Server) → IsClean s → IsClean (garb_collec_old_conn period s)
  unfolding garb_collec_old_conn
  garb_collec_old_conn-IsClean period s clean =
      let ticked = IsClean-same s (tick s) refl refl clean in
      elim (Bool-cases (ltb (now s) (s.last_time_cleanup + period))) [
        | inl early ↦ rw early ticked
        | inr due ↦ rw due (walk_connections-IsClean (now s) s.connections 0 (tick s) ticked)
      ]

  walk_packets-IsClean :
      (t : ℕ) (ps : List Packet) (i : ℕ) (s : Server) → IsClean s → IsClean (walk_packets t ps i s)
  unfolding walk_packets delete
  walk_packets-IsClean t [] i s clean = clean
  walk_packets-IsClean t (p ∷ ps) i s clean = elim (Bool-cases (is_old t p.timestamp)) [
    | inl old ↦
        let noted = emit-IsClean (logged (packet_dropped p.timestamp)) s tt clean in
        rw (old, walk_packets)
          (walk_packets-IsClean t ps i _ (record {
            sent = noted.sent;
            buffered = Each-erase_idx IsMessage s.packets i clean.buffered;
          }))
    | inr young ↦ rw (young, walk_packets) (walk_packets-IsClean t ps (i + 1) s clean)
  ]

  pub garb_collec_old_packets-IsClean :
      (period : ℕ) (s : Server) → IsClean s → IsClean (garb_collec_old_packets period s)
  unfolding garb_collec_old_packets
  garb_collec_old_packets-IsClean period s clean =
      elim (Bool-cases (ltb (now s) (s.last_gc_time + period))) [
        | inl early ↦ rw early (IsClean-same s _ refl refl clean)
        | inr due ↦
            let noted =
              emit-IsClean (logged (buffer_cleaned (now s))) _ tt
                (IsClean-same s (tick s) refl refl clean) in
            rw due (IsClean-same _ _ refl refl (walk_packets-IsClean (now s) s.packets 0 _ noted))
      ]
