-- ===== src/Server/Broker/Deliveries.antt =====
-- What a producer's message and the cleanings are to the broker.
use soii_ipc.Base.{
  suc, ◌-◌, subst, ℕ, ◌+◌, ◌≡◌, refl, sym, ap, ◌∙◌, true, false, inl, inr, List, [], ◌∷◌, ◌++◌,
  some, arith, ◌==◌, ltb, if◌then◌else◌, Bool-cases, Option-cases, get_elem?, map, append-nil,
}
use soii_ipc.Protocol.{Md5, Packet, m_type_data}
use soii_ipc.Queue.{Message}
use soii_ipc.Server.{
  Connection, Server, Effect, sent, logged, message_received, connection_closed, buffer_cleaned,
  packet_dropped, close, epoll_del, emit, now, tick, is_old,
}
use soii_ipc.Server.Util.{send_fin}
use soii_ipc.Server.Messages.{Printf, message_text, data_packet, handle_message}
use soii_ipc.Server.Messages.Delivery
use soii_ipc.Server.Messages.Delivery.{data_packet-mtype, handle_message-delivers}
use soii_ipc.Server.Cleanup.{
  is_inactive, drop_connection, walk_connections, garb_collec_old_conn, walk_packets,
  garb_collec_old_packets,
}
use soii_ipc.Server.Cleanup.Packets.{garb_collec_old_packets-select}
use soii_ipc.Server.Loop.Inductive.{After}
use soii_ipc.Server.Loop.Inductive.{Inputs}
use soii_ipc.Server.Broker.Causes.{Refines, Refines-same, Refines-one, Refines-trans}
use soii_ipc.Server.Broker.{
  members_of, published, vanished, forgotten, happen, view, copies, count, inbox_of, heard_of,
  inbox_of-append, heard_of-append, Broker-ext, emit-silent, send_fin-silent,
}
use soii_ipc.Server.Broker.Rooms.{members_of-at, members_of-leave}

-- A message to a room reaches a socket as often as the room holds it.
broadcast-inbox :
    (g : ℕ) (p : Packet) (room : List ℕ)
    → p.mtype ≡ m_type_data
    → inbox_of g (map (λ fd. sent fd p) room) ≡ copies (count g room) p
broadcast-inbox g p [] is = refl
broadcast-inbox g p (fd ∷ room) is =
    let type : (p.mtype == m_type_data) ≡ true = ground arith in
    elim (Bool-cases (g == fd)) [
      | inl mine ↦ rw (mine, type) (ap (◌∷◌ p) (broadcast-inbox g p room is) ∙ more (count g room))
      | inr other ↦ rw other (broadcast-inbox g p room is ∙ as_many (count g room))
    ]
  where
    as_many : (n : ℕ) → copies n p ≡ copies (0 + n) p
    as_many n = let same : n ≡ 0 + n = omega arith in ap (λ k. copies k p) same

    more : (n : ℕ) → p ∷ copies n p ≡ copies (1 + n) p
    more n = let same : suc n ≡ 1 + n = omega arith in ap (λ k. copies k p) same

broadcast-heard : (p : Packet) (room : List ℕ) → heard_of (map (λ fd. sent fd p) room) ≡ []
broadcast-heard p [] = refl
broadcast-heard p (fd ∷ room) = broadcast-heard p room

module _ ⦃md5 : Md5⦄ where
  pub publish-view :
      (m : Message) (text room : List ℕ) (s : Server)
      → get_elem? s.rooms m.id ≡ some room
      → view (Delivery.published m text room s)
        ≡ happen (published m.id (now s) m.timestamp text) (view s)
  unfolding happen
  publish-view m text room s at =
      let p = data_packet (now s) m.timestamp text in
      let noted = logged (message_received m.id m.timestamp) ∷ [] in
      let out : List Effect = map (λ fd. sent fd p) room in
      Broker-ext (view (Delivery.published m text room s))
        (happen (published m.id (now s) m.timestamp text) (view s)) (λ j g. refl)
        (λ g.
          inbox_of-append g (s.trace ++ noted) out
          ∙ ap (λ xs. xs ++ inbox_of g out)
              (inbox_of-append g s.trace noted ∙ append-nil (inbox_of g s.trace))
          ∙ ap (λ xs. inbox_of g s.trace ++ xs)
              (broadcast-inbox g p room (data_packet-mtype (now s) m.timestamp text)
                ∙ ap (λ n. copies n p) (sym (members_of-at s.rooms m.id room g at))))
        refl
        (heard_of-append (s.trace ++ noted) out
          ∙ ap (λ hs. heard_of (s.trace ++ noted) ++ hs) (broadcast-heard p room)
          ∙ append-nil (heard_of (s.trace ++ noted))
          ∙ heard_of-append s.trace noted)

module _ ⦃md5 : Md5⦄ ⦃printf : Printf⦄ (inputs : Inputs) where
  pub handle_message-Refines :
      (m : Message) (s : Server) → inputs.message m → After (Refines inputs s) (handle_message m s)
  unfolding handle_message
  handle_message-Refines m s met = elim (Option-cases (message_text m)) [
    | inl endless ↦ rw (endless, handle_message) tt
    | inr (text, has) ↦ elim (Option-cases (get_elem? s.rooms m.id)) [
      | inl missing ↦ rw (has, missing, handle_message) tt
      | inr (room, at) ↦
          subst (After (Refines inputs s)) (sym (handle_message-delivers m text room s has at)) (
            Refines-one inputs (published m.id (now s) m.timestamp text) s
              (Delivery.published m text room s) (m, met, refl, refl, has)
              (publish-view m text room s at))
    ]
  ]

  drop_connection-Refines :
      (i : ℕ) (c : Connection) (s : Server) → Refines inputs s (drop_connection i c s)
  unfolding drop_connection happen
  drop_connection-Refines i c s =
      let noted = emit (logged (connection_closed c.token c.sockfd)) s in
      let told = send_fin c.sockfd noted in
      let gone = emit (epoll_del c.sockfd) told in
      let shut = emit (close c.sockfd) gone in
      let same : view shut ≡ view s =
        emit-silent (close c.sockfd) gone refl
        ∙ emit-silent (epoll_del c.sockfd) told refl
        ∙ send_fin-silent c.sockfd noted
        ∙ emit-silent (logged (connection_closed c.token c.sockfd)) s refl in
      Refines-one inputs (vanished c.sockfd) s (drop_connection i c s) tt (
        Broker-ext (view (drop_connection i c s)) (happen (vanished c.sockfd) (view s))
          (λ j g.
            members_of-leave c.sockfd gone.rooms j g
            ∙ ap (λ b. if g == c.sockfd then b.members j g - 1 else b.members j g) same)
          (λ g. ap (λ b. b.inbox g) same) (ap (λ b. b.history) same) (ap (λ b. b.heard) same))

  walk_connections-Refines :
      (time_actual : ℕ) (cs : List Connection) (i : ℕ) (s : Server)
      → Refines inputs s (walk_connections time_actual cs i s)
  unfolding walk_connections
  walk_connections-Refines time_actual [] i s = Refines-same inputs s s refl
  walk_connections-Refines time_actual (c ∷ cs) i s =
      elim (Bool-cases (is_inactive time_actual c)) [
        | inl old ↦
            rw (old, walk_connections)
              (Refines-trans inputs s (drop_connection i c s)
                (walk_connections time_actual cs i (drop_connection i c s))
                (drop_connection-Refines i c s)
                (walk_connections-Refines time_actual cs i (drop_connection i c s)))
        | inr young ↦
            rw (young, walk_connections) (walk_connections-Refines time_actual cs (i + 1) s)
      ]

  pub garb_collec_old_conn-Refines :
      (period : ℕ) (s : Server) → Refines inputs s (garb_collec_old_conn period s)
  unfolding garb_collec_old_conn
  garb_collec_old_conn-Refines period s =
      elim (Bool-cases (ltb (now s) (s.last_time_cleanup + period))) [
        | inl early ↦ rw early (Refines-same inputs s s refl)
        | inr due ↦ rw due (walk_connections-Refines (now s) s.connections 0 (tick s))
      ]

-- A cleaning of the buffer sends nothing.
walk_packets-inbox :
    (g time_actual : ℕ) (ps : List Packet) (i : ℕ) (s : Server)
    → inbox_of g (walk_packets time_actual ps i s).trace ≡ inbox_of g s.trace
unfolding walk_packets
walk_packets-inbox g time_actual [] i s = refl
walk_packets-inbox g time_actual (p ∷ ps) i s = elim (Bool-cases (is_old time_actual p.timestamp)) [
  | inl old ↦
      rw (old, walk_packets)
        (walk_packets-inbox g time_actual ps i _
          ∙ ap (λ b. b.inbox g) (emit-silent (logged (packet_dropped p.timestamp)) s refl))
  | inr young ↦ rw (young, walk_packets) (walk_packets-inbox g time_actual ps (i + 1) s)
]

walk_packets-heard :
    (time_actual : ℕ) (ps : List Packet) (i : ℕ) (s : Server)
    → heard_of (walk_packets time_actual ps i s).trace ≡ heard_of s.trace
unfolding walk_packets
walk_packets-heard time_actual [] i s = refl
walk_packets-heard time_actual (p ∷ ps) i s = elim (Bool-cases (is_old time_actual p.timestamp)) [
  | inl old ↦
      rw (old, walk_packets)
        (walk_packets-heard time_actual ps i _
          ∙ ap (λ b. b.heard) (emit-silent (logged (packet_dropped p.timestamp)) s refl))
  | inr young ↦ rw (young, walk_packets) (walk_packets-heard time_actual ps (i + 1) s)
]

-- A cleaning that is due sends nothing either, and notes no message.
cleaning-trace :
    (period : ℕ) (s : Server) (due : ltb (now s) (s.last_gc_time + period) ≡ false)
    → ((g : ℕ) → inbox_of g (garb_collec_old_packets period s).trace ≡ inbox_of g s.trace)
      × (heard_of (garb_collec_old_packets period s).trace ≡ heard_of s.trace)
unfolding garb_collec_old_packets
cleaning-trace period s due =
    let noted = emit (logged (buffer_cleaned (now s))) (tick s) in
    let same : view noted ≡ view s = emit-silent (logged (buffer_cleaned (now s))) (tick s) refl in
    rw due (
      (λ g. walk_packets-inbox g (now s) s.packets 0 noted ∙ ap (λ b. b.inbox g) same),
      walk_packets-heard (now s) s.packets 0 noted ∙ ap (λ b. b.heard) same,
    )

module _ ⦃md5 : Md5⦄ ⦃printf : Printf⦄ (inputs : Inputs) where
  pub garb_collec_old_packets-Refines :
      (period : ℕ) (s : Server) → Refines inputs s (garb_collec_old_packets period s)
  unfolding garb_collec_old_packets happen
  garb_collec_old_packets-Refines period s =
      elim (Bool-cases (ltb (now s) (s.last_gc_time + period))) [
        | inl early ↦ rw early (Refines-same inputs s s refl)
        | inr due ↦
            let (packets, connections, rooms, at) =
              garb_collec_old_packets-select period s (ground arith) in
            let (inbox, heard) = cleaning-trace period s due in
            Refines-one inputs (forgotten (now s)) s (garb_collec_old_packets period s) tt (
              Broker-ext (view (garb_collec_old_packets period s))
                (happen (forgotten (now s)) (view s)) (λ j g. ap (λ rs. members_of rs j g) rooms)
                inbox packets heard)
      ]
