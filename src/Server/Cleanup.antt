-- ===== src/Server/Cleanup.antt =====
-- `garb_collec_old_conn` and `garb_collec_old_packets` (server/src/srv_util.c). A walk holds the
-- nodes that it has yet to visit and the index of the next one.
pub mod Walks
pub mod Selection
pub mod Packets
pub mod Rooms
use soii_ipc.Base.{
  ℕ, suc, ◌+◌, Bool, true, false, ◌&&◌, List, [], ◌∷◌, ltb, if◌then◌else◌, pos, map,
}
use soii_ipc.Base.Words.{slt}
use soii_ipc.Seq.{delete}
use soii_ipc.Protocol.{Md5, Packet}
use soii_ipc.Server.{
  Connection, Server, buffer_cleanup_period, connection_closed, buffer_cleaned, packet_dropped,
  epoll_del, close, logged, emit, now, tick, is_old,
}
use soii_ipc.Server.Util.{leave, send_fin}

-- The client is silent, and should not be: it has a subscription.
abbrev pub is_inactive : ℕ → Connection → Bool
is_inactive time_actual c = is_old time_actual c.timestamp && slt 0 c.susc_counter

module _ ⦃md5 : Md5⦄ where
  unfoldable pub drop_connection : ℕ → Connection → Server → Server
  drop_connection index c s =
      let told = send_fin c.sockfd (emit (logged (connection_closed c.token c.sockfd)) s) in
      let forgotten = emit (epoll_del c.sockfd) told in
      let left = record forgotten { rooms = map (leave c.sockfd) forgotten.rooms } in
      let closed = emit (close c.sockfd) left in
      record closed { connections = (delete (pos index) closed.connections).0 }

  unfoldable pub walk_connections : ℕ → List Connection → ℕ → Server → Server
  walk_connections time_actual [] index s = s
  walk_connections time_actual (c ∷ rest) index s = elim (is_inactive time_actual c) [
    | true ↦ walk_connections time_actual rest index (drop_connection index c s)
    | false ↦ walk_connections time_actual rest (index + 1) s
  ]

  -- The time of the last cleaning is read and not written.
  unfoldable pub garb_collec_old_conn : ℕ → Server → Server
  garb_collec_old_conn period s =
      let time_actual = now s in
      let s' = tick s in
      if ltb time_actual (s'.last_time_cleanup + period)
      then s'
      else walk_connections time_actual s'.connections 0 s'

unfoldable pub walk_packets : ℕ → List Packet → ℕ → Server → Server
walk_packets time_actual [] index s = s
walk_packets time_actual (p ∷ rest) index s = elim (is_old time_actual p.timestamp) [
  | true ↦ walk_packets time_actual rest index (
      let noted = emit (logged (packet_dropped p.timestamp)) s in
      record noted { packets = (delete (pos index) noted.packets).0 })
  | false ↦ walk_packets time_actual rest (index + 1) s
]

unfoldable pub garb_collec_old_packets : ℕ → Server → Server
garb_collec_old_packets period s =
    let time_actual = now s in
    let s' = tick s in
    if ltb time_actual (s'.last_gc_time + period)
    then s'
    else (let noted = emit (logged (buffer_cleaned time_actual)) s' in
        record (walk_packets time_actual noted.packets 0 noted) { last_gc_time = time_actual })
