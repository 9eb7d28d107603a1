-- ===== src/Server/Cleanup/Rooms.antt =====
-- The cleanings keep the number of rooms.
use soii_ipc.Base.{ℕ, ◌+◌, ◌≡◌, ◌∙◌, inl, inr, List, [], ◌∷◌, ltb, Bool-cases, length}
use soii_ipc.Protocol.{Md5, Packet}
use soii_ipc.Server.{Connection, Server, now, tick, is_old}
use soii_ipc.Server.Util.{send_fin, send_new}
use soii_ipc.Server.Clients.Faults.{length-map}
use soii_ipc.Server.Cleanup.{
  is_inactive, drop_connection, walk_connections, garb_collec_old_conn, walk_packets,
  garb_collec_old_packets,
}

module _ ⦃md5 : Md5⦄ (n : ℕ) where
  drop_connection-rooms :
      (i : ℕ) (c : Connection) (s : Server)
      → length s.rooms ≡ n
      → length (drop_connection i c s).rooms ≡ n
  unfolding drop_connection send_fin send_new
  drop_connection-rooms i c s rooms = length-map _ s.rooms ∙ rooms

  walk_connections-rooms :
      (time_actual : ℕ) (cs : List Connection) (i : ℕ) (s : Server)
      → length s.rooms ≡ n
      → length (walk_connections time_actual cs i s).rooms ≡ n
  unfolding walk_connections
  walk_connections-rooms time_actual [] i s rooms = rooms
  walk_connections-rooms time_actual (c ∷ cs) i s rooms =
      elim (Bool-cases (is_inactive time_actual c)) [
        | inl old ↦
            rw (old, walk_connections)
              (walk_connections-rooms time_actual cs i (drop_connection i c s)
                (drop_connection-rooms i c s rooms))
        | inr young ↦
            rw (young, walk_connections) (walk_connections-rooms time_actual cs (i + 1) s rooms)
      ]

  pub garb_collec_old_conn-rooms :
      (period : ℕ) (s : Server)
      → length s.rooms ≡ n
      → length (garb_collec_old_conn period s).rooms ≡ n
  unfolding garb_collec_old_conn
  garb_collec_old_conn-rooms period s rooms =
      elim (Bool-cases (ltb (now s) (s.last_time_cleanup + period))) [
        | inl early ↦ rw early rooms
        | inr due ↦ rw due (walk_connections-rooms (now s) s.connections 0 (tick s) rooms)
      ]

walk_packets-rooms :
    (n time_actual : ℕ) (ps : List Packet) (i : ℕ) (s : Server)
    → length s.rooms ≡ n
    → length (walk_packets time_actual ps i s).rooms ≡ n
unfolding walk_packets
walk_packets-rooms n time_actual [] i s rooms = rooms
walk_packets-rooms n time_actual (p ∷ ps) i s rooms =
    elim (Bool-cases (is_old time_actual p.timestamp)) [
      | inl old ↦ rw (old, walk_packets) (walk_packets-rooms n time_actual ps i _ rooms)
      | inr young ↦ rw (young, walk_packets) (walk_packets-rooms n time_actual ps (i + 1) s rooms)
    ]

pub garb_collec_old_packets-rooms :
    (n period : ℕ) (s : Server)
    → length s.rooms ≡ n
    → length (garb_collec_old_packets period s).rooms ≡ n
unfolding garb_collec_old_packets
garb_collec_old_packets-rooms n period s rooms =
    elim (Bool-cases (ltb (now s) (s.last_gc_time + period))) [
      | inl early ↦ rw early rooms
      | inr due ↦ rw due (walk_packets-rooms n (now s) s.packets 0 _ rooms)
    ]
