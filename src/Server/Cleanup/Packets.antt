-- ===== src/Server/Cleanup/Packets.antt =====
-- The walk of the cleaning of the buffer deletes by a running index; it amounts to a selection.
use soii_ipc.Base.{
  ℕ, ◌+◌, ◌≤◌, ◌≡◌, refl, sym, ap, ◌∙◌, Bool, false, not, inl, inr, List, [], ◌∷◌, ◌++◌, pos, arith,
  ltb, Bool-cases, length, erase_idx, select, select-true, select-false, erase_idx-append,
  length-snoc, append_assoc,
}
use soii_ipc.Seq.{delete}
use soii_ipc.Protocol.{Packet}
use soii_ipc.Server.{Server, logged, packet_dropped, buffer_cleaned, emit, now, tick, is_old}
use soii_ipc.Server.Cleanup.{walk_packets, garb_collec_old_packets}

abbrev pub is_recent : ℕ → Packet → Bool
is_recent t p = not (is_old t p.timestamp)

-- What a walk over `rest` does, with `front` already behind it.
record WalkedPackets (t : ℕ) (front rest : List Packet) (s s' : Server) : Type 0 where
  packets : s'.packets ≡ front ++ select (is_recent t) rest
  connections : s'.connections ≡ s.connections
  rooms : s'.rooms ≡ s.rooms
  cleanup : s'.last_time_cleanup ≡ s.last_time_cleanup

-- The state after the removal of packet `index`.
abbrev drop_packet : ℕ → Packet → Server → Server
drop_packet index p s =
    let noted = emit (logged (packet_dropped p.timestamp)) s in
    record noted { packets = (delete (pos index) noted.packets).0 }

walk_packets-WalkedPackets :
    (t : ℕ) (front rest : List Packet) (s : Server)
    → s.packets ≡ front ++ rest
    → WalkedPackets t front rest s (walk_packets t rest (length front) s)
unfolding walk_packets delete
walk_packets-WalkedPackets t front [] s at = record {
  packets = at;
  connections = refl;
  rooms = refl;
  cleanup = refl;
}
walk_packets-WalkedPackets t front (p ∷ rest) s at = elim (Bool-cases (is_old t p.timestamp)) [
  | inl old ↦
      let w =
        walk_packets-WalkedPackets t front rest (drop_packet (length front) p s)
          (ap (λ ps. erase_idx ps (length front)) at ∙ erase_idx-append front p rest) in
      rw (old, walk_packets)
        (record {
          packets = rw (select-false (is_recent t) p rest (ap not old)) w.packets;
          connections = w.connections;
          rooms = w.rooms;
          cleanup = w.cleanup;
        })
  | inr young ↦
      let w = rw (length-snoc front p) at (
        walk_packets-WalkedPackets t (front ++ p ∷ []) rest s
          (at ∙ sym (append_assoc front (p ∷ []) rest))) in
      rw (young, walk_packets)
        (record {
          packets =
              rw (select-true (is_recent t) p rest (ap not young))
                (w.packets ∙ append_assoc front (p ∷ []) _);
          connections = w.connections;
          rooms = w.rooms;
          cleanup = w.cleanup;
        })
]

-- When a cleaning is due the packets older than the timeout are dropped, the others
-- stay in order, nothing else of the server changes, and the cleaning's time is noted.
pub garb_collec_old_packets-select :
    (period : ℕ) (s : Server)
    → s.last_gc_time + period ≤ now s
    → let s' = garb_collec_old_packets period s in
      (s'.packets ≡ select (is_recent (now s)) s.packets)
      × (s'.connections ≡ s.connections)
      × (s'.rooms ≡ s.rooms)
      × (s'.last_gc_time ≡ now s)
unfolding garb_collec_old_packets
garb_collec_old_packets-select period s due =
    let e : ltb (now s) (s.last_gc_time + period) ≡ false = ground arith in
    let noted = emit (logged (buffer_cleaned (now s))) (tick s) in
    let w = walk_packets-WalkedPackets (now s) [] s.packets noted refl in
    rw e (w.packets, w.connections, w.rooms, refl)
