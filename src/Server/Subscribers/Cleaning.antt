-- ===== src/Server/Subscribers/Cleaning.antt =====
-- The cleanings keep what holds between sessions and rooms.
use soii_ipc.Base.{
  arith, ℕ, ◌+◌, ◌≡◌, refl, sym, ap, subst, ◌∙◌, false, inl, inr, List, [], ◌∷◌, ◌++◌, ltb, ◌==◌,
  Bool-cases, map, length, length-snoc, append_assoc,
}
use soii_ipc.Protocol.{Md5, Packet}
use soii_ipc.Server.{Connection, Server, now, tick, is_old}
use soii_ipc.Server.Util.{leave}
use soii_ipc.Server.Util.Search.{leave-remove_first}
use soii_ipc.Server.Clients.Faults.{length-map}
use soii_ipc.Server.Cleanup.{
  is_inactive, drop_connection, walk_connections, garb_collec_old_conn, walk_packets,
  garb_collec_old_packets,
}
use soii_ipc.Server.Cleanup.Walks.{drop_connection-Dropped}
use soii_ipc.Server.Subscribers.{enrolled, Others, Counted, Once, AllOnce, WellFormed}
use soii_ipc.Server.Subscribers.Shelter.{Others-insert, enrolled-leave}
use soii_ipc.Server.Subscribers.Changes.{swap_miss, holds-remove_first_other, Once-remove_first}
use soii_ipc.Server.Subscribers.Preserved.{Counted-Others}

-- A session in the middle of the list.
Others-without :
    (fd : ℕ) (front : List Connection) (c : Connection) (rest : List Connection)
    → Others fd (front ++ c ∷ rest)
    → Others fd (front ++ rest)
Others-without fd [] c rest (here, others) = others
Others-without fd (d ∷ front) c rest (here, others) = (here, Others-without fd front c rest others)

Others-middle :
    (fd : ℕ) (front : List Connection) (c : Connection) (rest : List Connection)
    → Others fd (front ++ c ∷ rest)
    → (fd == c.sockfd) ≡ false
Others-middle fd [] c rest (here, others) = here
Others-middle fd (d ∷ front) c rest (here, others) = Others-middle fd front c rest others

Counted-without :
    (rooms : List (List ℕ)) (front : List Connection) (c : Connection) (rest : List Connection)
    → Counted rooms (front ++ c ∷ rest)
    → Counted rooms (front ++ rest) × Others c.sockfd (front ++ rest)
Counted-without rooms [] c rest (here, apart, counted) = (counted, apart)
Counted-without rooms (d ∷ front) c rest (here, apart, counted) =
    let (counted', others) = Counted-without rooms front c rest counted in
    (
      (here, Others-without d.sockfd front c rest apart, counted'),
      (swap_miss d.sockfd c.sockfd (Others-middle d.sockfd front c rest apart), others),
    )

enrolled-leave_other :
    (g fd : ℕ) (rooms : List (List ℕ))
    → (fd == g) ≡ false
    → enrolled g (map (leave fd) rooms) ≡ enrolled g rooms
enrolled-leave_other g fd [] far = refl
enrolled-leave_other g fd (r ∷ rooms) far = rw (
  leave-remove_first fd r,
  holds-remove_first_other g fd r (swap_miss fd g far),
  enrolled-leave_other g fd rooms far,
)

pub AllOnce-leave :
    (fd : ℕ) (rooms : List (List ℕ)) → AllOnce rooms → AllOnce (map (leave fd) rooms)
AllOnce-leave fd [] all = all
AllOnce-leave fd (r ∷ rooms) (once, all) = (
  subst Once (sym (leave-remove_first fd r)) (Once-remove_first fd r once),
  AllOnce-leave fd rooms all,
)

module _ ⦃md5 : Md5⦄ where
  drop_connection-WellFormed :
      (front : List Connection) (c : Connection) (rest : List Connection) (s : Server)
      → s.connections ≡ front ++ c ∷ rest
      → WellFormed s
      → WellFormed (drop_connection (length front) c s)
  drop_connection-WellFormed front c rest s at ok =
      let gone : (g : ℕ)
          → Others g (front ++ rest)
          → enrolled g (map (leave c.sockfd) s.rooms) ≡ 0 =
        λ g others'. elim (Bool-cases (g == c.sockfd)) [
          | inl hit ↦
              let same : g ≡ c.sockfd = ground arith in
              ap (λ z. enrolled z (map (leave c.sockfd) s.rooms)) same
              ∙ enrolled-leave c.sockfd s.rooms ok.once
          | inr far ↦
              enrolled-leave_other g c.sockfd s.rooms (swap_miss g c.sockfd far)
              ∙ ok.sheltered g
                  (subst (Others g) (sym at) (Others-insert g front c rest far others'))
        ] in
      let d = drop_connection-Dropped front c rest s at in
      let (counted, others) =
        Counted-without s.rooms front c rest (subst (Counted s.rooms) at ok.counted) in
      let moved : Counted (map (leave c.sockfd) s.rooms) (front ++ rest) =
        Counted-Others c.sockfd s.rooms (map (leave c.sockfd) s.rooms) (front ++ rest)
          (λ g far. enrolled-leave_other g c.sockfd s.rooms far) others counted in
      record {
        rooms = ap length d.rooms ∙ length-map _ s.rooms ∙ ok.rooms;
        once = subst AllOnce (sym d.rooms) (AllOnce-leave c.sockfd s.rooms ok.once);
        counted =
            subst (λ rs. Counted rs (drop_connection (length front) c s).connections) (sym d.rooms)
              (subst (Counted (map (leave c.sockfd) s.rooms)) (sym d.connections) moved);
        sheltered =
            λ g others'. ap (enrolled g) d.rooms ∙ gone g (subst (Others g) d.connections others');
      }

  walk_connections-WellFormed :
      (t : ℕ) (front rest : List Connection) (s : Server)
      → s.connections ≡ front ++ rest
      → WellFormed s
      → WellFormed (walk_connections t rest (length front) s)
  unfolding walk_connections
  walk_connections-WellFormed t front [] s at ok = ok
  walk_connections-WellFormed t front (c ∷ rest) s at ok = elim (Bool-cases (is_inactive t c)) [
    | inl old ↦
        let d = drop_connection-Dropped front c rest s at in
        rw (old, walk_connections)
          (walk_connections-WellFormed t front rest (drop_connection (length front) c s)
            d.connections (drop_connection-WellFormed front c rest s at ok))
    | inr young ↦
        rw (young, walk_connections)
          (rw (length-snoc front c) at (
            walk_connections-WellFormed t (front ++ c ∷ []) rest s
              (at ∙ sym (append_assoc front (c ∷ []) rest)) ok))
  ]

  pub garb_collec_old_conn-WellFormed :
      (period : ℕ) (s : Server) → WellFormed s → WellFormed (garb_collec_old_conn period s)
  unfolding garb_collec_old_conn
  garb_collec_old_conn-WellFormed period s ok =
      let ok' : WellFormed (tick s) = record {
        rooms = ok.rooms;
        once = ok.once;
        counted = ok.counted;
        sheltered = ok.sheltered;
      } in
      elim (Bool-cases (ltb (now s) (s.last_time_cleanup + period))) [
        | inl early ↦ rw early ok'
        | inr due ↦ rw due (walk_connections-WellFormed (now s) [] s.connections (tick s) refl ok')
      ]

walk_packets-WellFormed :
    (t : ℕ) (ps : List Packet) (i : ℕ) (s : Server)
    → WellFormed s
    → WellFormed (walk_packets t ps i s)
unfolding walk_packets
walk_packets-WellFormed t [] i s ok = ok
walk_packets-WellFormed t (p ∷ ps) i s ok = elim (Bool-cases (is_old t p.timestamp)) [
  | inl old ↦
      rw (old, walk_packets)
        (walk_packets-WellFormed t ps i _ (record {
          rooms = ok.rooms;
          once = ok.once;
          counted = ok.counted;
          sheltered = ok.sheltered;
        }))
  | inr young ↦ rw (young, walk_packets) (walk_packets-WellFormed t ps (i + 1) s ok)
]

pub garb_collec_old_packets-WellFormed :
    (period : ℕ) (s : Server) → WellFormed s → WellFormed (garb_collec_old_packets period s)
unfolding garb_collec_old_packets
garb_collec_old_packets-WellFormed period s ok =
    elim (Bool-cases (ltb (now s) (s.last_gc_time + period))) [
      | inl early ↦ rw early (record {
        rooms = ok.rooms;
        once = ok.once;
        counted = ok.counted;
        sheltered = ok.sheltered;
      })
      | inr due ↦
          let ok' = walk_packets-WellFormed (now s) s.packets 0 _ (record {
            rooms = ok.rooms;
            once = ok.once;
            counted = ok.counted;
            sheltered = ok.sheltered;
          }) in
          rw due (record {
            rooms = ok'.rooms;
            once = ok'.once;
            counted = ok'.counted;
            sheltered = ok'.sheltered;
          })
    ]
