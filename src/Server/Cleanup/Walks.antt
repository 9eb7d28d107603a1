-- ===== src/Server/Cleanup/Walks.antt =====
-- The walk of the cleaning of sessions deletes by a running index; it amounts to a selection.
use soii_ipc.Base.{
  ℕ, ◌+◌, ◌≤◌, ◌<◌, ◌≡◌, refl, sym, ap, ◌∙◌, Bool, true, false, not, inl, inr, List, [], ◌∷◌, ◌++◌,
  arith, ltb, Bool-cases, length, erase_idx, select, select-true, select-false, erase_idx-append,
  length-snoc, append-nil, append_assoc, map,
}
use soii_ipc.Seq.{delete}
use soii_ipc.Protocol.{Md5}
use soii_ipc.Server.{Connection, Server, Effect, close, now, tick}
use soii_ipc.Server.Util.{leave, send_fin, send_new}
use soii_ipc.Server.Cleanup.{is_inactive, drop_connection, walk_connections, garb_collec_old_conn}

-- The rooms after some sockets have left them all.
unfoldable pub leave_all : List ℕ → List (List ℕ) → List (List ℕ)
leave_all [] rooms = rooms
leave_all (fd ∷ fds) rooms = leave_all fds (map (leave fd) rooms)

-- The sockets that were closed, in order.
abbrev pub closed_fds : List Effect → List ℕ
closed_fds [] = []
closed_fds (close fd ∷ es) = fd ∷ closed_fds es
closed_fds (_ ∷ es) = closed_fds es

abbrev pub fds : List Connection → List ℕ
fds = map λ c. c.sockfd

closed_fds-append : (xs ys : List Effect) → closed_fds (xs ++ ys) ≡ closed_fds xs ++ closed_fds ys
closed_fds-append [] ys = refl
closed_fds-append (close fd ∷ xs) ys = ap (◌∷◌ fd) (closed_fds-append xs ys)
closed_fds-append (_ ∷ xs) ys = closed_fds-append xs ys

abbrev pub is_active : ℕ → Connection → Bool
is_active t c = not (is_inactive t c)

module _ ⦃md5 : Md5⦄ where
  -- What one removal does.
  pub record Dropped (front : List Connection) (c : Connection) (rest : List Connection)
      (s s' : Server) : Type 0 where
    pub connections : s'.connections ≡ front ++ rest
    pub rooms : s'.rooms ≡ map (leave c.sockfd) s.rooms
    pub closed : closed_fds s'.trace ≡ closed_fds s.trace ++ c.sockfd ∷ []
    pub packets : s'.packets ≡ s.packets
    pub last : s'.last_time_cleanup ≡ s.last_time_cleanup

  pub drop_connection-Dropped :
      (front : List Connection) (c : Connection) (rest : List Connection) (s : Server)
      → s.connections ≡ front ++ c ∷ rest
      → Dropped front c rest s (drop_connection (length front) c s)
  unfolding drop_connection delete send_fin send_new
  drop_connection-Dropped front c rest s at = record {
    connections = ap (λ cs. erase_idx cs (length front)) at ∙ erase_idx-append front c rest;
    rooms = refl;
    closed = simp (closed_fds-append, append_assoc);
    packets = refl;
    last = refl;
  }

  -- What a walk over `rest` does, with `front` already behind it.
  record Walked (t : ℕ) (front rest : List Connection) (s s' : Server) : Type 0 where
    connections : s'.connections ≡ front ++ select (is_active t) rest
    rooms : s'.rooms ≡ leave_all (fds (select (is_inactive t) rest)) s.rooms
    closed : closed_fds s'.trace ≡ closed_fds s.trace ++ fds (select (is_inactive t) rest)
    packets : s'.packets ≡ s.packets
    last : s'.last_time_cleanup ≡ s.last_time_cleanup

  Walked-drop :
      (t : ℕ) (front : List Connection) (c : Connection) (rest : List Connection) (s d s' : Server)
      → is_inactive t c ≡ true
      → Dropped front c rest s d
      → Walked t front rest d s'
      → Walked t front (c ∷ rest) s s'
  unfolding leave_all
  Walked-drop t front c rest s d s' old dropped w = record {
    connections = rw (select-false (is_active t) c rest (ap not old)) w.connections;
    rooms =
        rw (select-true (is_inactive t) c rest old)
          (w.rooms ∙ ap (leave_all (fds (select (is_inactive t) rest))) dropped.rooms);
    closed = rw (select-true (is_inactive t) c rest old) (
        w.closed
        ∙ ap (λ xs. xs ++ fds (select (is_inactive t) rest)) dropped.closed
        ∙ append_assoc (closed_fds s.trace) (c.sockfd ∷ []) _);
    packets = w.packets ∙ dropped.packets;
    last = w.last ∙ dropped.last;
  }

  Walked-keep :
      (t : ℕ) (front : List Connection) (c : Connection) (rest : List Connection) (s s' : Server)
      → is_inactive t c ≡ false
      → Walked t (front ++ c ∷ []) rest s s'
      → Walked t front (c ∷ rest) s s'
  Walked-keep t front c rest s s' young w = record {
    connections =
        rw (select-true (is_active t) c rest (ap not young))
          (w.connections ∙ append_assoc front (c ∷ []) _);
    rooms = rw (select-false (is_inactive t) c rest young) w.rooms;
    closed = rw (select-false (is_inactive t) c rest young) w.closed;
    packets = w.packets;
    last = w.last;
  }

  walk_connections-Walked :
      (t : ℕ) (front rest : List Connection) (s : Server)
      → s.connections ≡ front ++ rest
      → Walked t front rest s (walk_connections t rest (length front) s)
  unfolding walk_connections leave_all
  walk_connections-Walked t front [] s at = record {
    connections = at;
    rooms = refl;
    closed = sym (append-nil (closed_fds s.trace));
    packets = refl;
    last = refl;
  }
  walk_connections-Walked t front (c ∷ rest) s at = elim (Bool-cases (is_inactive t c)) [
    | inl old ↦
        let d = drop_connection-Dropped front c rest s at in
        rw (old, walk_connections)
          (Walked-drop t front c rest s _ _ old d (
            walk_connections-Walked t front rest (drop_connection (length front) c s)
              d.connections))
    | inr young ↦
        rw (young, walk_connections)
          (Walked-keep t front c rest s _ young (
            rw (length-snoc front c) at (
              walk_connections-Walked t (front ++ c ∷ []) rest s
                (at ∙ sym (append_assoc front (c ∷ []) rest)))))
  ]

  -- When a cleaning is due it drops the silent subscribers, in turn.
  pub garb_collec_old_conn-walk :
      (period : ℕ) (s : Server)
      → s.last_time_cleanup + period ≤ now s
      → let gone = select (is_inactive (now s)) s.connections in
        let s' = garb_collec_old_conn period s in
        (s'.connections ≡ select (is_active (now s)) s.connections)
        × (s'.rooms ≡ leave_all (fds gone) s.rooms)
        × (closed_fds s'.trace ≡ closed_fds s.trace ++ fds gone)
        × (s'.packets ≡ s.packets)
  unfolding garb_collec_old_conn
  garb_collec_old_conn-walk period s due =
      let e : ltb (now s) (s.last_time_cleanup + period) ≡ false = ground arith in
      let w = walk_connections-Walked (now s) [] s.connections (tick s) refl in
      rw e (w.connections, w.rooms, w.closed, w.packets)

  -- Before that it only reads the clock.
  pub garb_collec_old_conn-early :
      (period : ℕ) (s : Server)
      → now s < s.last_time_cleanup + period
      → garb_collec_old_conn period s ≡ tick s
  unfolding garb_collec_old_conn
  garb_collec_old_conn-early period s early =
      let e : ltb (now s) (s.last_time_cleanup + period) ≡ true = ground arith in rw e

  -- The time of the last cleaning is never moved: once a cleaning was due, every later one is.
  pub garb_collec_old_conn-last :
      (period : ℕ) (s : Server)
      → (garb_collec_old_conn period s).last_time_cleanup ≡ s.last_time_cleanup
  unfolding garb_collec_old_conn
  garb_collec_old_conn-last period s =
      elim (Bool-cases (ltb (now s) (s.last_time_cleanup + period))) [
        | inl early ↦ rw early
        | inr due ↦ rw due (walk_connections-Walked (now s) [] s.connections (tick s) refl).last
      ]
