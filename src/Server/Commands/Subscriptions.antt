-- ===== src/Server/Commands/Subscriptions.antt =====
-- Commands of the CLI that change, or may not change, who is subscribed to which room.
use mathlib.Core.Path.{ap₂, subst}
use soii_ipc.Base.{
  ℕ, suc, ◌^◌, ◌<◌, ◌≤◌, ◌≡◌, ap, ◌∙◌, true, false, inl, inr, List, [], ◌∷◌, ◌++◌, none, some,
  arith, Option-cases, length, get_elem?, set, set-set, get_elem?-outside, get_elem?-inside, pos,
}
use soii_ipc.Base.Words.{increment, decrement}
use soii_ipc.Seq.{delete}
use soii_ipc.Seq.Matching.{first_match, replace_first, remove_first, FirstAt}
use soii_ipc.Protocol.{Md5, gen_packet, m_type_cli_accepted}
use soii_ipc.Server.{
  Connection, Server, no_productores, subscribed, unsubscribed, logged, sent, invalid_command, emit,
  now,
}
use soii_ipc.Server.Util.{send_new}
use soii_ipc.Server.Util.Search.{has_token, is_fd, find_token, find_fd}
use soii_ipc.Server.Commands.{
  Command, cmd_add, cmd_del, is_bad_room, add_command, del_command, subscribe, unsubscribe,
  run_command, handle_command,
}

-- The two comparisons of `int`s amount to one of the room's number.
pub is_bad_room-false : (k : ℕ) → k < no_productores → is_bad_room k ≡ false
is_bad_room-false k h = ground arith

pub is_bad_room-true : (k : ℕ) → no_productores ≤ k → k < 2 ^ 32 → is_bad_room k ≡ true
is_bad_room-true k h w = ground arith

module _ ⦃md5 : Md5⦄ (cmd : Command) (s : Server) where
  -- A token that no session has: nothing happens.
  pub handle_command-unknown :
      first_match (has_token cmd.socket) s.connections ≡ none → handle_command cmd s ≡ some s
  unfolding handle_command
  handle_command-unknown unknown = elim (find_token cmd.socket s.connections) [
    | inl (nowhere, r) ↦ rw (r, handle_command)
    | inr (d, j, m, r, at) ↦ cc
  ]

  pub handle_command-runs :
      (c : Connection)
      → first_match (has_token cmd.socket) s.connections ≡ some c
      → (j : ℕ) × FirstAt (has_token cmd.socket) s.connections c j
        × (handle_command cmd s ≡ run_command j c cmd s)
  unfolding handle_command
  handle_command-runs c known = elim (find_token cmd.socket s.connections) [
    | inl (nowhere, r) ↦ cc
    | inr (d, j, m, r, at) ↦
        let same : d ≡ c = cc in
        (
          j,
          subst (λ e. FirstAt (has_token cmd.socket) s.connections e j) same at,
          rw (r, at.get, handle_command) (ap (λ e. run_command j e cmd s) same),
        )
  ]

-- The server after a client's entry into a room.
abbrev pub joined : ⦃md5 : Md5⦄ → ℕ → Connection → ℕ → List ℕ → Server → Server
joined t c k room s = record s {
  connections =
      replace_first (has_token t)
        (record c { timestamp = s.clock 1; susc_counter = increment c.susc_counter }) s.connections;
  rooms = set s.rooms k (room ++ c.sockfd ∷ []);
  clock = λ n. s.clock (suc (suc n));
  trace =
      (s.trace ++ sent c.sockfd (gen_packet (now s) m_type_cli_accepted []).0 ∷ [])
      ++ logged (subscribed c.sockfd c.token k) ∷ [];
}

-- The server after its exit.
abbrev pub left : ℕ → Connection → ℕ → List ℕ → Server → Server
left t c k room s = record s {
  connections =
      replace_first (has_token t)
        (record c { timestamp = now s; susc_counter = decrement c.susc_counter }) s.connections;
  rooms = set s.rooms k (remove_first (is_fd c.sockfd) room);
  clock = λ n. s.clock (suc n);
  trace = s.trace ++ logged (unsubscribed c.sockfd c.token k) ∷ [];
}

module _ ⦃md5 : Md5⦄ (t : ℕ) (c : Connection) (k : ℕ) (room : List ℕ) (s : Server) where
  subscribe-joined :
      (j : ℕ)
      → FirstAt (has_token t) s.connections c j
      → subscribe j c k room s ≡ joined t c k room s
  unfolding subscribe send_new
  subscribe-joined j at =
      ap (λ cs. record (joined t c k room s) { connections = cs })
        (set-set s.connections j _ _
          ∙ at.replace
              (record c { timestamp = s.clock 1; susc_counter = increment c.susc_counter }))

  unsubscribe-left :
      (j e m : ℕ)
      → FirstAt (has_token t) s.connections c j
      → FirstAt (is_fd c.sockfd) room e m
      → unsubscribe j c k room (pos m) s ≡ left t c k room s
  unfolding unsubscribe delete
  unsubscribe-left j e m at here =
      ap₂ (λ cs r. record (left t c k room s) { connections = cs; rooms = set s.rooms k r })
        (set-set s.connections j _ _
          ∙ at.replace (record c { timestamp = now s; susc_counter = decrement c.susc_counter }))
        here.remove

-- What an addition comes to, by the room that the number names and the client's entry in it.
abbrev pub added : ⦃md5 : Md5⦄ → ℕ → Connection → ℕ → Server → Server
added t c k s = elim (get_elem? s.rooms k) [
  | none ↦ emit invalid_command s
  | some room ↦ elim (first_match (is_fd c.sockfd) room) [
    | none ↦ joined t c k room s
    | some _ ↦ emit invalid_command s
  ]
]

-- What a removal comes to.
abbrev pub removed : ℕ → Connection → ℕ → Server → Server
removed t c k s = elim (get_elem? s.rooms k) [
  | none ↦ emit invalid_command s
  | some room ↦ elim (first_match (is_fd c.sockfd) room) [
    | none ↦ emit invalid_command s
    | some _ ↦ left t c k room s
  ]
]

module _ ⦃md5 : Md5⦄ (t : ℕ) (c : Connection) (k : ℕ) (s : Server)
    (rooms : length s.rooms ≡ no_productores) (word : k < 2 ^ 32) where
  small : (room : List ℕ) → get_elem? s.rooms k ≡ some room → k < no_productores
  small room there = omega (arith, get_elem?-inside s.rooms k room there, rooms)

  big : get_elem? s.rooms k ≡ none → no_productores ≤ k
  big missing = omega (arith, get_elem?-outside s.rooms k missing, rooms)

  pub add_command-added :
      (j : ℕ) → FirstAt (has_token t) s.connections c j → add_command j c k s ≡ some (added t c k s)
  unfolding add_command
  add_command-added j at = elim (Option-cases (get_elem? s.rooms k)) [
    | inl missing ↦ rw (is_bad_room-true k (big missing) word, missing, add_command, added)
    | inr (room, there) ↦ elim (find_fd c.sockfd room) [
      | inl (nowhere, r) ↦
          rw (is_bad_room-false k (small room there), there, r, nowhere, add_command, added)
            (ap some (subscribe-joined t c k room s j at))
      | inr (d, m, found, r, here) ↦
          rw (is_bad_room-false k (small room there), there, r, found, add_command, added)
    ]
  ]

  pub del_command-removed :
      (j : ℕ)
      → FirstAt (has_token t) s.connections c j
      → del_command j c k s ≡ some (removed t c k s)
  unfolding del_command
  del_command-removed j at = elim (Option-cases (get_elem? s.rooms k)) [
    | inl missing ↦ rw (is_bad_room-true k (big missing) word, missing, del_command, removed)
    | inr (room, there) ↦ elim (find_fd c.sockfd room) [
      | inl (nowhere, r) ↦
          rw (is_bad_room-false k (small room there), there, r, nowhere, del_command, removed)
      | inr (d, m, found, r, here) ↦
          rw (is_bad_room-false k (small room there), there, r, found, del_command, removed)
            (ap some (unsubscribe-left t c k room s j d m at here))
    ]
  ]

  -- The two commands of a known client.
  pub handle_command-added :
      first_match (has_token t) s.connections ≡ some c
      → handle_command (record { type = cmd_add; socket = t; productor = k }) s
        ≡ some (added t c k s)
  unfolding run_command
  handle_command-added known =
      let (j, at, runs) =
        handle_command-runs (record { type = cmd_add; socket = t; productor = k }) s c known in
      runs ∙ add_command-added j at

  pub handle_command-removed :
      first_match (has_token t) s.connections ≡ some c
      → handle_command (record { type = cmd_del; socket = t; productor = k }) s
        ≡ some (removed t c k s)
  unfolding run_command
  handle_command-removed known =
      let (j, at, runs) =
        handle_command-runs (record { type = cmd_del; socket = t; productor = k }) s c known in
      runs ∙ del_command-removed j at

-- What an addition comes to, by the client that the token names.
abbrev pub addition : ⦃md5 : Md5⦄ → ℕ → ℕ → Server → Server
addition t k s = elim (first_match (has_token t) s.connections) [
  | none ↦ s
  | some c ↦ added t c k s
]

abbrev pub removal : ℕ → ℕ → Server → Server
removal t k s = elim (first_match (has_token t) s.connections) [
  | none ↦ s
  | some c ↦ removed t c k s
]

module _ ⦃md5 : Md5⦄ (t k : ℕ) (s : Server) (rooms : length s.rooms ≡ no_productores)
    (word : k < 2 ^ 32) where
  -- With three rooms, the client that a command of addition names by its token enters the room,
  -- behind all others, exactly if the room exists and the client is not in it: its counter is raised,
  -- it is told so, and its last sign of life is noted. If the client is known, any other addition is
  -- reported; if not, it is passed over; the state is otherwise kept.
  pub handle_command-addition :
      handle_command (record { type = cmd_add; socket = t; productor = k }) s
      ≡ some (addition t k s)
  handle_command-addition = elim (Option-cases (first_match (has_token t) s.connections)) [
    | inl unknown ↦
        rw (unknown, addition)
          (handle_command-unknown (record { type = cmd_add; socket = t; productor = k }) s unknown)
    | inr (c, known) ↦ rw (known, addition) (handle_command-added t c k s rooms word known)
  ]

  -- With three rooms, the client that a command of removal names by its token leaves the room, by its
  -- first entry, exactly if the room exists and the client is in it: its counter is lowered and its
  -- last sign of life is noted, but nothing is sent. If the client is known, any other removal is
  -- reported; if not, it is passed over; the state is otherwise kept.
  pub handle_command-removal :
      handle_command (record { type = cmd_del; socket = t; productor = k }) s ≡ some (removal t k s)
  handle_command-removal = elim (Option-cases (first_match (has_token t) s.connections)) [
    | inl unknown ↦
        rw (unknown, removal)
          (handle_command-unknown (record { type = cmd_del; socket = t; productor = k }) s unknown)
    | inr (c, known) ↦ rw (known, removal) (handle_command-removed t c k s rooms word known)
  ]
