-- ===== src/Server/Loop/RoundTrip.antt =====
-- Two commands in turn, as the main loop takes them.
use soii_ipc.Base.{
  ℕ, suc, ◌^◌, ◌<◌, ◌≡◌, ap, ◌∙◌, true, List, [], ◌∷◌, ◌++◌, none, some, arith, length, get_elem?,
  set, set-set, get_elem?-set, set-same, length-set, get_elem?-inside, ==_refl,
}
use mathlib.Core.Path.{ap₂}
use soii_ipc.Base.Words.{increment, decrement}
use soii_ipc.Seq.Matching.{
  first_match, replace_first, remove_first, first_match-passes, first_match-replace_first,
  replace_first-replace_first,
}
use soii_ipc.Protocol.{Md5, gen_packet, m_type_cli_accepted}
use soii_ipc.Server.{
  Connection, Server, no_productores, subscribed, unsubscribed, logged, sent, now,
}
use soii_ipc.Server.Util.Search.{has_token, is_fd}
use soii_ipc.Server.Commands.{cmd_add, cmd_del, handle_command}
use soii_ipc.Server.Commands.Subscriptions.{
  handle_command-added, handle_command-removed, added, removed, joined, left,
}
use soii_ipc.Server.Messages.{Printf}
use soii_ipc.Server.Loop.{handle_commands}

-- An entry at the end of a room that holds no other is the one that is taken out.
remove_first-last :
    (fd : ℕ) (room : List ℕ)
    → first_match (is_fd fd) room ≡ none
    → remove_first (is_fd fd) (room ++ fd ∷ []) ≡ room
remove_first-last fd [] e = rw (==_refl fd)
remove_first-last fd (x ∷ xs) e = ground (arith, remove_first-last fd xs)

first_match-last :
    (fd : ℕ) (room : List ℕ)
    → first_match (is_fd fd) room ≡ none
    → first_match (is_fd fd) (room ++ fd ∷ []) ≡ some fd
first_match-last fd [] e = rw (==_refl fd)
first_match-last fd (x ∷ xs) e = ground (arith, first_match-last fd xs)

decrement-increment : (x : ℕ) → x < 2 ^ 32 → decrement (increment x) ≡ x
decrement-increment x h = omega arith

-- What an addition and a removal leave behind.
abbrev pub restored : ⦃md5 : Md5⦄ → ℕ → Connection → ℕ → Server → Server
restored t c k s = record s {
  connections = replace_first (has_token t) (record c { timestamp = s.clock 2 }) s.connections;
  clock = λ n. s.clock (suc (suc (suc n)));
  trace =
      ((s.trace ++ sent c.sockfd (gen_packet (now s) m_type_cli_accepted []).0 ∷ [])
        ++ logged (subscribed c.sockfd c.token k) ∷ [])
      ++ logged (unsubscribed c.sockfd c.token k) ∷ [];
}

module _ ⦃md5 : Md5⦄ ⦃printf : Printf⦄ (t : ℕ) (c : Connection) (k : ℕ) (room : List ℕ) (s : Server)
    (rooms : length s.rooms ≡ no_productores)
    (known : first_match (has_token t) s.connections ≡ some c)
    (there : get_elem? s.rooms k ≡ some room)
    (absent : first_match (is_fd c.sockfd) room ≡ none) where
  -- The client and the server between the two commands, and the server after them.
  subscriber : Connection
  subscriber = record c { timestamp = s.clock 1; susc_counter = increment c.susc_counter }

  between : Server
  between = joined t c k room s

  word : k < 2 ^ 32
  word = omega (arith, get_elem?-inside s.rooms k room there, rooms)

  same_token : has_token t c ≡ true
  same_token = first_match-passes (has_token t) s.connections c known

  entered : handle_command (record { type = cmd_add; socket = t; productor = k }) s ≡ some between
  unfolding between
  entered = handle_command-added t c k s rooms word known ∙ rw (there, absent, added)

  gone :
      handle_command (record { type = cmd_del; socket = t; productor = k }) between
      ≡ some (left t subscriber k (room ++ c.sockfd ∷ []) between)
  unfolding between subscriber
  gone =
      handle_command-removed t subscriber k between (length-set s.rooms k _ ∙ rooms) word
        (first_match-replace_first (has_token t) subscriber s.connections c same_token known)
      ∙ rw (
        get_elem?-set s.rooms k room (room ++ c.sockfd ∷ []) there,
        first_match-last c.sockfd room absent,
        removed,
      )

  restores :
      c.susc_counter < 2 ^ 32
      → left t subscriber k (room ++ c.sockfd ∷ []) between ≡ restored t c k s
  unfolding between subscriber
  restores small =
      ap₂ (λ cs rs. record (restored t c k s) { connections = cs; rooms = rs })
        (replace_first-replace_first (has_token t) subscriber _ s.connections same_token
          ∙ ap
              (λ n.
                replace_first (has_token t) (record c { timestamp = s.clock 2; susc_counter = n })
                  s.connections)
              (decrement-increment c.susc_counter small))
        (set-set s.rooms k _ _
          ∙ ap (set s.rooms k) (remove_first-last c.sockfd room absent)
          ∙ set-same s.rooms k room there)

  -- A client that is not in a room is added to it and taken from it again: the rooms and its counter
  -- are as before, and only its last sign of life, the log and the packet that it got remain.
  pub handle_commands-restored :
      c.susc_counter < 2 ^ 32
      → handle_commands
          (record { type = cmd_add; socket = t; productor = k }
            ∷ record { type = cmd_del; socket = t; productor = k }
            ∷ [])
          s
        ≡ some (restored t c k s)
  unfolding handle_commands
  handle_commands-restored small = rw (entered, gone) (ap some (restores small))
