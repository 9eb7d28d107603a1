-- ===== src/Server/Loop/Faults.antt =====
-- What a round of the main loop survives.
use soii_ipc.Base.{
  ℕ, arith, ◌^◌, ◌<◌, ◌≤◌, ◌≡◌, refl, ◌⊎◌, inl, inr, List, [], ◌∷◌, Option, none, some,
  Option-cases, length, length-replicate, get_elem?, get_elem?-outside,
}
use soii_ipc.Protocol.{Md5}
use soii_ipc.Server.{Server, no_productores, conn_timeout, buffer_cleanup_period}
use soii_ipc.Server.Clients.{ClientEvent}
use soii_ipc.Server.Clients.Faults.{Kept, handle_client-Kept}
use soii_ipc.Server.Commands.{Command}
use soii_ipc.Server.Commands.Faults.{handle_command-Kept}
use soii_ipc.Server.Messages.{Printf, message_text}
use soii_ipc.Queue.{Message}
use soii_ipc.Server.Messages.Delivery.{handle_message-delivers}
use soii_ipc.Server.Cleanup.Rooms.{garb_collec_old_conn-rooms, garb_collec_old_packets-rooms}
use soii_ipc.Server.Loop.{
  Round, start, handle_clients, handle_commands, receive_message, clean_up, later_part, round_from,
  round, rounds,
}

-- The rooms' numbers in commands are 32-bit patterns.
pub data AreWords : List Command → Type 0 where
  none_left : AreWords []
  one_more :
      (c : Command) (cs : List Command) → c.productor < 2 ^ 32 → AreWords cs → AreWords (c ∷ cs)

module _ ⦃md5 : Md5⦄ ⦃printf : Printf⦄ (n : ℕ) (listenfd : ℕ) where
  handle_clients-Kept :
      (es : List ClientEvent) (s : Server)
      → length s.rooms ≡ n
      → Kept n (handle_clients listenfd es s)
  unfolding handle_clients
  handle_clients-Kept [] s rooms = (s, refl, rooms)
  handle_clients-Kept (e ∷ es) s rooms =
      let (t, gives, kept) = handle_client-Kept n listenfd e s rooms in
      let (u, then, kept') = handle_clients-Kept es t kept in (u, rw gives then, kept')

-- A message with no text, or of a producer that has no room.
abbrev pub FatalMessage : ⦃printf : Printf⦄ → Message → Type 0
FatalMessage m = (message_text m ≡ none) ⊎ (no_productores ≤ m.id)

-- What a round may meet that the server does not survive.
abbrev pub FatalRound : ⦃printf : Printf⦄ → Round → Type 0
FatalRound r = (m : Message) × (r.message ≡ some m) × FatalMessage m

-- The commands of a round, if there are any, name rooms by 32-bit patterns.
abbrev pub MayBeWords : Option (List Command) → Type 0
MayBeWords none = Unit {0}
MayBeWords (some cs) = AreWords cs

module _ ⦃md5 : Md5⦄ ⦃printf : Printf⦄ where
  handle_commands-Kept :
      (cs : List Command) (s : Server)
      → AreWords cs
      → length s.rooms ≡ no_productores
      → Kept no_productores (handle_commands cs s)
  unfolding handle_commands
  handle_commands-Kept [] s words rooms = (s, refl, rooms)
  handle_commands-Kept (c ∷ cs) s (one_more _ _ word words) rooms =
      let (t, gives, kept) = handle_command-Kept c s rooms word in
      let (u, then, kept') = handle_commands-Kept cs t words kept in (u, rw gives then, kept')

  receive_message-Kept :
      (o : Option Message) (s : Server)
      → length s.rooms ≡ no_productores
      → ((m : Message) × (o ≡ some m) × FatalMessage m) ⊎ Kept no_productores (receive_message o s)
  unfolding receive_message
  receive_message-Kept none s rooms = inr (s, refl, rooms)
  receive_message-Kept (some m) s rooms = elim (Option-cases (message_text m)) [
    | inl endless ↦ inl (m, refl, inl endless)
    | inr (text, has) ↦ elim (Option-cases (get_elem? s.rooms m.id)) [
      | inl missing ↦
          inl (m, refl, inr (omega (arith, get_elem?-outside s.rooms m.id missing, rooms)))
      | inr (room, at) ↦ inr (_, handle_message-delivers m text room s has at, rooms)
    ]
  ]

  clean_up-rooms :
      (s : Server) → length s.rooms ≡ no_productores → length (clean_up s).rooms ≡ no_productores
  unfolding clean_up
  clean_up-rooms s rooms =
      garb_collec_old_packets-rooms no_productores buffer_cleanup_period _
        (garb_collec_old_conn-rooms no_productores conn_timeout s rooms)

  later_part-Kept :
      (commands : Option (List Command)) (message : Option Message) (s : Server)
      → MayBeWords commands
      → length s.rooms ≡ no_productores
      → ((m : Message) × (message ≡ some m) × FatalMessage m)
        ⊎ Kept no_productores (later_part commands message s)
  unfolding later_part
  later_part-Kept none message s words rooms = inr (s, refl, rooms)
  later_part-Kept (some cs) message s words rooms =
      let (t, gives, kept) = handle_commands-Kept cs s words rooms in
      elim (receive_message-Kept message t kept) [
        | inl bad ↦ inl bad
        | inr (u, then, kept') ↦ inr (clean_up u, rw (gives, then), clean_up-rooms u kept')
      ]

  round_from-Kept :
      (listenfd : ℕ) (o : Option (List ClientEvent)) (r : Round) (s : Server)
      → r.events ≡ o
      → MayBeWords r.commands
      → length s.rooms ≡ no_productores
      → FatalRound r ⊎ Kept no_productores (round_from listenfd o r s)
  unfolding round_from
  round_from-Kept listenfd none r s is words rooms = inr (s, refl, rooms)
  round_from-Kept listenfd (some es) r s is words rooms =
      let (t, gives, kept) = handle_clients-Kept no_productores listenfd es s rooms in
      elim (later_part-Kept r.commands r.message t words kept) [
        | inl bad ↦ inl bad
        | inr (u, then, kept') ↦ inr (u, rw gives then, kept')
      ]

  -- A round that starts with three rooms comes to its end, with three rooms, unless it meets a
  -- message with no text or of a producer that has no room.
  pub round-Kept :
      (listenfd : ℕ) (r : Round) (s : Server)
      → MayBeWords r.commands
      → length s.rooms ≡ no_productores
      → FatalRound r ⊎ Kept no_productores (round listenfd r s)
  unfolding round
  round-Kept listenfd r s words rooms = round_from-Kept listenfd r.events r s refl words rooms

-- What some round of a run may meet, in the state that the rounds before it lead to.
pub data FatalRun ⦃md5 : Md5⦄ ⦃printf : Printf⦄ (listenfd : ℕ) : List Round → Server → Type 0 where
  in_first :
      (r : Round) (rs : List Round) (s : Server) → FatalRound r → FatalRun listenfd (r ∷ rs) s
  in_rest :
      (r : Round) (rs : List Round) (s t : Server)
      → round listenfd r s ≡ some t
      → FatalRun listenfd rs t
      → FatalRun listenfd (r ∷ rs) s

-- Every command of a run names its room by a 32-bit pattern.
pub data RunWords : List Round → Type 0 where
  no_round : RunWords []
  one_round :
      (r : Round) (rs : List Round) → MayBeWords r.commands → RunWords rs → RunWords (r ∷ rs)

module _ ⦃md5 : Md5⦄ ⦃printf : Printf⦄ (listenfd : ℕ) where
  rounds-Kept :
      (rs : List Round) (s : Server)
      → RunWords rs
      → length s.rooms ≡ no_productores
      → FatalRun listenfd rs s ⊎ Kept no_productores (rounds listenfd rs s)
  unfolding rounds
  rounds-Kept [] s words rooms = inr (s, refl, rooms)
  rounds-Kept (r ∷ rs) s (one_round _ _ word words) rooms =
      elim (round-Kept listenfd r s word rooms) [
        | inl bad ↦ inl (in_first r rs s bad)
        | inr (t, gives, kept) ↦ elim (rounds-Kept rs t words kept) [
          | inl bad ↦ inl (in_rest r rs s t gives bad)
          | inr (u, then, kept') ↦ inr (u, rw gives then, kept')
        ]
      ]

  -- The initial state has three rooms.
  pub rounds-start :
      (clock : ℕ → ℕ) (rs : List Round)
      → RunWords rs
      → FatalRun listenfd rs (start clock) ⊎ Kept no_productores (rounds listenfd rs (start clock))
  unfolding start
  rounds-start clock rs words =
      rounds-Kept rs (start clock) words (length-replicate {A = List ℕ} no_productores [])
