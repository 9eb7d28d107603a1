-- ===== src/Server/Subscribers/Runs.antt =====
-- The main loop keeps what holds between sessions and rooms, if the clients are orderly.
use soii_ipc.Base.{
  ℕ, ◌≡◌, ◌⊎◌, refl, inl, inr, List, [], ◌∷◌, Option, none, some, Option-cases, get_elem?,
  length-replicate,
}
use soii_ipc.Protocol.{Md5}
use soii_ipc.Server.{Server, no_productores, conn_timeout, buffer_cleanup_period}
use soii_ipc.Server.Clients.{ClientEvent, handle_client}
use soii_ipc.Server.Commands.{Command, handle_command}
use soii_ipc.Server.Messages.{Printf, message_text, handle_message}
use soii_ipc.Queue.{Message}
use soii_ipc.Server.Messages.Delivery.{handle_message-delivers}
use soii_ipc.Server.Loop.{
  Round, ◌>>=◌, start, handle_clients, handle_commands, receive_message, clean_up, later_part,
  round_from, round, rounds,
}
use soii_ipc.Server.Loop.Faults.{
  AreWords, one_more, MayBeWords, RunWords, one_round, FatalRun, rounds-start,
}
use soii_ipc.Server.Subscribers.{WellFormed}
use soii_ipc.Server.Subscribers.Steps.{Stays, handle_command-Stays}
use soii_ipc.Server.Subscribers.Events.{Orderly, handle_client-Stays}
use soii_ipc.Server.Subscribers.Cleaning.{
  garb_collec_old_conn-WellFormed, garb_collec_old_packets-WellFormed,
}

-- Undefined behaviour, or a state in which it holds.
abbrev pub Safe : Option Server → Type 0
Safe o = (o ≡ none) ⊎ Stays o

bind-Safe :
    (o : Option Server) (f : Server → Option Server)
    → Safe o
    → ((t : Server) → o ≡ some t → WellFormed t → Safe (f t))
    → Safe (o >>= f)
bind-Safe o f (inl bad) next = inl (rw bad)
bind-Safe o f (inr (t, gives, fine)) next = rw gives (next t gives fine)

module _ ⦃md5 : Md5⦄ ⦃printf : Printf⦄ (listenfd : ℕ) where
  -- Every event of a list, every round of a run is orderly in the state in which it comes.
  abbrev pub OrderlyEvents : List ClientEvent → Server → Type 0
  OrderlyEvents [] s = Unit {0}
  OrderlyEvents (e ∷ es) s =
      Orderly listenfd e s
      × ((t : Server) → handle_client listenfd e s ≡ some t → OrderlyEvents es t)

  abbrev pub OrderlyRound : Option (List ClientEvent) → Server → Type 0
  OrderlyRound none s = Unit {0}
  OrderlyRound (some es) s = OrderlyEvents es s

  abbrev pub OrderlyRun : List Round → Server → Type 0
  OrderlyRun [] s = Unit {0}
  OrderlyRun (r ∷ rs) s =
      OrderlyRound r.events s × ((t : Server) → round listenfd r s ≡ some t → OrderlyRun rs t)

  handle_clients-Safe :
      (es : List ClientEvent) (s : Server)
      → WellFormed s
      → OrderlyEvents es s
      → Safe (handle_clients listenfd es s)
  unfolding handle_clients
  handle_clients-Safe [] s ok orderly = inr (s, refl, ok)
  handle_clients-Safe (e ∷ es) s ok (here, later) =
      bind-Safe (handle_client listenfd e s) (handle_clients listenfd es)
        (inr (handle_client-Stays s ok listenfd e here))
        (λ t gives fine. handle_clients-Safe es t fine (later t gives))

  handle_commands-Safe :
      (cs : List Command) (s : Server) → AreWords cs → WellFormed s → Safe (handle_commands cs s)
  unfolding handle_commands
  handle_commands-Safe [] s words ok = inr (s, refl, ok)
  handle_commands-Safe (c ∷ cs) s (one_more _ _ word words) ok =
      bind-Safe (handle_command c s) (handle_commands cs) (inr (handle_command-Stays c s ok word))
        (λ t gives fine. handle_commands-Safe cs t words fine)

  receive_message-Safe :
      (o : Option Message) (s : Server) → WellFormed s → Safe (receive_message o s)
  unfolding receive_message handle_message
  receive_message-Safe none s ok = inr (s, refl, ok)
  receive_message-Safe (some m) s ok = elim (Option-cases (message_text m)) [
    | inl endless ↦ inl (rw (endless, handle_message))
    | inr (text, has) ↦ elim (Option-cases (get_elem? s.rooms m.id)) [
      | inl missing ↦ inl (rw (has, missing, handle_message))
      | inr (room, at) ↦ inr (
        _,
        handle_message-delivers m text room s has at,
        record { rooms = ok.rooms; once = ok.once; counted = ok.counted; sheltered = ok.sheltered },
      )
    ]
  ]

  clean_up-WellFormed : (s : Server) → WellFormed s → WellFormed (clean_up s)
  unfolding clean_up
  clean_up-WellFormed s ok =
      garb_collec_old_packets-WellFormed buffer_cleanup_period _
        (garb_collec_old_conn-WellFormed conn_timeout s ok)

  later_part-Safe :
      (commands : Option (List Command)) (message : Option Message) (s : Server)
      → MayBeWords commands
      → WellFormed s
      → Safe (later_part commands message s)
  unfolding later_part
  later_part-Safe none message s words ok = inr (s, refl, ok)
  later_part-Safe (some cs) message s words ok =
      bind-Safe (handle_commands cs s) _ (handle_commands-Safe cs s words ok) (λ t _ fine.
        bind-Safe (receive_message message t) _ (receive_message-Safe message t fine)
          (λ u _ fine'. inr (clean_up u, refl, clean_up-WellFormed u fine')))

  round_from-Safe :
      (o : Option (List ClientEvent)) (r : Round) (s : Server)
      → MayBeWords r.commands
      → WellFormed s
      → OrderlyRound o s
      → Safe (round_from listenfd o r s)
  unfolding round_from
  round_from-Safe none r s words ok orderly = inr (s, refl, ok)
  round_from-Safe (some es) r s words ok orderly =
      bind-Safe (handle_clients listenfd es s) (later_part r.commands r.message)
        (handle_clients-Safe es s ok orderly)
        (λ t _ fine. later_part-Safe r.commands r.message t words fine)

  rounds-Safe :
      (rs : List Round) (s : Server)
      → RunWords rs
      → WellFormed s
      → OrderlyRun rs s
      → Safe (rounds listenfd rs s)
  unfolding rounds round
  rounds-Safe [] s words ok orderly = inr (s, refl, ok)
  rounds-Safe (r ∷ rs) s (one_round _ _ word words) ok (here, later) =
      bind-Safe (round listenfd r s) (rounds listenfd rs)
        (round_from-Safe r.events r s word ok here)
        (λ t gives fine. rounds-Safe rs t words fine (later t gives))

start-WellFormed : (clock : ℕ → ℕ) → WellFormed (start clock)
unfolding start
start-WellFormed clock = record {
  rooms = length-replicate {A = List ℕ} no_productores [];
  once = (tt, (tt, (tt, tt)));
  counted = tt;
  sheltered = λ fd others. refl;
}

module _ ⦃md5 : Md5⦄ ⦃printf : Printf⦄ (listenfd : ℕ) where
  -- A run from the state when the loop begins comes to its end, in a state where every session's
  -- counter is the number of rooms that its socket is in, no two sessions share a socket, and no room
  -- holds one twice or one that no session has; unless a round that it comes to meets
  -- a message with no text or one of a producer that has no room. In each event of the run `accept`
  -- gives a socket that no session has and no room holds, and a client that reconnects names as new a
  -- token that is no session's, or that of its own session, which is in no room. The rooms' numbers in
  -- commands are 32-bit patterns.
  pub rounds-WellFormed :
      (clock : ℕ → ℕ) (rs : List Round)
      → RunWords rs
      → OrderlyRun listenfd rs (start clock)
      → FatalRun listenfd rs (start clock)
        ⊎ ((t : Server) × (rounds listenfd rs (start clock) ≡ some t) × WellFormed t)
  rounds-WellFormed clock rs words orderly = elim (rounds-start listenfd clock rs words) [
    | inl fatal ↦ inl fatal
    | inr (u, ends, kept) ↦
        elim (rounds-Safe listenfd rs (start clock) words (start-WellFormed clock) orderly) [
          | inl fault ↦ cc
          | inr stays ↦ inr stays
        ]
  ]
