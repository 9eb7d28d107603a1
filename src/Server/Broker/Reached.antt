-- ===== src/Server/Broker/Reached.antt =====
-- What a message that is taken in the middle of a run is to the sockets of its room, at the run's end.
use mathlib.Core.Option.{some-injective}
use soii_ipc.Base.{
  ℕ, ◌≡◌, sym, ap, subst, ◌∙◌, List, [], ◌∷◌, ◌++◌, append-nil, append_assoc, Option, none, some,
  Option-cases, inl, inr, get_elem?, Each-all,
}
use soii_ipc.Queue.{Message}
use soii_ipc.Protocol.{Md5, Packet}
use soii_ipc.Server.{Server, now}
use soii_ipc.Server.Clients.{ClientEvent}
use soii_ipc.Server.Commands.{Command}
use soii_ipc.Server.Messages.{Printf, message_text, data_packet}
use soii_ipc.Server.Messages.Delivery
use soii_ipc.Server.Messages.Delivery.{handle_message-delivers}
use soii_ipc.Server.Cleanup.{garb_collec_old_conn, garb_collec_old_packets}
use soii_ipc.Server.Loop.{
  Round, ◌>>=◌, start, handle_clients, handle_commands, receive_message, clean_up, later_part,
  round_from, round, rounds,
}
use soii_ipc.Server.Loop.Inductive.{
  bind-After, After, Inductive, any, Met-any, rounds-keeps, handle_clients-After,
  handle_commands-After, clean_up-keeps,
}
use soii_ipc.Server.Wire.{IsClean}
use soii_ipc.Server.Wire.Runs.{handlers-IsClean}
use soii_ipc.Server.Broker.{
  Broker, Event, entered, left, moved, vanished, published, resent, forgotten, happen, view, copies,
  count, inbox_of,
}
use soii_ipc.Server.Broker.Rooms.{members_of-at}
use soii_ipc.Server.Broker.Causes.{Caused, Refines}
use soii_ipc.Server.Broker.Senders.{replay-keeps}
use soii_ipc.Server.Broker.Clients.{handle_client-Refines}
use soii_ipc.Server.Broker.Commands.{handle_command-Refines}
use soii_ipc.Server.Broker.Deliveries.{
  publish-view, handle_message-Refines, garb_collec_old_conn-Refines,
  garb_collec_old_packets-Refines,
}
use soii_ipc.Server.Broker.Runs.{After-map, After-both}

-- A list that begins with some packets.
abbrev pub StartsWith : List Packet → List Packet → Type 0
StartsWith ps qs = (later : List Packet) × (qs ≡ ps ++ later)

StartsWith-more : (ps qs rs : List Packet) → StartsWith ps qs → StartsWith ps (qs ++ rs)
StartsWith-more ps qs rs (later, is) =
    (later ++ rs, ap (λ xs. xs ++ rs) is ∙ append_assoc ps later rs)

module _ ⦃md5 : Md5⦄ ⦃printf : Printf⦄ (fd : ℕ) (ps : List Packet) where
  happen-StartsWith :
      (e : Event) (b : Broker)
      → Caused any e
      → StartsWith ps (b.inbox fd)
      → StartsWith ps ((happen e b).inbox fd)
  unfolding happen
  happen-StartsWith (entered k g) b cause h = h
  happen-StartsWith (left k g) b cause h = h
  happen-StartsWith (vanished g) b cause h = h
  happen-StartsWith (moved old new) b cause h = h
  happen-StartsWith (forgotten time) b cause h = h
  happen-StartsWith (published k time stamp text) b cause h = StartsWith-more ps (b.inbox fd) _ h
  happen-StartsWith (resent g since) b cause h = StartsWith-more ps (b.inbox fd) _ h

  -- The socket got the packets first, and what is kept are messages.
  abbrev Keeps : Server → Type 0
  Keeps s = StartsWith ps (inbox_of fd s.trace) × IsClean s

  keep :
      (s t : Server)
      → StartsWith ps (inbox_of fd s.trace)
      → Refines any s t
      → StartsWith ps (inbox_of fd t.trace)
  keep s t h (es, causes, same) =
      subst (λ (b : Broker). StartsWith ps (b.inbox fd)) (sym same)
        (replay-keeps any (λ b. StartsWith ps (b.inbox fd)) happen-StartsWith es (view s) causes h)

  step :
      (s : Server) (o : Option Server)
      → StartsWith ps (inbox_of fd s.trace)
      → After (Refines any s) o
      → After IsClean o
      → After Keeps o
  step s o h refines clean =
      After-both (λ t. StartsWith ps (inbox_of fd t.trace)) IsClean o
        (After-map (Refines any s) (λ t. StartsWith ps (inbox_of fd t.trace)) o (λ t. keep s t h)
          refines)
        clean

  handlers-Keeps : (listenfd : ℕ) → Inductive listenfd any Keeps
  handlers-Keeps listenfd =
      let wire = handlers-IsClean listenfd in
      record {
        client = λ e s met (h, clean).
            step s _ h (handle_client-Refines any listenfd e s met clean.buffered)
              (wire.client e s tt clean);
        command = λ c s met (h, clean).
            step s _ h (handle_command-Refines any c s met) (wire.command c s tt clean);
        message = λ m s met (h, clean).
            step s _ h (handle_message-Refines any m s met) (wire.message m s tt clean);
        connections = λ period s (h, clean). (
          keep s (garb_collec_old_conn period s) h (garb_collec_old_conn-Refines any period s),
          wire.connections period s clean,
        );
        packets = λ period s (h, clean). (
          keep s (garb_collec_old_packets period s) h
              (garb_collec_old_packets-Refines any period s),
          wire.packets period s clean,
        );
      }

module _ ⦃md5 : Md5⦄ ⦃printf : Printf⦄ (listenfd : ℕ) where
  rounds-append :
      (rs more : List Round) (s t : Server)
      → rounds listenfd rs s ≡ some t
      → rounds listenfd (rs ++ more) s ≡ rounds listenfd more t
  unfolding rounds
  rounds-append [] more s t ends = ap (rounds listenfd more) (some-injective s t ends)
  rounds-append (r ∷ rs) more s t ends = elim (Option-cases (round listenfd r s)) [
    | inl fault ↦ let gave : rounds listenfd (r ∷ rs) s ≡ none = rw fault in cc
    | inr (u, gives) ↦
        let gave : rounds listenfd (r ∷ rs) s ≡ rounds listenfd rs u = rw gives in
        rw gives (rounds-append rs more u t (sym gave ∙ ends))
  ]

  -- The handlers that come before the message in a round.
  before-IsClean :
      (es : List ClientEvent) (cs : List Command) (s t : Server)
      → IsClean s
      → (handle_clients listenfd es s >>= handle_commands cs) ≡ some t
      → IsClean t
  before-IsClean es cs s t clean gives = subst (After IsClean) gives (
      bind-After IsClean IsClean (handle_clients listenfd es s) (handle_commands cs)
        (handle_clients-After listenfd any IsClean (handlers-IsClean listenfd) es s
          (Each-all any.event (λ e. tt) es) clean)
        (λ u.
          handle_commands-After listenfd any IsClean (handlers-IsClean listenfd) cs u
            (Each-all any.command (λ c. tt) cs)))

  round-publishes :
      (es : List ClientEvent) (cs : List Command) (m : Message) (text room : List ℕ) (s t : Server)
      → (handle_clients listenfd es s >>= handle_commands cs) ≡ some t
      → message_text m ≡ some text
      → get_elem? t.rooms m.id ≡ some room
      → round listenfd (record { events = some es; commands = some cs; message = some m }) s
        ≡ some (clean_up (Delivery.published m text room t))
  unfolding round round_from later_part receive_message
  round-publishes es cs m text room s t gives has at =
      elim (Option-cases (handle_clients listenfd es s)) [
        | inl fault ↦
            let gave : (handle_clients listenfd es s >>= handle_commands cs) ≡ none = rw fault in cc
        | inr (u, served) ↦
            let gave : (handle_clients listenfd es s >>= handle_commands cs)
                ≡ handle_commands cs u =
              rw served in
            rw (served, sym gave ∙ gives, handle_message-delivers m text room t has at)
      ]

  -- Take any run from the state when the loop begins that comes to its end, and any of its rounds in
  -- which the server takes a producer's message with a text, when the clients' events and the commands
  -- of the round have led to a state `t` in which the producer has a room. At the end of the run every
  -- socket has got what it had got in `t`, and directly behind that the message, as often as the room
  -- of `t` holds the socket: once for each entry, and not at all if there is none.
  pub rounds-reached :
      (clock : ℕ → ℕ) (before after : List Round) (es : List ClientEvent) (cs : List Command)
      (m : Message) (text room : List ℕ) (s t u : Server) (fd : ℕ)
      → rounds listenfd before (start clock) ≡ some s
      → (handle_clients listenfd es s >>= handle_commands cs) ≡ some t
      → message_text m ≡ some text
      → get_elem? t.rooms m.id ≡ some room
      → rounds listenfd
          (before ++ record { events = some es; commands = some cs; message = some m } ∷ after)
          (start clock)
        ≡ some u
      → StartsWith
          (inbox_of fd t.trace ++ copies (count fd room) (data_packet (now t) m.timestamp text))
          (inbox_of fd u.trace)
  unfolding start happen rounds
  rounds-reached clock before after es cs m text room s t u fd first gives has at ends =
      let ps =
        inbox_of fd t.trace ++ copies (count fd room) (data_packet (now t) m.timestamp text) in
      let clean =
        rounds-keeps listenfd any IsClean (handlers-IsClean listenfd) before (start clock) s
          (Met-any before) (record { sent = tt; buffered = tt }) first in
      let clean_t = before-IsClean es cs s t clean gives in
      let clean' : IsClean (Delivery.published m text room t) =
        subst (After IsClean) (handle_message-delivers m text room t has at)
          ((handlers-IsClean listenfd).message m t tt clean_t) in
      let got : StartsWith ps (inbox_of fd (Delivery.published m text room t).trace) = (
        [],
        ap (λ (b : Broker). b.inbox fd) (publish-view m text room t at)
            ∙ ap (λ n. inbox_of fd t.trace ++ copies n (data_packet (now t) m.timestamp text))
                (members_of-at t.rooms m.id room fd at)
            ∙ sym (append-nil ps),
      ) in
      let cleaned =
        clean_up-keeps listenfd any (Keeps fd ps) (handlers-Keeps fd ps listenfd)
          (Delivery.published m text room t) (got, clean') in
      let rest : rounds listenfd after (clean_up (Delivery.published m text room t)) ≡ some u =
        sym (
          ap (λ o. o >>= rounds listenfd after)
            (round-publishes es cs m text room s t gives has at))
        ∙ sym (rounds-append before _ (start clock) s first)
        ∙ ends in
      (rounds-keeps listenfd any (Keeps fd ps) (handlers-Keeps fd ps listenfd) after
        (clean_up (Delivery.published m text room t)) u (Met-any after) cleaned rest).0
