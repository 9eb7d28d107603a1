-- ===== src/Server/Broker.antt =====
-- An abstract broker, and the view of the server of server/src/srv.c as one. A room is the numbers of
-- times that it holds each socket, and what was sent is, for each socket, the messages that it got:
-- the order of a room's entries, and of what goes to different sockets, is forgotten. The children
-- follow the handlers and a run.
pub mod Rooms
pub mod Causes
pub mod Resending
pub mod Clients
pub mod Commands
pub mod Deliveries
pub mod Runs
pub mod Senders
pub mod Privacy
pub mod Reached
use soii_ipc.Base.{
  ℕ, zero, suc, ◌+◌, ◌-◌, ◌≡◌, refl, sym, ap, ◌∙◌, Bool, true, false, not, ◌&&◌, List, [], ◌∷◌,
  ◌++◌, append-nil, inl, inr, Bool-cases, arith, ◌==◌, ltb, if◌then◌else◌, select,
}
use soii_ipc.Protocol.{Md5, Packet, gen_packet, m_type_data}
use soii_ipc.Protocol.Shapes.{gen_packet-mtype}
use soii_ipc.Server.{Server, Effect, logged, message_received, sent, emit, now}
use soii_ipc.Server.Messages.{data_packet}
use soii_ipc.Server.Cleanup.Packets.{is_recent}
use soii_ipc.Server.Util.{send_new, send_fin}

-- `members k fd` is how often room `k` holds the socket, `inbox fd` the messages that went to it,
-- `history` those that are kept, newest first, and `heard` the producers' numbers and times.
pub record Broker : Type 0 where
  pub members : ℕ → ℕ → ℕ
  pub inbox : ℕ → List Packet
  pub history : List Packet
  pub heard : List (ℕ × ℕ)

-- A socket enters or leaves a room, vanishes from all, or is replaced by another; a text is published
-- in a room, with the server's time and the producer's; a socket gets what is kept since a time; and
-- what is too old is forgotten.
pub data Event : Type 0 where
  entered left moved resent : ℕ → ℕ → Event
  vanished forgotten : ℕ → Event
  published : ℕ → ℕ → ℕ → List ℕ → Event

abbrev pub copies {ℓ} : {A : Type ℓ} → ℕ → A → List A
copies zero x = []
copies (suc n) x = x ∷ copies n x

-- Not before the time.
abbrev pub is_late : ℕ → Packet → Bool
is_late since p = not (ltb p.timestamp since)

-- What a replacement of `old` by `new` makes of the number for `fd`, which was `here`; `there` is
-- that for `old`.
abbrev pub after_move : ℕ → ℕ → ℕ → ℕ → ℕ → ℕ
after_move old new fd there here =
    if there == 0
    then here
    else (here + (if fd == new then 1 else 0)) - (if fd == old then 1 else 0)

module _ ⦃md5 : Md5⦄ where
  unfoldable pub happen : Event → Broker → Broker
  happen (entered k fd) b = record b {
    members = λ j g. if (j == k) && ((g == fd) && (b.members j g == 0)) then 1 else b.members j g;
  }
  happen (left k fd) b = record b {
    members = λ j g. if (j == k) && (g == fd) then b.members j g - 1 else b.members j g;
  }
  happen (vanished fd) b = record b {
    members = λ j g. if g == fd then b.members j g - 1 else b.members j g;
  }
  happen (moved old new) b = record b {
    members = λ j g. after_move old new g (b.members j old) (b.members j g);
  }
  happen (published k time stamp text) b =
      let p = data_packet time stamp text in
      record b {
        inbox = λ g. b.inbox g ++ copies (b.members k g) p;
        history = p ∷ b.history;
        heard = b.heard ++ (k, stamp) ∷ [];
      }
  happen (resent fd since) b = record b {
    inbox = λ g. b.inbox g ++ (if g == fd then select (is_late since) b.history else []);
  }
  happen (forgotten time) b = record b { history = select (is_recent time) b.history }

  unfoldable pub replay : List Event → Broker → Broker
  replay [] b = b
  replay (e ∷ es) b = replay es (happen e b)

  pub replay-append :
      (es fs : List Event) (b : Broker) → replay (es ++ fs) b ≡ replay fs (replay es b)
  unfolding replay
  replay-append [] fs b = refl
  replay-append (e ∷ es) fs b = replay-append es fs (happen e b)

-- Nobody in a room, nothing sent.
abbrev pub nobody : Broker
nobody = record { members = λ k fd. 0; inbox = λ fd. []; history = []; heard = [] }

-- The server as a broker.
abbrev pub count : ℕ → List ℕ → ℕ
count fd [] = 0
count fd (e ∷ room) = (if fd == e then 1 else 0) + count fd room

abbrev pub members_of : List (List ℕ) → ℕ → ℕ → ℕ
members_of [] k fd = 0
members_of (room ∷ rooms) zero fd = count fd room
members_of (room ∷ rooms) (suc k) fd = members_of rooms k fd

abbrev pub inbox_of : ℕ → List Effect → List Packet
inbox_of fd [] = []
inbox_of fd (sent g p ∷ es) =
    let rest = inbox_of fd es in if (fd == g) && (p.mtype == m_type_data) then p ∷ rest else rest
inbox_of fd (_ ∷ es) = inbox_of fd es

abbrev pub heard_of : List Effect → List (ℕ × ℕ)
heard_of [] = []
heard_of (logged (message_received k stamp) ∷ es) = (k, stamp) ∷ heard_of es
heard_of (_ ∷ es) = heard_of es

abbrev pub view : Server → Broker
view s = record {
  members = members_of s.rooms;
  inbox = λ fd. inbox_of fd s.trace;
  history = s.packets;
  heard = heard_of s.trace;
}

-- Brokers that agree at every room and every socket are equal.
pub Broker-ext :
    (b c : Broker)
    → ((k fd : ℕ) → b.members k fd ≡ c.members k fd)
    → ((fd : ℕ) → b.inbox fd ≡ c.inbox fd)
    → b.history ≡ c.history
    → b.heard ≡ c.heard
    → b ≡ c
Broker-ext b c members inbox history heard = λ i. record {
  members = λ k fd. members k fd i;
  inbox = λ fd. inbox fd i;
  history = history i;
  heard = heard i;
}

pub inbox_of-append :
    (fd : ℕ) (es fs : List Effect) → inbox_of fd (es ++ fs) ≡ inbox_of fd es ++ inbox_of fd fs
inbox_of-append fd [] fs = refl
inbox_of-append fd (sent g p ∷ es) fs = elim (Bool-cases ((fd == g) && (p.mtype == m_type_data))) [
  | inl mine ↦ rw mine (ap (◌∷◌ p) (inbox_of-append fd es fs))
  | inr other ↦ rw other (inbox_of-append fd es fs)
]
inbox_of-append fd (_ ∷ es) fs = inbox_of-append fd es fs

pub heard_of-append : (es fs : List Effect) → heard_of (es ++ fs) ≡ heard_of es ++ heard_of fs
heard_of-append [] fs = refl
heard_of-append (logged (message_received k stamp) ∷ es) fs =
    ap (◌∷◌ (k, stamp)) (heard_of-append es fs)
heard_of-append (_ ∷ es) fs = heard_of-append es fs

-- An effect that is neither a message to a client nor the note of a producer's.
abbrev pub is_silent : Effect → Bool
is_silent (sent fd p) = not (p.mtype == m_type_data)
is_silent (logged (message_received k stamp)) = false
is_silent (_) = true

inbox_of-silent : (fd : ℕ) (e : Effect) → is_silent e ≡ true → inbox_of fd (e ∷ []) ≡ []
inbox_of-silent fd (sent g p) silent = ground arith
inbox_of-silent fd (_) silent = refl

heard_of-silent : (e : Effect) → is_silent e ≡ true → heard_of (e ∷ []) ≡ []
heard_of-silent (logged (message_received k stamp)) silent = cc
heard_of-silent (_) silent = refl

pub emit-silent : (e : Effect) (s : Server) → is_silent e ≡ true → view (emit e s) ≡ view s
emit-silent e s silent =
    Broker-ext (view (emit e s)) (view s) (λ k fd. refl)
      (λ fd.
        inbox_of-append fd s.trace (e ∷ [])
        ∙ ap (λ ps. inbox_of fd s.trace ++ ps) (inbox_of-silent fd e silent)
        ∙ append-nil (inbox_of fd s.trace))
      refl
      (heard_of-append s.trace (e ∷ [])
        ∙ ap (λ hs. heard_of s.trace ++ hs) (heard_of-silent e silent)
        ∙ append-nil (heard_of s.trace))

module _ ⦃md5 : Md5⦄ where
  -- A packet that is not a message.
  pub send_new-silent :
      (fd type : ℕ) (payload : List ℕ) (s : Server)
      → (type == m_type_data) ≡ false
      → view (send_new fd type payload s) ≡ view s
  unfolding send_new
  send_new-silent fd type payload s other =
      let p = (gen_packet (now s) type payload).0 in
      let is : (p.mtype == m_type_data) ≡ false =
        ap (λ t. t == m_type_data) (gen_packet-mtype (now s) type payload) ∙ other in
      emit-silent (sent fd p) s (ap not is)

  pub send_fin-silent : (fd : ℕ) (s : Server) → view (send_fin fd s) ≡ view s
  unfolding send_fin
  send_fin-silent fd s = send_new-silent fd _ [] s refl
