-- ===== src/Server/Broker/Causes.antt =====
-- The server as a broker, with what causes each of the broker's events.
use soii_ipc.Base.{ℕ, ◌≡◌, sym, ap, ◌∙◌, true, List, [], ◌∷◌, ◌++◌, some, Each, Each-append}
use soii_ipc.Queue.{Message}
use soii_ipc.Protocol.{Md5, Packet, check_packet_md5, m_type_auth}
use soii_ipc.Server.{Server}
use soii_ipc.Server.Clients.{ClientEvent, received}
use soii_ipc.Server.Commands.{Command, cmd_add, cmd_del}
use soii_ipc.Server.Messages.{Printf, message_text}
use soii_ipc.Server.Loop.Inductive.{Inputs}
use soii_ipc.Server.Broker.{
  Event, entered, left, moved, vanished, published, resent, forgotten, happen, replay,
  replay-append, view,
}

-- An intact request over the socket to go on with an old session.
abbrev pub Asked : ⦃md5 : Md5⦄ → Inputs → ℕ → Type 0
Asked inputs fd =
    (e : ClientEvent) × (p : Packet) × inputs.event e
    × (e.fd ≡ fd)
    × (e.input ≡ received p)
    × (check_packet_md5 p ≡ true)
    × (p.mtype ≡ m_type_auth)

-- A socket enters or leaves a room by a command that names the room; it takes over another's entries,
-- and gets what was missed, by its request; what is published is the text of a producer's message, in
-- the producer's room. The cleanings need no cause.
abbrev pub Caused : ⦃md5 : Md5⦄ ⦃printf : Printf⦄ → Inputs → Event → Type 0
Caused inputs (entered k fd) =
    (c : Command) × inputs.command c × (c.type ≡ cmd_add) × (c.productor ≡ k)
Caused inputs (left k fd) =
    (c : Command) × inputs.command c × (c.type ≡ cmd_del) × (c.productor ≡ k)
Caused inputs (moved old fd) = Asked inputs fd
Caused inputs (resent fd since) = Asked inputs fd
Caused inputs (published k time stamp text) =
    (m : Message) × inputs.message m
    × (m.id ≡ k)
    × (m.timestamp ≡ stamp)
    × (message_text m ≡ some text)
Caused inputs (vanished fd) = Unit {0}
Caused inputs (forgotten time) = Unit {0}

module _ ⦃md5 : Md5⦄ ⦃printf : Printf⦄ (inputs : Inputs) where
  -- Events that the inputs cause lead the one server, as a broker, to the other.
  abbrev pub Refines : Server → Server → Type 0
  Refines s t = (es : List Event) × Each (Caused inputs) es × (view t ≡ replay es (view s))

  pub Refines-same : (s t : Server) → view t ≡ view s → Refines s t
  unfolding replay
  Refines-same s t same = ([], tt, same)

  pub Refines-one :
      (e : Event) (s t : Server) → Caused inputs e → view t ≡ happen e (view s) → Refines s t
  unfolding replay
  Refines-one e s t cause one = (e ∷ [], (cause, tt), one)

  pub Refines-trans : (s t u : Server) → Refines s t → Refines t u → Refines s u
  Refines-trans s t u (es, causes, p) (fs, causes', q) = (
    es ++ fs,
    Each-append (Caused inputs) es fs causes causes',
    q ∙ ap (replay fs) p ∙ sym (replay-append es fs (view s)),
  )
