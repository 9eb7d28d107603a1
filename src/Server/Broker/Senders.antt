-- ===== src/Server/Broker/Senders.antt =====
-- What the broker's runs show of the messages that sockets get.
use soii_ipc.Base.{
  ℕ, zero, suc, ◌≡◌, sym, ap, subst, Bool, true, false, inl, inr, List, [], ◌∷◌, some, ◌==◌,
  if◌then◌else◌, Bool-cases, Each, Each-append, select, select-true, select-false,
}
use soii_ipc.Queue.{Message}
use soii_ipc.Protocol.{Md5, Packet}
use soii_ipc.Server.{Server}
use soii_ipc.Server.Messages.{Printf, message_text, data_packet}
use soii_ipc.Server.Loop.{Round, start, rounds}
use soii_ipc.Server.Loop.Inductive.{Inputs, Met}
use soii_ipc.Server.Broker.{
  Broker, Event, entered, left, moved, vanished, published, resent, forgotten, happen, replay,
  nobody, copies, inbox_of, is_late,
}
use soii_ipc.Server.Broker.Causes.{Caused}
use soii_ipc.Server.Broker.Runs.{rounds-replay}

Each-select {ℓ} :
    {A : Type ℓ} (P : A → Type 0) (p : A → Bool) (xs : List A) → Each P xs → Each P (select p xs)
Each-select P p [] all = tt
Each-select P p (x ∷ xs) (here, all) = elim (Bool-cases (p x)) [
  | inl kept ↦ rw (select-true p x xs kept) (here, Each-select P p xs all)
  | inr dropped ↦ rw (select-false p x xs dropped) (Each-select P p xs all)
]

pub Each-copies {ℓ} : {A : Type ℓ} (P : A → Type 0) (n : ℕ) (x : A) → P x → Each P (copies n x)
Each-copies P zero x h = tt
Each-copies P (suc n) x h = (h, Each-copies P n x h)

Each-if {ℓ} :
    {A : Type ℓ} (P : A → Type 0) (b : Bool) (xs : List A)
    → Each P xs
    → Each P (if b then xs else [])
Each-if P true xs all = all
Each-if P false xs all = tt

module _ ⦃md5 : Md5⦄ ⦃printf : Printf⦄ where
  -- The packet that the server makes of one of these messages.
  abbrev pub IsFrom : (Message → Type 0) → Packet → Type 0
  IsFrom P p =
      (m : Message) × (text : List ℕ) × (time : ℕ) × P m
      × (message_text m ≡ some text)
      × (p ≡ data_packet time m.timestamp text)

module _ ⦃md5 : Md5⦄ ⦃printf : Printf⦄ (inputs : Inputs) where
  -- What every event that the inputs cause keeps is kept.
  pub replay-keeps :
      (I : Broker → Type 0)
      → ((e : Event) (b : Broker) → Caused inputs e → I b → I (happen e b))
      → (es : List Event) (b : Broker) → Each (Caused inputs) es
      → I b
      → I (replay es b)
  unfolding replay
  replay-keeps I keeps [] b causes h = h
  replay-keeps I keeps (e ∷ es) b (cause, causes) h =
      replay-keeps I keeps es (happen e b) causes (keeps e b cause h)

  -- Sockets got, and the buffer holds, only packets of the inputs' messages.
  record IsGenuine (b : Broker) : Type 0 where
    inbox : (fd : ℕ) → Each (IsFrom inputs.message) (b.inbox fd)
    history : Each (IsFrom inputs.message) b.history

  happen-IsGenuine :
      (e : Event) (b : Broker) → Caused inputs e → IsGenuine b → IsGenuine (happen e b)
  unfolding happen
  happen-IsGenuine (entered k fd) b cause h = record { inbox = h.inbox; history = h.history }
  happen-IsGenuine (left k fd) b cause h = record { inbox = h.inbox; history = h.history }
  happen-IsGenuine (vanished fd) b cause h = record { inbox = h.inbox; history = h.history }
  happen-IsGenuine (moved old new) b cause h = record { inbox = h.inbox; history = h.history }
  happen-IsGenuine (published k time stamp text) b (m, met, id, at, has) h =
      let from : IsFrom inputs.message (data_packet time stamp text) =
        (m, text, time, met, has, ap (λ t. data_packet time t text) (sym at)) in
      record {
        inbox = λ g. Each-append _ (b.inbox g) _ (h.inbox g) (Each-copies _ (b.members k g) _ from);
        history = (from, h.history);
      }
  happen-IsGenuine (resent fd since) b cause h = record {
    inbox = λ g.
        Each-append _ (b.inbox g) _ (h.inbox g)
          (Each-if _ (g == fd) _ (Each-select _ (is_late since) b.history h.history));
    history = h.history;
  }
  happen-IsGenuine (forgotten time) b cause h = record {
    inbox = h.inbox;
    history = Each-select _ _ b.history h.history;
  }

  -- Whatever a run from the state when the loop begins writes to a socket as a message is the packet
  -- of a producer's message that the run met, with its time and its text.
  pub rounds-inbox :
      (listenfd : ℕ) (clock : ℕ → ℕ) (rs : List Round) (t : Server) (fd : ℕ)
      → Each (Met inputs) rs
      → rounds listenfd rs (start clock) ≡ some t
      → Each (IsFrom inputs.message) (inbox_of fd t.trace)
  rounds-inbox listenfd clock rs t fd met ends =
      let (es, causes, same) = rounds-replay listenfd inputs clock rs t met ends in
      let end =
        replay-keeps IsGenuine happen-IsGenuine es nobody causes
          (record { inbox = λ g. tt; history = tt }) in
      subst (λ b. Each (IsFrom inputs.message) (b.inbox fd)) (sym same) (end.inbox fd)
