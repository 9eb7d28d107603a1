-- ===== src/Server/Broker/Privacy.antt =====
-- Rooms that nobody is added to, and their messages.
use soii_ipc.Base.{
  ℕ, ◌≡◌, ◌≢◌, refl, sym, ap, subst, ◌∙◌, false, inl, inr, List, some, arith, ◌==◌, Bool-cases,
  Each, Each-append,
}
use soii_ipc.Queue.{Message}
use soii_ipc.Protocol.{Md5}
use soii_ipc.Server.{Server}
use soii_ipc.Server.Commands.{Command, cmd_add}
use soii_ipc.Server.Messages.{Printf, data_packet}
use soii_ipc.Server.Loop.{Round, start, rounds}
use soii_ipc.Server.Loop.Inductive.{Inputs, Met}
use soii_ipc.Server.Broker.{
  Broker, Event, entered, left, moved, vanished, published, resent, forgotten, happen, nobody,
  copies, members_of, inbox_of,
}
use soii_ipc.Server.Broker.Causes.{Asked, Caused}
use soii_ipc.Server.Broker.Runs.{rounds-replay}
use soii_ipc.Server.Broker.Senders.{IsFrom, Each-copies, replay-keeps}

-- The messages of the other producers.
abbrev pub Elsewhere : Inputs → ℕ → Message → Type 0
Elsewhere inputs k m = inputs.message m × (m.id ≢ k)

module _ ⦃md5 : Md5⦄ ⦃printf : Printf⦄ (inputs : Inputs) (k : ℕ)
    (never : (c : Command) → inputs.command c → c.type ≡ cmd_add → c.productor ≢ k) where
  abbrev IsEmpty : Broker → Type 0
  IsEmpty b = (fd : ℕ) → b.members k fd ≡ 0

  happen-IsEmpty : (e : Event) (b : Broker) → Caused inputs e → IsEmpty b → IsEmpty (happen e b)
  unfolding happen
  happen-IsEmpty (entered j fd) b (c, met, add, names) h g =
      let other : j ≢ k = λ e. never c met add (names ∙ e) in
      let elsewhere : (k == j) ≡ false = ground arith in rw elsewhere (h g)
  happen-IsEmpty (left j fd) b cause h g = ground (arith, h g)
  happen-IsEmpty (vanished fd) b cause h g = ground (arith, h g)
  happen-IsEmpty (moved old new) b cause h g = ground (arith, h old, h g)
  happen-IsEmpty (published j time stamp text) b cause h g = h g
  happen-IsEmpty (resent fd since) b cause h g = h g
  happen-IsEmpty (forgotten time) b cause h g = h g

  module _ (quiet : (fd : ℕ) → ¬ Asked inputs fd) where
    record IsApart (b : Broker) : Type 0 where
      empty : IsEmpty b
      inbox : (fd : ℕ) → Each (IsFrom (Elsewhere inputs k)) (b.inbox fd)

    happen-IsApart : (e : Event) (b : Broker) → Caused inputs e → IsApart b → IsApart (happen e b)
    unfolding happen
    happen-IsApart (published j time stamp text) b (m, met, id, at, has) h = record {
      empty = h.empty;
      inbox = λ g. elim (Bool-cases (j == k)) [
        | inl same ↦
            let here : j ≡ k = ground arith in
            let nobody_here : b.members j g ≡ 0 = ap (λ i. b.members i g) here ∙ h.empty g in
            Each-append _ (b.inbox g) _ (h.inbox g) (
              subst
                (λ n. Each (IsFrom (Elsewhere inputs k)) (copies n (data_packet time stamp text)))
                (sym nobody_here) tt)
        | inr differs ↦
            let other : m.id ≢ k = λ e. ground arith in
            Each-append _ (b.inbox g) _ (h.inbox g) (
              Each-copies _ (b.members j g) _
                (m, text, time, (met, other), has, ap (λ t. data_packet time t text) (sym at)))
      ];
    }
    happen-IsApart (resent fd since) b asked h = absurd (quiet fd asked)
    happen-IsApart (entered j fd) b cause h = record {
      empty = happen-IsEmpty (entered j fd) b cause h.empty;
      inbox = h.inbox;
    }
    happen-IsApart (left j fd) b cause h = record {
      empty = happen-IsEmpty (left j fd) b cause h.empty;
      inbox = h.inbox;
    }
    happen-IsApart (vanished fd) b cause h = record {
      empty = happen-IsEmpty (vanished fd) b cause h.empty;
      inbox = h.inbox;
    }
    happen-IsApart (moved old new) b cause h = record {
      empty = happen-IsEmpty (moved old new) b cause h.empty;
      inbox = h.inbox;
    }
    happen-IsApart (forgotten time) b cause h = record {
      empty = happen-IsEmpty (forgotten time) b cause h.empty;
      inbox = h.inbox;
    }

    -- After a run from the state when the loop begins in which no command of addition names room `k`,
    -- and no client asks with an intact packet to go on with an old session, no socket is in that
    -- room, and every message that a socket got is the packet of a message that the run met, of
    -- another producer.
    pub rounds-apart :
        (listenfd : ℕ) (clock : ℕ → ℕ) (rs : List Round) (t : Server) (fd : ℕ)
        → Each (Met inputs) rs
        → rounds listenfd rs (start clock) ≡ some t
        → (members_of t.rooms k fd ≡ 0) × Each (IsFrom (Elsewhere inputs k)) (inbox_of fd t.trace)
    rounds-apart listenfd clock rs t fd met ends =
        let (es, causes, same) = rounds-replay listenfd inputs clock rs t met ends in
        let end =
          replay-keeps inputs IsApart happen-IsApart es nobody causes
            (record { empty = λ g. refl; inbox = λ g. tt }) in
        subst (λ b. (b.members k fd ≡ 0) × Each (IsFrom (Elsewhere inputs k)) (b.inbox fd))
          (sym same) (end.empty fd, end.inbox fd)
