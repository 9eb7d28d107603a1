-- ===== src/Server/Broker/Runs.antt =====
-- A run of the server is a run of the broker.
use soii_ipc.Base.{Each, ◌∷◌, ℕ, zero, suc, ◌≡◌, refl, ◌∙◌, ap, List, Option, none, some, []}
use soii_ipc.Protocol.{Md5}
use soii_ipc.Server.{Server}
use soii_ipc.Server.Messages.{Printf}
use soii_ipc.Server.Cleanup.{garb_collec_old_conn, garb_collec_old_packets}
use soii_ipc.Server.Loop.{Round, start, rounds}
use soii_ipc.Server.Loop.Inductive.{After, Inductive, Met, rounds-keeps}
use soii_ipc.Server.Wire.{IsClean}
use soii_ipc.Server.Wire.Runs.{handlers-IsClean}
use soii_ipc.Server.Loop.Inductive.{Inputs}
use soii_ipc.Server.Broker.Causes.{Caused, Refines, Refines-same, Refines-trans}
use soii_ipc.Server.Broker.{Event, nobody, replay, members_of, view, Broker-ext}
use soii_ipc.Server.Broker.Clients.{handle_client-Refines}
use soii_ipc.Server.Broker.Commands.{handle_command-Refines}
use soii_ipc.Server.Broker.Deliveries.{
  handle_message-Refines, garb_collec_old_conn-Refines, garb_collec_old_packets-Refines,
}

pub After-map :
    (P Q : Server → Type 0) (o : Option Server) → ((t : Server) → P t → Q t) → After P o → After Q o
After-map P Q none f h = tt
After-map P Q (some t) f h = f t h

pub After-both :
    (P Q : Server → Type 0) (o : Option Server) → After P o → After Q o → After (λ t. P t × Q t) o
After-both P Q none p q = tt
After-both P Q (some t) p q = (p, q)

module _ ⦃md5 : Md5⦄ ⦃printf : Printf⦄ (inputs : Inputs) (listenfd : ℕ) (first : Server) where
  -- The server has come from `first` by events of the broker, and what it keeps are messages.
  abbrev Follows : Server → Type 0
  Follows t = Refines inputs first t × IsClean t

  follow :
      (s : Server) (o : Option Server)
      → Refines inputs first s
      → After (Refines inputs s) o
      → After IsClean o
      → After Follows o
  follow s o here step clean =
      After-both (Refines inputs first) IsClean o
        (After-map (Refines inputs s) (Refines inputs first) o
          (λ t. Refines-trans inputs first s t here) step)
        clean

  handlers-Follows : Inductive listenfd inputs Follows
  handlers-Follows =
      let wire = handlers-IsClean listenfd in
      record {
        client = λ e s met (here, clean).
            follow s _ here (handle_client-Refines inputs listenfd e s met clean.buffered)
              (wire.client e s tt clean);
        command = λ c s met (here, clean).
            follow s _ here (handle_command-Refines inputs c s met) (wire.command c s tt clean);
        message = λ m s met (here, clean).
            follow s _ here (handle_message-Refines inputs m s met) (wire.message m s tt clean);
        connections = λ period s (here, clean). (
          Refines-trans inputs first s (garb_collec_old_conn period s) here
              (garb_collec_old_conn-Refines inputs period s),
          wire.connections period s clean,
        );
        packets = λ period s (here, clean). (
          Refines-trans inputs first s (garb_collec_old_packets period s) here
              (garb_collec_old_packets-Refines inputs period s),
          wire.packets period s clean,
        );
      }

start-nobody : (clock : ℕ → ℕ) → view (start clock) ≡ nobody
unfolding start
start-nobody clock = Broker-ext (view (start clock)) nobody empty (λ g. refl) refl refl
  where
    empty : (k fd : ℕ) → members_of ([] ∷ [] ∷ [] ∷ []) k fd ≡ 0
    empty zero fd = refl
    empty (suc zero) fd = refl
    empty (suc (suc zero)) fd = refl
    empty (suc (suc (suc k))) fd = refl

module _ ⦃md5 : Md5⦄ ⦃printf : Printf⦄ (listenfd : ℕ) where
  -- A run is a run of the broker, by events that its inputs cause.
  pub rounds-replay :
      (inputs : Inputs) (clock : ℕ → ℕ) (rs : List Round) (t : Server)
      → Each (Met inputs) rs
      → rounds listenfd rs (start clock) ≡ some t
      → (es : List Event) × Each (Caused inputs) es × (view t ≡ replay es nobody)
  unfolding start
  rounds-replay inputs clock rs t met ends =
      let ((es, causes, same), clean) =
        rounds-keeps listenfd inputs (Follows inputs listenfd (start clock))
          (handlers-Follows inputs listenfd (start clock)) rs (start clock) t met
          (
            Refines-same inputs (start clock) (start clock) refl,
            record { sent = tt; buffered = tt },
          )
          ends in
      (es, causes, same ∙ ap (replay es) (start-nobody clock))
