-- ===== src/Server/Loop/Inductive.antt =====
-- What every handler keeps, the main loop keeps: partial correctness of a run.
use soii_ipc.Base.{Each, Each-all, ℕ, ◌≡◌, subst, List, [], ◌∷◌, Option, none, some}
use soii_ipc.Queue.{Message}
use soii_ipc.Protocol.{Md5}
use soii_ipc.Server.{Server, conn_timeout, buffer_cleanup_period}
use soii_ipc.Server.Clients.{ClientEvent, handle_client}
use soii_ipc.Server.Commands.{Command, handle_command}
use soii_ipc.Server.Messages.{Printf, handle_message}
use soii_ipc.Server.Cleanup.{garb_collec_old_conn, garb_collec_old_packets}
use soii_ipc.Server.Loop.{
  Round, ◌>>=◌, handle_clients, handle_commands, receive_message, clean_up, later_part, round_from,
  round, rounds,
}

-- It holds of the state, if there is one.
abbrev pub After : (Server → Type 0) → Option Server → Type 0
After I none = Unit {0}
After I (some s) = I s

pub bind-After :
    (I J : Server → Type 0) (o : Option Server) (f : Server → Option Server)
    → After I o
    → ((t : Server) → I t → After J (f t))
    → After J (o >>= f)
bind-After I J none f h next = tt
bind-After I J (some t) f h next = next t h

-- What is said of the inputs of a run: the events of clients, the commands, the producers' messages.
pub record Inputs : Type 1 where
  pub event : ClientEvent → Type 0
  pub command : Command → Type 0
  pub message : Message → Type 0

-- Of any input.
abbrev pub any : Inputs
any = record { event = λ e. Unit {0}; command = λ c. Unit {0}; message = λ m. Unit {0} }

abbrev pub EachIn {ℓ} : {A : Type ℓ} → (A → Type 0) → Option (List A) → Type 0
EachIn P none = Unit {0}
EachIn P (some xs) = Each P xs

abbrev pub IfAny {ℓ} : {A : Type ℓ} → (A → Type 0) → Option A → Type 0
IfAny P none = Unit {0}
IfAny P (some x) = P x

-- It is so of every input of the round.
pub record Met (inputs : Inputs) (r : Round) : Type 0 where
  pub events : EachIn inputs.event r.events
  pub commands : EachIn inputs.command r.commands
  pub message : IfAny inputs.message r.message

EachIn-all {ℓ} :
    {A : Type ℓ} (P : A → Type 0) → ((x : A) → P x) → (o : Option (List A)) → EachIn P o
EachIn-all P all none = tt
EachIn-all P all (some xs) = Each-all P all xs

IfAny-all {ℓ} : {A : Type ℓ} (P : A → Type 0) → ((x : A) → P x) → (o : Option A) → IfAny P o
IfAny-all P all none = tt
IfAny-all P all (some x) = all x

pub Met-any : (rs : List Round) → Each (Met any) rs
Met-any = Each-all (Met any) λ r. record {
  events = EachIn-all any.event (λ e. tt) r.events;
  commands = EachIn-all any.command (λ c. tt) r.commands;
  message = IfAny-all any.message (λ m. tt) r.message;
}

-- Every handler keeps `I`, on such inputs.
pub record Inductive ⦃md5 : Md5⦄ ⦃printf : Printf⦄ (listenfd : ℕ) (inputs : Inputs)
    (I : Server → Type 0) : Type 0 where
  pub client :
      (e : ClientEvent) (s : Server) → inputs.event e → I s → After I (handle_client listenfd e s)
  pub command : (c : Command) (s : Server) → inputs.command c → I s → After I (handle_command c s)
  pub message : (m : Message) (s : Server) → inputs.message m → I s → After I (handle_message m s)
  pub connections : (period : ℕ) (s : Server) → I s → I (garb_collec_old_conn period s)
  pub packets : (period : ℕ) (s : Server) → I s → I (garb_collec_old_packets period s)

module _ ⦃md5 : Md5⦄ ⦃printf : Printf⦄ (listenfd : ℕ) (inputs : Inputs) (I : Server → Type 0)
    (keeps : Inductive listenfd inputs I) where
  pub handle_clients-After :
      (es : List ClientEvent) (s : Server)
      → Each inputs.event es
      → I s
      → After I (handle_clients listenfd es s)
  unfolding handle_clients
  handle_clients-After [] s met h = h
  handle_clients-After (e ∷ es) s (met, others) h =
      bind-After I I (handle_client listenfd e s) (handle_clients listenfd es)
        (keeps.client e s met h) λ t. handle_clients-After es t others

  pub handle_commands-After :
      (cs : List Command) (s : Server)
      → Each inputs.command cs
      → I s
      → After I (handle_commands cs s)
  unfolding handle_commands
  handle_commands-After [] s met h = h
  handle_commands-After (c ∷ cs) s (met, others) h =
      bind-After I I (handle_command c s) (handle_commands cs) (keeps.command c s met h)
        λ t. handle_commands-After cs t others

  receive_message-After :
      (o : Option Message) (s : Server)
      → IfAny inputs.message o
      → I s
      → After I (receive_message o s)
  unfolding receive_message
  receive_message-After none s met h = h
  receive_message-After (some m) s met h = keeps.message m s met h

  pub clean_up-keeps : (s : Server) → I s → I (clean_up s)
  unfolding clean_up
  clean_up-keeps s h = keeps.packets buffer_cleanup_period _ (keeps.connections conn_timeout s h)

  later_part-After :
      (o : Option (List Command)) (message : Option Message) (s : Server)
      → EachIn inputs.command o
      → IfAny inputs.message message
      → I s
      → After I (later_part o message s)
  unfolding later_part
  later_part-After none message s met met' h = h
  later_part-After (some cs) message s met met' h =
      bind-After I I (handle_commands cs s) _ (handle_commands-After cs s met h) λ t h'.
        bind-After I I (receive_message message t) _ (receive_message-After message t met' h')
          clean_up-keeps

  round_from-After :
      (o : Option (List ClientEvent)) (r : Round) (s : Server)
      → EachIn inputs.event o
      → Met inputs r
      → I s
      → After I (round_from listenfd o r s)
  unfolding round_from
  round_from-After none r s events met h = h
  round_from-After (some es) r s events met h =
      bind-After I I (handle_clients listenfd es s) (later_part r.commands r.message)
        (handle_clients-After es s events h)
        λ t. later_part-After r.commands r.message t met.commands met.message

  rounds-After :
      (rs : List Round) (s : Server) → Each (Met inputs) rs → I s → After I (rounds listenfd rs s)
  unfolding rounds round
  rounds-After [] s met h = h
  rounds-After (r ∷ rs) s (met, others) h =
      bind-After I I (round listenfd r s) (rounds listenfd rs)
        (round_from-After r.events r s met.events met h) λ t. rounds-After rs t others

  -- What every handler keeps on such inputs, and holds when a run begins that meets no others, holds
  -- when it ends.
  pub rounds-keeps :
      (rs : List Round) (s t : Server)
      → Each (Met inputs) rs
      → I s
      → rounds listenfd rs s ≡ some t
      → I t
  rounds-keeps rs s t met h ends = subst (After I) ends (rounds-After rs s met h)
