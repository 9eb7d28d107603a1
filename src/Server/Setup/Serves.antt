-- ===== src/Server/Setup/Serves.antt =====
-- The setup and the main loop together.
use soii_ipc.Base.{some, ◌⊎◌, ◌≡◌, ℕ, List, some, subst, sym}
use soii_ipc.Protocol.{Md5}
use soii_ipc.Server.{Server, no_productores}
use soii_ipc.Server.Clients.Faults.{Kept}
use soii_ipc.Server.Messages.{Printf}
use soii_ipc.Server.Loop.{Round, rounds}
use soii_ipc.Server.Loop.Faults.{FatalRun, RunWords, rounds-start}
use soii_ipc.Server.Setup.{Environment, SetupCall, running, set_up}
use soii_ipc.Server.Setup.Outcomes.{Sound, set_up-Sound}

module _ ⦃md5 : Md5⦄ ⦃printf : Printf⦄ where
  -- If the server's setup comes to the loop, the loop listens on the socket that the setup made, and
  -- goes through any number of rounds, with three rooms at the end, unless one that it comes to meets
  -- a message with no text or one of a producer that has no room; the rooms' numbers in commands are
  -- 32-bit patterns.
  pub set_up-serves :
      (e : Environment) (fd : ℕ) (s : Server) (calls : List SetupCall) (rs : List Round)
      → set_up e ≡ running fd s calls
      → RunWords rs
      → (e.socket ≡ some fd) × (FatalRun fd rs s ⊎ Kept no_productores (rounds fd rs s))
  set_up-serves e fd s calls rs reached words =
      let (socket, bound, listening, begins) = subst (Sound e) reached (set_up-Sound e) in
      (
        socket,
        subst (λ t. FatalRun fd rs t ⊎ Kept no_productores (rounds fd rs t)) (sym begins)
            (rounds-start fd e.clock rs words),
      )
