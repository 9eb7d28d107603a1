-- ===== src/Server/Wire/Runs.antt =====
-- What a whole run writes to the clients.
use soii_ipc.Base.{ℕ, ◌≡◌, List, some}
use soii_ipc.Protocol.{Md5}
use soii_ipc.Server.{Server}
use soii_ipc.Server.Messages.{Printf}
use soii_ipc.Server.Loop.{Round, start, rounds}
use soii_ipc.Server.Loop.Inductive.{Inductive, any, Met-any, rounds-keeps}
use soii_ipc.Server.Wire.{AllSent, IsFair, IsClean}
use soii_ipc.Server.Wire.Clients.{handle_client-IsClean}
use soii_ipc.Server.Wire.Commands.{handle_command-IsClean}
use soii_ipc.Server.Wire.Deliveries.{
  handle_message-IsClean, garb_collec_old_conn-IsClean, garb_collec_old_packets-IsClean,
}

module _ ⦃md5 : Md5⦄ ⦃printf : Printf⦄ (listenfd : ℕ) where
  pub handlers-IsClean : Inductive listenfd any IsClean
  handlers-IsClean = record {
    client = λ e s met. handle_client-IsClean listenfd e s;
    command = λ c s met. handle_command-IsClean c s;
    message = λ m s met. handle_message-IsClean m s;
    connections = garb_collec_old_conn-IsClean;
    packets = garb_collec_old_packets-IsClean;
  }

  -- Over any run from the state when the loop begins, every packet that the server writes to a client
  -- has a whole payload and digest, and it is a message or passes its receiver's check.
  pub rounds-AllSent :
      (clock : ℕ → ℕ) (rs : List Round) (t : Server)
      → rounds listenfd rs (start clock) ≡ some t
      → AllSent IsFair t.trace
  unfolding start
  rounds-AllSent clock rs t ends =
      (rounds-keeps listenfd any IsClean handlers-IsClean rs (start clock) t (Met-any rs)
        (record { sent = tt; buffered = tt }) ends).sent
