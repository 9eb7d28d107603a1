-- ===== src/Server/Exit.antt =====
-- server/src/srv_util.c:srv_on_exit, which `main` registers with `on_exit`.
pub mod Release
use soii_ipc.Base.{ℕ, zero, suc, List, [], ◌∷◌, ℤ}
use soii_ipc.Heap.{Cmd, fault, pure, ◌>>◌}
use soii_ipc.LinkedList.{LinkedList}
use soii_ipc.LinkedList.Api.{ListApi}
use soii_ipc.Protocol.{Packet}
use soii_ipc.Server.{Connection, no_productores}

-- What the items of the server's lists are.
pub data Item : Type 0 where
  packet : Packet → Item
  connection : Connection → Item
  socket : ℕ → Item

-- `struct srv_exit_args`
pub record SrvExitArgs : Type 0 where
  pub susc_rooms : List (LinkedList Item)
  pub connections : LinkedList Item
  pub buffer_packets : LinkedList Item
  pub mq : ℤ

module _ ⦃api : ListApi Item⦄ where
  -- The rooms from the front, as many as there are left; a fault where the array has none.
  unfoldable pub free_rooms : ℕ → ℕ → List (LinkedList Item) → Cmd Item (Unit {0})
  free_rooms fuel zero rooms = pure tt
  free_rooms fuel (suc n) [] = λ h. fault
  free_rooms fuel (suc n) (room ∷ rooms) = do api.free fuel room; free_rooms fuel n rooms

  -- The result is the queue that was closed, between the lists.
  unfoldable pub srv_on_exit : ℕ → SrvExitArgs → Cmd Item ℤ
  srv_on_exit fuel args = do
    api.free fuel args.buffer_packets
    api.free fuel args.connections
    free_rooms fuel no_productores args.susc_rooms
    pure args.mq
