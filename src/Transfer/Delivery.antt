-- ===== src/Transfer/Delivery.antt =====
-- The whole transfer: what the server's thread sends, and what the client's makes of it.
pub mod Sending
pub mod Receiving
pub mod Order
pub mod Descriptors
use soii_ipc.Base.{
  ℕ, ◌≡◌, refl, sym, ap, ◌∙◌, Bool, true, false, List, [], ◌∷◌, ◌++◌, Option, none, some, map,
}
use soii_ipc.Protocol.{Md5, md5_digest_length, same_bytes}
use soii_ipc.Protocol.FileDigest.{joined}
use soii_ipc.Protocol.Integrity.{same_bytes_refl}
use soii_ipc.Transfer.Sender.{Answers, handle_loq_req}
use soii_ipc.Transfer.Receiver.{
  Receiver, Meeting, Outcome, recv_file, receive_all, receive, terminate,
}
use soii_ipc.Transfer.Delivery.Sending.{AllWell, parts_of, handle_loq_req-parts}
use soii_ipc.Transfer.Delivery.Receiving.{AllFit, whole, finished, receive-transfer}

-- The client's socket is connected, its file is new, and every packet that the server's thread sends
-- arrives as a whole.
pub record IsReached ⦃md5 : Md5⦄ (a : Answers) (sock_req : ℕ) (m : Meeting) : Type 0 where
  pub sock : ℕ
  pub file : ℕ
  pub new_sock : m.new_sock ≡ some sock
  pub connected : m.connected ≡ true
  pub opened : m.opened ≡ some file
  pub arrivals : m.arrivals ≡ map whole (parts_of (handle_loq_req a sock_req).trace)

module _ ⦃md5 : Md5⦄ (a : Answers) (size : ℕ) (pieces : List (List ℕ))
    (well : AllWell a size (md5.digest (joined pieces)) pieces) (fit : AllFit pieces) (sock_req : ℕ)
    (m : Meeting) (reached : IsReached a sock_req m) where
  empty_file : Receiver
  empty_file = record m.start { file = []; done = false; verdict = none }

  receive-arrivals :
      receive m.arrivals empty_file
      ≡ some (finished size (md5.digest (joined pieces)) pieces empty_file)
  unfolding empty_file
  receive-arrivals =
      ap (λ l. receive l empty_file)
        (reached.arrivals
          ∙ ap (map whole)
              (handle_loq_req-parts a size (md5.digest (joined pieces)) pieces well sock_req))
      ∙ receive-transfer size (md5.digest (joined pieces)) pieces empty_file
          (md5.length-digest (joined pieces)) fit refl

  receive_all-finished :
      receive_all m reached.sock reached.file
      ≡ some (record {
        closed = reached.sock ∷ reached.file ∷ [];
        received = some (finished size (md5.digest (joined pieces)) pieces empty_file);
      })
  unfolding receive_all empty_file
  receive_all-finished =
      ap (λ o. elim o [ none ↦ none | some r ↦ terminate reached.sock reached.file (some r) ])
        receive-arrivals

  -- If every call of the server's thread succeeds, no piece that it reads is larger than a packet's
  -- payload, the digest that it sends is that of the pieces, and its packets arrive as a whole and are
  -- written as a whole, the client's thread ends, closes its two descriptors, has the compressed log
  -- in its file, byte for byte, and says that it is intact.
  pub recv_file-intact :
      (r : Receiver) × (recv_file m
        ≡ some (record { closed = reached.sock ∷ reached.file ∷ []; received = some r }))
      × (r.file ≡ joined pieces)
      × (r.verdict ≡ some true)
  unfolding recv_file empty_file
  recv_file-intact = (
    finished size (md5.digest (joined pieces)) pieces empty_file,
    simp (reached.new_sock, reached.connected, reached.opened, recv_file, receive_all-finished),
    refl,
    ap some (same_bytes_refl md5_digest_length (md5.digest (joined pieces))),
  )
