-- ===== src/Transfer/Receiver.antt =====
-- client/src/cliente.c:recv_file, the thread that receives the file.
use soii_ipc.Base.{
  ℕ, Bool, true, false, List, [], ◌∷◌, ◌++◌, Option, none, some, ◌==◌, ltb, if◌then◌else◌, take,
}
use soii_ipc.Base.Words.{int_minus_one}
use soii_ipc.Client.{Reception, failed, ended, full}
use soii_ipc.Protocol.{Md5, same_bytes, md5_digest_length}
use soii_ipc.Transfer.{FilePacket, ft_payload_size, m_type_ft_begin, m_type_ft_data, m_type_ft_fin}

-- What one round of the loop meets: what `recv` gave, and, if a write follows, how many bytes it
-- wrote, `none` for -1.
pub record Arrival : Type 0 where
  pub got : Reception FilePacket
  pub wrote : Option ℕ

-- The variables of the loop. `file` is what was written to it; `done` is `end`, or that the loop was
-- left by `break`; `verdict` is what was printed: intact or damaged.
pub record Receiver ⦃md5 : Md5⦄ : Type 0 where
  pub packet : FilePacket
  pub context : md5.Context
  pub server_hash : List ℕ
  pub file : List ℕ
  pub done : Bool
  pub verdict : Option Bool

module _ ⦃md5 : Md5⦄ where
  -- The file after a write of `bytes`, and whether the loop ends with it.
  unfoldable pub write_file : Option ℕ → List ℕ → Receiver → Receiver
  write_file none bytes r = record r { done = true }
  write_file (some n) bytes r = record r { file = r.file ++ take n bytes }

  -- A packet is handled. `none`: it says that more bytes are valid than its payload has.
  unfoldable pub take_packet : Option ℕ → FilePacket → Receiver → Option Receiver
  take_packet wrote p r =
      if p.mtype == m_type_ft_begin
      then some (record r { server_hash = take md5_digest_length p.payload; context = md5.init })
      else if p.mtype == m_type_ft_data
      then (if ltb ft_payload_size p.nbytes
          then none
          else (let bytes = take p.nbytes p.payload in
              let written = write_file wrote bytes r in
              some (record written { context = md5.feed written.context bytes })))
      else if p.mtype == m_type_ft_fin
      then some (record r {
        done = true;
        verdict = some (same_bytes md5_digest_length (md5.final r.context) r.server_hash);
      })
      else some r

  -- One round: if `recv` failed, the loop is left; at the end of the stream the packet is the last
  -- one again.
  unfoldable pub receive_round : Arrival → Receiver → Option Receiver
  receive_round a r = elim a.got [
    | failed ↦ some (record r { done = true })
    | ended ↦ take_packet a.wrote r.packet r
    | full p ↦ take_packet a.wrote p (record r { packet = p })
  ]

  -- `while (!end)`, for as long as the list of arrivals goes on.
  unfoldable pub receive : List Arrival → Receiver → Option Receiver
  receive [] r = some r
  receive (a ∷ rest) r = elim r.done [
    | true ↦ some r
    | false ↦ elim (receive_round a r) [ none ↦ none | some next ↦ receive rest next ]
  ]

-- What `recv_file` meets: the new socket, whether `connect` succeeds, the file that `open` made
-- (it fails where one exists), and what the uninitialised variables hold.
pub record Meeting ⦃md5 : Md5⦄ : Type 0 where
  pub new_sock : Option ℕ
  pub connected : Bool
  pub opened : Option ℕ
  pub recv_file : ℕ
  pub start : Receiver
  pub arrivals : List Arrival

-- How the thread ends: the descriptors that it closes, in order, and the loop's variables, if it
-- came to the loop.
pub record Outcome ⦃md5 : Md5⦄ : Type 0 where
  pub closed : List ℕ
  pub received : Option Receiver

module _ ⦃md5 : Md5⦄ where
  abbrev pub terminate : ℕ → ℕ → Option Receiver → Option Outcome
  terminate new_sock file r = some (record { closed = new_sock ∷ file ∷ []; received = r })

  -- The loop starts with an empty file and nothing printed.
  unfoldable pub receive_all : Meeting → ℕ → ℕ → Option Outcome
  receive_all m new_sock file =
      elim (receive m.arrivals (record m.start { file = []; done = false; verdict = none })) [
        | none ↦ none
        | some r ↦ terminate new_sock file (some r)
      ]

  unfoldable pub recv_file : Meeting → Option Outcome
  recv_file m = elim m.new_sock [
    | none ↦ terminate int_minus_one m.recv_file none
    | some new_sock ↦
        if m.connected
        then elim m.opened [
          | none ↦ terminate new_sock int_minus_one none
          | some file ↦ receive_all m new_sock file
        ]
        else terminate new_sock m.recv_file none
  ]
