-- ===== src/Server/Messages.antt =====
-- The main loop's treatment of one message of the producers' queue (server/src/srv.c).
pub mod Delivery
pub mod Freshness
use soii_ipc.Base.{
  ℕ, zero, suc, ◌≤◌, ◌<◌, ◌^◌, List, [], ◌∷◌, ◌++◌, Option, none, some, ◌==◌, if◌then◌else◌, length,
  take, get_elem?,
}
use soii_ipc.Base.Words.{of_bytes}
use soii_ipc.Base.Text.{codes}
use soii_ipc.Queue.{Message}
use soii_ipc.Seq.{add_start}
use soii_ipc.Protocol.{Md5, Packet, gen_packet, m_type_data}
use soii_ipc.Server.{Server, message_received, logged, emit, now, tick}
use soii_ipc.Server.Util.{broadcast_room}

-- What the code relies on of `sprintf`: the text of a 32-bit number under `%u`, and of a `float`,
-- given by its bits, under `%f`.
pub record Printf : Type 0 where
  pub unsigned : ℕ → List ℕ
  pub float : ℕ → List ℕ
  pub length-unsigned : (n : ℕ) → n < 2 ^ 32 → length (unsigned n) ≤ 10
  pub length-float : (bits : ℕ) → bits < 2 ^ 32 → length (float bits) ≤ 47

-- The text that starts at a buffer's front, as `%s` prints it. `none`: no terminator stands in the
-- buffer, and what follows it in memory is read.
unfoldable pub c_string : List ℕ → Option (List ℕ)
c_string [] = none
c_string (b ∷ bs) =
    let rest = c_string bs in
    if b == 0 then some [] else elim rest [ none ↦ none | some t ↦ some (b ∷ t) ]

module _ ⦃printf : Printf⦄ where
  -- `buffer_productores`: the text that goes to the clients.
  unfoldable pub message_text : Message → Option (List ℕ)
  message_text m =
      if m.id == 0
      then some (
          codes "Memoria disponible del sistema: "
          ++ (printf.unsigned (of_bytes (take 4 m.content)) ++ codes " kB"))
      else (if m.id == 1
          then c_string m.content
          else some (
              if m.id == 2
              then codes "Carga del sistema normalizada: "
                ++ printf.float (of_bytes (take 4 m.content))
              else []))

module _ ⦃md5 : Md5⦄ where
  -- The packet carries the producer's time, but its digest was made over the server's.
  unfoldable pub data_packet : ℕ → ℕ → List ℕ → Packet
  data_packet time stamp text = record (gen_packet time m_type_data text).0 { timestamp = stamp }

  unfoldable pub publish : Message → List ℕ → List ℕ → Server → Server
  publish m room text s =
      let p = data_packet (now s) m.timestamp text in
      let told = broadcast_room room p (tick s) in
      record told { packets = add_start p told.packets }

module _ ⦃md5 : Md5⦄ ⦃printf : Printf⦄ where
  -- `none` is undefined behaviour: a text with no end, or a room that does not exist.
  unfoldable pub handle_message : Message → Server → Option Server
  handle_message m s =
      let noted = emit (logged (message_received m.id m.timestamp)) s in
      elim (message_text m) [
        | none ↦ none
        | some text ↦ elim (get_elem? s.rooms m.id) [
          | none ↦ none
          | some room ↦ some (publish m room text noted)
        ]
      ]
