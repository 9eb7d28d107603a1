-- ===== src/Tests/Cleanups.antt =====
-- The cleanings and the messages at small states.
use soii_ipc.Base.{ℕ, ◌≡◌, ◌↔◌, refl, true, List, [], ◌∷◌, ◌++◌, some, arith, replicate}
use soii_ipc.Base.Words.{to_bytes, of_bytes}
use soii_ipc.Protocol.{header_bytes, check_packet_md5, gen_packet}
use soii_ipc.Server.{Server, sent, logged, message_received, tick}
use soii_ipc.Server.Cleanup.{garb_collec_old_conn}
use soii_ipc.Server.Cleanup.Walks.{closed_fds}
use soii_ipc.Server.Cleanup.Selection.{garb_collec_old_conn-select}
use soii_ipc.Server.Messages.{message_text, data_packet, handle_message}
use soii_ipc.Base.Text.{codes}
use soii_ipc.Queue.{Message}
use soii_ipc.Server.Messages.Delivery.{handle_message-delivers}
use soii_ipc.Server.Messages.Freshness.{data_packet-check_iff}
use soii_ipc.Tests.Samples.{
  sample_md5, sample_printf, new_session, two_sessions, packet_at, first_bytes,
}

garb_collec_old_conn-select_example :
    let s' = garb_collec_old_conn ⦃md5 = sample_md5⦄ 5 two_sessions in
    (s'.connections ≡ new_session ∷ [])
    × (s'.rooms ≡ [] ∷ [] ∷ [] ∷ [])
    × (closed_fds s'.trace ≡ 4 ∷ [])
    × (s'.packets ≡ two_sessions.packets)
garb_collec_old_conn-select_example =
    garb_collec_old_conn-select ⦃md5 = sample_md5⦄ 5 two_sessions ((refl, tt), (tt, (tt, tt)))
      (omega arith)

abbrev waiting : Server
waiting = record two_sessions { packets = packet_at 198 ∷ packet_at 90 ∷ [] }

-- The memory producer's message: 7 kB.
abbrev memory_message : Message
memory_message = record { id = 0; timestamp = 199; content = 7 ∷ 0 ∷ 0 ∷ 0 ∷ replicate 36 0 }

abbrev random_message : Message
random_message = record { id = 1; timestamp = 199; content = replicate 40 97 }

abbrev memory_text : List ℕ
memory_text = codes "Memoria disponible del sistema: " ++ (7 ∷ codes " kB")

handle_message-delivers_example :
    let p = data_packet ⦃md5 = sample_md5⦄ 200 199 memory_text in
    handle_message ⦃md5 = sample_md5⦄ ⦃printf = sample_printf⦄ memory_message two_sessions
    ≡ some (record (tick two_sessions) {
      packets = p ∷ two_sessions.packets;
      trace = logged (message_received 0 199) ∷ sent 4 p ∷ [];
    })
unfolding message_text of_bytes
handle_message-delivers_example =
    handle_message-delivers ⦃md5 = sample_md5⦄ ⦃printf = sample_printf⦄ memory_message memory_text
      (4 ∷ []) two_sessions refl refl

-- With the sample digest, which keeps the time, a stale packet is told from a fresh one.
data_packet-check_iff_example :
    (check_packet_md5 ⦃md5 = sample_md5⦄ (data_packet ⦃md5 = sample_md5⦄ 200 199 memory_text)
      ≡ true)
    ↔ (◌≡◌ {A = ℕ} 199 200)
unfolding data_packet gen_packet header_bytes to_bytes first_bytes
data_packet-check_iff_example =
    data_packet-check_iff ⦃md5 = sample_md5⦄ 200 199 memory_text (omega arith) (omega arith)
      (omega arith) (λ e. ground arith)
