-- ===== src/Tests/Answers.antt =====
-- What a run writes, and what a subscriber answers.
use soii_ipc.Base.{refl, ℕ, List, [], ◌∷◌, ◌++◌, ◌≡◌, ◌≢◌, ◌⊎◌, ◌+◌, some, false, arith, replicate}
use soii_ipc.Base.Text.{codes}
use soii_ipc.Base.Words.{to_bytes, of_bytes}
use soii_ipc.Protocol.{gen_packet, header_bytes}
use soii_ipc.Queue.{Message}
use soii_ipc.Server.Messages.{message_text, data_packet, handle_message}
use soii_ipc.Server.Messages.Delivery.{published}
use soii_ipc.Client.{Client, full, round}
use soii_ipc.Client.Session.{serve, ack_packet}
use soii_ipc.Client.Answers.{answered, refreshed, handle_message-answered}
use soii_ipc.Tests.Samples.{
  sample_md5, sample_printf, two_sessions, old_session, packet_at, first_bytes,
}

-- The memory producer's message, of the second at which the server takes it: 7 kB.
abbrev fresh_message : Message
fresh_message = record { id = 0; timestamp = 200; content = 7 ∷ 0 ∷ 0 ∷ 0 ∷ replicate 36 0 }

abbrev fresh_text : List ℕ
fresh_text = codes "Memoria disponible del sistema: " ++ (7 ∷ codes " kB")

-- The client in room 0.
abbrev listener : Client
listener = record {
  sockfd = 3;
  token = 10;
  tflag = false;
  term = false;
  buffer = packet_at 150;
  clock = λ n. 200 + n;
  broken = λ n. false;
  killed = false;
  trace = [];
}

handle_message-answered_example :
    let p = data_packet ⦃md5 = sample_md5⦄ 200 200 fresh_text in
    let t = published ⦃md5 = sample_md5⦄ fresh_message fresh_text (4 ∷ []) two_sessions in
    (handle_message ⦃md5 = sample_md5⦄ ⦃printf = sample_printf⦄ fresh_message two_sessions ≡ some t)
    × (((◌≡◌ {A = ℕ} 200 200)
          × (round ⦃md5 = sample_md5⦄ (full p) listener ≡ answered ⦃md5 = sample_md5⦄ p listener)
          × (serve ⦃md5 = sample_md5⦄ 4 (ack_packet ⦃md5 = sample_md5⦄ 200 10 ∷ []) t
              ≡ some (refreshed ⦃md5 = sample_md5⦄ 10 old_session t)))
        ⊎ ((◌≢◌ {A = ℕ} 200 200)
            × (round ⦃md5 = sample_md5⦄ (full p) listener ≡ record listener { buffer = p })))
unfolding data_packet gen_packet header_bytes to_bytes first_bytes message_text of_bytes
handle_message-answered_example =
    handle_message-answered ⦃md5 = sample_md5⦄ ⦃printf = sample_printf⦄ fresh_message fresh_text
      (4 ∷ []) two_sessions listener 4 old_session refl refl refl (omega arith) (omega arith)
      (omega arith) (λ e. refl) (omega arith) refl refl refl
