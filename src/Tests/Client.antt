-- ===== src/Tests/Client.antt =====
-- The client's theorems: a reconnection, and a server that goes away.
use soii_ipc.Base.{◌==◌, ◌+◌, ◌≡◌, refl, true, false, [], ◌∷◌, some, arith, replicate}
use soii_ipc.Base.Words.{to_bytes, of_bytes}
use soii_ipc.Protocol.{
  Packet, gen_packet, m_type_conn_accepted, m_type_data, check_packet_md5, header_bytes,
  payload_int,
}
use soii_ipc.Server.{tick}
use soii_ipc.Client.{Client, full, ended, round, rounds}
use soii_ipc.Client.Session.{serve, packets_of, resumed, serve-round}
use soii_ipc.Client.Stale.{IsStale, acknowledgements, rounds-ended}
use soii_ipc.Tests.Samples.{sample_md5, old_session, new_session, two_sessions, first_bytes}

abbrev welcome : Packet
welcome = (gen_packet ⦃md5 = sample_md5⦄ 200 m_type_conn_accepted (to_bytes 4 11)).0

abbrev message : Packet
message = (gen_packet ⦃md5 = sample_md5⦄ 200 m_type_data (72 ∷ 105 ∷ [])).0

-- A client that comes back with the token 10.
abbrev returning : Client
returning = record {
  sockfd = 3;
  token = 10;
  tflag = true;
  term = false;
  buffer = message;
  clock = λ n. 200 + n;
  broken = λ n. n == 2;
  killed = false;
  trace = [];
}

serve-round_example :
    serve ⦃md5 = sample_md5⦄ 5
      (packets_of (round ⦃md5 = sample_md5⦄ (full welcome) returning).trace)
      two_sessions
    ≡ some (record (tick (resumed ⦃md5 = sample_md5⦄ 5 10 11 old_session two_sessions)) {
      connections = record old_session { sockfd = 5; timestamp = 200 } ∷ [];
    })
unfolding check_packet_md5 first_bytes header_bytes to_bytes gen_packet payload_int of_bytes
serve-round_example =
    serve-round ⦃md5 = sample_md5⦄ returning welcome 5 two_sessions old_session new_session refl
      refl refl refl refl refl refl (omega arith) (omega arith) refl refl

message-IsStale : IsStale ⦃md5 = sample_md5⦄ returning
unfolding check_packet_md5 first_bytes header_bytes to_bytes gen_packet
message-IsStale = record { intact = refl; type = refl; going = refl; alive = refl }

rounds-ended_example :
    ((rounds ⦃md5 = sample_md5⦄ (replicate 5 ended) returning).killed ≡ true)
    × ((rounds ⦃md5 = sample_md5⦄ (replicate 5 ended) returning).trace
        ≡ acknowledgements ⦃md5 = sample_md5⦄ 3 10 (λ n. 200 + n) 2)
rounds-ended_example =
    rounds-ended ⦃md5 = sample_md5⦄ 5 2 returning message-IsStale (λ j less. ground arith) refl
      (omega arith)
