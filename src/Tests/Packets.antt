-- ===== src/Tests/Packets.antt =====
-- The packets' theorems at small inputs.
use soii_ipc.Base.{ℕ, ◌≡◌, refl, true, List, [], ◌∷◌, ◌++◌, some, arith, replicate, pos}
use soii_ipc.Base.Words.{to_bytes}
use soii_ipc.Protocol.{Packet, gen_packet, check_packet_md5, get_file_md5, m_type_ack, payload_int}
use soii_ipc.Protocol.Integrity.{gen_packet-check, gen_packet-IsPacket, check_packet_md5-injective}
use soii_ipc.Protocol.Wire.{IsPacket, payload_int-front}
use soii_ipc.Protocol.FileDigest.{joined, get_file_md5-digest}
use soii_ipc.Tests.Samples.{sample_md5, first_bytes}

abbrev token_bytes : List ℕ
token_bytes = 10 ∷ 0 ∷ 0 ∷ 0 ∷ []

abbrev ack : Packet
ack = (gen_packet ⦃md5 = sample_md5⦄ 200 m_type_ack token_bytes).0

gen_packet-check_example :
    (check_packet_md5 ⦃md5 = sample_md5⦄ ack ≡ true)
    × ((gen_packet ⦃md5 = sample_md5⦄ 200 m_type_ack token_bytes).1 ≡ pos 0)
    × (ack.timestamp ≡ 200)
    × (ack.mtype ≡ 1)
    × (ack.payload ≡ token_bytes ++ replicate 80 0)
gen_packet-check_example =
    gen_packet-check ⦃md5 = sample_md5⦄ 200 m_type_ack token_bytes (omega arith)

ack-IsPacket : IsPacket ack
ack-IsPacket = gen_packet-IsPacket ⦃md5 = sample_md5⦄ 200 1 token_bytes (omega arith) (omega arith)

check_packet_md5-injective_example : ack ≡ ack
check_packet_md5-injective_example =
    check_packet_md5-injective ⦃md5 = sample_md5⦄ ack ack ack-IsPacket ack-IsPacket
      gen_packet-check_example.0 gen_packet-check_example.0 refl (λ e. refl)

get_file_md5-digest_example :
    get_file_md5 ⦃md5 = sample_md5⦄ (some (1 ∷ 2 ∷ []) ∷ some (3 ∷ []) ∷ some [] ∷ [])
    ≡ some (first_bytes 16 (1 ∷ 2 ∷ 3 ∷ []))
unfolding joined
get_file_md5-digest_example =
    get_file_md5-digest ⦃md5 = sample_md5⦄ ((1 ∷ 2 ∷ []) ∷ (3 ∷ []) ∷ []) [] tt

payload_int-front_example :
    (payload_int 0 (to_bytes 4 10 ++ (to_bytes 4 11 ++ [])) ≡ 10)
    × (payload_int 1 (to_bytes 4 10 ++ (to_bytes 4 11 ++ [])) ≡ 11)
payload_int-front_example = payload_int-front 10 11 [] (omega arith) (omega arith)
