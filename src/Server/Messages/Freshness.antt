-- ===== src/Server/Messages/Freshness.antt =====
-- The digest of a data packet is made before the producer's time is written into it.
use soii_ipc.Base.{ℕ, ◌^◌, ◌≤◌, ◌<◌, ◌≡◌, ◌↔◌, sym, ap, ◌∙◌, true, List, ◌++◌, arith, length, take}
use soii_ipc.Base.Words.{to_bytes, of_bytes, of_bytes-to_bytes, length-to_bytes}
use soii_ipc.Protocol.{
  Md5, Packet, header_bytes, check_packet_md5, gen_packet, payload_size, m_type_data,
}
use soii_ipc.Protocol.Wire.{IsPacket, take-append}
use soii_ipc.Protocol.Integrity.{gen_packet-check, gen_packet-IsPacket, check_packet-hash}
use soii_ipc.Server.Messages.{data_packet}

-- The header shows the time.
timestamp_of_header :
    (p q : Packet)
    → p.timestamp < 256 ^ 8
    → q.timestamp < 256 ^ 8
    → header_bytes p ≡ header_bytes q
    → p.timestamp ≡ q.timestamp
unfolding header_bytes
timestamp_of_header p q hp hq e = sym (read p hp) ∙ ap (λ b. of_bytes (take 8 b)) e ∙ read q hq
  where
    read :
        (r : Packet)
        → r.timestamp < 256 ^ 8
        → of_bytes (take 8 (to_bytes 8 r.timestamp ++ (to_bytes 4 r.mtype ++ r.payload)))
          ≡ r.timestamp
    read r h =
        ap of_bytes (take-append 8 (to_bytes 8 r.timestamp) _ (length-to_bytes 8 r.timestamp))
        ∙ of_bytes-to_bytes 8 r.timestamp h

module _ ⦃md5 : Md5⦄ where
  -- A data packet passes its receiver's check exactly if the producer's time is the time at which the
  -- server made the packet, provided MD5 does not collide on the two headers.
  pub data_packet-check_iff :
      (time stamp : ℕ) (text : List ℕ)
      → time < 256 ^ 8
      → stamp < 256 ^ 8
      → length text ≤ payload_size
      → (md5.digest (header_bytes (data_packet time stamp text))
            ≡ md5.digest (header_bytes (gen_packet time m_type_data text).0)
          → header_bytes (data_packet time stamp text)
            ≡ header_bytes (gen_packet time m_type_data text).0)
      → (check_packet_md5 (data_packet time stamp text) ≡ true) ↔ (stamp ≡ time)
  unfolding data_packet
  data_packet-check_iff time stamp text ht hs fits apart = (stale, fresh)
    where
      made : Packet
      made = (gen_packet time m_type_data text).0

      is : IsPacket made
      is = gen_packet-IsPacket time m_type_data text ht (omega arith)

      restamped : IsPacket (data_packet time stamp text)
      restamped = record { timestamp = hs; mtype = is.mtype; payload = is.payload; hash = is.hash }

      stale : check_packet_md5 (data_packet time stamp text) ≡ true → stamp ≡ time
      stale ok =
          timestamp_of_header (data_packet time stamp text) made hs is.timestamp (
            apart (
              check_packet-hash (data_packet time stamp text) restamped ok
              ∙ sym (check_packet-hash made is (gen_packet-check time m_type_data text fits).0)))
          ∙ (gen_packet-check time m_type_data text fits).2

      fresh : stamp ≡ time → check_packet_md5 (data_packet time stamp text) ≡ true
      fresh e =
          ap (λ t. check_packet_md5 (record made { timestamp = t }))
            (e ∙ sym (gen_packet-check time m_type_data text fits).2)
          ∙ (gen_packet-check time m_type_data text fits).0
