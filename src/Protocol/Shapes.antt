-- ===== src/Protocol/Shapes.antt =====
-- What holds of every packet that `gen_packet` makes, refused payload or not.
use soii_ipc.Base.{ℕ, ◌≡◌, inl, inr, List, ltb, Bool-cases, length, length-replicate}
use soii_ipc.Protocol.{Md5, Packet, gen_packet, payload_size, md5_digest_length}
use soii_ipc.Protocol.Integrity.{length-overwrite, leb_of_not_ltb}

-- A packet with a whole payload and digest.
pub record IsWhole (p : Packet) : Type 0 where
  pub payload : length p.payload ≡ payload_size
  pub hash : length p.hash ≡ md5_digest_length

module _ ⦃md5 : Md5⦄ (now type : ℕ) (payload : List ℕ) where
  pub gen_packet-IsWhole : IsWhole (gen_packet now type payload).0
  unfolding gen_packet
  gen_packet-IsWhole = elim (Bool-cases (ltb payload_size (length payload))) [
    | inl long ↦ rw long (record {
      payload = length-replicate {A = ℕ} payload_size 0;
      hash = length-replicate {A = ℕ} md5_digest_length 0;
    })
    | inr fits ↦ rw fits (record {
      payload = length-overwrite payload (leb_of_not_ltb payload_size (length payload) fits);
      hash = md5.length-digest _;
    })
  ]

  pub gen_packet-mtype : (gen_packet now type payload).0.mtype ≡ type
  unfolding gen_packet
  gen_packet-mtype = elim (Bool-cases (ltb payload_size (length payload))) [
    | inl long ↦ rw long
    | inr fits ↦ rw fits
  ]
