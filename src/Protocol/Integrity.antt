-- ===== src/Protocol/Integrity.antt =====
-- `gen_packet` and `check_packet_MD5`: what the one makes the other accepts, and what the other
-- accepts has not been changed.
use mathlib.Core.Path.{ap₂}
use soii_ipc.Base.{
  ℕ, zero, suc, Bool-cases, inl, inr, ◌-◌, ◌^◌, ◌≤◌, ◌<◌, ◌≡◌, refl, sym, ap, ◌∙◌, true, false,
  List, [], ◌∷◌, ◌++◌, arith, ltb, ==_refl, length, take, drop, replicate, length-append,
  length-replicate, append-nil, pos, minus_one,
}
use soii_ipc.Protocol.{
  Md5, Packet, header_bytes, payload_size, md5_digest_length, overwrite, zero_packet, gen_packet,
  check_packet_md5, bytes_equal, same_bytes,
}
use soii_ipc.Protocol.Wire.{
  IsPacket, packet_bytes, packet_of_bytes, packet_of_bytes-packet_bytes, take-append,
}

bytes_equal_refl : (xs : List ℕ) → bytes_equal xs xs ≡ true
unfolding bytes_equal
bytes_equal_refl [] = refl
bytes_equal_refl (x ∷ xs) = rw (==_refl x, bytes_equal_refl xs)

pub same_bytes_refl : (n : ℕ) (xs : List ℕ) → same_bytes n xs xs ≡ true
unfolding same_bytes
same_bytes_refl n xs = bytes_equal_refl (take n xs)

eq_of_bytes_equal : (xs ys : List ℕ) → bytes_equal xs ys ≡ true → xs ≡ ys
unfolding bytes_equal
eq_of_bytes_equal [] [] e = refl
eq_of_bytes_equal [] (y ∷ ys) e = cc
eq_of_bytes_equal (x ∷ xs) [] e = cc
eq_of_bytes_equal (x ∷ xs) (y ∷ ys) e = ground (arith, eq_of_bytes_equal xs ys)

take_all : (n : ℕ) (xs : List ℕ) → length xs ≡ n → take n xs ≡ xs
take_all n xs e = ap (take n) (sym (append-nil xs)) ∙ take-append n xs [] e

replicate_congr : (b : ℕ) {m n : ℕ} → m ≡ n → replicate m b ≡ replicate n b
replicate_congr b e = ap (λ k. replicate k b) e

drop-replicate : (n m : ℕ) (b : ℕ) → drop n (replicate m b) ≡ replicate (m - n) b
drop-replicate zero m b = replicate_congr b {m = m} {n = m - 0} (omega arith)
drop-replicate (suc n) zero b = replicate_congr b {m = 0} {n = 0 - suc n} (omega arith)
drop-replicate (suc n) (suc m) b =
    drop-replicate n m b ∙ replicate_congr b {m = m - n} {n = suc m - suc n} (omega arith)

pub leb_of_not_ltb : (a b : ℕ) → ltb a b ≡ false → b ≤ a
leb_of_not_ltb a b h = ground arith

pub length-overwrite :
    (payload : List ℕ)
    → length payload ≤ payload_size
    → length (overwrite (replicate payload_size 0) payload) ≡ payload_size
length-overwrite payload h = omega (
  arith,
  length-append {0} payload (drop (length payload) (replicate payload_size 0)),
  ap length (drop-replicate (length payload) payload_size 0),
  length-replicate {0} {A = ℕ} (payload_size - length payload) 0,
)

module _ ⦃md5 : Md5⦄ where
  -- A payload that fits gives a packet that passes the check, with the given type, time and bytes
  -- and zeros behind them, and the result 0.
  pub gen_packet-check :
      (now type : ℕ) (payload : List ℕ)
      → length payload ≤ payload_size
      → (check_packet_md5 (gen_packet now type payload).0 ≡ true)
        × ((gen_packet now type payload).1 ≡ pos 0)
        × ((gen_packet now type payload).0.timestamp ≡ now)
        × ((gen_packet now type payload).0.mtype ≡ type)
        × ((gen_packet now type payload).0.payload
            ≡ payload ++ replicate (payload_size - length payload) 0)
  unfolding gen_packet check_packet_md5 header_bytes
  gen_packet-check now type payload h =
      let e : ltb payload_size (length payload) ≡ false = ground arith in
      rw (e, bytes_equal_refl)
        (refl, refl, refl, refl, ap (◌++◌ payload) (drop-replicate (length payload) payload_size 0))

  -- A payload that does not fit is refused with -1, and the packet keeps an empty payload and digest.
  pub gen_packet-too_long :
      (now type : ℕ) (payload : List ℕ)
      → payload_size < length payload
      → gen_packet now type payload
        ≡ (record zero_packet { timestamp = now; mtype = type }, minus_one)
  unfolding gen_packet
  gen_packet-too_long now type payload h =
      let e : ltb payload_size (length payload) ≡ true = ground arith in rw e

  -- A packet is the whole object that the structure describes, refused payload or not.
  pub gen_packet-IsPacket :
      (now type : ℕ) (payload : List ℕ)
      → now < 256 ^ 8
      → type < 256 ^ 4
      → IsPacket (gen_packet now type payload).0
  unfolding gen_packet
  gen_packet-IsPacket now type payload hn ht =
      elim (Bool-cases (ltb payload_size (length payload))) [
        | inl long ↦ rw long (record {
          timestamp = hn;
          mtype = ht;
          payload = length-replicate {A = ℕ} payload_size 0;
          hash = length-replicate {A = ℕ} md5_digest_length 0;
        })
        | inr fits ↦ rw fits (record {
          timestamp = hn;
          mtype = ht;
          payload = length-overwrite payload (leb_of_not_ltb payload_size (length payload) fits);
          hash = md5.length-digest _;
        })
      ]

  pub check_packet-hash :
      (p : Packet) → IsPacket p → check_packet_md5 p ≡ true → md5.digest (header_bytes p) ≡ p.hash
  unfolding check_packet_md5
  check_packet-hash p is ok =
      sym (take_all md5_digest_length _ (md5.length-digest (header_bytes p)))
      ∙ eq_of_bytes_equal _ _ ok
      ∙ take_all md5_digest_length p.hash is.hash

  -- Two packets that pass the check and carry the same digest are the same packet, unless MD5
  -- collides on their bytes: nothing can be changed under a digest.
  pub check_packet_md5-injective :
      (p q : Packet)
      → IsPacket p
      → IsPacket q
      → check_packet_md5 p ≡ true
      → check_packet_md5 q ≡ true
      → p.hash ≡ q.hash
      → (md5.digest (header_bytes p) ≡ md5.digest (header_bytes q)
          → header_bytes p ≡ header_bytes q)
      → p ≡ q
  unfolding packet_bytes
  check_packet_md5-injective p q is js okp okq same apart =
      sym (packet_of_bytes-packet_bytes p is)
      ∙ ap packet_of_bytes (
          ap₂ ◌++◌ (apart (check_packet-hash p is okp ∙ same ∙ sym (check_packet-hash q js okq)))
            same)
      ∙ packet_of_bytes-packet_bytes q js
