-- ===== src/Protocol/Wire.antt =====
-- A `packet_t` as the bytes that `write` and `send` transmit and that `read` and `recv` receive,
-- and the integers inside a payload.
use soii_ipc.Base.{
  ℕ, ◌^◌, ◌<◌, ◌≡◌, sym, ap, ◌∙◌, List, ◌++◌, arith, length, take, drop, length-append,
  take-length-append, drop-length-append, append_assoc,
}
use soii_ipc.Base.Words.{to_bytes, of_bytes, of_bytes-to_bytes, length-to_bytes}
use soii_ipc.Protocol.{Packet, header_bytes, payload_size, md5_digest_length, payload_int}

-- The sizes of a `packet_t`'s fields.
pub record IsPacket (p : Packet) : Type 0 where
  pub timestamp : p.timestamp < 256 ^ 8
  pub mtype : p.mtype < 256 ^ 4
  pub payload : length p.payload ≡ payload_size
  pub hash : length p.hash ≡ md5_digest_length

-- The whole object in memory, `sizeof(packet_t)` bytes.
unfoldable pub packet_bytes : Packet → List ℕ
packet_bytes p = header_bytes p ++ p.hash

-- The structure that lies in such bytes.
unfoldable pub packet_of_bytes : List ℕ → Packet
packet_of_bytes bytes = record {
  timestamp = of_bytes (take 8 bytes);
  mtype = of_bytes (take 4 (drop 8 bytes));
  payload = take payload_size (drop 12 bytes);
  hash = drop 96 bytes;
}

-- A cut behind a front of known length.
pub take-append {ℓ} : {A : Type ℓ} (n : ℕ) (xs ys : List A) → length xs ≡ n → take n (xs ++ ys) ≡ xs
take-append n xs ys e = rw (← e) (take-length-append xs ys)

pub drop-append {ℓ} : {A : Type ℓ} (n : ℕ) (xs ys : List A) → length xs ≡ n → drop n (xs ++ ys) ≡ ys
drop-append n xs ys e = rw (← e) (drop-length-append xs ys)

pub length-header_bytes :
    (p : Packet) → length p.payload ≡ payload_size → length (header_bytes p) ≡ 96
unfolding header_bytes
length-header_bytes p e = omega (
  arith,
  length-append {0} (to_bytes 8 p.timestamp) (to_bytes 4 p.mtype ++ p.payload),
  length-append {0} (to_bytes 4 p.mtype) p.payload,
  length-to_bytes 8 p.timestamp,
  length-to_bytes 4 p.mtype,
)

module _ (p : Packet) (is : IsPacket p) where
  header : List ℕ
  header = to_bytes 8 p.timestamp ++ (to_bytes 4 p.mtype ++ p.payload)

  layout :
      header ++ p.hash ≡ to_bytes 8 p.timestamp ++ (to_bytes 4 p.mtype ++ (p.payload ++ p.hash))
  unfolding header
  layout =
      append_assoc (to_bytes 8 p.timestamp) (to_bytes 4 p.mtype ++ p.payload) p.hash
      ∙ ap (◌++◌ (to_bytes 8 p.timestamp)) (append_assoc (to_bytes 4 p.mtype) p.payload p.hash)

  behind_timestamp : drop 8 (header ++ p.hash) ≡ to_bytes 4 p.mtype ++ (p.payload ++ p.hash)
  behind_timestamp =
      ap (drop 8) layout ∙ drop-append 8 (to_bytes 8 p.timestamp) _ (length-to_bytes 8 p.timestamp)

  behind_mtype : drop 12 (header ++ p.hash) ≡ p.payload ++ p.hash
  behind_mtype =
      ap (drop 12) (
        layout
        ∙ sym (append_assoc (to_bytes 8 p.timestamp) (to_bytes 4 p.mtype) (p.payload ++ p.hash)))
      ∙ drop-append 12 (to_bytes 8 p.timestamp ++ to_bytes 4 p.mtype) _ (
          omega (
            arith,
            length-append {0} (to_bytes 8 p.timestamp) (to_bytes 4 p.mtype),
            length-to_bytes 8 p.timestamp,
            length-to_bytes 4 p.mtype,
          ))

  -- What is sent is what is received: the two sides agree on every field.
  pub packet_of_bytes-packet_bytes : packet_of_bytes (packet_bytes p) ≡ p
  unfolding packet_of_bytes packet_bytes header_bytes header
  packet_of_bytes-packet_bytes = λ i. record {
    timestamp =
        (ap (λ b. of_bytes (take 8 b)) layout
            ∙ ap of_bytes (take-append 8 (to_bytes 8 p.timestamp) _ (length-to_bytes 8 p.timestamp))
            ∙ of_bytes-to_bytes 8 p.timestamp is.timestamp)
          i;
    mtype =
        (ap (λ b. of_bytes (take 4 b)) behind_timestamp
            ∙ ap of_bytes (take-append 4 (to_bytes 4 p.mtype) _ (length-to_bytes 4 p.mtype))
            ∙ of_bytes-to_bytes 4 p.mtype is.mtype)
          i;
    payload =
        (ap (take payload_size) behind_mtype ∙ take-append payload_size p.payload p.hash is.payload)
          i;
    hash = drop-append 96 header p.hash (length-header_bytes p is.payload) i;
  }

-- The two integers at the front of a payload are read back as they were written.
pub payload_int-front :
    (a b : ℕ) (rest : List ℕ)
    → a < 256 ^ 4
    → b < 256 ^ 4
    → (payload_int 0 (to_bytes 4 a ++ (to_bytes 4 b ++ rest)) ≡ a)
      × (payload_int 1 (to_bytes 4 a ++ (to_bytes 4 b ++ rest)) ≡ b)
unfolding payload_int
payload_int-front a b rest ha hb = (
  ap of_bytes (take-append 4 (to_bytes 4 a) _ (length-to_bytes 4 a)) ∙ of_bytes-to_bytes 4 a ha,
  ap (λ xs. of_bytes (take 4 xs)) (drop-append 4 (to_bytes 4 a) _ (length-to_bytes 4 a))
      ∙ ap of_bytes (take-append 4 (to_bytes 4 b) _ (length-to_bytes 4 b))
      ∙ of_bytes-to_bytes 4 b hb,
)

pub payload_int-first :
    (a : ℕ) (rest : List ℕ) → a < 256 ^ 4 → payload_int 0 (to_bytes 4 a ++ rest) ≡ a
unfolding payload_int
payload_int-first a rest ha =
    ap of_bytes (take-append 4 (to_bytes 4 a) _ (length-to_bytes 4 a)) ∙ of_bytes-to_bytes 4 a ha
