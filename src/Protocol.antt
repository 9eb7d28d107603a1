-- ===== src/Protocol.antt =====
-- common/src/protocol.c and common/include/protocol.h: the packets that server and clients
-- exchange, with an MD5 digest over all that stands before it.
pub mod Integrity
pub mod Wire
pub mod FileDigest
pub mod Dump
pub mod Shapes
use soii_ipc.Base.{
  ℕ, ◌+◌, ◌-◌, ◌*◌, ◌≡◌, Bool, true, false, ◌&&◌, List, [], ◌∷◌, ◌++◌, Option, none, some, ltb,
  ◌==◌, if◌then◌else◌, length, take, drop, replicate, ℤ, pos, negsuc, minus_one,
}
use soii_ipc.Base.Words.{to_bytes, of_bytes}

-- What the code relies on of OpenSSL's MD5: a digest of 16 bytes, in one call or in pieces.
pub record Md5 : Type 1 where
  pub digest : List ℕ → List ℕ
  pub Context : Type 0
  pub init : Context
  pub feed : Context → List ℕ → Context
  pub final : Context → List ℕ
  pub length-digest : (bytes : List ℕ) → length (digest bytes) ≡ 16
  pub feed-append : (c : Context) (a b : List ℕ) → feed (feed c a) b ≡ feed c (a ++ b)
  pub feed-nil : (c : Context) → feed c [] ≡ c
  pub final-feed : (bytes : List ℕ) → final (feed init bytes) ≡ digest bytes

abbrev pub payload_size : ℕ
payload_size = 84

abbrev pub md5_digest_length : ℕ
md5_digest_length = 16

abbrev pub m_type_ack : ℕ
m_type_ack = 1

abbrev pub m_type_fin : ℕ
m_type_fin = 2

abbrev pub m_type_data : ℕ
m_type_data = 3

abbrev pub m_type_cli_accepted : ℕ
m_type_cli_accepted = 4

abbrev pub m_type_conn_accepted : ℕ
m_type_conn_accepted = 5

abbrev pub m_type_auth : ℕ
m_type_auth = 6

abbrev pub m_type_ft_setup : ℕ
m_type_ft_setup = 7

-- `packet_t`; the integers are bit patterns, the arrays lists of bytes.
pub record Packet : Type 0 where
  pub timestamp : ℕ
  pub mtype : ℕ
  pub payload : List ℕ
  pub hash : List ℕ

-- The bytes in front of the digest, as they lie in memory: there is no padding.
unfoldable pub header_bytes : Packet → List ℕ
header_bytes p = to_bytes 8 p.timestamp ++ (to_bytes 4 p.mtype ++ p.payload)

-- `bzero` of a packet.
abbrev pub zero_packet : Packet
zero_packet = record {
  timestamp = 0;
  mtype = 0;
  payload = replicate payload_size 0;
  hash = replicate md5_digest_length 0;
}

-- `memcpy` to the front of a buffer.
abbrev pub overwrite : List ℕ → List ℕ → List ℕ
overwrite buffer bytes = bytes ++ drop (length bytes) buffer

bytes_equal : List ℕ → List ℕ → Bool
bytes_equal [] [] = true
bytes_equal [] (y ∷ ys) = false
bytes_equal (x ∷ xs) [] = false
bytes_equal (x ∷ xs) (y ∷ ys) = (x == y) && bytes_equal xs ys

-- `memcmp(a, b, n) == 0`
unfoldable pub same_bytes : ℕ → List ℕ → List ℕ → Bool
unfolding bytes_equal
same_bytes n a b = bytes_equal (take n a) (take n b)

module _ ⦃md5 : Md5⦄ where
  -- `now` is what `time` returned, and the list `payload` the `payload_len` bytes to be sent. The
  -- result is the packet and the return value.
  unfoldable pub gen_packet : ℕ → ℕ → List ℕ → Packet × ℤ
  gen_packet now type payload =
      let p = record zero_packet { timestamp = now; mtype = type } in
      if ltb payload_size (length payload)
      then (p, minus_one)
      else (let filled = record p { payload = overwrite p.payload payload } in
          (record filled { hash = md5.digest (header_bytes filled) }, pos 0))

  unfoldable pub check_packet_md5 : Packet → Bool
  unfolding same_bytes
  check_packet_md5 p = same_bytes md5_digest_length (md5.digest (header_bytes p)) p.hash

  -- What `read` gives in turn: bytes (none of them at the end of the file), or an error.
  digest_loop : md5.Context → List (Option (List ℕ)) → Option (List ℕ)
  digest_loop c [] = some (md5.final c)
  digest_loop c (none ∷ reads) = none
  digest_loop c (some [] ∷ reads) = some (md5.final c)
  digest_loop c (some (b ∷ bs) ∷ reads) = digest_loop (md5.feed c (b ∷ bs)) reads

  -- `none` is the result -1.
  unfoldable pub get_file_md5 : List (Option (List ℕ)) → Option (List ℕ)
  unfolding digest_loop
  get_file_md5 reads = digest_loop md5.init reads

-- `*((int *) payload + k)`
unfoldable pub payload_int : ℕ → List ℕ → ℕ
payload_int k payload = of_bytes (take 4 (drop (4 * k) payload))
