-- ===== src/Tests/Samples.antt =====
-- A digest and a printer that meet what the code relies on, and a small server.
use soii_ipc.Base.{
  ℕ, zero, suc, ◌+◌, ◌≡◌, refl, ap, List, [], ◌∷◌, ◌++◌, arith, length, replicate, append-nil,
  append_assoc,
}
use soii_ipc.Base.Words.{to_bytes}
use soii_ipc.Protocol.{Md5, Packet, m_type_auth}
use soii_ipc.Server.{Connection, Server}
use soii_ipc.Server.Messages.{Printf}

-- The first `n` bytes, filled up with zeros.
unfoldable pub first_bytes : ℕ → List ℕ → List ℕ
first_bytes zero bs = []
first_bytes (suc n) [] = 0 ∷ first_bytes n []
first_bytes (suc n) (b ∷ bs) = b ∷ first_bytes n bs

pub length-first_bytes : (n : ℕ) (bs : List ℕ) → length (first_bytes n bs) ≡ n
unfolding first_bytes
length-first_bytes zero bs = refl
length-first_bytes (suc n) [] = ap suc (length-first_bytes n [])
length-first_bytes (suc n) (b ∷ bs) = ap suc (length-first_bytes n bs)

-- Not MD5, but a function that the code could not tell from it by the laws.
abbrev pub sample_md5 : Md5
sample_md5 = record {
  digest = first_bytes 16;
  Context = List ℕ;
  init = [];
  feed = λ c bs. c ++ bs;
  final = first_bytes 16;
  length-digest = length-first_bytes 16;
  feed-append = append_assoc;
  feed-nil = append-nil;
  final-feed = λ bs. refl;
}

abbrev pub sample_printf : Printf
sample_printf = record {
  unsigned = λ n. n ∷ [];
  float = λ bits. bits ∷ [];
  length-unsigned = λ n h. omega arith;
  length-float = λ bits h. omega arith;
}

abbrev pub old_session : Connection
old_session = record { timestamp = 100; susc_counter = 1; sockfd = 4; token = 10 }

abbrev pub new_session : Connection
new_session = record { timestamp = 200; susc_counter = 0; sockfd = 5; token = 11 }

abbrev pub packet_at : ℕ → Packet
packet_at t = record { timestamp = t; mtype = 3; payload = replicate 84 0; hash = replicate 16 0 }

-- One client in room 0 that was cut off, and the same client over a new socket.
abbrev pub two_sessions : Server
two_sessions = record {
  connections = old_session ∷ new_session ∷ [];
  rooms = (4 ∷ []) ∷ [] ∷ [] ∷ [];
  packets = packet_at 150 ∷ packet_at 90 ∷ [];
  last_time_cleanup = 0;
  last_gc_time = 0;
  clock = λ n. 200 + n;
  trace = [];
}

-- A packet with two tokens in its payload.
abbrev pub with_tokens : ℕ → ℕ → Packet
with_tokens a b = record {
  timestamp = 200;
  mtype = m_type_auth;
  payload = to_bytes 4 a ++ (to_bytes 4 b ++ replicate 76 0);
  hash = replicate 16 0;
}
