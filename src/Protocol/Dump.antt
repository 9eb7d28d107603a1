-- ===== src/Protocol/Dump.antt =====
-- common/src/protocol.c:dump_packet: the text that it prints.
use soii_ipc.Base.{
  ℕ, ◌+◌, ◌*◌, ◌/◌, ◌%◌, ◌≡◌, refl, List, [], ◌∷◌, ◌++◌, arith, ltb, if◌then◌else◌, length,
  length-append,
}
use soii_ipc.Protocol.{Packet}
use soii_ipc.Protocol.Wire.{packet_bytes}

-- A digit of "%x".
abbrev pub hex_digit : ℕ → ℕ
hex_digit d = if ltb d 10 then b'0' + d else 87 + d

-- `"%02x "`
abbrev pub hex_byte : ℕ → List ℕ
hex_byte b = hex_digit (b / 16 % 16) ∷ hex_digit (b % 16) ∷ b' ' ∷ []

-- The loop over the bytes of the packet.
unfoldable pub dump_bytes : List ℕ → List ℕ
dump_bytes [] = []
dump_bytes (b ∷ bs) = hex_byte b ++ dump_bytes bs

unfoldable pub dump_packet : Packet → List ℕ
dump_packet p = dump_bytes (packet_bytes p) ++ b'\n' ∷ []

length-dump_bytes : (bs : List ℕ) → length (dump_bytes bs) ≡ 3 * length bs
unfolding dump_bytes
length-dump_bytes [] = refl
length-dump_bytes (b ∷ bs) = omega (arith, length-dump_bytes bs)

-- Three characters for each byte, and the end of the line.
pub length-dump_packet : (p : Packet) → length (dump_packet p) ≡ 3 * length (packet_bytes p) + 1
unfolding dump_packet
length-dump_packet p = omega (
  arith,
  length-append {0} (dump_bytes (packet_bytes p)) (b'\n' ∷ []),
  length-dump_bytes (packet_bytes p),
)
