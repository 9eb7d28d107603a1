-- ===== src/Server/Messages/Delivery.antt =====
-- A producer's message: its text fits a packet, and its room gets it.
use soii_ipc.Base.{
  ℕ, zero, suc, ◌^◌, ◌≤◌, ◌<◌, ◌≡◌, ◌≢◌, refl, sym, ap, ◌∙◌, inl, inr, List, [], ◌∷◌, ◌++◌, none,
  some, arith, Option-cases, length, take, map, length-append, append-nil, append_assoc, get_elem?,
}
use soii_ipc.Base.Words.{of_bytes}
use soii_ipc.Protocol.{Md5, Packet, payload_size, m_type_data}
use soii_ipc.Protocol.Shapes.{gen_packet-mtype}
use soii_ipc.Server.{Server, sent, logged, message_received, emit, now}
use soii_ipc.Server.Util.{broadcast_room}
use soii_ipc.Server.Messages.{Printf, c_string, message_text, data_packet, publish, handle_message}
use soii_ipc.Base.Text.{codes}
use soii_ipc.Queue.{Message}

-- The packet goes once to every socket of the room, in order, and nothing else happens.
pub broadcast_room_lem :
    (room : List ℕ) (p : Packet) (s : Server)
    → broadcast_room room p s ≡ record s { trace = s.trace ++ map (λ fd. sent fd p) room }
unfolding broadcast_room
broadcast_room_lem [] p s = ap (λ t. record s { trace = t }) (sym (append-nil s.trace))
broadcast_room_lem (fd ∷ room) p s =
    broadcast_room_lem room p (emit (sent fd p) s)
    ∙ ap (λ t. record s { trace = t })
        (append_assoc s.trace (sent fd p ∷ []) (map (λ fd. sent fd p) room))

c_string-length : (bs text : List ℕ) → c_string bs ≡ some text → length text ≤ length bs
unfolding c_string
c_string-length [] text e = cc
c_string-length (b ∷ bs) text e = elim (Option-cases (c_string bs)) [
  | inl h ↦ ground (arith, h)
  | inr (t, h) ↦ ground (arith, h, c_string-length bs t h)
]

-- A byte is below 256.
abbrev pub AreBytes : List ℕ → Type 0
AreBytes [] = Unit {0}
AreBytes (b ∷ bs) = (b < 256) × AreBytes bs

-- No byte is the terminator.
abbrev pub NoZero : List ℕ → Type 0
NoZero [] = Unit {0}
NoZero (b ∷ bs) = (b ≢ 0) × NoZero bs

-- A buffer with no terminator has no text: reading it runs off its end.
pub c_string-NoZero : (bs : List ℕ) → NoZero bs → c_string bs ≡ none
unfolding c_string
c_string-NoZero [] nz = refl
c_string-NoZero (b ∷ bs) nz = ground (arith, c_string-NoZero bs nz.1)

of_bytes-lt : (n : ℕ) (bs : List ℕ) → AreBytes bs → of_bytes (take n bs) < 256 ^ n
unfolding of_bytes
of_bytes-lt zero bs h = omega arith
of_bytes-lt (suc n) [] h = pow_pos n
  where
    pow_pos : (n : ℕ) → 0 < 256 ^ suc n
    pow_pos zero = omega arith
    pow_pos (suc n) = omega (arith, pow_pos n)
of_bytes-lt (suc n) (b ∷ bs) h = omega (arith, of_bytes-lt n bs h.1)

module _ ⦃printf : Printf⦄ where
  -- The text of a message never exceeds a packet's payload.
  pub message_text-le :
      (m : Message) (text : List ℕ)
      → length m.content ≡ 40
      → AreBytes m.content
      → message_text m ≡ some text
      → length text ≤ payload_size
  unfolding message_text
  message_text-le m text size bytes e = ground (
    arith,
    c_string-length m.content text,
    printf.length-unsigned (of_bytes (take 4 m.content)),
    printf.length-float (of_bytes (take 4 m.content)),
    of_bytes-lt 4 m.content bytes,
    length-append {0} (codes "Memoria disponible del sistema: ")
        (printf.unsigned (of_bytes (take 4 m.content)) ++ codes " kB"),
    length-append {0} (printf.unsigned (of_bytes (take 4 m.content))) (codes " kB"),
    length-append {0} (codes "Carga del sistema normalizada: ")
        (printf.float (of_bytes (take 4 m.content))),
  )

module _ ⦃md5 : Md5⦄ where
  pub data_packet-mtype :
      (time stamp : ℕ) (text : List ℕ) → (data_packet time stamp text).mtype ≡ m_type_data
  unfolding data_packet
  data_packet-mtype time stamp text = gen_packet-mtype time m_type_data text

  -- The server behind the message, whose packet went out to every socket of the room.
  abbrev pub published : Message → List ℕ → List ℕ → Server → Server
  published m text room s =
      let p = data_packet (now s) m.timestamp text in
      record s {
        packets = p ∷ s.packets;
        clock = λ n. s.clock (suc n);
        trace =
            (s.trace ++ logged (message_received m.id m.timestamp) ∷ [])
            ++ map (λ fd. sent fd p) room;
      }

module _ ⦃md5 : Md5⦄ ⦃printf : Printf⦄ where
  -- A message with a text, of a producer that has a room: the text goes out in a packet to every
  -- socket of that room and of no other, and the packet is buffered as the newest.
  pub handle_message-delivers :
      (m : Message) (text room : List ℕ) (s : Server)
      → message_text m ≡ some text
      → get_elem? s.rooms m.id ≡ some room
      → handle_message m s ≡ some (published m text room s)
  unfolding handle_message publish
  handle_message-delivers m text room s has at =
      rw (has, at, handle_message, publish)
        (rw (broadcast_room_lem room (data_packet (now s) m.timestamp text)))

  -- A random message with no terminator makes the server read past the end of the message.
  pub handle_message-NoZero :
      (m : Message) (s : Server) → m.id ≡ 1 → NoZero m.content → handle_message m s ≡ none
  unfolding handle_message message_text
  handle_message-NoZero m s id nz =
      let text : message_text m ≡ none = ground (arith, c_string-NoZero m.content nz) in
      rw (text, handle_message)
