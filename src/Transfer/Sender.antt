-- ===== src/Transfer/Sender.antt =====
-- server/src/srv_util.c:handle_loq_req, the thread that sends the log. What is logged and printed
-- is left out.
use soii_ipc.Base.{
  ◌==◌, ℕ, Bool, true, false, List, [], ◌∷◌, ◌++◌, Option, none, some, ℤ, pos, negsuc,
  if◌then◌else◌, length, take,
}
use soii_ipc.Base.Words.{to_bytes, int_minus_one}
use soii_ipc.Protocol.{
  Md5, Packet, gen_packet, get_file_md5, overwrite, m_type_ft_setup, md5_digest_length,
}
use soii_ipc.Transfer.{
  FilePacket, SocketAddress, zero_file_packet, setup_tcpsocket, ft_port, m_type_ft_begin,
  m_type_ft_data, m_type_ft_fin,
}

-- What the thread does to the world: a packet that was written, a call of the zip library, the
-- compressed log that is opened, or cannot be, a descriptor that is closed, `args` that is freed. The
-- calls that make and prepare the sockets show in the Answers.
pub data Act : Type 0 where
  sent : ℕ → Packet → Act
  sent_part : ℕ → FilePacket → Act
  zip_open zip_entry_open zip_entry_fwrite zip_entry_close zip_close : Act
  open_compressed : Act
  close : ℕ → Act
  freed : Act

-- A read of the compressed log, `none` for -1, and whether the write of the packet with its bytes
-- succeeds.
pub record Chunk : Type 0 where
  pub read : Option (List ℕ)
  pub written : Bool

-- What the calls return, in their order, and what the uninitialised variables hold.
pub record Answers : Type 0 where
  pub address : SocketAddress
  pub fd_file_transfer : ℕ
  pub ft_packet : FilePacket
  pub socket : Option ℕ
  pub reusable : Bool
  pub bound : Bool
  pub time : ℕ
  pub listening : Bool
  pub announced : Bool
  pub accepted : Option ℕ
  pub zip_opened : Bool
  pub entry_opened : ℤ
  pub entry_written : ℤ
  pub entry_closed : ℤ
  pub st_size : Option ℕ
  pub digest_reads : List (Option (List ℕ))
  pub begun : Bool
  pub log_opened : Bool
  pub chunks : List Chunk
  pub fin_written : Bool

-- The variables that the code behind `terminate` reads.
pub record Sender : Type 0 where
  pub socket_passive_ftransfer : ℕ
  pub fd_file_transfer : ℕ
  pub ft_packet : FilePacket
  pub trace : List Act

-- After a step the code goes on, or has jumped to `terminate`.
pub data Flow : Type 0 where
  go goto_terminate : Sender → Flow

infixl 2 ◌>>◌
abbrev pub ◌>>◌ : Flow → (Sender → Flow) → Flow
go s >> f = f s
goto_terminate s >> f = goto_terminate s

abbrev pub act : Act → Sender → Sender
act a s = record s { trace = s.trace ++ a ∷ [] }

abbrev pub require : Bool → Sender → Flow
require true s = go s
require false s = goto_terminate s

-- A call of the zip library, and whether its result is accepted.
abbrev pub zip_call : Act → Bool → Sender → Flow
zip_call a ok s = require ok (act a s)

abbrev pub not_negative : ℤ → Bool
not_negative (pos n) = true
not_negative (negsuc n) = false

abbrev pub not_minus_one : ℤ → Bool
not_minus_one (pos n) = true
not_minus_one (negsuc n) = if n == 0 then false else true

-- The file packet is written to the connection.
abbrev pub write_part : Bool → Sender → Flow
write_part true s = go (act (sent_part s.fd_file_transfer s.ft_packet) s)
write_part false s = goto_terminate s

-- `socket == -1`
abbrev pub is_socket : ℕ → Bool
is_socket fd = if fd == int_minus_one then false else true

-- The packet with the bytes that were read.
abbrev pub part : List ℕ → FilePacket
part bytes = record zero_file_packet {
  mtype = m_type_ft_data;
  nbytes = length bytes;
  payload = overwrite zero_file_packet.payload bytes;
}

-- `accept`
unfoldable pub await : Answers → Sender → Flow
await a s = elim a.accepted [
  | none ↦ goto_terminate (record s { fd_file_transfer = int_minus_one })
  | some fd ↦ go (record s { fd_file_transfer = fd })
]

-- The log is compressed into a file.
unfoldable pub compress : Answers → Sender → Flow
compress a s =
    zip_call zip_open a.zip_opened s
    >> zip_call zip_entry_open (not_negative a.entry_opened)
    >> zip_call zip_entry_fwrite (not_negative a.entry_written)
    >> zip_call zip_entry_close (not_minus_one a.entry_closed)
    >> zip_call zip_close true

-- The loop over the reads. The packet is all zeros at the start of each round.
unfoldable pub send_parts : List Chunk → Sender → Flow
send_parts [] s = go s
send_parts (c ∷ cs) s = elim c.read [
  | none ↦ go s
  | some [] ↦ go s
  | some (b ∷ bs) ↦ elim (write_part c.written (record s { ft_packet = part (b ∷ bs) })) [
    | go t ↦ send_parts cs (record t { ft_packet = zero_file_packet })
    | goto_terminate t ↦ goto_terminate t
  ]
]

unfoldable pub send_log : Answers → Sender → Flow
send_log a s =
    require a.log_opened (act open_compressed s)
    >> (λ t. send_parts a.chunks (record t { ft_packet = zero_file_packet }))

-- `terminate`
unfoldable pub finish : Answers → Sender → Sender
finish a s =
    let last = record s { ft_packet = record s.ft_packet { mtype = m_type_ft_fin } } in
    let said =
      (if a.fin_written then act (sent_part last.fd_file_transfer last.ft_packet) last else last) in
    act freed (act (close said.socket_passive_ftransfer) (act (close said.fd_file_transfer) said))

abbrev pub at_terminate : Flow → Sender
at_terminate (go s) = s
at_terminate (goto_terminate s) = s

module _ ⦃md5 : Md5⦄ where
  -- Up to the write of `M_TYPE_FT_SETUP`.
  unfoldable pub offer : Answers → ℕ → Sender → Flow
  offer a sock_req s =
      let (fd, address) = setup_tcpsocket ft_port a.socket a.address in
      let setup = gen_packet a.time m_type_ft_setup (to_bytes 2 address.sin_port) in
      require a.reusable (record s { socket_passive_ftransfer = fd })
      >> require a.bound
      >> require (is_socket fd)
      >> require a.listening
      >> (λ t. if a.announced then go (act (sent sock_req setup.0) t) else goto_terminate t)

  -- The size of the log that was not compressed, and the digest of the compressed one, which is
  -- opened first.
  unfoldable pub announce : Answers → Sender → Flow
  announce a s =
      let t = act open_compressed s in
      elim a.st_size [
        | none ↦ goto_terminate t
        | some size ↦
            let begin = record zero_file_packet { mtype = m_type_ft_begin; fsize = size } in
            elim (get_file_md5 a.digest_reads) [
              | none ↦ goto_terminate (record t { ft_packet = begin })
              | some hash ↦ write_part a.begun (record t {
                ft_packet = record begin {
                  payload = overwrite begin.payload (take md5_digest_length hash);
                };
              })
            ]
      ]

  unfoldable pub steps : Answers → ℕ → Flow
  steps a sock_req =
      offer a sock_req (record {
        socket_passive_ftransfer = int_minus_one;
        fd_file_transfer = a.fd_file_transfer;
        ft_packet = a.ft_packet;
        trace = [];
      })
      >> await a
      >> compress a
      >> announce a
      >> send_log a

  unfoldable pub handle_loq_req : Answers → ℕ → Sender
  handle_loq_req a sock_req = finish a (at_terminate (steps a sock_req))
