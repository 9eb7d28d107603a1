-- ===== src/Transfer/Delivery/Sending.antt =====
-- server/src/srv_util.c:handle_loq_req: the packets that it sends.
use soii_ipc.Base.{
  take, ℕ, ◌≡◌, refl, sym, ap, ◌∙◌, true, List, [], ◌∷◌, ◌++◌, some, map, append_assoc, append-nil,
}
use soii_ipc.Base.Words.{to_bytes}
use soii_ipc.Protocol.{m_type_ft_setup, gen_packet, Md5, get_file_md5, overwrite, md5_digest_length}
use soii_ipc.Protocol.FileDigest.{NonEmpty}
use soii_ipc.Transfer.{
  ft_port, htons, setup_tcpsocket, FilePacket, zero_file_packet, m_type_ft_begin, m_type_ft_fin,
}
use soii_ipc.Transfer.Sender.{
  open_compressed, freed, close, zip_close, zip_entry_close, zip_entry_fwrite, zip_entry_open,
  zip_open, Act, sent, sent_part, Answers, Chunk, Sender, go, part, act, is_socket, not_negative,
  not_minus_one, send_parts, handle_loq_req, steps, offer, await, compress, announce, send_log,
  finish,
}

-- The file packets among what a thread did.
abbrev pub parts_of : List Act → List FilePacket
parts_of [] = []
parts_of (sent_part fd p ∷ acts) = p ∷ parts_of acts
parts_of (_ ∷ acts) = parts_of acts

-- A read of some bytes whose packet is written, and the end of the file.
abbrev pub good : List ℕ → Chunk
good bytes = record { read = some bytes; written = true }

abbrev pub end_of_file : Chunk
end_of_file = record { read = some []; written = true }

abbrev pub part_acts : ℕ → List (List ℕ) → List Act
part_acts fd [] = []
part_acts fd (bytes ∷ pieces) = sent_part fd (part bytes) ∷ part_acts fd pieces

pub parts_of-append : (acts bs : List Act) → parts_of (acts ++ bs) ≡ parts_of acts ++ parts_of bs
parts_of-append [] bs = refl
parts_of-append (sent_part fd p ∷ acts) bs = ap (◌∷◌ p) (parts_of-append acts bs)
parts_of-append (sent fd p ∷ acts) bs = parts_of-append acts bs
parts_of-append (Act.zip_open ∷ acts) bs = parts_of-append acts bs
parts_of-append (Act.zip_entry_open ∷ acts) bs = parts_of-append acts bs
parts_of-append (Act.zip_entry_fwrite ∷ acts) bs = parts_of-append acts bs
parts_of-append (Act.zip_entry_close ∷ acts) bs = parts_of-append acts bs
parts_of-append (Act.open_compressed ∷ acts) bs = parts_of-append acts bs
parts_of-append (Act.zip_close ∷ acts) bs = parts_of-append acts bs
parts_of-append (Act.close fd ∷ acts) bs = parts_of-append acts bs
parts_of-append (Act.freed ∷ acts) bs = parts_of-append acts bs

parts_of-part_acts :
    (fd : ℕ) (pieces : List (List ℕ)) → parts_of (part_acts fd pieces) ≡ map part pieces
parts_of-part_acts fd [] = refl
parts_of-part_acts fd (bytes ∷ pieces) = ap (◌∷◌ (part bytes)) (parts_of-part_acts fd pieces)

parts_of-close : (acts : List Act) (fd : ℕ) → parts_of (acts ++ close fd ∷ []) ≡ parts_of acts
parts_of-close acts fd = parts_of-append acts (close fd ∷ []) ∙ append-nil (parts_of acts)

parts_of-freed : (acts : List Act) → parts_of (acts ++ freed ∷ []) ≡ parts_of acts
parts_of-freed acts = parts_of-append acts (freed ∷ []) ∙ append-nil (parts_of acts)

-- The end of the thread sends no packet.
pub parts_of-closing :
    (acts : List Act) (fd passive : ℕ)
    → parts_of (((acts ++ close fd ∷ []) ++ close passive ∷ []) ++ freed ∷ []) ≡ parts_of acts
parts_of-closing acts fd passive =
    parts_of-freed ((acts ++ close fd ∷ []) ++ close passive ∷ [])
    ∙ parts_of-close (acts ++ close fd ∷ []) passive
    ∙ parts_of-close acts fd

-- The loop, on a file that is read in pieces up to its end.
send_parts-all :
    (pieces : List (List ℕ)) (rest : List Chunk) (s : Sender)
    → NonEmpty pieces
    → send_parts (map good pieces ++ end_of_file ∷ rest) (record s { ft_packet = zero_file_packet })
      ≡ go (record s {
        ft_packet = zero_file_packet;
        trace = s.trace ++ part_acts s.fd_file_transfer pieces;
      })
unfolding send_parts
send_parts-all [] rest s ne =
    ap (λ t. go (record s { ft_packet = zero_file_packet; trace = t })) (sym (append-nil s.trace))
send_parts-all ([] ∷ pieces) rest s ne = absurd ne
send_parts-all ((b ∷ bs) ∷ pieces) rest s ne =
    let this = sent_part s.fd_file_transfer (part (b ∷ bs)) in
    send_parts-all pieces rest (act this s) ne
    ∙ ap (λ t. go (record s { ft_packet = zero_file_packet; trace = t }))
        (append_assoc s.trace (this ∷ []) (part_acts s.fd_file_transfer pieces))

-- Every call of the thread succeeds, the log's size is `size`, the digest of the compressed log is
-- `hash`, and the compressed log is read in `pieces`.
pub record AllWell ⦃md5 : Md5⦄ (a : Answers) (size : ℕ) (hash : List ℕ) (pieces : List (List ℕ))
    : Type 0 where
  pub passive : ℕ
  pub connection : ℕ
  pub rest : List Chunk
  pub socket : a.socket ≡ some passive
  pub is_passive : is_socket passive ≡ true
  pub reusable : a.reusable ≡ true
  pub bound : a.bound ≡ true
  pub listening : a.listening ≡ true
  pub announced : a.announced ≡ true
  pub accepted : a.accepted ≡ some connection
  pub zip_opened : a.zip_opened ≡ true
  pub entry_opened : not_negative a.entry_opened ≡ true
  pub entry_written : not_negative a.entry_written ≡ true
  pub entry_closed : not_minus_one a.entry_closed ≡ true
  pub st_size : a.st_size ≡ some size
  pub digest : get_file_md5 a.digest_reads ≡ some hash
  pub begun : a.begun ≡ true
  pub log_opened : a.log_opened ≡ true
  pub chunks : a.chunks ≡ map good pieces ++ end_of_file ∷ rest
  pub non_empty : NonEmpty pieces
  pub fin_written : a.fin_written ≡ true

abbrev pub begin_packet : ℕ → List ℕ → FilePacket
begin_packet size hash = record zero_file_packet {
  mtype = m_type_ft_begin;
  fsize = size;
  payload = overwrite zero_file_packet.payload (take md5_digest_length hash);
}

abbrev pub fin_packet : FilePacket
fin_packet = record zero_file_packet { mtype = m_type_ft_fin }

module _ ⦃md5 : Md5⦄ (a : Answers) (size : ℕ) (hash : List ℕ) (pieces : List (List ℕ))
    (well : AllWell a size hash pieces) where
  send_log-all :
      (s : Sender)
      → send_log a s
        ≡ go (record s {
          ft_packet = zero_file_packet;
          trace = (s.trace ++ open_compressed ∷ []) ++ part_acts s.fd_file_transfer pieces;
        })
  unfolding send_log
  send_log-all s =
      rw (well.log_opened, well.chunks)
        (send_parts-all pieces well.rest (act open_compressed s) well.non_empty)

  -- The thread before it sends the file.
  abbrev before_file : ℕ → Sender
  before_file sock_req = record {
    socket_passive_ftransfer = well.passive;
    fd_file_transfer = well.connection;
    ft_packet = begin_packet size hash;
    trace =
        sent sock_req (gen_packet a.time m_type_ft_setup (to_bytes 2 (htons ft_port))).0
        ∷ zip_open
        ∷ zip_entry_open
        ∷ zip_entry_fwrite
        ∷ zip_entry_close
        ∷ zip_close
        ∷ open_compressed
        ∷ sent_part well.connection (begin_packet size hash)
        ∷ [];
  }

  steps-all : (sock_req : ℕ) → steps a sock_req ≡ send_log a (before_file sock_req)
  unfolding steps offer await compress announce setup_tcpsocket
  steps-all sock_req = rw (
    well.socket, well.reusable, well.bound, well.is_passive, well.listening, well.announced,
    well.accepted, well.zip_opened, well.entry_opened, well.entry_written, well.entry_closed,
    well.st_size, well.digest, well.begun,
  )

  -- If every call succeeds, the packets that the thread sends are BEGIN with the size and the digest,
  -- one DATA for every piece that it reads, in order, and FIN.
  pub handle_loq_req-parts :
      (sock_req : ℕ)
      → parts_of (handle_loq_req a sock_req).trace
        ≡ begin_packet size hash ∷ map part pieces ++ fin_packet ∷ []
  unfolding handle_loq_req finish
  handle_loq_req-parts sock_req =
      let before =
        ((before_file sock_req).trace ++ open_compressed ∷ [])
        ++ part_acts well.connection pieces in
      let last = sent_part well.connection fin_packet ∷ [] in
      rw (steps-all sock_req, send_log-all (before_file sock_req), well.fin_written)
        (parts_of-closing (before ++ last) well.connection well.passive
          ∙ parts_of-append before last
          ∙ ap (λ l. begin_packet size hash ∷ l ++ fin_packet ∷ [])
              (parts_of-part_acts well.connection pieces))
