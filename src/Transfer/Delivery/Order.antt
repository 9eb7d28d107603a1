-- ===== src/Transfer/Delivery/Order.antt =====
-- server/src/srv_util.c:handle_loq_req: the order of its packets, whatever fails.
pub mod Steps
use soii_ipc.Base.{
  ℕ, ◌≡◌, refl, sym, ap, ◌∙◌, Bool, true, false, ◌&&◌, List, [], ◌∷◌, ◌++◌, Option, none, some, ◌⊎◌,
  inl, inr, Option-cases, Bool-cases, map, map-append, append-nil, ◌==◌, if◌then◌else◌,
}
use soii_ipc.Protocol.{Packet, Md5, get_file_md5}
use soii_ipc.Transfer.{FilePacket, m_type_ft_begin, m_type_ft_data, m_type_ft_fin}
use soii_ipc.Transfer.Sender.{
  Act, Answers, Chunk, Sender, Flow, go, goto_terminate, part, act, sent, sent_part, require,
  write_part, is_socket, not_negative, not_minus_one, send_parts, handle_loq_req, steps, offer,
  await, compress, announce, send_log, finish, at_terminate, ◌>>◌, zip_open, zip_entry_open,
  zip_entry_fwrite, zip_entry_close, zip_close, open_compressed,
}
use soii_ipc.Transfer.Delivery.Sending.{parts_of, parts_of-append, parts_of-closing, begin_packet}
use soii_ipc.Transfer.Delivery.Order.Steps.{Either, Quiet, Open, steps-Either}

abbrev is_end : List FilePacket → Bool
is_end [] = true
is_end (p ∷ ps) = false

-- At most one BEGIN, first; DATA only behind it; FIN only at the end. `begun`: BEGIN is past.
abbrev pub in_order : Bool → List FilePacket → Bool
in_order begun [] = true
in_order begun (p ∷ ps) =
    if p.mtype == m_type_ft_fin
    then is_end ps
    else if begun
    then (p.mtype == m_type_ft_data) && in_order true ps
    else (p.mtype == m_type_ft_begin) && in_order true ps

-- The packets of an open transfer, with FIN or nothing behind them.
in_order-parts :
    (pieces : List (List ℕ)) (last : List FilePacket)
    → in_order true last ≡ true
    → in_order true (map part pieces ++ last) ≡ true
in_order-parts [] last h = h
in_order-parts (bytes ∷ pieces) last h = in_order-parts pieces last h

in_order-Either :
    (s : Sender) (last : List FilePacket)
    → Either s
    → in_order false last ≡ true
    → in_order true last ≡ true
    → in_order false (parts_of s.trace ++ last) ≡ true
in_order-Either s last (inl quiet) first later = ap (λ l. in_order false (l ++ last)) quiet ∙ first
in_order-Either s last (inr begun) first later =
    ap (λ l. in_order false (l ++ last)) begun.sent_parts ∙ in_order-parts begun.pieces last later

-- The end of the thread, with FIN or without it.
finish-parts :
    (a : Answers) (s : Sender)
    → (p : FilePacket) × (p.mtype ≡ m_type_ft_fin)
      × (parts_of (finish a s).trace ≡ parts_of s.trace ++ (if a.fin_written then p ∷ [] else []))
unfolding finish
finish-parts a s =
    let p = record s.ft_packet { mtype = m_type_ft_fin } in
    let said = s.trace ++ sent_part s.fd_file_transfer p ∷ [] in
    (
      p,
      refl,
      elim (Bool-cases a.fin_written) [
        | inl written ↦ rw written (
            parts_of-closing said s.fd_file_transfer s.socket_passive_ftransfer
            ∙ parts_of-append s.trace (sent_part s.fd_file_transfer p ∷ []))
        | inr lost ↦ rw lost (
            parts_of-closing s.trace s.fd_file_transfer s.socket_passive_ftransfer
            ∙ sym (append-nil (parts_of s.trace)))
      ],
    )

-- FIN or nothing is in order behind everything.
in_order-last :
    (before written : Bool) (p : FilePacket)
    → p.mtype ≡ m_type_ft_fin
    → in_order before (if written then p ∷ [] else []) ≡ true
in_order-last before true p is_fin = rw (is_fin, in_order)
in_order-last before false p is_fin = refl

module _ ⦃md5 : Md5⦄ where
  -- Whatever the calls of the thread return, it sends its file packets in order: at most one BEGIN,
  -- which is the first, DATA only behind it, and FIN only as the last.
  pub handle_loq_req-in_order :
      (a : Answers) (sock_req : ℕ)
      → in_order false (parts_of (handle_loq_req a sock_req).trace) ≡ true
  unfolding handle_loq_req
  handle_loq_req-in_order a sock_req =
      let (p, is_fin, all) = finish-parts a (at_terminate (steps a sock_req)) in
      ap (in_order false) all
      ∙ in_order-Either (at_terminate (steps a sock_req)) (if a.fin_written then p ∷ [] else [])
          (steps-Either a sock_req) (in_order-last false a.fin_written p is_fin)
          (in_order-last true a.fin_written p is_fin)
