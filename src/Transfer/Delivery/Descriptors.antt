-- ===== src/Transfer/Delivery/Descriptors.antt =====
-- server/src/srv_util.c:handle_loq_req: the descriptors that it closes, whatever fails.
pub mod Holding
use soii_ipc.Base.{
  ℕ, ◌≡◌, refl, sym, ap, ◌∙◌, Bool, true, false, inl, inr, List, [], ◌∷◌, ◌++◌, Option, none, some,
  Option-cases, Bool-cases, if◌then◌else◌,
}
use soii_ipc.Base.Words.{int_minus_one}
use soii_ipc.Protocol.{Md5, Packet, get_file_md5}
use soii_ipc.Transfer.{ft_port, setup_tcpsocket}
use soii_ipc.Transfer.Sender.{
  Act, Answers, Chunk, Sender, Flow, go, goto_terminate, act, sent, sent_part, close, freed,
  require, write_part, is_socket, not_negative, not_minus_one, send_parts, handle_loq_req, steps,
  offer, await, compress, announce, send_log, finish, at_terminate, ◌>>◌, zip_open, zip_entry_open,
  zip_entry_fwrite, zip_entry_close, zip_close, open_compressed,
}
use soii_ipc.Transfer.Delivery.Descriptors.Holding.{
  closes, Held, Every, closes-append, Every-bind, at_terminate-Every, require-Every, act-Held,
  send_log-Held, compress-Held, announce-Held,
}

-- The variables at the thread's start; two of them are uninitialised in the code.
abbrev pub beginning : Answers → Sender
beginning a = record {
  socket_passive_ftransfer = int_minus_one;
  fd_file_transfer = a.fd_file_transfer;
  ft_packet = a.ft_packet;
  trace = [];
}

-- What `fd_file_transfer` is at the end, by how far the thread came: what it was, uninitialised,
-- without a call of `accept`, and else the result of that.
abbrev pub last_connection : Flow → Answers → ℕ
last_connection (goto_terminate s) a = a.fd_file_transfer
last_connection (go s) a = elim a.accepted [ none ↦ int_minus_one | some fd ↦ fd ]

abbrev pub passive_socket : Answers → ℕ
passive_socket a = (setup_tcpsocket ft_port a.socket a.address).0

module _ ⦃md5 : Md5⦄ (a : Answers) where
  announced-Held :
      (connection passive sock_req : ℕ) (p : Packet) (b : Bool) (t : Sender)
      → Held connection passive t
      → Every
          (Held connection passive)
          (if b then go (act (sent sock_req p) t) else goto_terminate t)
  announced-Held connection passive sock_req p true t held =
      act-Held connection passive _ t refl held
  announced-Held connection passive sock_req p false t held = held

  offer-Held :
      (sock_req : ℕ)
      → Every (Held a.fd_file_transfer (passive_socket a)) (offer a sock_req (beginning a))
  unfolding offer
  offer-Held sock_req =
      let P = Held a.fd_file_transfer (passive_socket a) in
      Every-bind P _ _
        (Every-bind P _ _
          (Every-bind P _ _
            (Every-bind P _ _
              (require-Every P a.reusable _
                (record { connection_is = refl; passive_is = refl; closed = refl }))
              (require-Every P a.bound))
            (require-Every P (is_socket _)))
          (require-Every P a.listening))
        (announced-Held a.fd_file_transfer (passive_socket a) sock_req _ a.announced)

  -- From `accept` on.
  await-Held :
      (s : Sender)
      → Held a.fd_file_transfer (passive_socket a) s
      → Every (Held (last_connection (go s) a) (passive_socket a)) (await a s)
  unfolding await
  await-Held s held = elim (Option-cases a.accepted) [
    | inl failed ↦
        rw (failed, await)
          (record { connection_is = refl; passive_is = held.passive_is; closed = held.closed })
    | inr (fd, accepted) ↦
        rw (accepted, await)
          (record { connection_is = refl; passive_is = held.passive_is; closed = held.closed })
  ]

  steps-Held :
      (f : Flow)
      → Every (Held a.fd_file_transfer (passive_socket a)) f
      → Every
          (Held (last_connection f a) (passive_socket a))
          (f >> await a >> compress a >> announce a >> send_log a)
  steps-Held (goto_terminate s) held = held
  steps-Held (go s) held =
      let P = Held (last_connection (go s) a) (passive_socket a) in
      Every-bind P _ _
        (Every-bind P _ _
          (Every-bind P _ _ (await-Held s held)
            (compress-Held (last_connection (go s) a) (passive_socket a) a))
          (announce-Held (last_connection (go s) a) (passive_socket a) a))
        (send_log-Held (last_connection (go s) a) (passive_socket a) a)

  finish-closes :
      (connection passive : ℕ) (s : Sender)
      → Held connection passive s
      → closes (finish a s).trace ≡ connection ∷ passive ∷ []
  unfolding finish
  finish-closes connection passive s held = elim (Bool-cases a.fin_written) [
    | inl written ↦
        rw written (ends (act-Held connection passive (sent_part s.fd_file_transfer _) s refl held))
    | inr lost ↦ rw lost (ends held)
  ]
    where
      ends :
          {t : Sender}
          → Held connection passive t
          → closes (
              ((t.trace ++ close t.fd_file_transfer ∷ []) ++ close t.socket_passive_ftransfer ∷ [])
              ++ freed ∷ [])
            ≡ connection ∷ passive ∷ []
      ends {t} h = simp (closes-append, h.closed, h.connection_is, h.passive_is)

  -- Whatever the calls of the thread return, it closes exactly two descriptors, in this order: what the
  -- variable of the connection holds, which is uninitialised if the thread did not come to `accept`, is
  -- -1 if `accept` failed and is its result else; and the listening socket, or the -1 in its place. It
  -- closes nothing else.
  pub handle_loq_req-closes :
      (sock_req : ℕ)
      → closes (handle_loq_req a sock_req).trace
        ≡ last_connection (offer a sock_req (beginning a)) a ∷ passive_socket a ∷ []
  unfolding handle_loq_req steps
  handle_loq_req-closes sock_req =
      finish-closes (last_connection (offer a sock_req (beginning a)) a) (passive_socket a) _ (
        at_terminate-Every
          (Held (last_connection (offer a sock_req (beginning a)) a) (passive_socket a))
          (offer a sock_req (beginning a) >> await a >> compress a >> announce a >> send_log a)
          (steps-Held (offer a sock_req (beginning a)) (offer-Held sock_req)))
