-- ===== src/Server/Wire/Clients.antt =====
-- Events of clients write whole packets, and, but for messages, packets that pass the check.
use soii_ipc.Base.{
  Each, ℕ, ◌≤◌, refl, inl, inr, List, [], ◌∷◌, arith, ltb, Bool-cases, Option-cases, length,
}
use soii_ipc.Base.Words.{to_bytes, length-to_bytes}
use soii_ipc.Seq.{find, get}
use soii_ipc.Protocol.{payload_size, Md5, Packet, payload_int}
use soii_ipc.Server.{Connection, Server, LogLine, sent, close, epoll_del}
use soii_ipc.Server.Util.{conn_compare, with_token, find_by_socket, add_fd, set_non_blocking}
use soii_ipc.Server.Clients.{
  ClientEvent, hang_up, acknowledge, resend, accept_client, reject, take_over, authenticate,
  handle_client,
}
use soii_ipc.Server.Loop.Handlers.{authenticate-After, resume-After, handle_client-After}
use soii_ipc.Server.Loop.Inductive.{After}
use soii_ipc.Server.Wire.{
  IsMessage, IsClean, IsClean-same, emit-IsClean, send_new-IsClean, IsMessage-IsFair,
  send_fin-IsClean,
}

module _ ⦃md5 : Md5⦄ where
  hang_up-IsClean : (fd : ℕ) (s : Server) → IsClean s → IsClean (hang_up fd s)
  unfolding hang_up
  hang_up-IsClean fd s clean =
      let gone = emit-IsClean (epoll_del fd) s tt clean in
      elim (Option-cases (find_by_socket fd s.connections)) [
        | inl missing ↦ rw (missing, hang_up) gone
        | inr (c, there) ↦ rw (there, hang_up) (emit-IsClean _ _ tt gone)
      ]

  acknowledge-IsClean : (p : Packet) (s : Server) → IsClean s → After IsClean (acknowledge p s)
  unfolding acknowledge
  acknowledge-IsClean p s clean =
      elim (Option-cases (
        get (find conn_compare (with_token (payload_int 0 p.payload)) s.connections)
          s.connections)) [
            | inl missing ↦ rw (missing, acknowledge) clean
            | inr (c, there) ↦ rw (there, acknowledge) (IsClean-same s _ refl refl clean)
          ]

  resend-IsClean :
      (fd since : ℕ) (ps : List Packet) (s : Server)
      → Each IsMessage ps
      → IsClean s
      → IsClean (resend fd since ps s)
  unfolding resend
  resend-IsClean fd since [] s all clean = clean
  resend-IsClean fd since (p ∷ ps) s (is, all) clean = elim (Bool-cases (ltb p.timestamp since)) [
    | inl early ↦ rw (early, resend) (resend-IsClean fd since ps s all clean)
    | inr late ↦
        rw (late, resend)
          (resend-IsClean fd since ps _ all
            (emit-IsClean (sent fd p) s (IsMessage-IsFair p is, tt) clean))
  ]

  accept_client-IsClean :
      (connfd token : ℕ) (s : Server) → IsClean s → IsClean (accept_client connfd token s)
  unfolding accept_client add_fd set_non_blocking
  accept_client-IsClean connfd token s clean =
      let fits : length (to_bytes 4 token) ≤ payload_size =
        omega (arith, length-to_bytes 4 token) in
      let watched = emit-IsClean _ _ tt (emit-IsClean _ s tt clean) in
      let welcomed = send_new-IsClean connfd _ (to_bytes 4 token) _ fits watched in
      IsClean-same _ _ refl refl (emit-IsClean _ _ tt welcomed)

  reject-IsClean :
      (first second : LogLine) (fd : ℕ) (s : Server)
      → IsClean s
      → IsClean (reject first second fd s)
  unfolding reject
  reject-IsClean first second fd s clean =
      send_fin-IsClean fd _ (emit-IsClean _ _ tt (emit-IsClean _ s tt clean))

  take_over-IsClean :
      (fd i : ℕ) (c : Connection) (s : Server) → IsClean s → IsClean (take_over fd i c s)
  unfolding take_over
  take_over-IsClean fd i c s clean =
      let closed = emit-IsClean (close c.sockfd) s tt clean in
      emit-IsClean _ _ tt (
        resend-IsClean fd c.timestamp s.packets _ clean.buffered
          (IsClean-same _ _ refl refl closed))

  authenticate-IsClean :
      (fd : ℕ) (p : Packet) (s : Server) → IsClean s → After IsClean (authenticate fd p s)
  authenticate-IsClean fd p s clean =
      authenticate-After IsClean fd p s (reject-IsClean _ _ fd s clean) (λ cs.
        let rest = IsClean-same s (record s { connections = cs }) refl refl clean in
        resume-After IsClean fd (payload_int 0 p.payload) (record s { connections = cs })
          (reject-IsClean _ _ fd _ rest) (λ i c. take_over-IsClean fd i c _ rest))

  pub handle_client-IsClean :
      (listenfd : ℕ) (e : ClientEvent) (s : Server)
      → IsClean s
      → After IsClean (handle_client listenfd e s)
  handle_client-IsClean listenfd e s clean =
      handle_client-After IsClean listenfd e s clean
        (accept_client-IsClean e.accepted e.random s clean) (hang_up-IsClean e.fd s clean)
        (λ p. acknowledge-IsClean p s clean)
        (λ p is intact auth. authenticate-IsClean e.fd p s clean)
