-- ===== src/Server/Broker/Clients.antt =====
-- What clients' events are to the broker: a reconnection is a replacement of a socket and a resending.
use soii_ipc.Base.{
  Each, set, map, ℕ, ◌≡◌, refl, ap, ◌∙◌, true, inl, inr, [], ◌∷◌, ◌++◌, ◌==◌, if◌then◌else◌,
  Option-cases, select,
}
use soii_ipc.Base.Words.{to_bytes}
use soii_ipc.Protocol.{m_type_conn_accepted, payload_int, Md5, Packet}
use soii_ipc.Seq.{find, get}
use soii_ipc.Server.{
  client_accepted, old_token_missing, set_nonblocking, new_token_missing, auth_failed, epoll_add,
  client_disconnected, logged, Connection, Server, LogLine, emit, close, epoll_del,
}
use soii_ipc.Server.Util.{
  retarget, with_token, conn_compare, find_by_socket, add_fd, set_non_blocking,
}
use soii_ipc.Server.Clients.{
  ClientEvent, hang_up, acknowledge, resend, accept_client, reject, take_over, authenticate,
  handle_client,
}
use soii_ipc.Server.Messages.{Printf}
use soii_ipc.Server.Wire.{IsMessage}
use soii_ipc.Server.Loop.Handlers.{authenticate-After, resume-After, handle_client-After}
use soii_ipc.Server.Loop.Inductive.{After}
use soii_ipc.Server.Loop.Inductive.{Inputs}
use soii_ipc.Server.Broker.Resending.{resend-inbox, resend-heard, resend-rooms, resend-packets}
use soii_ipc.Server.Broker.Causes.{Asked, Refines, Refines-same}
use soii_ipc.Server.Broker.{
  send_new, members_of, is_silent, moved, resent, happen, replay, is_late, view, Broker-ext,
  emit-silent, send_new-silent, send_fin-silent,
}
use soii_ipc.Server.Broker.Rooms.{members_of-retarget}

module _ ⦃md5 : Md5⦄ where
  hang_up-view : (fd : ℕ) (s : Server) → view (hang_up fd s) ≡ view s
  unfolding hang_up
  hang_up-view fd s = elim (Option-cases (find_by_socket fd s.connections)) [
    | inl missing ↦ rw (missing, hang_up) (emit-silent (epoll_del fd) s refl)
    | inr (c, there) ↦
        rw (there, hang_up)
          (emit-silent (logged (client_disconnected c.sockfd c.token)) (emit (epoll_del fd) s) refl
            ∙ emit-silent (epoll_del fd) s refl)
  ]

  accept_client-view :
      (connfd token : ℕ) (s : Server) → view (accept_client connfd token s) ≡ view s
  unfolding accept_client add_fd set_non_blocking
  accept_client-view connfd token s =
      let added = emit (epoll_add connfd) s in
      let watched = emit (set_nonblocking connfd) added in
      let welcomed = send_new connfd m_type_conn_accepted (to_bytes 4 token) watched in
      emit-silent (logged (client_accepted connfd token)) welcomed refl
      ∙ send_new-silent connfd m_type_conn_accepted (to_bytes 4 token) watched refl
      ∙ emit-silent (set_nonblocking connfd) added refl
      ∙ emit-silent (epoll_add connfd) s refl

  reject-view :
      (first second : LogLine) (fd : ℕ) (s : Server)
      → is_silent (logged first) ≡ true
      → is_silent (logged second) ≡ true
      → view (reject first second fd s) ≡ view s
  unfolding reject
  reject-view first second fd s silent silent' =
      send_fin-silent fd _
      ∙ emit-silent (logged second) (emit (logged first) s) silent'
      ∙ emit-silent (logged first) s silent

module _ ⦃md5 : Md5⦄ ⦃printf : Printf⦄ (inputs : Inputs) where
  acknowledge-Refines : (p : Packet) (s : Server) → After (Refines inputs s) (acknowledge p s)
  unfolding acknowledge
  acknowledge-Refines p s =
      elim (Option-cases (
        get (find conn_compare (with_token (payload_int 0 p.payload)) s.connections)
          s.connections)) [
            | inl missing ↦ rw (missing, acknowledge) (Refines-same inputs s s refl)
            | inr (c, there) ↦ rw (there, acknowledge) (Refines-same inputs s s refl)
          ]

  take_over-Refines :
      (fd i : ℕ) (c : Connection) (s : Server)
      → Asked inputs fd
      → Each IsMessage s.packets
      → Refines inputs s (take_over fd i c s)
  unfolding take_over replay happen
  take_over-Refines fd i c s asked all =
      let renamed : Server = record s {
        rooms = map (retarget c.sockfd fd) s.rooms;
        trace = s.trace ++ close c.sockfd ∷ [];
        connections = set s.connections i (record c { sockfd = fd });
      } in
      let closed : view (emit (close c.sockfd) s) ≡ view s = emit-silent (close c.sockfd) s refl in
      (
        moved c.sockfd fd ∷ resent fd c.timestamp ∷ [],
        (asked, (asked, tt)),
        emit-silent _ (resend fd c.timestamp s.packets renamed) refl
            ∙ Broker-ext _ _
                (λ j g.
                  ap (λ rooms. members_of rooms j g) (resend-rooms fd c.timestamp s.packets renamed)
                  ∙ members_of-retarget c.sockfd fd s.rooms j g)
                (λ g.
                  resend-inbox g fd c.timestamp s.packets renamed all
                  ∙ ap
                      (λ xs. xs ++ (if g == fd then select (is_late c.timestamp) s.packets else []))
                      (ap (λ b. b.inbox g) closed))
                (resend-packets fd c.timestamp s.packets renamed)
                (resend-heard fd c.timestamp s.packets renamed ∙ ap (λ b. b.heard) closed),
      )

  authenticate-Refines :
      (fd : ℕ) (p : Packet) (s : Server)
      → Asked inputs fd
      → Each IsMessage s.packets
      → After (Refines inputs s) (authenticate fd p s)
  authenticate-Refines fd p s asked all =
      authenticate-After (Refines inputs s) fd p s
        (Refines-same inputs s (reject new_token_missing auth_failed fd s)
          (reject-view new_token_missing auth_failed fd s refl refl))
        (λ cs.
          let rest : Server = record s { connections = cs } in
          resume-After (Refines inputs s) fd (payload_int 0 p.payload) rest
            (Refines-same inputs s (reject auth_failed old_token_missing fd rest)
              (reject-view auth_failed old_token_missing fd rest refl refl))
            (λ i c. take_over-Refines fd i c rest asked all))

  pub handle_client-Refines :
      (listenfd : ℕ) (e : ClientEvent) (s : Server)
      → inputs.event e
      → Each IsMessage s.packets
      → After (Refines inputs s) (handle_client listenfd e s)
  handle_client-Refines listenfd e s met all =
      handle_client-After (Refines inputs s) listenfd e s (Refines-same inputs s s refl)
        (Refines-same inputs s (accept_client e.accepted e.random s)
          (accept_client-view e.accepted e.random s))
        (Refines-same inputs s (hang_up e.fd s) (hang_up-view e.fd s))
        (λ p. acknowledge-Refines p s)
        (λ p is intact auth. authenticate-Refines e.fd p s (e, p, met, refl, is, intact, auth) all)
