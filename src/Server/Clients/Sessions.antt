-- ===== src/Server/Clients/Sessions.antt =====
-- Acknowledgements and reconnections, by the token that they name.
use mathlib.Core.Path.{fun_ext, ap₂}
use soii_ipc.Base.{
  ℕ, ◌≡◌, sym, ap, ◌∙◌, Bool, not, inl, inr, List, [], ◌∷◌, ◌++◌, none, some, ltb, Bool-cases, map,
  select, select-true, select-false, append-nil, append_assoc, set,
}
use soii_ipc.Seq.{get, delete}
use soii_ipc.Seq.Matching.{first_match, replace_first, remove_first}
use soii_ipc.Protocol.{Md5, Packet, payload_int}
use soii_ipc.Server.{
  Connection, Server, client_reconnected, auth_failed, new_token_missing, old_token_missing, close,
  sent, logged, emit, now, tick,
}
use soii_ipc.Server.Util.{retarget}
use soii_ipc.Server.Util.Search.{has_token, is_fd, find_token, retarget-replace_first}
use soii_ipc.Server.Clients.{acknowledge, resend, reject, take_over, resume, authenticate}

module _ (p : Packet) (s : Server) where
  -- An acknowledgement sets the last sign of life of the first session with its token to the time,
  -- and changes nothing else.
  pub acknowledge-known :
      (c : Connection)
      → first_match (has_token (payload_int 0 p.payload)) s.connections ≡ some c
      → acknowledge p s
        ≡ some (record (tick s) {
          connections =
              replace_first
                (has_token (payload_int 0 p.payload))
                (record c { timestamp = now s })
                s.connections;
        })
  unfolding acknowledge get
  acknowledge-known c known = elim (find_token (payload_int 0 p.payload) s.connections) [
    | inl (nowhere, r) ↦ cc
    | inr (d, j, m, r, at) ↦
        let same : d ≡ c = cc in
        rw (r, at.get, acknowledge)
          (rw r (
            ap (λ cs. some (record (tick s) { connections = cs }))
              (at.replace (record d { timestamp = now s })
                ∙ ap
                    (λ (e : Connection).
                      replace_first (has_token (payload_int 0 p.payload))
                        (record e { timestamp = now s }) s.connections)
                    same)))
  ]

  -- An acknowledgement with a token that no session has changes nothing.
  pub acknowledge-unknown :
      first_match (has_token (payload_int 0 p.payload)) s.connections ≡ none
      → acknowledge p s ≡ some s
  unfolding acknowledge get
  acknowledge-unknown unknown = elim (find_token (payload_int 0 p.payload) s.connections) [
    | inl (nowhere, r) ↦ rw (r, acknowledge)
    | inr (d, j, m, r, at) ↦ cc
  ]

-- Whether a buffered packet came no earlier than a session's last sign of life.
abbrev pub is_missed : ℕ → Packet → Bool
is_missed since p = not (ltb p.timestamp since)

resend_lem :
    (fd since : ℕ) (ps : List Packet) (s : Server)
    → resend fd since ps s
      ≡ record s { trace = s.trace ++ map (sent fd) (select (is_missed since) ps) }
unfolding resend
resend_lem fd since [] s = ap (λ t. record s { trace = t }) (sym (append-nil s.trace))
resend_lem fd since (p ∷ ps) s = elim (Bool-cases (ltb p.timestamp since)) [
  | inl early ↦
      rw (select-false (is_missed since) p ps (ap not early), early) (resend_lem fd since ps s)
  | inr missed ↦
      rw (select-true (is_missed since) p ps (ap not missed), missed)
        (resend_lem fd since ps (emit (sent fd p) s)
          ∙ ap (λ t. record s { trace = t })
              (append_assoc s.trace (sent fd p ∷ []) (map (sent fd) (select (is_missed since) ps))))
]

module _ ⦃md5 : Md5⦄ (fd i : ℕ) (c : Connection) (s : Server) where
  -- The session's entries in the rooms and its own socket become the new socket, the old socket is
  -- closed, and the missed packets go out, newest first.
  renamed : Server
  renamed = record (emit (close c.sockfd) s) {
    rooms = map (retarget c.sockfd fd) s.rooms;
    connections = set s.connections i (record c { sockfd = fd });
  }

  take_over_lem : take_over fd i c s ≡ record renamed {
    trace =
        (s.trace ++ close c.sockfd ∷ [])
        ++ (map (sent fd) (select (is_missed c.timestamp) s.packets)
            ++ logged (client_reconnected fd c.token) ∷ []);
  }
  unfolding take_over renamed
  take_over_lem =
      ap (emit (logged (client_reconnected fd c.token)))
        (resend_lem fd c.timestamp s.packets renamed)
      ∙ ap (λ t. record renamed { trace = t })
          (append_assoc (s.trace ++ close c.sockfd ∷ [])
            (map (sent fd) (select (is_missed c.timestamp) s.packets))
            (logged (client_reconnected fd c.token) ∷ []))

module _ ⦃md5 : Md5⦄ (fd : ℕ) (p : Packet) (s : Server) where
  -- The token of the new session is unknown: the client is told to stop, and nothing else changes.
  pub authenticate-new_unknown :
      first_match (has_token (payload_int 1 p.payload)) s.connections ≡ none
      → authenticate fd p s ≡ some (reject new_token_missing auth_failed fd s)
  unfolding authenticate
  authenticate-new_unknown unknown = elim (find_token (payload_int 1 p.payload) s.connections) [
    | inl (nowhere, r) ↦ rw (r, authenticate)
    | inr (d, j, m, r, at) ↦ cc
  ]

  pub authenticate-resume :
      (d : Connection)
      → first_match (has_token (payload_int 1 p.payload)) s.connections ≡ some d
      → authenticate fd p s
        ≡ resume fd (payload_int 0 p.payload) (record s {
          connections = remove_first (has_token (payload_int 1 p.payload)) s.connections;
        })
  unfolding authenticate delete
  authenticate-resume d known = elim (find_token (payload_int 1 p.payload) s.connections) [
    | inl (nowhere, r) ↦ cc
    | inr (e, j, m, r, at) ↦
        rw (r, authenticate)
          (ap (λ cs. resume fd (payload_int 0 p.payload) (record s { connections = cs })) at.remove)
  ]

pub resume-unknown :
    ⦃md5 : Md5⦄ (fd old : ℕ) (s : Server)
    → first_match (has_token old) s.connections ≡ none
    → resume fd old s ≡ some (reject auth_failed old_token_missing fd s)
unfolding resume
resume-unknown fd old s unknown = elim (find_token old s.connections) [
  | inl (nowhere, r) ↦ rw (r, resume)
  | inr (d, j, m, r, at) ↦ cc
]

-- A session that is taken over: what the server is afterwards.
abbrev pub taken_over : ℕ → ℕ → Connection → Server → Server
taken_over fd old c s = record s {
  connections = replace_first (has_token old) (record c { sockfd = fd }) s.connections;
  rooms = map (replace_first (is_fd c.sockfd) fd) s.rooms;
  trace =
      (s.trace ++ close c.sockfd ∷ [])
      ++ (map (sent fd) (select (is_missed c.timestamp) s.packets)
          ++ logged (client_reconnected fd c.token) ∷ []);
}

pub resume-known :
    ⦃md5 : Md5⦄ (fd old : ℕ) (c : Connection) (s : Server)
    → first_match (has_token old) s.connections ≡ some c
    → resume fd old s ≡ some (taken_over fd old c s)
unfolding resume renamed
resume-known fd old c s known = elim (find_token old s.connections) [
  | inl (nowhere, r) ↦ cc
  | inr (d, j, m, r, at) ↦
      let same : c ≡ d = cc in
      rw (r, at.get, resume)
        (rw same (
          ap some (
            take_over_lem fd j d s
            ∙ ap₂ (λ cs rs. record (taken_over fd old d s) { connections = cs; rooms = rs })
                (at.replace (record d { sockfd = fd }))
                (ap (λ f. map f s.rooms) (fun_ext (retarget-replace_first d.sockfd fd))))))
]

-- The server without the session that the client has just been given.
abbrev pub without_new : Packet → Server → Server
without_new p s = record s {
  connections = remove_first (has_token (payload_int 1 p.payload)) s.connections;
}

module _ ⦃md5 : Md5⦄ (fd : ℕ) (p : Packet) (s : Server) (d : Connection) where
  -- The new session is known and the old one is not: the new one is forgotten, the client is told to
  -- stop, and nothing else changes.
  pub authenticate-old_unknown :
      first_match (has_token (payload_int 1 p.payload)) s.connections ≡ some d
      → first_match (has_token (payload_int 0 p.payload)) (without_new p s).connections ≡ none
      → authenticate fd p s ≡ some (reject auth_failed old_token_missing fd (without_new p s))
  authenticate-old_unknown known unknown =
      authenticate-resume fd p s d known
      ∙ resume-unknown fd (payload_int 0 p.payload) (without_new p s) unknown

  -- Both sessions are known: the new one is forgotten; the old one has the client's socket, in its
  -- entry and in the rooms where it was; its old socket is closed; and the buffered packets that came
  -- since its last sign of life are sent to the client, newest first.
  pub authenticate-known :
      (c : Connection)
      → first_match (has_token (payload_int 1 p.payload)) s.connections ≡ some d
      → first_match (has_token (payload_int 0 p.payload)) (without_new p s).connections ≡ some c
      → authenticate fd p s ≡ some (taken_over fd (payload_int 0 p.payload) c (without_new p s))
  authenticate-known c known old =
      authenticate-resume fd p s d known
      ∙ resume-known fd (payload_int 0 p.payload) c (without_new p s) old
