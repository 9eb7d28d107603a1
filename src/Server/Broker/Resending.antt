-- ===== src/Server/Broker/Resending.antt =====
-- What the broker sees of the packets that are sent again.
use soii_ipc.Base.{
  Each, select-true, select-false, ℕ, ◌≡◌, refl, ap, ◌∙◌, Bool, true, false, not, inl, inr, List,
  [], ◌∷◌, ◌++◌, arith, ltb, ◌==◌, if◌then◌else◌, Bool-cases, select, append-nil, append_assoc,
}
use soii_ipc.Protocol.{Packet, m_type_data}
use soii_ipc.Server.{Server, sent, emit}
use soii_ipc.Server.Clients.{resend}
use soii_ipc.Server.Wire.{IsMessage}
use soii_ipc.Server.Broker.{heard_of, is_late, inbox_of, inbox_of-append, heard_of-append}

-- A message to a socket, as an addition to its inbox.
send_inbox :
    (g fd : ℕ) (p : Packet)
    → p.mtype ≡ m_type_data
    → inbox_of g (sent fd p ∷ []) ≡ (if g == fd then p ∷ [] else [])
send_inbox g fd p is = rw is (ground arith)

-- The same choice twice.
join_choices :
    (b : Bool) (xs ys : List Packet)
    → (if b then xs else []) ++ (if b then ys else []) ≡ (if b then xs ++ ys else [])
join_choices true xs ys = refl
join_choices false xs ys = refl

pub resend-inbox :
    (g fd since : ℕ) (ps : List Packet) (s : Server)
    → Each IsMessage ps
    → inbox_of g (resend fd since ps s).trace
      ≡ inbox_of g s.trace ++ (if g == fd then select (is_late since) ps else [])
unfolding resend
resend-inbox g fd since [] s all = ground (arith, append-nil (inbox_of g s.trace))
resend-inbox g fd since (p ∷ ps) s (is, all) = elim (Bool-cases (ltb p.timestamp since)) [
  | inl early ↦
      rw (early, resend)
        (rw (select-false (is_late since) p ps (ap not early)) (resend-inbox g fd since ps s all))
  | inr late ↦
      rw (late, resend)
        (rw (select-true (is_late since) p ps (ap not late)) (
          resend-inbox g fd since ps (emit (sent fd p) s) all
          ∙ ap (λ xs. xs ++ (if g == fd then select (is_late since) ps else []))
              (inbox_of-append g s.trace (sent fd p ∷ [])
                ∙ ap (λ xs. inbox_of g s.trace ++ xs) (send_inbox g fd p is.type))
          ∙ append_assoc (inbox_of g s.trace) _ _
          ∙ ap (λ xs. inbox_of g s.trace ++ xs)
              (join_choices (g == fd) (p ∷ []) (select (is_late since) ps))))
]

pub resend-heard :
    (fd since : ℕ) (ps : List Packet) (s : Server)
    → heard_of (resend fd since ps s).trace ≡ heard_of s.trace
unfolding resend
resend-heard fd since [] s = refl
resend-heard fd since (p ∷ ps) s = elim (Bool-cases (ltb p.timestamp since)) [
  | inl early ↦ rw (early, resend) (resend-heard fd since ps s)
  | inr late ↦
      rw (late, resend)
        (resend-heard fd since ps (emit (sent fd p) s)
          ∙ heard_of-append s.trace (sent fd p ∷ [])
          ∙ append-nil (heard_of s.trace))
]

pub resend-rooms :
    (fd since : ℕ) (ps : List Packet) (s : Server) → (resend fd since ps s).rooms ≡ s.rooms
unfolding resend
resend-rooms fd since [] s = refl
resend-rooms fd since (p ∷ ps) s = elim (Bool-cases (ltb p.timestamp since)) [
  | inl early ↦ rw (early, resend) (resend-rooms fd since ps s)
  | inr late ↦ rw (late, resend) (resend-rooms fd since ps (emit (sent fd p) s))
]

pub resend-packets :
    (fd since : ℕ) (ps : List Packet) (s : Server) → (resend fd since ps s).packets ≡ s.packets
unfolding resend
resend-packets fd since [] s = refl
resend-packets fd since (p ∷ ps) s = elim (Bool-cases (ltb p.timestamp since)) [
  | inl early ↦ rw (early, resend) (resend-packets fd since ps s)
  | inr late ↦ rw (late, resend) (resend-packets fd since ps (emit (sent fd p) s))
]
