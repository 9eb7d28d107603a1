-- ===== src/Server/Wire.antt =====
-- What the server writes to its clients: whole packets, and, but for messages, packets that pass
-- their receiver's check. The children follow it through the handlers and a run.
pub mod Clients
pub mod Commands
pub mod Deliveries
pub mod Runs
use soii_ipc.Base.{
  Each, arith, subst, ℕ, ◌≤◌, ◌≡◌, ◌⊎◌, refl, inl, inr, true, List, [], ◌∷◌, ◌++◌, length,
}
use soii_ipc.Protocol.{Md5, Packet, gen_packet, check_packet_md5, payload_size, m_type_data}
use soii_ipc.Protocol.Integrity.{gen_packet-check}
use soii_ipc.Protocol.Shapes.{IsWhole, gen_packet-IsWhole}
use soii_ipc.Server.{Server, Effect, sent, emit}
use soii_ipc.Server.Util.{send_fin, send_new}

-- A whole packet that is a message or passes its receiver's check.
pub record IsFair ⦃md5 : Md5⦄ (p : Packet) : Type 0 where
  pub whole : IsWhole p
  pub fair : (p.mtype ≡ m_type_data) ⊎ (check_packet_md5 p ≡ true)

-- A message, as it is buffered.
pub record IsMessage (p : Packet) : Type 0 where
  pub whole : IsWhole p
  pub type : p.mtype ≡ m_type_data

abbrev pub AllSent : (Packet → Type 0) → List Effect → Type 0
AllSent P [] = Unit {0}
AllSent P (sent fd p ∷ es) = P p × AllSent P es
AllSent P (_ ∷ es) = AllSent P es

pub AllSent-append :
    (P : Packet → Type 0) (es fs : List Effect) → AllSent P es → AllSent P fs → AllSent P (es ++ fs)
AllSent-append P [] fs h k = k
AllSent-append P (sent fd p ∷ es) fs (here, h) k = (here, AllSent-append P es fs h k)
AllSent-append P (_ ∷ es) fs h k = AllSent-append P es fs h k

pub record IsClean ⦃md5 : Md5⦄ (s : Server) : Type 0 where
  pub sent : AllSent IsFair s.trace
  pub buffered : Each IsMessage s.packets

module _ ⦃md5 : Md5⦄ where
  -- Only the trace and the buffer matter.
  pub IsClean-same :
      (s t : Server) → s.trace ≡ t.trace → s.packets ≡ t.packets → IsClean s → IsClean t
  IsClean-same s t trace packets clean = record {
    sent = subst (AllSent IsFair) trace clean.sent;
    buffered = subst (Each IsMessage) packets clean.buffered;
  }

  pub emit-IsClean :
      (e : Effect) (s : Server) → AllSent IsFair (e ∷ []) → IsClean s → IsClean (emit e s)
  emit-IsClean e s h clean = record {
    sent = AllSent-append IsFair s.trace (e ∷ []) clean.sent h;
    buffered = clean.buffered;
  }

  pub send_new-IsClean :
      (fd type : ℕ) (payload : List ℕ) (s : Server)
      → length payload ≤ payload_size
      → IsClean s
      → IsClean (send_new fd type payload s)
  unfolding send_new
  send_new-IsClean fd type payload s fits clean =
      let p = (gen_packet (s.clock 0) type payload).0 in
      let ok : IsFair p = record {
        whole = gen_packet-IsWhole (s.clock 0) type payload;
        fair = inr (gen_packet-check (s.clock 0) type payload fits).0;
      } in
      IsClean-same (emit (sent fd p) s) _ refl refl (emit-IsClean (sent fd p) s (ok, tt) clean)

  -- A message is fair to send.
  pub IsMessage-IsFair : (p : Packet) → IsMessage p → IsFair p
  IsMessage-IsFair p is = record { whole = is.whole; fair = inl is.type }

  pub send_fin-IsClean : (fd : ℕ) (s : Server) → IsClean s → IsClean (send_fin fd s)
  unfolding send_fin
  send_fin-IsClean fd s clean = send_new-IsClean fd _ [] s (omega arith) clean
