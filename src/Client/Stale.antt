-- ===== src/Client/Stale.antt =====
-- The end of the stream, which the loop takes for the last packet again.
use soii_ipc.Base.{
  subst, ap, ◌||◌, ℕ, zero, suc, ◌<◌, ◌≡◌, refl, sym, ◌∙◌, true, false, List, [], ◌∷◌, ◌++◌,
  append-nil, append_assoc, arith, replicate,
}
use soii_ipc.Base.Words.{to_bytes}
use soii_ipc.Protocol.{Md5, Packet, gen_packet, check_packet_md5, m_type_data, m_type_ack}
use soii_ipc.Client.{
  Client, Deed, sent, do_deed, Reception, ended, round, rounds, handle_packet, send_ack, write_new,
}

-- The last packet was a message, and the loop goes on.
pub record IsStale ⦃md5 : Md5⦄ (c : Client) : Type 0 where
  pub intact : check_packet_md5 c.buffer ≡ true
  pub type : c.buffer.mtype ≡ m_type_data
  pub going : c.term ≡ false
  pub alive : c.killed ≡ false

module _ ⦃md5 : Md5⦄ where
  -- One acknowledgement for each of the coming readings of the clock.
  abbrev pub acknowledgements : ℕ → ℕ → (ℕ → ℕ) → ℕ → List Deed
  acknowledgements fd token clock zero = []
  acknowledgements fd token clock (suc n) =
      sent fd (gen_packet (clock 0) m_type_ack (to_bytes 4 token)).0
      ∷ acknowledgements fd token (λ i. clock (suc i)) n

  handle_packet-stale :
      (p : Packet) (c : Client) → p.mtype ≡ m_type_data → handle_packet p c ≡ send_ack c.token c
  unfolding handle_packet
  handle_packet-stale p c type = rw (type, handle_packet)

  round-stale : (c : Client) → IsStale c → round ended c ≡ send_ack c.token c
  unfolding round
  round-stale c stale = rw (stale.intact, round, handle_packet-stale c.buffer c stale.type)

  -- The client behind one more acknowledgement, and behind a write to a closed connection.
  abbrev ahead : Client → Client
  ahead c = record c { clock = λ n. c.clock (suc n); broken = λ n. c.broken (suc n) }

  abbrev acknowledged : Client → Client
  acknowledged c =
      do_deed (sent c.sockfd (gen_packet (c.clock 0) m_type_ack (to_bytes 4 c.token)).0) (ahead c)

  abbrev dead : Client → Client
  dead c = record (ahead c) { killed = true }

  round-acknowledged :
      (c : Client) → IsStale c → c.broken 0 ≡ false → round ended c ≡ acknowledged c
  unfolding send_ack write_new
  round-acknowledged c stale unbroken = round-stale c stale ∙ rw (stale.alive, unbroken)

  round-dead : (c : Client) → IsStale c → c.broken 0 ≡ true → round ended c ≡ dead c
  unfolding send_ack write_new
  round-dead c stale closed = round-stale c stale ∙ rw (stale.alive, closed)

  rounds-dead :
      (rs : List (Reception Packet)) (c : Client)
      → c.term ≡ false
      → c.killed ≡ true
      → rounds rs c ≡ c
  unfolding rounds
  rounds-dead [] c going killed = refl
  rounds-dead (r ∷ rs) c going killed = rw (going, killed)

  rounds-next :
      (r : Reception Packet) (rs : List (Reception Packet)) (c : Client)
      → c.term ≡ false
      → c.killed ≡ false
      → rounds (r ∷ rs) c ≡ rounds rs (round r c)
  unfolding rounds
  rounds-next r rs c going alive =
      ap (λ b. elim (b || c.killed) [ true ↦ c | false ↦ rounds rs (round r c) ]) going
      ∙ ap (λ b. elim b [ true ↦ c | false ↦ rounds rs (round r c) ]) alive

  -- The client is dead, and has written the acknowledgements.
  abbrev Died : ℕ → Client → Client → Type 0
  Died n c d =
      (d.killed ≡ true) × (d.trace ≡ c.trace ++ acknowledgements c.sockfd c.token c.clock n)

  -- If the server goes away behind a message and without a farewell, the client does not notice: in
  -- every round it takes the last message for a new one and acknowledges it again, until a write meets
  -- the closed connection, which kills the process. When the first such write is number `n`, the
  -- client has written `n` acknowledgements of its token, at the times of its clock, and nothing else,
  -- and is dead after any `m` rounds with `n < m`.
  pub rounds-ended :
      (m n : ℕ) (c : Client)
      → IsStale c
      → ((j : ℕ) → j < n → c.broken j ≡ false)
      → c.broken n ≡ true
      → n < m
      → ((rounds (replicate m ended) c).killed ≡ true)
        × ((rounds (replicate m ended) c).trace
            ≡ c.trace ++ acknowledgements c.sockfd c.token c.clock n)
  rounds-ended zero n c stale before at more = absurd (omega arith)
  rounds-ended (suc m) zero c stale before at more =
      subst (Died 0 c)
        (sym (
          rounds-next ended (replicate m ended) c stale.going stale.alive
          ∙ ap (rounds (replicate m ended)) (round-dead c stale at)
          ∙ rounds-dead (replicate m ended) (dead c) stale.going refl))
        (refl, sym (append-nil c.trace))
  rounds-ended (suc m) (suc n) c stale before at more =
      let stale' : IsStale (acknowledged c) = record {
        intact = stale.intact;
        type = stale.type;
        going = stale.going;
        alive = stale.alive;
      } in
      let (killed, written) =
        rounds-ended m n (acknowledged c) stale' (λ j less. before (suc j) (omega arith)) at
          (omega arith) in
      subst (Died (suc n) c)
        (sym (
          rounds-next ended (replicate m ended) c stale.going stale.alive
          ∙ ap (rounds (replicate m ended)) (round-acknowledged c stale (before 0 (omega arith)))))
        (killed, written ∙ append_assoc c.trace _ _)
