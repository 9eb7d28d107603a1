-- ===== src/Transfer/Delivery/Receiving.antt =====
-- client/src/cliente.c:recv_file: what it makes of whole packets.
use mathlib.Core.Path.{ap₂}
use soii_ipc.Base.{
  map-append, replicate, drop, ℕ, ◌≡◌, refl, sym, ap, ◌∙◌, true, false, List, [], ◌∷◌, ◌++◌, Option,
  none, some, ◌≤◌, ltb, arith, length, take, map, append_assoc, append-nil, take-length-append,
}
use soii_ipc.Protocol.{Md5, same_bytes, md5_digest_length}
use soii_ipc.Protocol.FileDigest.{joined}
use soii_ipc.Protocol.Wire.{take-append}
use soii_ipc.Client.{full}
use soii_ipc.Transfer.{FilePacket, ft_payload_size}
use soii_ipc.Transfer.Sender.{part}
use soii_ipc.Transfer.Receiver.{Arrival, Receiver, receive, receive_round, take_packet, write_file}
use soii_ipc.Transfer.Delivery.Sending.{begin_packet, fin_packet}

-- A packet that arrives as a whole, and whose bytes are written as a whole.
abbrev pub whole : FilePacket → Arrival
whole p = record { got = full p; wrote = some p.nbytes }

-- No piece is larger than a packet's payload.
abbrev pub AllFit : List (List ℕ) → Type 0
AllFit [] = Unit {0}
AllFit (bytes ∷ pieces) = (length bytes ≤ ft_payload_size) × AllFit pieces

module _ ⦃md5 : Md5⦄ where
  abbrev after_part : List ℕ → Receiver → Receiver
  after_part bytes r = record r {
    packet = part bytes;
    file = r.file ++ bytes;
    context = md5.feed r.context bytes;
  }

  -- A part is appended to the file and fed to the digest.
  take_packet-part :
      (bytes : List ℕ) (r : Receiver)
      → length bytes ≤ ft_payload_size
      → take_packet (some (length bytes)) (part bytes) (record r { packet = part bytes })
        ≡ some (after_part bytes r)
  unfolding take_packet write_file
  take_packet-part bytes r fits =
      let small : ltb ft_payload_size (length bytes) ≡ false = ground arith in
      let all = take-length-append bytes (drop (length bytes) (replicate ft_payload_size 0)) in
      let same : take (length bytes) bytes ≡ bytes =
        ap (take (length bytes)) (sym (append-nil bytes)) ∙ take-length-append bytes [] in
      rw (small, all, same)

  -- What the receiver has after the parts.
  abbrev after_parts : List (List ℕ) → Receiver → Receiver
  after_parts [] r = r
  after_parts (bytes ∷ pieces) r = after_parts pieces (after_part bytes r)

  after_parts-file :
      (pieces : List (List ℕ)) (r : Receiver)
      → (after_parts pieces r).file ≡ r.file ++ joined pieces
  unfolding joined
  after_parts-file [] r = sym (append-nil r.file)
  after_parts-file (bytes ∷ pieces) r =
      after_parts-file pieces (after_part bytes r) ∙ append_assoc r.file bytes (joined pieces)

  after_parts-context :
      (pieces : List (List ℕ)) (r : Receiver)
      → (after_parts pieces r).context ≡ md5.feed r.context (joined pieces)
  unfolding joined
  after_parts-context [] r = sym (md5.feed-nil r.context)
  after_parts-context (bytes ∷ pieces) r =
      after_parts-context pieces (after_part bytes r)
      ∙ md5.feed-append r.context bytes (joined pieces)

  after_parts-rest :
      (pieces : List (List ℕ)) (r : Receiver)
      → ((after_parts pieces r).done ≡ r.done)
        × ((after_parts pieces r).server_hash ≡ r.server_hash)
  after_parts-rest [] r = (refl, refl)
  after_parts-rest (bytes ∷ pieces) r = after_parts-rest pieces (after_part bytes r)

  receive-next :
      (a : Arrival) (rest : List Arrival) (r next : Receiver)
      → r.done ≡ false
      → receive_round a r ≡ some next
      → receive (a ∷ rest) r ≡ receive rest next
  unfolding receive
  receive-next a rest r next going e =
      ap
        (λ b. elim b [
          | true ↦ some r
          | false ↦ elim (receive_round a r) [ none ↦ none | some t ↦ receive rest t ]
        ])
        going
      ∙ ap (λ o. elim o [ none ↦ none | some t ↦ receive rest t ]) e

  receive-parts :
      (pieces : List (List ℕ)) (rest : List Arrival) (r : Receiver)
      → AllFit pieces
      → r.done ≡ false
      → receive (map whole (map part pieces) ++ rest) r ≡ receive rest (after_parts pieces r)
  unfolding receive_round
  receive-parts [] rest r fit going = refl
  receive-parts (bytes ∷ pieces) rest r fit going =
      receive-next (whole (part bytes)) (map whole (map part pieces) ++ rest) r (after_part bytes r)
        going (take_packet-part bytes r fit.0)
      ∙ receive-parts pieces rest (after_part bytes r) fit.1 going

  -- What the receiver has after BEGIN.
  abbrev begun : ℕ → List ℕ → Receiver → Receiver
  begun size hash r = record r {
    packet = begin_packet size hash;
    server_hash = hash;
    context = md5.init;
  }

  receive_round-begin :
      (size : ℕ) (hash : List ℕ) (r : Receiver)
      → length hash ≡ md5_digest_length
      → receive_round (whole (begin_packet size hash)) r ≡ some (begun size hash r)
  unfolding receive_round take_packet
  receive_round-begin size hash r long =
      let all : take md5_digest_length hash ≡ hash =
        ap (take md5_digest_length) (sym (append-nil hash))
        ∙ take-append md5_digest_length hash [] long in
      ap
        (λ h.
          some (record r { packet = begin_packet size hash; server_hash = h; context = md5.init }))
        (take-append md5_digest_length (take md5_digest_length hash) _ (ap length all ∙ long) ∙ all)

  -- What the receiver has at the end of a whole transfer.
  abbrev pub finished : ℕ → List ℕ → List (List ℕ) → Receiver → Receiver
  finished size hash pieces r = record r {
    packet = fin_packet;
    context = (after_parts pieces (begun size hash r)).context;
    server_hash = hash;
    file = r.file ++ joined pieces;
    done = true;
    verdict = some (same_bytes md5_digest_length (md5.digest (joined pieces)) hash);
  }

  -- FIN ends the loop with the verdict.
  receive_round-fin :
      (r : Receiver)
      → receive_round (whole fin_packet) r
        ≡ some (record r {
          packet = fin_packet;
          done = true;
          verdict = some (same_bytes md5_digest_length (md5.final r.context) r.server_hash);
        })
  unfolding receive_round take_packet
  receive_round-fin r = refl

  after_parts-finished :
      (size : ℕ) (hash : List ℕ) (pieces : List (List ℕ)) (r : Receiver)
      → receive_round (whole fin_packet) (after_parts pieces (begun size hash r))
        ≡ some (finished size hash pieces r)
  after_parts-finished size hash pieces r =
      let b = begun size hash r in
      let e = after_parts pieces b in
      let said : List ℕ → List ℕ → List ℕ → Option Receiver = λ f h d. some (record e {
        packet = fin_packet;
        file = f;
        done = true;
        server_hash = h;
        verdict = some (same_bytes md5_digest_length d h);
      }) in
      let digested = ap md5.final (after_parts-context pieces b) ∙ md5.final-feed (joined pieces) in
      receive_round-fin e
      ∙ ap (λ f. said f e.server_hash (md5.final e.context)) (after_parts-file pieces b)
      ∙ ap₂ (said (r.file ++ joined pieces)) (after_parts-rest pieces b).1 digested

  -- BEGIN with a digest of 16 bytes, parts that fit a packet, and FIN, which arrive and are written as
  -- a whole, end the loop; the parts are at the end of the file, in order, and it is said to be intact
  -- if their digest is the one that BEGIN carried, and damaged else.
  pub receive-transfer :
      (size : ℕ) (hash : List ℕ) (pieces : List (List ℕ)) (r : Receiver)
      → length hash ≡ md5_digest_length
      → AllFit pieces
      → r.done ≡ false
      → receive (map whole (begin_packet size hash ∷ map part pieces ++ fin_packet ∷ [])) r
        ≡ some (finished size hash pieces r)
  unfolding receive
  receive-transfer size hash pieces r long fit going =
      let b = begun size hash r in
      let tail = map part pieces ++ fin_packet ∷ [] in
      let still = (after_parts-rest pieces b).0 in
      receive-next (whole (begin_packet size hash)) (map whole tail) r b going
        (receive_round-begin size hash r long)
      ∙ ap (λ l. receive l b) (map-append whole (map part pieces) (fin_packet ∷ []))
      ∙ receive-parts pieces (whole fin_packet ∷ []) b fit going
      ∙ receive-next (whole fin_packet) [] (after_parts pieces b) (finished size hash pieces r)
          (still ∙ going) (after_parts-finished size hash pieces r)
