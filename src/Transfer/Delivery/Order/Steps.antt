-- ===== src/Transfer/Delivery/Order/Steps.antt =====
-- server/src/srv_util.c:handle_loq_req: what was sent before each step, whatever fails.
use soii_ipc.Base.{
  ℕ, ◌≡◌, refl, sym, ap, ◌∙◌, Bool, true, false, List, [], ◌∷◌, ◌++◌, Option, none, some, ◌⊎◌, inl,
  inr, Option-cases, map, map-append, append-nil, if◌then◌else◌,
}
use soii_ipc.Protocol.{Packet, Md5, get_file_md5}
use soii_ipc.Transfer.Sender.{
  Act, Answers, Chunk, Sender, Flow, go, goto_terminate, part, act, sent, sent_part, require,
  write_part, is_socket, not_negative, not_minus_one, send_parts, steps, offer, await, compress,
  announce, send_log, at_terminate, ◌>>◌, zip_open, zip_entry_open, zip_entry_fwrite,
  zip_entry_close, zip_close, open_compressed,
}
use soii_ipc.Transfer.Delivery.Sending.{parts_of, parts_of-append, begin_packet}

-- No file packet was sent yet; BEGIN and parts were sent; one of both.
abbrev pub Quiet : Sender → Type 0
Quiet s = parts_of s.trace ≡ []

pub record Open (s : Sender) : Type 0 where
  pub size : ℕ
  pub hash : List ℕ
  pub pieces : List (List ℕ)
  pub sent_parts : parts_of s.trace ≡ begin_packet size hash ∷ map part pieces

abbrev pub Either : Sender → Type 0
Either s = Quiet s ⊎ Open s

-- `P` holds where the code goes on, and one of both where it has jumped.
abbrev Holds : (Sender → Type 0) → Flow → Type 0
Holds P (go s) = P s
Holds P (goto_terminate s) = Either s

Holds-bind :
    (P R : Sender → Type 0) (f : Flow) (k : Sender → Flow)
    → Holds P f
    → ((s : Sender) → P s → Holds R (k s))
    → Holds R (f >> k)
Holds-bind P R (go s) k h next = next s h
Holds-bind P R (goto_terminate s) k h next = h

at_terminate-Either :
    (P : Sender → Type 0) (f : Flow)
    → Holds P f
    → ((s : Sender) → P s → Either s)
    → Either (at_terminate f)
at_terminate-Either P (go s) h weaken = weaken s h
at_terminate-Either P (goto_terminate s) h weaken = h

require-Quiet : (b : Bool) (s : Sender) → Quiet s → Holds Quiet (require b s)
require-Quiet true s quiet = quiet
require-Quiet false s quiet = inl quiet

act-Quiet : (a : Act) (s : Sender) → parts_of (a ∷ []) ≡ [] → Quiet s → Quiet (act a s)
act-Quiet a s other quiet =
    parts_of-append s.trace (a ∷ []) ∙ ap (λ l. l ++ parts_of (a ∷ [])) quiet ∙ other

announced-Quiet :
    (fd : ℕ) (p : Packet) (b : Bool) (t : Sender)
    → Quiet t
    → Holds Quiet (if b then go (act (sent fd p) t) else goto_terminate t)
announced-Quiet fd p true t quiet = act-Quiet (sent fd p) t refl quiet
announced-Quiet fd p false t quiet = inl quiet

-- BEGIN is sent, or not.
write_part-begin :
    (b : Bool) (s : Sender) (size : ℕ) (hash : List ℕ)
    → Quiet s
    → Holds Open (write_part b (record s { ft_packet = begin_packet size hash }))
write_part-begin true s size hash quiet = record {
  size = size;
  hash = hash;
  pieces = [];
  sent_parts =
      parts_of-append s.trace (sent_part s.fd_file_transfer (begin_packet size hash) ∷ [])
      ∙ ap (λ l. l ++ begin_packet size hash ∷ []) quiet;
}
write_part-begin false s size hash quiet = inl quiet

-- Behind an open transfer, one more part.
act-Open :
    (fd : ℕ) (bytes : List ℕ) (s : Sender) → Open s → Open (act (sent_part fd (part bytes)) s)
act-Open fd bytes s begun = record {
  size = begun.size;
  hash = begun.hash;
  pieces = begun.pieces ++ bytes ∷ [];
  sent_parts =
      parts_of-append s.trace (sent_part fd (part bytes) ∷ [])
      ∙ ap (λ l. l ++ part bytes ∷ []) begun.sent_parts
      ∙ ap (◌∷◌ (begin_packet begun.size begun.hash))
          (sym (map-append part begun.pieces (bytes ∷ [])));
}

-- What is not in the trace does not matter.
Open-same : (s t : Sender) → s.trace ≡ t.trace → Open s → Open t
Open-same s t same begun = record {
  size = begun.size;
  hash = begun.hash;
  pieces = begun.pieces;
  sent_parts = ap parts_of (sym same) ∙ begun.sent_parts;
}

-- One round of the loop, if the others keep the order.
send_chunk-Open :
    (r : Option (List ℕ)) (w : Bool) (cs : List Chunk) (s : Sender)
    → ((t : Sender) → Open t → Holds Open (send_parts cs t))
    → Open s
    → Holds Open (send_parts (record { read = r; written = w } ∷ cs) s)
unfolding send_parts
send_chunk-Open none w cs s others begun = begun
send_chunk-Open (some []) w cs s others begun = begun
send_chunk-Open (some (b ∷ bs)) true cs s others begun =
    others _ (Open-same _ _ refl (act-Open s.fd_file_transfer (b ∷ bs) s begun))
send_chunk-Open (some (b ∷ bs)) false cs s others begun = inr (Open-same s _ refl begun)

send_parts-Open : (cs : List Chunk) (s : Sender) → Open s → Holds Open (send_parts cs s)
unfolding send_parts
send_parts-Open [] s begun = begun
send_parts-Open (c ∷ cs) s begun = send_chunk-Open c.read c.written cs s (send_parts-Open cs) begun

send_log-Open : (a : Answers) (s : Sender) → Open s → Holds Open (send_log a s)
unfolding send_log
send_log-Open a s begun =
    Holds-bind Open Open _ _ (opened a.log_opened)
      λ t o. send_parts-Open a.chunks _ (Open-same t _ refl o)
  where
    tried : Open (act open_compressed s)
    tried = record {
      size = begun.size;
      hash = begun.hash;
      pieces = begun.pieces;
      sent_parts = parts_of-append s.trace (open_compressed ∷ []) ∙ append-nil _ ∙ begun.sent_parts;
    }

    opened : (b : Bool) → Holds Open (require b (act open_compressed s))
    opened true = tried
    opened false = inr tried

module _ ⦃md5 : Md5⦄ (a : Answers) where
  offer-Quiet : (sock_req : ℕ) (s : Sender) → Quiet s → Holds Quiet (offer a sock_req s)
  unfolding offer
  offer-Quiet sock_req s quiet =
      Holds-bind Quiet Quiet _ _
        (Holds-bind Quiet Quiet _ _
          (Holds-bind Quiet Quiet _ _
            (Holds-bind Quiet Quiet _ _ (require-Quiet a.reusable _ quiet) (require-Quiet a.bound))
            (require-Quiet (is_socket _)))
          (require-Quiet a.listening))
        (announced-Quiet sock_req _ a.announced)

  await-Quiet : (s : Sender) → Quiet s → Holds Quiet (await a s)
  unfolding await
  await-Quiet s quiet = elim (Option-cases a.accepted) [
    | inl failed ↦ rw (failed, await) (inl quiet)
    | inr (fd, accepted) ↦ rw (accepted, await) quiet
  ]

  compress-Quiet : (s : Sender) → Quiet s → Holds Quiet (compress a s)
  unfolding compress
  compress-Quiet s quiet =
      Holds-bind Quiet Quiet _ _
        (Holds-bind Quiet Quiet _ _
          (Holds-bind Quiet Quiet _ _
            (Holds-bind Quiet Quiet _ _
              (require-Quiet a.zip_opened _ (act-Quiet zip_open s refl quiet))
              λ t q.
                require-Quiet (not_negative a.entry_opened) _ (act-Quiet zip_entry_open t refl q))
            λ t q.
              require-Quiet (not_negative a.entry_written) _ (act-Quiet zip_entry_fwrite t refl q))
          λ t q.
            require-Quiet (not_minus_one a.entry_closed) _ (act-Quiet zip_entry_close t refl q))
        λ t q. act-Quiet zip_close t refl q

  announce-Open : (s : Sender) → Quiet s → Holds Open (announce a s)
  unfolding announce
  announce-Open s quiet =
      let t = act open_compressed s in
      let still = act-Quiet open_compressed s refl quiet in
      elim (Option-cases a.st_size) [
        | inl failed ↦ rw (failed, announce) (inl still)
        | inr (size, known) ↦ elim (Option-cases (get_file_md5 a.digest_reads)) [
          | inl failed ↦ rw (known, failed, announce) (inl still)
          | inr (hash, read) ↦
              rw (known, read, announce) (write_part-begin a.begun t size hash still)
        ]
      ]

  pub steps-Either : (sock_req : ℕ) → Either (at_terminate (steps a sock_req))
  unfolding steps
  steps-Either sock_req =
      at_terminate-Either Open _
        (Holds-bind Open Open _ _
          (Holds-bind Quiet Open _ _
            (Holds-bind Quiet Quiet _ _
              (Holds-bind Quiet Quiet _ _ (offer-Quiet sock_req _ refl) await-Quiet) compress-Quiet)
            announce-Open)
          (send_log-Open a))
        λ s. inr
