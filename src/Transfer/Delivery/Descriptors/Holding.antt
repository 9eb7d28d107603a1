-- ===== src/Transfer/Delivery/Descriptors/Holding.antt =====
-- The two descriptors of the thread are held, and none is closed, until its end.
use soii_ipc.Base.{
  ℕ, ◌≡◌, refl, sym, ap, ◌∙◌, Bool, true, false, inl, inr, List, [], ◌∷◌, ◌++◌, Option, none, some,
  Option-cases,
}
use soii_ipc.Protocol.{Md5, get_file_md5}
use soii_ipc.Transfer.Sender.{
  Act, Answers, Chunk, Sender, Flow, go, goto_terminate, act, sent_part, close, require, write_part,
  not_negative, not_minus_one, send_parts, compress, announce, send_log, at_terminate, ◌>>◌,
  zip_open, zip_entry_open, zip_entry_fwrite, zip_entry_close, zip_close, open_compressed,
}

-- The descriptors that were closed, in order.
abbrev pub closes : List Act → List ℕ
closes [] = []
closes (close fd ∷ acts) = fd ∷ closes acts
closes (_ ∷ acts) = closes acts

pub closes-append : (acts bs : List Act) → closes (acts ++ bs) ≡ closes acts ++ closes bs
closes-append [] bs = refl
closes-append (close fd ∷ acts) bs = ap (◌∷◌ fd) (closes-append acts bs)
closes-append (_ ∷ acts) bs = closes-append acts bs

-- The two variables, and nothing closed yet.
pub record Held (connection passive : ℕ) (s : Sender) : Type 0 where
  pub connection_is : s.fd_file_transfer ≡ connection
  pub passive_is : s.socket_passive_ftransfer ≡ passive
  pub closed : closes s.trace ≡ []

-- It holds where the code goes on, and where it has jumped.
abbrev pub Every : (Sender → Type 0) → Flow → Type 0
Every P (go s) = P s
Every P (goto_terminate s) = P s

pub Every-bind :
    (P : Sender → Type 0) (f : Flow) (k : Sender → Flow)
    → Every P f
    → ((s : Sender) → P s → Every P (k s))
    → Every P (f >> k)
Every-bind P (go s) k h next = next s h
Every-bind P (goto_terminate s) k h next = h

pub at_terminate-Every : (P : Sender → Type 0) (f : Flow) → Every P f → P (at_terminate f)
at_terminate-Every P (go s) h = h
at_terminate-Every P (goto_terminate s) h = h

pub require-Every : (P : Sender → Type 0) (b : Bool) (s : Sender) → P s → Every P (require b s)
require-Every P true s h = h
require-Every P false s h = h

module _ (connection passive : ℕ) where
  pub act-Held :
      (a : Act) (s : Sender)
      → closes (a ∷ []) ≡ []
      → Held connection passive s
      → Held connection passive (act a s)
  act-Held a s other held = record {
    connection_is = held.connection_is;
    passive_is = held.passive_is;
    closed = closes-append s.trace (a ∷ []) ∙ ap (λ l. l ++ closes (a ∷ [])) held.closed ∙ other;
  }

  pub step-Held :
      (a : Act) (b : Bool) (s : Sender)
      → closes (a ∷ []) ≡ []
      → Held connection passive s
      → Every (Held connection passive) (require b (act a s))
  step-Held a b s other held = require-Every _ b (act a s) (act-Held a s other held)

  pub write_part-Held :
      (b : Bool) (s : Sender)
      → Held connection passive s
      → Every (Held connection passive) (write_part b s)
  write_part-Held true s held = act-Held _ s refl held
  write_part-Held false s held = held

  -- The packet does not matter.
  pub repacked :
      (s t : Sender)
      → s.fd_file_transfer ≡ t.fd_file_transfer
      → s.socket_passive_ftransfer ≡ t.socket_passive_ftransfer
      → s.trace ≡ t.trace
      → Held connection passive s
      → Held connection passive t
  repacked s t e f g held = record {
    connection_is = sym e ∙ held.connection_is;
    passive_is = sym f ∙ held.passive_is;
    closed = ap closes (sym g) ∙ held.closed;
  }

  send_chunk-Held :
      (r : Option (List ℕ)) (w : Bool) (cs : List Chunk) (s : Sender)
      → ((t : Sender)
          → Held connection passive t
          → Every (Held connection passive) (send_parts cs t))
      → Held connection passive s
      → Every (Held connection passive) (send_parts (record { read = r; written = w } ∷ cs) s)
  unfolding send_parts
  send_chunk-Held none w cs s others held = held
  send_chunk-Held (some []) w cs s others held = held
  send_chunk-Held (some (b ∷ bs)) true cs s others held =
      others _ (
        repacked (act (sent_part s.fd_file_transfer _) s) _ refl refl refl (act-Held _ s refl held))
  send_chunk-Held (some (b ∷ bs)) false cs s others held = repacked s _ refl refl refl held

  send_parts-Held :
      (cs : List Chunk) (s : Sender)
      → Held connection passive s
      → Every (Held connection passive) (send_parts cs s)
  unfolding send_parts
  send_parts-Held [] s held = held
  send_parts-Held (c ∷ cs) s held = send_chunk-Held c.read c.written cs s (send_parts-Held cs) held

  pub send_log-Held :
      (a : Answers) (s : Sender)
      → Held connection passive s
      → Every (Held connection passive) (send_log a s)
  unfolding send_log
  send_log-Held a s held =
      Every-bind _ (require a.log_opened (act open_compressed s)) _
        (step-Held open_compressed a.log_opened s refl held)
        λ t held'. send_parts-Held a.chunks _ (repacked t _ refl refl refl held')

  pub compress-Held :
      (a : Answers) (s : Sender)
      → Held connection passive s
      → Every (Held connection passive) (compress a s)
  unfolding compress
  compress-Held a s held =
      Every-bind _ _ _
        (Every-bind _ _ _
          (Every-bind _ _ _
            (Every-bind _ _ _ (step-Held zip_open a.zip_opened s refl held)
              λ t. step-Held zip_entry_open (not_negative a.entry_opened) t refl)
            λ t. step-Held zip_entry_fwrite (not_negative a.entry_written) t refl)
          λ t. step-Held zip_entry_close (not_minus_one a.entry_closed) t refl)
        λ t. step-Held zip_close true t refl

  module _ ⦃md5 : Md5⦄ where
    pub announce-Held :
        (a : Answers) (s : Sender)
        → Held connection passive s
        → Every (Held connection passive) (announce a s)
    unfolding announce
    announce-Held a s held =
        let held' = act-Held open_compressed s refl held in
        elim (Option-cases a.st_size) [
          | inl failed ↦ rw (failed, announce) held'
          | inr (size, known) ↦ elim (Option-cases (get_file_md5 a.digest_reads)) [
            | inl failed ↦ rw (known, failed, announce) (repacked _ _ refl refl refl held')
            | inr (hash, read) ↦
                rw (known, read, announce)
                  (write_part-Held a.begun _ (repacked _ _ refl refl refl held'))
          ]
        ]
