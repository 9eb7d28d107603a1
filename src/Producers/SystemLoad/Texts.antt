-- ===== src/Producers/SystemLoad/Texts.antt =====
-- What becomes of the load producer's messages at the server.

use soii_ipc.Base.{
  Bool, if◌then◌else◌, false, true, none, Option, append-nil, sym, map, ◌%◌, ℕ, ◌^◌, ◌<◌, ◌≡◌, refl,
  ap, ◌∙◌, List, [], ◌∷◌, ◌++◌, some, ℤ, arith, replicate,
}
use soii_ipc.Base.Text.{codes}
use soii_ipc.Base.Words.{to_bytes, of_bytes, of_bytes-to_bytes, length-to_bytes}
use soii_ipc.Queue.Sent.{
  to_list, messages, messages-silent, messages-post, reports, produce-messages, at_time,
  at_time-value,
}
use soii_ipc.Queue.{post, Message, sleep, Producer, perform}
use soii_ipc.Server.Messages.{Printf, message_text}
use soii_ipc.Protocol.Wire.{take-append}
use soii_ipc.Producers.SystemLoad.{LoadAvg, get_sys_load, Tick, load_message, round, main}

abbrev pub load_text : ⦃printf : Printf⦄ → ℕ → List ℕ
load_text ⦃printf⦄ load = codes "Carga del sistema normalizada: " ++ printf.float load

-- What /proc/loadavg told, in 32 bits: nothing if it does not open or cannot be read.
abbrev pub system_load : LoadAvg → Option ℕ
system_load avg =
    if avg.opened then elim avg.scanned [ none ↦ none | some load ↦ some (load % 2 ^ 32) ] else none

-- A round's time and number, if the queue takes its message.
abbrev pub load_reading : Tick → Option (ℕ × ℕ)
load_reading t = at_time t.time (system_load t.avg) t.sent

-- The server's text for a message of this producer.
pub load_message-text :
    ⦃printf : Printf⦄ (now load : ℕ)
    → load < 2 ^ 32
    → message_text (load_message now load) ≡ some (load_text load)
unfolding message_text
load_message-text now load word =
    ap (λ n. some (load_text n))
      (ap of_bytes (take-append 4 (to_bytes 4 load) (replicate 36 0) (length-to_bytes 4 load))
        ∙ of_bytes-to_bytes 4 load (omega arith))

system_load-word : (avg : LoadAvg) (load : ℕ) → system_load avg ≡ some load → load < 2 ^ 32
system_load-word avg load e = ground arith

pub load_reading-word :
    (t : Tick) (now load : ℕ) → load_reading t ≡ some (now, load) → load < 2 ^ 32
load_reading-word t now load e =
    system_load-word t.avg load (at_time-value t.time (system_load t.avg) t.sent now load e)

abbrev pub reported_load : ℕ × ℕ → Message
reported_load (now, load) = load_message now load

round_by-messages :
    (time : Option ℕ) (avg : LoadAvg) (sent : Bool) (p : Producer)
    → messages (round (record { time = time; avg = avg; sent = sent }) p).calls
      ≡ messages p.calls ++ map reported_load (to_list (at_time time (system_load avg) sent))
unfolding round get_sys_load
round_by-messages none avg sent p =
    messages-silent p.calls (sleep 3 ∷ []) refl ∙ sym (append-nil (messages p.calls))
round_by-messages (some now) avg sent p =
    let slept : messages (p.calls ++ sleep 3 ∷ []) ≡ messages p.calls =
      messages-silent p.calls (sleep 3 ∷ []) refl in
    by (system_load avg) slept
  where
    by :
        (o : Option ℕ)
        → messages (p.calls ++ sleep 3 ∷ []) ≡ messages p.calls
        → messages
            (elim o as (λ x. Producer) [
              | none ↦ perform (sleep 3 ∷ []) p
              | some load ↦ post (load_message now load) sent (perform (sleep 3 ∷ []) p)
            ]).calls
          ≡ messages p.calls ++ map reported_load (to_list (at_time (some now) o sent))
    by none slept = slept ∙ sym (append-nil (messages p.calls))
    by (some load) slept =
        messages-post (load_message now load) sent (perform (sleep 3 ∷ []) p)
        ∙ ap (λ ms. ms ++ (if sent then load_message now load ∷ [] else [])) slept
        ∙ ap (λ ms. messages p.calls ++ ms) (taken sent)
      where
        taken :
            (b : Bool)
            → (if b then load_message now load ∷ [] else [])
              ≡ map reported_load (to_list (at_time (some now) (some load) b))
        taken true = refl
        taken false = refl

round-messages :
    (t : Tick) (p : Producer)
    → messages (round t p).calls ≡ messages p.calls ++ map reported_load (to_list (load_reading t))
round-messages t p = round_by-messages t.time t.avg t.sent p

-- The queue takes from the load producer the messages of its readings, in order.
pub main-messages :
    (results : List ℤ) (ts : List Tick) (p : Producer)
    → main results ts ≡ some p
    → messages p.calls ≡ map reported_load (reports load_reading ts)
unfolding main
main-messages = produce-messages round load_reading reported_load round-messages
