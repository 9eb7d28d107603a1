-- ===== src/Producers/FreeMemory/Texts.antt =====
-- What becomes of the memory producer's messages at the server.

use soii_ipc.Base.{
  Bool, Option, if◌then◌else◌, ◌⊎◌, false, true, none, append-nil, sym, map, ◌%◌, ℕ, zero, suc, ◌^◌,
  ◌<◌, ◌≡◌, refl, ap, ◌∙◌, List, [], ◌∷◌, ◌++◌, some, ℤ, arith, ◌==◌, replicate, inl, inr,
  Option-cases, Bool-cases,
}
use soii_ipc.Base.Text.{codes}
use soii_ipc.Base.Words.{to_bytes, of_bytes, of_bytes-to_bytes, length-to_bytes}
use mathlib.Core.Option.{some-injective}
use mathlib.Core.Path.{ap₂}
use soii_ipc.Queue.Sent.{
  to_list, messages, messages-silent, messages-post, reports, produce-messages, at_time,
  at_time-value,
}
use soii_ipc.Queue.{Message, sleep, Producer, perform}
use soii_ipc.Queue.Deliveries.{deliveries, deliveries-append, Counts, post-Counts, produce-Counts}
use soii_ipc.Server.Messages.{Printf, message_text}
use soii_ipc.Protocol.Wire.{take-append}
use soii_ipc.Producers.FreeMemory.{
  MemInfo, close_retries, get_free_mem, Tick, memory_message, round, main,
}

abbrev pub memory_text : ⦃printf : Printf⦄ → ℕ → List ℕ
memory_text ⦃printf⦄ mem =
    codes "Memoria disponible del sistema: " ++ (printf.unsigned mem ++ codes " kB")

-- What /proc/meminfo told, in 32 bits: nothing if it does not open or cannot be read, or tells 0.
abbrev pub free_memory : MemInfo → Option ℕ
free_memory info =
    if info.opened
    then elim info.scanned [
      | none ↦ none
      | some mem_free ↦ if mem_free % 2 ^ 32 == 0 then none else some (mem_free % 2 ^ 32)
    ]
    else none

-- A round's time and number, if the queue takes its message.
abbrev pub memory_reading : Tick → Option (ℕ × ℕ)
memory_reading t = at_time t.time (free_memory t.info) t.sent

-- The server's text for a message of this producer.
pub memory_message-text :
    ⦃printf : Printf⦄ (now mem : ℕ)
    → mem < 2 ^ 32
    → message_text (memory_message now mem) ≡ some (memory_text mem)
unfolding message_text
memory_message-text now mem word =
    ap (λ n. some (memory_text n))
      (ap of_bytes (take-append 4 (to_bytes 4 mem) (replicate 36 0) (length-to_bytes 4 mem))
        ∙ of_bytes-to_bytes 4 mem (omega arith))

close_retries-deliveries : (n : ℕ) → deliveries (close_retries n) ≡ 0
unfolding close_retries
close_retries-deliveries zero = refl
close_retries-deliveries (suc n) = omega (arith, close_retries-deliveries n)

get_free_mem-deliveries : (info : MemInfo) → deliveries (get_free_mem info).1 ≡ 0
unfolding get_free_mem
get_free_mem-deliveries info = elim (Bool-cases info.opened) [
  | inr shut ↦ rw (shut, get_free_mem)
  | inl opened ↦ elim (Option-cases info.scanned) [
    | inl nothing ↦ rw (opened, nothing, get_free_mem)
    | inr (mem, has) ↦ rw (opened, has, get_free_mem) (close_retries-deliveries info.failed_closes)
  ]
]

-- `get_free_mem` gives 0 for nothing.
get_free_mem-free_memory :
    (info : MemInfo)
    → ((free_memory info ≡ none) × (((get_free_mem info).0 == 0) ≡ true))
      ⊎ ((mem : ℕ) × (free_memory info ≡ some mem)
          × (mem < 2 ^ 32)
          × ((get_free_mem info).0 ≡ mem)
          × (((get_free_mem info).0 == 0) ≡ false))
unfolding get_free_mem
get_free_mem-free_memory info = elim (Bool-cases info.opened) [
  | inr shut ↦ rw (shut, get_free_mem) (inl (refl, refl))
  | inl opened ↦ elim (Option-cases info.scanned) [
    | inl nothing ↦ rw (opened, nothing, get_free_mem) (inl (refl, refl))
    | inr (mem, has) ↦ elim (Bool-cases (mem % 2 ^ 32 == 0)) [
      | inl zero_ ↦ rw (opened, has, get_free_mem) (inl (rw zero_, zero_))
      | inr loud ↦
          rw (opened, has, get_free_mem) (inr (mem % 2 ^ 32, rw loud, omega arith, refl, loud))
    ]
  ]
]

pub memory_reading-word :
    (t : Tick) (now mem : ℕ) → memory_reading t ≡ some (now, mem) → mem < 2 ^ 32
memory_reading-word t now mem e =
    let value = at_time-value t.time (free_memory t.info) t.sent now mem e in
    elim (get_free_mem-free_memory t.info) [
      | inl (nothing, zero_) ↦ cc
      | inr (v, has, word, is, loud) ↦
          let same : v ≡ mem = some-injective v mem (sym has ∙ value) in omega arith
    ]

abbrev pub reported_memory : ℕ × ℕ → Message
reported_memory (now, mem) = memory_message now mem

round_by-messages :
    (time : Option ℕ) (info : MemInfo) (sent : Bool) (p : Producer)
    → messages (round (record { time = time; info = info; sent = sent }) p).calls
      ≡ messages p.calls ++ map reported_memory (to_list (at_time time (free_memory info) sent))
unfolding round
round_by-messages none info sent p =
    messages-silent p.calls (sleep 1 ∷ []) refl ∙ sym (append-nil (messages p.calls))
round_by-messages (some now) info sent p =
    let asked : messages ((p.calls ++ sleep 1 ∷ []) ++ (get_free_mem info).1) ≡ messages p.calls =
      messages-silent (p.calls ++ sleep 1 ∷ []) (get_free_mem info).1 (get_free_mem-deliveries info)
      ∙ messages-silent p.calls (sleep 1 ∷ []) refl in
    elim (get_free_mem-free_memory info) [
      | inl (nothing, zero_) ↦ rw (nothing, zero_) (asked ∙ sym (append-nil (messages p.calls)))
      | inr (mem, has, word, is, loud) ↦
          rw (has, loud)
            (messages-post (memory_message now (get_free_mem info).0) sent
                (perform (get_free_mem info).1 (perform (sleep 1 ∷ []) p))
              ∙ ap₂ (λ ms v. ms ++ (if sent then memory_message now v ∷ [] else [])) asked is
              ∙ ap (λ ms. messages p.calls ++ ms) (taken sent mem))
    ]
  where
    taken :
        (b : Bool) (mem : ℕ)
        → (if b then memory_message now mem ∷ [] else [])
          ≡ map reported_memory (to_list (at_time (some now) (some mem) b))
    taken true mem = refl
    taken false mem = refl

round-messages :
    (t : Tick) (p : Producer)
    → messages (round t p).calls
      ≡ messages p.calls ++ map reported_memory (to_list (memory_reading t))
round-messages t p = round_by-messages t.time t.info t.sent p

-- The queue takes from the memory producer the messages of its readings, in order.
pub main-messages :
    (results : List ℤ) (ts : List Tick) (p : Producer)
    → main results ts ≡ some p
    → messages p.calls ≡ map reported_memory (reports memory_reading ts)
unfolding main
main-messages = produce-messages round memory_reading reported_memory round-messages

round-Counts : (t : Tick) (p : Producer) → Counts p → Counts (round t p)
unfolding round
round-Counts t p counts =
    let slept : Counts (perform (sleep 1 ∷ []) p) =
      omega (arith, counts, deliveries-append p.calls (sleep 1 ∷ [])) in
    let asked : Counts (perform (get_free_mem t.info).1 (perform (sleep 1 ∷ []) p)) = omega (
      arith,
      slept,
      get_free_mem-deliveries t.info,
      deliveries-append (p.calls ++ sleep 1 ∷ []) (get_free_mem t.info).1,
    ) in
    elim (Option-cases t.time) [
      | inl no_time ↦ rw (no_time, round) slept
      | inr (now, at) ↦ elim (Bool-cases ((get_free_mem t.info).0 == 0)) [
        | inl nothing ↦ rw (at, nothing, round) asked
        | inr loud ↦ rw (at, loud, round) (post-Counts _ t.sent _ asked)
      ]
    ]

-- The memory producer's counter is, after any run, one more than the messages that the queue took,
-- as an `int`.
pub main-Counts :
    (results : List ℤ) (ts : List Tick) (p : Producer) → main results ts ≡ some p → Counts p
unfolding main
main-Counts = produce-Counts round round-Counts
