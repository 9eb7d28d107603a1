-- ===== src/Producers/FreeMemory.antt =====
-- productores/src/prod_free_mem.c.
pub mod Texts
use soii_ipc.Base.{
  ℕ, zero, suc, ◌%◌, ◌^◌, Bool, List, [], ◌∷◌, ◌++◌, Option, none, some, ℤ, ◌==◌, if◌then◌else◌,
  replicate,
}
use soii_ipc.Base.Words.{to_bytes}
use soii_ipc.Queue.{Message, Call, complain, sleep, Producer, perform, post, produce}

-- What the calls on /proc/meminfo give: whether it opens, what `fscanf` reads, and how often `fclose`
-- fails before it succeeds. What is read is stored in 32 bits.
pub record MemInfo : Type 0 where
  pub opened : Bool
  pub scanned : Option ℕ
  pub failed_closes : ℕ

-- `while (fclose(fptr) == EOF)`
unfoldable pub close_retries : ℕ → List Call
close_retries zero = []
close_retries (suc n) = complain ∷ sleep 1 ∷ close_retries n

-- The result 0 is a failure. What is printed of the second failure is left out.
unfoldable pub get_free_mem : MemInfo → ℕ × List Call
get_free_mem info =
    if info.opened
    then elim info.scanned [
      | none ↦ (0, [])
      | some mem_free ↦ (mem_free % 2 ^ 32, close_retries info.failed_closes)
    ]
    else (0, complain ∷ [])

-- What a round meets: the time, the memory, and whether the queue takes the message.
pub record Tick : Type 0 where
  pub time : Option ℕ
  pub info : MemInfo
  pub sent : Bool

-- The message of a round: the union's first four bytes are the number, the rest was cleared.
abbrev pub memory_message : ℕ → ℕ → Message
memory_message now mem = record {
  id = 0;
  timestamp = now;
  content = to_bytes 4 mem ++ replicate 36 0;
}

unfoldable pub round : Tick → Producer → Producer
round t p =
    let slept = perform (sleep 1 ∷ []) p in
    elim t.time [
      | none ↦ slept
      | some now ↦
          let (mem, calls) = get_free_mem t.info in
          let asked = perform calls slept in
          if mem == 0 then asked else post (memory_message now mem) t.sent asked
    ]

unfoldable pub main : List ℤ → List Tick → Option Producer
main = produce round
