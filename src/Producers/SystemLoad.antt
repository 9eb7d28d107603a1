-- ===== src/Producers/SystemLoad.antt =====
-- productores/src/prod_sys_load.c. A `float` is its 32 bits.
pub mod Texts
use soii_ipc.Base.{
  ℕ, ◌%◌, ◌^◌, Bool, List, [], ◌∷◌, ◌++◌, Option, none, some, ℤ, if◌then◌else◌, replicate,
}
use soii_ipc.Base.Words.{to_bytes}
use soii_ipc.Queue.{Message, sleep, Producer, perform, post, produce}

-- What the calls on /proc/loadavg give: whether it opens, and what `fscanf` reads.
pub record LoadAvg : Type 0 where
  pub opened : Bool
  pub scanned : Option ℕ

-- `none` is the result -1.
unfoldable pub get_sys_load : LoadAvg → Option ℕ
get_sys_load avg =
    if avg.opened then elim avg.scanned [ none ↦ none | some load ↦ some (load % 2 ^ 32) ] else none

-- What a round meets: the time, the load, and whether the queue takes the message.
pub record Tick : Type 0 where
  pub time : Option ℕ
  pub avg : LoadAvg
  pub sent : Bool

abbrev pub load_message : ℕ → ℕ → Message
load_message now load = record {
  id = 2;
  timestamp = now;
  content = to_bytes 4 load ++ replicate 36 0;
}

unfoldable pub round : Tick → Producer → Producer
round t p =
    let slept = perform (sleep 3 ∷ []) p in
    elim t.time [
      | none ↦ slept
      | some now ↦ elim (get_sys_load t.avg) [
        | none ↦ slept
        | some load ↦ post (load_message now load) t.sent slept
      ]
    ]

unfoldable pub main : List ℤ → List Tick → Option Producer
main = produce round
