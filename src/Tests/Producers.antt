-- ===== src/Tests/Producers.antt =====
-- The producers' theorems at short runs.
use soii_ipc.Base.{◌+◌, ◌≡◌, refl, true, List, [], ◌∷◌, some, none, ℤ, pos, negsuc, Option}
use soii_ipc.Queue.{Producer, produce, start_producer, join_existing_mq}
use soii_ipc.Queue.Deliveries.{AllDelivered, Counts}
use soii_ipc.Server.{Server}
use soii_ipc.Server.Messages.{handle_message}
use soii_ipc.Producers.RandomText
use soii_ipc.Producers.RandomText.{Random}
use soii_ipc.Producers.RandomText.Endless.{main-fatal}
use soii_ipc.Producers.FreeMemory
use soii_ipc.Producers.FreeMemory.Texts
use soii_ipc.Producers.SystemLoad
use soii_ipc.Producers.Published.{Publishes, main-published}
use soii_ipc.Queue.Sent.{messages, reports, Tells}
use soii_ipc.Producers.FreeMemory.Texts.{memory_text, memory_reading}
use soii_ipc.Producers.SystemLoad.Texts.{load_text, load_reading}
use soii_ipc.Tests.Samples.{sample_md5, sample_printf, two_sessions}

abbrev sample_random : Random
sample_random = record { rand = λ seed k. seed + k }

-- The queue is there at the second attempt, and takes one message.
abbrev attempts : List ℤ
attempts = negsuc 0 ∷ pos 3 ∷ []

abbrev random_tick : RandomText.Tick
random_tick = record { time = some 200; seed = some 200; sent = true }

abbrev memory_tick : FreeMemory.Tick
memory_tick = record {
  time = some 200;
  info = record { opened = true; scanned = some 4096; failed_closes = 1 };
  sent = true;
}

-- What a run came to, where it did.
abbrev ran : Option Producer → Producer
ran none = record { count = 0; calls = [] }
ran (some p) = p

abbrev random_run : Producer
random_run = ran (RandomText.main ⦃random = sample_random⦄ attempts (random_tick ∷ []))

abbrev memory_run : Producer
memory_run = ran (FreeMemory.main attempts (memory_tick ∷ []))

random_run-ends :
    RandomText.main ⦃random = sample_random⦄ attempts (random_tick ∷ []) ≡ some random_run
unfolding RandomText.main produce start_producer join_existing_mq
random_run-ends = refl

memory_run-ends : FreeMemory.main attempts (memory_tick ∷ []) ≡ some memory_run
unfolding FreeMemory.main produce start_producer join_existing_mq
memory_run-ends = refl

main-fatal_example :
    AllDelivered
      (λ m. (s : Server) → handle_message ⦃md5 = sample_md5⦄ ⦃printf = sample_printf⦄ m s ≡ none)
      random_run.calls
main-fatal_example =
    main-fatal ⦃random = sample_random⦄ ⦃md5 = sample_md5⦄ ⦃printf = sample_printf⦄ attempts
      (random_tick ∷ []) random_run random_run-ends

abbrev load_tick : SystemLoad.Tick
load_tick = record {
  time = some 200;
  avg = record { opened = true; scanned = some 1065353216 };
  sent = true;
}

abbrev load_run : Producer
load_run = ran (SystemLoad.main attempts (load_tick ∷ []))

load_run-ends : SystemLoad.main attempts (load_tick ∷ []) ≡ some load_run
unfolding SystemLoad.main produce start_producer join_existing_mq
load_run-ends = refl

main-published_example :
    Tells
      (Publishes ⦃md5 = sample_md5⦄ ⦃printf = sample_printf⦄ two_sessions
        (4 ∷ [])
        (memory_text ⦃printf = sample_printf⦄))
      (messages memory_run.calls)
      (reports memory_reading (memory_tick ∷ []))
    × Tells
        (Publishes ⦃md5 = sample_md5⦄ ⦃printf = sample_printf⦄ two_sessions []
          (load_text ⦃printf = sample_printf⦄))
        (messages load_run.calls)
        (reports load_reading (load_tick ∷ []))
main-published_example =
    main-published ⦃md5 = sample_md5⦄ ⦃printf = sample_printf⦄ two_sessions attempts attempts
      (memory_tick ∷ []) (load_tick ∷ []) memory_run load_run (4 ∷ []) [] memory_run-ends
      load_run-ends refl refl

main-Counts_example : Counts memory_run
main-Counts_example = Texts.main-Counts attempts (memory_tick ∷ []) memory_run memory_run-ends
