-- ===== src/Producers/Published.antt =====
-- The memory producer, the load producer and the server together.
use soii_ipc.Base.{subst, sym, refl, ℕ, ◌≡◌, List, some, ℤ, get_elem?}
use soii_ipc.Protocol.{Md5}
use soii_ipc.Queue.{Message, Producer}
use soii_ipc.Queue.Sent.{messages, reports, Tells, Tells-map}
use soii_ipc.Server.{Server}
use soii_ipc.Server.Messages.{Printf, handle_message}
use soii_ipc.Server.Messages.Delivery.{published, handle_message-delivers}
use soii_ipc.Producers.FreeMemory
use soii_ipc.Producers.FreeMemory.Texts
use soii_ipc.Producers.FreeMemory.Texts.{
  memory_text, memory_reading, memory_reading-word, memory_message-text, reported_memory,
}
use soii_ipc.Producers.SystemLoad
use soii_ipc.Producers.SystemLoad.Texts as LoadTexts
use soii_ipc.Producers.SystemLoad.Texts.{
  load_text, load_reading, load_reading-word, load_message-text, reported_load,
}

module _ ⦃md5 : Md5⦄ ⦃printf : Printf⦄ (s : Server) where
  -- The message is of the time, and the server takes it and publishes the text of the number in the
  -- room.
  abbrev pub Publishes : List ℕ → (ℕ → List ℕ) → Message → ℕ × ℕ → Type 0
  Publishes room text m (now, n) =
      (m.timestamp ≡ now) × (handle_message m s ≡ some (published m (text n) room s))

  -- The messages that the queue takes from the memory producer, in any run of it, are one for each
  -- round in which the clock could be read, /proc/meminfo could be opened and read and told a number
  -- that is not 0 in 32 bits, and the queue took the message; in order. The server, in every state in
  -- which it has that producer's room, takes each, and publishes in the room the text of exactly that
  -- number, with the round's time as the producer's. So for the load producer and /proc/loadavg, but
  -- that a number may be 0.
  pub main-published :
      (results results' : List ℤ) (ts : List FreeMemory.Tick) (us : List SystemLoad.Tick)
      (p q : Producer) (memory_room load_room : List ℕ)
      → FreeMemory.main results ts ≡ some p
      → SystemLoad.main results' us ≡ some q
      → get_elem? s.rooms 0 ≡ some memory_room
      → get_elem? s.rooms 2 ≡ some load_room
      → Tells (Publishes memory_room memory_text) (messages p.calls) (reports memory_reading ts)
        × Tells (Publishes load_room load_text) (messages q.calls) (reports load_reading us)
  main-published results results' ts us p q memory_room load_room ends ends' at at' = (
    subst (λ ms. Tells (Publishes memory_room memory_text) ms (reports memory_reading ts))
        (sym (Texts.main-messages results ts p ends))
        (Tells-map (Publishes memory_room memory_text) memory_reading reported_memory
          (λ t (now, mem) is. (
            refl,
            handle_message-delivers (reported_memory (now, mem)) (memory_text mem) memory_room s
                (memory_message-text now mem (memory_reading-word t now mem is)) at,
          ))
          ts),
    subst (λ ms. Tells (Publishes load_room load_text) ms (reports load_reading us))
        (sym (LoadTexts.main-messages results' us q ends'))
        (Tells-map (Publishes load_room load_text) load_reading reported_load
          (λ t (now, load) is. (
            refl,
            handle_message-delivers (reported_load (now, load)) (load_text load) load_room s
                (load_message-text now load (load_reading-word t now load is)) at',
          ))
          us),
  )
