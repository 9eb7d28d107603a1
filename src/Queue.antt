-- ===== src/Queue.antt =====
-- common/src/mq_util.c and common/include/mq_util.h: the queue between producers and server, and what
-- the three producers share of its use.
pub mod Deliveries
pub mod Sent
use soii_ipc.Base.{
  ℕ, ◌^◌, Bool, true, false, List, [], ◌∷◌, ◌++◌, Option, none, some, ℤ, pos, negsuc, is_zero,
  if◌then◌else◌, ◌==◌,
}
use soii_ipc.Base.Text.{codes}
use soii_ipc.Base.Words.{increment}

abbrev pub queue_name : List ℕ
queue_name = codes "/mq_DM_prod"

abbrev pub queue_maxmsg : ℕ
queue_maxmsg = 16

-- The octal 0666.
abbrev pub queue_perms : ℕ
queue_perms = 438

-- `msg_producer_t`; `content` is the 40 bytes of the union `data`.
pub record Message : Type 0 where
  pub id : ℕ
  pub timestamp : ℕ
  pub content : List ℕ

-- What a producer does to the world, in the order done. `delivered` and `refused` are `mq_send`, by
-- its result, with the message and its priority.
pub data Call : Type 0 where
  install_handler flush complain : Call
  sleep : ℕ → Call
  open_queue : List ℕ → Call
  queue_opened : ℤ → Call
  delivered refused : Message → ℕ → Call
  announced : ℕ → Call
  wrote : List ℕ → Call
  close_queue : ℤ → Call
  exit : ℕ → Call

-- `*mqd < 0` and `*mqd == -1`
abbrev pub is_negative : ℤ → Bool
is_negative (pos n) = false
is_negative (negsuc n) = true

abbrev pub is_minus_one : ℤ → Bool
is_minus_one (pos n) = false
is_minus_one (negsuc n) = n == 0

-- The list holds what `mq_open` returns, in turn, and `calls` is what was done before. `none`: every
-- attempt has failed so far.
unfoldable pub join_existing_mq : List ℕ → List ℤ → List Call → Option (ℤ × List Call)
join_existing_mq name [] calls = none
join_existing_mq name (mqd ∷ results) calls =
    let opened = calls ++ open_queue name ∷ [] in
    let tried = if is_negative mqd then opened ++ complain ∷ sleep 2 ∷ [] else opened in
    let again = join_existing_mq name results tried in
    if is_minus_one mqd then again else some (mqd, tried ++ queue_opened mqd ∷ [])

-- `closed` is what `mq_close` returns. The text is written with its terminator.
unfoldable pub handle_sigterm : ℤ → ℤ → List Call
handle_sigterm mq closed =
    let notif = codes "Cerrando mqueue\n" ++ 0 ∷ [] in
    let written = wrote notif ∷ flush ∷ close_queue mq ∷ [] in
    (if is_minus_one closed then written ++ complain ∷ [] else written) ++ exit 0 ∷ []

-- A producer: its counter, an `int`, and what it has done.
pub record Producer : Type 0 where
  pub count : ℕ
  pub calls : List Call

abbrev pub perform : List Call → Producer → Producer
perform calls p = record p { calls = p.calls ++ calls }

-- The end of a round: the message is sent, and `sent` tells whether the queue took it.
unfoldable pub post : Message → Bool → Producer → Producer
post m sent p = elim sent [
  | false ↦ perform (refused m 0 ∷ complain ∷ []) p
  | true ↦ record p {
    count = increment p.count;
    calls = p.calls ++ delivered m 0 ∷ announced p.count ∷ flush ∷ [];
  }
]

-- The beginning of a producer's `main`, up to its loop. `mq_open` returns the descriptors in turn.
unfoldable pub start_producer : List ℤ → Option Producer
start_producer results = elim (join_existing_mq queue_name results (install_handler ∷ [])) [
  | none ↦ none
  | some (mqd, calls) ↦ some (record { count = 1; calls = calls ++ queue_opened mqd ∷ [] })
]

-- `for (;;)`, for as many rounds as the list holds.
unfoldable pub repeat : {T : Type 0} → (T → Producer → Producer) → List T → Producer → Producer
repeat round [] p = p
repeat round (t ∷ ts) p = repeat round ts (round t p)

-- A producer's `main`. `none`: the queue was never there.
unfoldable pub produce :
    {T : Type 0} → (T → Producer → Producer) → List ℤ → List T → Option Producer
produce round results ts = elim (start_producer results) [
  | none ↦ none
  | some p ↦ some (repeat round ts p)
]
