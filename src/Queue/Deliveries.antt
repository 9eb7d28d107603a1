-- ===== src/Queue/Deliveries.antt =====
-- What reaches the queue, among all that a producer does.
use mathlib.Core.Option.{some-injective}
use soii_ipc.Base.{
  ◌==◌, ℕ, ◌+◌, ◌%◌, ◌^◌, ◌≡◌, refl, sym, ap, subst, ◌∙◌, Bool, true, false, inl, inr, List, [],
  ◌∷◌, ◌++◌, Option, none, some, ℤ, arith, Bool-cases, Option-cases, pos, negsuc,
}
use soii_ipc.Queue.{
  Message, Call, install_handler, flush, complain, sleep, open_queue, queue_opened, delivered,
  refused, announced, Producer, post, start_producer, repeat, produce, join_existing_mq, queue_name,
}

-- The message that a call puts into the queue.
abbrev pub message_of : Call → Option Message
message_of (delivered m prio) = some m
message_of _ = none

abbrev pub Fits : (Message → Type 0) → Option Message → Type 0
Fits P none = Unit {0}
Fits P (some m) = P m

-- Every message that was put into the queue has the property.
abbrev pub AllDelivered : (Message → Type 0) → List Call → Type 0
AllDelivered P [] = Unit {0}
AllDelivered P (c ∷ cs) = Fits P (message_of c) × AllDelivered P cs

abbrev pub weight : Option Message → ℕ
weight none = 0
weight (some m) = 1

-- How many were put there.
abbrev pub deliveries : List Call → ℕ
deliveries [] = 0
deliveries (c ∷ cs) = weight (message_of c) + deliveries cs

pub AllDelivered-append :
    (P : Message → Type 0) (cs ds : List Call)
    → AllDelivered P cs
    → AllDelivered P ds
    → AllDelivered P (cs ++ ds)
AllDelivered-append P [] ds all all' = all'
AllDelivered-append P (c ∷ cs) ds (here, all) all' = (here, AllDelivered-append P cs ds all all')

pub deliveries-append : (cs ds : List Call) → deliveries (cs ++ ds) ≡ deliveries cs + deliveries ds
deliveries-append [] ds = omega arith
deliveries-append (c ∷ cs) ds = omega (arith, deliveries-append cs ds)

-- The counter of a producer tells how many messages it has sent, beginning at 1.
abbrev pub Counts : Producer → Type 0
Counts p = p.count ≡ (1 + deliveries p.calls) % 2 ^ 32

pub post-AllDelivered :
    (P : Message → Type 0) (m : Message) (sent : Bool) (p : Producer)
    → P m
    → AllDelivered P p.calls
    → AllDelivered P (post m sent p).calls
unfolding post
post-AllDelivered P m true p fits all = AllDelivered-append P p.calls _ all (fits, (tt, (tt, tt)))
post-AllDelivered P m false p fits all = AllDelivered-append P p.calls _ all (tt, (tt, tt))

pub post-Counts : (m : Message) (sent : Bool) (p : Producer) → Counts p → Counts (post m sent p)
unfolding post
post-Counts m true p counts =
    omega
      (arith, counts, deliveries-append p.calls (delivered m 0 ∷ announced p.count ∷ flush ∷ []))
post-Counts m false p counts =
    omega (arith, counts, deliveries-append p.calls (refused m 0 ∷ complain ∷ []))

-- Nothing is sent before the queue is joined.
join_existing_mq-deliveries :
    (name : List ℕ) (results : List ℤ) (cs : List Call) (mqd : ℤ) (ds : List Call)
    → deliveries cs ≡ 0
    → join_existing_mq name results cs ≡ some (mqd, ds)
    → deliveries ds ≡ 0
unfolding join_existing_mq
join_existing_mq-deliveries name [] cs mqd ds h e = cc
join_existing_mq-deliveries name (negsuc n ∷ results) cs mqd ds h e =
    let opened = cs ++ open_queue name ∷ [] in
    let tried = opened ++ complain ∷ sleep 2 ∷ [] in
    let silent : deliveries tried ≡ 0 = omega (
      arith,
      deliveries-append opened (complain ∷ sleep 2 ∷ []),
      deliveries-append cs (open_queue name ∷ []),
    ) in
    elim (Bool-cases (n == 0)) [
      | inl again ↦
          join_existing_mq-deliveries name results tried mqd ds silent (sym (rw again) ∙ e)
      | inr other ↦
          let out : ℤ × List Call = (negsuc n, tried ++ queue_opened (negsuc n) ∷ []) in
          let gave : join_existing_mq name (negsuc n ∷ results) cs ≡ some out = rw other in
          let e' : out.1 ≡ ds =
            ap (λ (r : ℤ × List Call). r.1) (some-injective out (mqd, ds) (sym gave ∙ e)) in
          omega (arith, ap deliveries e', deliveries-append tried (queue_opened (negsuc n) ∷ []))
    ]
join_existing_mq-deliveries name (pos n ∷ results) cs mqd ds h e =
    let opened = cs ++ open_queue name ∷ [] in
    let e' : opened ++ queue_opened (pos n) ∷ [] ≡ ds =
      ap (λ (r : ℤ × List Call). r.1) (some-injective _ _ e) in
    omega (
      arith,
      ap deliveries e',
      deliveries-append opened (queue_opened (pos n) ∷ []),
      deliveries-append cs (open_queue name ∷ []),
    )

pub AllDelivered-of_none :
    (P : Message → Type 0) (cs : List Call) → deliveries cs ≡ 0 → AllDelivered P cs
AllDelivered-of_none P [] e = tt
AllDelivered-of_none P (c ∷ cs) e = elim (Option-cases (message_of c)) [
  | inl silent ↦ (subst (Fits P) (sym silent) tt, AllDelivered-of_none P cs (omega arith))
  | inr (m, loud) ↦
      let one : weight (message_of c) ≡ 1 = ap weight loud in absurd (omega (arith, one, e))
]

pub start_producer-deliveries :
    (results : List ℤ) (p : Producer)
    → start_producer results ≡ some p
    → (deliveries p.calls ≡ 0) × (p.count ≡ 1)
unfolding start_producer
start_producer-deliveries results p e =
    elim (Option-cases (join_existing_mq queue_name results (install_handler ∷ []))) [
      | inl never ↦ cc
      | inr ((mqd, cs), joined) ↦
          let out : Producer = record { count = 1; calls = cs ++ queue_opened mqd ∷ [] } in
          let gave : start_producer results ≡ some out = rw (joined, start_producer) in
          let e' : out ≡ p = some-injective out p (sym gave ∙ e) in
          (
            omega (
              arith,
              ap (λ (q : Producer). deliveries q.calls) e',
              deliveries-append cs (queue_opened mqd ∷ []),
              join_existing_mq-deliveries queue_name results (install_handler ∷ []) mqd cs refl
                  joined,
            ),
            ap (λ (q : Producer). q.count) (sym e'),
          )
    ]

module _ {T : Type 0} (P : Producer → Type 0) (round : T → Producer → Producer)
    (keep : (t : T) (p : Producer) → P p → P (round t p)) where
  -- What every round keeps, a run keeps.
  repeat_keeps : (ts : List T) (p : Producer) → P p → P (repeat round ts p)
  unfolding repeat
  repeat_keeps [] p h = h
  repeat_keeps (t ∷ ts) p h = repeat_keeps ts (round t p) (keep t p h)

  pub produce_keeps :
      ((p : Producer) → deliveries p.calls ≡ 0 → p.count ≡ 1 → P p)
      → (results : List ℤ) (ts : List T) (p : Producer) → produce round results ts ≡ some p
      → P p
  unfolding produce
  produce_keeps begin results ts p e = elim (Option-cases (start_producer results)) [
    | inl never ↦ let gave : produce round results ts ≡ none = rw (never, produce) in cc
    | inr (q, started) ↦
        let gave : produce round results ts ≡ some (repeat round ts q) = rw (started, produce) in
        let (silent, one) = start_producer-deliveries results q started in
        subst P (some-injective (repeat round ts q) p (sym gave ∙ e))
          (repeat_keeps ts q (begin q silent one))
  ]

-- A round that keeps the count: the counter tells how many messages were sent in a whole run.
pub produce-Counts :
    {T : Type 0} (round : T → Producer → Producer)
    → ((t : T) (p : Producer) → Counts p → Counts (round t p))
    → (results : List ℤ) (ts : List T) (p : Producer) → produce round results ts ≡ some p
    → Counts p
produce-Counts round keep =
    produce_keeps Counts round keep (λ p silent one. omega (arith, silent, one))

pub produce-AllDelivered :
    {T : Type 0} (P : Message → Type 0) (round : T → Producer → Producer)
    → ((t : T) (p : Producer) → AllDelivered P p.calls → AllDelivered P (round t p).calls)
    → (results : List ℤ) (ts : List T) (p : Producer) → produce round results ts ≡ some p
    → AllDelivered P p.calls
produce-AllDelivered P round keep =
    produce_keeps (λ p. AllDelivered P p.calls) round keep
      (λ p silent one. AllDelivered-of_none P p.calls silent)
