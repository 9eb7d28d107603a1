-- ===== src/Queue/Sent.antt =====
-- The messages that the queue took from a producer, in order.
use mathlib.Core.Option.{some-injective}
use soii_ipc.Base.{
  ℕ, ◌≡◌, refl, sym, ap, subst, ◌∙◌, Bool, true, false, List, [], ◌∷◌, ◌++◌, append-nil,
  append_assoc, Option, none, some, ℤ, inl, inr, Option-cases, arith, map, if◌then◌else◌,
}
use soii_ipc.Queue.{Message, Call, Producer, post, start_producer, repeat, produce}
use soii_ipc.Queue.Deliveries.{message_of, weight, deliveries, start_producer-deliveries}

abbrev pub to_list {ℓ} : {A : Type ℓ} → Option A → List A
to_list none = []
to_list (some x) = x ∷ []

abbrev pub messages : List Call → List Message
messages [] = []
messages (c ∷ cs) = to_list (message_of c) ++ messages cs

pub messages-append : (cs ds : List Call) → messages (cs ++ ds) ≡ messages cs ++ messages ds
messages-append [] ds = refl
messages-append (c ∷ cs) ds =
    ap (λ ms. to_list (message_of c) ++ ms) (messages-append cs ds)
    ∙ sym (append_assoc (to_list (message_of c)) (messages cs) (messages ds))

-- Calls that put nothing into the queue.
pub messages-silent : (cs ds : List Call) → deliveries ds ≡ 0 → messages (cs ++ ds) ≡ messages cs
messages-silent cs ds silent =
    messages-append cs ds
    ∙ ap (λ ms. messages cs ++ ms) (quiet ds silent)
    ∙ append-nil (messages cs)
  where
    quiet : (es : List Call) → deliveries es ≡ 0 → messages es ≡ []
    quiet [] e = refl
    quiet (c ∷ es) e = elim (Option-cases (message_of c)) [
      | inl silent ↦ rw silent (quiet es (omega arith))
      | inr (m, loud) ↦
          let one : weight (message_of c) ≡ 1 = ap weight loud in absurd (omega (arith, one, e))
    ]

pub messages-post :
    (m : Message) (sent : Bool) (p : Producer)
    → messages (post m sent p).calls ≡ messages p.calls ++ (if sent then m ∷ [] else [])
unfolding post
messages-post m true p = messages-append p.calls _
messages-post m false p = messages-append p.calls _

-- A time and a number, if both are there and the queue takes the message.
abbrev pub at_time : Option ℕ → Option ℕ → Bool → Option (ℕ × ℕ)
at_time none v sent = none
at_time (some now) none sent = none
at_time (some now) (some v) false = none
at_time (some now) (some v) true = some (now, v)

pub at_time-value :
    (time v : Option ℕ) (sent : Bool) (now n : ℕ) → at_time time v sent ≡ some (now, n) → v ≡ some n
at_time-value none v sent now n e = cc
at_time-value (some time) none sent now n e = cc
at_time-value (some time) (some v) false now n e = cc
at_time-value (some time) (some v) true now n e =
    ap (λ (r : ℕ × ℕ). some r.1) (some-injective (time, v) (now, n) e)

-- What the rounds have to report, in order: a time and a number each, if anything.
abbrev pub reports : {T : Type 0} → (T → Option (ℕ × ℕ)) → List T → List (ℕ × ℕ)
reports reading [] = []
reports reading (t ∷ ts) = to_list (reading t) ++ reports reading ts

map-append : {A B : Type 0} (f : A → B) (xs ys : List A) → map f (xs ++ ys) ≡ map f xs ++ map f ys
map-append f [] ys = refl
map-append f (x ∷ xs) ys = ap (◌∷◌ (f x)) (map-append f xs ys)

module _ {T : Type 0} (round : T → Producer → Producer) (reading : T → Option (ℕ × ℕ))
    (made : ℕ × ℕ → Message)
    (step : (t : T) (p : Producer)
      → messages (round t p).calls ≡ messages p.calls ++ map made (to_list (reading t))) where
  repeat-messages :
      (ts : List T) (p : Producer)
      → messages (repeat round ts p).calls ≡ messages p.calls ++ map made (reports reading ts)
  unfolding repeat
  repeat-messages [] p = sym (append-nil (messages p.calls))
  repeat-messages (t ∷ ts) p =
      repeat-messages ts (round t p)
      ∙ ap (λ ms. ms ++ map made (reports reading ts)) (step t p)
      ∙ append_assoc (messages p.calls) (map made (to_list (reading t))) _
      ∙ ap (λ ms. messages p.calls ++ ms)
          (sym (map-append made (to_list (reading t)) (reports reading ts)))

  -- Each round puts its report into the queue, if it has one.
  pub produce-messages :
      (results : List ℤ) (ts : List T) (p : Producer)
      → produce round results ts ≡ some p
      → messages p.calls ≡ map made (reports reading ts)
  unfolding produce
  produce-messages results ts p e = elim (Option-cases (start_producer results)) [
    | inl never ↦ let gave : produce round results ts ≡ none = rw (never, produce) in cc
    | inr (q, started) ↦
        let gave : produce round results ts ≡ some (repeat round ts q) = rw (started, produce) in
        let (silent, one) = start_producer-deliveries results q started in
        subst (λ (r : Producer). messages r.calls ≡ map made (reports reading ts))
          (some-injective (repeat round ts q) p (sym gave ∙ e))
          (repeat-messages ts q
            ∙ ap (λ ms. ms ++ map made (reports reading ts)) (messages-silent [] q.calls silent))
  ]

-- The messages of one list tell the reports of another, one by one.
abbrev pub Tells : (Message → ℕ × ℕ → Type 0) → List Message → List (ℕ × ℕ) → Type 0
Tells R [] [] = Unit {0}
Tells R (m ∷ ms) (r ∷ rs) = R m r × Tells R ms rs
Tells R [] (r ∷ rs) = ⊥
Tells R (m ∷ ms) [] = ⊥

pub Tells-map :
    {T : Type 0} (R : Message → ℕ × ℕ → Type 0) (reading : T → Option (ℕ × ℕ))
    (made : ℕ × ℕ → Message)
    → ((t : T) (r : ℕ × ℕ) → reading t ≡ some r → R (made r) r)
    → (ts : List T) → Tells R (map made (reports reading ts)) (reports reading ts)
Tells-map R reading made each [] = tt
Tells-map R reading made each (t ∷ ts) = elim (Option-cases (reading t)) [
  | inl nothing ↦ rw nothing (Tells-map R reading made each ts)
  | inr (r, is) ↦ rw is (each t r is, Tells-map R reading made each ts)
]
