-- ===== src/Producers/RandomText/Endless.antt =====
-- No message of the random producer has a terminator: the server reads past the end of each.

use soii_ipc.Base.{
  ℕ, zero, suc, ◌+◌, ◌%◌, ◌^◌, ◌<◌, ◌≡◌, ◌≢◌, refl, sym, ◌∙◌, List, [], ◌∷◌, ◌++◌, none, some, ℤ,
  arith, length, get_elem?, inl, inr, Option-cases,
}
use soii_ipc.Queue.{Message, complain, sleep, Producer, perform}
use soii_ipc.Queue.Deliveries.{
  AllDelivered, AllDelivered-append, post-AllDelivered, produce-AllDelivered,
}
use soii_ipc.Server.{Server}
use soii_ipc.Server.Messages.{Printf, handle_message}
use soii_ipc.Server.Messages.Delivery.{NoZero, handle_message-NoZero}
use soii_ipc.Protocol.{Md5}
use soii_ipc.Producers.RandomText.{
  Random, letters, choices, char_at, fill_from, gen_rand_msg, Tick, random_message, round, main,
}

-- An entry of a table's front that holds no terminator.
front-ne_zero :
    (bs ys : List ℕ) (k : ℕ)
    → NoZero bs
    → k < length bs
    → (c : ℕ) × (get_elem? (bs ++ ys) k ≡ some c) × (c ≢ 0)
front-ne_zero [] ys k nz h = absurd (omega arith)
front-ne_zero (b ∷ bs) ys zero (ne, nz) h = (b, refl, ne)
front-ne_zero (b ∷ bs) ys (suc k) (ne, nz) h = front-ne_zero bs ys k nz (omega arith)

letters-NoZero : NoZero letters
letters-NoZero = omega arith

char_at-ne-zero : (k : ℕ) → k < choices → char_at k ≢ 0
char_at-ne-zero k h =
    let (c, at, ne) = front-ne_zero letters (0 ∷ []) k letters-NoZero h in λ e. ne (sym (rw at) ∙ e)

module _ ⦃random : Random⦄ where
  fill_from-NoZero : (seed index n : ℕ) → NoZero (fill_from seed index n)
  unfolding fill_from
  fill_from-NoZero seed index zero = tt
  fill_from-NoZero seed index (suc n) = (
    char_at-ne-zero (random.rand seed index % choices) (omega arith),
    fill_from-NoZero seed (index + 1) n,
  )

  round-AllDelivered :
      (P : Message → Type 0)
      → ((now : ℕ) (text : List ℕ) → NoZero text → P (random_message now text))
      → (t : Tick) (p : Producer) → AllDelivered P p.calls
      → AllDelivered P (round t p).calls
  unfolding round gen_rand_msg
  round-AllDelivered P fits t p all =
      let slept = AllDelivered-append P p.calls (sleep 4 ∷ []) all (tt, tt) in
      elim (Option-cases t.time) [
        | inl no_time ↦ rw (no_time, round) slept
        | inr (now, at) ↦ elim (Option-cases t.seed) [
          | inl no_seed ↦
              rw (at, no_seed, round)
                (AllDelivered-append P (p.calls ++ sleep 4 ∷ []) (complain ∷ []) slept (tt, tt))
          | inr (seed, has) ↦
              rw (at, has, round)
                (post-AllDelivered P _ t.sent (perform (sleep 4 ∷ []) p)
                  (fits now _ (fill_from-NoZero (seed % 2 ^ 32) 0 40)) slept)
        ]
      ]

  -- Every message that the random producer ever puts into the queue makes the server, in any state,
  -- read past the end of the message.
  pub main-fatal :
      ⦃md5 : Md5⦄ ⦃printf : Printf⦄ (results : List ℤ) (ts : List Tick) (p : Producer)
      → main results ts ≡ some p
      → AllDelivered (λ m. (s : Server) → handle_message m s ≡ none) p.calls
  unfolding main
  main-fatal results ts p e =
      let P : Message → Type 0 = λ m. (s : Server) → handle_message m s ≡ none in
      produce-AllDelivered P round
        (round-AllDelivered P
          (λ now text nz s. handle_message-NoZero (random_message now text) s refl nz))
        results ts p e
