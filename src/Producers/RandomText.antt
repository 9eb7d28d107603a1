-- ===== src/Producers/RandomText.antt =====
-- productores/src/prod_rand_msg.c.
pub mod Endless
use soii_ipc.Base.{
  ℕ, zero, suc, ◌+◌, ◌-◌, ◌%◌, ◌^◌, Bool, List, [], ◌∷◌, ◌++◌, Option, none, some, ℤ, length,
  get_elem?,
}
use soii_ipc.Base.Text.{codes}
use soii_ipc.Queue.{Message, complain, sleep, Producer, perform, post, produce}

-- What the code relies on of `srand` and `rand`: the results after a seed, in turn. They may be any.
pub record Random : Type 0 where
  pub rand : ℕ → ℕ → ℕ

abbrev pub letters : List ℕ
letters = codes "abcdefghijklmnopqrstuvwxyzABCDEFGHIJKLMNOPQRSTUVWXYZ0123456789/,.-+=~`<>:"

-- With the terminator that a string has.
abbrev pub char1 : List ℕ
char1 = letters ++ 0 ∷ []

-- `sizeof char1 - 1`
abbrev pub choices : ℕ
choices = length char1 - 1

-- `char1[k]`; the index is always inside.
abbrev pub char_at : ℕ → ℕ
char_at k = elim (get_elem? char1 k) [ none ↦ 0 | some c ↦ c ]

-- What a round meets: two readings of the time, and whether the queue takes the message.
pub record Tick : Type 0 where
  pub time : Option ℕ
  pub seed : Option ℕ
  pub sent : Bool

abbrev pub random_message : ℕ → List ℕ → Message
random_message now text = record { id = 1; timestamp = now; content = text }

module _ ⦃random : Random⦄ where
  -- The loop from `index` on, with `n` rounds left.
  unfoldable pub fill_from : ℕ → ℕ → ℕ → List ℕ
  fill_from seed index zero = []
  fill_from seed index (suc n) =
      char_at (random.rand seed index % choices) ∷ fill_from seed (index + 1) n

  -- What `time` gave, and the size of the buffer. `none` is the result -1.
  unfoldable pub gen_rand_msg : Option ℕ → ℕ → Option (List ℕ)
  gen_rand_msg none buf_len = none
  gen_rand_msg (some my_seed) buf_len = some (fill_from (my_seed % 2 ^ 32) 0 buf_len)

  unfoldable pub round : Tick → Producer → Producer
  round t p =
      let slept = perform (sleep 4 ∷ []) p in
      elim t.time [
        | none ↦ slept
        | some now ↦ elim (gen_rand_msg t.seed 40) [
          | none ↦ perform (complain ∷ []) slept
          | some text ↦ post (random_message now text) t.sent slept
        ]
      ]

  unfoldable pub main : List ℤ → List Tick → Option Producer
  main = produce round
