-- ===== src/Heap/Returns.antt =====
-- Total correctness of a run on the heap: it neither faults, exits nor runs out of fuel, and ends
-- with its postcondition.
use soii_ipc.Heap.{Heap, Run, ok, Cmd, and_then}

pub data Returns {O A : Type 0} (P : A → Heap O → Type 0) : Run O A → Type 0 where
  returns : {a : A} {h : Heap O} → P a h → Returns P (ok a h)

module _ {O A : Type 0} {P : A → Heap O → Type 0} where
  pub bind :
      {B : Type 0} {Q : B → Heap O → Type 0} {r : Run O A} {k : A → Cmd O B}
      → Returns P r
      → ((a : A) (h : Heap O) → P a h → Returns Q (k a h))
      → Returns Q (and_then r k)
  bind (returns p) next = next _ _ p

  pub mono :
      {Q : A → Heap O → Type 0} {r : Run O A}
      → Returns P r
      → ((a : A) (h : Heap O) → P a h → Q a h)
      → Returns Q r
  mono (returns p) weaken = returns (weaken _ _ p)
