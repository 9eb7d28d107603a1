-- ===== src/Heap.antt =====
-- Memory as server/src/list.c sees it: the nodes that `calloc` hands out, the objects that their
-- `data` pointers name, and commands that read and write both.
pub mod Chain
pub mod Returns
use soii_ipc.Base.{ℕ, Option, none, some, ◌==◌, if◌then◌else◌}

abbrev pub Ptr : Type 0
Ptr = ℕ

abbrev pub null : Ptr
null = 0

-- `struct node_t`; the field `data` of the source is called `item` here.
pub record Node : Type 0 where
  pub next : Ptr
  pub item : Ptr

abbrev pub node : Ptr → Ptr → Node
node q d = record { next = q; item = d }

-- `O` is the type of the objects that a list holds.
pub record Heap (O : Type 0) : Type 0 where
  pub nodes : Ptr → Option Node
  pub objects : Ptr → Option O

-- `fault` is undefined behaviour: NULL or a freed cell is used. `exited` is a call of `exit`.
pub data Run (O A : Type 0) : Type 0 where
  ok : A → Heap O → Run O A
  fault : Run O A
  exited : Run O A
  out_of_fuel : Run O A

abbrev pub Cmd : Type 0 → Type 0 → Type 0
Cmd O A = Heap O → Run O A

abbrev pub update {ℓ} : {C : Type ℓ} → (Ptr → Option C) → Ptr → Option C → Ptr → Option C
update f p c a = if a == p then c else f a

module _ {O : Type 0} where
  abbrev pub pure : {A : Type 0} → A → Cmd O A
  pure = ok

  abbrev pub and_then : {A B : Type 0} → Run O A → (A → Cmd O B) → Run O B
  and_then (ok a h) k = k a h
  and_then fault k = fault
  and_then exited k = exited
  and_then out_of_fuel k = out_of_fuel

  infixl 5 ◌>>=◌ ◌>>◌
  abbrev pub ◌>>=◌ : {A B : Type 0} → Cmd O A → (A → Cmd O B) → Cmd O B
  m >>= k = λ h. and_then (m h) k

  abbrev pub ◌>>◌ : {A B : Type 0} → Cmd O A → Cmd O B → Cmd O B
  m >> n = m >>= λ _. n

  abbrev pub with_node : Heap O → Ptr → Option Node → Heap O
  with_node h p c = record h { nodes = update h.nodes p c }

  abbrev pub with_object : Heap O → Ptr → Option O → Heap O
  with_object h p c = record h { objects = update h.objects p c }

  -- `*p`: a fault at NULL and at an address that holds no node.
  unfoldable pub load : Ptr → Cmd O Node
  load p h = if p == null then fault else elim (h.nodes p) [ none ↦ fault | some n ↦ ok n h ]

  -- What `calloc` returned is filled; writing through NULL is a fault.
  unfoldable pub fill : Ptr → Node → Cmd O (Unit {0})
  fill p n h = if p == null then fault else ok tt (with_node h p (some n))

  -- `p->next = q`
  unfoldable pub set_next : Ptr → Ptr → Cmd O (Unit {0})
  unfolding load
  set_next p q = do n ← load p; (λ h. ok tt (with_node h p (some (node q n.item))))

  -- `free` of a node
  unfoldable pub free_node : Ptr → Cmd O (Unit {0})
  unfolding load
  free_node p = do n ← load p; (λ h. ok tt (with_node h p none))

  -- `*data`: a fault at NULL and at an address that holds no object.
  unfoldable pub load_object : Ptr → Cmd O O
  load_object p h =
      if p == null then fault else elim (h.objects p) [ none ↦ fault | some x ↦ ok x h ]

  -- `free` of an object
  unfoldable pub free_object : Ptr → Cmd O (Unit {0})
  unfolding load_object
  free_object p = do x ← load_object p; (λ h. ok tt (with_object h p none))
