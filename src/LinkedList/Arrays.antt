-- ===== src/LinkedList/Arrays.antt =====
-- server/src/list.c: lists from arrays and arrays from lists.
pub mod Copies
pub mod Items
use soii_ipc.Base.{ℕ, zero, suc, Bool, List, [], ◌∷◌, Option, none, some, ◌==◌, if◌then◌else◌}
use soii_ipc.Heap.{
  Ptr, null, Cmd, fault, exited, out_of_fuel, ok, pure, ◌>>=◌, ◌>>◌, load, load_object, with_object,
}
use soii_ipc.LinkedList.{LinkedList, list_create, list_add_last}

module _ {O : Type 0} where
  -- The pointers of an array up to its NULL, each with what `calloc` returns for its node.
  add_all : ℕ → List (Ptr × Ptr) → LinkedList O → Cmd O (LinkedList O)
  add_all fuel [] l = pure l
  add_all fuel ((item, fresh) ∷ rest) l =
      if item == null
      then pure l
      else (do longer ← list_add_last fuel fresh item l; add_all fuel rest longer)

  -- The array that is freed at the end is not a cell of this heap.
  unfoldable pub list_create_from_array : ℕ → Ptr → List (Ptr × Ptr) → Cmd O (LinkedList O)
  unfolding add_all
  list_create_from_array fuel fresh array = do l ← list_create fresh; add_all fuel array l

-- The memory of an array: its slots, uninitialised or with a pointer; NULL has none. `realloc` keeps
-- the slots that fit, and adds others.
unfoldable pub resize : ℕ → List (Option Ptr) → List (Option Ptr)
resize zero slots = []
resize (suc n) [] = none ∷ resize n []
resize (suc n) (x ∷ slots) = x ∷ resize n slots

module _ {O : Type 0} where
  -- `array[i] = p`: a fault outside the array's memory.
  unfoldable pub store : ℕ → Ptr → List (Option Ptr) → Cmd O (List (Option Ptr))
  store i p [] = λ h. fault
  store zero p (x ∷ slots) = pure (some p ∷ slots)
  store (suc i) p (x ∷ slots) = do more ← store i p slots; pure (x ∷ more)

-- The first bytes of an object, as many as the number says, or nothing if the object has fewer.
abbrev pub Prefix : Type 0 → Type 0
Prefix O = ℕ → O → Option O

module _ {O : Type 0} where
  -- `memcpy` of `data_size` bytes of an object to what `malloc(data_size)` returned: a fault at NULL
  -- and behind the object's end.
  unfoldable pub copy_object : Prefix O → ℕ → Ptr → Ptr → Cmd O (Unit {0})
  copy_object bytes data_size target source = do
    x ← load_object source
    if target == null then (λ h. fault) else elim (bytes data_size x) [
      | none ↦ λ h. fault
      | some y ↦ λ h. ok tt (with_object h target (some y))
    ]

  array_loop :
      Prefix O → ℕ → List (Bool × Ptr) → ℕ → List (Option Ptr) → Ptr → Cmd O (List (Option Ptr))
  array_loop bytes data_size [] i array curr = do
    n ← load curr
    if n.next == null then store i null array else (λ h. out_of_fuel)
  array_loop bytes data_size ((grown, ptr) ∷ rest) i array curr = do
    n ← load curr
    if n.next == null
        then store i null array
        else (if grown
            then (do
              copy_object bytes data_size ptr n.item
              stored ← store i ptr (resize (suc (suc i)) array)
              array_loop bytes data_size rest (suc i) stored n.next)
            else (λ h. exited))

  -- Whether the first `malloc` succeeds, whether `realloc` does and what `malloc` returns, in turn. The
  -- result is the array's memory.
  unfoldable pub list_to_array :
      Prefix O → Bool → List (Bool × Ptr) → LinkedList O → ℕ → Cmd O (List (Option Ptr))
  unfolding array_loop
  list_to_array bytes allocated memory l data_size =
      array_loop bytes data_size memory 0 (if allocated then none ∷ [] else []) l.head
