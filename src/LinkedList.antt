-- ===== src/LinkedList.antt =====
-- server/src/list.c: a singly linked list that ends in an empty sentinel node. `fresh` is what
-- `calloc` returns, and each walk takes fuel. The `list_t` itself is a value that is passed along.
pub mod Basic
pub mod Append
pub mod Search
pub mod Removal
pub mod Release
pub mod Splitting
pub mod Arrays
pub mod Regions
pub mod Api
use soii_ipc.Base.{
  ℕ, Bool, false, zero, suc, ◌+◌, Option, none, some, List, [], ◌∷◌, ℤ, pos, negsuc, minus_one,
  is_zero, ◌==◌, if◌then◌else◌,
}
use soii_ipc.Heap.{
  Ptr, null, Node, node, Heap, Cmd, fault, exited, out_of_fuel, ok, pure, ◌>>=◌, ◌>>◌, load, fill,
  set_next, free_node, with_object, load_object,
}

-- `list_t`; a function pointer that was never set is NULL.
pub record LinkedList (O : Type 0) : Type 0 where
  pub head : Ptr
  pub free_data : Option (Ptr → Cmd O (Unit {0}))
  pub compare_data : Option (Ptr → Ptr → Cmd O ℤ)

-- `index == target_index` for a target that may be negative.
abbrev is_at : ℕ → ℤ → Bool
is_at i (negsuc t) = false
is_at i (pos t) = i == t

module _ {O : Type 0} where
  -- Calls through the two function pointers.
  abbrev pub call_free : Option (Ptr → Cmd O (Unit {0})) → Ptr → Cmd O (Unit {0})
  call_free none d h = fault
  call_free (some f) d h = f d h

  abbrev pub call_compare : Option (Ptr → Ptr → Cmd O ℤ) → Ptr → Ptr → Cmd O ℤ
  call_compare none d e h = fault
  call_compare (some f) d e h = f d e h

  abbrev pub move_head : LinkedList O → Ptr → LinkedList O
  move_head l p = record l { head = p }

  pub list_create : Ptr → Cmd O (LinkedList O)
  list_create fresh = do
    fill fresh (node null null)
    pure (record { head = fresh; free_data = none; compare_data = none })

  pub list_add_start : Ptr → Ptr → LinkedList O → Cmd O (LinkedList O)
  list_add_start fresh item l =
      if fresh == null
      then (λ h. exited)
      else do fill fresh (node l.head item); pure (move_head l fresh)

  -- `while (curr->next->next != NULL) curr = curr->next;`
  walk_to_last : ℕ → Ptr → Cmd O Ptr
  walk_to_last zero curr = λ h. out_of_fuel
  walk_to_last (suc k) curr = do
    n ← load curr
    m ← load n.next
    if m.next == null then pure curr else walk_to_last k n.next

  pub list_add_last : ℕ → Ptr → Ptr → LinkedList O → Cmd O (LinkedList O)
  unfolding walk_to_last
  list_add_last fuel fresh item l = do
    fill fresh (node null item)
    head ← load l.head
    if head.next == null then (do set_next fresh l.head; pure (move_head l fresh)) else (do
      curr ← walk_to_last fuel l.head
      last ← load curr
      set_next fresh last.next
      set_next curr fresh
      pure l)

  find_loop : LinkedList O → Ptr → ℕ → ℕ → Ptr → Cmd O ℤ
  find_loop l item zero i curr = λ h. out_of_fuel
  find_loop l item (suc k) i curr = do
    n ← load curr
    if n.next == null then pure minus_one else do
      r ← call_compare l.compare_data item n.item
      if is_zero r then pure (pos i) else find_loop l item k (i + 1) n.next

  pub list_find : ℕ → Ptr → LinkedList O → Cmd O ℤ
  unfolding find_loop
  list_find fuel item l = find_loop l item fuel 0 l.head

  get_loop : ℕ → ℕ → ℕ → Ptr → Cmd O Ptr
  get_loop target zero i curr = λ h. out_of_fuel
  get_loop target (suc k) i curr = do
    n ← load curr
    if n.next == null
        then pure null
        else (if i == target then pure n.item else get_loop target k (i + 1) n.next)

  pub list_get : ℕ → ℤ → LinkedList O → Cmd O Ptr
  unfolding get_loop
  list_get fuel (negsuc t) l = pure null
  list_get fuel (pos t) l = get_loop t fuel 0 l.head

  delete_loop : LinkedList O → ℕ → ℕ → ℕ → Ptr → Ptr → Cmd O ℤ
  delete_loop l target zero i prev curr = λ h. out_of_fuel
  delete_loop l target (suc k) i prev curr = do
    n ← load curr
    if n.next == null
        then pure minus_one
        else (if i == target
            then (do
              set_next prev n.next
              call_free l.free_data n.item
              free_node curr
              pure (pos 1))
            else delete_loop l target k (i + 1) curr n.next)

  -- `prev` is unset before the loop's first round, which never uses it: `i` is 0 there and the
  -- target is not.
  pub list_delete : ℕ → ℤ → LinkedList O → Cmd O (ℤ × LinkedList O)
  unfolding delete_loop
  list_delete fuel (negsuc t) l = pure (minus_one, l)
  list_delete fuel (pos t) l = do
    old ← load l.head
    if old.next == null
        then pure (minus_one, l)
        else (if t == 0
            then (do
              call_free l.free_data old.item
              free_node l.head
              pure (pos 1, move_head l old.next))
            else (do r ← delete_loop l t fuel 0 null l.head; pure (r, l)))

  -- `calloc` of a node that is not looked at again.
  abbrev fill_unless_null : Ptr → Node → Cmd O (Unit {0})
  fill_unless_null p n = if p == null then pure tt else fill p n

  slice_loop : Ptr → ℤ → ℕ → ℕ → Ptr → Ptr → Cmd O (Option (LinkedList O))
  slice_loop fresh target zero index prev curr = λ h. out_of_fuel
  slice_loop fresh target (suc k) index prev curr = do
    n ← load curr
    if n.next == null
        then pure none
        else (if is_at index target
            then (do
              fill_unless_null fresh (node null null)
              set_next prev fresh
              pure (some (record { head = curr; free_data = none; compare_data = none })))
            else slice_loop fresh target k (index + 1) curr n.next)

  -- `fresh` becomes the sentinel of the front part. The new `list_t` has no function pointers.
  pub list_slice : ℕ → Ptr → ℤ → LinkedList O → Cmd O (Option (LinkedList O))
  unfolding slice_loop
  list_slice fuel fresh target l =
      if is_at 0 target then pure none else slice_loop fresh target fuel 0 null l.head

  free_loop : LinkedList O → ℕ → Ptr → Cmd O (Unit {0})
  free_loop l zero curr = λ h. out_of_fuel
  free_loop l (suc k) curr = do
    n ← load curr
    if n.next == null
        then free_node curr
        else (do call_free l.free_data n.item; free_node curr; free_loop l k n.next)

  -- The `list_t` that is freed last is not a cell of this heap.
  pub list_free : ℕ → LinkedList O → Cmd O (Unit {0})
  unfolding free_loop
  list_free fuel l = free_loop l fuel l.head
