-- ===== src/Tests/Lists.antt =====
-- The linked list's theorems on a list of two items.
use soii_ipc.Base.{
  ltb, ◌%◌, ◌^◌, true, Bool, List, ℕ, ◌≡◌, refl, ◌||◌, [], ◌∷◌, ◌++◌, some, none, arith, ◌==◌,
  if◌then◌else◌, ℤ, pos, minus_one,
}
use soii_ipc.Seq.{get, find, delete}
use soii_ipc.Heap.{Ptr, node, Heap, ok, free_object}
use soii_ipc.Heap.Returns.{Returns}
use soii_ipc.Heap.Chain.{Cells, has, items}
use soii_ipc.LinkedList.{LinkedList, list_add_last, list_delete, list_find, list_slice, list_free}
use soii_ipc.LinkedList.Basic.{IsList}
use soii_ipc.LinkedList.Append.{list_add_last-append}
use soii_ipc.LinkedList.Search.{list_find-find}
use soii_ipc.LinkedList.Removal.{Owned, free_at, list_delete-delete}
use soii_ipc.LinkedList.Release.{holds_item, list_free-Freed}
use soii_ipc.LinkedList.Arrays.Items.{list_create_from_array-items}
use soii_ipc.LinkedList.Arrays.{list_create_from_array, list_to_array, Prefix}
use soii_ipc.LinkedList.Arrays.Copies.{Copied, list_to_array-copies}
use soii_ipc.LinkedList.Splitting.{list_slice-cut}

-- Two numbers behind the pointers 20 and 21, in the nodes 2 and 3; the sentinel is node 1.
abbrev memory : Heap ℕ
memory = record {
  nodes = λ p.
      if p == 1
      then some (node 0 0)
      else (if p == 2 then some (node 3 20) else (if p == 3 then some (node 1 21) else none));
  objects = λ p. if p == 20 then some 7 else (if p == 21 then some 8 else none);
}

-- Compares the pointers.
abbrev same_pointer : Ptr → Ptr → ℤ
same_pointer d e = if d == e then pos 0 else minus_one

abbrev pair : LinkedList ℕ
pair = record {
  head = 2;
  free_data = some free_object;
  compare_data = some (λ d e h. ok (same_pointer d e) h);
}

abbrev cells : Cells
cells = (2, 20) ∷ (3, 21) ∷ []

pair-IsList : IsList memory pair 1 cells
pair-IsList = ground arith

pair-Owned : Owned memory cells
pair-Owned = (refl, (7, refl), (refl, (8, refl), tt))

list_add_last-append_example :
    Returns
      (λ l g.
        IsList g l 1 (cells ++ (4, 22) ∷ [])
        × (l.free_data ≡ pair.free_data)
        × (l.compare_data ≡ pair.compare_data)
        × (g.objects ≡ memory.objects))
      (list_add_last 3 4 22 pair memory)
list_add_last-append_example =
    list_add_last-append memory pair 3 1 4 22 cells pair-IsList (omega arith) refl (omega arith)

list_find-find_example :
    list_find 3 21 pair memory ≡ ok (find same_pointer 21 (20 ∷ 21 ∷ [])) memory
list_find-find_example =
    list_find-find memory pair same_pointer 21 3 1 cells pair-IsList (refl, (refl, tt))
      (omega arith)

list_delete-delete_example :
    Returns
      (λ (r, l) g.
        (r ≡ (delete {A = Ptr} (pos 1) (20 ∷ 21 ∷ [])).1)
        × IsList g l 1 ((2, 20) ∷ [])
        × (items ((2, 20) ∷ []) ≡ (delete {A = Ptr} (pos 1) (20 ∷ 21 ∷ [])).0)
        × (g.objects ≡ free_at memory.objects (some 21)))
      (list_delete 3 (pos 1) pair memory)
unfolding get
list_delete-delete_example =
    list_delete-delete memory pair 3 1 (pos 1) cells refl pair-IsList pair-Owned (omega arith)

list_free-Freed_example :
    Returns
      (λ _ g.
        ((b : Ptr) → g.nodes b ≡ (if (b == 1) || has b cells then none else memory.nodes b))
        × ((e : Ptr)
            → g.objects e ≡ (if holds_item e (20 ∷ 21 ∷ []) then none else memory.objects e)))
      (list_free 3 pair memory)
list_free-Freed_example =
    list_free-Freed memory pair 3 1 cells refl pair-IsList pair-Owned (refl, (refl, tt))
      (omega arith)

list_slice-cut_example :
    Returns
      (λ r g.
        IsList g pair 4 ((2, 20) ∷ [])
        × ((back : LinkedList ℕ) × (r ≡ some back)
            × IsList g back 1 ((3, 21) ∷ [])
            × (back.free_data ≡ none)
            × (back.compare_data ≡ none)))
      (list_slice 3 4 (pos 1) pair memory)
list_slice-cut_example =
    list_slice-cut memory pair 3 1 4 1 cells pair-IsList (omega arith) refl (omega arith)
      (omega arith) (omega arith)

abbrev new_memory : List (Bool × Ptr)
new_memory = (true, 30) ∷ (true, 31) ∷ []

-- Of an `unsigned` the first bytes, in little-endian order.
abbrev low_bytes : Prefix ℕ
low_bytes n x = if ltb 4 n then none else some (x % 256 ^ n)

list_to_array-copies_example :
    Returns
      (λ array g.
        (array ≡ some 30 ∷ some 31 ∷ some 0 ∷ [])
        × Copied low_bytes 4 memory (20 ∷ 21 ∷ []) (30 ∷ 31 ∷ []) g)
      (list_to_array low_bytes true new_memory pair 4 memory)
list_to_array-copies_example =
    list_to_array-copies low_bytes 4 memory pair 1 new_memory cells pair-IsList pair-Owned
      ((7, refl), ((8, refl), tt)) (refl, refl, refl, refl, (refl, refl, refl, refl, tt)) refl

-- Two pointers, each with the address of its node.
abbrev two_pointers : List (Ptr × Ptr)
two_pointers = (20, 40) ∷ (21, 41) ∷ []

list_create_from_array-items_example :
    Returns
      (λ l g.
        IsList g l 39 ((40, 20) ∷ (41, 21) ∷ [])
        × (l.free_data ≡ none)
        × (l.compare_data ≡ none)
        × (g.objects ≡ memory.objects))
      (list_create_from_array 3 39 two_pointers memory)
list_create_from_array-items_example =
    list_create_from_array-items memory 3 39 two_pointers (λ e. omega arith)
      (refl, (λ e. omega arith), (refl, refl), (refl, (λ e. omega arith), (refl, refl), tt))
      (omega arith)
