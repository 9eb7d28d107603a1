-- ===== src/LinkedList/Api.antt =====
-- server/include/list.h: the functions of a list as their callers see them, with what list.c makes
-- good of each.
use soii_ipc.Base.{
  true, map, ℕ, ◌<◌, ◌≡◌, ◌≢◌, Bool, List, [], ◌∷◌, ◌++◌, Option, none, some, ℤ, pos, length, take,
  drop,
}
use soii_ipc.Heap.{Ptr, null, Heap, Cmd, node, ok, with_node, free_object}
use soii_ipc.Heap.Chain.{Cells, items}
use soii_ipc.Heap.Returns.{Returns}
use soii_ipc.Seq.{find, get, delete}
use soii_ipc.LinkedList.{
  LinkedList, list_create, list_add_start, list_add_last, list_find, list_get, list_delete,
  list_free, list_slice, move_head,
}
use soii_ipc.LinkedList.Arrays.{list_create_from_array, list_to_array, Prefix}
use soii_ipc.LinkedList.Arrays.Items.{NewNodes, cells_of, list_create_from_array-items}
use soii_ipc.LinkedList.Arrays.Copies.{Supply, pointers, Copied, Copyable, list_to_array-copies}
use soii_ipc.LinkedList.Basic.{IsList, list_create_lem, list_add_start-cons}
use soii_ipc.LinkedList.Append.{list_add_last-append}
use soii_ipc.LinkedList.Search.{Compares, or_null, list_find-find, list_get-get}
use soii_ipc.LinkedList.Removal.{Owned, free_at, erase_at, list_delete-delete}
use soii_ipc.LinkedList.Splitting.{list_slice-cut}
use soii_ipc.LinkedList.Regions.{Region, AllRegions, Apart, Gone, list_free-first}

-- The first argument of the walks is their fuel; `fresh` is what the allocation returns.
pub record ListApi (O : Type 0) : Type 0 where
  pub create : Ptr → Cmd O (LinkedList O)
  pub create_from_array : ℕ → Ptr → List (Ptr × Ptr) → Cmd O (LinkedList O)
  pub to_array : Prefix O → Bool → List (Bool × Ptr) → LinkedList O → ℕ → Cmd O (List (Option Ptr))
  pub add_start : Ptr → Ptr → LinkedList O → Cmd O (LinkedList O)
  pub add_last : ℕ → Ptr → Ptr → LinkedList O → Cmd O (LinkedList O)
  pub find : ℕ → Ptr → LinkedList O → Cmd O ℤ
  pub get : ℕ → ℤ → LinkedList O → Cmd O Ptr
  pub delete : ℕ → ℤ → LinkedList O → Cmd O (ℤ × LinkedList O)
  pub free : ℕ → LinkedList O → Cmd O (Unit {0})
  pub slice : ℕ → Ptr → ℤ → LinkedList O → Cmd O (Option (LinkedList O))

-- What they do to lists that are in memory.
pub record IsListApi {O : Type 0} (api : ListApi O) : Type 0 where
  pub create-empty :
      (h : Heap O) (fresh : Ptr)
      → fresh ≢ null
      → Returns
          (λ l g.
            IsList g l fresh []
            × (l.free_data ≡ none)
            × (l.compare_data ≡ none)
            × (g.objects ≡ h.objects))
          (api.create fresh h)
  pub create_from_array-items :
      (h : Heap O) (fuel fresh : ℕ) (array : List (Ptr × Ptr))
      → fresh ≢ null
      → NewNodes fresh [] array
      → length array < fuel
      → Returns
          (λ l g.
            IsList g l fresh (cells_of array)
            × (l.free_data ≡ none)
            × (l.compare_data ≡ none)
            × (g.objects ≡ h.objects))
          (api.create_from_array fuel fresh array h)
  pub to_array-copies :
      (bytes : Prefix O) (data_size : ℕ) (h : Heap O) (l : LinkedList O) (s : Ptr)
      (memory : List (Bool × Ptr)) (xs : Cells)
      → IsList h l s xs
      → Owned h xs
      → Copyable bytes data_size h xs
      → Supply h memory
      → length memory ≡ length xs
      → Returns
          (λ array g.
            (array ≡ map some (pointers memory) ++ some null ∷ [])
            × Copied bytes data_size h (items xs) (pointers memory) g)
          (api.to_array bytes true memory l data_size h)
  pub add_start-cons :
      (h : Heap O) (l : LinkedList O) (s fresh item : Ptr) (xs : Cells)
      → IsList h l s xs
      → fresh ≢ null
      → h.nodes fresh ≡ none
      → Returns
          (λ l' g.
            (l' ≡ move_head l fresh)
            × (g ≡ with_node h fresh (some (node l.head item)))
            × IsList g l' s ((fresh, item) ∷ xs))
          (api.add_start fresh item l h)
  pub add_last-append :
      (h : Heap O) (l : LinkedList O) (fuel : ℕ) (s fresh item : Ptr) (xs : Cells)
      → IsList h l s xs
      → fresh ≢ null
      → h.nodes fresh ≡ none
      → length xs < fuel
      → Returns
          (λ l' g.
            IsList g l' s (xs ++ (fresh, item) ∷ [])
            × (l'.free_data ≡ l.free_data)
            × (l'.compare_data ≡ l.compare_data)
            × (g.objects ≡ h.objects))
          (api.add_last fuel fresh item l h)
  pub find-find :
      (h : Heap O) (l : LinkedList O) (c : Ptr → Ptr → ℤ) (d : Ptr) (fuel s : ℕ) (xs : Cells)
      → IsList h l s xs
      → Compares h l c d (items xs)
      → length xs < fuel
      → api.find fuel d l h ≡ ok (find c d (items xs)) h
  pub get-get :
      (h : Heap O) (l : LinkedList O) (fuel s : ℕ) (t : ℤ) (xs : Cells)
      → IsList h l s xs
      → length xs < fuel
      → api.get fuel t l h ≡ ok (or_null (get t (items xs))) h
  pub delete-delete :
      (h : Heap O) (l : LinkedList O) (fuel s : ℕ) (z : ℤ) (xs : Cells)
      → l.free_data ≡ some free_object
      → IsList h l s xs
      → Owned h xs
      → length xs < fuel
      → Returns
          (λ (r, l') g.
            (r ≡ (delete z (items xs)).1)
            × IsList g l' s (erase_at z xs)
            × (items (erase_at z xs) ≡ (delete z (items xs)).0)
            × (g.objects ≡ free_at h.objects (get z (items xs))))
          (api.delete fuel z l h)
  pub free-first :
      (fuel : ℕ) (h : Heap O) (r : Region O) (rs : List (Region O))
      → AllRegions fuel h (r ∷ rs)
      → Apart (r ∷ rs)
      → Returns (λ _ g. Gone h (r ∷ []) g × AllRegions fuel g rs) (api.free fuel r.handle h)
  pub slice-cut :
      (h : Heap O) (l : LinkedList O) (fuel s fresh t : ℕ) (xs : Cells)
      → IsList h l s xs
      → fresh ≢ null
      → h.nodes fresh ≡ none
      → 0 < t
      → t < length xs
      → length xs < fuel
      → Returns
          (λ r g.
            IsList g l fresh (take t xs)
            × ((back : LinkedList O) × (r ≡ some back)
                × IsList g back s (drop t xs)
                × (back.free_data ≡ none)
                × (back.compare_data ≡ none)))
          (api.slice fuel fresh (pos t) l h)

-- list.c.
abbrev pub list_c : {O : Type 0} → ListApi O
list_c = record {
  create = list_create;
  create_from_array = list_create_from_array;
  to_array = list_to_array;
  add_start = list_add_start;
  add_last = list_add_last;
  find = list_find;
  get = list_get;
  delete = list_delete;
  free = list_free;
  slice = list_slice;
}

-- They keep the laws.
pub list_c-IsListApi : {O : Type 0} → IsListApi (list_c {O = O})
list_c-IsListApi = record {
  create-empty = list_create_lem;
  create_from_array-items = list_create_from_array-items;
  to_array-copies = list_to_array-copies;
  add_start-cons = list_add_start-cons;
  add_last-append = list_add_last-append;
  find-find = list_find-find;
  get-get = list_get-get;
  delete-delete = list_delete-delete;
  free-first = list_free-first;
  slice-cut = list_slice-cut;
}
