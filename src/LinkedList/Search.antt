-- ===== src/LinkedList/Search.antt =====
-- `list_find` and `list_get`: they compute the contract's `find` and `get` on the stored items and
-- leave memory alone.
use soii_ipc.Base.{
  ℕ, zero, suc, ◌+◌, ◌<◌, ◌≡◌, refl, true, false, none, some, inl, inr, List, [], ◌∷◌, arith, ◌==◌,
  Bool-cases, length, get_elem?, ℤ, pos, negsuc, is_zero, Option,
}
use soii_ipc.Seq.{find, find_from, get}
use soii_ipc.Heap.{Ptr, null, Heap, ok}
use soii_ipc.Heap.Chain
use soii_ipc.Heap.Chain.{Cells, items, first, Chain, load-ok}
use soii_ipc.LinkedList.{LinkedList, list_find, find_loop, list_get, get_loop, call_compare}
use soii_ipc.LinkedList.Basic.{IsList}

-- The comparison function of a list returns `c d e` on every item `e`, and changes nothing.
abbrev pub Compares :
    {O : Type 0} → Heap O → LinkedList O → (Ptr → Ptr → ℤ) → Ptr → List Ptr → Type 0
Compares h l c d [] = Unit
Compares h l c d (e ∷ es) = (call_compare l.compare_data d e h ≡ ok (c d e) h) × Compares h l c d es

-- A pointer to the item, NULL where there is none.
abbrev pub or_null : Option Ptr → Ptr
or_null none = null
or_null (some d) = d

module _ {O : Type 0} (h : Heap O) (l : LinkedList O) where
  find_loop-find_from :
      (c : Ptr → Ptr → ℤ) (d : Ptr) (k i s : ℕ) (xs : Cells)
      → Chain h s xs
      → Compares h l c d (items xs)
      → length xs < k
      → find_loop l d k i (first s xs) h ≡ ok (find_from c d i (items xs)) h
  unfolding find_loop find_from
  find_loop-find_from c d zero i s xs ch cmp fuel = absurd (omega arith)
  find_loop-find_from c d (suc k) i s [] ch cmp fuel = rw (load-ok (Chain.Points-nil h s ch))
  find_loop-find_from c d (suc k) i s ((a, e) ∷ xs) ch cmp fuel =
      rw (load-ok (Chain.Points-cons h s a e xs ch), Chain.first-ne_null h s xs ch.4, cmp.0)
        (elim (Bool-cases (is_zero (c d e))) [
          | inl hit ↦ rw hit
          | inr miss ↦ rw miss (find_loop-find_from c d k (i + 1) s xs ch.4 cmp.1 (omega arith))
        ])

  -- `list_find` is the search of the contract over the stored items.
  pub list_find-find :
      (c : Ptr → Ptr → ℤ) (d : Ptr) (fuel s : ℕ) (xs : Cells)
      → IsList h l s xs
      → Compares h l c d (items xs)
      → length xs < fuel
      → list_find fuel d l h ≡ ok (find c d (items xs)) h
  unfolding list_find find
  list_find-find c d fuel s xs is cmp enough =
      rw is.0 (find_loop-find_from c d fuel 0 s xs is.1 cmp enough)

  get_loop-get_elem? :
      (k target i j s : ℕ) (xs : Cells)
      → Chain h s xs
      → target ≡ i + j
      → length xs < k
      → get_loop target k i (first s xs) h ≡ ok (or_null (get_elem? (items xs) j)) h
  unfolding get_loop
  get_loop-get_elem? zero target i j s xs ch at fuel = absurd (omega arith)
  get_loop-get_elem? (suc k) target i j s [] ch at fuel = rw (load-ok (Chain.Points-nil h s ch))
  get_loop-get_elem? (suc k) target i zero s ((a, e) ∷ xs) ch at fuel =
      let hit : (i == target) ≡ true = ground arith in
      rw (load-ok (Chain.Points-cons h s a e xs ch), Chain.first-ne_null h s xs ch.4, hit)
  get_loop-get_elem? (suc k) target i (suc j) s ((a, e) ∷ xs) ch at fuel =
      let miss : (i == target) ≡ false = ground arith in
      rw (load-ok (Chain.Points-cons h s a e xs ch), Chain.first-ne_null h s xs ch.4, miss)
        (get_loop-get_elem? k target (i + 1) j s xs ch.4 (omega arith) (omega arith))

  -- `list_get` returns the item at the index, and NULL at a negative index and past the end.
  pub list_get-get :
      (fuel s : ℕ) (t : ℤ) (xs : Cells)
      → IsList h l s xs
      → length xs < fuel
      → list_get fuel t l h ≡ ok (or_null (get t (items xs))) h
  unfolding list_get get
  list_get-get fuel s (negsuc n) xs is enough = refl
  list_get-get fuel s (pos n) xs is enough =
      rw is.0 (get_loop-get_elem? fuel n 0 n s xs is.1 (omega arith) enough)
