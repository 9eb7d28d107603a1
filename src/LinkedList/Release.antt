-- ===== src/LinkedList/Release.antt =====
-- `list_free`, for a list whose `free_data` is `free`.
use soii_ipc.Base.{
  ℕ, zero, suc, ◌<◌, ◌≡◌, refl, false, none, some, List, [], ◌∷◌, arith, ◌==◌, if◌then◌else◌,
  length, Bool, ◌||◌,
}
use soii_ipc.Heap.{Ptr, Heap, with_node, with_object, free_object}
use soii_ipc.Heap.Returns
use soii_ipc.Heap.Returns.{Returns, returns}
use soii_ipc.Heap.Chain
use soii_ipc.Heap.Chain.{
  Cells, has, items, first, Chain, Points, load-ok, set_next-ok, free_node-ok,
}
use soii_ipc.LinkedList.{LinkedList, move_head, list_free, free_loop}
use soii_ipc.LinkedList.Basic.{IsList}
use soii_ipc.LinkedList.Removal.{Owned, free_object-ok}

abbrev pub holds_item : Ptr → List Ptr → Bool
holds_item d [] = false
holds_item d (e ∷ es) = (d == e) || holds_item d es

-- No item is stored twice.
abbrev pub Distinct : List Ptr → Type 0
Distinct [] = Unit {0}
Distinct (d ∷ ds) = (holds_item d ds ≡ false) × Distinct ds

module _ {O : Type 0} where
  Owned-free :
      (h : Heap O) (a d : Ptr) (xs : Cells)
      → Owned h xs
      → holds_item d (items xs) ≡ false
      → Owned (with_node (with_object h d none) a none) xs
  Owned-free h a d [] own out = tt
  Owned-free h a d ((b, e) ∷ xs) own out =
      (own.0, (own.1.0, ground (arith, own.1.1)), Owned-free h a d xs own.2 (ground arith))

  -- What is left when a list with the cells `xs` and the sentinel `s` is gone.
  record Freed (h : Heap O) (s : Ptr) (xs : Cells) (g : Heap O) : Type 0 where
    nodes : (b : Ptr) → g.nodes b ≡ (if (b == s) || has b xs then none else h.nodes b)
    objects : (e : Ptr) → g.objects e ≡ (if holds_item e (items xs) then none else h.objects e)

  Freed-cons :
      (h : Heap O) (s a d : Ptr) (xs : Cells) (g : Heap O)
      → Freed (with_node (with_object h d none) a none) s xs g
      → Freed h s ((a, d) ∷ xs) g
  Freed-cons h s a d xs g gone = record {
    nodes = λ b. ground (arith, gone.nodes b);
    objects = λ e. ground (arith, gone.objects e);
  }

  free_loop-Freed :
      (h : Heap O) (l : LinkedList O) (k s : ℕ) (xs : Cells)
      → l.free_data ≡ some free_object
      → Chain h s xs
      → Owned h xs
      → Distinct (items xs)
      → length xs < k
      → Returns (λ _. Freed h s xs) (free_loop l k (first s xs) h)
  unfolding free_loop
  free_loop-Freed h l zero s xs fr ch own apart fuel = absurd (omega arith)
  free_loop-Freed h l (suc k) s [] fr ch own apart fuel =
      let end = Chain.Points-nil h s ch in
      rw (load-ok end, free_node-ok end)
        (returns (record { nodes = λ b. ground arith; objects = λ e. refl }))
  free_loop-Freed h l (suc k) s ((a, d) ∷ xs) fr ch own apart fuel =
      let (ne, (x, at), rest) = own in
      let freed : Points (with_object h d none) a (first s xs) d = record {
        ne_null = ground arith;
        holds = ch.1;
      } in
      let after : Heap O = with_node (with_object h d none) a none in
      rw
        (
          load-ok (Chain.Points-cons h s a d xs ch),
          Chain.first-ne_null h s xs ch.4,
          fr,
          free_object-ok h d x ne at,
        )
        (rw (free_node-ok freed) (
          Returns.mono
            (free_loop-Freed after l k s xs fr (Chain.Chain-update h s a none xs ch.4 ch.2 ch.3)
              (Owned-free h a d xs rest apart.0) apart.1 (omega arith))
            λ _. Freed-cons h s a d xs))

  -- `list_free` frees every node, the sentinel and every item, each once, and nothing else.
  pub list_free-Freed :
      (h : Heap O) (l : LinkedList O) (fuel s : ℕ) (xs : Cells)
      → l.free_data ≡ some free_object
      → IsList h l s xs
      → Owned h xs
      → Distinct (items xs)
      → length xs < fuel
      → Returns
          (λ _ g.
            ((b : Ptr) → g.nodes b ≡ (if (b == s) || has b xs then none else h.nodes b))
            × ((e : Ptr) → g.objects e ≡ (if holds_item e (items xs) then none else h.objects e)))
          (list_free fuel l h)
  unfolding list_free
  list_free-Freed h l fuel s xs fr is own apart enough = rw is.0 (
      Returns.mono (free_loop-Freed h (move_head l (first s xs)) fuel s xs fr is.1 own apart enough)
        λ _ g gone. (gone.nodes, gone.objects))
