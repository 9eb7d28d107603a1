-- ===== src/LinkedList/Basic.antt =====
-- The functions of list.c that make a list and add to it.
use soii_ipc.Base.{◌≡◌, ◌≢◌, refl, false, none, some, [], ◌∷◌, arith, ◌==◌}
use soii_ipc.Heap.{Ptr, null, node, Heap, exited, with_node, fill}
use soii_ipc.Heap.Returns.{Returns, returns}
use soii_ipc.Heap.Chain
use soii_ipc.Heap.Chain.{Cells, has, items, first, Chain, load-ok, set_next-ok, Points}
use soii_ipc.LinkedList.{LinkedList, move_head, list_create, list_add_start}

-- `l` holds the cells `xs`, and `s` is its sentinel.
abbrev pub IsList : {O : Type 0} → Heap O → LinkedList O → Ptr → Cells → Type 0
IsList h l s xs = (l.head ≡ first s xs) × Chain h s xs

module _ {O : Type 0} where
  -- A new list is empty and has no function pointers.
  pub list_create_lem :
      (h : Heap O) (fresh : Ptr)
      → fresh ≢ null
      → Returns
          (λ l g.
            IsList g l fresh []
            × (l.free_data ≡ none)
            × (l.compare_data ≡ none)
            × (g.objects ≡ h.objects))
          (list_create fresh h)
  unfolding list_create fill
  list_create_lem h fresh ne =
      let e : (fresh == null) ≡ false = ground arith in
      rw e (returns (ground arith, refl, refl, refl))

  pub list_add_start-cons :
      (h : Heap O) (l : LinkedList O) (s fresh item : Ptr) (xs : Cells)
      → IsList h l s xs
      → fresh ≢ null
      → h.nodes fresh ≡ none
      → Returns
          (λ l' g.
            (l' ≡ move_head l fresh)
            × (g ≡ with_node h fresh (some (node l.head item)))
            × IsList g l' s ((fresh, item) ∷ xs))
          (list_add_start fresh item l h)
  unfolding list_add_start fill
  list_add_start-cons h l s fresh item xs is ne unused =
      let e : (fresh == null) ≡ false = ground arith in
      let (apart, out) = Chain.not-has_of_none h s fresh xs is.1 unused in
      rw (e, e)
        (returns (
          refl,
          refl,
          (
            refl,
            (
              ne,
              ground arith,
              apart,
              out,
              Chain.Chain-update h s fresh (some (node l.head item)) xs is.1 apart out,
            ),
          ),
        ))

  -- When `calloc` fails the process exits.
  pub list_add_start-null :
      (h : Heap O) (l : LinkedList O) (item : Ptr) → list_add_start null item l h ≡ exited
  unfolding list_add_start
  list_add_start-null h l item = refl
