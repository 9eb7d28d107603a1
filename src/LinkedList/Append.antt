-- ===== src/LinkedList/Append.antt =====
-- `list_add_last`: the walk to the last node, and what it links in behind it.
use soii_ipc.Base.{
  ℕ, zero, suc, ◌<◌, ◌≡◌, ◌≢◌, refl, ◌∙◌, false, true, none, some, [], ◌∷◌, ◌++◌, arith, ◌==◌,
  length,
}
use soii_ipc.Heap.{Ptr, null, node, Heap, ok, with_node, fill}
use soii_ipc.Heap.Returns.{Returns, returns}
use soii_ipc.Heap.Chain
use soii_ipc.Heap.Chain.{Cells, has, items, first, Chain, load-ok, set_next-ok, Points}
use soii_ipc.LinkedList.{LinkedList, list_add_last, walk_to_last}
use soii_ipc.LinkedList.Basic.{IsList}

-- The last of a cell and those behind it.
last_cell : Ptr × Ptr → Cells → Ptr × Ptr
last_cell c [] = c
last_cell c (d ∷ xs) = last_cell d xs

has-last_cell : (c : Ptr × Ptr) (xs : Cells) → has (last_cell c xs).0 (c ∷ xs) ≡ true
unfolding last_cell
has-last_cell c [] = ground arith
has-last_cell c (d ∷ xs) = ground (arith, has-last_cell d xs)

module _ {O : Type 0} where
  walk_to_last-last_cell :
      (h : Heap O) (k : ℕ) (s a d : Ptr) (xs : Cells)
      → Chain h s ((a, d) ∷ xs)
      → length xs < k
      → walk_to_last k a h ≡ ok (last_cell (a, d) xs).0 h
  unfolding walk_to_last last_cell
  walk_to_last-last_cell h zero s a d xs c fuel = absurd (omega arith)
  walk_to_last-last_cell h (suc k) s a d [] c fuel =
      rw (load-ok (Chain.Points-cons h s a d [] c), load-ok (Chain.Points-nil h s c.4))
  walk_to_last-last_cell h (suc k) s a d ((b, e) ∷ xs) c fuel =
      rw
        (
          load-ok (Chain.Points-cons h s a d ((b, e) ∷ xs) c),
          load-ok (Chain.Points-cons h s b e xs c.4),
          Chain.first-ne_null h s xs c.4.4,
        )
        (walk_to_last-last_cell h k s b e xs c.4 (omega arith))

  -- A cell is linked in behind the last one.
  Chain-snoc :
      (h g : Heap O) (s a d fresh item : Ptr) (xs : Cells)
      → Chain h s ((a, d) ∷ xs)
      → fresh ≢ null
      → (fresh == s) ≡ false
      → has fresh ((a, d) ∷ xs) ≡ false
      → g.nodes fresh ≡ some (node s item)
      → g.nodes (last_cell (a, d) xs).0 ≡ some (node fresh (last_cell (a, d) xs).1)
      → ((b : Ptr)
          → (b == fresh) ≡ false
          → (b == (last_cell (a, d) xs).0) ≡ false
          → g.nodes b ≡ h.nodes b)
      → Chain g s ((a, d) ∷ xs ++ (fresh, item) ∷ [])
  unfolding last_cell
  Chain-snoc h g s a d fresh item [] c ne apart out new last same =
      (c.0, last, c.2, ground arith, (ne, new, apart, refl, (c.4.0, ground (arith, same s))))
  Chain-snoc h g s a d fresh item ((b, e) ∷ xs) c ne apart out new last same = (
    c.0,
    same a (ground arith) (Chain.ne_of_has a _ ((b, e) ∷ xs) c.3 (has-last_cell (b, e) xs)) ∙ c.1,
    c.2,
    ground (arith, Chain.has-append a xs ((fresh, item) ∷ [])),
    Chain-snoc h g s b e fresh item xs c.4 ne apart (ground arith) new last same,
  )

  last_cell-Points :
      (h : Heap O) (s a d : Ptr) (xs : Cells)
      → Chain h s ((a, d) ∷ xs)
      → Points h (last_cell (a, d) xs).0 s (last_cell (a, d) xs).1
  unfolding last_cell
  last_cell-Points h s a d [] c = Chain.Points-cons h s a d [] c
  last_cell-Points h s a d ((b, e) ∷ xs) c = last_cell-Points h s b e xs c.4

  add_last_walk :
      (h : Heap O) (l : LinkedList O) (fuel : ℕ) (s a d fresh item : Ptr) (xs : Cells)
      → l.head ≡ a
      → Chain h s ((a, d) ∷ xs)
      → fresh ≢ null
      → ((fresh == s) ≡ false) × (has fresh ((a, d) ∷ xs) ≡ false)
      → length xs < fuel
      → Returns
          (λ l' g.
            IsList g l' s ((a, d) ∷ xs ++ (fresh, item) ∷ [])
            × (l'.free_data ≡ l.free_data)
            × (l'.compare_data ≡ l.compare_data)
            × (g.objects ≡ h.objects))
          (list_add_last fuel fresh item l h)
  unfolding list_add_last fill
  add_last_walk h l fuel s a d fresh item xs at c ne apart enough =
      rw
        (
          e,
          at,
          load-ok (Chain.Points-cons h₁ s a d xs c₁),
          Chain.first-ne_null h₁ s xs c₁.4,
          walk_to_last-last_cell h₁ fuel s a d xs c₁ enough,
          load-ok tail,
          set_next-ok here s,
          set_next-ok tail₂ fresh,
        )
        (returns (
          (
            refl,
            Chain-snoc h h₃ s a d fresh item xs c ne apart.0 apart.1 (ground (arith, other))
                (ground arith) λ b n m. ground arith,
          ),
          refl,
          refl,
          refl,
        ))
    where
      e : (fresh == null) ≡ false
      e = ground arith

      h₁ : Heap O
      h₁ = with_node h fresh (some (node null item))

      c₁ : Chain h₁ s ((a, d) ∷ xs)
      c₁ = Chain.Chain-update h s fresh (some (node null item)) ((a, d) ∷ xs) c apart.0 apart.1

      tail : Points h₁ (last_cell (a, d) xs).0 s (last_cell (a, d) xs).1
      tail = last_cell-Points h₁ s a d xs c₁

      here : Points h₁ fresh null item
      here = Chain.Points-new h fresh null item e

      other : ((last_cell (a, d) xs).0 == fresh) ≡ false
      other = Chain.ne_of_has' fresh _ ((a, d) ∷ xs) apart.1 (has-last_cell (a, d) xs)

      tail₂ :
          Points
            (with_node h₁ fresh (some (node s item)))
            (last_cell (a, d) xs).0
            s
            (last_cell (a, d) xs).1
      tail₂ = Chain.Points-other h₁ _ s _ fresh (some (node s item)) tail other

      h₃ : Heap O
      h₃ =
          with_node (with_node h₁ fresh (some (node s item))) (last_cell (a, d) xs).0
            (some (node fresh (last_cell (a, d) xs).1))

  -- The new node is none of the list's.
  pub list_add_last-apart :
      (h : Heap O) (l : LinkedList O) (fuel : ℕ) (s fresh item : Ptr) (xs : Cells)
      → IsList h l s xs
      → fresh ≢ null
      → ((fresh == s) ≡ false) × (has fresh xs ≡ false)
      → length xs < fuel
      → Returns
          (λ l' g.
            IsList g l' s (xs ++ (fresh, item) ∷ [])
            × (l'.free_data ≡ l.free_data)
            × (l'.compare_data ≡ l.compare_data)
            × (g.objects ≡ h.objects))
          (list_add_last fuel fresh item l h)
  unfolding list_add_last fill
  list_add_last-apart h l fuel s fresh item [] is ne unused enough =
      let e : (fresh == null) ≡ false = ground arith in
      let apart = unused.0 in
      let c : Chain (with_node h fresh (some (node null item))) s [] =
        Chain.Chain-update h s fresh (some (node null item)) [] is.1 apart refl in
      let at : l.head ≡ s = is.0 in
      rw
        (
          e,
          at,
          load-ok (Chain.Points-nil (with_node h fresh (some (node null item))) s c),
          set_next-ok (Chain.Points-new h fresh null item e) s,
        )
        (returns
          ((refl, (ne, ground arith, apart, refl, (is.1.0, ground arith))), refl, refl, refl))
  list_add_last-apart h l fuel s fresh item ((a, d) ∷ xs) is ne unused enough =
      add_last_walk h l fuel s a d fresh item xs is.0 is.1 ne unused (omega arith)

  -- `list_add_last` puts the item behind all others, in an empty list too, and keeps the objects.
  pub list_add_last-append :
      (h : Heap O) (l : LinkedList O) (fuel : ℕ) (s fresh item : Ptr) (xs : Cells)
      → IsList h l s xs
      → fresh ≢ null
      → h.nodes fresh ≡ none
      → length xs < fuel
      → Returns
          (λ l' g.
            IsList g l' s (xs ++ (fresh, item) ∷ [])
            × (l'.free_data ≡ l.free_data)
            × (l'.compare_data ≡ l.compare_data)
            × (g.objects ≡ h.objects))
          (list_add_last fuel fresh item l h)
  list_add_last-append h l fuel s fresh item xs is ne unused enough =
      list_add_last-apart h l fuel s fresh item xs is ne
        (Chain.not-has_of_none h s fresh xs is.1 unused) enough
