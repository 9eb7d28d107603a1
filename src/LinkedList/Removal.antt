-- ===== src/LinkedList/Removal.antt =====
-- `list_delete`, for a list whose `free_data` is `free`.
use soii_ipc.Base.{
  ℕ, zero, suc, ◌+◌, ◌<◌, ◌≡◌, refl, ap, ◌∙◌, true, false, none, some, [], ◌∷◌, arith, ◌==◌, ltb,
  ltb-suc-suc, if◌then◌else◌, length, get_elem?, erase_idx, ℤ, pos, negsuc, minus_one, Option,
}
use soii_ipc.Seq.{delete, get}
use soii_ipc.Heap.{
  Ptr, null, node, Heap, ok, update, with_node, with_object, load_object, free_object,
}
use soii_ipc.Heap.Returns
use soii_ipc.Heap.Returns.{Returns, returns}
use soii_ipc.Heap.Chain
use soii_ipc.Heap.Chain.{
  Cells, has, items, first, Chain, Points, load-ok, set_next-ok, free_node-ok,
}
use soii_ipc.LinkedList.{LinkedList, list_delete, delete_loop}
use soii_ipc.LinkedList.Basic.{IsList}

suc-ne-zero : (t : ℕ) → (suc t == 0) ≡ false
suc-ne-zero t = ground arith

has-erase_idx : (b : Ptr) (xs : Cells) (j : ℕ) → has b xs ≡ false → has b (erase_idx xs j) ≡ false
has-erase_idx b [] j out = refl
has-erase_idx b ((a, d) ∷ xs) zero out = ground arith
has-erase_idx b ((a, d) ∷ xs) (suc j) out = ground (arith, has-erase_idx b xs j)

-- The cells without the one at an index.
abbrev pub erase_at : ℤ → Cells → Cells
erase_at (pos t) xs = erase_idx xs t
erase_at (negsuc n) xs = xs

module _ {O : Type 0} where
  -- Every item of the list is an object.
  abbrev pub Owned : Heap O → Cells → Type 0
  Owned h [] = Unit {0}
  Owned h ((a, d) ∷ xs) = ((d == null) ≡ false) × ((x : O) × (h.objects d ≡ some x)) × Owned h xs

  -- The objects without the one that was freed, if one was.
  abbrev pub free_at : (Ptr → Option O) → Option Ptr → Ptr → Option O
  free_at objects none = objects
  free_at objects (some d) = update objects d none

  pub free_object-ok :
      (h : Heap O) (d : Ptr) (x : O)
      → (d == null) ≡ false
      → h.objects d ≡ some x
      → free_object d h ≡ ok tt (with_object h d none)
  unfolding free_object load_object
  free_object-ok h d x ne at = rw (ne, at)

  -- What the deletion of the `j`th of `xs` leaves, behind a cell `(p, e)`.
  record Deleted (h : Heap O) (s p e : Ptr) (xs : Cells) (j : ℕ) (r : ℤ) (g : Heap O) : Type 0 where
    result : r ≡ (if ltb j (length xs) then pos 1 else minus_one)
    chain : Chain g s ((p, e) ∷ erase_idx xs j)
    objects : g.objects ≡ free_at h.objects (get_elem? (items xs) j)
    same : (b : Ptr) → has b ((p, e) ∷ xs) ≡ false → g.nodes b ≡ h.nodes b

  delete_loop-Deleted :
      (h : Heap O) (l : LinkedList O) (target k i j s p e : ℕ) (xs : Cells)
      → l.free_data ≡ some free_object
      → Chain h s ((p, e) ∷ xs)
      → Owned h xs
      → target ≡ i + j
      → length xs < k
      → Returns (Deleted h s p e xs j) (delete_loop l target k i p (first s xs) h)
  unfolding delete_loop
  delete_loop-Deleted h l target zero i j s p e xs fr ch own at fuel = absurd (omega arith)
  delete_loop-Deleted h l target (suc k) i j s p e [] fr ch own at fuel =
      rw (load-ok (Chain.Points-nil h s ch.4))
        (returns (record { result = ground arith; chain = ch; objects = refl; same = λ b o. refl }))
  delete_loop-Deleted h l target (suc k) i zero s p e ((a, d) ∷ xs) fr ch own at fuel =
      let hit : (i == target) ≡ true = ground arith in
      let prev : Points h p a e = Chain.Points-cons h s p e ((a, d) ∷ xs) ch in
      let curr : Points h a (first s xs) d = Chain.Points-cons h s a d xs ch.4 in
      let (ne, (x, is), _) = own in
      let ne_prev : (a == p) ≡ false = ground arith in
      let after : Heap O =
        with_node (with_object (with_node h p (some (node (first s xs) e))) d none) a none in
      let freed : Points (with_object (with_node h p (some (node (first s xs) e))) d none) a
          (first s xs) d =
        record { ne_null = curr.ne_null; holds = ground (arith, curr.holds) } in
      rw
        (
          load-ok curr,
          Chain.first-ne_null h s xs ch.4.4,
          hit,
          set_next-ok prev (first s xs),
          fr,
          free_object-ok (with_node h p (some (node (first s xs) e))) d x ne is,
        )
        (rw (free_node-ok freed) (
          returns (record {
            result = ground arith;
            chain = (
              ch.0,
              ground arith,
              ch.2,
              ground arith,
              Chain.Chain-frame h after s xs ch.4.4 (ground arith) λ b i. ground arith,
            );
            objects = refl;
            same = λ b o. ground arith;
          })))
  delete_loop-Deleted h l target (suc k) i (suc j) s p e ((a, d) ∷ xs) fr ch own at fuel =
      let miss : (i == target) ≡ false = ground arith in
      let curr : Points h a (first s xs) d = Chain.Points-cons h s a d xs ch.4 in
      rw (load-ok curr, Chain.first-ne_null h s xs ch.4.4, miss)
        (Returns.mono
          (delete_loop-Deleted h l target k (i + 1) j s a d xs fr ch.4 own.2 (omega arith)
            (omega arith))
          λ r g del. record {
            result = rw ltb-suc-suc del.result;
            chain = (
              ch.0,
              del.same p (ground arith) ∙ ch.1,
              ch.2,
              ground (arith, has-erase_idx p xs j),
              del.chain,
            );
            objects = del.objects;
            same = λ b o. ground (arith, del.same b);
          })

  -- The loop's first round only moves on.
  delete_later :
      (h : Heap O) (l : LinkedList O) (fuel s t a d : ℕ) (xs : Cells)
      → l.free_data ≡ some free_object
      → Chain h s ((a, d) ∷ xs)
      → Owned h ((a, d) ∷ xs)
      → length ((a, d) ∷ xs) < fuel
      → Returns (Deleted h s a d xs t) (delete_loop l (suc t) fuel 0 null a h)
  unfolding delete_loop
  delete_later h l zero s t a d xs fr ch own enough = absurd (omega arith)
  delete_later h l (suc k) s t a d xs fr ch own enough =
      let miss : (0 == suc t) ≡ false = ground arith in
      rw (load-ok (Chain.Points-cons h s a d xs ch), Chain.first-ne_null h s xs ch.4, miss)
        (delete_loop-Deleted h l (suc t) k (0 + 1) t s a d xs fr ch own.2 (omega arith)
          (omega arith))

  -- An index that is not negative.
  list_delete-pos :
      (h : Heap O) (l : LinkedList O) (fuel s : ℕ) (t : ℕ) (xs : Cells)
      → l.free_data ≡ some free_object
      → IsList h l s xs
      → Owned h xs
      → length xs < fuel
      → Returns
          (λ (r, l') g.
            (r ≡ (delete (pos t) (items xs)).1)
            × IsList g l' s (erase_idx xs t)
            × (items (erase_idx xs t) ≡ (delete (pos t) (items xs)).0)
            × (g.objects ≡ free_at h.objects (get_elem? (items xs) t)))
          (list_delete fuel (pos t) l h)
  unfolding list_delete delete
  list_delete-pos h l fuel s t [] fr is own enough =
      let at : l.head ≡ s = is.0 in
      rw (at, load-ok (Chain.Points-nil h s is.1))
        (returns (ground arith, (refl, is.1), refl, refl))
  list_delete-pos h l fuel s zero ((a, d) ∷ xs) fr is own enough =
      let (ne, (x, at), _) = own in
      let freed : Points (with_object h d none) a (first s xs) d = record {
        ne_null = ground arith;
        holds = is.1.1;
      } in
      rw
        (
          is.0,
          load-ok (Chain.Points-cons h s a d xs is.1),
          Chain.first-ne_null h s xs is.1.4,
          fr,
          free_object-ok h d x ne at,
        )
        (rw (free_node-ok freed) (
          returns (
            ground arith,
            (refl, Chain.Chain-update h s a none xs is.1.4 is.1.2 is.1.3),
            refl,
            refl,
          )))
  list_delete-pos h l fuel s (suc t) ((a, d) ∷ xs) fr is own enough =
      rw
        (
          is.0,
          load-ok (Chain.Points-cons h s a d xs is.1),
          Chain.first-ne_null h s xs is.1.4,
          suc-ne-zero t,
        )
        (Returns.bind (delete_later h l fuel s t a d xs fr is.1 own enough) λ r g del. returns (
          rw (Chain.length-items xs) (rw ltb-suc-suc del.result),
          (refl, del.chain),
          ap (◌∷◌ d) (Chain.items-erase_idx xs t),
          del.objects,
        ))

  -- `list_delete`, of a list whose items are objects and whose `free_data` is `free`, takes the item at
  -- the index out of the list and frees it, and nothing else: the result and the rest are those of the
  -- contract, and an index that is negative or too large changes nothing.
  pub list_delete-delete :
      (h : Heap O) (l : LinkedList O) (fuel s : ℕ) (z : ℤ) (xs : Cells)
      → l.free_data ≡ some free_object
      → IsList h l s xs
      → Owned h xs
      → length xs < fuel
      → Returns
          (λ (r, l') g.
            (r ≡ (delete z (items xs)).1)
            × IsList g l' s (erase_at z xs)
            × (items (erase_at z xs) ≡ (delete z (items xs)).0)
            × (g.objects ≡ free_at h.objects (get z (items xs))))
          (list_delete fuel z l h)
  unfolding list_delete delete get
  list_delete-delete h l fuel s (pos t) xs fr is own enough =
      list_delete-pos h l fuel s t xs fr is own enough
  list_delete-delete h l fuel s (negsuc n) xs fr is own enough = returns (refl, is, refl, refl)
