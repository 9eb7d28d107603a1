-- ===== src/LinkedList/Splitting.antt =====
-- `list_slice`: a list is cut in two.
use soii_ipc.Base.{
  ℕ, zero, suc, ◌+◌, ◌<◌, ◌≤◌, ◌≡◌, ◌≢◌, refl, ◌∙◌, true, false, none, some, [], ◌∷◌, arith, ◌==◌,
  length, take, drop, pos, Option, ◌⊎◌,
}
use soii_ipc.Heap.{Ptr, null, node, Heap, ok, with_node, fill}
use soii_ipc.Heap.Returns
use soii_ipc.Heap.Returns.{Returns, returns}
use soii_ipc.Heap.Chain
use soii_ipc.Heap.Chain.{Cells, has, first, Chain, Points, load-ok, set_next-ok}
use soii_ipc.LinkedList.{LinkedList, list_slice, slice_loop}
use soii_ipc.LinkedList.Basic.{IsList}

has-take : (b : Ptr) (xs : Cells) (j : ℕ) → has b xs ≡ false → has b (take j xs) ≡ false
has-take b xs zero out = refl
has-take b [] (suc j) out = refl
has-take b ((a, d) ∷ xs) (suc j) out = ground (arith, has-take b xs j)

module _ {O : Type 0} where
  -- Both parts of a cut behind a cell `(p, e)`, and what stays as it was.
  record Cut (h : Heap O) (s fresh p e : Ptr) (xs : Cells) (j : ℕ) (r : Option (LinkedList O))
      (g : Heap O) : Type 0 where
    back : r ≡ some (record { head = first s (drop j xs); free_data = none; compare_data = none })
    back_chain : Chain g s (drop j xs)
    front_chain : Chain g fresh ((p, e) ∷ take j xs)
    same :
        (b : Ptr)
        → has b ((p, e) ∷ take j xs) ≡ false
        → (b == fresh) ≡ false
        → g.nodes b ≡ h.nodes b

  Cut-cons :
      (h : Heap O) (s fresh p e a d : Ptr) (xs : Cells) (j : ℕ) (r : Option (LinkedList O))
      (g : Heap O)
      → Chain h s ((p, e) ∷ (a, d) ∷ xs)
      → (p == fresh) ≡ false
      → Cut h s fresh a d xs j r g
      → Cut h s fresh p e ((a, d) ∷ xs) (suc j) r g
  Cut-cons h s fresh p e a d xs j r g ch apart cut = record {
    back = cut.back;
    back_chain = cut.back_chain;
    front_chain = (
      ch.0,
      cut.same p (ground (arith, has-take p xs j)) apart ∙ ch.1,
      apart,
      ground (arith, has-take p xs j),
      cut.front_chain,
    );
    same = λ b o n. cut.same b (ground arith) n;
  }

  slice_loop-Cut :
      (h : Heap O) (fresh target k i j s p e : ℕ) (xs : Cells)
      → Chain h s ((p, e) ∷ xs)
      → fresh ≢ null
      → (fresh == s) ≡ false
      → has fresh ((p, e) ∷ xs) ≡ false
      → target ≡ i + j
      → j < length xs
      → length xs < k
      → Returns (Cut h s fresh p e xs j) (slice_loop fresh (pos target) k i p (first s xs) h)
  unfolding slice_loop fill
  slice_loop-Cut h fresh target zero i j s p e xs ch ne apart out at lt fuel = absurd (omega arith)
  slice_loop-Cut h fresh target (suc k) i j s p e [] ch ne apart out at lt fuel =
      absurd (omega arith)
  slice_loop-Cut h fresh target (suc k) i zero s p e ((a, d) ∷ xs) ch ne apart out at lt fuel =
      let hit : (i == target) ≡ true = ground arith in
      let nonzero : (fresh == null) ≡ false = ground arith in
      let prev =
        Chain.Points-other h p a e fresh (some (node null null))
          (Chain.Points-cons h s p e ((a, d) ∷ xs) ch) (ground arith) in
      let h₁ : Heap O = with_node h fresh (some (node null null)) in
      let g : Heap O = with_node h₁ p (some (node fresh e)) in
      rw
        (
          load-ok (Chain.Points-cons h s a d xs ch.4),
          Chain.first-ne_null h s xs ch.4.4,
          hit,
          nonzero,
          nonzero,
          set_next-ok prev fresh,
        )
        (returns {h = g} (record {
          back = refl;
          back_chain =
              Chain.Chain-update h₁ s p (some (node fresh e)) ((a, d) ∷ xs)
                (Chain.Chain-update h s fresh (some (node null null)) ((a, d) ∷ xs) ch.4 apart
                  (ground arith))
                ch.2 ch.3;
          front_chain = (ch.0, ground arith, ground arith, refl, (ne, ground arith));
          same = λ b o n. ground arith;
        }))
  slice_loop-Cut h fresh target (suc k) i (suc j) s p e ((a, d) ∷ xs) ch ne apart out at lt fuel =
      let miss : (i == target) ≡ false = ground arith in
      rw (load-ok (Chain.Points-cons h s a d xs ch.4), Chain.first-ne_null h s xs ch.4.4, miss)
        (Returns.mono
          (slice_loop-Cut h fresh target k (i + 1) j s a d xs ch.4 ne apart (ground arith)
            (omega arith) (omega arith) (omega arith))
          λ r g cut. Cut-cons h s fresh p e a d xs j r g ch (ground arith) cut)

  slice_first :
      (h : Heap O) (fresh t fuel s a d : ℕ) (xs : Cells)
      → Chain h s ((a, d) ∷ xs)
      → fresh ≢ null
      → h.nodes fresh ≡ none
      → suc t < length ((a, d) ∷ xs)
      → length ((a, d) ∷ xs) < fuel
      → Returns (Cut h s fresh a d xs t) (slice_loop fresh (pos (suc t)) fuel 0 null a h)
  unfolding slice_loop
  slice_first h fresh t zero s a d xs ch ne unused lt enough = absurd (omega arith)
  slice_first h fresh t (suc k) s a d xs ch ne unused lt enough =
      let miss : (0 == suc t) ≡ false = ground arith in
      let (apart, out) = Chain.not-has_of_none h s fresh ((a, d) ∷ xs) ch unused in
      rw (load-ok (Chain.Points-cons h s a d xs ch), Chain.first-ne_null h s xs ch.4, miss)
        (slice_loop-Cut h fresh (suc t) k (0 + 1) t s a d xs ch ne apart out (omega arith)
          (omega arith) (omega arith))

  -- `list_slice` at an index inside the list, but not at its start, cuts the list in two: the old
  -- handle keeps the items before the index, under the new sentinel, and the returned list has the
  -- others. The returned list has no function pointers.
  pub list_slice-cut :
      (h : Heap O) (l : LinkedList O) (fuel s fresh t : ℕ) (xs : Cells)
      → IsList h l s xs
      → fresh ≢ null
      → h.nodes fresh ≡ none
      → 0 < t
      → t < length xs
      → length xs < fuel
      → Returns
          (λ r g.
            IsList g l fresh (take t xs)
            × ((back : LinkedList O) × (r ≡ some back)
                × IsList g back s (drop t xs)
                × (back.free_data ≡ none)
                × (back.compare_data ≡ none)))
          (list_slice fuel fresh (pos t) l h)
  unfolding list_slice
  list_slice-cut h l fuel s fresh t [] is ne unused inside lt enough = absurd (omega arith)
  list_slice-cut h l fuel s fresh zero ((a, d) ∷ xs) is ne unused inside lt enough =
      absurd (omega arith)
  list_slice-cut h l fuel s fresh (suc t) ((a, d) ∷ xs) is ne unused inside lt enough =
      let miss : (0 == suc t) ≡ false = ground arith in
      let at : l.head ≡ a = is.0 in
      rw (miss, at)
        (Returns.mono (slice_first h fresh t fuel s a d xs is.1 ne unused lt enough)
          λ r g cut. ((refl, cut.front_chain), (_, cut.back, (refl, cut.back_chain), refl, refl)))

  slice_loop-none :
      (h : Heap O) (fresh target k i s prev : ℕ) (xs : Cells)
      → Chain h s xs
      → i + length xs ≤ target
      → length xs < k
      → slice_loop fresh (pos target) k i prev (first s xs) h ≡ ok none h
  unfolding slice_loop
  slice_loop-none h fresh target zero i s prev xs ch le fuel = absurd (omega arith)
  slice_loop-none h fresh target (suc k) i s prev [] ch le fuel =
      rw (load-ok (Chain.Points-nil h s ch))
  slice_loop-none h fresh target (suc k) i s prev ((a, d) ∷ xs) ch le fuel =
      let miss : (i == target) ≡ false = ground arith in
      rw (load-ok (Chain.Points-cons h s a d xs ch), Chain.first-ne_null h s xs ch.4, miss)
        (slice_loop-none h fresh target k (i + 1) s a xs ch.4 (omega arith) (omega arith))

  -- At the start and past the end it returns NULL and changes nothing.
  pub list_slice-none :
      (h : Heap O) (l : LinkedList O) (fuel s fresh t : ℕ) (xs : Cells)
      → IsList h l s xs
      → (t ≡ 0) ⊎ (length xs ≤ t)
      → length xs < fuel
      → list_slice fuel fresh (pos t) l h ≡ ok none h
  unfolding list_slice
  list_slice-none h l fuel s fresh zero xs is bad enough = refl
  list_slice-none h l fuel s fresh (suc t) xs is bad enough =
      let miss : (0 == suc t) ≡ false = ground arith in
      rw (miss, is.0) (slice_loop-none h fresh (suc t) fuel 0 s null xs is.1 (omega arith) enough)
