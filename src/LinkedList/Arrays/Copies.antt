-- ===== src/LinkedList/Arrays/Copies.antt =====
-- `list_to_array`: what the array holds.
pub mod Slots
use mathlib.Core.Path.{ap₂}
use soii_ipc.Base.{
  ◌+◌, length-snoc, append_assoc, subst, append-nil, ◌++◌, ℕ, suc, Option, ◌≡◌, refl, sym, ap, ◌∙◌,
  Bool, Bool-cases, inl, inr, ==_iff, true, false, List, [], ◌∷◌, none, some, arith, ◌==◌, map,
  length,
}
use soii_ipc.Heap.{Ptr, null, Heap, ok, with_object, load_object}
use soii_ipc.Heap.Chain
use soii_ipc.Heap.Chain.{Cells, items, first, Chain, load-ok}
use soii_ipc.Heap.Returns
use soii_ipc.Heap.Returns.{Returns, returns}
use soii_ipc.LinkedList.{LinkedList}
use soii_ipc.LinkedList.Basic.{IsList}
use soii_ipc.LinkedList.Removal.{Owned}
use soii_ipc.LinkedList.Release.{holds_item}
use soii_ipc.LinkedList.Regions.{Owned-same}
use soii_ipc.LinkedList.Arrays.{list_to_array, array_loop, copy_object, resize, store, Prefix}
use soii_ipc.LinkedList.Arrays.Copies.Slots.{
  filled, resize-filled, store-filled, filled-last, add_one,
}

abbrev pub pointers : List (Bool × Ptr) → List Ptr
pointers [] = []
pointers ((grown, p) ∷ rest) = p ∷ pointers rest

ne_of_holds :
    (p e : Ptr) (ds : List Ptr)
    → holds_item p ds ≡ false
    → holds_item e ds ≡ true
    → (e == p) ≡ false
ne_of_holds p e ds out inside = elim (Bool-cases (e == p)) [
  | inl same ↦
      let eq : e ≡ p = (==_iff e p).0 same in absurd (cc (ap (λ (c : Ptr). holds_item c ds) eq))
  | inr other ↦ other
]

module _ {O : Type 0} where
  -- `realloc` succeeds, and `malloc` returns new memory each time.
  abbrev pub Supply : Heap O → List (Bool × Ptr) → Type 0
  Supply h [] = Unit {0}
  Supply h ((grown, p) ∷ rest) =
      (grown ≡ true)
      × ((p == null) ≡ false)
      × (h.objects p ≡ none)
      × (holds_item p (pointers rest) ≡ false)
      × Supply h rest

  -- New memory is no item.
  new_is_no_item :
      (h : Heap O) (p : Ptr) (xs : Cells)
      → Owned h xs
      → h.objects p ≡ none
      → holds_item p (items xs) ≡ false
  new_is_no_item h p [] own new = refl
  new_is_no_item h p ((a, d) ∷ xs) own new =
      ground (arith, own.1.1, new_is_no_item h p xs own.2 new)

  -- The supply behind its first address.
  Supply-next :
      (h : Heap O) (p : Ptr) (x : O) (rest : List (Bool × Ptr))
      → holds_item p (pointers rest) ≡ false
      → Supply h rest
      → Supply (with_object h p (some x)) rest
  Supply-next h p x [] out supply = tt
  Supply-next h p x ((grown, q) ∷ rest) out (ok_, ne, new, apart, more) =
      (ok_, ne, ground arith, apart, Supply-next h p x rest (ground arith) more)

module _ {O : Type 0} (bytes : Prefix O) (data_size : ℕ) where
  -- What is copied of an object, if there is one.
  abbrev pub prefix_of : Option O → Option O
  prefix_of none = none
  prefix_of (some x) = bytes data_size x

  -- Every item of the list is an object of at least `data_size` bytes.
  abbrev pub Copyable : Heap O → Cells → Type 0
  Copyable h [] = Unit {0}
  Copyable h ((a, d) ∷ xs) = ((y : O) × (prefix_of (h.objects d) ≡ some y)) × Copyable h xs

  Copyable-same :
      (h g : Heap O) (xs : Cells)
      → Copyable h xs
      → ((e : Ptr) → holds_item e (items xs) ≡ true → g.objects e ≡ h.objects e)
      → Copyable g xs
  Copyable-same h g [] all same = tt
  Copyable-same h g ((a, d) ∷ xs) ((y, is), all) same = (
    (y, ap prefix_of (same d (ground arith)) ∙ is),
    Copyable-same h g xs all (λ e inside. same e (ground arith)),
  )

  -- The new objects are the first `data_size` bytes of the list's, in order, and no other object and no
  -- node changed.
  pub record Copied (h : Heap O) (ds : List Ptr) (array : List Ptr) (g : Heap O) : Type 0 where
    pub nodes : g.nodes ≡ h.nodes
    pub copies : map g.objects array ≡ map (λ d. prefix_of (h.objects d)) ds
    pub others : (e : Ptr) → holds_item e array ≡ false → g.objects e ≡ h.objects e

  objects-same :
      (h g : Heap O) (ds : List Ptr)
      → ((e : Ptr) → holds_item e ds ≡ true → g.objects e ≡ h.objects e)
      → map (λ d. prefix_of (g.objects d)) ds ≡ map (λ d. prefix_of (h.objects d)) ds
  objects-same h g [] same = refl
  objects-same h g (d ∷ ds) same =
      ap₂ ◌∷◌ (ap prefix_of (same d (ground arith)))
        (objects-same h g ds λ e inside. same e (ground arith))

  -- One copy at new memory in front of those of the rest.
  Copied-cons :
      (h g : Heap O) (p d : Ptr) (y : O) (xs : Cells) (array : List Ptr)
      → h.objects p ≡ none
      → prefix_of (h.objects d) ≡ some y
      → Owned h xs
      → holds_item p array ≡ false
      → Copied (with_object h p (some y)) (items xs) array g
      → Copied h (d ∷ items xs) (p ∷ array) g
  Copied-cons h g p d y xs array new is own out rest =
      let kept = objects-same h (with_object h p (some y)) (items xs) λ e inside.
        let other = ne_of_holds p e (items xs) (new_is_no_item h p xs own new) inside in
        ground arith in
      let here : (with_object h p (some y)).objects p ≡ some y = ground arith in
      record {
        nodes = rest.nodes;
        copies = ap₂ ◌∷◌ (rest.others p out ∙ here ∙ sym is) (rest.copies ∙ kept);
        others = λ e away. rest.others e (ground arith) ∙ ground arith;
      }

  copy_object-ok :
      (h : Heap O) (p d : Ptr) (x y : O)
      → (p == null) ≡ false
      → (d == null) ≡ false
      → h.objects d ≡ some x
      → bytes data_size x ≡ some y
      → copy_object bytes data_size p d h ≡ ok tt (with_object h p (some y))
  unfolding copy_object load_object
  copy_object-ok h p d x y ne ned is fits = rw (ned, is, ne, fits)

  -- The loop goes on behind the slot that was just stored.
  next :
      (h : Heap O) (p : Ptr) (done : List Ptr) (memory : List (Bool × Ptr)) (curr : Ptr)
      (Q : List (Option Ptr) → Heap O → Type 0)
      → Returns Q (
          array_loop bytes data_size memory
            (length (done ++ p ∷ []))
            (filled (done ++ p ∷ []) ++ none ∷ [])
            curr
            h)
      → Returns Q (
          array_loop bytes data_size memory
            (suc (length done))
            (filled done ++ some p ∷ none ∷ [])
            curr
            h)
  next h p done memory curr Q =
      subst
        (λ ((n, slots) : ℕ × List (Option Ptr)).
          Returns Q (array_loop bytes data_size memory n slots curr h))
        (ap₂ (λ (n : ℕ) (slots : List (Option Ptr)). (n, slots))
          (length-snoc done p ∙ add_one (length done)) (sym (filled-last done p (none ∷ []))))

  array_loop-Copied :
      (h : Heap O) (s : Ptr) (memory : List (Bool × Ptr)) (done : List Ptr) (xs : Cells)
      → Chain h s xs
      → Owned h xs
      → Copyable h xs
      → Supply h memory
      → length memory ≡ length xs
      → Returns
          (λ array g.
            (array ≡ filled (done ++ pointers memory) ++ some null ∷ [])
            × Copied h (items xs) (pointers memory) g)
          (array_loop bytes data_size memory
            (length done)
            (filled done ++ none ∷ [])
            (first s xs)
            h)
  unfolding array_loop
  array_loop-Copied h s [] done [] ch own copyable supply same =
      rw (load-ok (Chain.Points-nil h s ch), store-filled h done null [])
        (returns (
          ap (λ ds. filled ds ++ some null ∷ []) (sym (append-nil done)),
          record { nodes = refl; copies = refl; others = λ e away. refl },
        ))
  array_loop-Copied h s [] done (c ∷ xs) ch own copyable supply same = absurd (omega (arith, same))
  array_loop-Copied h s (m ∷ memory) done [] ch own copyable supply same =
      absurd (omega (arith, same))
  array_loop-Copied h s ((grown, p) ∷ memory) done ((a, d) ∷ xs) ch own copyable supply same =
      let (ok_, ne, new, apart, more) = supply in
      let (ned, (x, is), rest) = own in
      let ((y, fits), copyable') = copyable in
      let fits' : bytes data_size x ≡ some y = sym (ap prefix_of is) ∙ fits in
      let h' : Heap O = with_object h p (some y) in
      let out = new_is_no_item h p xs rest new in
      let unchanged : (e : Ptr) → holds_item e (items xs) ≡ true → h'.objects e ≡ h.objects e =
        λ e inside. let other = ne_of_holds p e (items xs) out inside in ground arith in
      let owned : Owned h' xs = Owned-same h h' xs rest unchanged in
      rw
        (
          load-ok (Chain.Points-cons h s a d xs ch),
          Chain.first-ne_null h s xs ch.4,
          ok_,
          copy_object-ok h p d x y ne ned is fits',
          resize-filled done,
          store-filled h' done p (none ∷ []),
        )
        (Returns.mono
          (next h' p done memory (first s xs) _ (
            array_loop-Copied h' s memory (done ++ p ∷ []) xs ch.4 owned
              (Copyable-same h h' xs copyable' unchanged) (Supply-next h p y memory apart more)
              (omega (arith, same))))
          λ array g (array_is, copied). (
            array_is
                ∙ ap (λ ds. filled ds ++ some null ∷ [])
                    (append_assoc done (p ∷ []) (pointers memory)),
            Copied-cons h g p d y xs (pointers memory) new fits rest apart copied,
          ))

  -- On a well-formed list whose items are objects of at least `data_size` bytes, if all allocations
  -- succeed and `malloc` returns new memory for each item, list_to_array stays inside the array's
  -- memory and returns it with a pointer to that new memory in each slot, in order, and NULL in the
  -- last. Behind the pointers are copies of the first `data_size` bytes of the list's objects, in order;
  -- the list and all other objects stay.
  pub list_to_array-copies :
      (h : Heap O) (l : LinkedList O) (s : Ptr) (memory : List (Bool × Ptr)) (xs : Cells)
      → IsList h l s xs
      → Owned h xs
      → Copyable h xs
      → Supply h memory
      → length memory ≡ length xs
      → Returns
          (λ array g.
            (array ≡ map some (pointers memory) ++ some null ∷ [])
            × Copied h (items xs) (pointers memory) g)
          (list_to_array bytes true memory l data_size h)
  unfolding list_to_array
  list_to_array-copies h l s memory xs is own copyable supply same =
      rw is.0 (array_loop-Copied h s memory [] xs is.1 own copyable supply same)
