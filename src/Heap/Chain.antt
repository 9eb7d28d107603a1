-- ===== src/Heap/Chain.antt =====
-- The shape of a list of list.c in memory: distinct nodes that lead to an empty sentinel node.
use soii_ipc.Base.{
  ℕ, zero, suc, length, erase_idx, ap, inl, inr, Bool-cases, ==_iff, ◌≡◌, ◌≢◌, refl, Bool, true,
  false, ◌||◌, Option, none, some, List, [], ◌∷◌, ◌++◌, arith, ◌==◌,
}
use soii_ipc.Heap.{Ptr, null, Node, node, Heap, ok, with_node, load, set_next, free_node}

-- Address and `data` pointer of each node, in order.
abbrev pub Cells : Type 0
Cells = List (Ptr × Ptr)

abbrev pub has : Ptr → Cells → Bool
has a [] = false
has a ((p, _) ∷ xs) = (a == p) || has a xs

-- The pointers that the list holds.
abbrev pub items : Cells → List Ptr
items [] = []
items ((_, d) ∷ xs) = d ∷ items xs

-- Where the list begins, if `s` is its sentinel.
abbrev pub first : Ptr → Cells → Ptr
first s [] = s
first s ((a, _) ∷ xs) = a

module _ {O : Type 0} where
  -- From `first s xs` the nodes of `xs` lead to the sentinel `s`, a node with no successor.
  abbrev pub Chain : Heap O → Ptr → Cells → Type 0
  Chain h s [] = (s ≢ null) × (h.nodes s ≡ some (node null null))
  Chain h s ((a, d) ∷ xs) =
      (a ≢ null)
      × (h.nodes a ≡ some (node (first s xs) d))
      × ((a == s) ≡ false)
      × (has a xs ≡ false)
      × Chain h s xs

  -- `p` holds a node.
  pub record Points (h : Heap O) (p q d : Ptr) : Type 0 where
    pub ne_null : (p == null) ≡ false
    pub holds : h.nodes p ≡ some (node q d)

  module _ {h : Heap O} {p q d : Ptr} (e : Points h p q d) where
    pub load-ok : load p h ≡ ok (node q d) h
    unfolding load
    load-ok = rw (e.ne_null, e.holds)

    pub set_next-ok : (r : Ptr) → set_next p r h ≡ ok tt (with_node h p (some (node r d)))
    unfolding set_next
    set_next-ok r = rw (e.ne_null, e.holds)

    pub free_node-ok : free_node p h ≡ ok tt (with_node h p none)
    unfolding free_node
    free_node-ok = rw (e.ne_null, e.holds)

  pub Points-nil : (h : Heap O) (s : Ptr) → Chain h s [] → Points h s null null
  Points-nil h s c = record { ne_null = ground arith; holds = c.1 }

  pub Points-cons :
      (h : Heap O) (s a d : Ptr) (xs : Cells) → Chain h s ((a, d) ∷ xs) → Points h a (first s xs) d
  Points-cons h s a d xs c = record { ne_null = ground arith; holds = c.1 }

  -- A cell keeps its content when another one is written.
  pub Points-other :
      (h : Heap O) (p q d a : Ptr) (c : Option Node)
      → Points h p q d
      → (p == a) ≡ false
      → Points (with_node h a c) p q d
  Points-other h p q d a c at ne = record { ne_null = at.ne_null; holds = ground (arith, at.holds) }

  pub Points-new :
      (h : Heap O) (a q d : Ptr)
      → (a == null) ≡ false
      → Points (with_node h a (some (node q d))) a q d
  Points-new h a q d ne = record { ne_null = ne; holds = ground arith }

  pub first-ne_null :
      (h : Heap O) (s : Ptr) (xs : Cells) → Chain h s xs → (first s xs == null) ≡ false
  first-ne_null h s [] c = ground arith
  first-ne_null h s ((a, d) ∷ xs) c = ground arith

  -- A chain survives any change that spares its nodes and its sentinel.
  pub Chain-frame :
      (h g : Heap O) (s : Ptr) (xs : Cells)
      → Chain h s xs
      → g.nodes s ≡ h.nodes s
      → ((a : Ptr) → has a xs ≡ true → g.nodes a ≡ h.nodes a)
      → Chain g s xs
  Chain-frame h g s [] c e same = ground arith
  Chain-frame h g s ((a, d) ∷ xs) c e same = (
    c.0,
    ground (arith, same a),
    c.2,
    c.3,
    Chain-frame h g s xs c.4 e λ b i. same b (ground arith),
  )

  -- A write at an address that the chain does not use.
  pub Chain-update :
      (h : Heap O) (s a : Ptr) (c : Option Node) (xs : Cells)
      → Chain h s xs
      → (a == s) ≡ false
      → has a xs ≡ false
      → Chain (with_node h a c) s xs
  Chain-update h s a c xs chain ne out =
      Chain-frame h (with_node h a c) s xs chain (ground arith) λ b i. ground arith

  -- Nothing that the chain uses is free, so a fresh cell is none of its nodes.
  pub not-has_of_none :
      (h : Heap O) (s a : Ptr) (xs : Cells)
      → Chain h s xs
      → h.nodes a ≡ none
      → ((a == s) ≡ false) × (has a xs ≡ false)
  not-has_of_none h s a [] c unused = (ground arith, refl)
  not-has_of_none h s a ((b, d) ∷ xs) c unused = ground (arith, not-has_of_none h s a xs c.4)

pub has-append : (a : Ptr) (xs ys : Cells) → has a (xs ++ ys) ≡ (has a xs || has a ys)
has-append a [] ys = refl
has-append a ((b, d) ∷ xs) ys = ground (arith, has-append a xs ys)

pub items-append : (xs ys : Cells) → items (xs ++ ys) ≡ items xs ++ items ys
items-append [] ys = refl
items-append ((a, d) ∷ xs) ys = ap (◌∷◌ d) (items-append xs ys)

pub ne_of_has : (a b : Ptr) (xs : Cells) → has a xs ≡ false → has b xs ≡ true → (a == b) ≡ false
ne_of_has a b xs out inside = elim (Bool-cases (a == b)) [
  | inl same ↦ let e : a ≡ b = (==_iff a b).0 same in absurd (cc (ap (λ (c : Ptr). has c xs) e))
  | inr other ↦ other
]

pub ne_of_has' : (a b : Ptr) (xs : Cells) → has a xs ≡ false → has b xs ≡ true → (b == a) ≡ false
ne_of_has' a b xs out inside = ground (arith, ne_of_has a b xs out inside)

pub length-items : (xs : Cells) → length (items xs) ≡ length xs
length-items [] = refl
length-items ((a, d) ∷ xs) = ap suc (length-items xs)

pub items-erase_idx : (xs : Cells) (j : ℕ) → items (erase_idx xs j) ≡ erase_idx (items xs) j
items-erase_idx [] j = refl
items-erase_idx ((a, d) ∷ xs) zero = refl
items-erase_idx ((a, d) ∷ xs) (suc j) = ap (◌∷◌ d) (items-erase_idx xs j)
