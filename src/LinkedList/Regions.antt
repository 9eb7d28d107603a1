-- ===== src/LinkedList/Regions.antt =====
-- Several lists in one memory, which share no node and no item, and are freed one by one.
use soii_ipc.Base.{
  sym, ap, ◌∙◌, ℕ, ◌<◌, ◌≡◌, refl, true, false, List, [], ◌∷◌, some, none, arith, ◌==◌, ◌||◌, Bool,
  if◌then◌else◌, length,
}
use soii_ipc.Heap.{Ptr, Heap, free_object}
use soii_ipc.Heap.Chain
use soii_ipc.Heap.Chain.{Cells, has, items}
use soii_ipc.Heap.Returns
use soii_ipc.Heap.Returns.{Returns}
use soii_ipc.LinkedList.{LinkedList, list_free}
use soii_ipc.LinkedList.Basic.{IsList}
use soii_ipc.LinkedList.Removal.{Owned}
use soii_ipc.LinkedList.Release.{holds_item, Distinct, list_free-Freed}

-- A list with its sentinel and its cells.
pub record Region (O : Type 0) : Type 0 where
  pub handle : LinkedList O
  pub sentinel : Ptr
  pub cells : Cells

or_right : (a b : Bool) → b ≡ true → (a || b) ≡ true
or_right true b e = refl
or_right false b e = e

or_false : (a : Bool) → (a || false) ≡ a
or_false true = refl
or_false false = refl

unused : (a b : Bool) → (a ≡ true → b ≡ false) → b ≡ true → a ≡ false
unused true b apart e = cc (apart refl, e)
unused false b apart e = refl

module _ {O : Type 0} where
  abbrev pub uses_node : Ptr → Region O → Bool
  uses_node b r = (b == r.sentinel) || has b r.cells

  abbrev pub uses_item : Ptr → Region O → Bool
  uses_item e r = holds_item e (items r.cells)

  abbrev pub any_node : Ptr → List (Region O) → Bool
  any_node b [] = false
  any_node b (r ∷ rs) = uses_node b r || any_node b rs

  abbrev pub any_item : Ptr → List (Region O) → Bool
  any_item e [] = false
  any_item e (r ∷ rs) = uses_item e r || any_item e rs

  -- A well-formed list, whose items are objects that `free` releases, and that the fuel suffices for.
  pub record IsRegion (fuel : ℕ) (h : Heap O) (r : Region O) : Type 0 where
    pub frees : r.handle.free_data ≡ some free_object
    pub list : IsList h r.handle r.sentinel r.cells
    pub owned : Owned h r.cells
    pub distinct : Distinct (items r.cells)
    pub enough : length r.cells < fuel

  abbrev pub AllRegions : ℕ → Heap O → List (Region O) → Type 0
  AllRegions fuel h [] = Unit {0}
  AllRegions fuel h (r ∷ rs) = IsRegion fuel h r × AllRegions fuel h rs

  -- No node and no item of a list is one of a later list.
  abbrev pub Apart : List (Region O) → Type 0
  Apart [] = Unit {0}
  Apart (r ∷ rs) =
      ((b : Ptr) → uses_node b r ≡ true → any_node b rs ≡ false)
      × ((e : Ptr) → uses_item e r ≡ true → any_item e rs ≡ false)
      × Apart rs

  -- The lists are gone, and nothing else.
  pub record Gone (h : Heap O) (rs : List (Region O)) (g : Heap O) : Type 0 where
    pub nodes : (b : Ptr) → g.nodes b ≡ (if any_node b rs then none else h.nodes b)
    pub objects : (e : Ptr) → g.objects e ≡ (if any_item e rs then none else h.objects e)

  pub Gone-nil : (h : Heap O) → Gone h [] h
  Gone-nil h = record { nodes = λ b. refl; objects = λ e. refl }

  pub Gone-cons :
      (h g k : Heap O) (r : Region O) (rs : List (Region O))
      → Gone h (r ∷ []) g
      → Gone g rs k
      → Gone h (r ∷ rs) k
  Gone-cons h g k r rs one more = record {
    nodes = λ b. ground (arith, one.nodes b, more.nodes b);
    objects = λ e. ground (arith, one.objects e, more.objects e);
  }

  pub Owned-same :
      (h g : Heap O) (xs : Cells)
      → Owned h xs
      → ((e : Ptr) → holds_item e (items xs) ≡ true → g.objects e ≡ h.objects e)
      → Owned g xs
  Owned-same h g [] own same = tt
  Owned-same h g ((a, d) ∷ xs) own same = (
    own.0,
    (own.1.0, same d (ground arith) ∙ own.1.1),
    Owned-same h g xs own.2 λ e inside. same e (ground arith),
  )

  AllRegions-same :
      (fuel : ℕ) (h g : Heap O) (rs : List (Region O))
      → AllRegions fuel h rs
      → ((b : Ptr) → any_node b rs ≡ true → g.nodes b ≡ h.nodes b)
      → ((e : Ptr) → any_item e rs ≡ true → g.objects e ≡ h.objects e)
      → AllRegions fuel g rs
  AllRegions-same fuel h g [] all nodes objects = tt
  AllRegions-same fuel h g (r ∷ rs) (is, all) nodes objects = (
    record {
      frees = is.frees;
      list = (
        is.list.0,
        Chain.Chain-frame h g r.sentinel r.cells is.list.1 (nodes r.sentinel (ground arith))
            λ a inside. nodes a (ground arith),
      );
      owned = Owned-same h g r.cells is.owned λ e inside. objects e (ground arith);
      distinct = is.distinct;
      enough = is.enough;
    },
    AllRegions-same fuel h g rs all
        (λ b inside. nodes b (or_right (uses_node b r) (any_node b rs) inside))
        (λ e inside. objects e (or_right (uses_item e r) (any_item e rs) inside)),
  )

  -- The first list is freed, and the others stay.
  pub list_free-first :
      (fuel : ℕ) (h : Heap O) (r : Region O) (rs : List (Region O))
      → AllRegions fuel h (r ∷ rs)
      → Apart (r ∷ rs)
      → Returns (λ _ g. Gone h (r ∷ []) g × AllRegions fuel g rs) (list_free fuel r.handle h)
  list_free-first fuel h r rs (is, all) (other_nodes, other_items, later) =
      Returns.mono
        (list_free-Freed h r.handle fuel r.sentinel r.cells is.frees is.list is.owned is.distinct
          is.enough)
        λ _ g (nodes, objects). (
          record {
            nodes = λ b.
                nodes b ∙ ap (λ u. if u then none else h.nodes b) (sym (or_false (uses_node b r)));
            objects = λ e.
                objects e
                ∙ ap (λ u. if u then none else h.objects e) (sym (or_false (uses_item e r)));
          },
          AllRegions-same fuel h g rs all
              (λ b inside.
                nodes b
                ∙ ap (λ u. if u then none else h.nodes b)
                    (unused (uses_node b r) (any_node b rs) (other_nodes b) inside))
              (λ e inside.
                objects e
                ∙ ap (λ u. if u then none else h.objects e)
                    (unused (uses_item e r) (any_item e rs) (other_items e) inside)),
        )
