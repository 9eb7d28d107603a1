-- ===== src/LinkedList/Arrays/Items.antt =====
-- `list_create_from_array`: what the list holds.
use soii_ipc.Base.{
  ℕ, ◌+◌, ◌<◌, ◌≡◌, ◌≢◌, refl, sym, ◌∙◌, subst, false, List, [], ◌∷◌, ◌++◌, none, arith, ◌==◌,
  length, length-append, append-nil, append_assoc,
}
use soii_ipc.Heap.{Ptr, null, Heap}
use soii_ipc.Heap.Chain.{Cells, has}
use soii_ipc.Heap.Returns
use soii_ipc.Heap.Returns.{Returns, returns}
use soii_ipc.LinkedList.{LinkedList}
use soii_ipc.LinkedList.Basic.{IsList, list_create_lem}
use soii_ipc.LinkedList.Append.{list_add_last-apart}
use soii_ipc.LinkedList.Arrays.{add_all, list_create_from_array}

-- The cells that an array makes.
abbrev pub cells_of : List (Ptr × Ptr) → Cells
cells_of [] = []
cells_of ((item, fresh) ∷ rest) = (fresh, item) ∷ cells_of rest

-- No pointer of the array is NULL, and `calloc` returns a new node for each, none of `xs`.
abbrev pub NewNodes : Ptr → Cells → List (Ptr × Ptr) → Type 0
NewNodes s xs [] = Unit {0}
NewNodes s xs ((item, fresh) ∷ rest) =
    ((item == null) ≡ false)
    × (fresh ≢ null)
    × (((fresh == s) ≡ false) × (has fresh xs ≡ false))
    × NewNodes s (xs ++ (fresh, item) ∷ []) rest

module _ {O : Type 0} where
  -- The list with the cells, the function pointers of `l` and the objects of `h`.
  abbrev pub Holds : Heap O → LinkedList O → Ptr → Cells → LinkedList O → Heap O → Type 0
  Holds h l s xs l' g =
      IsList g l' s xs
      × (l'.free_data ≡ l.free_data)
      × (l'.compare_data ≡ l.compare_data)
      × (g.objects ≡ h.objects)

  add_all-Holds :
      (h : Heap O) (l : LinkedList O) (fuel s : ℕ) (xs : Cells) (array : List (Ptr × Ptr))
      → IsList h l s xs
      → NewNodes s xs array
      → length xs + length array < fuel
      → Returns (Holds h l s (xs ++ cells_of array)) (add_all fuel array l h)
  unfolding add_all
  add_all-Holds h l fuel s xs [] is new enough =
      returns (subst (IsList h l s) (sym (append-nil xs)) is, refl, refl, refl)
  add_all-Holds h l fuel s xs ((item, fresh) ∷ rest) is (ne, made, apart, later) enough =
      let longer = xs ++ (fresh, item) ∷ [] in
      rw ne (
        Returns.bind
          (list_add_last-apart h l fuel s fresh item xs is made apart (omega (arith, enough)))
          λ l' g (is', free, compare, objects).
            Returns.mono
              (add_all-Holds g l' fuel s longer rest is' later
                (omega (arith, enough, length-append {0} xs ((fresh, item) ∷ []))))
              λ l'' k (is'', free', compare', objects'). (
                subst (IsList k l'' s) (append_assoc xs ((fresh, item) ∷ []) (cells_of rest)) is'',
                free' ∙ free,
                compare' ∙ compare,
                objects' ∙ objects,
              ))

  -- From an array of pointers that are not NULL, with a new node for each and for the sentinel,
  -- list_create_from_array makes the list of these pointers, in order, with no function pointers, and
  -- touches no object. The fuel is more than the array's length.
  pub list_create_from_array-items :
      (h : Heap O) (fuel fresh : ℕ) (array : List (Ptr × Ptr))
      → fresh ≢ null
      → NewNodes fresh [] array
      → length array < fuel
      → Returns
          (λ l g.
            IsList g l fresh (cells_of array)
            × (l.free_data ≡ none)
            × (l.compare_data ≡ none)
            × (g.objects ≡ h.objects))
          (list_create_from_array fuel fresh array h)
  unfolding list_create_from_array
  list_create_from_array-items h fuel fresh array made new enough =
      Returns.bind (list_create_lem h fresh made) λ l g (is, free, compare, objects).
        Returns.mono (add_all-Holds g l fuel fresh [] array is new (omega (arith, enough)))
          λ l' k (is', free', compare', objects').
            (is', free' ∙ free, compare' ∙ compare, objects' ∙ objects)
