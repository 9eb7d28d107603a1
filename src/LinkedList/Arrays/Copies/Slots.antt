-- ===== src/LinkedList/Arrays/Copies/Slots.antt =====
-- The memory of the array that `list_to_array` fills.

use soii_ipc.Base.{
  ◌+◌, ◌++◌, ℕ, suc, Option, ◌≡◌, refl, ap, List, [], ◌∷◌, none, some, arith, map, length,
}
use soii_ipc.Heap.{Ptr, Heap, ok}
use soii_ipc.LinkedList.Arrays.{resize, store}

pub add_one : (n : ℕ) → n + 1 ≡ suc n
add_one n = omega arith

-- The array's slots so far, and one behind them.
abbrev pub filled : List Ptr → List (Option Ptr)
filled = map some

pub resize-filled :
    (done : List Ptr)
    → resize (suc (suc (length done))) (filled done ++ none ∷ []) ≡ filled done ++ none ∷ none ∷ []
unfolding resize
resize-filled [] = refl
resize-filled (p ∷ done) = ap (◌∷◌ (some p)) (resize-filled done)

pub store-filled :
    {O : Type 0} (h : Heap O) (done : List Ptr) (p : Ptr) (rest : List (Option Ptr))
    → store (length done) p (filled done ++ none ∷ rest) h ≡ ok (filled done ++ some p ∷ rest) h
unfolding store
store-filled h [] p rest = refl
store-filled h (q ∷ done) p rest = rw (store-filled h done p rest)

pub filled-last :
    (done : List Ptr) (p : Ptr) (rest : List (Option Ptr))
    → filled done ++ some p ∷ rest ≡ filled (done ++ p ∷ []) ++ rest
filled-last [] p rest = refl
filled-last (q ∷ done) p rest = ap (◌∷◌ (some q)) (filled-last done p rest)
