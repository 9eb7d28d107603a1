-- ===== src/Seq.antt =====
-- The contract of server/src/list.c on plain sequences: what each operation does to the items.
pub mod Matching
use soii_ipc.Base.{
  ℕ, zero, suc, ◌+◌, List, [], ◌∷◌, ◌++◌, Option, none, some, ℤ, pos, negsuc, minus_one, is_zero,
  ltb, if◌then◌else◌, length, get_elem?, erase_idx,
}

module _ {ℓ} {A : Type ℓ} where
  abbrev pub add_start : A → List A → List A
  add_start x xs = x ∷ xs

  abbrev pub add_last : A → List A → List A
  add_last x xs = xs ++ x ∷ []

  unfoldable pub find_from : (A → A → ℤ) → A → ℕ → List A → ℤ
  find_from compare x i [] = minus_one
  find_from compare x i (y ∷ ys) =
      if is_zero (compare x y) then pos i else find_from compare x (i + 1) ys

  unfoldable pub find : (A → A → ℤ) → A → List A → ℤ
  unfolding find_from
  find compare x xs = find_from compare x 0 xs

  unfoldable pub delete : ℤ → List A → List A × ℤ
  delete (negsuc n) xs = (xs, minus_one)
  delete (pos i) xs = (erase_idx xs i, if ltb i (length xs) then pos 1 else minus_one)

  unfoldable pub get : ℤ → List A → Option A
  get (negsuc n) xs = none
  get (pos i) xs = get_elem? xs i
