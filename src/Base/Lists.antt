-- ===== src/Base/Lists.antt =====
-- Lists measured and indexed by native numbers, under the library's names.
use Prim.Native.Nat.{ℕ, zero, suc, ◌+◌, ◌≤◌, ◌<◌}
use mathlib.Core.Path.{◌≡◌, refl, sym, ap}
use mathlib.Core.Bool.{Bool, true, false}
use mathlib.Core.List.{List, [], ◌∷◌, ◌++◌}
use mathlib.Core.Option.{Option, none, some, some-injective}
use native.Mathlib.Omega.{arith}

module _ {ℓ} {A : Type ℓ} where
  abbrev pub length : List A → ℕ
  length [] = 0
  length (x ∷ xs) = suc (length xs)

  abbrev pub get_elem? : List A → ℕ → Option A
  get_elem? [] i = none
  get_elem? (x ∷ xs) zero = some x
  get_elem? (x ∷ xs) (suc i) = get_elem? xs i

  -- A write out of bounds changes nothing.
  abbrev pub set : List A → ℕ → A → List A
  set [] i v = []
  set (x ∷ xs) zero v = v ∷ xs
  set (x ∷ xs) (suc i) v = x ∷ set xs i v

  -- The list without its element `i`.
  abbrev pub erase_idx : List A → ℕ → List A
  erase_idx [] i = []
  erase_idx (x ∷ xs) zero = xs
  erase_idx (x ∷ xs) (suc i) = x ∷ erase_idx xs i

  abbrev pub take : ℕ → List A → List A
  take zero xs = []
  take (suc n) [] = []
  take (suc n) (x ∷ xs) = x ∷ take n xs

  abbrev pub drop : ℕ → List A → List A
  drop zero xs = xs
  drop (suc n) [] = []
  drop (suc n) (x ∷ xs) = drop n xs

  abbrev pub replicate : ℕ → A → List A
  replicate zero a = []
  replicate (suc n) a = a ∷ replicate n a

module _ {ℓ} {A : Type ℓ} where
  pub length-append : (xs ys : List A) → length (xs ++ ys) ≡ length xs + length ys
  length-append [] ys = omega arith
  length-append (x ∷ xs) ys = omega (arith, length-append xs ys)

  pub length-replicate : (n : ℕ) (a : A) → length (replicate n a) ≡ n
  length-replicate zero a = refl
  length-replicate (suc n) a = ap suc (length-replicate n a)

  pub take-append-drop : (n : ℕ) (xs : List A) → take n xs ++ drop n xs ≡ xs
  take-append-drop zero xs = refl
  take-append-drop (suc n) [] = refl
  take-append-drop (suc n) (x ∷ xs) = rw (take-append-drop n xs)

  -- The first `length xs` elements of a concatenation, and what follows them.
  pub take-length-append : (xs ys : List A) → take (length xs) (xs ++ ys) ≡ xs
  take-length-append [] ys = refl
  take-length-append (x ∷ xs) ys = ap (◌∷◌ x) (take-length-append xs ys)

  pub drop-length-append : (xs ys : List A) → drop (length xs) (xs ++ ys) ≡ ys
  drop-length-append [] ys = refl
  drop-length-append (x ∷ xs) ys = drop-length-append xs ys

-- It holds of every element.
abbrev pub Each {ℓ κ} : {A : Type ℓ} → (A → Type κ) → List A → Type κ
Each P [] = Unit {κ}
Each P (x ∷ xs) = P x × Each P xs

pub Each-all {ℓ κ} : {A : Type ℓ} (P : A → Type κ) → ((x : A) → P x) → (xs : List A) → Each P xs
Each-all P all [] = tt
Each-all P all (x ∷ xs) = (all x, Each-all P all xs)

pub Each-append {ℓ κ} :
    {A : Type ℓ} (P : A → Type κ) (xs ys : List A) → Each P xs → Each P ys → Each P (xs ++ ys)
Each-append P [] ys h k = k
Each-append P (x ∷ xs) ys (here, h) k = (here, Each-append P xs ys h k)

module _ {ℓ} {A : Type ℓ} where
  -- The elements that pass a test.
  abbrev pub select : (A → Bool) → List A → List A
  select p [] = []
  select p (x ∷ xs) = elim (p x) [ true ↦ x ∷ select p xs | false ↦ select p xs ]

  -- Taking out the element behind a front.
  pub erase_idx-append :
      (xs : List A) (y : A) (ys : List A) → erase_idx (xs ++ y ∷ ys) (length xs) ≡ xs ++ ys
  erase_idx-append [] y ys = refl
  erase_idx-append (x ∷ xs) y ys = ap (◌∷◌ x) (erase_idx-append xs y ys)

  pub length-snoc : (xs : List A) (y : A) → length (xs ++ y ∷ []) ≡ length xs + 1
  length-snoc xs y = omega (arith, length-append xs (y ∷ []))

  pub select-true :
      (p : A → Bool) (x : A) (xs : List A) → p x ≡ true → select p (x ∷ xs) ≡ x ∷ select p xs
  select-true p x xs h = rw (h, select)

  pub select-false :
      (p : A → Bool) (x : A) (xs : List A) → p x ≡ false → select p (x ∷ xs) ≡ select p xs
  select-false p x xs h = rw (h, select)

module _ {ℓ} {A : Type ℓ} where
  -- Reads and writes at an index.
  pub set-set : (xs : List A) (i : ℕ) (a b : A) → set (set xs i a) i b ≡ set xs i b
  set-set [] i a b = refl
  set-set (x ∷ xs) zero a b = refl
  set-set (x ∷ xs) (suc i) a b = ap (◌∷◌ x) (set-set xs i a b)

  pub get_elem?-outside : (xs : List A) (k : ℕ) → get_elem? xs k ≡ none → length xs ≤ k
  get_elem?-outside [] k e = omega arith
  get_elem?-outside (x ∷ xs) zero e = cc
  get_elem?-outside (x ∷ xs) (suc k) e = omega (arith, get_elem?-outside xs k e)

  pub get_elem?-inside : (xs : List A) (k : ℕ) (a : A) → get_elem? xs k ≡ some a → k < length xs
  get_elem?-inside [] k a e = cc
  get_elem?-inside (x ∷ xs) zero a e = omega arith
  get_elem?-inside (x ∷ xs) (suc k) a e = omega (arith, get_elem?-inside xs k a e)

  pub get_elem?-set :
      (xs : List A) (k : ℕ) (a b : A) → get_elem? xs k ≡ some a → get_elem? (set xs k b) k ≡ some b
  get_elem?-set [] k a b e = cc
  get_elem?-set (x ∷ xs) zero a b e = refl
  get_elem?-set (x ∷ xs) (suc k) a b e = get_elem?-set xs k a b e

  pub set-same : (xs : List A) (k : ℕ) (a : A) → get_elem? xs k ≡ some a → set xs k a ≡ xs
  set-same [] k a e = refl
  set-same (x ∷ xs) zero a e = ap (λ z. z ∷ xs) (some-injective a x (sym e))
  set-same (x ∷ xs) (suc k) a e = ap (◌∷◌ x) (set-same xs k a e)

  pub length-set : (xs : List A) (k : ℕ) (a : A) → length (set xs k a) ≡ length xs
  length-set [] k a = refl
  length-set (x ∷ xs) zero a = refl
  length-set (x ∷ xs) (suc k) a = ap suc (length-set xs k a)

module _ {ℓ} {A : Type ℓ} where
  pub length-take_le : (n : ℕ) (xs : List A) → length (take n xs) ≤ n
  length-take_le zero xs = omega arith
  length-take_le (suc n) [] = omega arith
  length-take_le (suc n) (x ∷ xs) = omega (arith, length-take_le n xs)

  pub take_of_length_le : (n : ℕ) (xs : List A) → length xs ≤ n → take n xs ≡ xs
  take_of_length_le zero [] h = refl
  take_of_length_le zero (x ∷ xs) h = absurd (omega arith)
  take_of_length_le (suc n) [] h = refl
  take_of_length_le (suc n) (x ∷ xs) h = ap (◌∷◌ x) (take_of_length_le n xs (omega arith))
