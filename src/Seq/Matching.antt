-- ===== src/Seq/Matching.antt =====
-- A search followed by a use of the index it found is an operation on the first match.
use mathlib.Core.Option.{some-injective}
use soii_ipc.Base.{
  sym, subst, ℕ, suc, ◌+◌, ◌<◌, ◌≡◌, refl, ap, ◌∙◌, Bool, true, false, ◌⊎◌, inl, inr, List, [], ◌∷◌,
  Option, none, some, arith, if◌then◌else◌, Bool-cases, length, get_elem?, set, erase_idx, ℤ, pos,
  minus_one, is_zero,
}
use soii_ipc.Seq.{find, find_from}

module _ {ℓ} {A : Type ℓ} (p : A → Bool) where
  abbrev pub first_match : List A → Option A
  first_match [] = none
  first_match (x ∷ xs) = if p x then some x else first_match xs

  abbrev pub replace_first : A → List A → List A
  replace_first v [] = []
  replace_first v (x ∷ xs) = if p x then v ∷ xs else x ∷ replace_first v xs

  abbrev pub remove_first : List A → List A
  remove_first [] = []
  remove_first (x ∷ xs) = if p x then xs else x ∷ remove_first xs

module _ {ℓ} {A : Type ℓ} (p : A → Bool) where
  -- `j` is the place of the first match, and `y` is the match.
  pub record FirstAt (xs : List A) (y : A) (j : ℕ) : Type ℓ where
    pub inside : j < length xs
    pub get : get_elem? xs j ≡ some y
    pub replace : (v : A) → set xs j v ≡ replace_first p v xs
    pub remove : erase_idx xs j ≡ remove_first p xs

  FirstAt-here : (x : A) (xs : List A) → p x ≡ true → FirstAt (x ∷ xs) x 0
  FirstAt-here x xs h = record {
    inside = omega arith;
    get = refl;
    replace = λ v. rw (h, replace_first);
    remove = rw (h, remove_first);
  }

  FirstAt-later :
      (x y : A) (xs : List A) (j : ℕ) → p x ≡ false → FirstAt xs y j → FirstAt (x ∷ xs) y (suc j)
  FirstAt-later x y xs j h at = record {
    inside = omega (arith, at.inside);
    get = at.get;
    replace = λ v. rw (h, replace_first) (ap (◌∷◌ x) (at.replace v));
    remove = rw (h, remove_first) (ap (◌∷◌ x) at.remove);
  }

  module _ (compare : A → A → ℤ) (x : A) (tests : (y : A) → is_zero (compare x y) ≡ p y) where
    abbrev Outcome : ℕ → List A → ℤ → Type ℓ
    Outcome i xs r =
        ((first_match p xs ≡ none) × (r ≡ minus_one))
        ⊎ ((y : A) × (j : ℕ) × (first_match p xs ≡ some y) × (r ≡ pos (i + j)) × FirstAt xs y j)

    find_from-Outcome : (i : ℕ) (xs : List A) → Outcome i xs (find_from compare x i xs)
    unfolding find_from
    find_from-Outcome i [] = inl (refl, refl)
    find_from-Outcome i (y ∷ ys) = elim (Bool-cases (p y)) [
      | inl hit ↦ inr (
        y,
        0,
        rw (hit, first_match),
        rw (tests y, hit, find_from) (ap pos (omega arith)),
        FirstAt-here y ys hit,
      )
      | inr miss ↦ elim (find_from-Outcome (i + 1) ys) [
        | inl (nowhere, r) ↦ inl (rw (miss, first_match) nowhere, rw (tests y, miss, find_from) r)
        | inr (z, j, m, r, at) ↦ inr (
          z,
          suc j,
          rw (miss, first_match) m,
          rw (tests y, miss, find_from) (r ∙ ap pos (omega arith)),
          FirstAt-later y z ys j miss at,
        )
      ]
    ]

    -- The search fails if nothing matches, and gives the place of the first match otherwise.
    pub find-FirstAt :
        (xs : List A)
        → ((first_match p xs ≡ none) × (find compare x xs ≡ minus_one))
          ⊎ ((y : A) × (j : ℕ) × (first_match p xs ≡ some y)
              × (find compare x xs ≡ pos j)
              × FirstAt xs y j)
    unfolding find
    find-FirstAt xs = elim (find_from-Outcome 0 xs) [
      | inl (nowhere, r) ↦ inl (nowhere, r)
      | inr (y, j, m, r, at) ↦ inr (y, j, m, r ∙ ap pos (omega arith), at)
    ]

module _ {ℓ} {A : Type ℓ} (p : A → Bool) where
  first_match-hit : (x : A) (xs : List A) → p x ≡ true → first_match p (x ∷ xs) ≡ some x
  first_match-hit x xs h = rw (h, first_match)

  first_match-miss : (x : A) (xs : List A) → p x ≡ false → first_match p (x ∷ xs) ≡ first_match p xs
  first_match-miss x xs h = rw (h, first_match)

  -- What a first match is, and what follows a replacement of it.
  pub first_match-passes : (xs : List A) (y : A) → first_match p xs ≡ some y → p y ≡ true
  first_match-passes [] y e = cc
  first_match-passes (x ∷ xs) y e = elim (Bool-cases (p x)) [
    | inl hit ↦
        subst (λ z. p z ≡ true) (some-injective x y (sym (first_match-hit x xs hit) ∙ e)) hit
    | inr miss ↦ first_match-passes xs y (sym (first_match-miss x xs miss) ∙ e)
  ]

  pub first_match-replace_first :
      (v : A) (xs : List A) (y : A)
      → p v ≡ true
      → first_match p xs ≡ some y
      → first_match p (replace_first p v xs) ≡ some v
  first_match-replace_first v [] y h e = cc
  first_match-replace_first v (x ∷ xs) y h e = elim (Bool-cases (p x)) [
    | inl hit ↦ rw (hit, replace_first) (rw (h, first_match))
    | inr miss ↦
        rw (miss, replace_first)
          (rw (miss, first_match)
            (first_match-replace_first v xs y h (sym (first_match-miss x xs miss) ∙ e)))
  ]

  pub replace_first-replace_first :
      (u v : A) (xs : List A)
      → p u ≡ true
      → replace_first p v (replace_first p u xs) ≡ replace_first p v xs
  replace_first-replace_first u v [] h = refl
  replace_first-replace_first u v (x ∷ xs) h = elim (Bool-cases (p x)) [
    | inl hit ↦ rw (hit, replace_first) (rw (h, replace_first))
    | inr miss ↦
        rw (miss, replace_first)
          (rw (miss, replace_first) (ap (◌∷◌ x) (replace_first-replace_first u v xs h)))
  ]
