-- ===== src/Server/Subscribers/Changes.antt =====
-- What a change of one room or of one session does to the counts.
use mathlib.Core.Option.{some-injective}
use soii_ipc.Base.{
  ℕ, zero, suc, ◌+◌, ◌≤◌, ◌≡◌, refl, sym, ap, subst, ◌∙◌, true, false, inl, inr, List, [], ◌∷◌,
  ◌++◌, none, some, arith, ◌==◌, if◌then◌else◌, Bool-cases, length, get_elem?, set,
}
use soii_ipc.Seq.Matching.{first_match, remove_first}
use soii_ipc.Server.Util.Search.{is_fd}
use soii_ipc.Server.Subscribers.{holds, enrolled, Once, AllOnce}

pub swap_miss : (a b : ℕ) → (a == b) ≡ false → (b == a) ≡ false
swap_miss a b e = ground arith

pub holds-head : (fd x : ℕ) (xs : List ℕ) → holds fd (x ∷ xs) ≡ false → (fd == x) ≡ false
holds-head fd x xs e = ground arith

pub holds-tail : (fd x : ℕ) (xs : List ℕ) → holds fd (x ∷ xs) ≡ false → holds fd xs ≡ false
holds-tail fd x xs e = ground arith

pub holds-none :
    (fd : ℕ) (room : List ℕ) → first_match (is_fd fd) room ≡ none → holds fd room ≡ false
holds-none fd [] e = refl
holds-none fd (x ∷ xs) e = ground (arith, holds-none fd xs)

pub holds-some :
    (fd e : ℕ) (room : List ℕ) → first_match (is_fd fd) room ≡ some e → holds fd room ≡ true
holds-some fd e [] m = cc
holds-some fd e (x ∷ xs) m = ground (arith, holds-some fd e xs)

-- A socket at the end of a room.
pub holds-last : (fd : ℕ) (room : List ℕ) → holds fd (room ++ fd ∷ []) ≡ true
holds-last fd [] = ground arith
holds-last fd (x ∷ xs) = ground (arith, holds-last fd xs)

pub holds-last_other :
    (fd new : ℕ) (room : List ℕ) → (fd == new) ≡ false → holds fd (room ++ new ∷ []) ≡ holds fd room
holds-last_other fd new [] other = rw other
holds-last_other fd new (x ∷ xs) other = ground (arith, holds-last_other fd new xs)

pub holds-remove_first_other :
    (fd old : ℕ) (room : List ℕ)
    → (fd == old) ≡ false
    → holds fd (remove_first (is_fd old) room) ≡ holds fd room
holds-remove_first_other fd old [] other = refl
holds-remove_first_other fd old (x ∷ xs) other = ground (arith, holds-remove_first_other fd old xs)

pub holds-remove_first :
    (fd : ℕ) (room : List ℕ) → Once room → holds fd (remove_first (is_fd fd) room) ≡ false
holds-remove_first fd [] once = refl
holds-remove_first fd (x ∷ xs) (here, once) = elim (Bool-cases (fd == x)) [
  | inl hit ↦
      let same : fd ≡ x = ground arith in rw hit (subst (λ z. holds z xs ≡ false) (sym same) here)
  | inr miss ↦ rw (miss, remove_first) (rw (miss, holds) (holds-remove_first fd xs once))
]

pub Once-last :
    (fd : ℕ) (room : List ℕ) → holds fd room ≡ false → Once room → Once (room ++ fd ∷ [])
Once-last fd [] absent once = (refl, once)
Once-last fd (x ∷ xs) absent (here, once) = (
  holds-last_other x fd xs (swap_miss fd x (holds-head fd x xs absent)) ∙ here,
  Once-last fd xs (holds-tail fd x xs absent) once,
)

pub Once-remove_first : (fd : ℕ) (room : List ℕ) → Once room → Once (remove_first (is_fd fd) room)
Once-remove_first fd [] once = once
Once-remove_first fd (x ∷ xs) (here, once) = elim (Bool-cases (fd == x)) [
  | inl hit ↦ rw (hit, remove_first) once
  | inr miss ↦
      rw (miss, remove_first)
        (
          holds-remove_first_other x fd xs (swap_miss fd x miss) ∙ here,
          Once-remove_first fd xs once,
        )
]

-- A change of one room, seen by the number of rooms that a socket is in.
pub enrolled-set_same :
    (fd : ℕ) (rooms : List (List ℕ)) (k : ℕ) (room new : List ℕ)
    → get_elem? rooms k ≡ some room
    → holds fd new ≡ holds fd room
    → enrolled fd (set rooms k new) ≡ enrolled fd rooms
enrolled-set_same fd [] k room new at e = refl
enrolled-set_same fd (r ∷ rooms) zero room new at e =
    let is : r ≡ room = some-injective r room at in
    ap (λ b. (if b then 1 else 0) + enrolled fd rooms) (e ∙ ap (holds fd) (sym is))
enrolled-set_same fd (r ∷ rooms) (suc k) room new at e =
    ap (λ n. (if holds fd r then 1 else 0) + n) (enrolled-set_same fd rooms k room new at e)

pub enrolled-set_more :
    (fd : ℕ) (rooms : List (List ℕ)) (k : ℕ) (room new : List ℕ)
    → get_elem? rooms k ≡ some room
    → holds fd room ≡ false
    → holds fd new ≡ true
    → enrolled fd (set rooms k new) ≡ enrolled fd rooms + 1
enrolled-set_more fd [] k room new at out in_ = cc
enrolled-set_more fd (r ∷ rooms) zero room new at out in_ =
    let is : r ≡ room = some-injective r room at in
    let out' : holds fd r ≡ false = ap (holds fd) is ∙ out in rw (out', in_) (omega arith)
enrolled-set_more fd (r ∷ rooms) (suc k) room new at out in_ =
    omega (arith, enrolled-set_more fd rooms k room new at out in_)

pub enrolled-set_fewer :
    (fd : ℕ) (rooms : List (List ℕ)) (k : ℕ) (room new : List ℕ)
    → get_elem? rooms k ≡ some room
    → holds fd room ≡ true
    → holds fd new ≡ false
    → enrolled fd (set rooms k new) + 1 ≡ enrolled fd rooms
enrolled-set_fewer fd [] k room new at was gone = cc
enrolled-set_fewer fd (r ∷ rooms) zero room new at was gone =
    let is : r ≡ room = some-injective r room at in
    let was' : holds fd r ≡ true = ap (holds fd) is ∙ was in rw (was', gone) (omega arith)
enrolled-set_fewer fd (r ∷ rooms) (suc k) room new at was gone =
    omega (arith, enrolled-set_fewer fd rooms k room new at was gone)

pub enrolled-le : (fd : ℕ) (rooms : List (List ℕ)) → enrolled fd rooms ≤ length rooms
enrolled-le fd [] = omega arith
enrolled-le fd (r ∷ rooms) = elim (Bool-cases (holds fd r)) [
  | inl h ↦ rw h (omega (arith, enrolled-le fd rooms))
  | inr h ↦ rw h (omega (arith, enrolled-le fd rooms))
]

pub AllOnce-get_elem? :
    (rooms : List (List ℕ)) (k : ℕ) (room : List ℕ)
    → AllOnce rooms
    → get_elem? rooms k ≡ some room
    → Once room
AllOnce-get_elem? [] k room all at = cc
AllOnce-get_elem? (r ∷ rooms) zero room (here, all) at = subst Once (some-injective r room at) here
AllOnce-get_elem? (r ∷ rooms) (suc k) room (here, all) at = AllOnce-get_elem? rooms k room all at

pub AllOnce-set :
    (rooms : List (List ℕ)) (k : ℕ) (new : List ℕ)
    → AllOnce rooms
    → Once new
    → AllOnce (set rooms k new)
AllOnce-set [] k new all once = all
AllOnce-set (r ∷ rooms) zero new (here, all) once = (once, all)
AllOnce-set (r ∷ rooms) (suc k) new (here, all) once = (here, AllOnce-set rooms k new all once)
