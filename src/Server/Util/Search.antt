-- ===== src/Server/Util/Search.antt =====
-- The two comparison functions, and what the searches with them find.
use soii_ipc.Base.{
  ℕ, ◌≡◌, refl, sym, Bool, ◌⊎◌, inl, inr, List, [], ◌∷◌, none, some, arith, ◌==◌, is_zero, pos,
  minus_one,
}
use soii_ipc.Seq.{find, delete}
use soii_ipc.Seq.Matching.{first_match, replace_first, remove_first, FirstAt, find-FirstAt}
use soii_ipc.Server.{Connection}
use soii_ipc.Server.Util.{conn_compare, compare_fd, with_token, retarget, leave}

-- The tests that the searches amount to.
abbrev pub has_token : ℕ → Connection → Bool
has_token t c = t == c.token

abbrev pub is_fd : ℕ → ℕ → Bool
is_fd fd e = fd == e

pub is_zero-conn_compare :
    (t : ℕ) (c : Connection) → is_zero (conn_compare (with_token t) c) ≡ has_token t c
unfolding conn_compare
is_zero-conn_compare t c = ground arith

pub is_zero-compare_fd : (fd e : ℕ) → is_zero (compare_fd fd e) ≡ is_fd fd e
unfolding compare_fd
is_zero-compare_fd fd e = ground arith

-- The search for a session by its token.
pub find_token :
    (t : ℕ) (cs : List Connection)
    → ((first_match (has_token t) cs ≡ none) × (find conn_compare (with_token t) cs ≡ minus_one))
      ⊎ ((c : Connection) × (j : ℕ) × (first_match (has_token t) cs ≡ some c)
          × (find conn_compare (with_token t) cs ≡ pos j)
          × FirstAt (has_token t) cs c j)
find_token t cs = find-FirstAt (has_token t) conn_compare (with_token t) (is_zero-conn_compare t) cs

-- The search for a socket in a room.
pub find_fd :
    (fd : ℕ) (room : List ℕ)
    → ((first_match (is_fd fd) room ≡ none) × (find compare_fd fd room ≡ minus_one))
      ⊎ ((e : ℕ) × (j : ℕ) × (first_match (is_fd fd) room ≡ some e)
          × (find compare_fd fd room ≡ pos j)
          × FirstAt (is_fd fd) room e j)
find_fd fd room = find-FirstAt (is_fd fd) compare_fd fd (is_zero-compare_fd fd) room

replace_first-none {ℓ} :
    {A : Type ℓ} (p : A → Bool) (v : A) (xs : List A)
    → first_match p xs ≡ none
    → replace_first p v xs ≡ xs
replace_first-none p v [] e = refl
replace_first-none p v (x ∷ xs) e = ground (arith, replace_first-none p v xs)

remove_first-none {ℓ} :
    {A : Type ℓ} (p : A → Bool) (xs : List A) → first_match p xs ≡ none → remove_first p xs ≡ xs
remove_first-none p [] e = refl
remove_first-none p (x ∷ xs) e = ground (arith, remove_first-none p xs)

-- A socket leaves a room by its first entry.
pub leave-remove_first : (fd : ℕ) (room : List ℕ) → leave fd room ≡ remove_first (is_fd fd) room
unfolding leave delete
leave-remove_first fd room = elim (find_fd fd room) [
  | inl (nowhere, r) ↦ rw (r, leave) (sym (remove_first-none (is_fd fd) room nowhere))
  | inr (e, j, m, r, at) ↦ rw (r, leave) at.remove
]

-- A room's first entry for a socket is renamed.
pub retarget-replace_first :
    (old new : ℕ) (room : List ℕ) → retarget old new room ≡ replace_first (is_fd old) new room
unfolding retarget
retarget-replace_first old new room = elim (find_fd old room) [
  | inl (nowhere, r) ↦ rw (r, retarget) (sym (replace_first-none (is_fd old) new room nowhere))
  | inr (e, j, m, r, at) ↦ rw (r, retarget) (at.replace new)
]
