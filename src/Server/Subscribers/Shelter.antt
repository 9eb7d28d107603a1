-- ===== src/Server/Subscribers/Shelter.antt =====
-- Sockets that no session has, when a session changes, goes or comes.
use mathlib.Core.Option.{some-injective}
use soii_ipc.Base.{
  ℕ, ◌≡◌, refl, sym, subst, ◌∙◌, Bool, true, false, inl, inr, List, [], ◌∷◌, ◌++◌, some, arith,
  ◌==◌, Bool-cases, map,
}
use soii_ipc.Seq.Matching.{first_match, replace_first, remove_first}
use soii_ipc.Server.{Connection}
use soii_ipc.Server.Util.{leave}
use soii_ipc.Server.Util.Search.{is_fd, leave-remove_first}
use soii_ipc.Server.Subscribers.{holds, enrolled, Others, Once, AllOnce}
use soii_ipc.Server.Subscribers.Changes.{holds-remove_first}

module _ (p : Connection → Bool) where
  replace_first-hit :
      (v d : Connection) (ds : List Connection) → p d ≡ true → replace_first p v (d ∷ ds) ≡ v ∷ ds
  replace_first-hit v d ds hit = rw (hit, replace_first)

  replace_first-miss :
      (v d : Connection) (ds : List Connection)
      → p d ≡ false
      → replace_first p v (d ∷ ds) ≡ d ∷ replace_first p v ds
  replace_first-miss v d ds miss = rw (miss, replace_first)

  remove_first-hit :
      (d : Connection) (ds : List Connection) → p d ≡ true → remove_first p (d ∷ ds) ≡ ds
  remove_first-hit d ds hit = rw (hit, remove_first)

  remove_first-miss :
      (d : Connection) (ds : List Connection)
      → p d ≡ false
      → remove_first p (d ∷ ds) ≡ d ∷ remove_first p ds
  remove_first-miss d ds miss = rw (miss, remove_first)

module _ (p : Connection → Bool) (g : ℕ) where
  pub Others-unreplaced :
      (cs : List Connection) (c v : Connection)
      → first_match p cs ≡ some c
      → (g == c.sockfd) ≡ false
      → Others g (replace_first p v cs)
      → Others g cs
  Others-unreplaced [] c v m far others = tt
  Others-unreplaced (d ∷ ds) c v m far others = elim (Bool-cases (p d)) [
    | inl hit ↦
        let is : d ≡ c = some-injective d c (sym (rw (hit, first_match)) ∙ m) in
        let rest = subst (Others g) (replace_first-hit p v d ds hit) others in
        (subst (λ (e : Connection). (g == e.sockfd) ≡ false) (sym is) far, rest.1)
    | inr miss ↦
        let m' : first_match p ds ≡ some c = sym (rw (miss, first_match)) ∙ m in
        let rest = subst (Others g) (replace_first-miss p v d ds miss) others in
        (rest.0, Others-unreplaced ds c v m' far rest.1)
  ]

  pub Others-new :
      (cs : List Connection) (c v : Connection)
      → first_match p cs ≡ some c
      → Others g (replace_first p v cs)
      → (g == v.sockfd) ≡ false
  Others-new [] c v m others = cc
  Others-new (d ∷ ds) c v m others = elim (Bool-cases (p d)) [
    | inl hit ↦ let rest = subst (Others g) (replace_first-hit p v d ds hit) others in rest.0
    | inr miss ↦
        let m' : first_match p ds ≡ some c = sym (rw (miss, first_match)) ∙ m in
        let rest = subst (Others g) (replace_first-miss p v d ds miss) others in
        Others-new ds c v m' rest.1
  ]

  -- The session keeps its socket.
  pub Others-changed :
      (cs : List Connection) (c v : Connection)
      → first_match p cs ≡ some c
      → v.sockfd ≡ c.sockfd
      → Others g (replace_first p v cs)
      → Others g cs
  Others-changed cs c v m same others =
      Others-unreplaced cs c v m (subst (λ fd. (g == fd) ≡ false) same (Others-new cs c v m others))
        others

  pub Others-unremoved :
      (cs : List Connection) (c : Connection)
      → first_match p cs ≡ some c
      → (g == c.sockfd) ≡ false
      → Others g (remove_first p cs)
      → Others g cs
  Others-unremoved [] c m far others = tt
  Others-unremoved (d ∷ ds) c m far others = elim (Bool-cases (p d)) [
    | inl hit ↦
        let is : d ≡ c = some-injective d c (sym (rw (hit, first_match)) ∙ m) in
        (
          subst (λ (e : Connection). (g == e.sockfd) ≡ false) (sym is) far,
          subst (Others g) (remove_first-hit p d ds hit) others,
        )
    | inr miss ↦
        let m' : first_match p ds ≡ some c = sym (rw (miss, first_match)) ∙ m in
        let rest = subst (Others g) (remove_first-miss p d ds miss) others in
        (rest.0, Others-unremoved ds c m' far rest.1)
  ]

pub Others-front : (g : ℕ) (cs ds : List Connection) → Others g (cs ++ ds) → Others g cs
Others-front g [] ds others = tt
Others-front g (c ∷ cs) ds (here, others) = (here, Others-front g cs ds others)

pub Others-insert :
    (g : ℕ) (front : List Connection) (c : Connection) (rest : List Connection)
    → (g == c.sockfd) ≡ false
    → Others g (front ++ rest)
    → Others g (front ++ c ∷ rest)
Others-insert g [] c rest far others = (far, others)
Others-insert g (d ∷ front) c rest far (here, others) =
    (here, Others-insert g front c rest far others)

-- A socket that left every room is in none.
pub enrolled-leave :
    (fd : ℕ) (rooms : List (List ℕ)) → AllOnce rooms → enrolled fd (map (leave fd) rooms) ≡ 0
enrolled-leave fd [] all = refl
enrolled-leave fd (r ∷ rooms) (once, all) =
    rw (leave-remove_first fd r, holds-remove_first fd r once, enrolled-leave fd rooms all)

-- Nor is one that was renamed.
holds-replaced :
    (old fd : ℕ) (room : List ℕ)
    → (old == fd) ≡ false
    → Once room
    → holds old (replace_first (is_fd old) fd room) ≡ false
holds-replaced old fd [] far once = refl
holds-replaced old fd (x ∷ xs) far (here, once) = elim (Bool-cases (old == x)) [
  | inl hit ↦
      let same : old ≡ x = ground arith in
      rw (hit, replace_first) (rw far (subst (λ z. holds z xs ≡ false) (sym same) here))
  | inr miss ↦ rw (miss, replace_first) (rw (miss, holds) (holds-replaced old fd xs far once))
]

pub enrolled-replaced :
    (old fd : ℕ) (rooms : List (List ℕ))
    → (old == fd) ≡ false
    → AllOnce rooms
    → enrolled old (map (replace_first (is_fd old) fd) rooms) ≡ 0
enrolled-replaced old fd [] far all = refl
enrolled-replaced old fd (r ∷ rooms) far (once, all) =
    rw (holds-replaced old fd r far once, enrolled-replaced old fd rooms far all)
