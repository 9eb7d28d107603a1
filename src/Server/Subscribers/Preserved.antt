-- ===== src/Server/Subscribers/Preserved.antt =====
-- What every command of the CLI keeps of sessions and rooms.
use soii_ipc.Base.{
  ℕ, ◌+◌, ◌≤◌, ◌≡◌, refl, sym, ap, subst, ◌∙◌, Bool, true, false, inl, inr, List, [], ◌∷◌, ◌++◌,
  none, some, arith, ◌==◌, Bool-cases, get_elem?, set, length-set,
}
use mathlib.Core.Option.{some-injective}
use soii_ipc.Base.Words.{increment, decrement}
use soii_ipc.Seq.Matching.{first_match, replace_first, remove_first}
use soii_ipc.Protocol.{Md5}
use soii_ipc.Server.{Connection, Server, no_productores}
use soii_ipc.Server.Util.Search.{has_token, is_fd}
use soii_ipc.Server.Commands.Subscriptions.{joined, left}
use soii_ipc.Server.Subscribers.{holds, enrolled, Others, Counted, Once, WellFormed}
use soii_ipc.Server.Subscribers.Shelter.{Others-changed}
use soii_ipc.Server.Subscribers.Changes.{
  swap_miss, holds-none, holds-some, holds-last, holds-last_other, holds-remove_first,
  holds-remove_first_other, Once-last, Once-remove_first, enrolled-set_same, enrolled-set_more,
  enrolled-set_fewer, enrolled-le, AllOnce-get_elem?, AllOnce-set,
}

module _ (p : Connection → Bool) where
  pub Others-first_match :
      (fd : ℕ) (cs : List Connection) (c : Connection)
      → Others fd cs
      → first_match p cs ≡ some c
      → (fd == c.sockfd) ≡ false
  Others-first_match fd [] c others m = cc
  Others-first_match fd (d ∷ ds) c (here, others) m = elim (Bool-cases (p d)) [
    | inl hit ↦
        let is : d ≡ c = some-injective d c (sym (rw (hit, first_match)) ∙ m) in
        subst (λ (e : Connection). (fd == e.sockfd) ≡ false) is here
    | inr miss ↦ Others-first_match fd ds c others (sym (rw (miss, first_match)) ∙ m)
  ]

  pub Others-replace_first :
      (fd : ℕ) (cs : List Connection) (v : Connection)
      → Others fd cs
      → (fd == v.sockfd) ≡ false
      → Others fd (replace_first p v cs)
  Others-replace_first fd [] v others apart = others
  Others-replace_first fd (d ∷ ds) v (here, others) apart = elim (Bool-cases (p d)) [
    | inl hit ↦ rw (hit, replace_first) (apart, others)
    | inr miss ↦ rw (miss, replace_first) (here, Others-replace_first fd ds v others apart)
  ]

-- The other sessions, when only one socket's rooms change.
pub Counted-Others :
    (fd : ℕ) (old new : List (List ℕ)) (cs : List Connection)
    → ((g : ℕ) → (fd == g) ≡ false → enrolled g new ≡ enrolled g old)
    → Others fd cs
    → Counted old cs
    → Counted new cs
Counted-Others fd old new [] same others counted = counted
Counted-Others fd old new (d ∷ ds) same (here, others) (count, apart, counted) =
    (count ∙ sym (same d.sockfd here), apart, Counted-Others fd old new ds same others counted)

module _ (p : Connection → Bool) where
  pub Counted-replace_first :
      (old new : List (List ℕ)) (cs : List Connection) (c v : Connection)
      → first_match p cs ≡ some c
      → v.sockfd ≡ c.sockfd
      → v.susc_counter ≡ enrolled c.sockfd new
      → ((g : ℕ) → (c.sockfd == g) ≡ false → enrolled g new ≡ enrolled g old)
      → Counted old cs
      → Counted new (replace_first p v cs)
  Counted-replace_first old new [] c v m fd count same counted = cc
  Counted-replace_first old new (d ∷ ds) c v m fd count same (here, apart, counted) =
      elim (Bool-cases (p d)) [
        | inl hit ↦
            let is : d ≡ c = some-injective d c (sym (rw (hit, first_match)) ∙ m) in
            let others : Others c.sockfd ds =
              subst (λ (e : Connection). Others e.sockfd ds) is apart in
            rw (hit, replace_first)
              (
                count ∙ ap (λ z. enrolled z new) (sym fd),
                subst (λ z. Others z ds) (sym fd) others,
                Counted-Others c.sockfd old new ds same others counted,
              )
        | inr miss ↦
            let m' : first_match p ds ≡ some c = sym (rw (miss, first_match)) ∙ m in
            let far : (d.sockfd == c.sockfd) ≡ false =
              Others-first_match p d.sockfd ds c apart m' in
            rw (miss, replace_first)
              (
                here ∙ sym (same d.sockfd (swap_miss d.sockfd c.sockfd far)),
                Others-replace_first p d.sockfd ds v apart
                    (subst (λ z. (d.sockfd == z) ≡ false) (sym fd) far),
                Counted-replace_first old new ds c v m' fd count same counted,
              )
      ]

  pub first_count :
      (rooms : List (List ℕ)) (cs : List Connection) (c : Connection)
      → first_match p cs ≡ some c
      → Counted rooms cs
      → c.susc_counter ≡ enrolled c.sockfd rooms
  first_count rooms [] c m counted = cc
  first_count rooms (d ∷ ds) c m (here, apart, counted) = elim (Bool-cases (p d)) [
    | inl hit ↦
        let is : d ≡ c = some-injective d c (sym (rw (hit, first_match)) ∙ m) in
        subst (λ (e : Connection). e.susc_counter ≡ enrolled e.sockfd rooms) is here
    | inr miss ↦ first_count rooms ds c (sym (rw (miss, first_match)) ∙ m) counted
  ]

-- `++` and `--` of a count of rooms.
increment-count : (x n : ℕ) → x ≡ n → n ≤ no_productores → increment x ≡ n + 1
increment-count x n e h = omega arith

decrement-count : (x n m : ℕ) → x ≡ n → m + 1 ≡ n → n ≤ no_productores → decrement x ≡ m
decrement-count x n m e f h = omega arith

module _ ⦃md5 : Md5⦄ (t : ℕ) (c : Connection) (k : ℕ) (room : List ℕ) (s : Server)
    (ok : WellFormed s) (known : first_match (has_token t) s.connections ≡ some c)
    (there : get_elem? s.rooms k ≡ some room) where
  count : c.susc_counter ≡ enrolled c.sockfd s.rooms
  count = first_count (has_token t) s.rooms s.connections c known ok.counted

  bound : enrolled c.sockfd s.rooms ≤ no_productores
  bound = omega (arith, enrolled-le c.sockfd s.rooms, ok.rooms)

  pub joined-WellFormed :
      first_match (is_fd c.sockfd) room ≡ none → WellFormed (joined t c k room s)
  joined-WellFormed absent =
      let out : holds c.sockfd room ≡ false = holds-none c.sockfd room absent in
      record {
        rooms = length-set s.rooms k (room ++ c.sockfd ∷ []) ∙ ok.rooms;
        once =
            AllOnce-set s.rooms k (room ++ c.sockfd ∷ []) ok.once
              (Once-last c.sockfd room out (AllOnce-get_elem? s.rooms k room ok.once there));
        counted =
            Counted-replace_first (has_token t) s.rooms (set s.rooms k (room ++ c.sockfd ∷ []))
              s.connections c
              (record c { timestamp = s.clock 1; susc_counter = increment c.susc_counter }) known
              refl
              (increment-count c.susc_counter _ count bound
                ∙ sym (
                    enrolled-set_more c.sockfd s.rooms k room _ there out
                      (holds-last c.sockfd room)))
              (λ g far.
                enrolled-set_same g s.rooms k room _ there
                  (holds-last_other g c.sockfd room (swap_miss c.sockfd g far)))
              ok.counted;
        sheltered = λ g others.
            let before =
              Others-changed (has_token t) g s.connections c
                (record c { timestamp = s.clock 1; susc_counter = increment c.susc_counter }) known
                refl others in
            enrolled-set_same g s.rooms k room _ there (
              holds-last_other g c.sockfd room
                (Others-first_match (has_token t) g s.connections c before known))
            ∙ ok.sheltered g before;
      }

  pub left-WellFormed :
      (e : ℕ) → first_match (is_fd c.sockfd) room ≡ some e → WellFormed (left t c k room s)
  left-WellFormed e present =
      let in_it : holds c.sockfd room ≡ true = holds-some c.sockfd e room present in
      let once : Once room = AllOnce-get_elem? s.rooms k room ok.once there in
      let new : List ℕ = remove_first (is_fd c.sockfd) room in
      record {
        rooms = length-set s.rooms k new ∙ ok.rooms;
        once = AllOnce-set s.rooms k new ok.once (Once-remove_first c.sockfd room once);
        counted =
            Counted-replace_first (has_token t) s.rooms (set s.rooms k new) s.connections c
              (record c { timestamp = s.clock 0; susc_counter = decrement c.susc_counter }) known
              refl
              (decrement-count c.susc_counter _ _ count
                (enrolled-set_fewer c.sockfd s.rooms k room new there in_it
                  (holds-remove_first c.sockfd room once))
                bound)
              (λ g far.
                enrolled-set_same g s.rooms k room new there
                  (holds-remove_first_other g c.sockfd room (swap_miss c.sockfd g far)))
              ok.counted;
        sheltered = λ g others.
            let before =
              Others-changed (has_token t) g s.connections c
                (record c { timestamp = s.clock 0; susc_counter = decrement c.susc_counter }) known
                refl others in
            enrolled-set_same g s.rooms k room new there (
              holds-remove_first_other g c.sockfd room
                (Others-first_match (has_token t) g s.connections c before known))
            ∙ ok.sheltered g before;
      }
