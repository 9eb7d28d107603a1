-- ===== src/Server/Cleanup/Selection.antt =====
-- What the cleaning of sessions leaves, in terms of the sessions and sockets alone.
use soii_ipc.Base.{
  ◌%◌, ℕ, ◌+◌, ◌≤◌, ◌≡◌, refl, sym, ap, ◌∙◌, Bool, true, false, not, ◌&&◌, inl, inr, List, [], ◌∷◌,
  ◌++◌, arith, ltb, ◌==◌, ◌^◌, Bool-cases, select, select-true, select-false, map,
}
use mathlib.Core.Path.{ap₂}
use soii_ipc.Base.Words.{slt}
use soii_ipc.Seq.Matching.{remove_first}
use soii_ipc.Protocol.{Md5}
use soii_ipc.Server.{Connection, Server, conn_timeout, now}
use soii_ipc.Server.Util.{leave}
use soii_ipc.Server.Util.Search.{is_fd, leave-remove_first}
use soii_ipc.Server.Cleanup.{is_inactive, garb_collec_old_conn}
use soii_ipc.Server.Cleanup.Walks.{leave_all, closed_fds, fds, garb_collec_old_conn-walk}
use soii_ipc.Server.Subscribers.{holds, Once, AllOnce}
use soii_ipc.Server.Subscribers.Cleaning.{AllOnce-leave}

-- A session that has been silent for longer than the timeout, with a counter that is, as an `int`,
-- positive.
abbrev pub has_expired : ℕ → Connection → Bool
has_expired t c =
    ltb (c.timestamp + conn_timeout) t
    && (ltb 0 (c.susc_counter % 2 ^ 32) && ltb (c.susc_counter % 2 ^ 32) (2 ^ 31))

-- A socket that is none of some.
abbrev pub is_spared : List ℕ → ℕ → Bool
is_spared gone fd = not (holds fd gone)

module _ {ℓ} {A : Type ℓ} where
  select-same : (p q : A → Bool) (xs : List A) → ((x : A) → p x ≡ q x) → select p xs ≡ select q xs
  select-same p q [] same = refl
  select-same p q (x ∷ xs) same = elim (Bool-cases (q x)) [
    | inl is ↦
        select-true p x xs (same x ∙ is)
        ∙ ap (◌∷◌ x) (select-same p q xs same)
        ∙ sym (select-true q x xs is)
    | inr out ↦
        select-false p x xs (same x ∙ out) ∙ select-same p q xs same ∙ sym (select-false q x xs out)
  ]

  select-all : (p : A → Bool) (xs : List A) → ((x : A) → p x ≡ true) → select p xs ≡ xs
  select-all p [] all = refl
  select-all p (x ∷ xs) all = select-true p x xs (all x) ∙ ap (◌∷◌ x) (select-all p xs all)

  select-select :
      (p q : A → Bool) (xs : List A) → select p (select q xs) ≡ select (λ x. q x && p x) xs
  select-select p q [] = refl
  select-select p q (x ∷ xs) = elim (Bool-cases (q x)) [
    | inr out ↦ rw (out, select) (select-select p q xs)
    | inl is ↦ elim (Bool-cases (p x)) [
      | inl also ↦ rw (is, also, select) (ap (◌∷◌ x) (select-select p q xs))
      | inr not_also ↦ rw (is, not_also, select) (select-select p q xs)
    ]
  ]

-- A socket that a room does not hold is not taken out.
select-absent :
    (fd : ℕ) (room : List ℕ) → holds fd room ≡ false → select (λ e. not (fd == e)) room ≡ room
select-absent fd [] absent = refl
select-absent fd (e ∷ room) absent = elim (Bool-cases (fd == e)) [
  | inl hit ↦ absurd (ground arith)
  | inr miss ↦ rw (miss, select) (ap (◌∷◌ e) (select-absent fd room (ground arith)))
]

-- The first entry is all, in a room with no repetition.
remove_first-select :
    (fd : ℕ) (room : List ℕ)
    → Once room
    → remove_first (is_fd fd) room ≡ select (λ e. not (fd == e)) room
remove_first-select fd [] once = refl
remove_first-select fd (e ∷ room) (here, once) = elim (Bool-cases (fd == e)) [
  | inl hit ↦
      let same : fd ≡ e = ground arith in
      rw (hit, select, remove_first)
        (sym (select-absent fd room (ap (λ z. holds z room) same ∙ here)))
  | inr miss ↦ rw (miss, select, remove_first) (ap (◌∷◌ e) (remove_first-select fd room once))
]

leave-spared :
    (fd : ℕ) (gone room : List ℕ)
    → Once room
    → select (is_spared gone) (leave fd room) ≡ select (is_spared (fd ∷ gone)) room
leave-spared fd gone room once =
    ap (select (is_spared gone)) (leave-remove_first fd room ∙ remove_first-select fd room once)
    ∙ select-select (is_spared gone) (λ e. not (fd == e)) room
    ∙ select-same _ (is_spared (fd ∷ gone)) room (λ e. ground arith)

leave_all-spared :
    (gone : List ℕ) (rooms : List (List ℕ))
    → AllOnce rooms
    → leave_all gone rooms ≡ map (select (is_spared gone)) rooms
unfolding leave_all
leave_all-spared [] rooms all = same rooms
  where
    same : (rs : List (List ℕ)) → rs ≡ map (select (is_spared [])) rs
    same [] = refl
    same (r ∷ rs) = ap₂ ◌∷◌ (sym (select-all (is_spared []) r λ e. refl)) (same rs)
leave_all-spared (fd ∷ gone) rooms all =
    leave_all-spared gone (map (leave fd) rooms) (AllOnce-leave fd rooms all) ∙ each rooms all
  where
    each :
        (rs : List (List ℕ))
        → AllOnce rs
        → map (select (is_spared gone)) (map (leave fd) rs)
          ≡ map (select (is_spared (fd ∷ gone))) rs
    each [] all = refl
    each (r ∷ rs) (once, all) = ap₂ ◌∷◌ (leave-spared fd gone r once) (each rs all)

-- The sign of an `int` by its pattern.
slt-zero : (n : ℕ) → slt 0 n ≡ (ltb 0 (n % 2 ^ 32) && ltb (n % 2 ^ 32) (2 ^ 31))
slt-zero n = ground arith

is_inactive-expired : (t : ℕ) (c : Connection) → is_inactive t c ≡ has_expired t c
is_inactive-expired t c =
    ap (λ b. ltb (c.timestamp + conn_timeout) t && b) (slt-zero c.susc_counter)

module _ ⦃md5 : Md5⦄ where
  -- When a cleaning of the sessions is due, and no room holds a socket twice, it drops exactly the
  -- sessions that have been silent for longer than the timeout and have a counter that is positive as
  -- an `int`: the others stay, in order, every room keeps exactly the sockets that are none of a
  -- dropped session's, in order, the sockets of the dropped sessions are closed, in order, and no
  -- others, and the buffer is kept.
  pub garb_collec_old_conn-select :
      (period : ℕ) (s : Server)
      → AllOnce s.rooms
      → s.last_time_cleanup + period ≤ now s
      → let gone = select (has_expired (now s)) s.connections in
        let s' = garb_collec_old_conn period s in
        (s'.connections ≡ select (λ c. not (has_expired (now s) c)) s.connections)
        × (s'.rooms ≡ map (select (is_spared (fds gone))) s.rooms)
        × (closed_fds s'.trace ≡ closed_fds s.trace ++ fds gone)
        × (s'.packets ≡ s.packets)
  garb_collec_old_conn-select period s once due =
      let (connections, rooms, closed, packets) = garb_collec_old_conn-walk period s due in
      let same = select-same _ _ s.connections (is_inactive-expired (now s)) in
      (
        connections ∙ select-same _ _ s.connections (λ c. ap not (is_inactive-expired (now s) c)),
        rooms
            ∙ ap (λ cs. leave_all (fds cs) s.rooms) same
            ∙ leave_all-spared (fds (select (has_expired (now s)) s.connections)) s.rooms once,
        closed ∙ ap (λ cs. closed_fds s.trace ++ fds cs) same,
        packets,
      )
