-- ===== src/Server/Subscribers/Reconnection.antt =====
-- A reconnection keeps what holds between sessions and rooms.
use mathlib.Core.Option.{some-injective}
use soii_ipc.Base.{
  ap, ℕ, ◌≡◌, refl, sym, subst, ◌∙◌, Bool, false, inl, inr, List, [], ◌∷◌, some, arith, ◌==◌,
  Bool-cases, Option-cases, map,
}
use soii_ipc.Seq.Matching.{first_match, replace_first}
use soii_ipc.Protocol.{Md5, Packet, payload_int}
use soii_ipc.Server.{Connection, Server}
use soii_ipc.Server.Util.{send_new, send_fin}
use soii_ipc.Server.Util.Search.{has_token, is_fd}
use soii_ipc.Server.Clients.{reject, authenticate}
use soii_ipc.Server.Clients.Faults.{length-map}
use soii_ipc.Server.Clients.Sessions.{authenticate-known, authenticate-old_unknown, without_new}
use soii_ipc.Server.Subscribers.{holds, enrolled, Others, Counted, Once, AllOnce, WellFormed}
use soii_ipc.Server.Subscribers.Shelter.{
  Others-new, Others-unreplaced, Others-unremoved, enrolled-replaced,
}
use soii_ipc.Server.Subscribers.Changes.{swap_miss, holds-head, holds-tail}
use soii_ipc.Server.Subscribers.Preserved.{Others-first_match, Others-replace_first, first_count}
use soii_ipc.Server.Subscribers.Sessions.{Others-removed, Counted-remove_first}
use soii_ipc.Server.Subscribers.Steps.{Stays}

-- A room's entry for the socket `old` is renamed to `fd`, which was in no room.
module _ (old fd : ℕ) where
  holds-renamed :
      (room : List ℕ)
      → holds fd room ≡ false
      → holds fd (replace_first (is_fd old) fd room) ≡ holds old room
  holds-renamed [] absent = refl
  holds-renamed (x ∷ xs) absent = elim (Bool-cases (old == x)) [
    | inl hit ↦ rw (hit, replace_first) (ground arith)
    | inr miss ↦
        rw (miss, replace_first)
          (rw (holds-head fd x xs absent) (holds-renamed xs (holds-tail fd x xs absent)))
  ]

  holds-renamed_other :
      (g : ℕ) (room : List ℕ)
      → (g == old) ≡ false
      → (g == fd) ≡ false
      → holds g (replace_first (is_fd old) fd room) ≡ holds g room
  holds-renamed_other g [] far far' = refl
  holds-renamed_other g (x ∷ xs) far far' = ground (arith, holds-renamed_other g xs far far')

  Once-renamed :
      (room : List ℕ) → holds fd room ≡ false → Once room → Once (replace_first (is_fd old) fd room)
  Once-renamed [] absent once = once
  Once-renamed (x ∷ xs) absent (here, once) = elim (Bool-cases (old == x)) [
    | inl hit ↦ rw (hit, replace_first) (holds-tail fd x xs absent, once)
    | inr miss ↦
        rw (miss, replace_first)
          (
            holds-renamed_other x xs (swap_miss old x miss)
                  (swap_miss fd x (holds-head fd x xs absent))
                ∙ here,
            Once-renamed xs (holds-tail fd x xs absent) once,
          )
  ]

absent_here :
    (fd : ℕ) (r : List ℕ) (rooms : List (List ℕ)) → enrolled fd (r ∷ rooms) ≡ 0 → holds fd r ≡ false
absent_here fd r rooms e = ground arith

absent_later :
    (fd : ℕ) (r : List ℕ) (rooms : List (List ℕ))
    → enrolled fd (r ∷ rooms) ≡ 0
    → enrolled fd rooms ≡ 0
absent_later fd r rooms e = omega arith

module _ (old fd : ℕ) where
  enrolled-renamed :
      (rooms : List (List ℕ))
      → enrolled fd rooms ≡ 0
      → enrolled fd (map (replace_first (is_fd old) fd) rooms) ≡ enrolled old rooms
  enrolled-renamed [] nowhere = refl
  enrolled-renamed (r ∷ rooms) nowhere = rw (
    holds-renamed old fd r (absent_here fd r rooms nowhere),
    enrolled-renamed rooms (absent_later fd r rooms nowhere),
  )

  enrolled-renamed_other :
      (g : ℕ) (rooms : List (List ℕ))
      → (g == old) ≡ false
      → (g == fd) ≡ false
      → enrolled g (map (replace_first (is_fd old) fd) rooms) ≡ enrolled g rooms
  enrolled-renamed_other g [] far far' = refl
  enrolled-renamed_other g (r ∷ rooms) far far' =
      rw (holds-renamed_other old fd g r far far', enrolled-renamed_other g rooms far far')

  AllOnce-renamed :
      (rooms : List (List ℕ))
      → enrolled fd rooms ≡ 0
      → AllOnce rooms
      → AllOnce (map (replace_first (is_fd old) fd) rooms)
  AllOnce-renamed [] nowhere all = all
  AllOnce-renamed (r ∷ rooms) nowhere (once, all) = (
    Once-renamed old fd r (absent_here fd r rooms nowhere) once,
    AllOnce-renamed rooms (absent_later fd r rooms nowhere) all,
  )

-- The sessions with neither socket.
Counted-apart :
    (a b : ℕ) (old new : List (List ℕ)) (cs : List Connection)
    → ((g : ℕ) → (g == a) ≡ false → (g == b) ≡ false → enrolled g new ≡ enrolled g old)
    → Others a cs
    → Others b cs
    → Counted old cs
    → Counted new cs
Counted-apart a b old new [] same away away' counted = counted
Counted-apart a b old new (d ∷ ds) same (far, away) (far', away') (here, apart, counted) = (
  here ∙ sym (same d.sockfd (swap_miss a d.sockfd far) (swap_miss b d.sockfd far')),
  apart,
  Counted-apart a b old new ds same away away' counted,
)

Counted-renamed :
    (p : Connection → Bool) (fd : ℕ) (old new : List (List ℕ)) (cs : List Connection)
    (c : Connection)
    → first_match p cs ≡ some c
    → Others fd cs
    → enrolled fd new ≡ enrolled c.sockfd old
    → ((g : ℕ) → (g == c.sockfd) ≡ false → (g == fd) ≡ false → enrolled g new ≡ enrolled g old)
    → Counted old cs
    → Counted new (replace_first p (record c { sockfd = fd }) cs)
Counted-renamed p fd old new [] c m away moved same counted = cc
Counted-renamed p fd old new (d ∷ ds) c m (far, away) moved same (here, apart, counted) =
    elim (Bool-cases (p d)) [
      | inl hit ↦
          let is : d ≡ c = some-injective d c (sym (rw (hit, first_match)) ∙ m) in
          let apart' : Others c.sockfd ds =
            subst (λ (e : Connection). Others e.sockfd ds) is apart in
          let here' : c.susc_counter ≡ enrolled c.sockfd old =
            subst (λ (e : Connection). e.susc_counter ≡ enrolled e.sockfd old) is here in
          rw (hit, replace_first)
            (here' ∙ sym moved, away, Counted-apart c.sockfd fd old new ds same apart' away counted)
      | inr miss ↦
          let m' : first_match p ds ≡ some c = sym (rw (miss, first_match)) ∙ m in
          let off : (d.sockfd == c.sockfd) ≡ false = Others-first_match p d.sockfd ds c apart m' in
          rw (miss, replace_first)
            (
              here ∙ sym (same d.sockfd off (swap_miss fd d.sockfd far)),
              Others-replace_first p d.sockfd ds (record c { sockfd = fd }) apart
                  (swap_miss fd d.sockfd far),
              Counted-renamed p fd old new ds c m' away moved same counted,
            )
    ]

module _ ⦃md5 : Md5⦄ (p : Packet) (s : Server) (d : Connection) (ok : WellFormed s) where
  without_new-WellFormed :
      first_match (has_token (payload_int 1 p.payload)) s.connections ≡ some d
      → enrolled d.sockfd s.rooms ≡ 0
      → WellFormed (without_new p s)
  without_new-WellFormed known nowhere = record {
    rooms = ok.rooms;
    once = ok.once;
    counted = Counted-remove_first _ s.rooms s.connections ok.counted;
    sheltered = λ g others. elim (Bool-cases (g == d.sockfd)) [
      | inl hit ↦
          let same : g ≡ d.sockfd = ground arith in ap (λ z. enrolled z s.rooms) same ∙ nowhere
      | inr far ↦ ok.sheltered g (Others-unremoved _ g s.connections d known far others)
    ];
  }

  -- The old session's socket `c.sockfd` is in no room any more.
  renamed-sheltered :
      (c : Connection)
      → WellFormed (without_new p s)
      → first_match (has_token (payload_int 0 p.payload)) (without_new p s).connections ≡ some c
      → (c.sockfd == d.sockfd) ≡ false
      → (g : ℕ)
      → Others g (
          replace_first
            (has_token (payload_int 0 p.payload))
            (record c { sockfd = d.sockfd })
            (without_new p s).connections)
      → enrolled g (map (replace_first (is_fd c.sockfd) d.sockfd) s.rooms) ≡ 0
  renamed-sheltered c ok' old apart g others =
      let cs = (without_new p s).connections in
      elim (Bool-cases (g == c.sockfd)) [
        | inl hit ↦
            let same : g ≡ c.sockfd = ground arith in
            ap (λ z. enrolled z (map (replace_first (is_fd c.sockfd) d.sockfd) s.rooms)) same
            ∙ enrolled-replaced c.sockfd d.sockfd s.rooms apart ok.once
        | inr far ↦
            enrolled-renamed_other c.sockfd d.sockfd g s.rooms far
              (Others-new _ g cs c (record c { sockfd = d.sockfd }) old others)
            ∙ ok'.sheltered g
                (Others-unreplaced _ g cs c (record c { sockfd = d.sockfd }) old far others)
      ]

  -- A client that has entered no room names the session that it has just been given, and an old one
  -- or one that does not exist: the reconnection comes to its end and keeps the count of every
  -- session, the sockets apart and every room free of repetitions.
  pub authenticate-Stays :
      first_match (has_token (payload_int 1 p.payload)) s.connections ≡ some d
      → d.susc_counter ≡ 0
      → Stays (authenticate d.sockfd p s)
  unfolding reject send_fin send_new
  authenticate-Stays known none_joined =
      let nowhere : enrolled d.sockfd s.rooms ≡ 0 =
        sym (first_count _ s.rooms s.connections d known ok.counted) ∙ none_joined in
      let ok' = without_new-WellFormed known nowhere in
      let away = Others-removed _ s.rooms s.connections d known ok.counted in
      elim (Option-cases
        (first_match (has_token (payload_int 0 p.payload)) (without_new p s).connections)) [
          | inl unknown ↦ (
            _,
            authenticate-old_unknown d.sockfd p s d known unknown,
            record {
              rooms = ok'.rooms;
              once = ok'.once;
              counted = ok'.counted;
              sheltered = ok'.sheltered;
            },
          )
          | inr (c, old) ↦ (
            _,
            authenticate-known d.sockfd p s d c known old,
            record {
              rooms = length-map _ s.rooms ∙ ok.rooms;
              once = AllOnce-renamed c.sockfd d.sockfd s.rooms nowhere ok.once;
              counted =
                  Counted-renamed (has_token (payload_int 0 p.payload)) d.sockfd s.rooms _
                    (without_new p s).connections c old away
                    (enrolled-renamed c.sockfd d.sockfd s.rooms nowhere)
                    (λ g far far'. enrolled-renamed_other c.sockfd d.sockfd g s.rooms far far')
                    ok'.counted;
              sheltered = renamed-sheltered c ok' old (
                  swap_miss d.sockfd c.sockfd
                    (Others-first_match _ d.sockfd (without_new p s).connections c away old));
            },
          )
        ]
