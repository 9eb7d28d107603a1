-- ===== src/Server/Subscribers/Sessions.antt =====
-- Connections, acknowledgements and reconnections keep what holds between sessions and rooms.
use mathlib.Core.Option.{some-injective}
use soii_ipc.Base.{
  refl, ℕ, ◌≡◌, sym, subst, ◌∙◌, Bool, false, inl, inr, List, [], ◌∷◌, ◌++◌, some, ◌==◌, Bool-cases,
  Option-cases,
}
use soii_ipc.Seq.Matching.{first_match, remove_first}
use soii_ipc.Protocol.{Md5, Packet, payload_int}
use soii_ipc.Server.{Connection, Server, now}
use soii_ipc.Server.Util.{add_fd, set_non_blocking, send_new}
use soii_ipc.Server.Util.Search.{has_token}
use soii_ipc.Server.Clients.{accept_client, acknowledge}
use soii_ipc.Server.Clients.Sessions.{acknowledge-unknown, acknowledge-known}
use soii_ipc.Server.Subscribers.{enrolled, Others, Counted, WellFormed}
use soii_ipc.Server.Subscribers.Shelter.{Others-changed, Others-front}
use soii_ipc.Server.Subscribers.Changes.{swap_miss}
use soii_ipc.Server.Subscribers.Preserved.{Others-first_match}
use soii_ipc.Server.Subscribers.Steps.{Stays, Counted-retimed}

-- A session behind all others.
Others-last :
    (fd : ℕ) (cs : List Connection) (c : Connection)
    → Others fd cs
    → (fd == c.sockfd) ≡ false
    → Others fd (cs ++ c ∷ [])
Others-last fd [] c others far = (far, others)
Others-last fd (d ∷ ds) c (here, others) far = (here, Others-last fd ds c others far)

Counted-last :
    (rooms : List (List ℕ)) (cs : List Connection) (c : Connection)
    → Counted rooms cs
    → Others c.sockfd cs
    → c.susc_counter ≡ enrolled c.sockfd rooms
    → Counted rooms (cs ++ c ∷ [])
Counted-last rooms [] c counted others count = (count, others, counted)
Counted-last rooms (d ∷ ds) c (here, apart, counted) (far, others) count = (
  here,
  Others-last d.sockfd ds c apart (swap_miss c.sockfd d.sockfd far),
  Counted-last rooms ds c counted others count,
)

module _ (p : Connection → Bool) where
  Others-remove_first :
      (fd : ℕ) (cs : List Connection) → Others fd cs → Others fd (remove_first p cs)
  Others-remove_first fd [] others = others
  Others-remove_first fd (d ∷ ds) (here, others) = elim (Bool-cases (p d)) [
    | inl hit ↦ rw (hit, remove_first) others
    | inr miss ↦ rw (miss, remove_first) (here, Others-remove_first fd ds others)
  ]

  pub Counted-remove_first :
      (rooms : List (List ℕ)) (cs : List Connection)
      → Counted rooms cs
      → Counted rooms (remove_first p cs)
  Counted-remove_first rooms [] counted = counted
  Counted-remove_first rooms (d ∷ ds) (here, apart, counted) = elim (Bool-cases (p d)) [
    | inl hit ↦ rw (hit, remove_first) counted
    | inr miss ↦
        rw (miss, remove_first)
          (here, Others-remove_first d.sockfd ds apart, Counted-remove_first rooms ds counted)
  ]

  -- The session that is taken out shared its socket with no other.
  pub Others-removed :
      (rooms : List (List ℕ)) (cs : List Connection) (c : Connection)
      → first_match p cs ≡ some c
      → Counted rooms cs
      → Others c.sockfd (remove_first p cs)
  Others-removed rooms [] c m counted = cc
  Others-removed rooms (d ∷ ds) c m (here, apart, counted) = elim (Bool-cases (p d)) [
    | inl hit ↦
        let is : d ≡ c = some-injective d c (sym (rw (hit, first_match)) ∙ m) in
        rw (hit, remove_first) (subst (λ (e : Connection). Others e.sockfd ds) is apart)
    | inr miss ↦
        let m' : first_match p ds ≡ some c = sym (rw (miss, first_match)) ∙ m in
        rw (miss, remove_first)
          (
            swap_miss d.sockfd c.sockfd (Others-first_match p d.sockfd ds c apart m'),
            Others-removed rooms ds c m' counted,
          )
  ]

module _ ⦃md5 : Md5⦄ (s : Server) (ok : WellFormed s) where
  -- A connection over a socket that no session and no room has.
  pub accept_client-WellFormed :
      (connfd token : ℕ)
      → Others connfd s.connections
      → enrolled connfd s.rooms ≡ 0
      → WellFormed (accept_client connfd token s)
  unfolding accept_client add_fd set_non_blocking send_new
  accept_client-WellFormed connfd token others nowhere = record {
    rooms = ok.rooms;
    once = ok.once;
    counted = Counted-last s.rooms s.connections _ ok.counted others (sym nowhere);
    sheltered = λ g all. ok.sheltered g (Others-front g s.connections _ all);
  }

  pub acknowledge-WellFormed : (p : Packet) → Stays (acknowledge p s)
  acknowledge-WellFormed p =
      elim (Option-cases (first_match (has_token (payload_int 0 p.payload)) s.connections)) [
        | inl unknown ↦ (s, acknowledge-unknown p s unknown, ok)
        | inr (c, known) ↦ (
          _,
          acknowledge-known p s c known,
          record {
            rooms = ok.rooms;
            once = ok.once;
            counted =
                Counted-retimed (has_token (payload_int 0 p.payload)) (now s) c s.rooms
                  s.connections known ok.counted;
            sheltered = λ g others. ok.sheltered g (
                Others-changed (has_token (payload_int 0 p.payload)) g s.connections c
                  (record c { timestamp = now s }) known refl others);
          },
        )
      ]
