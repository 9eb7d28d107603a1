-- ===== src/Server/Subscribers.antt =====
-- What holds between the sessions and the rooms of server/src/srv.c: `susc_counter` counts the rooms
-- in which a session's socket is, no two sessions have the same socket, and no room holds a socket
-- twice, nor one that no session has.
pub mod Changes
pub mod Shelter
pub mod Preserved
pub mod Steps
pub mod Sessions
pub mod Reconnection
pub mod Cleaning
pub mod Events
pub mod Runs
use soii_ipc.Base.{ℕ, ◌+◌, ◌≡◌, Bool, true, false, List, [], ◌∷◌, ◌==◌, if◌then◌else◌, length}
use soii_ipc.Server.{Connection, Server, no_productores}

-- Whether a socket is in a room.
abbrev pub holds : ℕ → List ℕ → Bool
holds fd [] = false
holds fd (e ∷ room) = if fd == e then true else holds fd room

-- The number of rooms that a socket is in.
abbrev pub enrolled : ℕ → List (List ℕ) → ℕ
enrolled fd [] = 0
enrolled fd (room ∷ rooms) = (if holds fd room then 1 else 0) + enrolled fd rooms

-- No session of the list has the socket.
abbrev pub Others : ℕ → List Connection → Type 0
Others fd [] = Unit {0}
Others fd (c ∷ cs) = ((fd == c.sockfd) ≡ false) × Others fd cs

abbrev pub Counted : List (List ℕ) → List Connection → Type 0
Counted rooms [] = Unit {0}
Counted rooms (c ∷ cs) =
    (c.susc_counter ≡ enrolled c.sockfd rooms) × Others c.sockfd cs × Counted rooms cs

abbrev pub Once : List ℕ → Type 0
Once [] = Unit {0}
Once (e ∷ room) = (holds e room ≡ false) × Once room

abbrev pub AllOnce : List (List ℕ) → Type 0
AllOnce [] = Unit {0}
AllOnce (room ∷ rooms) = Once room × AllOnce rooms

pub record WellFormed (s : Server) : Type 0 where
  pub rooms : length s.rooms ≡ no_productores
  pub once : AllOnce s.rooms
  pub counted : Counted s.rooms s.connections
  pub sheltered : (fd : ℕ) → Others fd s.connections → enrolled fd s.rooms ≡ 0
