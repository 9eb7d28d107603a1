-- ===== src/Server/Broker/Rooms.antt =====
-- What changes of the rooms do to the numbers that the broker sees.
use mathlib.Core.Option.{some-injective}
use soii_ipc.Base.{
  ℕ, zero, suc, ◌+◌, ◌-◌, ◌≡◌, refl, ap, ◌∙◌, List, [], ◌∷◌, ◌++◌, none, some, arith, ◌==◌,
  if◌then◌else◌, get_elem?, set, map,
}
use soii_ipc.Seq.Matching.{first_match, replace_first, remove_first}
use soii_ipc.Server.Util.{leave, retarget}
use soii_ipc.Server.Util.Search.{is_fd, leave-remove_first, retarget-replace_first}
use soii_ipc.Server.Broker.{count, members_of, after_move}

pub count-last :
    (g fd : ℕ) (room : List ℕ)
    → count g (room ++ fd ∷ []) ≡ count g room + (if g == fd then 1 else 0)
count-last g fd [] = ground arith
count-last g fd (e ∷ room) = ground (arith, count-last g fd room)

pub count-missing :
    (fd : ℕ) (room : List ℕ) → first_match (is_fd fd) room ≡ none → count fd room ≡ 0
count-missing fd [] e = refl
count-missing fd (x ∷ room) e = ground (arith, count-missing fd room)

count-remove_first :
    (g fd : ℕ) (room : List ℕ)
    → count g (remove_first (is_fd fd) room) ≡ (if g == fd then count g room - 1 else count g room)
count-remove_first g fd [] = ground arith
count-remove_first g fd (x ∷ room) = ground (arith, count-remove_first g fd room)

count-replace_first :
    (g old new : ℕ) (room : List ℕ)
    → count g (replace_first (is_fd old) new room)
      ≡ after_move old new g (count old room) (count g room)
count-replace_first g old new [] = refl
count-replace_first g old new (x ∷ room) = ground (arith, count-replace_first g old new room)

pub count-leave :
    (g fd : ℕ) (room : List ℕ)
    → count g (leave fd room) ≡ (if g == fd then count g room - 1 else count g room)
count-leave g fd room = ap (count g) (leave-remove_first fd room) ∙ count-remove_first g fd room

count-retarget :
    (g old new : ℕ) (room : List ℕ)
    → count g (retarget old new room) ≡ after_move old new g (count old room) (count g room)
count-retarget g old new room =
    ap (count g) (retarget-replace_first old new room) ∙ count-replace_first g old new room

pub members_of-set :
    (rooms : List (List ℕ)) (k : ℕ) (room new : List ℕ) (j g : ℕ)
    → get_elem? rooms k ≡ some room
    → members_of (set rooms k new) j g ≡ (if j == k then count g new else members_of rooms j g)
members_of-set [] k room new j g at = cc
members_of-set (r ∷ rooms) zero room new zero g at = ground arith
members_of-set (r ∷ rooms) zero room new (suc j) g at = ground arith
members_of-set (r ∷ rooms) (suc k) room new zero g at = ground arith
members_of-set (r ∷ rooms) (suc k) room new (suc j) g at =
    ground (arith, members_of-set rooms k room new j g at)

pub members_of-at :
    (rooms : List (List ℕ)) (k : ℕ) (room : List ℕ) (g : ℕ)
    → get_elem? rooms k ≡ some room
    → members_of rooms k g ≡ count g room
members_of-at [] k room g at = cc
members_of-at (r ∷ rooms) zero room g at = ap (count g) (some-injective r room at)
members_of-at (r ∷ rooms) (suc k) room g at = members_of-at rooms k room g at

pub members_of-leave :
    (fd : ℕ) (rooms : List (List ℕ)) (j g : ℕ)
    → members_of (map (leave fd) rooms) j g
      ≡ (if g == fd then members_of rooms j g - 1 else members_of rooms j g)
members_of-leave fd [] j g = ground arith
members_of-leave fd (r ∷ rooms) zero g = count-leave g fd r
members_of-leave fd (r ∷ rooms) (suc j) g = members_of-leave fd rooms j g

pub members_of-retarget :
    (old new : ℕ) (rooms : List (List ℕ)) (j g : ℕ)
    → members_of (map (retarget old new) rooms) j g
      ≡ after_move old new g (members_of rooms j old) (members_of rooms j g)
members_of-retarget old new [] j g = refl
members_of-retarget old new (r ∷ rooms) zero g = count-retarget g old new r
members_of-retarget old new (r ∷ rooms) (suc j) g = members_of-retarget old new rooms j g
