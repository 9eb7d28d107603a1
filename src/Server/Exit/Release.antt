-- ===== src/Server/Exit/Release.antt =====
-- What srv_on_exit frees.
use soii_ipc.Base.{ℕ, ◌≡◌, refl, List, [], ◌∷◌, ℤ, length}
use soii_ipc.Heap.{Heap}
use soii_ipc.Heap.Returns
use soii_ipc.Heap.Returns.{Returns, returns}
use soii_ipc.LinkedList.Regions.{Region, AllRegions, Apart, Gone, Gone-nil, Gone-cons}
use soii_ipc.LinkedList.Api.{ListApi, IsListApi}
use soii_ipc.Server.Exit.{LinkedList, Item, free_rooms, srv_on_exit}

handles : List (Region Item) → List (LinkedList Item)
handles [] = []
handles (r ∷ rs) = r.handle ∷ handles rs

module _ ⦃api : ListApi Item⦄ (laws : IsListApi api) where
  free_rooms-Gone :
      (fuel : ℕ) (h : Heap Item) (rs : List (Region Item))
      → AllRegions fuel h rs
      → Apart rs
      → Returns (λ _. Gone h rs) (free_rooms fuel (length rs) (handles rs) h)
  unfolding free_rooms handles
  free_rooms-Gone fuel h [] all apart = returns (Gone-nil h)
  free_rooms-Gone fuel h (r ∷ rs) all apart =
      Returns.bind (laws.free-first fuel h r rs all apart) λ _ g (one, rest).
        Returns.mono (free_rooms-Gone fuel g rs rest apart.2) λ _ k. Gone-cons h g k r rs one

  -- When the server exits, with its five lists in memory, which are well-formed, share nothing and
  -- hold no item twice, every node and every item of them is freed, each once, and nothing else, and
  -- the queue is closed, if the functions of the lists keep the laws of their interface. The fuel is
  -- more than the lists' lengths.
  pub srv_on_exit-Gone :
      (fuel : ℕ) (h : Heap Item) (mq : ℤ) (packets connections room_0 room_1 room_2 : Region Item)
      → AllRegions fuel h (packets ∷ connections ∷ room_0 ∷ room_1 ∷ room_2 ∷ [])
      → Apart (packets ∷ connections ∷ room_0 ∷ room_1 ∷ room_2 ∷ [])
      → Returns
          (λ closed g.
            (closed ≡ mq) × Gone h (packets ∷ connections ∷ room_0 ∷ room_1 ∷ room_2 ∷ []) g)
          (srv_on_exit fuel
            (record {
              susc_rooms = room_0.handle ∷ room_1.handle ∷ room_2.handle ∷ [];
              connections = connections.handle;
              buffer_packets = packets.handle;
              mq = mq;
            })
            h)
  unfolding srv_on_exit handles
  srv_on_exit-Gone fuel h mq packets connections room_0 room_1 room_2 all apart =
      let rooms = room_0 ∷ room_1 ∷ room_2 ∷ [] in
      Returns.bind (laws.free-first fuel h packets (connections ∷ rooms) all apart)
        λ _ g (one, rest).
          Returns.bind (laws.free-first fuel g connections rooms rest apart.2) λ _ k (two, last).
            Returns.bind (free_rooms-Gone fuel k rooms last apart.2.2) λ _ end three. returns (
              refl,
              Gone-cons h g end packets (connections ∷ rooms) one
                  (Gone-cons g k end connections rooms two three),
            )
