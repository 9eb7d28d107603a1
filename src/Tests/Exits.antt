-- ===== src/Tests/Exits.antt =====
-- The server's exit, with a packet, a connection and a subscriber in memory.
use soii_ipc.Base.{◌≡◌, refl, List, [], ◌∷◌, some, none, arith, ◌==◌, if◌then◌else◌, pos}
use soii_ipc.Heap.{Ptr, null, node, Heap, free_object}
use soii_ipc.Heap.Chain.{Cells}
use soii_ipc.Heap.Returns.{Returns}
use soii_ipc.LinkedList.Regions.{Region, AllRegions, Apart, Gone}
use soii_ipc.LinkedList.Api.{list_c, list_c-IsListApi}
use soii_ipc.Server.Exit.{Item, srv_on_exit}
use soii_ipc.Server.Exit.Release.{srv_on_exit-Gone}
use soii_ipc.Tests.Samples.{old_session, packet_at}

abbrev kept : Heap Item
kept = record {
  nodes = λ p.
      if p == 2
      then some (node 1 20)
      else if p == 4
      then some (node 3 21)
      else if p == 6
      then some (node 5 22)
      else if p == 1
      then some (node null null)
      else if p == 3
      then some (node null null)
      else if p == 5
      then some (node null null)
      else if p == 7
      then some (node null null)
      else if p == 8
      then some (node null null)
      else none;
  objects = λ p.
      if p == 20
      then some (Item.packet (packet_at 150))
      else if p == 21
      then some (Item.connection old_session)
      else if p == 22
      then some (Item.socket 4)
      else none;
}

abbrev list_at : Ptr → Ptr → Cells → Region Item
list_at head sentinel cells = record {
  handle = record { head = head; free_data = some free_object; compare_data = none };
  sentinel = sentinel;
  cells = cells;
}

abbrev packets : Region Item
packets = list_at 2 1 ((2, 20) ∷ [])

abbrev connections : Region Item
connections = list_at 4 3 ((4, 21) ∷ [])

abbrev room : Region Item
room = list_at 6 5 ((6, 22) ∷ [])

abbrev empty_at : Ptr → Region Item
empty_at p = list_at p p []

abbrev five : List (Region Item)
five = packets ∷ connections ∷ room ∷ empty_at 7 ∷ empty_at 8 ∷ []

five-AllRegions : AllRegions 2 kept five
five-AllRegions = (
  record {
    frees = refl;
    list = (refl, (λ e. cc, refl, refl, refl, (λ e. cc, refl)));
    owned = (refl, (_, refl), tt);
    distinct = (refl, tt);
    enough = omega arith;
  },
  (
    record {
      frees = refl;
      list = (refl, (λ e. cc, refl, refl, refl, (λ e. cc, refl)));
      owned = (refl, (_, refl), tt);
      distinct = (refl, tt);
      enough = omega arith;
    },
    (
      record {
        frees = refl;
        list = (refl, (λ e. cc, refl, refl, refl, (λ e. cc, refl)));
        owned = (refl, (_, refl), tt);
        distinct = (refl, tt);
        enough = omega arith;
      },
      (
        record {
          frees = refl;
          list = (refl, (λ e. cc, refl));
          owned = tt;
          distinct = tt;
          enough = omega arith;
        },
        (
          record {
            frees = refl;
            list = (refl, (λ e. cc, refl));
            owned = tt;
            distinct = tt;
            enough = omega arith;
          },
          tt,
        ),
      ),
    ),
  ),
)

five-Apart : Apart five
five-Apart = (
  λ b in_it. ground arith,
  λ e in_it. ground arith,
  (
    λ b in_it. ground arith,
    λ e in_it. ground arith,
    (
      λ b in_it. ground arith,
      λ e in_it. ground arith,
      (λ b in_it. ground arith, λ e in_it. refl, (λ b in_it. refl, λ e in_it. refl, tt)),
    ),
  ),
)

srv_on_exit-Gone_example :
    Returns
      (λ closed g. (closed ≡ pos 9) × Gone kept five g)
      (srv_on_exit ⦃api = list_c⦄ 2
        (record {
          susc_rooms = room.handle ∷ (empty_at 7).handle ∷ (empty_at 8).handle ∷ [];
          connections = connections.handle;
          buffer_packets = packets.handle;
          mq = pos 9;
        })
        kept)
srv_on_exit-Gone_example =
    srv_on_exit-Gone ⦃api = list_c⦄ list_c-IsListApi 2 kept (pos 9) packets connections room
      (empty_at 7) (empty_at 8) five-AllRegions five-Apart
