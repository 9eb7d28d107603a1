-- ===== src/Tests/Transfers.antt =====
-- The transfer's theorems at a file of two pieces.
use soii_ipc.Base.{
  ℕ, ◌≡◌, refl, true, false, List, [], ◌∷◌, ◌++◌, some, none, pos, arith, map, replicate,
}
use soii_ipc.Protocol.FileDigest.{joined, get_file_md5-digest}
use soii_ipc.Transfer.{zero_file_packet}
use soii_ipc.Transfer.Sender.{Answers, handle_loq_req, part}
use soii_ipc.Transfer.Receiver.{Receiver, Meeting, recv_file, receive}
use soii_ipc.Transfer.Delivery.{IsReached, recv_file-intact}
use soii_ipc.Transfer.Delivery.Sending.{
  AllWell, good, end_of_file, begin_packet, fin_packet, parts_of,
}
use soii_ipc.Transfer.{setup_tcpsocket}
use soii_ipc.Transfer.Sender.{offer}
use soii_ipc.Transfer.Delivery.Descriptors.Holding.{closes}
use soii_ipc.Transfer.Delivery.Descriptors.{handle_loq_req-closes}
use soii_ipc.Transfer.Delivery.Order.{in_order, handle_loq_req-in_order}
use soii_ipc.Transfer.Delivery.Receiving.{whole, finished, receive-transfer}
use soii_ipc.Tests.Samples.{sample_md5}

abbrev two_pieces : List (List ℕ)
two_pieces = (80 ∷ 75 ∷ []) ∷ (3 ∷ []) ∷ []

abbrev calm : Answers
calm = record {
  address = record { sin_family = 0; sin_addr = 0; sin_port = 0 };
  fd_file_transfer = 0;
  ft_packet = zero_file_packet;
  socket = some 7;
  reusable = true;
  bound = true;
  time = 200;
  listening = true;
  announced = true;
  accepted = some 8;
  zip_opened = true;
  entry_opened = pos 0;
  entry_written = pos 0;
  entry_closed = pos 0;
  st_size = some 40;
  digest_reads = map some two_pieces ++ some [] ∷ [];
  begun = true;
  log_opened = true;
  chunks = map good two_pieces ++ end_of_file ∷ [];
  fin_written = true;
}

calm-AllWell : AllWell ⦃md5 = sample_md5⦄ calm 40 (sample_md5.digest (joined two_pieces)) two_pieces
calm-AllWell = record {
  passive = 7;
  connection = 8;
  rest = [];
  socket = refl;
  is_passive = refl;
  reusable = refl;
  bound = refl;
  listening = refl;
  announced = refl;
  accepted = refl;
  zip_opened = refl;
  entry_opened = refl;
  entry_written = refl;
  entry_closed = refl;
  st_size = refl;
  digest = get_file_md5-digest ⦃md5 = sample_md5⦄ two_pieces [] tt;
  begun = refl;
  log_opened = refl;
  chunks = refl;
  non_empty = tt;
  fin_written = refl;
}

abbrev empty_receiver : Receiver ⦃md5 = sample_md5⦄
empty_receiver = record {
  packet = zero_file_packet;
  context = [];
  server_hash = replicate 16 0;
  file = [];
  done = false;
  verdict = none;
}

abbrev met : Meeting ⦃md5 = sample_md5⦄
met = record {
  new_sock = some 5;
  connected = true;
  opened = some 6;
  recv_file = 0;
  start = empty_receiver;
  arrivals = map whole (parts_of (handle_loq_req ⦃md5 = sample_md5⦄ calm 4).trace);
}

met-IsReached : IsReached ⦃md5 = sample_md5⦄ calm 4 met
met-IsReached = record {
  sock = 5;
  file = 6;
  new_sock = refl;
  connected = refl;
  opened = refl;
  arrivals = refl;
}

recv_file-intact_example :
    (r : Receiver ⦃md5 = sample_md5⦄) × (recv_file ⦃md5 = sample_md5⦄ met
      ≡ some (record { closed = 5 ∷ 6 ∷ []; received = some r }))
    × (r.file ≡ joined two_pieces)
    × (r.verdict ≡ some true)
unfolding met-IsReached
recv_file-intact_example =
    recv_file-intact ⦃md5 = sample_md5⦄ calm 40 two_pieces calm-AllWell
      (omega arith, (omega arith, tt)) 4 met met-IsReached

-- BEGIN with another digest than that of the pieces.
receive-transfer_example :
    receive ⦃md5 = sample_md5⦄
      (map whole (begin_packet 40 (replicate 16 1) ∷ map part two_pieces ++ fin_packet ∷ []))
      empty_receiver
    ≡ some (finished ⦃md5 = sample_md5⦄ 40 (replicate 16 1) two_pieces empty_receiver)
receive-transfer_example =
    receive-transfer ⦃md5 = sample_md5⦄ 40 (replicate 16 1) two_pieces empty_receiver refl
      (omega arith, (omega arith, tt)) refl

-- The compressed log cannot be read.
abbrev unreadable : Answers
unreadable = record calm { digest_reads = none ∷ [] }

handle_loq_req-in_order_example :
    in_order false (parts_of (handle_loq_req ⦃md5 = sample_md5⦄ unreadable 4).trace) ≡ true
handle_loq_req-in_order_example = handle_loq_req-in_order ⦃md5 = sample_md5⦄ unreadable 4

handle_loq_req-closes_example : closes (handle_loq_req ⦃md5 = sample_md5⦄ calm 4).trace ≡ 8 ∷ 7 ∷ []
unfolding offer setup_tcpsocket
handle_loq_req-closes_example = handle_loq_req-closes ⦃md5 = sample_md5⦄ calm 4
