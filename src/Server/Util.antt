-- ===== src/Server/Util.antt =====
-- server/src/srv_util.c: what the handlers of the main loop share.
pub mod Search
use soii_ipc.Base.{
  ℕ, Bool, true, false, List, [], ◌∷◌, Option, none, some, ◌==◌, if◌then◌else◌, ℤ, pos, negsuc,
  minus_one, set,
}
use soii_ipc.Seq.{find, delete}
use soii_ipc.Protocol.{Md5, Packet, gen_packet, m_type_fin}
use soii_ipc.Server.{Connection, Server, Effect, epoll_add, set_nonblocking, sent, emit, now, tick}

unfoldable pub conn_compare : Connection → Connection → ℤ
conn_compare con1 con2 = if con1.token == con2.token then pos 0 else minus_one

unfoldable pub compare_fd : ℕ → ℕ → ℤ
compare_fd fd1 fd2 = if fd1 == fd2 then pos 0 else minus_one

-- The `aux_con` of a search, of which only the token is set and read.
abbrev pub with_token : ℕ → Connection
with_token t = record { timestamp = 0; susc_counter = 0; sockfd = 0; token = t }

unfoldable pub find_by_socket : ℕ → List Connection → Option Connection
find_by_socket fd [] = none
find_by_socket fd (c ∷ cs) = if c.sockfd == fd then some c else find_by_socket fd cs

unfoldable pub set_non_blocking : ℕ → Server → Server
set_non_blocking fd s = emit (set_nonblocking fd) s

unfoldable pub add_fd : ℕ → Server → Server
add_fd fd s = set_non_blocking fd (emit (epoll_add fd) s)

unfoldable pub broadcast_room : List ℕ → Packet → Server → Server
broadcast_room [] msg s = s
broadcast_room (fd ∷ room) msg s = broadcast_room room msg (emit (sent fd msg) s)

-- A room's entry for `old` is overwritten by `new`, if there is one.
unfoldable pub retarget : ℕ → ℕ → List ℕ → List ℕ
retarget old new room = elim (find compare_fd old room) [ pos i ↦ set room i new | negsuc _ ↦ room ]

-- A room's entry for `fd` is taken out, if there is one.
unfoldable pub leave : ℕ → List ℕ → List ℕ
leave fd room = (delete (find compare_fd fd room) room).0

module _ ⦃md5 : Md5⦄ where
  -- A new packet is made and written to `fd`.
  unfoldable pub send_new : ℕ → ℕ → List ℕ → Server → Server
  send_new fd type payload s = emit (sent fd (gen_packet (now s) type payload).0) (tick s)

  unfoldable pub send_fin : ℕ → Server → Server
  send_fin fd s = send_new fd m_type_fin [] s
