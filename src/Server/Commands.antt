-- ===== src/Server/Commands.antt =====
-- The main loop's treatment of one command of the CLI (server/src/srv.c).
pub mod Subscriptions
pub mod Faults
use soii_ipc.Base.{
  ℕ, Bool, true, false, ◌-◌, ◌||◌, List, [], Option, none, some, ◌==◌, if◌then◌else◌, ℤ, pos,
  negsuc, set, get_elem?,
}
use soii_ipc.Base.Words.{slt, increment, decrement}
use soii_ipc.Seq.{add_last, find, delete}
use soii_ipc.Protocol.{Md5, m_type_cli_accepted}
use soii_ipc.Server.{
  Connection, Server, no_productores, subscribed, unsubscribed, start_transfer, logged,
  invalid_command, emit, now, tick,
}
use soii_ipc.Server.Util.{conn_compare, compare_fd, with_token, find_by_socket, send_new}

abbrev pub cmd_add : ℕ
cmd_add = 1

abbrev pub cmd_del : ℕ
cmd_del = 2

abbrev pub cmd_log : ℕ
cmd_log = 3

-- `command_t`; its `socket` is compared with the clients' tokens.
pub record Command : Type 0 where
  pub type : ℕ
  pub socket : ℕ
  pub productor : ℕ

-- `productor > NO_PRODUCTORES - 1 || productor < 0`
abbrev pub is_bad_room : ℕ → Bool
is_bad_room k = slt (no_productores - 1) k || slt k 0

-- `list_find(…) != -1`
abbrev pub is_found : ℤ → Bool
is_found (pos i) = true
is_found (negsuc _) = false

abbrev pub set_connection : ℕ → Connection → Server → Server
set_connection i c s = record s { connections = set s.connections i c }

-- `conn->timestamp = time(NULL);`
abbrev pub touch : ℕ → Connection → Server → Server
touch i c s = set_connection i (record c { timestamp = now s }) (tick s)

module _ ⦃md5 : Md5⦄ where
  -- The client `c`, at index `i`, joins room `k`, whose entries are `room`.
  unfoldable pub subscribe : ℕ → Connection → ℕ → List ℕ → Server → Server
  subscribe i c k room s =
      let joined = record s { rooms = set s.rooms k (add_last c.sockfd room) } in
      let counted = record c { susc_counter = increment c.susc_counter } in
      let told = send_new c.sockfd m_type_cli_accepted [] (set_connection i counted joined) in
      touch i counted (emit (logged (subscribed c.sockfd c.token k)) told)

  unfoldable pub add_command : ℕ → Connection → ℕ → Server → Option Server
  add_command i c k s =
      if is_bad_room k then some (emit invalid_command s) else elim (get_elem? s.rooms k) [
        | none ↦ none
        | some room ↦ some (
            if is_found (find compare_fd c.sockfd room)
            then emit invalid_command s
            else subscribe i c k room s)
      ]

-- The client leaves room `k`, where its entry is at `index`.
unfoldable pub unsubscribe : ℕ → Connection → ℕ → List ℕ → ℤ → Server → Server
unsubscribe i c k room index s =
    let left = record s { rooms = set s.rooms k (delete index room).0 } in
    let counted = record c { susc_counter = decrement c.susc_counter } in
    touch i counted
      (emit (logged (unsubscribed c.sockfd c.token k)) (set_connection i counted left))

unfoldable pub del_command : ℕ → Connection → ℕ → Server → Option Server
del_command i c k s =
    if is_bad_room k then some (emit invalid_command s) else elim (get_elem? s.rooms k) [
      | none ↦ none
      | some room ↦
          let index = find compare_fd c.sockfd room in
          some (if is_found index then unsubscribe i c k room index s else emit invalid_command s)
    ]

-- The transfer runs in a thread of its own.
unfoldable pub log_command : ℕ → Connection → Server → Server
log_command i c s = elim (find_by_socket c.sockfd s.connections) [
  | none ↦ s
  | some _ ↦ touch i c (emit (start_transfer c.sockfd) s)
]

module _ ⦃md5 : Md5⦄ where
  unfoldable pub run_command : ℕ → Connection → Command → Server → Option Server
  run_command i c cmd s =
      if cmd.type == cmd_add
      then add_command i c cmd.productor s
      else (if cmd.type == cmd_del
          then del_command i c cmd.productor s
          else some (if cmd.type == cmd_log then log_command i c s else touch i c s))

  -- A token that no client has is passed over in silence.
  unfoldable pub handle_command : Command → Server → Option Server
  handle_command cmd s = elim (find conn_compare (with_token cmd.socket) s.connections) [
    | negsuc _ ↦ some s
    | pos i ↦ elim (get_elem? s.connections i) [ none ↦ some s | some c ↦ run_command i c cmd s ]
  ]
