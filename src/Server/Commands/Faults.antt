-- ===== src/Server/Commands/Faults.antt =====
-- No command of the CLI breaks the server.
use soii_ipc.Base.{
  ℕ, ◌^◌, ◌<◌, ◌≡◌, ◌∙◌, inl, inr, ◌==◌, Bool-cases, Option-cases, length, length-set, get_elem?,
}
use soii_ipc.Seq.Matching.{first_match, FirstAt}
use soii_ipc.Protocol.{Md5}
use soii_ipc.Server.{Connection, Server, no_productores}
use soii_ipc.Server.Util.{find_by_socket}
use soii_ipc.Server.Util.Search.{has_token, is_fd}
use soii_ipc.Server.Clients.Faults.{Kept}
use soii_ipc.Server.Commands.{
  Command, cmd_add, cmd_del, cmd_log, touch, log_command, run_command, handle_command,
}
use soii_ipc.Server.Commands.Subscriptions.{
  handle_command-unknown, handle_command-runs, add_command-added, del_command-removed, added,
  removed,
}

module _ ⦃md5 : Md5⦄ (t : ℕ) (c : Connection) (k : ℕ) (s : Server) (n : ℕ)
    (rooms : length s.rooms ≡ n) where
  added-rooms : length (added t c k s).rooms ≡ n
  added-rooms = elim (Option-cases (get_elem? s.rooms k)) [
    | inl missing ↦ rw (missing, added) rooms
    | inr (room, there) ↦ elim (Option-cases (first_match (is_fd c.sockfd) room)) [
      | inl absent ↦ rw (there, absent, added) (length-set s.rooms k _ ∙ rooms)
      | inr (e, present) ↦ rw (there, present, added) rooms
    ]
  ]

  removed-rooms : length (removed t c k s).rooms ≡ n
  removed-rooms = elim (Option-cases (get_elem? s.rooms k)) [
    | inl missing ↦ rw (missing, removed) rooms
    | inr (room, there) ↦ elim (Option-cases (first_match (is_fd c.sockfd) room)) [
      | inl absent ↦ rw (there, absent, removed) rooms
      | inr (e, present) ↦ rw (there, present, removed) (length-set s.rooms k _ ∙ rooms)
    ]
  ]

log_command-rooms :
    (i : ℕ) (c : Connection) (s : Server) (n : ℕ)
    → length s.rooms ≡ n
    → length (log_command i c s).rooms ≡ n
unfolding log_command
log_command-rooms i c s n rooms = elim (Option-cases (find_by_socket c.sockfd s.connections)) [
  | inl missing ↦ rw (missing, log_command) rooms
  | inr (d, there) ↦ rw (there, log_command) rooms
]

module _ ⦃md5 : Md5⦄ (cmd : Command) (s : Server) (rooms : length s.rooms ≡ no_productores)
    (word : cmd.productor < 2 ^ 32) where
  run_command-Kept :
      (c : Connection) (j : ℕ)
      → FirstAt (has_token cmd.socket) s.connections c j
      → Kept no_productores (run_command j c cmd s)
  unfolding run_command
  run_command-Kept c j at = elim (Bool-cases (cmd.type == cmd_add)) [
    | inl add ↦ (
      added cmd.socket c cmd.productor s,
      rw (add, run_command) (add_command-added cmd.socket c cmd.productor s rooms word j at),
      added-rooms cmd.socket c cmd.productor s no_productores rooms,
    )
    | inr not_add ↦ elim (Bool-cases (cmd.type == cmd_del)) [
      | inl del ↦ (
        removed cmd.socket c cmd.productor s,
        rw (not_add, del, run_command)
            (del_command-removed cmd.socket c cmd.productor s rooms word j at),
        removed-rooms cmd.socket c cmd.productor s no_productores rooms,
      )
      | inr not_del ↦ elim (Bool-cases (cmd.type == cmd_log)) [
        | inl log ↦ (
          log_command j c s,
          rw (not_add, not_del, log, run_command),
          log_command-rooms j c s no_productores rooms,
        )
        | inr other ↦ (touch j c s, rw (not_add, not_del, other, run_command), rooms)
      ]
    ]
  ]

  pub handle_command-Kept : Kept no_productores (handle_command cmd s)
  handle_command-Kept = elim (Option-cases (first_match (has_token cmd.socket) s.connections)) [
    | inl unknown ↦ (s, handle_command-unknown cmd s unknown, rooms)
    | inr (c, known) ↦
        let (j, at, runs) = handle_command-runs cmd s c known in
        let (u, gives, kept) = run_command-Kept c j at in (u, runs ∙ gives, kept)
  ]
