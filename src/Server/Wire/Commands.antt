-- ===== src/Server/Wire/Commands.antt =====
-- Commands write whole packets that pass the check.
use soii_ipc.Base.{ℕ, refl, inl, inr, List, [], arith, Option-cases, ℤ}
use soii_ipc.Protocol.{Md5}
use soii_ipc.Server.{
  unsubscribed, start_transfer, invalid_command, Connection, Server, logged, emit,
}
use soii_ipc.Server.Util.{find_by_socket}
use soii_ipc.Server.Commands.{
  Command, subscribe, unsubscribe, log_command, run_command, handle_command,
}
use soii_ipc.Server.Loop.Handlers.{
  add_command-After, del_command-After, run_command-After, handle_command-After,
}
use soii_ipc.Server.Loop.Inductive.{After}
use soii_ipc.Server.Wire.{IsClean, IsClean-same, emit-IsClean, send_new-IsClean}

module _ ⦃md5 : Md5⦄ where
  subscribe-IsClean :
      (i : ℕ) (c : Connection) (k : ℕ) (room : List ℕ) (s : Server)
      → IsClean s
      → IsClean (subscribe i c k room s)
  unfolding subscribe
  subscribe-IsClean i c k room s clean =
      let told =
        send_new-IsClean c.sockfd _ [] _ (omega arith) (IsClean-same s _ refl refl clean) in
      IsClean-same _ _ refl refl (emit-IsClean _ _ tt told)

  unsubscribe-IsClean :
      (i : ℕ) (c : Connection) (k : ℕ) (room : List ℕ) (r : ℤ) (s : Server)
      → IsClean s
      → IsClean (unsubscribe i c k room r s)
  unfolding unsubscribe
  unsubscribe-IsClean i c k room r s clean =
      IsClean-same (emit (logged (unsubscribed c.sockfd c.token k)) s) _ refl refl
        (emit-IsClean _ s tt clean)

  log_command-IsClean :
      (i : ℕ) (c : Connection) (s : Server) → IsClean s → IsClean (log_command i c s)
  unfolding log_command
  log_command-IsClean i c s clean = elim (Option-cases (find_by_socket c.sockfd s.connections)) [
    | inl missing ↦ rw (missing, log_command) clean
    | inr (d, there) ↦
        rw (there, log_command)
          (IsClean-same (emit (start_transfer c.sockfd) s) _ refl refl (emit-IsClean _ s tt clean))
  ]

  run_command-IsClean :
      (i : ℕ) (c : Connection) (cmd : Command) (s : Server)
      → IsClean s
      → After IsClean (run_command i c cmd s)
  run_command-IsClean i c cmd s clean =
      let refused = emit-IsClean invalid_command s tt clean in
      run_command-After IsClean i c cmd s
        (λ add.
          add_command-After IsClean i c cmd.productor s refused
            (λ room there outside. subscribe-IsClean i c cmd.productor room s clean))
        (λ del.
          del_command-After IsClean i c cmd.productor s refused
            (λ room there. unsubscribe-IsClean i c cmd.productor room _ s clean))
        (log_command-IsClean i c s clean) (IsClean-same s _ refl refl clean)

  pub handle_command-IsClean :
      (cmd : Command) (s : Server) → IsClean s → After IsClean (handle_command cmd s)
  handle_command-IsClean cmd s clean =
      handle_command-After IsClean cmd s clean (λ i c. run_command-IsClean i c cmd s clean)
