-- ===== src/Tests/Commands.antt =====
-- The CLI's commands at a small state.
use soii_ipc.Base.{ℕ, ◌≡◌, refl, [], ◌∷◌, some, arith}
use soii_ipc.Server.Commands.{Command, cmd_add, cmd_del, handle_command}
use soii_ipc.Server.Commands.Subscriptions.{
  handle_command-addition, handle_command-removal, addition, removal,
}
use soii_ipc.Server.Loop.{handle_commands}
use soii_ipc.Server.Loop.RoundTrip.{handle_commands-restored, restored}
use soii_ipc.Tests.Samples.{sample_md5, sample_printf, new_session, two_sessions}

abbrev add_to : ℕ → ℕ → Command
add_to t k = record { type = cmd_add; socket = t; productor = k }

abbrev del_from : ℕ → ℕ → Command
del_from t k = record { type = cmd_del; socket = t; productor = k }

handle_command-addition_example :
    handle_command ⦃md5 = sample_md5⦄ (add_to 11 0) two_sessions
    ≡ some (addition ⦃md5 = sample_md5⦄ 11 0 two_sessions)
handle_command-addition_example =
    handle_command-addition ⦃md5 = sample_md5⦄ 11 0 two_sessions refl (omega arith)

handle_command-removal_example :
    handle_command ⦃md5 = sample_md5⦄ (del_from 10 0) two_sessions
    ≡ some (removal 10 0 two_sessions)
handle_command-removal_example =
    handle_command-removal ⦃md5 = sample_md5⦄ 10 0 two_sessions refl (omega arith)

handle_commands-restored_example :
    handle_commands ⦃md5 = sample_md5⦄ ⦃printf = sample_printf⦄
      (add_to 11 0 ∷ del_from 11 0 ∷ [])
      two_sessions
    ≡ some (restored ⦃md5 = sample_md5⦄ 11 new_session 0 two_sessions)
handle_commands-restored_example =
    handle_commands-restored ⦃md5 = sample_md5⦄ ⦃printf = sample_printf⦄ 11 new_session 0 (4 ∷ [])
      two_sessions refl refl refl refl (omega arith)
