-- ===== src/Tests/Cli.antt =====
-- The CLI's theorems at typed lines.
use soii_ipc.Base.{◌+◌, ◌≡◌, refl, List, [], ◌∷◌, some, arith, pos}
use soii_ipc.Base.Text.{codes}
use soii_ipc.Server.Commands.{Command, cmd_add, cmd_del, cmd_log}
use soii_ipc.Server.Commands.Subscriptions.{addition, removal}
use soii_ipc.Cli.{
  parse_command, accepted, Line, Action, main, strtok, atoi, treat_all, treat, read_tokens, choose,
  same_text,
}
use soii_ipc.Cli.Words.{words, meaning, parse_command-meaning}
use soii_ipc.Cli.RoundTrip.{IsNumeral, end_of_line, parse_command-line}
use soii_ipc.Cli.Served.{Serves, parse_command-Serves}
use soii_ipc.Cli.Descriptors.{opens, closes, refusals, main-opens}
use soii_ipc.Tests.Samples.{sample_md5, two_sessions}

abbrev no_command : Command
no_command = record { type = 0; socket = 0; productor = 0 }

ten-IsNumeral : IsNumeral (codes "10")
ten-IsNumeral = record { some_digit = λ e. cc; digits = (refl, (refl, tt)); fits = omega arith }

two-IsNumeral : IsNumeral (codes "2")
two-IsNumeral = record { some_digit = λ e. cc; digits = (refl, tt); fits = omega arith }

parse_command-meaning_example :
    parse_command (codes " add 10  2") no_command ≡ meaning (words (codes " add 10  2")) no_command
parse_command-meaning_example = parse_command-meaning (codes " add 10  2") no_command

parse_command-line_example :
    (parse_command (codes "add 10 2\n") no_command
      ≡ accepted (record { type = cmd_add; socket = 10; productor = 2 }))
    × (parse_command (codes "delete 10 2\n") no_command
        ≡ accepted (record { type = cmd_del; socket = 10; productor = 2 }))
    × (parse_command (codes "log 2\n") no_command
        ≡ accepted (record { type = cmd_log; socket = 2; productor = 0 }))
parse_command-line_example =
    parse_command-line (codes "10") (codes "2") (codes "\n") no_command ten-IsNumeral two-IsNumeral
      end_of_line

parse_command-Serves_example :
    Serves ⦃md5 = sample_md5⦄
      (codes "add 10 2\n")
      no_command
      two_sessions
      (addition ⦃md5 = sample_md5⦄ 10 2 two_sessions)
    × Serves ⦃md5 = sample_md5⦄
        (codes "delete 10 2\n")
        no_command
        two_sessions
        (removal 10 2 two_sessions)
parse_command-Serves_example =
    parse_command-Serves ⦃md5 = sample_md5⦄ (codes "10") (codes "2") (codes "\n") no_command
      two_sessions ten-IsNumeral two-IsNumeral end_of_line refl

-- A line that is no command, and one that is.
abbrev two_lines : List Line
two_lines =
    record { fd = pos 4; buf = codes "help\n"; command = no_command }
    ∷ record { fd = pos 5; buf = codes "log 2\n"; command = no_command }
    ∷ []

abbrev two_actions : List Action
two_actions =
    Action.make_fifo
    ∷ Action.open_fifo (pos 4)
    ∷ Action.complain
    ∷ Action.sleep 1
    ∷ Action.open_fifo (pos 5)
    ∷ Action.write (pos 5) (record { type = cmd_log; socket = 2; productor = 0 })
    ∷ Action.close (pos 5)
    ∷ []

two_lines-run : main two_lines ≡ some two_actions
unfolding main treat_all treat parse_command strtok read_tokens choose same_text atoi
two_lines-run = refl

main-opens_example : opens two_actions ≡ closes two_actions + refusals two_lines
main-opens_example = main-opens two_lines two_actions two_lines-run
