-- ===== src/Cli/Served.antt =====
-- What a typed line does at the server.
use soii_ipc.Base.{ℕ, ◌^◌, ◌<◌, ◌≡◌, List, some, arith, length}
use soii_ipc.Base.Text.{codes}
use soii_ipc.Protocol.{Md5}
use soii_ipc.Server.{Server, no_productores}
use soii_ipc.Server.Commands.{Command, handle_command}
use soii_ipc.Server.Commands.Subscriptions.{
  addition, removal, handle_command-addition, handle_command-removal,
}
use soii_ipc.Cli.{parse_command, accepted}
use soii_ipc.Cli.RoundTrip.{IsNumeral, IsEnd, value, line_of_three, parse_command-line}

-- A line is accepted, and the server makes `t` of `s` when it reads the command.
abbrev pub Serves : ⦃md5 : Md5⦄ → List ℕ → Command → Server → Server → Type 0
Serves line old s t =
    (c : Command) × (parse_command line old ≡ accepted c) × (handle_command c s ≡ some t)

module _ ⦃md5 : Md5⦄ (ds es e : List ℕ) (old : Command) (s : Server) (ds_is : IsNumeral ds)
    (es_is : IsNumeral es) (end : IsEnd e) (rooms : length s.rooms ≡ no_productores) where
  -- Typing "add" or "delete" with two numerals that fit an `int` makes the server, if it has its
  -- three rooms, carry out the addition or the removal that the numbers name.
  pub parse_command-Serves :
      Serves (line_of_three (codes "add") ds es e) old s (addition (value 0 ds) (value 0 es) s)
      × Serves (line_of_three (codes "delete") ds es e) old s (removal (value 0 ds) (value 0 es) s)
  parse_command-Serves =
      let (adds, deletes, logs) = parse_command-line ds es e old ds_is es_is end in
      let word : value 0 es < 2 ^ 32 = omega (arith, es_is.fits) in
      (
        (_, adds, handle_command-addition (value 0 ds) (value 0 es) s rooms word),
        (_, deletes, handle_command-removal (value 0 ds) (value 0 es) s rooms word),
      )
