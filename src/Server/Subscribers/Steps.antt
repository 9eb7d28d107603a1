-- ===== src/Server/Subscribers/Steps.antt =====
-- The steps of the main loop keep what holds between sessions and rooms.
use soii_ipc.Base.{
  ℕ, ◌^◌, ◌<◌, ◌≡◌, refl, sym, subst, ◌∙◌, Bool, inl, inr, List, Option, some, ◌==◌, Bool-cases,
  Option-cases, get_elem?, set,
}
use soii_ipc.Seq.Matching.{first_match, replace_first, FirstAt}
use soii_ipc.Protocol.{Md5}
use soii_ipc.Server.{Connection, Server}
use soii_ipc.Server.Util.{find_by_socket}
use soii_ipc.Server.Util.Search.{has_token, is_fd}
use soii_ipc.Server.Commands.{
  Command, cmd_add, cmd_del, cmd_log, touch, log_command, run_command, handle_command,
}
use soii_ipc.Server.Commands.Subscriptions.{
  handle_command-unknown, handle_command-runs, add_command-added, del_command-removed, added,
  removed,
}
use soii_ipc.Server.Subscribers.{enrolled, Others, Counted, WellFormed}
use soii_ipc.Server.Subscribers.Shelter.{Others-changed}
use soii_ipc.Server.Subscribers.Preserved.{
  Counted-replace_first, first_count, joined-WellFormed, left-WellFormed,
}

-- A step gave a state in which it holds.
abbrev pub Stays : Option Server → Type 0
Stays o = (s : Server) × (o ≡ some s) × WellFormed s

pub Counted-retimed :
    (p : Connection → Bool) (u : ℕ) (c : Connection) (rooms : List (List ℕ)) (cs : List Connection)
    → first_match p cs ≡ some c
    → Counted rooms cs
    → Counted rooms (replace_first p (record c { timestamp = u }) cs)
Counted-retimed p u c rooms cs m counted =
    Counted-replace_first p rooms rooms cs c (record c { timestamp = u }) m refl
      (first_count p rooms cs c m counted) (λ g far. refl) counted

module _ ⦃md5 : Md5⦄ (cmd : Command) (s : Server) (ok : WellFormed s)
    (word : cmd.productor < 2 ^ 32) where
  module _ (c : Connection)
      (known : first_match (has_token cmd.socket) s.connections ≡ some c) where
    added-WellFormed : WellFormed (added cmd.socket c cmd.productor s)
    added-WellFormed = elim (Option-cases (get_elem? s.rooms cmd.productor)) [
      | inl missing ↦
          rw (missing, added)
            (record {
              rooms = ok.rooms;
              once = ok.once;
              counted = ok.counted;
              sheltered = ok.sheltered;
            })
      | inr (room, there) ↦ elim (Option-cases (first_match (is_fd c.sockfd) room)) [
        | inl absent ↦
            rw (there, absent, added)
              (joined-WellFormed cmd.socket c cmd.productor room s ok known there absent)
        | inr (e, present) ↦
            rw (there, present, added)
              (record {
                rooms = ok.rooms;
                once = ok.once;
                counted = ok.counted;
                sheltered = ok.sheltered;
              })
      ]
    ]

    removed-WellFormed : WellFormed (removed cmd.socket c cmd.productor s)
    removed-WellFormed = elim (Option-cases (get_elem? s.rooms cmd.productor)) [
      | inl missing ↦
          rw (missing, removed)
            (record {
              rooms = ok.rooms;
              once = ok.once;
              counted = ok.counted;
              sheltered = ok.sheltered;
            })
      | inr (room, there) ↦ elim (Option-cases (first_match (is_fd c.sockfd) room)) [
        | inl absent ↦
            rw (there, absent, removed)
              (record {
                rooms = ok.rooms;
                once = ok.once;
                counted = ok.counted;
                sheltered = ok.sheltered;
              })
        | inr (e, present) ↦
            rw (there, present, removed)
              (left-WellFormed cmd.socket c cmd.productor room s ok known there e present)
      ]
    ]

    module _ (j : ℕ) (at : FirstAt (has_token cmd.socket) s.connections c j) where
      touched : Counted s.rooms (set s.connections j (record c { timestamp = s.clock 0 }))
      touched = subst (Counted s.rooms) (sym (at.replace (record c { timestamp = s.clock 0 }))) (
          Counted-retimed (has_token cmd.socket) (s.clock 0) c s.rooms s.connections known
            ok.counted)

      touched-sheltered :
          (fd : ℕ)
          → Others fd (set s.connections j (record c { timestamp = s.clock 0 }))
          → enrolled fd s.rooms ≡ 0
      touched-sheltered fd others = ok.sheltered fd (
          Others-changed (has_token cmd.socket) fd s.connections c
            (record c { timestamp = s.clock 0 }) known refl
            (subst (Others fd) (at.replace (record c { timestamp = s.clock 0 })) others))

      log_command-WellFormed : WellFormed (log_command j c s)
      unfolding log_command
      log_command-WellFormed = elim (Option-cases (find_by_socket c.sockfd s.connections)) [
        | inl missing ↦ rw (missing, log_command) ok
        | inr (d, there) ↦
            rw (there, log_command)
              (record {
                rooms = ok.rooms;
                once = ok.once;
                counted = touched;
                sheltered = touched-sheltered;
              })
      ]

      run_command-Stays : Stays (run_command j c cmd s)
      unfolding run_command
      run_command-Stays = elim (Bool-cases (cmd.type == cmd_add)) [
        | inl add ↦ (
          added cmd.socket c cmd.productor s,
          rw (add, run_command) (add_command-added cmd.socket c cmd.productor s ok.rooms word j at),
          added-WellFormed,
        )
        | inr not_add ↦ elim (Bool-cases (cmd.type == cmd_del)) [
          | inl del ↦ (
            removed cmd.socket c cmd.productor s,
            rw (not_add, del, run_command)
                (del_command-removed cmd.socket c cmd.productor s ok.rooms word j at),
            removed-WellFormed,
          )
          | inr not_del ↦ elim (Bool-cases (cmd.type == cmd_log)) [
            | inl log ↦
                (log_command j c s, rw (not_add, not_del, log, run_command), log_command-WellFormed)
            | inr other ↦ (
              touch j c s,
              rw (not_add, not_del, other, run_command),
              record {
                rooms = ok.rooms;
                once = ok.once;
                counted = touched;
                sheltered = touched-sheltered;
              },
            )
          ]
        ]
      ]

  -- A command whose room's number is a 32-bit pattern is carried out, and keeps the count of every
  -- session, the sockets apart and every room free of repetitions.
  pub handle_command-Stays : Stays (handle_command cmd s)
  handle_command-Stays = elim (Option-cases (first_match (has_token cmd.socket) s.connections)) [
    | inl unknown ↦ (s, handle_command-unknown cmd s unknown, ok)
    | inr (c, known) ↦
        let (j, at, runs) = handle_command-runs cmd s c known in
        let (t, gives, fine) = run_command-Stays c known j at in (t, runs ∙ gives, fine)
  ]
