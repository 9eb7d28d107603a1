-- ===== src/Server/Broker/Commands.antt =====
-- What the CLI's commands are to the broker: entering a room and leaving it.
use soii_ipc.Base.{
  ℕ, ◌-◌, ◌≡◌, refl, ap, ◌∙◌, false, ◌&&◌, inl, inr, List, [], ◌∷◌, ◌++◌, none, some, arith, ◌==◌,
  if◌then◌else◌, Bool-cases, Option-cases, get_elem?, set,
}
use soii_ipc.Protocol.{Md5, m_type_cli_accepted}
use soii_ipc.Seq.{find, add_last}
use soii_ipc.Seq.Matching.{first_match}
use soii_ipc.Server.{
  Connection, Server, logged, subscribed, unsubscribed, start_transfer, invalid_command, emit,
}
use soii_ipc.Server.Util.{compare_fd, find_by_socket, leave, send_new}
use soii_ipc.Server.Util.Search.{is_fd, find_fd}
use soii_ipc.Server.Messages.{Printf}
use soii_ipc.Server.Commands.{
  touch, Command, is_found, set_connection, subscribe, unsubscribe, log_command, run_command,
  handle_command,
}
use soii_ipc.Base.Words.{increment, decrement}
use soii_ipc.Server.Loop.Handlers.{
  add_command-After, del_command-After, run_command-After, handle_command-After,
}
use soii_ipc.Server.Loop.Inductive.{After}
use soii_ipc.Server.Loop.Inductive.{Inputs}
use soii_ipc.Server.Broker.Causes.{Caused, Refines, Refines-same, Refines-one}
use soii_ipc.Server.Broker.{
  entered, left, happen, view, count, members_of, Broker-ext, emit-silent, send_new-silent,
}
use soii_ipc.Server.Broker.Rooms.{
  count-last, count-missing, count-leave, members_of-set, members_of-at,
}

not_found :
    (fd : ℕ) (room : List ℕ)
    → is_found (find compare_fd fd room) ≡ false
    → first_match (is_fd fd) room ≡ none
not_found fd room out = elim (find_fd fd room) [
  | inl (nowhere, r) ↦ nowhere
  | inr (e, j, m, r, at) ↦ absurd (cc (out, ap is_found r))
]

-- The numbers once a socket is behind the others of a room.
members_of-entered :
    (rooms : List (List ℕ)) (k : ℕ) (room : List ℕ) (fd j g : ℕ)
    → get_elem? rooms k ≡ some room
    → first_match (is_fd fd) room ≡ none
    → members_of (set rooms k (room ++ fd ∷ [])) j g
      ≡ (if (j == k) && ((g == fd) && (members_of rooms j g == 0)) then 1 else members_of rooms j g)
members_of-entered rooms k room fd j g at out =
    members_of-set rooms k room (room ++ fd ∷ []) j g at ∙ elim (Bool-cases (j == k)) [
      | inr elsewhere ↦ ground arith
      | inl here ↦
          let same : j ≡ k = ground arith in
          let number : members_of rooms j g ≡ count g room =
            ap (λ n. members_of rooms n g) same ∙ members_of-at rooms k room g at in
          elim (Bool-cases (g == fd)) [
            | inr other ↦ ground (arith, number, count-last g fd room)
            | inl mine ↦
                let is : g ≡ fd = ground arith in
                let none_yet : count g room ≡ 0 =
                  ap (λ n. count n room) is ∙ count-missing fd room out in
                ground (arith, number, none_yet, count-last g fd room)
          ]
    ]

members_of-left :
    (rooms : List (List ℕ)) (k : ℕ) (room : List ℕ) (fd j g : ℕ)
    → get_elem? rooms k ≡ some room
    → members_of (set rooms k (leave fd room)) j g
      ≡ (if (j == k) && (g == fd) then members_of rooms j g - 1 else members_of rooms j g)
members_of-left rooms k room fd j g at =
    members_of-set rooms k room (leave fd room) j g at ∙ elim (Bool-cases (j == k)) [
      | inr elsewhere ↦ ground arith
      | inl here ↦
          let same : j ≡ k = ground arith in
          let number : members_of rooms j g ≡ count g room =
            ap (λ n. members_of rooms n g) same ∙ members_of-at rooms k room g at in
          ground (arith, number, count-leave g fd room)
    ]

module _ ⦃md5 : Md5⦄ ⦃printf : Printf⦄ (inputs : Inputs) where
  subscribe-Refines :
      (i : ℕ) (c : Connection) (k : ℕ) (room : List ℕ) (s : Server)
      → get_elem? s.rooms k ≡ some room
      → first_match (is_fd c.sockfd) room ≡ none
      → Caused inputs (entered k c.sockfd)
      → Refines inputs s (subscribe i c k room s)
  unfolding subscribe happen
  subscribe-Refines i c k room s at out cause =
      let counted = record c { susc_counter = increment c.susc_counter } in
      let joined =
        set_connection i counted (record s { rooms = set s.rooms k (add_last c.sockfd room) }) in
      Refines-one inputs (entered k c.sockfd) s (subscribe i c k room s) cause (
        emit-silent (logged (subscribed c.sockfd c.token k))
          (send_new c.sockfd m_type_cli_accepted [] joined) refl
        ∙ send_new-silent c.sockfd m_type_cli_accepted [] joined refl
        ∙ Broker-ext (view joined) (happen (entered k c.sockfd) (view s))
            (λ j g. members_of-entered s.rooms k room c.sockfd j g at out) (λ g. refl) refl refl)

  refused : (s : Server) → Refines inputs s (emit invalid_command s)
  refused s = Refines-same inputs s (emit invalid_command s) (emit-silent invalid_command s refl)

  unsubscribe-Refines :
      (i : ℕ) (c : Connection) (k : ℕ) (room : List ℕ) (s : Server)
      → get_elem? s.rooms k ≡ some room
      → Caused inputs (left k c.sockfd)
      → Refines inputs s (unsubscribe i c k room (find compare_fd c.sockfd room) s)
  unfolding unsubscribe happen leave
  unsubscribe-Refines i c k room s at cause =
      let counted = record c { susc_counter = decrement c.susc_counter } in
      let gone =
        set_connection i counted (record s { rooms = set s.rooms k (leave c.sockfd room) }) in
      Refines-one inputs (left k c.sockfd) s
        (unsubscribe i c k room (find compare_fd c.sockfd room) s) cause
        (emit-silent (logged (unsubscribed c.sockfd c.token k)) gone refl
          ∙ Broker-ext (view gone) (happen (left k c.sockfd) (view s))
              (λ j g. members_of-left s.rooms k room c.sockfd j g at) (λ g. refl) refl refl)

  log_command-Refines : (i : ℕ) (c : Connection) (s : Server) → Refines inputs s (log_command i c s)
  unfolding log_command
  log_command-Refines i c s = elim (Option-cases (find_by_socket c.sockfd s.connections)) [
    | inl missing ↦ rw (missing, log_command) (Refines-same inputs s s refl)
    | inr (d, there) ↦
        rw (there, log_command)
          (Refines-same inputs s (emit (start_transfer c.sockfd) s)
            (emit-silent (start_transfer c.sockfd) s refl))
  ]

  run_command-Refines :
      (i : ℕ) (c : Connection) (cmd : Command) (s : Server)
      → inputs.command cmd
      → After (Refines inputs s) (run_command i c cmd s)
  run_command-Refines i c cmd s met =
      run_command-After (Refines inputs s) i c cmd s
        (λ add.
          add_command-After (Refines inputs s) i c cmd.productor s (refused s)
            (λ room there outside.
              subscribe-Refines i c cmd.productor room s there (not_found c.sockfd room outside)
                (cmd, met, add, refl)))
        (λ del.
          del_command-After (Refines inputs s) i c cmd.productor s (refused s) (λ room there.
            unsubscribe-Refines i c cmd.productor room s there (cmd, met, del, refl)))
        (log_command-Refines i c s) (Refines-same inputs s (touch i c s) refl)

  pub handle_command-Refines :
      (cmd : Command) (s : Server)
      → inputs.command cmd
      → After (Refines inputs s) (handle_command cmd s)
  handle_command-Refines cmd s met =
      handle_command-After (Refines inputs s) cmd s (Refines-same inputs s s refl)
        (λ i c. run_command-Refines i c cmd s met)
