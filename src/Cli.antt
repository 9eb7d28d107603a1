-- ===== src/Cli.antt =====
-- server/src/cli.c: lines from the terminal become commands for the server.
pub mod Words
pub mod RoundTrip
pub mod Descriptors
pub mod Served
use soii_ipc.Base.{
  ℕ, zero, suc, ◌+◌, ◌-◌, ◌*◌, ◌%◌, ◌^◌, Bool, true, false, ◌&&◌, ◌||◌, List, [], ◌∷◌, ◌++◌, Option,
  none, some, ltb, leb, ◌==◌, if◌then◌else◌, length, ℤ,
}
use soii_ipc.Base.Text.{codes}
use soii_ipc.Server.Commands.{Command, cmd_add, cmd_del, cmd_log}

-- `strtok` with the delimiter " ", on the text that it has not looked at yet: the token and what is
-- left behind the delimiter that ends it. `none` is NULL.
skip_spaces : List ℕ → List ℕ
skip_spaces [] = []
skip_spaces (c ∷ s) = if c == b' ' then skip_spaces s else c ∷ s

-- The token that begins here, and what follows it.
until_space : List ℕ → List ℕ × List ℕ
until_space [] = ([], [])
until_space (c ∷ s) =
    let (token, rest) = until_space s in if c == b' ' then ([], s) else (c ∷ token, rest)

unfoldable pub strtok : List ℕ → Option (List ℕ × List ℕ)
unfolding skip_spaces until_space
strtok s = elim (skip_spaces s) [ [] ↦ none | c ∷ t ↦ some (until_space (c ∷ t)) ]

abbrev pub is_space : ℕ → Bool
is_space c = c == 32 || (leb 9 c && leb c 13)

abbrev pub is_digit : ℕ → Bool
is_digit c = leb b'0' c && leb c b'9'

skip_blanks : List ℕ → List ℕ
skip_blanks [] = []
skip_blanks (c ∷ s) = if is_space c then skip_blanks s else c ∷ s

-- The digits at the front, read after the number `n`.
read_digits : ℕ → List ℕ → ℕ
read_digits n [] = n
read_digits n (c ∷ s) =
    let rest = read_digits (n * 10 + (c - b'0')) s in if is_digit c then rest else n

-- A number with its sign as the pattern of an `int`. `none`: it is none, and `atoi` is undefined.
abbrev pub signed : Bool → ℕ → Option ℕ
signed true n = if leb n (2 ^ 31) then some ((2 ^ 32 - n) % 2 ^ 32) else none
signed false n = if ltb n (2 ^ 31) then some n else none

read_signed : List ℕ → Option ℕ
unfolding read_digits
read_signed [] = some 0
read_signed (c ∷ s) =
    if c == b'-'
    then signed true (read_digits 0 s)
    else if c == b'+'
    then signed false (read_digits 0 s)
    else signed false (read_digits 0 (c ∷ s))

unfoldable pub atoi : List ℕ → Option ℕ
unfolding skip_blanks read_signed
atoi s = read_signed (skip_blanks s)

-- `strcmp(a, b) == 0`
unfoldable pub same_text : List ℕ → List ℕ → Bool
same_text [] [] = true
same_text [] (y ∷ ys) = false
same_text (x ∷ xs) [] = false
same_text (x ∷ xs) (y ∷ ys) = (x == y) && same_text xs ys

-- The tokens behind the first, for as many as there is place. `none` is the early -1.
unfoldable pub read_tokens : ℕ → List ℕ → Option (List (List ℕ))
read_tokens zero rest = elim (strtok rest) [ none ↦ some [] | some found ↦ none ]
read_tokens (suc n) rest = elim (strtok rest) [
  | none ↦ some []
  | some (token, rest') ↦ elim (read_tokens n rest') [ none ↦ none | some ts ↦ some (token ∷ ts) ]
]

-- What `parse_command` does: the result -1, the result 0 with the command written, or undefined
-- behaviour.
pub data Parsed : Type 0 where
  refused : Parsed
  accepted : Command → Parsed
  undefined : Parsed

abbrev pub with_number : Option ℕ → (ℕ → Parsed) → Parsed
with_number none k = undefined
with_number (some n) k = k n

unfoldable pub two_numbers : ℕ → List ℕ → List ℕ → Command → Parsed
two_numbers type a b command = with_number (atoi a) λ socket.
    with_number (atoi b)
      λ productor. accepted (record command { type = type; socket = socket; productor = productor })

-- The command that the tokens make. Its third field keeps what it held, if "log" is the first token.
unfoldable pub choose : List ℕ → List (List ℕ) → Command → Parsed
choose name (a ∷ b ∷ []) command =
    if same_text name (codes "add")
    then two_numbers cmd_add a b command
    else if same_text name (codes "delete")
    then two_numbers cmd_del a b command
    else refused
choose name (a ∷ []) command =
    if same_text name (codes "log")
    then with_number (atoi a)
        (λ socket. accepted (record command { type = cmd_log; socket = socket }))
    else refused
choose name _ command = refused

-- With no token at all, the loop finds none either.
unfoldable pub parse_command : List ℕ → Command → Parsed
parse_command string command = elim (strtok string) [
  | none ↦ refused
  | some (token, rest) ↦ elim (read_tokens 2 rest) [
    | none ↦ refused
    | some tokens ↦ choose token tokens command
  ]
]

-- What the program does to the world.
pub data Action : Type 0 where
  make_fifo complain : Action
  open_fifo close : ℤ → Action
  sleep : ℕ → Action
  write : ℤ → Command → Action

-- What a round meets: the descriptor that `open` returns, the text that `fgets` leaves in the
-- buffer, up to its terminator, and what the uninitialised command holds.
pub record Line : Type 0 where
  pub fd : ℤ
  pub buf : List ℕ
  pub command : Command

-- A refused line is left by `continue`, before `close`.
unfoldable pub treat : Line → List Action → Option (List Action)
treat line actions =
    let opened = actions ++ open_fifo line.fd ∷ [] in
    elim (parse_command line.buf line.command) [
      | undefined ↦ none
      | refused ↦ some (opened ++ complain ∷ sleep 1 ∷ [])
      | accepted command ↦ some (opened ++ write line.fd command ∷ close line.fd ∷ [])
    ]

unfoldable pub treat_all : List Line → List Action → Option (List Action)
treat_all [] actions = some actions
treat_all (line ∷ lines) actions = elim (treat line actions) [
  | none ↦ none
  | some actions' ↦ treat_all lines actions'
]

-- The lines are those of the terminal, in turn.
unfoldable pub main : List Line → Option (List Action)
main lines = treat_all lines (make_fifo ∷ [])
