-- ===== src/Client.antt =====
-- client/src/cliente.c: the subscriber's side of the connection. What is printed is left out, and the
-- readings of `time` that are only printed. SIGPIPE has its default action: a write to a connection
-- that is closed ends the process.
pub mod Answers
pub mod Session
pub mod Stale
use soii_ipc.Base.{
  ◌||◌, ℕ, suc, ◌+◌, ◌*◌, ◌%◌, ◌^◌, Bool, true, false, List, [], ◌∷◌, ◌++◌, Option, none, some,
  ◌==◌, if◌then◌else◌, take,
}
use soii_ipc.Base.Words.{to_bytes, of_bytes}
use soii_ipc.Protocol.{
  Md5, Packet, gen_packet, check_packet_md5, payload_int, m_type_ack, m_type_fin, m_type_data,
  m_type_cli_accepted, m_type_conn_accepted, m_type_auth, m_type_ft_setup,
}
use soii_ipc.Cli.{atoi}
use soii_ipc.Transfer.{htons}

-- What the client does to the world. `start_transfer` is the thread that receives the file, with the
-- port, in network order, that it connects to.
pub data Deed : Type 0 where
  sent : ℕ → Packet → Deed
  close start_transfer : ℕ → Deed

-- The variables of `main`. `buffer` is `rcv_packet`; `clock` is what the coming calls of `time`
-- return, `broken` whether the coming writes meet a closed connection, and `killed` whether one did.
pub record Client : Type 0 where
  pub sockfd : ℕ
  pub token : ℕ
  pub tflag : Bool
  pub term : Bool
  pub buffer : Packet
  pub clock : ℕ → ℕ
  pub broken : ℕ → Bool
  pub killed : Bool
  pub trace : List Deed

-- What `main` meets before its loop: the argument of the option "-t", if `getopt` finds it, what is
-- in `argv[2]` then, if anything, whether `gethostbyname` knows the server, the socket, whether
-- `connect` succeeds, and what the uninitialised token and buffer hold.
pub record Arguments : Type 0 where
  pub optarg : Option (List ℕ)
  pub port : Option (List ℕ)
  pub host_known : Bool
  pub socket : ℕ
  pub connected : Bool
  pub token : ℕ
  pub buffer : Packet

-- The loop begins, connected to a port in network order; the process exits with a status; or NULL is
-- used or a numeral is too large.
pub data Begin : Type 0 where
  running : ℕ → Client → Begin
  exited : ℕ → Begin
  undefined : Begin

-- The numeral in a text that may be NULL.
abbrev pub numeral : Option (List ℕ) → Option ℕ
numeral none = none
numeral (some text) = atoi text

-- From the port on.
unfoldable pub connect_client : Arguments → Option ℕ → Bool → ℕ → (ℕ → ℕ) → (ℕ → Bool) → Begin
connect_client a none tflag token clock broken = undefined
connect_client a (some port) tflag token clock broken =
    if a.host_known
    then (if a.connected
        then running (htons (port % 2 ^ 16)) (record {
          sockfd = a.socket;
          token = token;
          tflag = tflag;
          term = false;
          buffer = a.buffer;
          clock = clock;
          broken = broken;
          killed = false;
          trace = [];
        })
        else exited 1)
    else undefined

unfoldable pub start_client : Arguments → (ℕ → ℕ) → (ℕ → Bool) → Begin
start_client a clock broken = elim a.optarg [
  | none ↦ connect_client a (numeral a.port) false a.token clock broken
  | some text ↦ elim (atoi text) [
    | none ↦ undefined
    | some token ↦ connect_client a (numeral a.port) true token clock broken
  ]
]

-- What `recv` gave: a failure, the end of the stream, or what the buffer holds after it.
pub data Reception (A : Type 0) : Type 0 where
  failed ended : Reception A
  full : A → Reception A

-- The buffer after `recv`: the calls that fail, or that find the stream at its end, leave it.
abbrev pub refill : {A : Type 0} → Reception A → A → A
refill failed old = old
refill ended old = old
refill (full p) old = p

abbrev pub do_deed : Deed → Client → Client
do_deed d c = record c { trace = c.trace ++ d ∷ [] }

module _ ⦃md5 : Md5⦄ where
  -- A packet of the given type and payload is made and written to the server, unless the process is
  -- gone already.
  unfoldable pub write_new : ℕ → List ℕ → Client → Client
  write_new type payload c =
      let made = record c { clock = λ n. c.clock (suc n); broken = λ n. c.broken (suc n) } in
      if c.killed
      then c
      else if c.broken 0
      then record made { killed = true }
      else do_deed (sent c.sockfd (gen_packet (c.clock 0) type payload).0) made

  unfoldable pub send_ack : ℕ → Client → Client
  send_ack token c = write_new m_type_ack (to_bytes 4 token) c

  -- `M_TYPE_CONN_ACCEPTED`: the old session is asked for, or the new one is taken.
  unfoldable pub enter : Packet → Client → Client
  enter p c =
      let new_token = payload_int 0 p.payload in
      if c.tflag
      then send_ack c.token (write_new m_type_auth (to_bytes 4 c.token ++ to_bytes 4 new_token) c)
      else send_ack new_token (record c { token = new_token })

  -- `M_TYPE_FT_SETUP`: the port is the `unsigned short` at the payload's front.
  unfoldable pub fetch_file : Packet → Client → Client
  fetch_file p c = do_deed (start_transfer (of_bytes (take 2 p.payload))) c

  unfoldable pub handle_packet : Packet → Client → Client
  handle_packet p c =
      if p.mtype == m_type_conn_accepted
      then enter p c
      else if p.mtype == m_type_cli_accepted
      then send_ack c.token c
      else if p.mtype == m_type_data
      then send_ack c.token c
      else if p.mtype == m_type_fin
      then record (do_deed (close c.sockfd) c) { term = true }
      else if p.mtype == m_type_ft_setup
      then fetch_file p c
      else c

  -- One round of the loop.
  unfoldable pub round : Reception Packet → Client → Client
  round r c =
      let filled = record c { buffer = refill r c.buffer } in
      if check_packet_md5 filled.buffer then handle_packet filled.buffer filled else filled

  -- `while (!term)`, for as long as the list of receptions goes on and the process lives.
  unfoldable pub rounds : List (Reception Packet) → Client → Client
  rounds [] c = c
  rounds (r ∷ rs) c = elim (c.term || c.killed) [ true ↦ c | false ↦ rounds rs (round r c) ]
