-- ===== src/Server/Setup/Outcomes.antt =====
-- How `main` of server/src/srv.c leaves its setup.
use soii_ipc.Base.{
  ℕ, zero, suc, ◌%◌, ◌^◌, ◌≡◌, ◌≢◌, refl, Bool, true, false, List, [], ◌∷◌, Option, none, some, ℤ,
  pos, negsuc,
}
use soii_ipc.Server.Loop.{start}
use soii_ipc.Server.Setup.{
  Environment, Startup, running, exited, returned, undefined, set_up, read_port, open_port,
  listen_on, open_cli, open_mq, check, exit_unless, not_negative, is_descriptor, SetupCall,
}
use soii_ipc.Cli.{atoi}
use soii_ipc.Transfer.{SocketAddress, setup_tcpsocket}
use soii_ipc.Base.Words.{int_minus_one}

-- The loop is reached with the new listening socket, bound and listening, and the initial state; else
-- the status is 1, or not 0.
abbrev pub Sound : Environment → Startup → Type 0
Sound e (running fd s calls) =
    (e.socket ≡ some fd) × (e.bound ≡ true) × (e.listen_result ≡ pos 0) × (s ≡ start e.clock)
Sound e (exited status calls) = status ≡ 1
Sound e (returned status calls) = status ≢ pos 0
Sound e undefined = Unit {0}

exit_unless-Sound :
    (e : Environment) (ok : Bool) (calls : List SetupCall) (next : Startup)
    → (ok ≡ true → Sound e next)
    → Sound e (exit_unless ok calls next)
exit_unless-Sound e true calls next h = h refl
exit_unless-Sound e false calls next h = refl

check-Sound :
    (e : Environment) (r : ℤ) (calls : List SetupCall) (next : Startup)
    → (r ≡ pos 0 → Sound e next)
    → Sound e (check r calls next)
unfolding check
check-Sound e (pos zero) calls next h = h refl
check-Sound e (pos (suc n)) calls next h = λ same. cc
check-Sound e (negsuc n) calls next h = λ same. cc

module _ (e : Environment) (fd : ℕ) (socket : e.socket ≡ some fd) (bound : e.bound ≡ true)
    (listening : e.listen_result ≡ pos 0) where
  open_mq-Sound : (calls : List SetupCall) → Sound e (open_mq e fd calls)
  unfolding open_mq
  open_mq-Sound calls =
      exit_unless-Sound e (not_negative e.mq) _ _ λ _. (socket, bound, listening, refl)

  open_cli-Sound : (calls : List SetupCall) → Sound e (open_cli e fd calls)
  unfolding open_cli
  open_cli-Sound calls = exit_unless-Sound e (is_descriptor e.epoll_cli) _ _ λ _. open_mq-Sound _

listen_on-Sound :
    (e : Environment) (fd : ℕ) (address : SocketAddress) (calls : List SetupCall)
    → (is_descriptor fd ≡ true → e.socket ≡ some fd)
    → Sound e (listen_on e (fd, address) calls)
unfolding listen_on
listen_on-Sound e fd address calls made = exit_unless-Sound e e.bound _ _ λ bound.
    exit_unless-Sound e (is_descriptor fd) _ _ λ valid.
      check-Sound e e.listen_result _ _ λ listening.
        exit_unless-Sound e (is_descriptor e.epollfd) _ _
          λ _. open_cli-Sound e fd (made valid) bound listening _

listen_on-made :
    (e : Environment) (port : ℕ) (made : Option ℕ) (calls : List SetupCall)
    → e.socket ≡ made
    → Sound e (listen_on e (setup_tcpsocket port made e.address) calls)
unfolding setup_tcpsocket
listen_on-made e port none calls same =
    listen_on-Sound e int_minus_one e.address calls λ valid. absurd (cc valid)
listen_on-made e port (some fd) calls same = listen_on-Sound e fd _ calls λ _. same

open_port-Sound :
    (e : Environment) (port : Option ℕ) (calls : List SetupCall) → Sound e (open_port e port calls)
unfolding open_port
open_port-Sound e none calls = tt
open_port-Sound e (some port) calls = listen_on-made e (port % 2 ^ 16) e.socket calls refl

read_port-Sound :
    (e : Environment) (arguments : List (List ℕ)) (calls : List SetupCall)
    → Sound e (read_port e arguments calls)
unfolding read_port
read_port-Sound e [] calls = refl
read_port-Sound e (name ∷ []) calls = refl
read_port-Sound e (name ∷ port ∷ rest) calls = open_port-Sound e (atoi port) calls

pub set_up-Sound : (e : Environment) → Sound e (set_up e)
unfolding set_up
set_up-Sound e = exit_unless-Sound e e.limit_raised _ _ λ _.
    exit_unless-Sound e e.clientes_opened _ _
      λ _. exit_unless-Sound e e.productores_opened _ _ λ _. read_port-Sound e e.arguments _
