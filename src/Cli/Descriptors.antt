-- ===== src/Cli/Descriptors.antt =====
-- The descriptors that the CLI opens and does not close.
use mathlib.Core.Option.{some-injective}
use soii_ipc.Base.{
  ◌⊎◌, ℕ, ◌+◌, ◌≡◌, refl, sym, ap, ◌∙◌, List, [], ◌∷◌, ◌++◌, none, some, arith, inl, inr,
  Option-cases, ℤ, pos, negsuc,
}
use soii_ipc.Server.Commands.{Command}
use soii_ipc.Cli.{
  Parsed, refused, accepted, undefined, parse_command, Action, make_fifo, complain, open_fifo,
  close, sleep, write, Line, treat, treat_all, main,
}

-- The descriptors that a result of `open` is: none for -1, and else one.
abbrev pub descriptor : ℤ → ℕ
descriptor (pos fd) = 1
descriptor (negsuc n) = 0

-- How many descriptors of the FIFO were opened, and how many were closed: a failed `open` gives none,
-- and a `close` of its -1 closes none.
abbrev pub opens : List Action → ℕ
opens [] = 0
opens (open_fifo fd ∷ as_) = descriptor fd + opens as_
opens (_ ∷ as_) = opens as_

abbrev pub closes : List Action → ℕ
closes [] = 0
closes (close fd ∷ as_) = descriptor fd + closes as_
closes (_ ∷ as_) = closes as_

-- The lines that the CLI refuses, among those for which it has opened the FIFO.
abbrev pub refusal : ℤ → Parsed → ℕ
refusal fd refused = descriptor fd
refusal fd (_) = 0

abbrev pub refusals : List Line → ℕ
refusals [] = 0
refusals (l ∷ ls) = refusal l.fd (parse_command l.buf l.command) + refusals ls

opens-append : (xs ys : List Action) → opens (xs ++ ys) ≡ opens xs + opens ys
opens-append [] ys = omega arith
opens-append (open_fifo fd ∷ xs) ys = omega (arith, opens-append xs ys)
opens-append (_ ∷ xs) ys = opens-append xs ys

closes-append : (xs ys : List Action) → closes (xs ++ ys) ≡ closes xs + closes ys
closes-append [] ys = omega arith
closes-append (close fd ∷ xs) ys = omega (arith, closes-append xs ys)
closes-append (_ ∷ xs) ys = closes-append xs ys

Parsed-cases : (p : Parsed) → (p ≡ refused) ⊎ ((c : Command) × (p ≡ accepted c)) ⊎ (p ≡ undefined)
Parsed-cases refused = inl refl
Parsed-cases (accepted c) = inr (inl (c, refl))
Parsed-cases undefined = inr (inr refl)

-- The balance after one line.
treat-balance :
    (l : Line) (before after : List Action)
    → treat l before ≡ some after
    → opens after + closes before
      ≡ opens before + closes after + refusal l.fd (parse_command l.buf l.command)
unfolding treat
treat-balance l before after e = elim (Parsed-cases (parse_command l.buf l.command)) [
  | inl no_command ↦
      let end : List Action = complain ∷ sleep 1 ∷ [] in
      let out : List Action = (before ++ open_fifo l.fd ∷ []) ++ end in
      let gave : treat l before ≡ some out = rw (no_command, treat) in
      rw no_command (
        rw (← some-injective out after (sym gave ∙ e)) (
          omega (
            arith,
            opens-append (before ++ open_fifo l.fd ∷ []) end,
            opens-append before (open_fifo l.fd ∷ []),
            closes-append (before ++ open_fifo l.fd ∷ []) end,
            closes-append before (open_fifo l.fd ∷ []),
          )))
  | inr (inl (c, command)) ↦
      let end : List Action = write l.fd c ∷ close l.fd ∷ [] in
      let out : List Action = (before ++ open_fifo l.fd ∷ []) ++ end in
      let gave : treat l before ≡ some out = rw (command, treat) in
      rw command (
        rw (← some-injective out after (sym gave ∙ e)) (
          omega (
            arith,
            opens-append (before ++ open_fifo l.fd ∷ []) end,
            opens-append before (open_fifo l.fd ∷ []),
            closes-append (before ++ open_fifo l.fd ∷ []) end,
            closes-append before (open_fifo l.fd ∷ []),
          )))
  | inr (inr wild) ↦ let gave : treat l before ≡ none = rw (wild, treat) in cc
]

treat_all-balance :
    (ls : List Line) (before after : List Action)
    → treat_all ls before ≡ some after
    → opens after + closes before ≡ opens before + closes after + refusals ls
unfolding treat_all
treat_all-balance [] before after e =
    let same : before ≡ after = some-injective before after e in
    omega (arith, ap opens same, ap closes same)
treat_all-balance (l ∷ ls) before after e = elim (Option-cases (treat l before)) [
  | inl wild ↦ let gave : treat_all (l ∷ ls) before ≡ none = rw (wild, treat_all) in cc
  | inr (middle, treated) ↦
      let gave : treat_all (l ∷ ls) before ≡ treat_all ls middle = rw (treated, treat_all) in
      omega (
        arith,
        treat-balance l before middle treated,
        treat_all-balance ls middle after (sym gave ∙ e),
      )
]

-- After any run of the CLI in which every number that it reads fits an `int`, the descriptors that
-- stay open are as many as the lines that it refused when it could open the FIFO for them.
pub main-opens :
    (lines : List Line) (actions : List Action)
    → main lines ≡ some actions
    → opens actions ≡ closes actions + refusals lines
unfolding main
main-opens lines actions e = omega (arith, treat_all-balance lines (make_fifo ∷ []) actions e)
