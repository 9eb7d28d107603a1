-- ===== src/Cli/RoundTrip.antt =====
-- Commands as they are typed are read back, and reach the server.
use soii_ipc.Base.{
  ◌≢◌, ℕ, ◌+◌, ◌-◌, ◌*◌, ◌^◌, ◌<◌, ◌≡◌, refl, sym, ap, ◌∙◌, true, false, List, [], ◌∷◌, ◌++◌, some,
  arith, ltb, ◌==◌, append-nil,
}
use soii_ipc.Base.Text.{codes}
use soii_ipc.Server.Commands.{Command, cmd_add, cmd_del, cmd_log}
use soii_ipc.Cli.{
  is_space, is_digit, skip_blanks, read_digits, signed, read_signed, atoi, choose, parse_command,
  accepted, two_numbers, same_text,
}
use soii_ipc.Cli.Words.{
  words-single, words-front, NoSpace-append, words, NoSpace, meaning, parse_command-meaning,
}

abbrev pub AreDigits : List ℕ → Type 0
AreDigits [] = Unit {0}
AreDigits (c ∷ s) = (is_digit c ≡ true) × AreDigits s

-- The number that digits spell behind `n`.
abbrev pub value : ℕ → List ℕ → ℕ
value n [] = n
value n (c ∷ s) = value (n * 10 + (c - b'0')) s

-- A numeral of an `int`: digits, at least one.
pub record IsNumeral (s : List ℕ) : Type 0 where
  pub some_digit : s ≢ []
  pub digits : AreDigits s
  pub fits : value 0 s < 2 ^ 31

-- The end of the text, or of the line.
pub data IsEnd : List ℕ → Type 0 where
  end_of_text : IsEnd []
  end_of_line : IsEnd (b'\n' ∷ [])

read_digits-value :
    (n : ℕ) (s e : List ℕ) → AreDigits s → IsEnd e → read_digits n (s ++ e) ≡ value n s
unfolding read_digits
read_digits-value n [] e ds end_of_text = refl
read_digits-value n [] e ds end_of_line = refl
read_digits-value n (c ∷ s) e (digit, ds) end =
    rw digit (read_digits-value (n * 10 + (c - b'0')) s e ds end)

atoi-digit :
    (c : ℕ) (s : List ℕ) → is_digit c ≡ true → atoi (c ∷ s) ≡ signed false (read_digits 0 (c ∷ s))
unfolding atoi skip_blanks read_signed
atoi-digit c s digit =
    let solid : is_space c ≡ false = ground arith in
    let no_minus : (c == b'-') ≡ false = ground arith in
    let no_plus : (c == b'+') ≡ false = ground arith in
    rw (solid, atoi) (rw (no_minus, no_plus, read_signed))

-- `atoi` reads a numeral that fits an `int`, up to the end of the line.
pub atoi-value : (s e : List ℕ) → IsNumeral s → IsEnd e → atoi (s ++ e) ≡ some (value 0 s)
atoi-value [] e is end = absurd (is.some_digit refl)
atoi-value (c ∷ s) e is end =
    let small : ltb (value 0 (c ∷ s)) (2 ^ 31) ≡ true = ground (arith, is.fits) in
    atoi-digit c (s ++ e) is.digits.0
    ∙ ap (signed false) (read_digits-value 0 (c ∷ s) e is.digits end)
    ∙ rw (small, signed)

digits-NoSpace : (s : List ℕ) → AreDigits s → NoSpace s
digits-NoSpace [] ds = tt
digits-NoSpace (c ∷ s) (digit, ds) = (ground arith, digits-NoSpace s ds)

append-ne-nil : (s t : List ℕ) → s ≢ [] → (s ++ t) ≢ []
append-ne-nil [] t ne = absurd (ne refl)
append-ne-nil (c ∷ s) t ne = λ e. cc

numeral_line : (s e : List ℕ) → IsNumeral s → IsEnd e → ((s ++ e) ≢ []) × NoSpace (s ++ e)
numeral_line s e is end = (
  append-ne-nil s e is.some_digit,
  NoSpace-append s e (digits-NoSpace s is.digits) (ending e end),
)
  where
    ending : (e : List ℕ) → IsEnd e → NoSpace e
    ending e end_of_text = tt
    ending e end_of_line = (refl, tt)

-- The lines that a user types.
abbrev pub line_of_two : List ℕ → List ℕ → List ℕ → List ℕ
line_of_two name ds e = name ++ b' ' ∷ (ds ++ e)

abbrev pub line_of_three : List ℕ → List ℕ → List ℕ → List ℕ → List ℕ
line_of_three name ds es e = name ++ b' ' ∷ (ds ++ b' ' ∷ (es ++ e))

module _ (ds e : List ℕ) (is : IsNumeral ds) (end : IsEnd e) where
  words-line_of_two :
      (name : List ℕ)
      → name ≢ []
      → NoSpace name
      → words (line_of_two name ds e) ≡ name ∷ (ds ++ e) ∷ []
  words-line_of_two name ne plain =
      let (ne', plain') = numeral_line ds e is end in
      words-front name (ds ++ e) ne plain ∙ ap (◌∷◌ name) (words-single (ds ++ e) ne' plain')

  words-line_of_three :
      (name fs : List ℕ)
      → IsNumeral fs
      → name ≢ []
      → NoSpace name
      → words (line_of_three name fs ds e) ≡ name ∷ fs ∷ (ds ++ e) ∷ []
  words-line_of_three name fs fs_is ne plain =
      let (ne', plain') = numeral_line ds e is end in
      words-front name _ ne plain
      ∙ ap (◌∷◌ name) (
          words-front fs (ds ++ e) fs_is.some_digit (digits-NoSpace fs fs_is.digits)
          ∙ ap (◌∷◌ fs) (words-single (ds ++ e) ne' plain'))

module _ (ds es e : List ℕ) (command : Command) (ds_is : IsNumeral ds) (es_is : IsNumeral es)
    (end : IsEnd e) where
  two_numbers-value :
      (type : ℕ)
      → two_numbers type ds (es ++ e) command
        ≡ accepted (record { type = type; socket = value 0 ds; productor = value 0 es })
  unfolding two_numbers
  two_numbers-value type =
      let first : atoi ds ≡ some (value 0 ds) =
        ap atoi (sym (append-nil ds)) ∙ atoi-value ds [] ds_is end_of_text in
      rw (first, atoi-value es e es_is end)

  -- An "add", a "delete" and a "log" with numerals that fit an `int`, with or without the end of the
  -- line, are read as the commands with these numbers; a "log" leaves the third field as it was.
  pub parse_command-line :
      (parse_command (line_of_three (codes "add") ds es e) command
        ≡ accepted (record { type = cmd_add; socket = value 0 ds; productor = value 0 es }))
      × (parse_command (line_of_three (codes "delete") ds es e) command
          ≡ accepted (record { type = cmd_del; socket = value 0 ds; productor = value 0 es }))
      × (parse_command (line_of_two (codes "log") es e) command
          ≡ accepted (record command { type = cmd_log; socket = value 0 es }))
  unfolding choose same_text
  parse_command-line =
      let read = λ (line : List ℕ) (ws : List (List ℕ)) (is : words line ≡ ws).
        parse_command-meaning line command ∙ ap (λ vs. meaning vs command) is in
      (
        read (line_of_three (codes "add") ds es e) _ (
              words-line_of_three es e es_is end (codes "add") ds ds_is (λ q. cc)
                (refl, (refl, (refl, tt))))
            ∙ two_numbers-value cmd_add,
        read (line_of_three (codes "delete") ds es e) _ (
              words-line_of_three es e es_is end (codes "delete") ds ds_is (λ q. cc)
                (refl, (refl, (refl, (refl, (refl, (refl, tt)))))))
            ∙ two_numbers-value cmd_del,
        read (line_of_two (codes "log") es e) _
              (words-line_of_two es e es_is end (codes "log") (λ q. cc) (refl, (refl, (refl, tt))))
            ∙ rw (atoi-value es e es_is end),
      )
