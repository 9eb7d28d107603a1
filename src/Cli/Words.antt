-- ===== src/Cli/Words.antt =====
-- `parse_command` against the words of a line.

use soii_ipc.Base.{
  ◌≢◌, append_assoc, ◌⊎◌, append-nil, ℕ, zero, suc, ◌≡◌, refl, sym, ap, ◌∙◌, true, false, inl, inr,
  List, [], ◌∷◌, ◌++◌, none, some, arith, leb, ◌==◌, if◌then◌else◌, length, Bool-cases,
}
use soii_ipc.Cli.{
  strtok, skip_spaces, until_space, read_tokens, choose, parse_command, Parsed, refused,
}
use soii_ipc.Server.Commands.{Command}

-- A finished word, if it is one, in front of others.
abbrev pub push_word : List ℕ → List (List ℕ) → List (List ℕ)
push_word [] ws = ws
push_word (c ∷ w) ws = (c ∷ w) ∷ ws

-- The words of a text, behind the beginning `w` of one.
abbrev pub words_from : List ℕ → List ℕ → List (List ℕ)
words_from w [] = push_word w []
words_from w (c ∷ s) = elim (c == b' ') [
  | true ↦ push_word w (words_from [] s)
  | false ↦ words_from (w ++ c ∷ []) s
]

-- What stands between the spaces of a text.
abbrev pub words : List ℕ → List (List ℕ)
words = words_from []

-- A word that has begun goes on to the next space.
words_from-until_space :
    (w : List ℕ) (c : ℕ) (s : List ℕ)
    → words_from (c ∷ w) s ≡ ((c ∷ w) ++ (until_space s).0) ∷ words (until_space s).1
unfolding until_space
words_from-until_space w c [] = ap (λ v. v ∷ []) (sym (append-nil (c ∷ w)))
words_from-until_space w c (d ∷ s) = elim (Bool-cases (d == b' ')) [
  | inl space ↦ rw (space, words_from) (ap (λ v. v ∷ words s) (sym (append-nil (c ∷ w))))
  | inr letter ↦
      rw (letter, words_from)
        (words_from-until_space (w ++ d ∷ []) c s
          ∙ ap (λ v. v ∷ words (until_space s).1) (append_assoc (c ∷ w) (d ∷ []) (until_space s).0))
]

strtok-space : (c : ℕ) (s : List ℕ) → (c == b' ') ≡ true → strtok (c ∷ s) ≡ strtok s
unfolding strtok skip_spaces
strtok-space c s space = rw (space, strtok)

until_space-letter :
    (c : ℕ) (s : List ℕ)
    → (c == b' ') ≡ false
    → until_space (c ∷ s) ≡ (c ∷ (until_space s).0, (until_space s).1)
unfolding until_space
until_space-letter c s letter = rw letter

strtok-letter :
    (c : ℕ) (s : List ℕ)
    → (c == b' ') ≡ false
    → strtok (c ∷ s) ≡ some (c ∷ (until_space s).0, (until_space s).1)
unfolding strtok skip_spaces
strtok-letter c s letter = rw (letter, strtok) (ap some (until_space-letter c s letter))

words-space : (c : ℕ) (s : List ℕ) → (c == b' ') ≡ true → words (c ∷ s) ≡ words s
words-space c s space = rw (space, words_from)

words-letter :
    (c : ℕ) (s : List ℕ)
    → (c == b' ') ≡ false
    → words (c ∷ s) ≡ (c ∷ (until_space s).0) ∷ words (until_space s).1
words-letter c s letter = rw (letter, words_from) (words_from-until_space [] c s)

-- `strtok` gives the first word, and what is behind it holds the others.
pub strtok-words :
    (s : List ℕ)
    → ((strtok s ≡ none) × (words s ≡ []))
      ⊎ ((t : List ℕ) × (r : List ℕ) × (strtok s ≡ some (t, r)) × (words s ≡ t ∷ words r))
strtok-words [] = inl (strtok-nil, refl)
  where
    strtok-nil : strtok [] ≡ none
    strtok-nil = unfold strtok skip_spaces in refl
strtok-words (c ∷ s) = elim (Bool-cases (c == b' ')) [
  | inl space ↦ elim (strtok-words s) [
    | inl (nothing, empty) ↦ inl (strtok-space c s space ∙ nothing, words-space c s space ∙ empty)
    | inr (t, r, found, first) ↦
        inr (t, r, strtok-space c s space ∙ found, words-space c s space ∙ first)
  ]
  | inr letter ↦ inr (_, _, strtok-letter c s letter, words-letter c s letter)
]

-- The tokens behind the first are the words of the rest, if there is place for them.
pub read_tokens-words :
    (n : ℕ) (rest : List ℕ)
    → read_tokens n rest ≡ (if leb (length (words rest)) n then some (words rest) else none)
unfolding read_tokens
read_tokens-words zero rest = elim (strtok-words rest) [
  | inl (nothing, empty) ↦ rw (nothing, empty, read_tokens)
  | inr (t, r, found, first) ↦ rw (found, first, read_tokens) (ground arith)
]
read_tokens-words (suc n) rest = elim (strtok-words rest) [
  | inl (nothing, empty) ↦ rw (nothing, empty, read_tokens) (ground arith)
  | inr (t, r, found, first) ↦
      rw (found, first, read_tokens) (rw (read_tokens-words n r) (ground arith))
]

-- What a line means, by its words.
abbrev pub meaning : List (List ℕ) → Command → Parsed
meaning [] command = refused
meaning (w ∷ ws) command = if leb (length ws) 2 then choose w ws command else refused

-- `parse_command` goes by the words of the line, however many spaces stand around and between them.
pub parse_command-meaning :
    (s : List ℕ) (command : Command) → parse_command s command ≡ meaning (words s) command
unfolding parse_command
parse_command-meaning s command = elim (strtok-words s) [
  | inl (nothing, empty) ↦ rw (nothing, empty, parse_command)
  | inr (t, r, found, first) ↦
      rw (found, first, parse_command)
        (rw (read_tokens-words 2 r) (elim (Bool-cases (leb (length (words r)) 2)) [
          | inl room ↦ rw room
          | inr crowd ↦ rw crowd
        ]))
]

-- A text without spaces.
abbrev pub NoSpace : List ℕ → Type 0
NoSpace [] = Unit {0}
NoSpace (c ∷ s) = ((c == b' ') ≡ false) × NoSpace s

-- A text without spaces goes to the end of the word that has begun.
pub words_from-append : (w t s : List ℕ) → NoSpace t → words_from w (t ++ s) ≡ words_from (w ++ t) s
words_from-append w [] s none_there = ap (λ v. words_from v s) (sym (append-nil w))
words_from-append w (c ∷ t) s (letter, letters) =
    rw (letter, words_from)
      (words_from-append (w ++ c ∷ []) t s letters
        ∙ ap (λ v. words_from v s) (append_assoc w (c ∷ []) t))

push_word-cons : (w : List ℕ) (ws : List (List ℕ)) → w ≢ [] → push_word w ws ≡ w ∷ ws
push_word-cons [] ws ne = absurd (ne refl)
push_word-cons (c ∷ w) ws ne = refl

-- The first of several words, and the only one.
pub words-front : (t s : List ℕ) → t ≢ [] → NoSpace t → words (t ++ b' ' ∷ s) ≡ t ∷ words s
words-front t s ne letters =
    words_from-append [] t (b' ' ∷ s) letters ∙ push_word-cons t (words s) ne

pub words-single : (t : List ℕ) → t ≢ [] → NoSpace t → words t ≡ t ∷ []
words-single t ne letters =
    ap words (sym (append-nil t)) ∙ words_from-append [] t [] letters ∙ push_word-cons t [] ne

pub NoSpace-append : (s t : List ℕ) → NoSpace s → NoSpace t → NoSpace (s ++ t)
NoSpace-append [] t left right = right
NoSpace-append (c ∷ s) t (here, left) right = (here, NoSpace-append s t left right)
