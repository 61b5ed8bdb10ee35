-- ===== src/Worker/Shell/Words.antt =====
-- How a POSIX shell reads a command line that is made of quoted words: the words that a command
-- line stands for are the arguments that it was built from.
use code_delta.Prelude.{
  ℕ, ◌≡◌, refl, sym, ap, ◌∙◌, inl, inr, Bool, ◌||◌, Option, none, some, List, [], ◌∷◌, ◌++◌,
  append_assoc, append-nil, ◌==◌, if◌then◌else◌, ==_iff, Bool-cases,
}
use code_delta.Text.{Text, txt, join, replace_unit}
use code_delta.Worker.Shell.{shell_quote, command_line}

data Mode : Type 0 where
  between bare single double : Mode

-- Characters that keep a meaning between double quotes.
abbrev special : ℕ → Bool
special c = c == b'$' || c == b'`' || c == b'\x5c'

abbrev cons_word : Text → Option (List Text) → Option (List Text)
cons_word word none = none
cons_word word (some words) = some (word ∷ words)

-- The reader refuses a line in which a character stands outside the quotes, other than the blank
-- between words: such a character might mean something to the shell. `word` is read so far.
lex : Mode → Text → Text → Option (List Text)
lex between word [] = some []
lex bare word [] = some (word ∷ [])
lex single word [] = none
lex double word [] = none
lex between word (c ∷ s) =
    let next = lex between [] s in
    let open_single = lex single [] s in
    let open_double = lex double [] s in
    if c == b' '
    then next
    else if c == b'\x27'
    then open_single
    else if c == b'"'
    then open_double
    else none
lex bare word (c ∷ s) =
    let next = lex between [] s in
    let open_single = lex single word s in
    let open_double = lex double word s in
    if c == b' '
    then cons_word word next
    else if c == b'\x27'
    then open_single
    else if c == b'"'
    then open_double
    else none
lex single word (c ∷ s) =
    let close = lex bare word s in
    let more = lex single (word ++ c ∷ []) s in if c == b'\x27' then close else more
lex double word (c ∷ s) =
    let close = lex bare word s in
    let more = lex double (word ++ c ∷ []) s in
    if c == b'"' then close else if special c then none else more

-- The words of a command line.
pub shell_words : Text → Option (List Text)
unfolding lex
shell_words line = lex between [] line

lex-replace_unit :
    (word a rest : Text)
    → lex single word (replace_unit b'\x27' (txt "'\"'\"'") a ++ rest) ≡ lex single (word ++ a) rest
unfolding lex replace_unit
lex-replace_unit word [] rest = rw (append-nil word)
lex-replace_unit word (c ∷ a) rest = elim (Bool-cases (c == b'\x27')) [
  | inl h ↦
      rw (h, (==_iff c b'\x27').0 h)
        (lex-replace_unit (word ++ b'\x27' ∷ []) a rest
          ∙ ap (λ (w : Text). lex single w rest) (append_assoc word (b'\x27' ∷ []) a))
  | inr h ↦
      rw (h, h)
        (lex-replace_unit (word ++ c ∷ []) a rest
          ∙ ap (λ (w : Text). lex single w rest) (append_assoc word (c ∷ []) a))
]

-- A quoted argument is read as one word with the argument's text.
lex-shell_quote : (a rest : Text) → lex between [] (shell_quote a ++ rest) ≡ lex bare a rest
unfolding shell_quote lex
lex-shell_quote a rest =
    ap (λ (t : Text). lex single [] t)
      (append_assoc (replace_unit b'\x27' (txt "'\"'\"'") a) (txt "'") rest)
    ∙ lex-replace_unit [] a (txt "'" ++ rest)

-- The words that the shell reads in the command line are the arguments, whatever text they hold.
pub shell_words-command_line : (argv : List Text) → shell_words (command_line argv) ≡ some argv
unfolding shell_words command_line join lex
shell_words-command_line [] = refl
shell_words-command_line (a ∷ []) =
    ap (λ (t : Text). lex between [] t) (sym (append-nil (shell_quote a))) ∙ lex-shell_quote a []
shell_words-command_line (a ∷ b ∷ argv) =
    lex-shell_quote a (txt " " ++ command_line (b ∷ argv))
    ∙ ap (cons_word a) (shell_words-command_line (b ∷ argv))
