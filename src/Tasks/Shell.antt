-- ===== src/Tasks/Shell.antt =====
-- Python's shlex.split: the words of a command line, with quotes and backslashes.
pub mod Words
use ocr_d_core.Common.{
  ℕ, Bool, true, false, ◌||◌, ◌&&◌, not, Option, none, some, List, [], ◌∷◌, ◌++◌, Text, ◌==◌,
  nat_eq, if◌then◌else◌, is_nonempty,
}

-- Between words, in a word, in quotes, or after a backslash.
pub data Mode : Type 0 where
  between word single double escaped escaped_double : Mode

-- The word that is read, and whether a part of it was quoted.
pub record Lexer : Type 0 where
  pub mode : Mode
  pub token : Text
  pub quoted : Bool

abbrev pub at_rest : Lexer
at_rest = record { mode = between; token = []; quoted = false }

abbrev pub is_blank : ℕ → Bool
is_blank c = c == b' ' || (c == 9 || (c == 10 || c == 13))

-- A word that ends: an empty one counts only if it was quoted.
abbrev pub ended : Lexer → List Text
ended s = if is_nonempty s.token || s.quoted then s.token ∷ [] else []

abbrev pub push : ℕ → Lexer → Lexer
push c s = record s { token = s.token ++ c ∷ [] }

-- A character outside quotes.
abbrev pub advance_plain : ℕ → Lexer → Lexer
advance_plain c s =
    if c == b'\\'
    then record s { mode = escaped }
    else if c == b'\''
    then record s { mode = single }
    else if c == b'"'
    then record s { mode = double }
    else push c (record s { mode = word })

-- The lexer after a character, and the words that end there.
abbrev pub advance : ℕ → Mode → Lexer → Lexer × List Text
advance c between s = if is_blank c then (s, []) else (advance_plain c s, [])
advance c word s = if is_blank c then (at_rest, ended s) else (advance_plain c s, [])
advance c single s = (
  if c == b'\''
      then record s { mode = word; quoted = true }
      else push c (record s { quoted = true }),
  [],
)
advance c double s = (
  if c == b'"'
      then record s { mode = word; quoted = true }
      else if c == b'\\'
      then record s { mode = escaped_double; quoted = true }
      else push c (record s { quoted = true }),
  [],
)
advance c escaped s = (push c (record s { mode = word }), [])
advance c escaped_double s = (
  push c (record s {
    mode = double;
    token = if not (c == b'\\') && not (c == b'"') then s.token ++ b'\\' ∷ [] else s.token;
  }),
  [],
)

-- The end of the text; `none` is ValueError.
abbrev pub at_end : Mode → Lexer → Option (List Text)
at_end between s = some []
at_end word s = some (ended s)
at_end single s = none
at_end double s = none
at_end escaped s = none
at_end escaped_double s = none

abbrev pub before_words : List Text → Option (List Text) → Option (List Text)
before_words words none = none
before_words words (some rest) = some (words ++ rest)

unfoldable pub split_from : Lexer → Text → Option (List Text)
split_from s [] = at_end s.mode s
split_from s (c ∷ t) =
    let (next, words) = advance c s.mode s in before_words words (split_from next t)

-- `shlex.split(t)`
unfoldable pub shlex_split : Text → Option (List Text)
shlex_split t = split_from at_rest t
