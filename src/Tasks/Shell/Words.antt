-- ===== src/Tasks/Shell/Words.antt =====
-- Words without blanks, quotes and backslashes, and a text in single quotes, as shlex.split reads
-- them.
use ocr_d_core.Common.{
  ◌≡◌, refl, ap, ◌∙◌, ℕ, Bool, true, false, ◌&&◌, not, Option, none, some, List, [], ◌∷◌, ◌++◌,
  Text, nat_eq, list_eq, nat_beq, nat_beq_iff, is_nonempty, contains, arith, and_true,
}
use mathlib.Core.List.{append_assoc, append-nil}
use ocr_d_core.Tasks.Shell.{
  between, word, single, Lexer, at_rest, is_blank, advance, before_words, split_from,
}

abbrev pub is_plain : ℕ → Bool
is_plain c =
    not (is_blank c) && (not (nat_beq c b'\\') && (not (nat_beq c b'\'') && not (nat_beq c b'"')))

unfoldable pub all_plain : Text → Bool
all_plain [] = true
all_plain (c ∷ t) = is_plain c && all_plain t

-- Text that is a word of a command line as it stands.
abbrev pub IsWord : Text → Type 0
IsWord t = (is_nonempty t ≡ true) × (all_plain t ≡ true)

abbrev pub in_word : Text → Bool → Lexer
in_word token quoted = record { mode = word; token = token; quoted = quoted }

abbrev pub in_quotes : Text → Bool → Lexer
in_quotes token quoted = record { mode = single; token = token; quoted = quoted }

before_words-nil : (o : Option (List Text)) → before_words [] o ≡ o
before_words-nil none = refl
before_words-nil (some words) = refl

advance_word :
    (c : ℕ) (token : Text) (quoted : Bool)
    → is_plain c ≡ true
    → advance c word (in_word token quoted) ≡ (in_word (token ++ c ∷ []) quoted, [])
advance_word c token quoted h = ground arith

advance_between :
    (c : ℕ) → is_plain c ≡ true → advance c between at_rest ≡ (in_word (c ∷ []) false, [])
advance_between c h = ground arith

-- The rest of a word.
split_from-plain :
    (t rest token : Text) (quoted : Bool)
    → all_plain t ≡ true
    → split_from (in_word token quoted) (t ++ rest) ≡ split_from (in_word (token ++ t) quoted) rest
unfolding split_from all_plain
split_from-plain [] rest token quoted h = rw (append-nil token) refl
split_from-plain (c ∷ t) rest token quoted h =
    let (plain, others) = and_true (is_plain c) (all_plain t) h in
    rw (advance_word c token quoted plain) (
      before_words-nil (split_from (in_word (token ++ c ∷ []) quoted) (t ++ rest))
      ∙ split_from-plain t rest (token ++ c ∷ []) quoted others
      ∙ ap (λ u. split_from (in_word u quoted) rest) (append_assoc token (c ∷ []) t))

-- A word from its start.
pub split_from-word :
    (t rest : Text) → IsWord t → split_from at_rest (t ++ rest) ≡ split_from (in_word t false) rest
unfolding split_from all_plain
split_from-word [] rest h = cc
split_from-word (c ∷ t) rest h =
    let (plain, others) = and_true (is_plain c) (all_plain t) h.1 in
    rw (advance_between c plain) (
      before_words-nil (split_from (in_word (c ∷ []) false) (t ++ rest))
      ∙ split_from-plain t rest (c ∷ []) false others)

-- A blank ends a word.
pub split_from-blank :
    (t rest : Text)
    → is_nonempty t ≡ true
    → split_from (in_word t false) (b' ' ∷ rest) ≡ before_words (t ∷ []) (split_from at_rest rest)
unfolding split_from
split_from-blank [] rest h = cc
split_from-blank (c ∷ t) rest h = refl

-- So does the end.
pub split_from-end :
    (t : Text) → is_nonempty t ≡ true → split_from (in_word t false) [] ≡ some (t ∷ [])
unfolding split_from
split_from-end [] h = cc
split_from-end (c ∷ t) h = refl

advance_quotes :
    (c : ℕ) (token : Text) (quoted : Bool)
    → nat_beq c b'\'' ≡ false
    → advance c single (in_quotes token quoted) ≡ (in_quotes (token ++ c ∷ []) true, [])
advance_quotes c token quoted h = ground arith

-- A text in single quotes, up to the end.
split_from-quotes :
    (t token : Text) (quoted : Bool)
    → contains b'\'' t ≡ false
    → split_from (in_quotes token quoted) (t ++ b'\'' ∷ []) ≡ some ((token ++ t) ∷ [])
unfolding split_from contains
split_from-quotes [] token quoted h = rw (append-nil token) (ground arith)
split_from-quotes (c ∷ t) token quoted h =
    let other : nat_beq c b'\'' ≡ false =
      ground (arith, nat_beq_iff c b'\'', nat_beq_iff b'\'' c) in
    ap (λ (p : Lexer × List Text). before_words p.1 (split_from p.0 (t ++ b'\'' ∷ [])))
      (advance_quotes c token quoted other)
    ∙ before_words-nil (split_from (in_quotes (token ++ c ∷ []) true) (t ++ b'\'' ∷ []))
    ∙ split_from-quotes t (token ++ c ∷ []) true (ground arith)
    ∙ ap (λ (u : Text). some (u ∷ [])) (append_assoc token (c ∷ []) t)

pub split_from-quoted :
    (t : Text)
    → contains b'\'' t ≡ false
    → split_from at_rest (b'\'' ∷ t ++ b'\'' ∷ []) ≡ some (t ∷ [])
unfolding split_from
split_from-quoted t h =
    before_words-nil (split_from (in_quotes [] false) (t ++ b'\'' ∷ []))
    ∙ split_from-quotes t [] false h
