-- ===== src/Tasks/Lines.antt =====
-- Printed tasks as command lines and as tokens: ProcessorTask.__str__ and ProcessorTask.parse of
-- src/ocrd/task_sequence.py.
use ocr_d_core.Common.{
  ◌≡◌, refl, ap, ◌∙◌, ℕ, true, false, some, List, [], ◌∷◌, ◌++◌, Text, codes, list_eq, nat_eq,
  nat_beq_iff, is_nonempty, contains, arith, split_parts, split, join, and_true, true-and,
}
use ocr_d_core.Common.Json.{Json, Members}
use ocr_d_core.Common.Exec.{Result, ok, err}
use ocr_d_core.Utils.Params.{Reader, parse_json_string_or_file}
use ocr_d_core.Tasks.{ProcessorTask}
use ocr_d_core.Tasks.Shell.{at_rest, split_from, shlex_split, before_words}
use ocr_d_core.Tasks.Shell.Words.{
  IsWord, is_plain, all_plain, split_from-word, split_from-blank, split_from-end,
}
use ocr_d_core.Tasks.Parse.{
  Parsed, add_inputs, add_outputs, with_parameters, parse_tokens, no_arguments, as_task, parse,
}

-- A file group that can stand in a list: a word without a comma.
abbrev pub IsGroup : Text → Type 0
IsGroup grp = IsWord grp × (contains b',' grp ≡ false)

-- At least one file group.
abbrev pub AreGroups : List Text → Type 0
AreGroups [] = ⊥
AreGroups (grp ∷ []) = IsGroup grp
AreGroups (grp ∷ next ∷ grps) = IsGroup grp × AreGroups (next ∷ grps)

abbrev pub task_of : Text → List Text → List Text → Members → ProcessorTask
task_of name ins outs members = record {
  executable = codes "ocrd-" ++ name;
  input_file_grps = ins;
  output_file_grps = outs;
  parameters = Json.obj members;
}

module _ (c : ℕ) where
  split_parts-absent : (t : Text) → contains c t ≡ false → split_parts c t ≡ (t, [])
  unfolding split_parts contains
  split_parts-absent [] h = refl
  split_parts-absent (d ∷ t) h =
      ground (arith, nat_beq_iff c d, nat_beq_iff d c, split_parts-absent t)

  split_parts-append :
      (t rest : Text) → contains c t ≡ false → split_parts c (t ++ c ∷ rest) ≡ (t, split c rest)
  unfolding split_parts contains
  split_parts-append [] rest h = ground (arith, nat_beq_iff c c)
  split_parts-append (d ∷ t) rest h =
      ground (arith, nat_beq_iff c d, nat_beq_iff d c, split_parts-append t rest)

pub split-join : (grps : List Text) → AreGroups grps → split b',' (join b',' grps) ≡ grps
unfolding join
split-join [] g = absurd g
split-join (grp ∷ []) g = rw (split_parts-absent b',' grp g.1) refl
split-join (grp ∷ next ∷ grps) g =
    rw (split_parts-append b',' grp (join b',' (next ∷ grps)) g.0.1)
      (ap (grp ∷◌) (split-join (next ∷ grps) g.1))

all_plain-append :
    (t u : Text) → all_plain t ≡ true → all_plain u ≡ true → all_plain (t ++ u) ≡ true
unfolding all_plain
all_plain-append [] u h k = k
all_plain-append (c ∷ t) u h k =
    let (a, b) = and_true (is_plain c) (all_plain t) h in true-and a (all_plain-append t u b k)

append-nonempty : (t u : Text) → is_nonempty t ≡ true → is_nonempty (t ++ u) ≡ true
append-nonempty [] u h = cc
append-nonempty (c ∷ t) u h = refl

-- File groups with commas between them are one word.
pub join-IsWord : (grps : List Text) → AreGroups grps → IsWord (join b',' grps)
unfolding join all_plain
join-IsWord [] g = absurd g
join-IsWord (grp ∷ []) g = g.0
join-IsWord (grp ∷ next ∷ grps) g =
    let rest = b',' ∷ join b',' (next ∷ grps) in
    (
      append-nonempty grp rest g.0.0.0,
      all_plain-append grp rest g.0.0.1 (join-IsWord (next ∷ grps) g.1).1,
    )

-- A word and a blank before the rest of a command line.
pub split_from-next :
    (t rest : Text) (words : List Text)
    → IsWord t
    → split_from at_rest rest ≡ some words
    → split_from at_rest (t ++ b' ' ∷ rest) ≡ some (t ∷ words)
split_from-next t rest words w h =
    split_from-word t (b' ' ∷ rest) w ∙ split_from-blank t rest w.0 ∙ ap (before_words (t ∷ [])) h

pub split_from-last : (t : Text) → IsWord t → split_from at_rest (t ++ []) ≡ some (t ∷ [])
split_from-last t w = split_from-word t [] w ∙ split_from-end t w.0

-- The words of a task without parameters, and of one with them.
module _ (name : Text) (ins : List Text) (w : IsWord name) (i : AreGroups ins) where
  abbrev pub before_outputs : List Text → List Text
  before_outputs words = name ∷ codes "-I" ∷ join b',' ins ∷ codes "-O" ∷ words

  pub shlex_split-before :
      (rest : Text) (words : List Text)
      → split_from at_rest rest ≡ some words
      → shlex_split (name ++ (codes " -I " ++ (join b',' ins ++ (codes " -O " ++ rest))))
        ≡ some (before_outputs words)
  unfolding shlex_split all_plain
  shlex_split-before rest words h =
      split_from-next name (codes "-I " ++ (join b',' ins ++ (codes " -O " ++ rest)))
        (codes "-I" ∷ join b',' ins ∷ codes "-O" ∷ words) w
        (split_from-next (codes "-I") (join b',' ins ++ (codes " -O " ++ rest))
          (join b',' ins ∷ codes "-O" ∷ words) (refl, refl)
          (split_from-next (join b',' ins) (codes "-O " ++ rest) (codes "-O" ∷ words)
            (join-IsWord ins i) (split_from-next (codes "-O") rest words (refl, refl) h)))

module _ (r : Reader) (s : Parsed) (value : Text) where
  parse_tokens-input :
      (tokens : List Text)
      → parse_tokens r s (codes "-I" ∷ value ∷ tokens) ≡ parse_tokens r (add_inputs value s) tokens
  unfolding parse_tokens
  parse_tokens-input [] = refl
  parse_tokens-input (token ∷ tokens) = refl

  parse_tokens-output :
      (tokens : List Text)
      → parse_tokens r s (codes "-O" ∷ value ∷ tokens) ≡ parse_tokens r (add_outputs value s) tokens
  unfolding parse_tokens
  parse_tokens-output [] = refl
  parse_tokens-output (token ∷ tokens) = refl

  pub parse_tokens-parameter :
      (members : Members)
      → parse_json_string_or_file r (value ∷ []) ≡ ok members
      → parse_tokens r s (codes "-p" ∷ value ∷ []) ≡ ok (with_parameters members s)
  unfolding parse_tokens
  parse_tokens-parameter members h =
      ap (λ (p : Result Members). elim p [ err e ↦ err e | ok m ↦ ok (with_parameters m s) ]) h

abbrev pub with_groups : List Text → List Text → Members → Parsed
with_groups ins outs members = record {
  input_file_grps = ins;
  output_file_grps = outs;
  parameters = members;
}

-- What `parse` makes of the words of a printed task, up to its output file groups.
pub parse-before :
    (r : Reader) (name : Text) (ins : List Text) (argstr : Text) (tokens : List Text)
    → AreGroups ins
    → shlex_split argstr ≡ some (name ∷ codes "-I" ∷ join b',' ins ∷ codes "-O" ∷ tokens)
    → parse r argstr
      ≡ as_task name (parse_tokens r (with_groups ins [] Members.end) (codes "-O" ∷ tokens))
unfolding parse
parse-before r name ins argstr tokens i h =
    rw (h, parse)
      (ap (as_task name) (
        parse_tokens-input r no_arguments (join b',' ins) (codes "-O" ∷ tokens)
        ∙ ap (λ g. parse_tokens r (with_groups g [] Members.end) (codes "-O" ∷ tokens))
            (split-join ins i)))

pub parse_tokens-groups :
    (r : Reader) (ins outs tokens : List Text)
    → AreGroups outs
    → parse_tokens r (with_groups ins [] Members.end) (codes "-O" ∷ join b',' outs ∷ tokens)
      ≡ parse_tokens r (with_groups ins outs Members.end) tokens
parse_tokens-groups r ins outs tokens o =
    parse_tokens-output r (with_groups ins [] Members.end) (join b',' outs) tokens
    ∙ ap (λ g. parse_tokens r (with_groups ins g Members.end) tokens) (split-join outs o)
