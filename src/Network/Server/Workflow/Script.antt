-- ===== src/Network/Server/Workflow/Script.antt =====
-- Workflow scripts: parse_workflow_tasks and validate_workflow of
-- src/ocrd_network/server_utils.py.
use ocr_d_core.Common.{
  ℕ, Bool, true, false, ◌&&◌, ◌||◌, not, List, [], ◌∷◌, ◌++◌, Text, list_eq, nat_eq, ◌==◌,
  if◌then◌else◌, is_nonempty, map, arith, refl, ◌≡◌, ap, ◌∙◌, sym, and_true,
}
use mathlib.Core.List.{append-nil, append_assoc}
use ocr_d_core.Common.Json.{Members}
use ocr_d_core.Common.Exec.{Result, ok, err, value_error, index_error, http}
use ocr_d_core.Utils.Params.{Reader, only_spaces}
use ocr_d_core.Tasks.{ProcessorTask}
use ocr_d_core.Tasks.Shell.Words.{IsWord}
use ocr_d_core.Tasks.Parse.{parse, to_str}
use ocr_d_core.Tasks.Lines.{AreGroups, task_of}
use ocr_d_core.Tasks.RoundTrip.{IsWritable, parse-to_str_task, to_str-no_outputs}

-- The characters at which str.splitlines splits.
abbrev pub is_break : ℕ → Bool
is_break c =
    c == 10
    || (c == 13
        || (c == 11
            || (c == 12
                || (c == 28 || (c == 29 || (c == 30 || (c == 133 || (c == 8232 || c == 8233))))))))

-- `t.splitlines()`: `line` has been read, and `after_return` says that a carriage return was the
-- last character, to which a line feed belongs.
unfoldable pub lines_from : Bool → Text → Text → List Text
lines_from after_return line [] = if is_nonempty line then line ∷ [] else []
lines_from after_return line (c ∷ t) =
    let rest = lines_from (c == 13) (if is_break c then [] else line ++ c ∷ []) t in
    if is_break c && not (after_return && c == 10) then line ∷ rest else rest

abbrev pub splitlines : Text → List Text
splitlines t = lines_from false [] t

-- The tasks of the lines that are not blank.
unfoldable pub line_tasks : Reader → List Text → Result (List ProcessorTask)
line_tasks r [] = ok []
line_tasks r (task_str ∷ tasks_list) =
    let rest = line_tasks r tasks_list in
    elim (only_spaces r task_str) [
      | true ↦ rest
      | false ↦ elim (parse r task_str) [
        | err e ↦ err e
        | ok task ↦ elim rest [ err e ↦ err e | ok tasks ↦ ok (task ∷ tasks) ]
      ]
    ]

-- `except ValueError`
abbrev pub unprocessable : {A : Type 0} → Result A → Result A
unprocessable (err value_error) = err (http 422)
unprocessable result = result

-- `parse_workflow_tasks`
unfoldable pub parse_workflow_tasks : Reader → Text → Result (List ProcessorTask)
parse_workflow_tasks r workflow_content = unprocessable (line_tasks r (splitlines workflow_content))

abbrev pub without_tasks : Result (List ProcessorTask) → Result Unit
without_tasks (err e) = err e
without_tasks (ok tasks) = ok tt

-- `validate_workflow`
unfoldable pub validate_workflow : Reader → Text → Result Unit
validate_workflow r workflow =
    if only_spaces r workflow
    then err (http 422)
    else without_tasks (unprocessable (line_tasks r (splitlines workflow)))

-- Text in one line.
unfoldable pub in_line : Text → Bool
in_line [] = true
in_line (c ∷ t) = not (is_break c) && in_line t

-- A script with each text on a line.
unfoldable pub unlines : List Text → Text
unlines [] = []
unlines (t ∷ ts) = t ++ 10 ∷ unlines ts

abbrev pub script : Reader → List ProcessorTask → Text
script r tasks = unlines (map (to_str r) tasks)

-- A task that can be read back and is printed in one line, which is not blank.
abbrev pub IsLine : Reader → ProcessorTask → Type 0
IsLine r task =
    (in_line (to_str r task) ≡ true) × (only_spaces r (to_str r task) ≡ false) × IsWritable r task

abbrev pub AreLines : Reader → List ProcessorTask → Type 0
AreLines r [] = Unit
AreLines r (task ∷ tasks) = IsLine r task × AreLines r tasks

lines_from-inside :
    (line rest : Text) (c : ℕ)
    → not (is_break c) ≡ true
    → lines_from false line (c ∷ rest) ≡ lines_from false (line ++ c ∷ []) rest
unfolding lines_from
lines_from-inside line rest c h = ground arith

lines_from-line :
    (line t rest : Text)
    → in_line t ≡ true
    → lines_from false line (t ++ 10 ∷ rest) ≡ (line ++ t) ∷ splitlines rest
unfolding lines_from in_line
lines_from-line line [] rest h = ap (λ (u : Text). u ∷ splitlines rest) (sym (append-nil line))
lines_from-line line (c ∷ t) rest h =
    let (inside, others) = and_true (not (is_break c)) (in_line t) h in
    lines_from-inside line (t ++ 10 ∷ rest) c inside
    ∙ lines_from-line (line ++ c ∷ []) t rest others
    ∙ ap (λ (u : Text). u ∷ splitlines rest) (append_assoc line (c ∷ []) t)

only_spaces-append :
    (r : Reader) (t u : Text) → only_spaces r t ≡ false → only_spaces r (t ++ u) ≡ false
unfolding only_spaces
only_spaces-append r [] u h = cc
only_spaces-append r (c ∷ t) u h = ground (arith, only_spaces-append r t u)

line_tasks-script :
    (r : Reader) (tasks : List ProcessorTask)
    → AreLines r tasks
    → line_tasks r (splitlines (script r tasks)) ≡ ok tasks
unfolding lines_from line_tasks unlines
line_tasks-script r [] a = refl
line_tasks-script r (task ∷ tasks) ((inside, words, written), a) =
    ap (line_tasks r) (lines_from-line [] (to_str r task) (script r tasks) inside)
    ∙ rw (words, parse-to_str_task r task written, line_tasks-script r tasks a, line_tasks) refl

line_tasks-raises :
    (r : Reader) (text : Text) (tasks_list : List Text)
    → only_spaces r text ≡ false
    → parse r text ≡ err index_error
    → line_tasks r (text ∷ tasks_list) ≡ err index_error
unfolding line_tasks
line_tasks-raises r text tasks_list words raised = rw (words, raised, line_tasks) refl

-- A script with one line for each task, as the task is printed, is accepted and read as these
-- tasks, if there is one, and if each line is not blank and has no line break in it, and each task
-- has a name and file groups that are words, at least one of each kind, without commas in a group,
-- and parameters that are empty or printed in one line without a single quote, are no file name
-- and are read back by json.
pub parse_workflow_tasks-script :
    (r : Reader) (task : ProcessorTask) (tasks : List ProcessorTask)
    → AreLines r (task ∷ tasks)
    → (parse_workflow_tasks r (script r (task ∷ tasks)) ≡ ok (task ∷ tasks))
      × (validate_workflow r (script r (task ∷ tasks)) ≡ ok tt)
unfolding parse_workflow_tasks validate_workflow unlines
parse_workflow_tasks-script r task tasks a =
    let read = line_tasks-script r (task ∷ tasks) a in
    let words = only_spaces-append r (to_str r task) (10 ∷ script r tasks) a.0.1 in
    (ap unprocessable read, rw words (ap (λ result. without_tasks (unprocessable result)) read))

-- A script whose first line is a printed task without output file groups and parameters, with a
-- name that is a word and at least one input file group, all of them words without commas, is not
-- refused with the status 422, if that line is not blank and has no line break in it: reading the
-- script and validating it raise IndexError.
pub parse_workflow_tasks-no_outputs :
    (r : Reader) (name : Text) (ins : List Text) (rest : Text)
    → IsWord name
    → AreGroups ins
    → in_line (to_str r (task_of name ins [] Members.end)) ≡ true
    → only_spaces r (to_str r (task_of name ins [] Members.end)) ≡ false
    → (parse_workflow_tasks r (to_str r (task_of name ins [] Members.end) ++ 10 ∷ rest)
        ≡ err index_error)
      × (validate_workflow r (to_str r (task_of name ins [] Members.end) ++ 10 ∷ rest)
          ≡ err index_error)
unfolding parse_workflow_tasks validate_workflow
parse_workflow_tasks-no_outputs r name ins rest w i inside words =
    let text = to_str r (task_of name ins [] Members.end) in
    let raised = to_str-no_outputs r name ins Members.end w i (λ h. absurd (ground arith)) in
    let read : line_tasks r (splitlines (text ++ 10 ∷ rest)) ≡ err index_error =
      ap (line_tasks r) (lines_from-line [] text rest inside)
      ∙ line_tasks-raises r text (splitlines rest) words raised in
    (
      ap unprocessable read,
      rw (only_spaces-append r text (10 ∷ rest) words)
          (ap (λ result. without_tasks (unprocessable result)) read),
    )
