-- ===== src/Tasks/RoundTrip.antt =====
-- A task that is printed and parsed: ProcessorTask.__str__ and ProcessorTask.parse of
-- src/ocrd/task_sequence.py.
use ocr_d_core.Common.{
  ◌≡◌, refl, ap, sym, ◌∙◌, true, some, List, [], ◌∷◌, ◌++◌, Text, codes, list_eq, nat_eq,
  if◌then◌else◌, split_once, starts_with, join,
}
use ocr_d_core.Common.Json.{Json, Members}
use ocr_d_core.Common.Exec.{ok, err, value_error, index_error}
use ocr_d_core.Utils.Params.{Reader}
use ocr_d_core.Utils.Params.Printed.{IsPrinted, parse_json_string_or_file-dumped, merge_members-end}
use ocr_d_core.Tasks.{ProcessorTask}
use ocr_d_core.Tasks.Shell.{at_rest, split_from, before_words}
use ocr_d_core.Tasks.Shell.Words.{IsWord, all_plain, split_from-quoted}
use ocr_d_core.Tasks.Parse.{has_parameters, parse_tokens, as_task, parse, to_str}
use ocr_d_core.Tasks.Lines.{
  AreGroups, task_of, join-IsWord, split_from-next, split_from-last, shlex_split-before,
  parse_tokens-parameter, with_groups, parse-before, parse_tokens-groups,
}

-- Parsing gives the task that was printed: of a name and file groups that are words, at least one
-- of each kind, without commas in a group, and of parameters that are empty or printed in one line
-- without a single quote, are no file name and are read back by json.
pub parse-to_str :
    (r : Reader) (name : Text) (ins outs : List Text) (members : Members)
    → IsWord name
    → AreGroups ins
    → AreGroups outs
    → (has_parameters (Json.obj members) ≡ true → IsPrinted r members)
    → parse r (to_str r (task_of name ins outs members)) ≡ ok (task_of name ins outs members)
unfolding to_str parse_tokens all_plain split_once starts_with
parse-to_str r name ins outs Members.end w i o p =
    parse-before r name ins (to_str r (task_of name ins outs Members.end)) (join b',' outs ∷ []) i (
      shlex_split-before name ins w i (join b',' outs ++ []) (join b',' outs ∷ [])
        (split_from-last (join b',' outs) (join-IsWord outs o)))
    ∙ ap (as_task name) (parse_tokens-groups r ins outs [] o)
parse-to_str r name ins outs (Members.member k v rest) w i o p =
    let members = Members.member k v rest in
    let printed = p refl in
    let text = r.json_dumps (Json.obj members) in
    let words =
      split_from-next (join b',' outs) (codes "-p '" ++ (text ++ codes "'"))
        (codes "-p" ∷ text ∷ []) (join-IsWord outs o)
        (split_from-next (codes "-p") (b'\'' ∷ text ++ b'\'' ∷ []) (text ∷ []) (refl, refl)
          (split_from-quoted text printed.quote_free)) in
    parse-before r name ins (to_str r (task_of name ins outs members))
      (join b',' outs ∷ codes "-p" ∷ text ∷ []) i
      (shlex_split-before name ins w i (join b',' outs ++ (codes " -p '" ++ (text ++ codes "'")))
        (join b',' outs ∷ codes "-p" ∷ text ∷ []) words)
    ∙ ap (as_task name) (
        parse_tokens-groups r ins outs (codes "-p" ∷ text ∷ []) o
        ∙ parse_tokens-parameter r (with_groups ins outs Members.end) text members
            (parse_json_string_or_file-dumped r members printed)
        ∙ ap (λ m. ok (with_groups ins outs m)) (merge_members-end members printed.distinct))

-- A task of such a name, file groups and parameters.
pub record IsWritable (r : Reader) (task : ProcessorTask) : Type 0 where
  pub name : Text
  pub members : Members
  pub is_task : task ≡ task_of name task.input_file_grps task.output_file_grps members
  pub name_word : IsWord name
  pub inputs : AreGroups task.input_file_grps
  pub outputs : AreGroups task.output_file_grps
  pub printed : has_parameters (Json.obj members) ≡ true → IsPrinted r members

pub parse-to_str_task :
    (r : Reader) (task : ProcessorTask) → IsWritable r task → parse r (to_str r task) ≡ ok task
parse-to_str_task r task w =
    ap (λ t. parse r (to_str r t)) w.is_task
    ∙ parse-to_str r w.name task.input_file_grps task.output_file_grps w.members w.name_word
        w.inputs w.outputs w.printed
    ∙ ap ok (sym w.is_task)

-- A task without output file groups is printed as a text that cannot be parsed: it ends in
-- IndexError, or in ValueError if there are parameters.
pub to_str-no_outputs :
    (r : Reader) (name : Text) (ins : List Text) (members : Members)
    → IsWord name
    → AreGroups ins
    → (has_parameters (Json.obj members) ≡ true → IsPrinted r members)
    → parse r (to_str r (task_of name ins [] members))
      ≡ err (if has_parameters (Json.obj members) then value_error else index_error)
unfolding to_str parse_tokens split_from all_plain split_once starts_with join
to_str-no_outputs r name ins Members.end w i p =
    parse-before r name ins (to_str r (task_of name ins [] Members.end)) [] i
      (shlex_split-before name ins w i [] [] refl)
to_str-no_outputs r name ins (Members.member k v rest) w i p =
    let members = Members.member k v rest in
    let printed = p refl in
    let text = r.json_dumps (Json.obj members) in
    let words : split_from at_rest (codes " -p '" ++ (text ++ codes "'"))
        ≡ some (codes "-p" ∷ text ∷ []) =
      ap (before_words []) (
        split_from-next (codes "-p") (b'\'' ∷ text ++ b'\'' ∷ []) (text ∷ []) (refl, refl)
          (split_from-quoted text printed.quote_free)) in
    parse-before r name ins (to_str r (task_of name ins [] members)) (codes "-p" ∷ text ∷ []) i (
      shlex_split-before name ins w i (codes " -p '" ++ (text ++ codes "'"))
        (codes "-p" ∷ text ∷ []) words)
    ∙ ap
        (λ t.
          as_task name
            (parse_tokens r (with_groups ins [] Members.end) (codes "-O" ∷ codes "-p" ∷ t ∷ [])))
        printed.dumped
