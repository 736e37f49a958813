-- ===== src/Tasks/Parse.antt =====
-- ProcessorTask.parse and ProcessorTask.__str__ of src/ocrd/task_sequence.py.
use ocr_d_core.Common.{
  Bool, true, false, none, some, List, [], ◌∷◌, ◌++◌, Text, codes, list_eq, nat_eq, ◌==◌,
  if◌then◌else◌, split, join, split_once,
}
use ocr_d_core.Common.Json.{Json, Members}
use ocr_d_core.Common.Exec.{Result, ok, err, value_error, index_error}
use ocr_d_core.Utils.Params.{
  Reader, merge_members, parse_json_string_or_file, set_json_key_value_overrides,
}
use ocr_d_core.Tasks.{ProcessorTask}
use ocr_d_core.Tasks.Shell.{shlex_split}

-- What the loop of `parse` tells apart in `tokens[0]`.
pub data Flag : Type 0 where
  input output parameter key_value other : Flag

abbrev pub flag_of : Text → Flag
flag_of token =
    if token == codes "-I"
    then input
    else if token == codes "-O"
    then output
    else if token == codes "-p"
    then parameter
    else if token == codes "-P"
    then key_value
    else other

-- The local variables of the loop.
pub record Parsed : Type 0 where
  pub input_file_grps : List Text
  pub output_file_grps : List Text
  pub parameters : Members

abbrev pub add_inputs : Text → Parsed → Parsed
add_inputs token s = record s { input_file_grps = s.input_file_grps ++ split b',' token }

abbrev pub add_outputs : Text → Parsed → Parsed
add_outputs token s = record s { output_file_grps = s.output_file_grps ++ split b',' token }

abbrev pub with_parameters : Members → Parsed → Parsed
with_parameters members s = record s { parameters = merge_members s.parameters members }

abbrev pub override : Reader → Text → Text → Parsed → Parsed
override r k v s = record s { parameters = set_json_key_value_overrides r s.parameters k v }

-- The loop `while tokens`, by how many tokens are left.
unfoldable pub parse_tokens : Reader → Parsed → List Text → Result Parsed
parse_tokens r s [] = ok s
parse_tokens r s (token ∷ []) = elim (flag_of token) [
  | key_value ↦ err value_error
  | other ↦ err value_error
  | _ ↦ err index_error
]
parse_tokens r s (token ∷ value ∷ []) = elim (flag_of token) [
  | input ↦ ok (add_inputs value s)
  | output ↦ ok (add_outputs value s)
  | parameter ↦ elim (parse_json_string_or_file r (value ∷ [])) [
    | err e ↦ err e
    | ok members ↦ ok (with_parameters members s)
  ]
  | _ ↦ err value_error
]
parse_tokens r s (token ∷ value ∷ next ∷ tokens) = elim (flag_of token) [
  | input ↦ parse_tokens r (add_inputs value s) (next ∷ tokens)
  | output ↦ parse_tokens r (add_outputs value s) (next ∷ tokens)
  | parameter ↦ elim (parse_json_string_or_file r (value ∷ [])) [
    | err e ↦ err e
    | ok members ↦ parse_tokens r (with_parameters members s) (next ∷ tokens)
  ]
  | key_value ↦ parse_tokens r (override r value next s) tokens
  | other ↦ err value_error
]

abbrev pub no_arguments : Parsed
no_arguments = record { input_file_grps = []; output_file_grps = []; parameters = Members.end }

abbrev pub as_task : Text → Result Parsed → Result ProcessorTask
as_task name (err e) = err e
as_task name (ok s) = ok (record {
  executable = codes "ocrd-" ++ name;
  input_file_grps = s.input_file_grps;
  output_file_grps = s.output_file_grps;
  parameters = Json.obj s.parameters;
})

-- `ProcessorTask.parse`
unfoldable pub parse : Reader → Text → Result ProcessorTask
parse r argstr = elim (shlex_split argstr) [
  | none ↦ err value_error
  | some [] ↦ err index_error
  | some (name ∷ tokens) ↦ as_task name (parse_tokens r no_arguments tokens)
]

-- `executable.replace('ocrd-', '', 1)`
abbrev pub short_name : Text → Text
short_name executable = elim (split_once (codes "ocrd-") executable) [
  | none ↦ executable
  | some (before, after) ↦ before ++ after
]

-- Python's truth value of the parameters, which are a dict.
abbrev pub has_parameters : Json → Bool
has_parameters (Json.obj Members.end) = false
has_parameters _ = true

-- `ProcessorTask.__str__`
unfoldable pub to_str : Reader → ProcessorTask → Text
to_str r task =
    short_name task.executable
    ++ (codes " -I "
        ++ (join b',' task.input_file_grps
            ++ (codes " -O "
                ++ (join b',' task.output_file_grps
                    ++ (if has_parameters task.parameters
                        then codes " -p '" ++ (r.json_dumps task.parameters ++ codes "'")
                        else [])))))
