-- ===== src/Tests/Sequences.antt =====
-- The theorems on tasks and on sequences of tasks, at concrete inputs.
use ocr_d_core.Common.{
  List, ◌≡◌, refl, ◌⊎◌, true, false, [], ◌∷◌, In, Text, codes, some, none, ◌==◌, if◌then◌else◌,
  list_eq, nat_eq, contains,
}
use ocr_d_core.Common.Json.{Json, Members}
use ocr_d_core.Common.Exec.{ok, err, value_error}
use ocr_d_core.Utils.Params.{Reader, os_error}
use ocr_d_core.Utils.Params.Printed.{IsPrinted}
use ocr_d_core.Tasks.Shell.Words.{all_plain}
use ocr_d_core.Tasks.Parse.{parse, to_str}
use ocr_d_core.Tasks.Lines.{task_of}
use ocr_d_core.Tasks.RoundTrip.{parse-to_str, to_str-no_outputs}
use ocr_d_core.Tasks.{
  ProcessorTask, Mets, Tools, validate_tasks, validate, validate_rest, check_file_grp,
  missing_inputs, existing_outputs,
}
use ocr_d_core.Tasks.Groups.{outputs_of, validate_tasks-groups}
use ocr_d_core.Tests.Data.{group_a, group_b, empty_object}
use ocr_d_core.Tasks.{has_member}

abbrev pub images : Text
images = codes "I"

abbrev pub task : Text → Text → ProcessorTask
task input output = record {
  executable = codes "ocrd-dummy";
  input_file_grps = input ∷ [];
  output_file_grps = output ∷ [];
  parameters = empty_object;
}

abbrev mets : Mets
mets = record { file_groups = images ∷ []; has_file = λ grp page. false }

abbrev pub tools : Tools
tools = record {
  which = λ executable. true;
  ocrd_tool_json = λ executable. Json.null;
  parameters_are_valid = λ tool parameters. true;
}

valid : validate_tasks tools mets (task images group_a ∷ task group_a group_b ∷ []) [] false ≡ ok tt
unfolding validate_tasks validate validate_rest check_file_grp missing_inputs existing_outputs
    contains
valid = refl

validate_tasks-groups_example :
    (In group_a (group_a ∷ [])
      → In group_a (images ∷ []) ⊎ In group_a (outputs_of (task images group_a ∷ [])))
    × (false ≡ false
        → ◌≡◌ {A = List Text} [] []
        → In group_a (group_b ∷ [])
        → ¬ In group_a (images ∷ []))
validate_tasks-groups_example =
    validate_tasks-groups tools mets [] false (task images group_a ∷ []) [] (task group_a group_b)
      group_a valid

abbrev one_parameter : Members
one_parameter = Members.member (codes "level") (Json.num (codes "1")) Members.end

abbrev printed_parameter : Text
printed_parameter = codes "{\"level\": 1}"

abbrev pub reader : Reader
reader = record {
  is_space = λ c. c == b' ';
  open_text = λ t. os_error;
  json_loads = λ t. if t == printed_parameter then some (Json.obj one_parameter) else none;
  json_dumps = λ j. printed_parameter;
}

one_parameter-IsPrinted : IsPrinted reader one_parameter
unfolding contains has_member
one_parameter-IsPrinted = record {
  body = codes "\"level\": 1";
  dumped = refl;
  quote_free = refl;
  one_line = refl;
  no_file = refl;
  loaded = refl;
  opening = refl;
  closing = refl;
  distinct = (refl, tt);
}

parse-to_str_example :
    parse reader
      (to_str reader (task_of (codes "dummy") (images ∷ []) (group_a ∷ group_b ∷ []) one_parameter))
    ≡ ok (task_of (codes "dummy") (images ∷ []) (group_a ∷ group_b ∷ []) one_parameter)
unfolding contains all_plain
parse-to_str_example =
    parse-to_str reader (codes "dummy") (images ∷ []) (group_a ∷ group_b ∷ []) one_parameter
      (refl, refl) ((refl, refl), refl) (((refl, refl), refl), ((refl, refl), refl))
      (λ h. one_parameter-IsPrinted)

to_str-no_outputs_example :
    parse reader (to_str reader (task_of (codes "dummy") (images ∷ []) [] one_parameter))
    ≡ err value_error
unfolding contains all_plain
to_str-no_outputs_example =
    to_str-no_outputs reader (codes "dummy") (images ∷ []) one_parameter (refl, refl)
      ((refl, refl), refl) (λ h. one_parameter-IsPrinted)
