-- ===== src/Tests/Scripts.antt =====
-- The theorems on runs of tasks and on workflow scripts, at concrete inputs.
use ocr_d_core.Common.{
  ◌≡◌, refl, ◌⊎◌, inr, true, false, none, List, [], ◌∷◌, ◌++◌, In, Text, codes, list_eq, nat_eq,
  contains, split_once, starts_with, join, split_parts,
}
use ocr_d_core.Common.Int.{pos}
use ocr_d_core.Common.Json.{Members}
use ocr_d_core.Common.Exec.{ok, err, index_error}
use ocr_d_core.Utils.Params.{only_spaces}
use ocr_d_core.Tasks.{
  ProcessorTask, validate_tasks, validate, validate_rest, check_file_grp, missing_inputs,
  existing_outputs,
}
use ocr_d_core.Tasks.Groups.{outputs_of}
use ocr_d_core.Tasks.Shell.{shlex_split, split_from}
use ocr_d_core.Tasks.Shell.Words.{all_plain}
use ocr_d_core.Tasks.Parse.{parse, parse_tokens, to_str}
use ocr_d_core.Tasks.Lines.{task_of}
use ocr_d_core.Tasks.Run.{System, Settings, run_tasks, run_each, parse_all, all_in}
use ocr_d_core.Tasks.Run.Fed.{IsFed, run_tasks-IsFed}
use ocr_d_core.Network.Server.Workflow.Script.{
  parse_workflow_tasks, validate_workflow, script, in_line, AreLines, parse_workflow_tasks-script,
  parse_workflow_tasks-no_outputs,
}
use ocr_d_core.Tests.Data.{group_a, group_b}
use ocr_d_core.Tests.Sequences.{reader, tools, images}

-- A workspace is its file groups; each processor adds one.
abbrev system : System (List Text)
system = record {
  run = λ args s. (pos 0, group_a ∷ s);
  mets = λ s. record { file_groups = s; has_file = λ grp page. false };
  directory = codes "w";
}

abbrev settings : Settings
settings = record {
  mets_url = codes "mets.xml";
  log_level = none;
  page_id = none;
  overwrite = false;
}

abbrev task_strs : List Text
task_strs = (codes "dummy -I I -O " ++ group_a) ∷ []

ran :
    run_tasks system reader tools settings task_strs (images ∷ []) ≡ (ok tt, group_a ∷ images ∷ [])
unfolding run_tasks run_each parse_all all_in parse parse_tokens shlex_split split_from split_parts
    join validate_tasks validate validate_rest check_file_grp missing_inputs existing_outputs
    contains
ran = refl

run_tasks-IsFed_example :
    (tasks : List ProcessorTask) × (parse_all reader task_strs ≡ ok tasks)
    × IsFed system reader settings tasks (images ∷ [])
    × ((g : Text) → In g (images ∷ []) ⊎ In g (outputs_of tasks) → In g (group_a ∷ images ∷ []))
run_tasks-IsFed_example =
    run_tasks-IsFed system reader settings (λ args s g m. inr m) tools task_strs (images ∷ [])
      (group_a ∷ images ∷ []) ran

abbrev one_task : ProcessorTask
one_task = task_of (codes "dummy") (images ∷ []) (group_a ∷ group_b ∷ []) Members.end

one_task-AreLines : AreLines reader (one_task ∷ [])
unfolding in_line only_spaces to_str split_once starts_with join all_plain contains
one_task-AreLines = (
  (
    refl,
    refl,
    record {
      name = codes "dummy";
      members = Members.end;
      is_task = refl;
      name_word = (refl, refl);
      inputs = ((refl, refl), refl);
      outputs = (((refl, refl), refl), ((refl, refl), refl));
      printed = λ h. cc;
    },
  ),
  tt,
)

parse_workflow_tasks-script_example :
    (parse_workflow_tasks reader (script reader (one_task ∷ [])) ≡ ok (one_task ∷ []))
    × (validate_workflow reader (script reader (one_task ∷ [])) ≡ ok tt)
parse_workflow_tasks-script_example =
    parse_workflow_tasks-script reader one_task [] one_task-AreLines

abbrev no_outputs : Text
no_outputs = to_str reader (task_of (codes "dummy") (images ∷ []) [] Members.end)

no_outputs-in_line : in_line no_outputs ≡ true
unfolding in_line to_str split_once starts_with join
no_outputs-in_line = refl

no_outputs-words : only_spaces reader no_outputs ≡ false
unfolding only_spaces to_str split_once starts_with join
no_outputs-words = refl

parse_workflow_tasks-no_outputs_example :
    (parse_workflow_tasks reader (no_outputs ++ 10 ∷ []) ≡ err index_error)
    × (validate_workflow reader (no_outputs ++ 10 ∷ []) ≡ err index_error)
unfolding all_plain contains
parse_workflow_tasks-no_outputs_example =
    parse_workflow_tasks-no_outputs reader (codes "dummy") (images ∷ []) [] (refl, refl)
      ((refl, refl), refl) no_outputs-in_line no_outputs-words
