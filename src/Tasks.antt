-- ===== src/Tasks.antt =====
-- src/ocrd/task_sequence.py: tasks of a workflow, and validate_tasks with
-- WorkspaceValidator.check_file_grp of src/ocrd_validators/workspace_validator.py.
pub mod Groups
pub mod Shell
pub mod Parse
pub mod Lines
pub mod RoundTrip
pub mod Run
use ocr_d_core.Common.{
  Bool, true, false, Option, none, some, List, [], ◌∷◌, ◌++◌, if◌then◌else◌, is_nonempty, contains,
  Text, codes, list_eq, nat_eq, ◌==◌,
}
use ocr_d_core.Common.Json.{Json, Members}
use ocr_d_core.Common.Exec.{Result, ok, err, Exception, failure, index_error}

-- class ProcessorTask of src/ocrd/task_sequence.py
pub record ProcessorTask : Type 0 where
  pub executable : Text
  pub input_file_grps : List Text
  pub output_file_grps : List Text
  pub parameters : Json

-- What the METS file of the workspace holds: its file groups, and whether a group has a file for a
-- page.
pub record Mets : Type 0 where
  pub file_groups : List Text
  pub has_file : Text → Text → Bool

-- The installed processors, and the validator of their parameters.
pub record Tools : Type 0 where
  pub which : Text → Bool
  pub ocrd_tool_json : Text → Json
  pub parameters_are_valid : Json → Json → Bool

-- The errors of a ValidationReport.
pub data GroupError : Type 0 where
  not_in_mets already_in_mets not_produced : Text → GroupError
  has_output : Text → Text → GroupError

-- `grp not in workspace.mets.file_groups`, for the input file groups
unfoldable pub missing_inputs : (Text → GroupError) → List Text → List Text → List GroupError
missing_inputs error known [] = []
missing_inputs error known (grp ∷ input_file_grp) =
    let rest = missing_inputs error known input_file_grp in
    if contains grp known then rest else error grp ∷ rest

-- The loop over the pages.
unfoldable pub page_outputs : Mets → Text → List Text → List GroupError
page_outputs mets grp [] = []
page_outputs mets grp (one_page_id ∷ page_id) =
    let rest = page_outputs mets grp page_id in
    if mets.has_file grp one_page_id then has_output grp one_page_id ∷ rest else rest

unfoldable pub existing_outputs : Mets → List Text → List Text → List GroupError
existing_outputs mets page_id [] = []
existing_outputs mets page_id (grp ∷ output_file_grp) =
    let rest = existing_outputs mets page_id output_file_grp in
    if contains grp mets.file_groups
    then (if is_nonempty page_id
        then page_outputs mets grp page_id ++ rest
        else already_in_mets grp ∷ rest)
    else rest

-- `check_file_grp`: the errors that are added to the report.
unfoldable pub check_file_grp : Mets → List Text → List Text → List Text → List GroupError
check_file_grp mets input_file_grp output_file_grp page_id =
    missing_inputs not_in_mets mets.file_groups input_file_grp
    ++ existing_outputs mets page_id output_file_grp

unfoldable pub has_member : Text → Members → Bool
has_member name Members.end = false
has_member name (Members.member key value members) =
    let rest = has_member name members in if key == name then true else rest

-- `'output_file_grp' in self.ocrd_tool_json`
abbrev pub requires_output : Json → Bool
requires_output (Json.obj members) = has_member (codes "output_file_grp") members
requires_output _ = false

-- `ProcessorTask.validate`; `none` is success.
unfoldable pub validate : Tools → ProcessorTask → Option Exception
validate tools task =
    if tools.which task.executable
    then (if is_nonempty task.input_file_grps
        then (if tools.parameters_are_valid (tools.ocrd_tool_json task.executable) task.parameters
            then (if requires_output (tools.ocrd_tool_json task.executable)
                then (if is_nonempty task.output_file_grps then none else some failure)
                else none)
            else some failure)
        else some failure)
    else some failure

-- The loop over the tasks after the first one.
unfoldable pub validate_rest :
    Tools → Mets → List Text → Bool → List Text → List ProcessorTask → Result (List GroupError)
validate_rest tools mets page_id overwrite prev_output_file_grps [] = ok []
validate_rest tools mets page_id overwrite prev_output_file_grps (task ∷ tasks) =
    let rest =
      validate_rest tools mets page_id overwrite (prev_output_file_grps ++ task.output_file_grps)
        tasks in
    elim (validate tools task) [
      | some e ↦ err e
      | none ↦ elim rest [
        | err e ↦ err e
        | ok errors ↦ ok (
            missing_inputs not_produced prev_output_file_grps task.input_file_grps
            ++ ((if overwrite then [] else check_file_grp mets [] task.output_file_grps page_id)
                ++ errors))
      ]
    ]

-- An invalid report raises an Exception.
abbrev pub if_valid : Result (List GroupError) → Result Unit
if_valid (err e) = err e
if_valid (ok []) = ok tt
if_valid (ok (error ∷ errors)) = err failure

abbrev pub and_errors : List GroupError → Result (List GroupError) → Result (List GroupError)
and_errors before (err e) = err e
and_errors before (ok errors) = ok (before ++ errors)

-- `validate_tasks`
unfoldable pub validate_tasks : Tools → Mets → List ProcessorTask → List Text → Bool → Result Unit
validate_tasks tools mets [] page_id overwrite = err index_error
validate_tasks tools mets (first_task ∷ tasks) page_id overwrite =
    elim (validate tools first_task) [
      | some e ↦ err e
      | none ↦ if_valid (
          and_errors
            (check_file_grp mets first_task.input_file_grps
              (if overwrite then [] else first_task.output_file_grps) page_id)
            (validate_rest tools mets page_id overwrite
              (mets.file_groups ++ first_task.output_file_grps) tasks))
    ]
