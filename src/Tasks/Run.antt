-- ===== src/Tasks/Run.antt =====
-- run_tasks of src/ocrd/task_sequence.py, with run_cli of src/ocrd/processor/helpers.py.
pub mod Fed
use ocr_d_core.Common.{
  zero, Bool, true, false, ◌&&◌, Option, none, some, List, [], ◌∷◌, ◌++◌, Text, codes, list_eq,
  nat_eq, contains, if◌then◌else◌, split, join,
}
use ocr_d_core.Common.Int.{ℤ, pos, negsuc}
use ocr_d_core.Common.Exec.{Result, ok, err, Exec, failure}
use ocr_d_core.Utils.Params.{Reader}
use ocr_d_core.Tasks.{ProcessorTask, Mets, Tools, validate_tasks}
use ocr_d_core.Tasks.Parse.{parse}

-- The workspace: what subprocess.run makes of a command line, with its return code, the METS file
-- as it is read, and the directory.
pub record System (S : Type 0) : Type 0 where
  pub run : List Text → S → ℤ × S
  pub mets : S → Mets
  pub directory : Text

-- The arguments of `run_cli`; the level of the log is a text.
pub record Cli : Type 0 where
  pub executable : Text
  pub mets_url : Text
  pub page_id : Option Text
  pub overwrite : Bool
  pub log_level : Option Text
  pub input_file_grp : Option Text
  pub output_file_grp : Option Text
  pub parameter : Option Text
  pub mets_server_url : Option Text

-- `if value: args += [flag, value]`
abbrev pub option : Text → Option Text → List Text
option flag none = []
option flag (some []) = []
option flag (some (c ∷ t)) = flag ∷ (c ∷ t) ∷ []

unfoldable pub command_line : Text → Cli → List Text
command_line directory a =
    (a.executable ∷ codes "--working-dir" ∷ directory ∷ codes "--mets" ∷ a.mets_url ∷ [])
    ++ (option (codes "--log-level") a.log_level
        ++ (option (codes "--page-id") a.page_id
            ++ (option (codes "--input-file-grp") a.input_file_grp
                ++ (option (codes "--output-file-grp") a.output_file_grp
                    ++ (option (codes "--parameter") a.parameter
                        ++ ((if a.overwrite then codes "--overwrite" ∷ [] else [])
                            ++ option (codes "--mets-server-url") a.mets_server_url))))))

-- The arguments of `run_tasks` that are the same for all tasks.
pub record Settings : Type 0 where
  pub mets_url : Text
  pub log_level : Option Text
  pub page_id : Option Text
  pub overwrite : Bool

abbrev pub cli_of : Reader → Settings → ProcessorTask → Cli
cli_of r c task = record {
  executable = task.executable;
  mets_url = c.mets_url;
  page_id = c.page_id;
  overwrite = c.overwrite;
  log_level = c.log_level;
  input_file_grp = some (join b',' task.input_file_grps);
  output_file_grp = some (join b',' task.output_file_grps);
  parameter = some (r.json_dumps task.parameters);
  mets_server_url = none;
}

-- `page_id.split(',')`, as check_file_grp does
abbrev pub page_list : Option Text → List Text
page_list none = []
page_list (some []) = []
page_list (some (c ∷ t)) = split b',' (c ∷ t)

abbrev pub is_zero : ℤ → Bool
is_zero (pos zero) = true
is_zero _ = false

-- Whether all output file groups are in the METS file.
unfoldable pub all_in : List Text → List Text → Bool
all_in [] file_groups = true
all_in (output_file_grp ∷ output_file_grps) file_groups =
    contains output_file_grp file_groups && all_in output_file_grps file_groups

unfoldable pub parse_all : Reader → List Text → Result (List ProcessorTask)
parse_all r [] = ok []
parse_all r (task_str ∷ task_strs) = elim (parse r task_str) [
  | err e ↦ err e
  | ok task ↦ elim (parse_all r task_strs) [ err e ↦ err e | ok tasks ↦ ok (task ∷ tasks) ]
]

module _ {S : Type 0} where
  -- `run_cli` on a workspace, without a file for the output
  abbrev pub run_cli : System S → Cli → S → ℤ × S
  run_cli system a s = system.run (command_line system.directory a) s

  -- The loop over the tasks.
  unfoldable pub run_each : System S → Reader → Settings → List ProcessorTask → Exec S Unit
  run_each system r c [] s = (ok tt, s)
  run_each system r c (task ∷ tasks) s =
      let (returncode, after) = run_cli system (cli_of r c task) s in
      elim (is_zero returncode && all_in task.output_file_grps (system.mets after).file_groups) [
        | true ↦ run_each system r c tasks after
        | false ↦ (err failure, after)
      ]

  -- `run_tasks`
  unfoldable pub run_tasks : System S → Reader → Tools → Settings → List Text → Exec S Unit
  run_tasks system r tools c task_strs s = elim (parse_all r task_strs) [
    | err e ↦ (err e, s)
    | ok tasks ↦
        elim (validate_tasks tools (system.mets s) tasks (page_list c.page_id) c.overwrite) [
          | err e ↦ (err e, s)
          | ok _ ↦ run_each system r c tasks s
        ]
  ]
