-- ===== src/Network/Server/Workflow.antt =====
-- Workflows: task_sequence_to_processing_jobs, validate_tasks_agents_existence and the status of a
-- workflow, of src/ocrd_network/processing_server.py.
pub mod Status
pub mod Script
pub mod Dependencies
use ocr_d_core.Common.{
  ℕ, suc, Bool, true, false, Option, none, some, List, [], ◌∷◌, ◌++◌, Text, list_eq, nat_eq,
  if◌then◌else◌, is_nonempty, nat_beq,
}
use ocr_d_core.Common.Dict.{Dict, get, put}
use ocr_d_core.Common.Exec.{Result, ok, err, Exec, Exception, attribute_error, http}
use ocr_d_core.Network.Jobs.{AgentType, JobInput, JobState}
use ocr_d_core.Network.Database.{ProcessorJob}
use ocr_d_core.Network.Server.{Server, Services, Output, job_output, answer}
use ocr_d_core.Tasks.{ProcessorTask}
use ocr_d_core.Network.Server.Checks.{validate_agent_type_and_existence}
use ocr_d_core.Network.Server.Submit.{Ids, validate_and_forward_job_to_network_agent}

-- `temp_file_group_cache`: the job that makes a file group.
abbrev pub GroupCache : Type 0
GroupCache = Dict Text Text

-- The first inner loop of `task_sequence_to_processing_jobs`.
unfoldable pub dependent_jobs : List Text → GroupCache → List Text
dependent_jobs [] cache = []
dependent_jobs (input_file_grp ∷ input_file_grps) cache =
    let rest = dependent_jobs input_file_grps cache in
    elim (get input_file_grp cache) [ none ↦ rest | some job_id ↦ job_id ∷ rest ]

unfoldable pub job_input_of : Text → Option Text → AgentType → GroupCache → ProcessorTask → JobInput
job_input_of mets_path page_id agent_type cache task = record {
  processor_name = some task.executable;
  path_to_mets = some mets_path;
  workspace_id = none;
  description = none;
  input_file_grps = task.input_file_grps;
  output_file_grps = some task.output_file_grps;
  page_id = page_id;
  parameters = task.parameters;
  result_queue_name = none;
  callback_url = none;
  agent_type = agent_type;
  job_id = none;
  depends_on = some (dependent_jobs task.input_file_grps cache);
}

-- The second inner loop. The output of a job has an id; the JSON body of an answer has no attribute
-- `job_id`.
unfoldable pub remember : Output → List Text → GroupCache → Result GroupCache
remember response [] cache = ok cache
remember (answer body) (file_group ∷ output_file_grps) cache = err attribute_error
remember (job_output output) (file_group ∷ output_file_grps) cache =
    remember (job_output output) output_file_grps
      (elim output.job_id [ none ↦ cache | some job_id ↦ put file_group job_id cache ])

-- The loop over the tasks. `ids n` are the ids of the task `n`.
unfoldable pub forward_tasks :
    Services
    → (ℕ → Ids)
    → Text
    → Option Text
    → AgentType
    → ℕ
    → List ProcessorTask
    → GroupCache
    → Exec Server (List Output)
forward_tasks services ids mets_path page_id agent_type n [] cache s = (ok [], s)
forward_tasks services ids mets_path page_id agent_type n (task ∷ tasks) cache s =
    let (result, after) =
      validate_and_forward_job_to_network_agent services (ids n) task.executable
        (job_input_of mets_path page_id agent_type cache task) s in
    elim result [
      | err e ↦ (err e, after)
      | ok response ↦ elim (remember response task.output_file_grps cache) [
        | err e ↦ (err e, after)
        | ok known ↦
            let (responses, last) =
              forward_tasks services ids mets_path page_id agent_type (suc n) tasks known after in
            elim responses [ err e ↦ (err e, last) | ok rest ↦ (ok (response ∷ rest), last) ]
      ]
    ]

-- `task_sequence_to_processing_jobs`
unfoldable pub task_sequence_to_processing_jobs :
    Services
    → (ℕ → Ids)
    → List ProcessorTask
    → Text
    → Option Text
    → AgentType
    → Exec Server (List Output)
task_sequence_to_processing_jobs services ids tasks mets_path page_id agent_type =
    forward_tasks services ids mets_path page_id agent_type 0 tasks []

-- The tasks whose agents are missing. Only a HTTPException can be raised.
unfoldable pub missing_agents : Services → List ProcessorTask → AgentType → List ProcessorTask
missing_agents services [] agent_type = []
missing_agents services (task ∷ tasks) agent_type =
    let rest = missing_agents services tasks agent_type in
    elim (validate_agent_type_and_existence services task.executable agent_type) [
      | none ↦ rest
      | some e ↦ task ∷ rest
    ]

-- `validate_tasks_agents_existence`. A missing agent is noted as a set of a text and an agent type,
-- and sets go to a list: no exception but the last one is raised.
unfoldable pub validate_tasks_agents_existence :
    Services → List ProcessorTask → AgentType → Option Exception
validate_tasks_agents_existence services tasks agent_type =
    if is_nonempty (missing_agents services tasks agent_type) then some (http 406) else none
