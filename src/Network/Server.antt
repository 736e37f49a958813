-- ===== src/Network/Server.antt =====
-- The state of class ProcessingServer of src/ocrd_network/processing_server.py, what it asks of
-- other services, and its answers.
pub mod Workspaces
pub mod Checks
pub mod Push
pub mod Submit
pub mod Callback
pub mod Workflow
use ocr_d_core.Common.{
  ℕ, Bool, true, false, not, ◌||◌, Option, none, some, List, [], ◌∷◌, Text, nat_eq, ◌==◌,
  if◌then◌else◌, is_nonempty,
}
use ocr_d_core.Common.Json.{Json, Items, Members}
use ocr_d_core.Common.Exec.{Result}
use ocr_d_core.Network.Jobs.{JobInput, JobState}
use ocr_d_core.Network.Database.{ProcessorJob, Database}
use ocr_d_core.Network.LockedPages.{LockedPages}
use ocr_d_core.Network.Requests.{RequestCache}

-- DBWorkspace of models/workspace.py, the fields that the server reads or writes.
pub record Workspace : Type 0 where
  pub workspace_id : Text
  pub workspace_mets_path : Text
  pub mets_server_url : Option Text

-- What the server asks the deployer to start and to stop: METS servers, the one by its METS file,
-- the other by its URL.
pub data Event : Type 0 where
  started : Option Text → Event
  stopped : Option Text → Event

pub record Server : Type 0 where
  pub locked_pages : LockedPages
  pub cache : RequestCache
  pub db : Database
  pub workspaces : List Workspace
  -- The requests that a network agent has accepted, in order.
  pub pushed : List JobInput
  pub events : List Event

-- What the server asks of other services: the deployer, RabbitMQ, the processor servers, the
-- validator of parameters, the file system and the generator of ids.
pub record Services : Type 0 where
  -- The empty text when there is no such server.
  pub resolve_processor_server_url : Text → Text
  pub check_if_queue_exists : Text → Bool
  -- `ocrd_all_tool_json.get(processor_name)`
  pub ocrd_all_tool_json : Text → Option Json
  -- What the processor server at the URL answers to `info`: status code and body.
  pub get_info : Text → Option (ℕ × Json)
  -- `ParameterValidator(ocrd_tool).validate(parameters).is_valid`; `none` when that raises.
  pub parameters_are_valid : Json → Json → Option Bool
  pub path_exists : Text → Bool
  pub mets_server_url_of : Option Text → Text
  pub is_connected_to_rabbitmq : Bool
  pub publish_to_queue : ProcessorJob → Bool
  -- What the processor server at the URL answers to `run`: status code and body, or the exception
  -- of the client.
  pub post_run : Text → JobInput → Result (ℕ × Json)
  pub internal_job_callback_url : Text

-- PYJobOutput of models/job.py, without the log file.
pub record JobOutput : Type 0 where
  pub job_id : Option Text
  pub processor_name : Option Text
  pub state : JobState
  pub path_to_mets : Option Text
  pub workspace_id : Option Text
  pub input_file_grps : List Text
  pub output_file_grps : Option (List Text)
  pub page_id : Option Text

unfoldable pub to_job_output : ProcessorJob → JobOutput
to_job_output job = record {
  job_id = job.job_id;
  processor_name = job.processor_name;
  state = job.state;
  path_to_mets = job.path_to_mets;
  workspace_id = job.workspace_id;
  input_file_grps = job.input_file_grps;
  output_file_grps = job.output_file_grps;
  page_id = job.page_id;
}

-- What the server returns: the output of a job, or the JSON body of a processor server's answer.
pub data Output : Type 0 where
  job_output : JobOutput → Output
  answer : Json → Output

-- Python's truth value of an optional text.
abbrev pub is_set : Option Text → Bool
is_set none = false
is_set (some []) = false
is_set (some (c ∷ t)) = true

-- Whether a number is not zero: whether there is more than zeros before the exponent. A literal that
-- is too small for a float counts as more.
unfoldable pub is_nonzero : Text → Bool
is_nonzero [] = false
is_nonzero (c ∷ t) =
    let rest = is_nonzero t in
    if c == b'0' || (c == b'.' || c == b'-') then rest else not (c == b'e' || c == b'E')

-- Python's truth value of a JSON value, or of None.
abbrev pub is_some_json : Option Json → Bool
is_some_json none = false
is_some_json (some Json.null) = false
is_some_json (some (Json.bool b)) = b
is_some_json (some (Json.num t)) = is_nonzero t
is_some_json (some (Json.str t)) = is_nonempty t
is_some_json (some (Json.arr Items.nil)) = false
is_some_json (some (Json.arr (Items.cons x xs))) = true
is_some_json (some (Json.obj Members.end)) = false
is_some_json (some (Json.obj (Members.member k x xs))) = true

-- `path_to_mets if path_to_mets else workspace_id`. None is written as the empty text: neither of
-- them is the key of a request that was admitted.
abbrev pub workspace_key : Option Text → Option Text → Text
workspace_key path_to_mets workspace_id =
    if is_set path_to_mets
    then elim path_to_mets [ none ↦ [] | some t ↦ t ]
    else elim workspace_id [ none ↦ [] | some t ↦ t ]
