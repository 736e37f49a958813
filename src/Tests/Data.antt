-- ===== src/Tests/Data.antt =====
-- Requests, a database and services, for the tests.
use ocr_d_core.Common.{Bool, true, Option, none, some, List, [], ◌∷◌, Text, codes}
use ocr_d_core.Common.Json.{Json, Members}
use ocr_d_core.Common.Int.{pos}
use ocr_d_core.Common.Exec.{ok}
use ocr_d_core.Network.Jobs.{processing_worker, JobInput, JobState, PageId, literal}
use ocr_d_core.Network.Database.{ProcessorJob, Database}
use ocr_d_core.Network.Requests.{RequestCache}
use ocr_d_core.Network.Server.{Workspace, Server, Services}
use ocr_d_core.Network.Server.Submit.{Ids}

abbrev pub path : Text
path = codes "m"

abbrev pub group_a : Text
group_a = codes "A"

abbrev pub group_b : Text
group_b = codes "B"

abbrev pub page_1 : PageId
page_1 = literal (codes "1")

abbrev pub page_2 : PageId
page_2 = literal (codes "2")

abbrev pub empty_object : Json
empty_object = Json.obj Members.end

abbrev pub tool : Json
tool = Json.obj (Members.member (codes "x") Json.null Members.end)

-- A request for the pages `pages` of the file group `group`, which depends on `ids`.
abbrev pub request : Text → Option Text → Option (List Text) → Option Text → JobInput
request group job_id ids pages = record {
  processor_name = some (codes "ocrd-dummy");
  path_to_mets = some path;
  workspace_id = none;
  description = none;
  input_file_grps = codes "I" ∷ [];
  output_file_grps = some (group ∷ []);
  page_id = pages;
  parameters = empty_object;
  result_queue_name = none;
  callback_url = none;
  agent_type = processing_worker;
  job_id = job_id;
  depends_on = ids;
}

abbrev pub job : JobInput → JobState → ProcessorJob
job input state = record { input = input; internal_callback_url = codes "c"; state = state }

abbrev pub id_1 : Text
id_1 = codes "j1"

abbrev pub id_2 : Text
id_2 = codes "j2"

abbrev pub id_3 : Text
id_3 = codes "j3"

-- The second request depends on the first one, the third on the second.
abbrev pub request_1 : JobInput
request_1 = request group_a (some id_1) (some []) (some (codes "1"))

abbrev pub request_2 : JobInput
request_2 = request group_b (some id_2) (some (id_1 ∷ [])) (some (codes "1"))

abbrev pub request_3 : JobInput
request_3 = request group_a (some id_3) (some (id_2 ∷ [])) (some (codes "2"))

abbrev pub unlisted : JobInput
unlisted = request group_b (some id_2) none none

abbrev pub database : JobState → Database
database state =
    (id_1, job request_1 state)
    ∷ (id_2, job request_2 JobState.cached)
    ∷ (id_3, job request_3 JobState.cached)
    ∷ []

abbrev pub cache_of : List JobInput → RequestCache
cache_of queue = record {
  processing_requests = (path, queue) ∷ [];
  processing_counter = (path, pos 1) ∷ [];
}

abbrev pub no_requests : RequestCache
no_requests = record { processing_requests = []; processing_counter = [] }

abbrev pub workspace : Workspace
workspace = record { workspace_id = codes "w"; workspace_mets_path = path; mets_server_url = none }

abbrev pub server : RequestCache → JobState → Server
server cache state = record {
  locked_pages = (path, (group_a, page_1 ∷ []) ∷ []) ∷ [];
  cache = cache;
  db = database state;
  workspaces = workspace ∷ [];
  pushed = [];
  events = [];
}

-- Services that accept everything; RabbitMQ is connected or not.
abbrev pub services : Bool → Services
services connected = record {
  resolve_processor_server_url = λ name. [];
  check_if_queue_exists = λ name. true;
  ocrd_all_tool_json = λ name. some tool;
  get_info = λ url. none;
  parameters_are_valid = λ ocrd_tool parameters. some true;
  path_exists = λ mets_path. true;
  mets_server_url_of = λ mets_path. codes "u";
  is_connected_to_rabbitmq = connected;
  publish_to_queue = λ db_job. true;
  post_run = λ url job_input. ok (202, empty_object);
  internal_job_callback_url = codes "c";
}

abbrev pub ids : Ids
ids = record { job_id = codes "j4"; workspace_id = codes "w4" }
