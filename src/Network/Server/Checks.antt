-- ===== src/Network/Server/Checks.antt =====
-- What a request has to fulfil before it is accepted: the agents of
-- src/ocrd_network/processing_server.py, and validate_job_input of src/ocrd_network/server_utils.py.
-- `none` in place of an exception means that the check is passed.
use ocr_d_core.Common.{
  Bool, true, Option, none, some, Text, codes, list_eq, nat_eq, if◌then◌else◌, ◌==◌, is_nonempty,
  nat_beq,
}
use ocr_d_core.Common.Json.{Json, bool_beq}
use ocr_d_core.Common.Exec.{Result, ok, err, Exception, http, attribute_error}
use ocr_d_core.Network.Jobs.{AgentType, processing_worker, processor_server, JobInput}
use ocr_d_core.Network.Server.{Services, is_set, is_some_json}

unfoldable pub network_agent_exists_server : Services → Text → Bool
network_agent_exists_server services processor_name =
    is_nonempty (services.resolve_processor_server_url processor_name)

unfoldable pub network_agent_exists_worker : Services → Text → Bool
network_agent_exists_worker services processor_name =
    if processor_name == codes "ocrd-dummy"
    then true
    else services.check_if_queue_exists processor_name

abbrev pub agent_exists : Services → Text → AgentType → Bool
agent_exists services processor_name processor_server =
    network_agent_exists_server services processor_name
agent_exists services processor_name processing_worker =
    network_agent_exists_worker services processor_name

-- `validate_agent_type_and_existence`
unfoldable pub validate_agent_type_and_existence : Services → Text → AgentType → Option Exception
validate_agent_type_and_existence services processor_name agent_type =
    if agent_exists services processor_name agent_type then none else some (http 422)

-- `query_ocrd_tool_json_from_server`, `request_processor_server_tool_json` included
unfoldable pub query_ocrd_tool_json_from_server : Services → Text → Result Json
query_ocrd_tool_json_from_server services processor_name =
    let url = services.resolve_processor_server_url processor_name in
    if is_nonempty url
    then elim (services.get_info url) [
      | none ↦ err (http 404)
      | some (code, body) ↦ if nat_beq code 200 then ok body else err (http 404)
    ]
    else err (http 404)

abbrev pub known_tool : Option Json → Result Json
known_tool none = err (http 404)
known_tool (some tool) = if is_some_json (some tool) then ok tool else err (http 404)

-- `get_network_agent_ocrd_tool`
unfoldable pub get_network_agent_ocrd_tool : Services → Text → AgentType → Result Json
get_network_agent_ocrd_tool services processor_name processing_worker =
    known_tool (services.ocrd_all_tool_json processor_name)
get_network_agent_ocrd_tool services processor_name processor_server =
    elim (query_ocrd_tool_json_from_server services processor_name) [
      | err e ↦ err e
      | ok tool ↦ known_tool (some tool)
    ]

-- `validate_job_input`. `fastapi.status` has no name HTTP_404_BAD_REQUEST: invalid parameters raise
-- AttributeError, from the handler of the first one.
unfoldable pub validate_job_input : Services → Json → JobInput → Option Exception
validate_job_input services ocrd_tool job_input =
    if bool_beq (is_set job_input.path_to_mets) (is_set job_input.workspace_id)
    then some (http 422)
    else if is_some_json (some ocrd_tool)
    then elim (services.parameters_are_valid ocrd_tool job_input.parameters) [
      | none ↦ some attribute_error
      | some valid ↦ if valid then none else some attribute_error
    ]
    else some (http 404)

-- The checks of `validate_and_forward_job_to_network_agent` on a request whose processor is set.
unfoldable pub refusal : Services → Text → JobInput → Option Exception
refusal services processor_name job_input =
    elim (validate_agent_type_and_existence services processor_name job_input.agent_type) [
      | some e ↦ some e
      | none ↦
          if is_set job_input.job_id
          then some (http 422)
          else elim (get_network_agent_ocrd_tool services processor_name job_input.agent_type) [
            | err e ↦ some e
            | ok ocrd_tool ↦ validate_job_input services ocrd_tool job_input
          ]
    ]
