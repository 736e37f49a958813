-- ===== src/Tests/Submitted.antt =====
-- The theorems on new requests, at concrete inputs.
use ocr_d_core.Common.{
  ◌≡◌, refl, ◌⊎◌, true, none, some, List, [], Text, codes, list_eq, nat_eq, option_eq, contains,
  split_parts, split_once, starts_with,
}
use ocr_d_core.Common.Exec.{Result, ok}
use ocr_d_core.Common.Dict.{get, put}
use ocr_d_core.Common.Int.{◌+ℤ◌}
use ocr_d_core.Network.Requests.{is_caching_required, update_request_counter}
use ocr_d_core.Network.Server.Workspaces.{
  create_workspace_if_not_exists, db_get_workspace, find_one, validate_and_return_mets_path,
  db_update_workspace, save_url,
}
use ocr_d_core.Network.Jobs.{JobInput, JobState, PageId}
use ocr_d_core.Network.Pages.{expand_page_ids, expand_tokens, expand_token}
use ocr_d_core.Network.LockedPages.{
  check_groups, overlaps, check_if_locked_pages_for_output_file_grps as check,
}
use ocr_d_core.Network.Server.{Server, Output, job_output, to_job_output}
use ocr_d_core.Network.Server.Checks.{
  refusal, validate_agent_type_and_existence, network_agent_exists_worker,
  get_network_agent_ocrd_tool, validate_job_input,
}
use ocr_d_core.Network.Server.Push.{
  push_job_to_network_agent, push_result, push_job_to_processing_queue, is_valid_message,
}
use ocr_d_core.Network.Server.Submit.{
  admit, find_workspace, count, page_ids_of, cache_current_request, decide, forward_new_request,
  has_locked_pages, insert_request, lock_request, start_mets_server,
  validate_and_forward_job_to_network_agent,
}
use ocr_d_core.Network.Server.Submit.Stages.{admitted, document}
use ocr_d_core.Network.Server.Submit.Outcomes.{Waits, Forwarded, validate_and_forward-Outcomes}
use ocr_d_core.Tests.Data.{path, group_b, request, no_requests, server, services, ids}

abbrev name : Text
name = codes "ocrd-dummy"

-- A new request for the first page of the second file group.
abbrev new_request : JobInput
new_request = request group_b none (some []) (some (codes "1"))

abbrev at_first : Server
at_first = server no_requests JobState.running

-- The same request, by the id of its workspace.
abbrev request_by_id : JobInput
request_by_id = record new_request { path_to_mets = none; workspace_id = some (codes "w") }

abbrev answer_by_id : Output
answer_by_id =
    job_output
      (to_job_output (document (services true) (admitted ids name request_by_id) JobState.queued))

abbrev run : Result Output × Server
run = validate_and_forward_job_to_network_agent (services true) ids name new_request at_first

returned : run ≡ (
  ok (
      job_output
        (to_job_output (document (services true) (admitted ids name new_request) JobState.queued))),
  run.1,
)
unfolding validate_and_forward_job_to_network_agent refusal validate_agent_type_and_existence
    network_agent_exists_worker get_network_agent_ocrd_tool validate_job_input admit find_workspace
    create_workspace_if_not_exists db_get_workspace find_one count validate_and_return_mets_path
    page_ids_of expand_page_ids expand_tokens expand_token get put ◌+ℤ◌ contains split_once
    split_parts starts_with check_groups check overlaps is_caching_required update_request_counter
    push_job_to_network_agent push_job_to_processing_queue push_result is_valid_message
    cache_current_request decide forward_new_request has_locked_pages insert_request lock_request
    start_mets_server db_update_workspace save_url
returned = refl

validate_and_forward-Outcomes_example :
    (pages : List PageId) × (expand_page_ids new_request.page_id ≡ some pages)
    × (Waits (services true) path ids.job_id (admitted ids name new_request) pages at_first run.1
        ⊎ Forwarded
            (services true)
            path
            ids.job_id
            (admitted ids name new_request)
            pages
            at_first
            run.1)
validate_and_forward-Outcomes_example =
    validate_and_forward-Outcomes (services true) ids name new_request
      (job_output
        (to_job_output (document (services true) (admitted ids name new_request) JobState.queued)))
      at_first run.1 returned
