-- ===== src/Network/Server/Submit.antt =====
-- A new processing request: validate_and_forward_job_to_network_agent of
-- src/ocrd_network/processing_server.py.
pub mod Stages
pub mod Outcomes
pub mod Accept
pub mod Reach
pub mod Failures
pub mod Returns
use ocr_d_core.Common.{
  Bool, true, false, Option, none, some, List, [], ◌∷◌, ◌++◌, Text, list_eq, nat_eq, if◌then◌else◌,
}
use ocr_d_core.Common.Int.{ℤ, pos}
use ocr_d_core.Common.Exec.{Result, ok, err, Exec, Exception, value_error, type_error, ◌>>=◌, ◌>>◌}
use ocr_d_core.Network.Jobs.{JobInput, JobState, PageId}
use ocr_d_core.Network.Database.{ProcessorJob, insert_job}
use ocr_d_core.Network.Pages.{expand_page_ids}
use ocr_d_core.Network.LockedPages.{
  LockedPages, entry, check_if_locked_pages_for_output_file_grps, lock_pages,
}
use ocr_d_core.Network.Requests.{
  dependencies, is_caching_required, update_request_counter, cache_request,
}
use ocr_d_core.Network.Server.{
  Server, Services, Output, job_output, to_job_output, started, workspace_key, is_set,
}
use ocr_d_core.Network.Server.Workspaces.{
  get_from_database_workspace, create_workspace_if_not_exists, validate_and_return_mets_path,
  db_update_workspace,
}
use ocr_d_core.Network.Server.Checks.{refusal}
use ocr_d_core.Network.Server.Push.{push_job_to_network_agent}

-- What is new in a request: the id of the job, and one for its workspace.
pub record Ids : Type 0 where
  pub job_id : Text
  pub workspace_id : Text

-- The workspace of the request is looked up, or created.
unfoldable pub find_workspace : Services → Ids → JobInput → Exec Server Unit
find_workspace services ids job_input =
    if is_set job_input.workspace_id
    then get_from_database_workspace job_input.workspace_id none >> (λ s. (ok tt, s))
    else create_workspace_if_not_exists ids.workspace_id
        (elim job_input.path_to_mets [ none ↦ false | some path ↦ services.path_exists path ])
        job_input.path_to_mets

-- `update_request_counter`, in the state of the server.
unfoldable pub count : Text → ℤ → Exec Server ℤ
count key by_value s =
    let (value, cache) = update_request_counter key by_value s.cache in
    (ok value, record s { cache = cache })

-- The check of locked pages. A loop over None raises TypeError, when the workspace has an entry.
unfoldable pub has_locked_pages :
    Text → Option (List Text) → List PageId → LockedPages → Result Bool
has_locked_pages key none page_ids locked_pages = elim (entry key locked_pages) [
  | none ↦ ok false
  | some groups ↦ err type_error
]
has_locked_pages key (some file_grps) page_ids locked_pages =
    ok (check_if_locked_pages_for_output_file_grps key file_grps page_ids locked_pages)

-- Whether the request is cached.
unfoldable pub cache_current_request : Text → JobInput → List PageId → Server → Result Bool
cache_current_request key job_input page_ids s =
    if is_caching_required (dependencies job_input) s.db
    then ok true
    else has_locked_pages key job_input.output_file_grps page_ids s.locked_pages

-- `lock_pages`: with None for the file groups, an entry is made before the loop raises TypeError.
unfoldable pub lock_request : Text → Option (List Text) → List PageId → Exec Server Unit
lock_request key none page_ids s =
    (err type_error, record s { locked_pages = lock_pages key [] page_ids s.locked_pages })
lock_request key (some file_grps) page_ids s =
    (ok tt, record s { locked_pages = lock_pages key file_grps page_ids s.locked_pages })

-- The document of a new job is inserted.
unfoldable pub insert_request : Services → Text → JobInput → JobState → Exec Server ProcessorJob
insert_request services job_id job_input state s =
    let job : ProcessorJob = record {
      input = job_input;
      internal_callback_url = services.internal_job_callback_url;
      state = state;
    } in
    (ok job, record s { db = insert_job job_id job s.db })

-- The branch of a request that has to wait.
unfoldable pub cache_new_request : Services → Text → Text → JobInput → Exec Server Output
cache_new_request services key job_id job_input s =
    let (result, after) =
      insert_request services job_id job_input JobState.cached
        (record s { cache = cache_request key job_input s.cache }) in
    elim result [ err e ↦ (err e, after) | ok job ↦ (ok (job_output (to_job_output job)), after) ]

-- The METS server is started, and its URL is saved.
unfoldable pub start_mets_server : Services → JobInput → Option Text → Exec Server Unit
start_mets_server services job_input mets_path s =
    let at_start = record s { events = s.events ++ started mets_path ∷ [] } in
    elim (db_update_workspace job_input.workspace_id job_input.path_to_mets
      (services.mets_server_url_of mets_path) s.workspaces) [
        | none ↦ (err value_error, at_start)
        | some workspaces ↦ (ok tt, record at_start { workspaces = workspaces })
      ]

-- The branch of a request that is pushed at once.
unfoldable pub forward_new_request :
    Services → Text → Text → JobInput → Option Text → List PageId → Exec Server Output
forward_new_request services key job_id job_input mets_path page_ids =
    lock_request key job_input.output_file_grps page_ids
    >> start_mets_server services job_input mets_path
    >> insert_request services job_id job_input JobState.queued
    >>= (λ job. count key (pos 1) >> push_job_to_network_agent services job_input job)

-- `expand_page_ids`
unfoldable pub page_ids_of : JobInput → Exec Server (List PageId)
page_ids_of job_input s = elim (expand_page_ids job_input.page_id) [
  | none ↦ (err value_error, s)
  | some page_ids ↦ (ok page_ids, s)
]

unfoldable pub decide :
    Services → Text → Text → JobInput → Option Text → List PageId → Exec Server Output
decide services key job_id job_input mets_path page_ids s =
    elim (cache_current_request key job_input page_ids s) [
      | err e ↦ (err e, s)
      | ok true ↦ cache_new_request services key job_id job_input s
      | ok false ↦ forward_new_request services key job_id job_input mets_path page_ids s
    ]

-- After the checks, on the request with its processor and its job id.
unfoldable pub admit : Services → Ids → JobInput → Exec Server Output
admit services ids job_input =
    let key = workspace_key job_input.path_to_mets job_input.workspace_id in
    find_workspace services ids job_input
    >> count key (pos 0)
    >> validate_and_return_mets_path job_input
    >>= (λ mets_path. page_ids_of job_input >>= decide services key ids.job_id job_input mets_path)

-- `validate_and_forward_job_to_network_agent`
unfoldable pub validate_and_forward_job_to_network_agent :
    Services → Ids → Text → JobInput → Exec Server Output
validate_and_forward_job_to_network_agent services ids processor_name job_input s =
    let named = record job_input { processor_name = some processor_name } in
    elim (refusal services processor_name named) [
      | some e ↦ (err e, s)
      | none ↦ admit services ids (record named { job_id = some ids.job_id }) s
    ]
