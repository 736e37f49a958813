-- ===== src/Network/Server/Callback.antt =====
-- The result of a processing job: remove_job_from_request_cache of
-- src/ocrd_network/processing_server.py. A handler runs to its end before another one starts.
pub mod Release
pub mod Consumed
use ocr_d_core.Common.{
  ℕ, zero, suc, Bool, true, false, Option, none, some, List, [], ◌∷◌, ◌++◌, Text, list_eq, nat_eq,
  if◌then◌else◌, length, is_nonempty,
}
use ocr_d_core.Common.Dict.{get, delete}
use ocr_d_core.Common.Int.{ℤ, pos, negsuc}
use ocr_d_core.Common.Exec.{
  Result, ok, err, Exec, http, failure, value_error, type_error, ◌>>=◌, ◌>>◌,
}
use ocr_d_core.Network.Jobs.{JobInput, JobState, PageId}
use ocr_d_core.Network.Database.{ProcessorJob, db_get_processing_job, db_update_processing_job}
use ocr_d_core.Network.Pages.{expand_page_ids}
use ocr_d_core.Network.LockedPages.{LockedPages, entry, unlock_pages}
use ocr_d_core.Network.Requests.{
  RequestCache, update_request_counter, consume_cached_requests, cancel_dependent_jobs,
}
use ocr_d_core.Network.Server.{Server, Services, stopped, workspace_key}
use ocr_d_core.Network.Server.Workspaces.{get_from_database_workspace}
use ocr_d_core.Network.Server.Push.{push_job_to_network_agent}
use ocr_d_core.Network.Server.Submit.{count, lock_request, page_ids_of}

-- PYResultMessage of models/messages.py
pub record ResultMessage : Type 0 where
  pub job_id : Text
  pub state : JobState
  pub path_to_mets : Option Text
  pub workspace_id : Option Text

-- The state `queued` of a job whose request was consumed. No document has the job id None.
unfoldable pub mark_queued : JobInput → Exec Server ProcessorJob
mark_queued job_input s = elim job_input.job_id [
  | none ↦ (err value_error, s)
  | some job_id ↦ elim (db_update_processing_job job_id JobState.queued s.db) [
    | none ↦ (err value_error, s)
    | some (job, db) ↦ (ok job, record s { db = db })
  ]
]

-- One request that was consumed.
unfoldable pub push_cached_job : Services → JobInput → Exec Server Unit
push_cached_job services job_input =
    let key = workspace_key job_input.path_to_mets job_input.workspace_id in
    mark_queued job_input >>= (λ job.
      page_ids_of job_input
      >>= (λ page_ids. lock_request key job_input.output_file_grps page_ids)
      >> count key (pos 1)
      >> push_job_to_network_agent services job_input job
      >> (λ s. (ok tt, s)))

-- `push_cached_jobs_to_agents`
unfoldable pub push_cached_jobs_to_agents : Services → List JobInput → Exec Server Unit
push_cached_jobs_to_agents services [] s = (ok tt, s)
push_cached_jobs_to_agents services (job_input ∷ processing_jobs) s =
    let (result, after) = push_cached_job services job_input s in
    let rest = push_cached_jobs_to_agents services processing_jobs after in
    elim result [ err e ↦ (err e, after) | ok u ↦ rest ]

abbrev pub is_positive : ℤ → Bool
is_positive (pos zero) = false
is_positive (pos (suc n)) = true
is_positive (negsuc n) = false

-- The counter of an empty queue has reached `counter`.
unfoldable pub finish_workspace : Text → Option Text → ℤ → Server → Server
finish_workspace key mets_server_url counter s = if is_positive counter then s else record s {
  events = s.events ++ stopped mets_server_url ∷ [];
  cache = record s.cache { processing_requests = delete key s.cache.processing_requests };
}

-- `_consume_cached_jobs_of_workspace`. Without a queue, not even an empty one, nothing is done.
unfoldable pub consume_cached_jobs_of_workspace : Text → Option Text → Exec Server (List JobInput)
consume_cached_jobs_of_workspace key mets_server_url s =
    elim (get key s.cache.processing_requests) [
      | none ↦ (ok [], s)
      | some queue ↦
          let (request_counter, counted) = update_request_counter key (negsuc 0) s.cache in
          if is_nonempty queue
          then (let (consumed, cache) = consume_cached_requests key s.db counted in
              (ok consumed, record s { cache = cache }))
          else (
            ok [],
            finish_workspace key mets_server_url request_counter (record s { cache = counted }),
          )
    ]

-- One more than the length of the queue.
abbrev pub fuel_for : Text → RequestCache → ℕ
fuel_for key cache = elim (get key cache.processing_requests) [
  | none ↦ 1
  | some queue ↦ suc (length queue)
]

-- `cancel_dependent_jobs` with fuel that is enough for the queue; its list is not used.
unfoldable pub cancel_cached_dependent_jobs : Text → Text → Exec Server Unit
cancel_cached_dependent_jobs key job_id s =
    elim (cancel_dependent_jobs (fuel_for key s.cache) key job_id s.db s.cache) [
      | none ↦ (err failure, s)
      | some (ok jobs, db, cache) ↦ (ok tt, record s { db = db; cache = cache })
      | some (err e, db, cache) ↦ (err e, record s { db = db; cache = cache })
    ]

-- `unlock_pages` with the file groups of the job. A loop over None raises TypeError, when the
-- workspace has an entry.
unfoldable pub unlock_request : Text → Option (List Text) → List PageId → Exec LockedPages Unit
unlock_request key none page_ids locked_pages = elim (entry key locked_pages) [
  | none ↦ (ok tt, locked_pages)
  | some groups ↦ (err type_error, locked_pages)
]
unlock_request key (some file_grps) page_ids locked_pages =
    unlock_pages key file_grps page_ids locked_pages

-- The `except` clause: a ValueError becomes a HTTPException.
abbrev pub not_found : Result Unit → Result Unit
not_found (ok u) = ok u
not_found (err value_error) = err (http 404)
not_found (err e) = err e

-- The pages of the job are unlocked.
unfoldable pub unlock_result_job : Text → Text → Exec Server Unit
unlock_result_job key job_id s = elim (db_get_processing_job job_id s.db) [
  | none ↦ (err (http 404), s)
  | some job ↦ elim (expand_page_ids job.page_id) [
    | none ↦ (err (http 404), s)
    | some page_ids ↦
        let (result, locked_pages) =
          unlock_request key job.output_file_grps page_ids s.locked_pages in
        (not_found result, record s { locked_pages = locked_pages })
  ]
]

abbrev pub is_failed : JobState → Bool
is_failed JobState.failed = true
is_failed _ = false

unfoldable pub cancel_if_failed : JobState → Text → Text → Exec Server Unit
cancel_if_failed state key job_id s =
    if is_failed state then cancel_cached_dependent_jobs key job_id s else (ok tt, s)

-- `remove_job_from_request_cache`. The worker has stored the state of the job before.
unfoldable pub remove_job_from_request_cache : Services → ResultMessage → Exec Server Unit
remove_job_from_request_cache services result =
    let key = workspace_key result.path_to_mets result.workspace_id in
    get_from_database_workspace result.workspace_id result.path_to_mets >>= (λ db_workspace.
      cancel_if_failed result.state key result.job_id
      >> unlock_result_job key result.job_id
      >> consume_cached_jobs_of_workspace key db_workspace.mets_server_url
      >>= push_cached_jobs_to_agents services)
