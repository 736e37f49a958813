-- ===== src/Tests/Results.antt =====
-- The theorems on results of jobs, at concrete inputs.
use ocr_d_core.Common.{
  ◌≡◌, refl, inl, inr, ◌↔◌, ◌&&◌, true, none, some, [], ◌∷◌, In, Text, codes, list_eq, nat_eq,
  contains, if◌then◌else◌, ◌==◌, split_parts, split_once, starts_with,
}
use ocr_d_core.Common.Exec.{Result, ok, err, type_error}
use ocr_d_core.Common.Dict.{get, put}
use ocr_d_core.Network.Jobs.{JobState, page_id_eq}
use ocr_d_core.Network.Database.{db_get_processing_job, db_update_processing_job}
use ocr_d_core.Network.Pages.{expand_page_ids, expand_tokens, expand_token}
use ocr_d_core.Network.LockedPages.View.{pages_of}
use ocr_d_core.Network.LockedPages.Unlock.{without}
use ocr_d_core.Network.Requests.{update_request_counter}
use ocr_d_core.Network.Requests.Consume.{queue_of}
use ocr_d_core.Network.Server.{Server}
use ocr_d_core.Network.Server.Workspaces.{db_get_workspace, find_one}
use ocr_d_core.Network.Server.Push.{
  push_job_to_network_agent, push_job_to_processing_queue, push_result, is_valid_message,
}
use ocr_d_core.Network.Server.Submit.{count, lock_request, page_ids_of}
use ocr_d_core.Network.Server.Callback.{
  ResultMessage, remove_job_from_request_cache, mark_queued, push_cached_job,
  push_cached_jobs_to_agents,
}
use ocr_d_core.Network.Server.Callback.Release.{remove_job_raises, remove_job-releases}
use ocr_d_core.Network.Server.Callback.Consumed.{AllPushed, push_cached_jobs-AllPushed}
use ocr_d_core.Network.Server.Workflow.{GroupCache, remember, dependent_jobs}
use ocr_d_core.Network.Server.Workflow.Dependencies.{dependent_jobs-remember}
use ocr_d_core.Network.Server.{JobOutput, job_output}
use ocr_d_core.Tests.Data.{
  group_b, path, group_a, page_1, id_1, job, request_1, request_2, request_3, unlisted, cache_of,
  no_requests, workspace, server, services,
}

abbrev result : JobState → ResultMessage
result state = record {
  job_id = id_1;
  state = state;
  path_to_mets = some path;
  workspace_id = none;
}

-- A server whose queue for the workspace holds a request without a list of dependencies.
abbrev stuck : Server
stuck = server (cache_of (request_2 ∷ unlisted ∷ [])) JobState.failed

known :
    (s : Server)
    → s.workspaces ≡ workspace ∷ []
    → db_get_workspace none (some path) s.workspaces ≡ some workspace
unfolding db_get_workspace find_one
known s e = rw e refl

unlisted-In : In unlisted (queue_of path stuck.cache)
unfolding get
unlisted-In = inr (inl refl)

remove_job_raises_example :
    remove_job_from_request_cache (services true) (result JobState.failed) stuck
    ≡ (err type_error, stuck)
remove_job_raises_example =
    remove_job_raises (services true) (result JobState.failed) workspace unlisted stuck refl
      (known stuck refl) unlisted-In refl

-- A server with an empty queue, and one job that was pushed.
abbrev last_job : Server
last_job = server (cache_of []) JobState.success

-- A server without a queue.
abbrev idle : Server
idle = server no_requests JobState.success

no_queue : get path idle.cache.processing_requests ≡ none
unfolding get
no_queue = refl

found : db_get_processing_job id_1 idle.db ≡ some (job request_1 JobState.success)
unfolding db_get_processing_job get
found = refl

expanded : expand_page_ids (some (codes "1")) ≡ some (page_1 ∷ [])
unfolding expand_page_ids expand_tokens expand_token split_parts split_once starts_with
expanded = refl

remove_job-releases_example :
    (t : Server) × (remove_job_from_request_cache (services true) (result JobState.success) idle
      ≡ (ok tt, t))
    × ((j h : Text)
        → pages_of j h t.locked_pages ≡ (
            if path == j && contains h (group_a ∷ [])
            then without (page_1 ∷ []) (pages_of j h idle.locked_pages)
            else pages_of j h idle.locked_pages))
    × (t.pushed ≡ [])
    × (t.cache ≡ no_requests)
remove_job-releases_example =
    remove_job-releases (services true) (result JobState.success) workspace
      (job request_1 JobState.success) (group_a ∷ []) (page_1 ∷ []) idle refl (known idle refl)
      no_queue found expanded refl refl

abbrev pushing : Result Unit × Server
pushing = push_cached_jobs_to_agents (services true) (request_2 ∷ request_3 ∷ []) idle

pushes : pushing ≡ (ok tt, pushing.1)
unfolding push_cached_jobs_to_agents push_cached_job mark_queued db_update_processing_job get
    page_ids_of expand_page_ids expand_tokens expand_token split_parts split_once starts_with
    lock_request count update_request_counter push_job_to_network_agent push_result
    push_job_to_processing_queue is_valid_message put
pushes = refl

push_cached_jobs-AllPushed_example : AllPushed (request_2 ∷ request_3 ∷ []) idle pushing.1
push_cached_jobs-AllPushed_example =
    push_cached_jobs-AllPushed (services true) (request_2 ∷ request_3 ∷ []) idle pushing.1 pushes

-- The output of a job that makes the first file group.
abbrev made : JobOutput
made = record {
  job_id = some id_1;
  processor_name = none;
  state = JobState.queued;
  path_to_mets = some path;
  workspace_id = none;
  input_file_grps = [];
  output_file_grps = some (group_a ∷ []);
  page_id = none;
}

dependent_jobs-remember_example :
    (cache : GroupCache) × (remember (job_output made) (group_a ∷ []) [] ≡ ok cache)
    × (In id_1 (dependent_jobs (group_a ∷ group_b ∷ []) cache) ↔ (
        (g : Text) × In g (group_a ∷ group_b ∷ [])
        × ((if contains g (group_a ∷ []) then some id_1 else get g []) ≡ some id_1)))
dependent_jobs-remember_example =
    dependent_jobs-remember made id_1 id_1 (group_a ∷ []) (group_a ∷ group_b ∷ []) [] refl
