-- ===== src/Network/Server/Callback/Release.antt =====
-- What a result releases: the locked pages of its job, and the METS server of its workspace.
use ocr_d_core.Common.{
  ◌≡◌, refl, sym, ap, subst, ◌∙◌, ◌↔◌, ◌⊎◌, inl, inr, ◌&&◌, true, false, Option, none, some, List,
  [], ◌∷◌, ◌++◌, arith, Text, list_eq, nat_eq, list_beq_iff, Bool-cases, Option-cases, is_nonempty,
  length, contains, In, if◌then◌else◌, ◌==◌,
}
use ocr_d_core.Common.Dict.{get, get-delete}
use ocr_d_core.Common.Int.{ℤ, pos, negsuc, ◌+ℤ◌, ◌≤ℤ◌}
use ocr_d_core.Common.Exec.{ok, err, type_error, and_then-ok, and_then-err, ◌>>◌}
use ocr_d_core.Network.Jobs.{JobInput, JobState, PageId, page_id_eq}
use ocr_d_core.Network.Database.{ProcessorJob, db_get_processing_job}
use ocr_d_core.Network.Pages.{expand_page_ids}
use ocr_d_core.Network.LockedPages.{unlock_pages}
use ocr_d_core.Network.LockedPages.View.{pages_of}
use ocr_d_core.Network.LockedPages.Unlock.{unlock_pages_lem, without}
use ocr_d_core.Network.Requests.{update_request_counter, consume_cached_requests}
use ocr_d_core.Network.Requests.Consume.{queue_of}
use ocr_d_core.Network.Requests.Cancel.{cancel_dependent_jobs_raises}
use ocr_d_core.Network.Server.{Server, Services, Workspace, workspace_key, stopped}
use ocr_d_core.Network.Server.Workspaces.{db_get_workspace, get_from_database_workspace}
use ocr_d_core.Network.Server.Submit.Stages.{counter_of}
use ocr_d_core.Network.Server.Callback.{
  ResultMessage, consume_cached_jobs_of_workspace, finish_workspace, is_positive, is_failed,
  cancel_cached_dependent_jobs, unlock_request, unlock_result_job, cancel_if_failed,
  push_cached_jobs_to_agents, remove_job_from_request_cache,
}

get_workspace_runs :
    (id path : Option Text) (w : Workspace) (s : Server)
    → db_get_workspace id path s.workspaces ≡ some w
    → get_from_database_workspace id path s ≡ (ok w, s)
unfolding get_from_database_workspace
get_workspace_runs id path w s e = ground arith

cancel_raises :
    (key id : Text) (s : Server) (r : JobInput)
    → In r (queue_of key s.cache)
    → r.depends_on ≡ none
    → cancel_if_failed JobState.failed key id s ≡ (err type_error, s)
unfolding cancel_if_failed cancel_cached_dependent_jobs
cancel_raises key id s r m unlisted = ground (
  arith,
  cancel_dependent_jobs_raises 0 key id s.db s.cache r m unlisted,
  cancel_dependent_jobs_raises (length (queue_of key s.cache)) key id s.db s.cache r m unlisted,
)

-- If a job fails while its workspace has a waiting request without a list of dependencies, then the
-- handler of the result raises TypeError and changes nothing: the pages of the failed job stay
-- locked, and its job stays counted.
pub remove_job_raises :
    (services : Services) (result : ResultMessage) (w : Workspace) (r : JobInput) (s : Server)
    → result.state ≡ JobState.failed
    → db_get_workspace result.workspace_id result.path_to_mets s.workspaces ≡ some w
    → In r (queue_of (workspace_key result.path_to_mets result.workspace_id) s.cache)
    → r.depends_on ≡ none
    → remove_job_from_request_cache services result s ≡ (err type_error, s)
unfolding remove_job_from_request_cache
remove_job_raises services result w r s failed known m unlisted =
    let key = workspace_key result.path_to_mets result.workspace_id in
    let raises : cancel_if_failed result.state key result.job_id s ≡ (err type_error, s) =
      subst (λ state. cancel_if_failed state key result.job_id s ≡ (err type_error, s)) (sym failed)
        (cancel_raises key result.job_id s r m unlisted) in
    and_then-ok (get_from_database_workspace result.workspace_id result.path_to_mets) _ s w s
      (get_workspace_runs result.workspace_id result.path_to_mets w s known)
    ∙ and_then-err
        (cancel_if_failed result.state key result.job_id
          >> unlock_result_job key result.job_id
          >> consume_cached_jobs_of_workspace key w.mets_server_url)
        (push_cached_jobs_to_agents services) s type_error s
        (and_then-err
          (cancel_if_failed result.state key result.job_id >> unlock_result_job key result.job_id)
          (λ _. consume_cached_jobs_of_workspace key w.mets_server_url) s type_error s
          (and_then-err (cancel_if_failed result.state key result.job_id)
            (λ _. unlock_result_job key result.job_id) s type_error s raises))

is_positive_iff : (n : ℤ) → (is_positive n ≡ false) ↔ (n ≤ℤ pos 0)
is_positive_iff n = (λ h. ground arith, λ h. ground arith)

not_empty : (x : JobInput) (queue : List JobInput) → ¬ (some (x ∷ queue) ≡ some [])
not_empty x queue e = cc

consume-eq_none :
    (key : Text) (url : Option Text) (s : Server)
    → get key s.cache.processing_requests ≡ none
    → consume_cached_jobs_of_workspace key url s ≡ (ok [], s)
unfolding consume_cached_jobs_of_workspace
consume-eq_none key url s e = rw (e, consume_cached_jobs_of_workspace) refl

consume-eq_empty :
    (key : Text) (url : Option Text) (s : Server)
    → get key s.cache.processing_requests ≡ some []
    → consume_cached_jobs_of_workspace key url s ≡ (
      ok [],
      finish_workspace key url
          (update_request_counter key (negsuc 0) s.cache).0
          (record s { cache = (update_request_counter key (negsuc 0) s.cache).1 }),
    )
unfolding consume_cached_jobs_of_workspace
consume-eq_empty key url s e = rw (e, consume_cached_jobs_of_workspace) refl

consume-eq_cons :
    (key : Text) (url : Option Text) (x : JobInput) (queue : List JobInput) (s : Server)
    → get key s.cache.processing_requests ≡ some (x ∷ queue)
    → consume_cached_jobs_of_workspace key url s ≡ (
      ok (consume_cached_requests key s.db (update_request_counter key (negsuc 0) s.cache).1).0,
      record s {
        cache =
            (consume_cached_requests key s.db (update_request_counter key (negsuc 0) s.cache).1).1;
      },
    )
unfolding consume_cached_jobs_of_workspace
consume-eq_cons key url x queue s e = rw (e, consume_cached_jobs_of_workspace) refl

abbrev counted_down : Text → Server → Server
counted_down key s = record s { cache = (update_request_counter key (negsuc 0) s.cache).1 }

finish-waits :
    (key : Text) (url : Option Text) (s : Server)
    → is_positive (counter_of key s.cache +ℤ negsuc 0) ≡ true
    → (finish_workspace key url
        (update_request_counter key (negsuc 0) s.cache).0
        (counted_down key s)).events
      ≡ s.events
unfolding finish_workspace update_request_counter
finish-waits key url s t = rw t refl

finish-stops :
    (key : Text) (url : Option Text) (s : Server)
    → is_positive (counter_of key s.cache +ℤ negsuc 0) ≡ false
    → ((finish_workspace key url
          (update_request_counter key (negsuc 0) s.cache).0
          (counted_down key s)).events
        ≡ s.events ++ stopped url ∷ [])
      × (get key
            (finish_workspace key url
              (update_request_counter key (negsuc 0) s.cache).0
              (counted_down key s)).cache.processing_requests
          ≡ none)
unfolding finish_workspace update_request_counter
finish-stops key url s f = (
  rw f refl,
  rw f (ground (arith, list_beq_iff key key, get-delete key key s.cache.processing_requests)),
)

-- The METS server of a workspace is stopped exactly if its queue exists and is empty, and the count
-- of its pushed jobs falls to zero or below; then the queue is deleted. Else no server is started
-- or stopped.
consume_cached_jobs-events :
    (key : Text) (url : Option Text) (s : Server)
    → (((get key s.cache.processing_requests ≡ some [])
          × (counter_of key s.cache +ℤ negsuc 0 ≤ℤ pos 0))
        × ((consume_cached_jobs_of_workspace key url s).1.events ≡ s.events ++ stopped url ∷ [])
        × (get key (consume_cached_jobs_of_workspace key url s).1.cache.processing_requests ≡ none))
      ⊎ ((¬ (
            (get key s.cache.processing_requests ≡ some [])
            × (counter_of key s.cache +ℤ negsuc 0 ≤ℤ pos 0)))
          × ((consume_cached_jobs_of_workspace key url s).1.events ≡ s.events))
consume_cached_jobs-events key url s = elim (Option-cases (get key s.cache.processing_requests)) [
  | inl n ↦ inr (λ (e, _). cc (n, e), ap (λ r. r.1.events) (consume-eq_none key url s n))
  | inr (x ∷ queue, e) ↦
      inr (λ (e', _). cc (e, e'), ap (λ r. r.1.events) (consume-eq_cons key url x queue s e))
  | inr ([], e) ↦
      let run = consume-eq_empty key url s e in
      elim (Bool-cases (is_positive (counter_of key s.cache +ℤ negsuc 0))) [
        | inl t ↦ inr (
          λ (_, below). ground (arith, (is_positive_iff _).1 below),
          ap (λ r. r.1.events) run ∙ finish-waits key url s t,
        )
        | inr f ↦ inl (
          (e, (is_positive_iff _).0 f),
          ap (λ r. r.1.events) run ∙ (finish-stops key url s f).0,
          ap (λ r. get key r.1.cache.processing_requests) run ∙ (finish-stops key url s f).1,
        )
      ]
]

unlock_result_runs :
    (key id : Text) (job : ProcessorJob) (grps : List Text) (pages : List PageId) (s : Server)
    → db_get_processing_job id s.db ≡ some job
    → expand_page_ids job.page_id ≡ some pages
    → job.output_file_grps ≡ some grps
    → is_nonempty pages ≡ true
    → unlock_result_job key id s
      ≡ (ok tt, record s { locked_pages = (unlock_pages key grps pages s.locked_pages).1 })
unfolding unlock_result_job unlock_request
unlock_result_runs key id job grps pages s known expands named some_pages =
    ground (arith, (unlock_pages_lem key key [] grps pages s.locked_pages some_pages).0)

-- If a job that named its pages has not failed, and its workspace is known and has no queue, then
-- the handler of its result does not fail; the job is known, has output file groups, and its page
-- ids can be expanded. Exactly its pages are unlocked, in its own file groups and workspace; nothing
-- is pushed; and the count of pushed jobs stays as it was.
pub remove_job-releases :
    (services : Services) (result : ResultMessage) (w : Workspace) (job : ProcessorJob)
    (grps : List Text) (pages : List PageId) (s : Server)
    → is_failed result.state ≡ false
    → db_get_workspace result.workspace_id result.path_to_mets s.workspaces ≡ some w
    → get (workspace_key result.path_to_mets result.workspace_id) s.cache.processing_requests ≡ none
    → db_get_processing_job result.job_id s.db ≡ some job
    → expand_page_ids job.page_id ≡ some pages
    → job.output_file_grps ≡ some grps
    → is_nonempty pages ≡ true
    → (t : Server) × (remove_job_from_request_cache services result s ≡ (ok tt, t))
      × ((j h : Text)
          → pages_of j h t.locked_pages ≡ (
              if workspace_key result.path_to_mets result.workspace_id == j && contains h grps
              then without pages (pages_of j h s.locked_pages)
              else pages_of j h s.locked_pages))
      × (t.pushed ≡ s.pushed)
      × (t.cache ≡ s.cache)
unfolding remove_job_from_request_cache
remove_job-releases services result w job grps pages s fine known no_queue found expands named
      some_pages =
    let key = workspace_key result.path_to_mets result.workspace_id in
    let t : Server = record s { locked_pages = (unlock_pages key grps pages s.locked_pages).1 } in
    let not_cancelled : cancel_if_failed result.state key result.job_id s ≡ (ok tt, s) =
      unfold cancel_if_failed in rw fine refl in
    let done : push_cached_jobs_to_agents services [] t ≡ (ok tt, t) =
      unfold push_cached_jobs_to_agents in refl in
    (
      t,
      and_then-ok (get_from_database_workspace result.workspace_id result.path_to_mets) _ s w s
            (get_workspace_runs result.workspace_id result.path_to_mets w s known)
          ∙ and_then-ok
              (cancel_if_failed result.state key result.job_id
                >> unlock_result_job key result.job_id
                >> consume_cached_jobs_of_workspace key w.mets_server_url)
              (push_cached_jobs_to_agents services) s [] t
              (and_then-ok
                  (cancel_if_failed result.state key result.job_id
                    >> unlock_result_job key result.job_id)
                  (λ _. consume_cached_jobs_of_workspace key w.mets_server_url) s tt t
                  (and_then-ok (cancel_if_failed result.state key result.job_id)
                      (λ _. unlock_result_job key result.job_id) s tt s not_cancelled
                    ∙ unlock_result_runs key result.job_id job grps pages s found expands named
                        some_pages)
                ∙ consume-eq_none key w.mets_server_url t no_queue)
          ∙ done,
      λ j h. (unlock_pages_lem key j h grps pages s.locked_pages some_pages).1,
      refl,
      refl,
    )
