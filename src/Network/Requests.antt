-- ===== src/Network/Requests.antt =====
-- class CacheProcessingRequests of src/ocrd_network/server_cache.py. The logger is left out. A
-- method runs to its end before another one starts.
pub mod Ready
pub mod Consume
pub mod Cancel
use ocr_d_core.Common.{
  ℕ, zero, suc, Bool, true, false, Option, none, some, List, [], ◌∷◌, ◌++◌, if◌then◌else◌,
  is_nonempty, keep_if, contains, remove, Text, list_eq, nat_eq,
}
use ocr_d_core.Common.Dict.{Dict, get, put}
use ocr_d_core.Common.Exec.{Result, ok, err, value_error, type_error}
use ocr_d_core.Common.Int.{ℤ, pos, ◌+ℤ◌}
use ocr_d_core.Network.Jobs.{JobInput, JobState, job_eq}
use ocr_d_core.Network.Database.{
  ProcessorJob, Database, db_get_processing_job, db_update_processing_job,
}

pub record RequestCache : Type 0 where
  -- The queue of each workspace key.
  pub processing_requests : Dict Text (List JobInput)
  -- The number of jobs of each workspace key that were pushed and have not called back.
  pub processing_counter : Dict Text ℤ

abbrev pub is_success : JobState → Bool
is_success JobState.success = true
is_success _ = false

-- `__check_if_job_deps_met`
unfoldable pub check_if_job_deps_met : List Text → Database → Bool
check_if_job_deps_met [] db = true
check_if_job_deps_met (dependency_job_id ∷ dependencies) db =
    let rest = check_if_job_deps_met dependencies db in
    elim (db_get_processing_job dependency_job_id db) [
      | none ↦ false
      | some job ↦ if is_success job.state then rest else false
    ]

-- `is_caching_required`
unfoldable pub is_caching_required : List Text → Database → Bool
is_caching_required job_dependencies db =
    if is_nonempty job_dependencies
    then (if check_if_job_deps_met job_dependencies db then false else true)
    else false

-- `depends_on`, where None holds no id.
abbrev pub dependencies : JobInput → List Text
dependencies request = elim request.depends_on [ none ↦ [] | some ids ↦ ids ]

-- The test of the first loop of `consume_cached_requests`.
unfoldable pub is_ready : Database → JobInput → Bool
is_ready db request = elim request.depends_on [
  | none ↦ true
  | some ids ↦ if is_nonempty ids then check_if_job_deps_met ids db else true
]

-- The second loop of `consume_cached_requests`: the requests that were found and removed, and the
-- queue that is left.
unfoldable pub take_out : List JobInput → List JobInput → List JobInput × List JobInput
take_out [] queue = ([], queue)
take_out (found_element ∷ found) queue = elim (remove found_element queue) [
  | none ↦ take_out found queue
  | some left ↦ let (taken, rest) = take_out found left in (found_element ∷ taken, rest)
]

-- `consume_cached_requests`
unfoldable pub consume_cached_requests :
    Text → Database → RequestCache → List JobInput × RequestCache
consume_cached_requests workspace_key db cache =
    elim (get workspace_key cache.processing_requests) [
      | none ↦ ([], cache)
      | some queue ↦
          if is_nonempty queue
          then (let (taken, rest) = take_out (keep_if (is_ready db) queue) queue in
              (
                taken,
                record cache {
                  processing_requests = put workspace_key rest cache.processing_requests;
                },
              ))
          else ([], cache)
    ]

-- `update_request_counter`: the new value is returned. A missing counter, like one at zero, starts
-- from zero.
unfoldable pub update_request_counter : Text → ℤ → RequestCache → ℤ × RequestCache
update_request_counter workspace_key by_value cache =
    let value =
      elim (get workspace_key cache.processing_counter) [ none ↦ pos 0 | some n ↦ n ] +ℤ by_value in
    (value, record cache { processing_counter = put workspace_key value cache.processing_counter })

-- `cache_request`. A missing queue is created, like an empty one.
unfoldable pub cache_request : Text → JobInput → RequestCache → RequestCache
cache_request workspace_key request cache = record cache {
  processing_requests =
      put workspace_key
        (elim (get workspace_key cache.processing_requests) [ none ↦ [] | some queue ↦ queue ]
          ++ request ∷ [])
        cache.processing_requests;
}

-- `has_workspace_cached_requests`
unfoldable pub has_workspace_cached_requests : Text → RequestCache → Bool
has_workspace_cached_requests workspace_key cache =
    elim (get workspace_key cache.processing_requests) [
      | none ↦ false
      | some queue ↦ is_nonempty queue
    ]

-- What `cancel_dependent_jobs` works on: the queue of the workspace, and the database.
pub record Cached : Type 0 where
  pub queue : List JobInput
  pub db : Database

-- `none`: the fuel is used up.
abbrev pub Cancelling : Type 0
Cancelling = Cached → Option (Result (List JobInput) × Cached)

-- The first loop. `x in None` raises TypeError.
unfoldable pub find_dependents : Text → List JobInput → Result (List JobInput)
find_dependents processing_job_id [] = ok []
find_dependents processing_job_id (request ∷ queue) =
    let rest = find_dependents processing_job_id queue in
    elim request.depends_on [
      | none ↦ err type_error
      | some ids ↦ elim rest [
        | err e ↦ err e
        | ok found ↦ if contains processing_job_id ids then ok (request ∷ found) else ok found
      ]
    ]

abbrev pub prepend :
    List JobInput
    → Option (Result (List JobInput) × Cached)
    → Option (Result (List JobInput) × Cached)
prepend before none = none
prepend before (some (err e, s)) = some (err e, s)
prepend before (some (ok jobs, s)) = some (ok (before ++ jobs), s)

-- After the recursive call, which has given `done`. A ValueError goes on with the loop.
abbrev pub go_on :
    JobInput
    → Option (Result (List JobInput) × Cached)
    → Cancelling
    → Option (Result (List JobInput) × Cached)
go_on request none rest = none
go_on request (some (err value_error, s)) rest = prepend (request ∷ []) (rest s)
go_on request (some (err e, s)) rest = some (err e, s)
go_on request (some (ok jobs, s)) rest = prepend (request ∷ jobs) (rest s)

-- The second loop, given the recursive call. No document has the job id None.
unfoldable pub cancel_each : (Text → Cancelling) → List JobInput → Cancelling
cancel_each recursive [] s = some (ok [], s)
cancel_each recursive (request ∷ found) s = elim (remove request s.queue) [
  | none ↦ cancel_each recursive found s
  | some left ↦
      let unknown =
        prepend (request ∷ []) (cancel_each recursive found (record s { queue = left })) in
      elim request.job_id [
        | none ↦ unknown
        | some job_id ↦ elim (db_update_processing_job job_id JobState.cancelled s.db) [
          | none ↦ unknown
          | some (job, db) ↦
              go_on request (recursive job_id (record { queue = left; db = db }))
                (cancel_each recursive found)
        ]
      ]
]

-- The recursion, on fuel.
unfoldable pub cancel : ℕ → Text → Cancelling
cancel zero processing_job_id s = none
cancel (suc fuel) processing_job_id s = elim (find_dependents processing_job_id s.queue) [
  | err e ↦ some (err e, s)
  | ok found ↦ cancel_each (cancel fuel) found s
]

-- What the method leaves of the queue and of the database.
abbrev pub keep_queue :
    Text
    → RequestCache
    → Option (Result (List JobInput) × Cached)
    → Option (Result (List JobInput) × Database × RequestCache)
keep_queue workspace_key cache none = none
keep_queue workspace_key cache (some (result, s)) = some (
  result,
  s.db,
  record cache { processing_requests = put workspace_key s.queue cache.processing_requests },
)

-- `cancel_dependent_jobs`
unfoldable pub cancel_dependent_jobs :
    ℕ
    → Text
    → Text
    → Database
    → RequestCache
    → Option (Result (List JobInput) × Database × RequestCache)
cancel_dependent_jobs fuel workspace_key processing_job_id db cache =
    elim (get workspace_key cache.processing_requests) [
      | none ↦ some (ok [], db, cache)
      | some queue ↦
          if is_nonempty queue
          then keep_queue workspace_key cache
              (cancel fuel processing_job_id (record { queue = queue; db = db }))
          else some (ok [], db, cache)
    ]
