-- ===== src/Network/Requests/Consume.antt =====
-- Which cached requests are consumed: consume_cached_requests.
use ocr_d_core.Common.{
  ◌≡◌, refl, sym, ◌∙◌, inl, inr, Bool, true, false, not, none, some, List, [], ◌∷◌, ◌++◌, arith, In,
  Text, list_eq, nat_eq, Bool-cases, Option-cases, keep_if, keep_if_nil, remove_middle,
  In_of_keep_if, In-keep_if, ◌↔◌, In-append, true_ne_false, if◌then◌else◌, ◌==◌, list_beq_iff,
}
use mathlib.Core.List.{append_assoc}
use ocr_d_core.Common.Dict.{get, get-put}
use ocr_d_core.Network.Jobs.{JobInput, JobState, job_eq}
use ocr_d_core.Network.Database.{ProcessorJob, Database, db_get_processing_job}
use ocr_d_core.Network.Requests.{
  RequestCache, dependencies, is_ready, take_out, consume_cached_requests, check_if_job_deps_met,
  is_caching_required,
}

-- All elements that satisfy `p` are taken out of the queue, and the others stay in their order.
take_out-keep_if :
    (p : JobInput → Bool) (before xs : List JobInput)
    → ((x : JobInput) → In x before → p x ≡ false)
    → take_out (keep_if p xs) (before ++ xs) ≡ (keep_if p xs, before ++ keep_if (λ x. not (p x)) xs)
unfolding take_out keep_if
take_out-keep_if p before [] h = refl
take_out-keep_if p before (x ∷ xs) h = elim (Bool-cases (p x)) [
  | inl t ↦
      let found = remove_middle x before xs (λ m. true_ne_false t (h x m)) in
      rw t (rw (found, take_out) (rw (take_out-keep_if p before xs h) refl))
  | inr f ↦
      let rest = take_out-keep_if p (before ++ x ∷ []) xs (λ y m.
        elim (In-append y before (x ∷ []) m) [
          | inl old ↦ h y old
          | inr (inl e) ↦ rw e f
          | inr (inr z) ↦ absurd z
        ]) in
      rw f (rw (append_assoc before (x ∷ []) xs, append_assoc before (x ∷ [])) at rest)
]

-- The queue of a workspace; a missing one is empty.
abbrev pub queue_of : Text → RequestCache → List JobInput
queue_of k cache = elim (get k cache.processing_requests) [ none ↦ [] | some queue ↦ queue ]

-- A request may be pushed: each job that it depends on is known and has succeeded.
abbrev pub DependenciesMet : Database → JobInput → Type 0
DependenciesMet db request =
    (id : Text)
    → In id (dependencies request)
    → (job : ProcessorJob) × (get id db ≡ some job) × (job.state ≡ JobState.success)

check_if_job_deps_met_sound :
    (ids : List Text) (db : Database)
    → check_if_job_deps_met ids db ≡ true
    → (id : Text) → In id ids
    → (job : ProcessorJob) × (get id db ≡ some job) × (job.state ≡ JobState.success)
unfolding check_if_job_deps_met db_get_processing_job
check_if_job_deps_met_sound [] db h id m = absurd m
check_if_job_deps_met_sound (x ∷ ids) db h id m = elim (Option-cases (get x db)) [
  | inl n ↦ absurd (ground arith)
  | inr (job, s) ↦ elim m [
    | inl e ↦ (job, rw e s, ground arith)
    | inr m' ↦ check_if_job_deps_met_sound ids db (ground arith) id m'
  ]
]

check_if_job_deps_met_complete :
    (ids : List Text) (db : Database)
    → ((id : Text)
        → In id ids
        → (job : ProcessorJob) × (get id db ≡ some job) × (job.state ≡ JobState.success))
    → check_if_job_deps_met ids db ≡ true
unfolding check_if_job_deps_met db_get_processing_job
check_if_job_deps_met_complete [] db h = refl
check_if_job_deps_met_complete (x ∷ ids) db h =
    let (job, s, e) = h x (inl refl) in
    let rest = check_if_job_deps_met_complete ids db (λ id m. h id (inr m)) in ground arith

-- `consume_cached_requests` returns exactly the requests of the queue of the workspace that are
-- ready, in their order, and leaves exactly the others, in their order. The other queues and the
-- counters stay as they are.
pub consume_cached_requests_lem :
    (k j : Text) (db : Database) (cache : RequestCache)
    → let (taken, after) = consume_cached_requests k db cache in
      (taken ≡ keep_if (is_ready db) (queue_of k cache))
      × (queue_of j after ≡ (
          if k == j
          then keep_if (λ request. not (is_ready db request)) (queue_of k cache)
          else queue_of j cache))
      × (after.processing_counter ≡ cache.processing_counter)
unfolding consume_cached_requests
consume_cached_requests_lem k j db cache =
    let queue = queue_of k cache in
    let waiting = keep_if (λ request. not (is_ready db request)) queue in
    ground (
      arith,
      list_beq_iff k j,
      take_out-keep_if (is_ready db) [] queue (λ x z. absurd z),
      get-put k j waiting cache.processing_requests,
      keep_if_nil (is_ready db),
      keep_if_nil (λ request. not (is_ready db request)),
    )

is_ready-eq :
    (db : Database) (request : JobInput)
    → is_ready db request ≡ check_if_job_deps_met (dependencies request) db
unfolding is_ready check_if_job_deps_met
is_ready-eq db request = ground arith

is_ready_iff :
    (db : Database) (request : JobInput) → (is_ready db request ≡ true) ↔ DependenciesMet db request
is_ready_iff db request = (
  λ h. check_if_job_deps_met_sound (dependencies request) db (sym (is_ready-eq db request) ∙ h),
  λ h. is_ready-eq db request ∙ check_if_job_deps_met_complete (dependencies request) db h,
)

-- A request need not be cached for its dependencies exactly if each of them is known to have
-- succeeded.
pub is_caching_required_iff :
    (db : Database) (request : JobInput)
    → (is_caching_required (dependencies request) db ≡ false) ↔ DependenciesMet db request
unfolding is_caching_required check_if_job_deps_met
is_caching_required_iff db request = (
  λ h. check_if_job_deps_met_sound (dependencies request) db (ground arith),
  λ h. let met = check_if_job_deps_met_complete (dependencies request) db h in ground arith,
)

-- A request is consumed exactly if it waits in the queue of the workspace and every job that it
-- depends on is known to the database and has succeeded.
pub consume_cached_requests-In :
    (k : Text) (db : Database) (cache : RequestCache) (request : JobInput)
    → In request (consume_cached_requests k db cache).0
      ↔ (In request (queue_of k cache) × DependenciesMet db request)
consume_cached_requests-In k db cache request =
    let taken = (consume_cached_requests_lem k k db cache).0 in
    (
      λ m.
          let (queued, ready) =
            In_of_keep_if (is_ready db) request (queue_of k cache) (rw taken at m) in
          (queued, (is_ready_iff db request).0 ready),
      λ m. rw taken (
          In-keep_if (is_ready db) request (queue_of k cache) m.0
            ((is_ready_iff db request).1 m.1)),
    )
