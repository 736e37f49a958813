-- ===== src/Tests/Cached.antt =====
-- The theorems on cached requests, at concrete inputs.
use ocr_d_core.Common.{
  ◌≡◌, refl, ap, inl, inr, ◌↔◌, some, List, [], ◌∷◌, In, not, ◌<◌, arith, list_eq, nat_eq, keep_if,
  length, true_ne_false, option_eq, if◌then◌else◌, ◌==◌,
}
use ocr_d_core.Common.Exec.{ok}
use ocr_d_core.Common.Dict.{get}
use ocr_d_core.Network.Jobs.{JobInput, JobState}
use ocr_d_core.Network.Database.{Database}
use ocr_d_core.Network.Requests.{
  RequestCache, is_ready, consume_cached_requests, cancel_dependent_jobs,
}
use ocr_d_core.Network.Requests.Ready.{IsReady}
use ocr_d_core.Network.Requests.Consume.{
  queue_of, DependenciesMet, consume_cached_requests_lem, consume_cached_requests-In,
}
use ocr_d_core.Network.Requests.Cancel.{cached_at, Outcome, cancel_dependent_jobs-Outcome}
use ocr_d_core.Tests.Data.{
  path, id_1, id_2, id_3, request_2, request_3, unlisted, database, cache_of,
}

abbrev waiting : RequestCache
waiting = cache_of (request_2 ∷ request_3 ∷ [])

abbrev done : Database
done = database JobState.success

consume_cached_requests_lem_example :
    ((consume_cached_requests path done waiting).0
      ≡ keep_if (is_ready done) (queue_of path waiting))
    × (queue_of path (consume_cached_requests path done waiting).1 ≡ (
        if path == path
        then keep_if (λ request. not (is_ready done request)) (queue_of path waiting)
        else queue_of path waiting))
    × ((consume_cached_requests path done waiting).1.processing_counter
        ≡ waiting.processing_counter)
consume_cached_requests_lem_example = consume_cached_requests_lem path path done waiting

consume_cached_requests-In_example :
    In request_2 (consume_cached_requests path done waiting).0
    ↔ (In request_2 (queue_of path waiting) × DependenciesMet done request_2)
consume_cached_requests-In_example = consume_cached_requests-In path done waiting request_2

queued : queue_of path waiting ≡ request_2 ∷ request_3 ∷ []
unfolding get
queued = refl

different : ¬ (request_2 ≡ request_3)
different e = true_ne_false refl (ap (λ r. r.depends_on == some (id_1 ∷ [])) e)

waiting-IsReady : IsReady (cached_at path (database JobState.failed) waiting)
unfolding get
waiting-IsReady = record {
  listed = λ r m. elim m [
    | inl e ↦ (id_1 ∷ [], ap (λ q. q.depends_on) e)
    | inr (inl e) ↦ (id_2 ∷ [], ap (λ q. q.depends_on) e)
    | inr (inr z) ↦ absurd z
  ];
  known = λ r m. elim m [
    | inl e ↦ (id_2, ap (λ q. q.job_id) e, refl)
    | inr (inl e) ↦ (id_3, ap (λ q. q.job_id) e, refl)
    | inr (inr z) ↦ absurd z
  ];
  distinct = (λ m. elim m [ inl e ↦ different e | inr z ↦ z ], (λ m. m, tt));
}

short : length (queue_of path waiting) < 3
short = rw queued (omega arith)

cancel_dependent_jobs-Outcome_example :
    (jobs : List JobInput) × (after : Database) × (left : RequestCache) × (cancel_dependent_jobs 3
        path id_1
        (database JobState.failed)
        waiting
      ≡ some (ok jobs, after, left))
    × Outcome path id_1 (database JobState.failed) waiting jobs after left
cancel_dependent_jobs-Outcome_example =
    cancel_dependent_jobs-Outcome 3 path id_1 (database JobState.failed) waiting waiting-IsReady
      short

abbrev with_unlisted : RequestCache
with_unlisted = cache_of (request_2 ∷ unlisted ∷ [])

unlisted-In : In unlisted (queue_of path with_unlisted)
unfolding get
unlisted-In = inr (inl refl)
