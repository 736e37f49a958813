-- ===== src/Network/Requests/Ready.antt =====
-- The dependents of a job in a queue, and the state in which a queue can be cancelled.
use ocr_d_core.Common.{◌≡◌, true, some, List, In, Distinct, Text, list_eq, nat_eq, Perm, ◌++◌}
use ocr_d_core.Common.Dict.{get, has}
use ocr_d_core.Network.Jobs.{JobInput, JobState}
use ocr_d_core.Network.Database.{ProcessorJob, Database}
use ocr_d_core.Network.Requests.{Cached, dependencies}

abbrev pub DependsOn : JobInput → Text → Type 0
DependsOn request id = In id (dependencies request)

-- `request` waits in the queue for the job `id`, directly or through other requests of the queue.
pub data Descends (queue : List JobInput) (id : Text) : JobInput → Type 0 where
  direct :
      {request : JobInput} → In request queue → DependsOn request id → Descends queue id request
  later :
      {between request : JobInput} (between_id : Text)
      → Descends queue id between
      → between.job_id ≡ some between_id
      → In request queue
      → DependsOn request between_id
      → Descends queue id request

-- Each request of the queue has a list of dependencies and a job id that the database knows, and
-- no request occurs twice.
pub record IsReady (s : Cached) : Type 0 where
  pub listed : (r : JobInput) → In r s.queue → (ids : List Text) × (r.depends_on ≡ some ids)
  pub known :
      (r : JobInput) → In r s.queue → (id : Text) × (r.job_id ≡ some id) × (has id s.db ≡ true)
  pub distinct : Distinct s.queue

-- The job `id` is marked as cancelled.
abbrev pub IsCancelled : Database → Text → Type 0
IsCancelled db id = (job : ProcessorJob) × (get id db ≡ some job) × (job.state ≡ JobState.cancelled)

-- What a cancellation did: `jobs` are the cancelled requests.
pub record Cancels (s : Cached) (jobs : List JobInput) (t : Cached) : Type 0 where
  -- No request is lost or made up.
  pub same : Perm s.queue (jobs ++ t.queue)
  -- What is left was there before.
  pub shrinks : (r : JobInput) → In r t.queue → In r s.queue
  -- Nothing that is left depends on a cancelled job.
  pub closed :
      (j r : JobInput) (id : Text)
      → In j jobs
      → j.job_id ≡ some id
      → In r t.queue
      → ¬ DependsOn r id
  -- The database marks the cancelled jobs, and those that it marked before.
  pub marked : (j : JobInput) (id : Text) → In j jobs → j.job_id ≡ some id → IsCancelled t.db id
  pub kept : (id : Text) → IsCancelled s.db id → IsCancelled t.db id
  pub ready : IsReady t
