-- ===== src/Network/Server/Workflow/Status.antt =====
-- The state of a workflow: _produce_workflow_status_simple_response.
use ocr_d_core.Common.{
  ◌≡◌, refl, ◌↔◌, ◌⊎◌, inl, inr, ℕ, suc, ◌+◌, ◌≤◌, Bool, not, true, false, List, [], ◌∷◌, arith, In,
  length, if◌then◌else◌, nat_beq, Bool-cases,
}
use ocr_d_core.Network.Jobs.{JobState, cached, cancelled, failed, queued, running, success, unset}
use ocr_d_core.Network.Database.{ProcessorJob}

-- The variables of the loop: the state of the workflow and `success_jobs`. `break` leaves the loop.
unfoldable pub status_loop : JobState → ℕ → List ProcessorJob → JobState × ℕ
status_loop workflow_job_state success_jobs [] = (workflow_job_state, success_jobs)
status_loop workflow_job_state success_jobs (p_job ∷ processing_jobs) = elim p_job.state [
  | cached ↦ status_loop workflow_job_state success_jobs processing_jobs
  | queued ↦ status_loop workflow_job_state success_jobs processing_jobs
  | failed ↦ (failed, success_jobs)
  | cancelled ↦ (failed, success_jobs)
  | running ↦ status_loop running success_jobs processing_jobs
  | success ↦ status_loop workflow_job_state (suc success_jobs) processing_jobs
  | unset ↦ status_loop workflow_job_state success_jobs processing_jobs
]

-- `_produce_workflow_status_simple_response`
unfoldable pub produce_workflow_status_simple_response : List ProcessorJob → JobState
produce_workflow_status_simple_response processing_jobs =
    let (workflow_job_state, success_jobs) = status_loop unset 0 processing_jobs in
    if nat_beq (length processing_jobs) success_jobs then success else workflow_job_state

abbrev is_broken : JobState → Bool
is_broken failed = true
is_broken cancelled = true
is_broken _ = false

abbrev is_running : JobState → Bool
is_running running = true
is_running _ = false

abbrev is_other : JobState → Bool
is_other success = false
is_other _ = true

-- Whether the state of a job fulfils `p`.
unfoldable any_job : (JobState → Bool) → List ProcessorJob → Bool
any_job p [] = false
any_job p (job ∷ jobs) = let rest = any_job p jobs in if p job.state then true else rest

status_loop-state :
    (state : JobState) (n : ℕ) (jobs : List ProcessorJob)
    → (status_loop state n jobs).0 ≡ (
        if any_job is_broken jobs
        then failed
        else if any_job is_running jobs
        then running
        else state)
unfolding status_loop any_job
status_loop-state state n [] = refl
status_loop-state state n (job ∷ jobs) = ground (
  arith,
  status_loop-state state n jobs,
  status_loop-state running n jobs,
  status_loop-state state (suc n) jobs,
)

status_loop-at_most :
    (state : JobState) (n : ℕ) (jobs : List ProcessorJob)
    → (status_loop state n jobs).1 ≤ n + length jobs
unfolding status_loop
status_loop-at_most state n [] = omega arith
status_loop-at_most state n (job ∷ jobs) = ground (
  arith,
  status_loop-at_most state n jobs,
  status_loop-at_most running n jobs,
  status_loop-at_most state (suc n) jobs,
)

status_loop-count :
    (state : JobState) (n : ℕ) (jobs : List ProcessorJob)
    → nat_beq (n + length jobs) (status_loop state n jobs).1 ≡ not (any_job is_other jobs)
unfolding status_loop any_job
status_loop-count state n [] = ground arith
status_loop-count state n (job ∷ jobs) = ground (
  arith,
  status_loop-at_most state n jobs,
  status_loop-at_most running n jobs,
  status_loop-count state (suc n) jobs,
)

state_by_tests :
    (jobs : List ProcessorJob)
    → produce_workflow_status_simple_response jobs ≡ (
        if not (any_job is_other jobs)
        then success
        else if any_job is_broken jobs
        then failed
        else if any_job is_running jobs
        then running
        else unset)
unfolding produce_workflow_status_simple_response
state_by_tests jobs = ground (arith, status_loop-count unset 0 jobs, status_loop-state unset 0 jobs)

-- A job of the list has a state that fulfils `P`.
abbrev pub SomeJob : (JobState → Type 0) → List ProcessorJob → Type 0
SomeJob P jobs = (job : ProcessorJob) × In job jobs × P job.state

abbrev pub IsBroken : JobState → Type 0
IsBroken state = (state ≡ failed) ⊎ (state ≡ cancelled)

any_job-true :
    (p : JobState → Bool) (jobs : List ProcessorJob)
    → any_job p jobs ≡ true
    → SomeJob (λ state. p state ≡ true) jobs
unfolding any_job
any_job-true p [] h = absurd (ground arith)
any_job-true p (job ∷ jobs) h = elim (Bool-cases (p job.state)) [
  | inl t ↦ (job, inl refl, t)
  | inr f ↦ let (other, m, t) = any_job-true p jobs (ground arith) in (other, inr m, t)
]

any_job-In :
    (p : JobState → Bool) (jobs : List ProcessorJob) (job : ProcessorJob)
    → In job jobs
    → p job.state ≡ true
    → any_job p jobs ≡ true
unfolding any_job
any_job-In p [] job m h = absurd m
any_job-In p (j ∷ jobs) job m h = ground (arith, any_job-In p jobs job)

IsBroken-iff : (state : JobState) → (is_broken state ≡ true) ↔ IsBroken state
IsBroken-iff state = (λ h. ground arith, λ h. ground arith)

any-IsBroken_iff :
    (jobs : List ProcessorJob) → (any_job is_broken jobs ≡ true) ↔ SomeJob IsBroken jobs
any-IsBroken_iff jobs = (
  λ h. let (job, m, t) = any_job-true is_broken jobs h in (job, m, (IsBroken-iff job.state).0 t),
  λ (job, m, b). any_job-In is_broken jobs job m ((IsBroken-iff job.state).1 b),
)

any_running_iff :
    (jobs : List ProcessorJob)
    → (any_job is_running jobs ≡ true) ↔ SomeJob (λ state. state ≡ running) jobs
any_running_iff jobs = (
  λ h. let (job, m, t) = any_job-true is_running jobs h in (job, m, ground arith),
  λ (job, m, b). any_job-In is_running jobs job m (ground arith),
)

broken-other :
    (jobs : List ProcessorJob) → any_job is_broken jobs ≡ true → any_job is_other jobs ≡ true
broken-other jobs h =
    let (job, m, t) = any_job-true is_broken jobs h in any_job-In is_other jobs job m (ground arith)

running-other :
    (jobs : List ProcessorJob) → any_job is_running jobs ≡ true → any_job is_other jobs ≡ true
running-other jobs h =
    let (job, m, t) = any_job-true is_running jobs h in
    any_job-In is_other jobs job m (ground arith)

no_other_iff :
    (jobs : List ProcessorJob)
    → (any_job is_other jobs ≡ false) ↔ ((job : ProcessorJob) → In job jobs → job.state ≡ success)
no_other_iff jobs = (
  λ h job m. ground (arith, any_job-In is_other jobs job m),
  λ all. elim (Bool-cases (any_job is_other jobs)) [
    | inr f ↦ f
    | inl t ↦ let (job, m, o) = any_job-true is_other jobs t in ground (arith, all job m)
  ],
)

-- The state of a workflow, for its jobs: success exactly if all of them have succeeded (as when
-- there are none); failed exactly if one has failed or was cancelled, wherever it stands; running
-- exactly if one is running and none has failed or was cancelled; and else unset.
pub produce_workflow_status_simple_response_lem :
    (jobs : List ProcessorJob)
    → ((produce_workflow_status_simple_response jobs ≡ success)
        ↔ ((job : ProcessorJob) → In job jobs → job.state ≡ success))
      × ((produce_workflow_status_simple_response jobs ≡ failed) ↔ SomeJob IsBroken jobs)
      × ((produce_workflow_status_simple_response jobs ≡ running)
          ↔ (SomeJob (λ state. state ≡ running) jobs × ¬ SomeJob IsBroken jobs))
      × ((produce_workflow_status_simple_response jobs ≡ success)
          ⊎ (produce_workflow_status_simple_response jobs ≡ failed)
          ⊎ (produce_workflow_status_simple_response jobs ≡ running)
          ⊎ (produce_workflow_status_simple_response jobs ≡ unset))
produce_workflow_status_simple_response_lem jobs =
    let e = state_by_tests jobs in
    let other = no_other_iff jobs in
    let broken = any-IsBroken_iff jobs in
    let going = any_running_iff jobs in
    (
      (λ h. other.0 (ground (arith, e)), λ all. ground (arith, e, other.1 all)),
      (λ h. broken.0 (ground (arith, e)), λ b. ground (arith, e, broken.1 b, broken-other jobs)),
      (
        λ h.
            (going.0 (ground (arith, e)), λ b. ground (arith, e, broken.1 b, h, broken-other jobs)),
        λ (r, free). elim (Bool-cases (any_job is_broken jobs)) [
          | inl t ↦ absurd (free (broken.0 t))
          | inr f ↦ ground (arith, e, going.1 r, running-other jobs)
        ],
      ),
      ground (arith, e),
    )
