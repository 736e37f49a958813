-- ===== src/Network/Server/Workflow/Dependencies.antt =====
-- The dependencies between the jobs of a workflow: task_sequence_to_processing_jobs.
use ocr_d_core.Common.{
  ◌≡◌, refl, sym, ap, ◌∙◌, ◌↔◌, inl, inr, some, List, [], ◌∷◌, arith, In, Text, list_eq,
  list_beq_iff, nat_eq, contains, if◌then◌else◌, Option-cases,
}
use ocr_d_core.Common.Dict.{get, put, get-put}
use ocr_d_core.Common.Exec.{ok}
use ocr_d_core.Network.Server.{JobOutput, job_output}
use ocr_d_core.Network.Server.Workflow.{GroupCache, dependent_jobs, remember}

-- What is remembered of a job, once it has an id.
remember_runs :
    (output : JobOutput) (id : Text) (grps : List Text) (cache : GroupCache)
    → output.job_id ≡ some id
    → (known : GroupCache) × (remember (job_output output) grps cache ≡ ok known)
      × ((g : Text) → get g known ≡ (if contains g grps then some id else get g cache))
unfolding remember contains
remember_runs output id [] cache e = (cache, refl, λ g. refl)
remember_runs output id (h ∷ grps) cache e =
    let (known, runs, gets) = remember_runs output id grps (put h id cache) e in
    (
      known,
      rw (e, remember) runs,
      λ g. ground (arith, gets g, get-put h g id cache, list_beq_iff h g, list_beq_iff g h),
    )

dependent_jobs-In :
    (inputs : List Text) (cache : GroupCache) (id : Text)
    → In id (dependent_jobs inputs cache) ↔ ((g : Text) × In g inputs × (get g cache ≡ some id))
unfolding dependent_jobs
dependent_jobs-In [] cache id = (λ m. absurd m, λ (g, m, e). m)
dependent_jobs-In (h ∷ inputs) cache id =
    let rest = dependent_jobs-In inputs cache id in
    elim (Option-cases (get h cache)) [
      | inl n ↦
          let skips : dependent_jobs (h ∷ inputs) cache ≡ dependent_jobs inputs cache =
            ground arith in
          rw (skips) (
            λ m. let (g, a, b) = rest.0 m in (g, inr a, b),
            λ (g, a, b). elim a [ inl same ↦ absurd (ground arith) | inr a' ↦ rest.1 (g, a', b) ],
          )
      | inr (j, e) ↦
          let takes : dependent_jobs (h ∷ inputs) cache ≡ j ∷ dependent_jobs inputs cache =
            ground arith in
          rw (takes) (
            λ m. elim m [
              | inl same ↦ (h, inl refl, e ∙ ap some (sym same))
              | inr m' ↦ let (g, a, b) = rest.0 m' in (g, inr a, b)
            ],
            λ (g, a, b). elim a [
              | inl same ↦ inl (ground arith)
              | inr a' ↦ inr (rest.1 (g, a', b))
            ],
          )
    ]

-- After a job is remembered as the maker of its output file groups, a later task depends exactly on
-- that job, if it reads one of these groups, and on the jobs that made the other groups that it
-- reads.
pub dependent_jobs-remember :
    (output : JobOutput) (id other : Text) (grps inputs : List Text) (cache : GroupCache)
    → output.job_id ≡ some id
    → (known : GroupCache) × (remember (job_output output) grps cache ≡ ok known)
      × (In other (dependent_jobs inputs known) ↔ (
          (g : Text) × In g inputs
          × ((if contains g grps then some id else get g cache) ≡ some other)))
dependent_jobs-remember output id other grps inputs cache e =
    let (known, runs, gets) = remember_runs output id grps cache e in
    let depends = dependent_jobs-In inputs known other in
    (
      known,
      runs,
      (
        λ m. let (g, a, b) = depends.0 m in (g, a, sym (gets g) ∙ b),
        λ (g, a, b). depends.1 (g, a, gets g ∙ b),
      ),
    )
