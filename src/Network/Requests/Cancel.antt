-- ===== src/Network/Requests/Cancel.antt =====
-- Cancelling the jobs that depend on a failed one: cancel_dependent_jobs.
mod Steps
use ocr_d_core.Common.{
  ◌≡◌, refl, sym, subst, ◌∙◌, inl, inr, ℕ, zero, suc, ◌<◌, ◌≤◌, Bool, true, false, none, some, List,
  [], ◌∷◌, ◌++◌, arith, In, Distinct, Text, list_eq, list_beq_iff, nat_eq, Bool-cases, Option-cases,
  is_nonempty, keep_if, remove, remove-eq_none, length-remove, In_of_remove, In-remove, In-append,
  In-keep_if, In_of_keep_if, In_of_contains, contains_of_In, remove-Distinct, length, length-append,
  Perm-length, contains, Perm,
}
use mathlib.Core.List.Perm
use ocr_d_core.Common.Exec.{ok, err, type_error}
use ocr_d_core.Network.Jobs.{JobInput, JobState, job_eq}
use ocr_d_core.Network.Database.{ProcessorJob, Database, db_update_processing_job}
use ocr_d_core.Network.Requests.{
  RequestCache, Cached, Cancelling, dependencies, find_dependents, cancel_each, cancel,
  cancel_dependent_jobs,
}
use ocr_d_core.Network.Requests.Consume.{queue_of}
use ocr_d_core.Common.Dict.{get, put, get-put, put_same}
use ocr_d_core.Network.Requests.Ready.{
  DependsOn, Descends, direct, later, IsReady, IsCancelled, Cancels,
}
use Steps.{
  find_dependents_ok, find_dependents_err, mark, removed-IsReady, Descends-trans, Descends-mono,
  Cancels-round,
}

-- What a call does on every queue that is shorter than `n`.
abbrev Works : ℕ → (Text → Cancelling) → Type 0
Works n call =
    (id : Text) (s : Cached)
    → IsReady s
    → length s.queue < n
    → (jobs : List JobInput) × (t : Cached) × (call id s ≡ some (ok jobs, t))
      × Cancels s jobs t
      × ((r : JobInput) → In r t.queue → ¬ DependsOn r id)
      × ((r : JobInput) → In r jobs → Descends s.queue id r)

-- The same for the second loop on `found`, which are dependents of `id`.
abbrev LoopWorks : Text → List JobInput → Cached → (Text → Cancelling) → Type 0
LoopWorks id found s call =
    (jobs : List JobInput) × (t : Cached) × (cancel_each call found s ≡ some (ok jobs, t))
    × Cancels s jobs t
    × ((r : JobInput) → In r found → ¬ In r t.queue)
    × ((r : JobInput) → In r jobs → Descends s.queue id r)

-- What is left is not longer.
length-shrinks :
    (s t : Cached) (jobs : List JobInput)
    → Perm s.queue (jobs ++ t.queue)
    → length t.queue ≤ length s.queue
length-shrinks s t jobs p = omega (arith, Perm-length p, length-append jobs t.queue)

nothing-Cancels : (s : Cached) → IsReady s → Cancels s [] s
nothing-Cancels s ready = record {
  same = Perm.rfl;
  shrinks = λ r m. m;
  closed = λ j r id m. absurd m;
  marked = λ j id m. absurd m;
  kept = λ id m. m;
  ready = ready;
}

-- The result of such a round.
cancel_each-round :
    (call : Text → Cancelling) (c : JobInput) (found left jobs more : List JobInput) (c_id : Text)
    (job : ProcessorJob) (after : Database) (s u t : Cached)
    → remove c s.queue ≡ some left
    → c.job_id ≡ some c_id
    → db_update_processing_job c_id JobState.cancelled s.db ≡ some (job, after)
    → call c_id (record { queue = left; db = after }) ≡ some (ok jobs, u)
    → cancel_each call found u ≡ some (ok more, t)
    → cancel_each call (c ∷ found) s ≡ some (ok (c ∷ jobs ++ more), t)
unfolding cancel_each
cancel_each-round call c found left jobs more c_id job after s u t e named updated called looped =
    ground arith

module _ (n : ℕ) (call : Text → Cancelling) (works : Works n call) (id : Text) where
  -- A round that removes `c`, given the further rounds.
  cancel_round :
      (c : JobInput) (found left : List JobInput) (s : Cached)
      → IsReady s
      → length s.queue ≤ n
      → DependsOn c id
      → remove c s.queue ≡ some left
      → ((u : Cached) → IsReady u → length u.queue ≤ n → LoopWorks id found u call)
      → LoopWorks id (c ∷ found) s call
  cancel_round c found left s ready short on e rest =
      let (c_id, named, known) = ready.known c (In_of_remove c s.queue left e) in
      let (job, after, updated, marks) = mark c_id s.db known in
      let v : Cached = record { queue = left; db = after } in
      let shorter = length-remove c s.queue left e in
      let (jobs, u, called, first, free, below) =
        works c_id v (removed-IsReady s c c_id left after ready e marks) (omega (arith, shorter)) in
      let u_short : length u.queue ≤ n =
        omega (arith, shorter, length-shrinks v u jobs first.same) in
      let (more, t, looped, second, gone, because) = rest u first.ready u_short in
      let c_below : Descends s.queue id c = direct (In_of_remove c s.queue left e) on in
      (
        c ∷ jobs ++ more,
        t,
        cancel_each-round call c found left jobs more c_id job after s u t e named updated called
            looped,
        Cancels-round s u t c c_id left jobs more after ready e named marks first free second,
        λ r m q. elim m [
          | inl same ↦
              (remove-Distinct c s.queue left e ready.distinct).0
                (first.shrinks c (second.shrinks c (rw same at q)))
          | inr m' ↦ gone r m' q
        ],
        λ r m. elim (In-append r (c ∷ jobs) more m) [
          | inl (inl same) ↦ rw same c_below
          | inl (inr m') ↦
              Descends-trans s.queue left id c_id c (λ x h. In-remove c x s.queue left e h) c_below
                named (below r m')
          | inr m' ↦
              Descends-mono u.queue s.queue id
                (λ x h. In-remove c x s.queue left e (first.shrinks x h)) (because r m')
        ],
      )

  cancel_each-LoopWorks :
      (found : List JobInput) (s : Cached)
      → IsReady s
      → length s.queue ≤ n
      → ((r : JobInput) → In r found → DependsOn r id)
      → LoopWorks id found s call
  unfolding cancel_each
  cancel_each-LoopWorks [] s ready short on =
      ([], s, refl, nothing-Cancels s ready, λ r m. absurd m, λ r m. absurd m)
  cancel_each-LoopWorks (c ∷ found) s ready short on = elim (Option-cases (remove c s.queue)) [
    | inl absent ↦
        let (jobs, t, e, cancels, gone, because) =
          cancel_each-LoopWorks found s ready short (λ r m. on r (inr m)) in
        (
          jobs,
          t,
          rw (absent, cancel_each) e,
          cancels,
          λ r m q. elim m [
            | inl same ↦ remove-eq_none c s.queue absent (cancels.shrinks c (rw same at q))
            | inr m' ↦ gone r m' q
          ],
          because,
        )
    | inr (left, e) ↦
        cancel_round c found left s ready short (on c (inl refl)) e
          (λ u r l. cancel_each-LoopWorks found u r l (λ q m. on q (inr m)))
  ]

cancel-Works : (n : ℕ) → Works n (cancel n)
unfolding cancel
cancel-Works zero id s ready short = absurd (omega arith)
cancel-Works (suc n) id s ready short =
    let found = keep_if (λ r. contains id (dependencies r)) s.queue in
    let on = λ (r : JobInput) (m : In r found).
      In_of_contains id (dependencies r) (In_of_keep_if _ r s.queue m).1 in
    let (jobs, t, e, cancels, gone, because) =
      cancel_each-LoopWorks n (cancel n) (cancel-Works n) id found s ready (omega arith) on in
    (
      jobs,
      t,
      rw (find_dependents_ok id s.queue ready.listed, cancel) e,
      cancels,
      λ r m o.
          gone r
            (In-keep_if _ r s.queue (cancels.shrinks r m) (contains_of_In id (dependencies r) o)) m,
      because,
    )

abbrev pub cached_at : Text → Database → RequestCache → Cached
cached_at k db cache = record { queue = queue_of k cache; db = db }

-- What `cancel_dependent_jobs` does for the workspace `k` and the job `id`: it returns `jobs`, and
-- leaves the database `after` and the cache `left`.
pub record Outcome (k id : Text) (db : Database) (cache : RequestCache) (jobs : List JobInput)
    (after : Database) (left : RequestCache) : Type 0 where
  pub cancels : Cancels (cached_at k db cache) jobs (cached_at k after left)
  pub free : (r : JobInput) → In r (queue_of k left) → ¬ DependsOn r id
  pub because : (r : JobInput) → In r jobs → Descends (queue_of k cache) id r
  pub others : (j : Text) → ¬ (k ≡ j) → queue_of j left ≡ queue_of j cache
  pub counters : left.processing_counter ≡ cache.processing_counter

empty-In : (queue : List JobInput) (r : JobInput) → is_nonempty queue ≡ false → ¬ In r queue
empty-In [] r e m = m
empty-In (x ∷ queue) r e m = cc

-- With enough fuel, one more than the length of the queue, the recursion returns, on every queue in
-- which no request occurs twice and each has a list of dependencies and the id of a job that the
-- database knows. The cancelled requests and those left in the queue are together the old queue. A
-- request is cancelled only if it waited for the job, directly or through others; nothing that is
-- left depends on the job or on a cancelled one; the database marks every cancelled job. Other
-- queues and the counters are unchanged.
pub cancel_dependent_jobs-Outcome :
    (fuel : ℕ) (k id : Text) (db : Database) (cache : RequestCache)
    → IsReady (cached_at k db cache)
    → length (queue_of k cache) < fuel
    → (jobs : List JobInput) × (after : Database) × (left : RequestCache) × (cancel_dependent_jobs
          fuel k id db cache
        ≡ some (ok jobs, after, left))
      × Outcome k id db cache jobs after left
unfolding cancel_dependent_jobs
cancel_dependent_jobs-Outcome zero k id db cache ready short = absurd (omega arith)
cancel_dependent_jobs-Outcome (suc fuel) k id db cache ready short =
    elim (Bool-cases (is_nonempty (queue_of k cache))) [
      | inl some_queue ↦
          let (jobs, t, e, cancels, free, because) =
            cancel-Works (suc fuel) id (cached_at k db cache) ready short in
          let left : RequestCache = record cache {
            processing_requests = put k t.queue cache.processing_requests;
          } in
          let same : queue_of k left ≡ t.queue =
            ground (arith, get-put k k t.queue cache.processing_requests, list_beq_iff k k) in
          let as_t : cached_at k t.db left ≡ t = λ i. record { queue = same i; db = t.db } in
          (
            jobs,
            t.db,
            left,
            ground arith,
            record {
              cancels = subst (Cancels (cached_at k db cache) jobs) (sym as_t) cancels;
              free = λ r m. free r (rw same at m);
              because = because;
              others = λ j ne.
                  ground (arith, get-put k j t.queue cache.processing_requests, list_beq_iff k j);
              counters = refl;
            },
          )
      | inr empty ↦ (
        [],
        db,
        cache,
        ground arith,
        record {
          cancels = nothing-Cancels (cached_at k db cache) ready;
          free = λ r m. absurd (empty-In (queue_of k cache) r empty m);
          because = λ r m. absurd m;
          others = λ j ne. refl;
          counters = refl;
        },
      )
    ]

-- If one request of the queue has no list of dependencies, which is what the model of a request
-- gives by default, then every cancellation raises TypeError and changes nothing, whatever depends
-- on the job.
pub cancel_dependent_jobs_raises :
    (fuel : ℕ) (k id : Text) (db : Database) (cache : RequestCache) (r : JobInput)
    → In r (queue_of k cache)
    → r.depends_on ≡ none
    → cancel_dependent_jobs (suc fuel) k id db cache ≡ some (err type_error, db, cache)
unfolding cancel_dependent_jobs cancel
cancel_dependent_jobs_raises fuel k id db cache r m unlisted =
    elim (Option-cases (get k cache.processing_requests)) [
      | inl n ↦ let no_queue : queue_of k cache ≡ [] = ground arith in absurd (rw no_queue at m)
      | inr (queue, s) ↦
          let here : queue_of k cache ≡ queue = ground arith in
          ground (
            arith,
            find_dependents_err id queue r (rw here at m) unlisted,
            put_same k queue cache.processing_requests,
            empty-In queue r,
            (rw here at m),
          )
    ]
