-- ===== src/Network/Requests/Cancel/Steps.antt =====
-- The single steps of a cancellation: the search, the mark in the database, the removal.
use ocr_d_core.Common.{
  ◌≡◌, refl, subst, inl, inr, true, none, some, List, [], ◌∷◌, ◌++◌, arith, In, Text, list_eq,
  list_beq, list_beq_iff, nat_eq, Bool-cases, Option-cases, keep_if, remove, remove-perm, contains,
  ◌⊎◌, In-append, In-remove, remove-Distinct,
}
use mathlib.Core.List.Perm
use mathlib.Core.List.{append_assoc}
use ocr_d_core.Common.Dict.{get, put, has, get-put}
use ocr_d_core.Common.Exec.{ok, err, type_error}
use ocr_d_core.Network.Jobs.{JobInput, JobState, job_eq}
use ocr_d_core.Network.Database.{ProcessorJob, Database, db_update_processing_job}
use ocr_d_core.Network.Requests.{Cached, dependencies, find_dependents}
use ocr_d_core.Network.Requests.Ready.{
  DependsOn, Descends, direct, later, IsReady, IsCancelled, Cancels,
}

pub find_dependents_ok :
    (id : Text) (queue : List JobInput)
    → ((r : JobInput) → In r queue → (ids : List Text) × (r.depends_on ≡ some ids))
    → find_dependents id queue ≡ ok (keep_if (λ r. contains id (dependencies r)) queue)
unfolding find_dependents keep_if
find_dependents_ok id [] h = refl
find_dependents_ok id (r ∷ queue) h =
    let (ids, e) = h r (inl refl) in
    ground (arith, find_dependents_ok id queue (λ q m. h q (inr m)))

pub find_dependents_err :
    (id : Text) (queue : List JobInput) (r : JobInput)
    → In r queue
    → r.depends_on ≡ none
    → find_dependents id queue ≡ err type_error
unfolding find_dependents
find_dependents_err id [] r m e = absurd m
find_dependents_err id (q ∷ queue) r (inl same) e =
    let here : q.depends_on ≡ none = subst (λ (x : JobInput). x.depends_on ≡ none) same e in
    ground arith
find_dependents_err id (q ∷ queue) r (inr m) e =
    let rest = find_dependents_err id queue r m e in ground arith

-- Marking a known job as cancelled.
pub record Marks (id : Text) (db after : Database) : Type 0 where
  pub here : IsCancelled after id
  pub kept : (k : Text) → IsCancelled db k → IsCancelled after k
  pub known : (k : Text) → has k db ≡ true → has k after ≡ true

pub mark :
    (id : Text) (db : Database)
    → has id db ≡ true
    → (job : ProcessorJob) × (after : Database) × (db_update_processing_job id JobState.cancelled db
        ≡ some (job, after))
      × Marks id db after
unfolding db_update_processing_job
mark id db h = elim (Option-cases (get id db)) [
  | inl n ↦ absurd (ground arith)
  | inr (job, s) ↦
      let job' : ProcessorJob = record job { state = JobState.cancelled } in
      (
        job',
        put id job' db,
        ground arith,
        record {
          here = (job', ground (arith, get-put id id job' db, list_beq_iff id id), refl);
          kept = λ k c. elim (Bool-cases (list_beq id k)) [
            | inl t ↦ (job', ground (arith, get-put id k job' db), refl)
            | inr f ↦ (c.0, ground (arith, get-put id k job' db), c.2)
          ];
          known = λ k e. ground (arith, get-put id k job' db);
        },
      )
]

-- The state after the removal of a request and the mark on its job.
pub removed-IsReady :
    (s : Cached) (r : JobInput) (id : Text) (left : List JobInput) (after : Database)
    → IsReady s
    → remove r s.queue ≡ some left
    → Marks id s.db after
    → IsReady (record { queue = left; db = after })
removed-IsReady s r id left after ready e marks = record {
  listed = λ q m. ready.listed q (In-remove r q s.queue left e m);
  known = λ q m.
      let (k, named, found) = ready.known q (In-remove r q s.queue left e m) in
      (k, named, marks.known k found);
  distinct = (remove-Distinct r s.queue left e ready.distinct).1;
}

-- A dependent of a cancelled request is a dependent of what that one waited for.
pub Descends-trans :
    (queue left : List JobInput) (id c_id : Text) (c : JobInput) {r : JobInput}
    → ((q : JobInput) → In q left → In q queue)
    → Descends queue id c
    → c.job_id ≡ some c_id
    → Descends left c_id r
    → Descends queue id r
Descends-trans queue left id c_id c sub d named (direct m on) = later c_id d named (sub _ m) on
Descends-trans queue left id c_id c sub d named (later b_id below b_named m on) =
    later b_id (Descends-trans queue left id c_id c sub d named below) b_named (sub _ m) on

pub Descends-mono :
    (left queue : List JobInput) (id : Text) {r : JobInput}
    → ((q : JobInput) → In q left → In q queue)
    → Descends left id r
    → Descends queue id r
Descends-mono left queue id sub (direct m on) = direct (sub _ m) on
Descends-mono left queue id sub (later b_id below named m on) =
    later b_id (Descends-mono left queue id sub below) named (sub _ m) on

-- One round of the second loop: the removal of `c`, the recursive call and the further rounds.
pub Cancels-round :
    (s u t : Cached) (c : JobInput) (c_id : Text) (left jobs more : List JobInput)
    (after : Database)
    → IsReady s
    → remove c s.queue ≡ some left
    → c.job_id ≡ some c_id
    → Marks c_id s.db after
    → Cancels (record { queue = left; db = after }) jobs u
    → ((r : JobInput) → In r u.queue → ¬ DependsOn r c_id)
    → Cancels u more t
    → Cancels s (c ∷ jobs ++ more) t
Cancels-round s u t c c_id left jobs more after ready e named marks first free rest = record {
  same =
      Perm.trans (remove-perm c s.queue left e)
        (Perm.cons c (rw append_assoc (Perm.trans first.same (Perm.append_left jobs rest.same))));
  shrinks = λ r m. In-remove c r s.queue left e (first.shrinks r (rest.shrinks r m));
  closed = λ j r id m j_named q. closed_at j r id (In-append j (c ∷ jobs) more m) j_named q;
  marked = λ j id m j_named. marked_at j id (In-append j (c ∷ jobs) more m) j_named;
  kept = λ id m. rest.kept id (first.kept id (marks.kept id m));
  ready = rest.ready;
}
  where
    closed_at :
        (j r : JobInput) (id : Text)
        → In j (c ∷ jobs) ⊎ In j more
        → j.job_id ≡ some id
        → In r t.queue
        → ¬ DependsOn r id
    closed_at j r id (inl (inl same)) j_named q on =
        let id_eq : id ≡ c_id = ground (arith, same, j_named, named) in
        free r (rest.shrinks r q) (subst (DependsOn r) id_eq on)
    closed_at j r id (inl (inr m)) j_named q on =
        first.closed j r id m j_named (rest.shrinks r q) on
    closed_at j r id (inr m) j_named q on = rest.closed j r id m j_named q on

    marked_at :
        (j : JobInput) (id : Text)
        → In j (c ∷ jobs) ⊎ In j more
        → j.job_id ≡ some id
        → IsCancelled t.db id
    marked_at j id (inl (inl same)) j_named =
        let id_eq : c_id ≡ id = ground (arith, same, j_named, named) in
        subst (IsCancelled t.db) id_eq (rest.kept c_id (first.kept c_id marks.here))
    marked_at j id (inl (inr m)) j_named = rest.kept id (first.marked j id m j_named)
    marked_at j id (inr m) j_named = rest.marked j id m j_named
