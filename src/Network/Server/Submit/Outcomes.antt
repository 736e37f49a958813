-- ===== src/Network/Server/Submit/Outcomes.antt =====
-- What becomes of a new request that is answered: it waits, or it is pushed.
use ocr_d_core.Common.{
  ◌≡◌, refl, sym, ap, subst, ◌∙◌, ◌⊎◌, inl, inr, true, false, Option, some, List, [], ◌∷◌, ◌++◌,
  arith, Text, list_eq, nat_eq, list_beq_iff, true_ne_false, Bool-cases, Option-cases,
}
use ocr_d_core.Common.Dict.{get-put}
use ocr_d_core.Common.Int.{pos, ◌+ℤ◌}
use ocr_d_core.Common.Exec.{ok, Exec, and_then-inv, Result-cases, ◌>>◌}
use ocr_d_core.Network.Jobs.{JobInput, JobState, PageId}
use ocr_d_core.Network.Database.{ProcessorJob, insert_job}
use ocr_d_core.Network.Pages.{expand_page_ids}
use ocr_d_core.Network.LockedPages.{lock_pages}
use ocr_d_core.Network.LockedPages.View.{Clash}
use ocr_d_core.Network.LockedPages.Check.{check_iff-Clash}
use ocr_d_core.Network.Requests.{
  update_request_counter, cache_request, is_caching_required, dependencies,
}
use ocr_d_core.Network.Requests.Consume.{queue_of, DependenciesMet, is_caching_required_iff}
use ocr_d_core.Network.Server.{Server, Services, Output, workspace_key}
use ocr_d_core.Network.Server.Checks.{refusal}
use ocr_d_core.Network.Server.Push.{push_job_to_network_agent}
use ocr_d_core.Network.Server.Submit.{
  Ids, count, cache_current_request, has_locked_pages, lock_request, insert_request,
  cache_new_request, start_mets_server, forward_new_request, decide,
  validate_and_forward_job_to_network_agent,
}
use ocr_d_core.Network.Server.Submit.Stages.{
  counter_of, admitted, Untouched, document, counter_of-count, admit-inv, start_mets_server-state,
  push-state, lock_request-inv,
}

-- The request waits: it was put at the end of the queue of its workspace, and its job was inserted
-- as cached. Nothing was locked, pushed or started.
pub record Waits (services : Services) (key id : Text) (request : JobInput) (pages : List PageId)
    (s t : Server) : Type 0 where
  pub reason :
      (¬ DependenciesMet s.db request)
      ⊎ ((grps : List Text) × (request.output_file_grps ≡ some grps)
          × Clash key grps pages s.locked_pages)
  pub locked_pages : t.locked_pages ≡ s.locked_pages
  pub queue : queue_of key t.cache ≡ queue_of key s.cache ++ request ∷ []
  pub db : t.db ≡ insert_job id (document services request JobState.cached) s.db
  pub pushed : t.pushed ≡ s.pushed
  pub events : t.events ≡ s.events

-- The request was pushed: its dependencies are met and it does not clash. Its pages were
-- locked, its job was inserted as queued and counted.
pub record Forwarded (services : Services) (key id : Text) (request : JobInput)
    (pages : List PageId) (s t : Server) : Type 0 where
  pub grps : List Text
  pub named : request.output_file_grps ≡ some grps
  pub met : DependenciesMet s.db request
  pub free : ¬ Clash key grps pages s.locked_pages
  pub locked_pages : t.locked_pages ≡ lock_pages key grps pages s.locked_pages
  pub queues : (k : Text) → queue_of k t.cache ≡ queue_of k s.cache
  pub counter : counter_of key t.cache ≡ counter_of key s.cache +ℤ pos 1
  pub db : t.db ≡ insert_job id (document services request JobState.queued) s.db
  pub pushed : t.pushed ≡ s.pushed ++ request ∷ []

waiting_reason :
    (key : Text) (request : JobInput) (pages : List PageId) (s : Server)
    → cache_current_request key request pages s ≡ ok true
    → (¬ DependenciesMet s.db request)
      ⊎ ((grps : List Text) × (request.output_file_grps ≡ some grps)
          × Clash key grps pages s.locked_pages)
unfolding cache_current_request has_locked_pages
waiting_reason key request pages s c =
    elim (Bool-cases (is_caching_required (dependencies request) s.db)) [
      | inl t ↦ inl (λ met. true_ne_false t ((is_caching_required_iff s.db request).1 met))
      | inr f ↦ elim (Option-cases request.output_file_grps) [
        | inl n ↦ absurd (ground arith)
        | inr (grps, e) ↦
            inr (grps, e, (check_iff-Clash key grps pages s.locked_pages).0 (ground arith))
      ]
    ]

pushing_reason :
    (key : Text) (request : JobInput) (grps : List Text) (pages : List PageId) (s : Server)
    → cache_current_request key request pages s ≡ ok false
    → request.output_file_grps ≡ some grps
    → DependenciesMet s.db request × ¬ Clash key grps pages s.locked_pages
unfolding cache_current_request has_locked_pages
pushing_reason key request grps pages s c e = (
  (is_caching_required_iff s.db request).0 (ground arith),
  λ clash. ground (arith, (check_iff-Clash key grps pages s.locked_pages).1 clash),
)

cache_new_request-Waits :
    (services : Services) (key id : Text) (request : JobInput) (pages : List PageId) (out : Output)
    (s t : Server)
    → cache_current_request key request pages s ≡ ok true
    → cache_new_request services key id request s ≡ (ok out, t)
    → Waits services key id request pages s t
unfolding cache_new_request insert_request cache_request
cache_new_request-Waits services key id request pages out s t c h =
    subst (Waits services key id request pages s) (ap (λ r. r.1) h) (record {
      reason = waiting_reason key request pages s c;
      locked_pages = refl;
      queue = ground (
        arith,
        list_beq_iff key key,
        get-put key key (queue_of key s.cache ++ request ∷ []) s.cache.processing_requests,
      );
      db = refl;
      pushed = refl;
      events = refl;
    })

-- A run that pushes, by the states between its parts: `s1` with the pages locked, `s2` with the
-- METS server, `s3` with the job, `s4` with the count.
Forwarded-by_stages :
    (services : Services) (key id : Text) (request : JobInput) (grps : List Text)
    (pages : List PageId) (s s1 s2 s3 s4 t : Server)
    → request.output_file_grps ≡ some grps
    → DependenciesMet s.db request × ¬ Clash key grps pages s.locked_pages
    → record s { locked_pages = lock_pages key grps pages s.locked_pages } ≡ s1
    → (s2.locked_pages ≡ s1.locked_pages)
      × (s2.cache ≡ s1.cache)
      × (s2.db ≡ s1.db)
      × (s2.pushed ≡ s1.pushed)
    → record s2 { db = insert_job id (document services request JobState.queued) s2.db } ≡ s3
    → (count key (pos 1) s3).1 ≡ s4
    → record s4 { pushed = s4.pushed ++ request ∷ [] } ≡ t
    → Forwarded services key id request pages s t
Forwarded-by_stages services key id request grps pages s s1 s2 s3 s4 t named (met, free) locks
      (locks2, cache2, db2, pushed2) e3 e4 last =
    record {
      grps = grps;
      named = named;
      met = met;
      free = free;
      locked_pages =
          unfold count in
          sym (ap (λ r. r.locked_pages) last)
          ∙ sym (ap (λ r. r.locked_pages) e4)
          ∙ sym (ap (λ r. r.locked_pages) e3)
          ∙ locks2
          ∙ sym (ap (λ r. r.locked_pages) locks);
      queues = λ k.
          unfold count update_request_counter in
          sym (ap (λ r. queue_of k r.cache) last)
          ∙ sym (ap (λ r. queue_of k r.cache) e4)
          ∙ sym (ap (λ r. queue_of k r.cache) e3)
          ∙ ap (queue_of k) cache2
          ∙ sym (ap (λ r. queue_of k r.cache) locks);
      counter =
          sym (ap (λ r. counter_of key r.cache) last)
          ∙ sym (ap (λ r. counter_of key r.cache) e4)
          ∙ counter_of-count key (pos 1) s3
          ∙ ap (λ n. n +ℤ pos 1)
              (sym (ap (λ r. counter_of key r.cache) e3)
                ∙ ap (counter_of key) cache2
                ∙ sym (ap (λ r. counter_of key r.cache) locks));
      db =
          unfold count in
          sym (ap (λ r. r.db) last)
          ∙ sym (ap (λ r. r.db) e4)
          ∙ sym (ap (λ r. r.db) e3)
          ∙ ap (insert_job id (document services request JobState.queued))
              (db2 ∙ sym (ap (λ r. r.db) locks));
      pushed =
          unfold count in
          sym (ap (λ r. r.pushed) last)
          ∙ ap (λ l. l ++ request ∷ [])
              (sym (ap (λ r. r.pushed) e4)
                ∙ sym (ap (λ r. r.pushed) e3)
                ∙ pushed2
                ∙ sym (ap (λ r. r.pushed) locks));
    }

-- The last part of a run that pushes.
forward-inv :
    (services : Services) (key id : Text) (request : JobInput) (mets_path : Option Text)
    (pages : List PageId) (out : Output) (s t : Server)
    → cache_current_request key request pages s ≡ ok false
    → forward_new_request services key id request mets_path pages s ≡ (ok out, t)
    → Forwarded services key id request pages s t
unfolding forward_new_request insert_request
forward-inv services key id request mets_path pages out s t c h =
    let locked : Exec Server Unit = lock_request key request.output_file_grps pages in
    let started : Exec Server Unit = locked >> start_mets_server services request mets_path in
    let inserted : Exec Server ProcessorJob =
      started >> insert_request services id request JobState.queued in
    let (job, s3, h3, h4) =
      and_then-inv inserted
        (λ job. count key (pos 1) >> push_job_to_network_agent services request job) s out t h in
    let (b, s2, h2, h3') =
      and_then-inv started (λ _. insert_request services id request JobState.queued) s job s3 h3 in
    let (a, s1, h1, h2') =
      and_then-inv locked (λ _. start_mets_server services request mets_path) s b s2 h2 in
    let (n, s4, h5, h6) =
      and_then-inv (count key (pos 1)) (λ _. push_job_to_network_agent services request job) s3 out
        t h4 in
    let (grps, named, locks) = lock_request-inv key request.output_file_grps pages s s1 a h1 in
    Forwarded-by_stages services key id request grps pages s s1 s2 s3 s4 t named
      (pushing_reason key request grps pages s c named) locks
      (subst
        (λ u.
          (u.locked_pages ≡ s1.locked_pages)
          × (u.cache ≡ s1.cache)
          × (u.db ≡ s1.db)
          × (u.pushed ≡ s1.pushed))
        (ap (λ r. r.1) h2') (start_mets_server-state services request mets_path s1))
      (ap (λ r. r.1) h3') (ap (λ r. r.1) h5) (push-state services request job out s4 t h6)

Waits-Untouched :
    (services : Services) (key id : Text) (request : JobInput) (pages : List PageId)
    (s u t : Server)
    → Untouched s u
    → Waits services key id request pages u t
    → Waits services key id request pages s t
Waits-Untouched services key id request pages s u t same w = record {
  reason = elim w.reason [
    | inl n ↦ inl (λ met. n (subst (λ d. DependenciesMet d request) (sym same.db) met))
    | inr (grps, e, c) ↦ inr (grps, e, subst (Clash key grps pages) same.locked_pages c)
  ];
  locked_pages = w.locked_pages ∙ same.locked_pages;
  queue = w.queue ∙ ap (λ q. q ++ request ∷ []) (same.queues key);
  db = w.db ∙ ap (insert_job id (document services request JobState.cached)) same.db;
  pushed = w.pushed ∙ same.pushed;
  events = w.events ∙ same.events;
}

Forwarded-Untouched :
    (services : Services) (key id : Text) (request : JobInput) (pages : List PageId)
    (s u t : Server)
    → Untouched s u
    → Forwarded services key id request pages u t
    → Forwarded services key id request pages s t
Forwarded-Untouched services key id request pages s u t same f = record {
  grps = f.grps;
  named = f.named;
  met = subst (λ d. DependenciesMet d request) same.db f.met;
  free = λ c. f.free (subst (Clash key f.grps pages) (sym same.locked_pages) c);
  locked_pages = f.locked_pages ∙ ap (lock_pages key f.grps pages) same.locked_pages;
  queues = λ k. f.queues k ∙ same.queues k;
  counter = f.counter ∙ ap (λ n. n +ℤ pos 1) (same.counters key);
  db = f.db ∙ ap (insert_job id (document services request JobState.queued)) same.db;
  pushed = f.pushed ∙ ap (λ l. l ++ request ∷ []) same.pushed;
}

decide-Outcomes :
    (services : Services) (key id : Text) (request : JobInput) (mets_path : Option Text)
    (pages : List PageId) (out : Output) (s t : Server)
    → decide services key id request mets_path pages s ≡ (ok out, t)
    → Waits services key id request pages s t ⊎ Forwarded services key id request pages s t
unfolding decide
decide-Outcomes services key id request mets_path pages out s t h =
    elim (Result-cases (cache_current_request key request pages s)) [
      | inl (true, c) ↦
          inl
            (cache_new_request-Waits services key id request pages out s t c (rw (c, decide) at h))
      | inl (false, c) ↦
          inr (forward-inv services key id request mets_path pages out s t c (rw (c, decide) at h))
      | inr (x, c) ↦ absurd (ground arith)
    ]

-- Whenever a new request is answered without an error, it either waits, with nothing locked or
-- pushed, or was pushed, as `Waits` and `Forwarded` say. It is pushed only if the jobs that it
-- depends on have succeeded and none of its output file groups has the placeholder of all pages
-- locked or an entry of its list of page ids, which is empty for a request for all pages; then its
-- pages are locked and its job is counted.
pub validate_and_forward-Outcomes :
    (services : Services) (ids : Ids) (processor_name : Text) (job_input : JobInput) (out : Output)
    (s t : Server)
    → validate_and_forward_job_to_network_agent services ids processor_name job_input s
      ≡ (ok out, t)
    → (pages : List PageId) × (expand_page_ids job_input.page_id ≡ some pages)
      × (Waits services
            (workspace_key job_input.path_to_mets job_input.workspace_id)
            ids.job_id
            (admitted ids processor_name job_input)
            pages
            s
            t
          ⊎ Forwarded services
              (workspace_key job_input.path_to_mets job_input.workspace_id)
              ids.job_id
              (admitted ids processor_name job_input)
              pages
              s
              t)
unfolding validate_and_forward_job_to_network_agent
validate_and_forward-Outcomes services ids processor_name job_input out s t h =
    elim (Option-cases (
      refusal services processor_name
        (record job_input { processor_name = some processor_name }))) [
          | inr (e, r) ↦ absurd (ground arith)
          | inl n ↦
              let (u, path, pages, same, expanded, d) =
                admit-inv services ids (admitted ids processor_name job_input) out s t
                  (rw (n, validate_and_forward_job_to_network_agent) at h) in
              let key = workspace_key job_input.path_to_mets job_input.workspace_id in
              let request = admitted ids processor_name job_input in
              (
                pages,
                expanded,
                elim (decide-Outcomes services key ids.job_id request path pages out u t d) [
                  | inl w ↦ inl (Waits-Untouched services key ids.job_id request pages s u t same w)
                  | inr f ↦
                      inr (Forwarded-Untouched services key ids.job_id request pages s u t same f)
                ],
              )
        ]
