-- ===== src/Network/Server/Callback/Consumed.antt =====
-- Pushing the requests that were consumed: push_cached_jobs_to_agents.
use ocr_d_core.Common.{
  ◌≡◌, refl, sym, ap, subst, ◌∙◌, inl, inr, some, List, [], ◌∷◌, ◌++◌, arith, Text, list_eq, nat_eq,
  In,
}
use mathlib.Core.List.{append_assoc, append-nil}
use ocr_d_core.Common.Int.{ℤ, pos}
use ocr_d_core.Common.Exec.{ok, Exec, and_then-inv, Result-cases, ◌>>=◌, ◌>>◌}
use ocr_d_core.Network.Jobs.{JobInput, PageId, page_id_eq}
use ocr_d_core.Network.Pages.{expand_page_ids}
use ocr_d_core.Network.LockedPages.{lock_pages, requested}
use ocr_d_core.Network.LockedPages.View.{pages_of, lock_pages-In}
use ocr_d_core.Network.Requests.{update_request_counter}
use ocr_d_core.Network.Server.{Server, Services, workspace_key}
use ocr_d_core.Network.Server.Push.{push_job_to_network_agent}
use ocr_d_core.Network.Server.Submit.{count, lock_request, page_ids_of}
use ocr_d_core.Network.Server.Submit.Stages.{push-state, lock_request-inv, page_ids_of-inv}
use ocr_d_core.Network.Server.Callback.{mark_queued, push_cached_job, push_cached_jobs_to_agents}

abbrev pub key_of : JobInput → Text
key_of request = workspace_key request.path_to_mets request.workspace_id

-- One request was pushed, with the locks that it wants.
record Pushed (request : JobInput) (s t : Server) : Type 0 where
  grps : List Text
  pages : List PageId
  named : request.output_file_grps ≡ some grps
  expanded : expand_page_ids request.page_id ≡ some pages
  locked_pages : t.locked_pages ≡ lock_pages (key_of request) grps pages s.locked_pages
  pushed : t.pushed ≡ s.pushed ++ request ∷ []
  queues : t.cache.processing_requests ≡ s.cache.processing_requests

mark_queued-state :
    (request : JobInput) (s : Server)
    → ((mark_queued request s).1.locked_pages ≡ s.locked_pages)
      × ((mark_queued request s).1.pushed ≡ s.pushed)
      × ((mark_queued request s).1.cache ≡ s.cache)
unfolding mark_queued
mark_queued-state request s = (ground arith, ground arith, ground arith)

abbrev Marked : Server → Server → Type 0
Marked s u = (u.locked_pages ≡ s.locked_pages) × (u.pushed ≡ s.pushed) × (u.cache ≡ s.cache)

Pushed-by_stages :
    (request : JobInput) (grps : List Text) (pages : List PageId) (s s1 s2 s3 s4 s5 t : Server)
    → request.output_file_grps ≡ some grps
    → expand_page_ids request.page_id ≡ some pages
    → Marked s s1
    → s2 ≡ s1
    → record s2 { locked_pages = lock_pages (key_of request) grps pages s2.locked_pages } ≡ s3
    → (count (key_of request) (pos 1) s3).1 ≡ s4
    → record s4 { pushed = s4.pushed ++ request ∷ [] } ≡ s5
    → s5 ≡ t
    → Pushed request s t
Pushed-by_stages request grps pages s s1 s2 s3 s4 s5 t named expanded (l1, p1, c1) e2 e3 e4 e5 e6 =
    record {
      grps = grps;
      pages = pages;
      named = named;
      expanded = expanded;
      locked_pages =
          unfold count in
          sym (ap (λ r. r.locked_pages) (e5 ∙ e6))
          ∙ sym (ap (λ r. r.locked_pages) e4)
          ∙ sym (ap (λ r. r.locked_pages) e3)
          ∙ ap (lock_pages (key_of request) grps pages) (ap (λ r. r.locked_pages) e2 ∙ l1);
      pushed =
          unfold count in
          sym (ap (λ r. r.pushed) (e5 ∙ e6))
          ∙ ap (λ l. l ++ request ∷ [])
              (sym (ap (λ r. r.pushed) e4)
                ∙ sym (ap (λ r. r.pushed) e3)
                ∙ ap (λ r. r.pushed) e2
                ∙ p1);
      queues =
          unfold count update_request_counter in
          sym (ap (λ r. r.cache.processing_requests) (e5 ∙ e6))
          ∙ sym (ap (λ r. r.cache.processing_requests) e4)
          ∙ sym (ap (λ r. r.cache.processing_requests) e3)
          ∙ ap (λ r. r.cache.processing_requests) e2
          ∙ ap (λ c. c.processing_requests) c1;
    }

push_cached_job-Pushed :
    (services : Services) (request : JobInput) (s t : Server)
    → push_cached_job services request s ≡ (ok tt, t)
    → Pushed request s t
unfolding push_cached_job
push_cached_job-Pushed services request s t h =
    let key = key_of request in
    let expanding : Exec Server (List PageId) = page_ids_of request in
    let locking : List PageId → Exec Server Unit = lock_request key request.output_file_grps in
    let locked : Exec Server Unit = expanding >>= locking in
    let counted : Exec Server ℤ = locked >> count key (pos 1) in
    let (job, s1, h1, k1) =
      and_then-inv (mark_queued request)
        (λ job. counted >> push_job_to_network_agent services request job >> (λ u. (ok tt, u))) s tt
        t h in
    let (out, s5, h5, k5) =
      and_then-inv (counted >> push_job_to_network_agent services request job) (λ _ u. (ok tt, u))
        s1 tt t k1 in
    let (n, s4, h4, k4) =
      and_then-inv counted (λ _. push_job_to_network_agent services request job) s1 out s5 h5 in
    let (a, s3, h3, k3) = and_then-inv locked (λ _. count key (pos 1)) s1 n s4 h4 in
    let (pages, s2, h2, k2) = and_then-inv expanding locking s1 a s3 h3 in
    let (same, expanded) = page_ids_of-inv request pages s1 s2 h2 in
    let (grps, named, locks) = lock_request-inv key request.output_file_grps pages s2 s3 a k2 in
    let last = push-state services request job out s4 s5 k4 in
    let marked = subst (Marked s) (ap (λ r. r.1) h1) (mark_queued-state request s) in
    Pushed-by_stages request grps pages s s1 s2 s3 s4 s5 t named expanded marked same locks
      (ap (λ r. r.1) k3) last (ap (λ r. r.1) k5)

-- After the requests of a list were pushed without an exception: all of them were, in their order,
-- no page that was locked is free, and the pages of each of them are locked.
pub record AllPushed (jobs : List JobInput) (s t : Server) : Type 0 where
  pub pushed : t.pushed ≡ s.pushed ++ jobs
  pub queues : t.cache.processing_requests ≡ s.cache.processing_requests
  pub kept :
      (k g : Text) (p : PageId)
      → In p (pages_of k g s.locked_pages)
      → In p (pages_of k g t.locked_pages)
  pub held :
      (request : JobInput)
      → In request jobs
      → (grps : List Text) × (pages : List PageId) × (request.output_file_grps ≡ some grps)
        × (expand_page_ids request.page_id ≡ some pages)
        × ((g : Text) (p : PageId)
            → In g grps
            → In p (requested pages)
            → In p (pages_of (key_of request) g t.locked_pages))

Pushed-kept :
    (request : JobInput) (s t : Server) (k g : Text) (p : PageId)
    → Pushed request s t
    → In p (pages_of k g s.locked_pages)
    → In p (pages_of k g t.locked_pages)
Pushed-kept request s t k g p one m =
    subst (λ l. In p (pages_of k g l)) (sym one.locked_pages)
      ((lock_pages-In p (key_of request) k g one.grps one.pages s.locked_pages).1 (inl m))

Pushed-held :
    (request : JobInput) (s t : Server) (g : Text) (p : PageId) (one : Pushed request s t)
    → In g one.grps
    → In p (requested one.pages)
    → In p (pages_of (key_of request) g t.locked_pages)
Pushed-held request s t g p one a b =
    subst (λ l. In p (pages_of (key_of request) g l)) (sym one.locked_pages)
      ((lock_pages-In p (key_of request) (key_of request) g one.grps one.pages s.locked_pages).1
        (inr (refl, a, b)))

AllPushed-cons :
    (request : JobInput) (jobs : List JobInput) (s u t : Server)
    → Pushed request s u
    → AllPushed jobs u t
    → AllPushed (request ∷ jobs) s t
AllPushed-cons request jobs s u t one rest = record {
  pushed = rest.pushed ∙ ap (λ l. l ++ jobs) one.pushed ∙ append_assoc s.pushed (request ∷ []) jobs;
  queues = rest.queues ∙ one.queues;
  kept = λ k g p m. rest.kept k g p (Pushed-kept request s u k g p one m);
  held = λ r m. elim m [
    | inl e ↦
        subst
          (λ r.
            (grps : List Text) × (pages : List PageId) × (r.output_file_grps ≡ some grps)
            × (expand_page_ids r.page_id ≡ some pages)
            × ((g : Text) (p : PageId)
                → In g grps
                → In p (requested pages)
                → In p (pages_of (key_of r) g t.locked_pages)))
          (sym e)
          (
            one.grps,
            one.pages,
            one.named,
            one.expanded,
            λ g p a b. rest.kept (key_of request) g p (Pushed-held request s u g p one a b),
          )
    | inr m' ↦ rest.held r m'
  ];
}

-- If pushing the consumed requests raises no exception, then all of them were pushed, in their
-- order; the queues are as before; every page that was locked still is; and the pages of each
-- request are locked in its file groups.
pub push_cached_jobs-AllPushed :
    (services : Services) (jobs : List JobInput) (s t : Server)
    → push_cached_jobs_to_agents services jobs s ≡ (ok tt, t)
    → AllPushed jobs s t
unfolding push_cached_jobs_to_agents
push_cached_jobs-AllPushed services [] s t h = subst (AllPushed [] s) (ap (λ r. r.1) h) (record {
  pushed = sym (append-nil s.pushed);
  queues = refl;
  kept = λ k g p m. m;
  held = λ r m. absurd m;
})
push_cached_jobs-AllPushed services (request ∷ jobs) s t h =
    elim (Result-cases (push_cached_job services request s).0) [
      | inl (a, e) ↦
          let u = (push_cached_job services request s).1 in
          AllPushed-cons request jobs s u t
            (push_cached_job-Pushed services request s u (ap (λ r. (r, u)) e))
            (push_cached_jobs-AllPushed services jobs u t (ground arith))
      | inr (x, e) ↦ absurd (ground arith)
    ]
