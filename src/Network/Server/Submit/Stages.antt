-- ===== src/Network/Server/Submit/Stages.antt =====
-- The stages of a new request, and what each of them leaves as it was.
use ocr_d_core.Common.{
  ◌≡◌, refl, sym, ap, subst, ◌∙◌, inl, inr, Bool, false, Option, none, some, List, [], ◌∷◌, ◌++◌,
  arith, Text, list_eq, nat_eq, list_beq_iff, Bool-cases, Option-cases,
}
use ocr_d_core.Common.Dict.{get, get-put}
use ocr_d_core.Common.Int.{ℤ, pos, ◌+ℤ◌, +ℤ_zero}
use ocr_d_core.Common.Exec.{ok, Exec, and_then-inv, Result-cases, ◌>>=◌, ◌>>◌}
use ocr_d_core.Network.Jobs.{JobInput, JobState, PageId}
use ocr_d_core.Network.Database.{ProcessorJob}
use ocr_d_core.Network.Pages.{expand_page_ids}
use ocr_d_core.Network.LockedPages.{lock_pages}
use ocr_d_core.Network.Requests.{RequestCache, update_request_counter}
use ocr_d_core.Network.Requests.Consume.{queue_of}
use ocr_d_core.Network.Server.{Server, Services, Output, workspace_key, is_set}
use ocr_d_core.Network.Server.Workspaces.{
  get_from_database_workspace, create_workspace_if_not_exists, validate_and_return_mets_path,
}
use ocr_d_core.Network.Server.Push.{push_job_to_network_agent, push_result}
use ocr_d_core.Network.Server.Submit.{
  Ids, find_workspace, count, lock_request, start_mets_server, page_ids_of, decide, admit,
}

-- The number of jobs of a workspace that were pushed; a missing counter is zero.
abbrev pub counter_of : Text → RequestCache → ℤ
counter_of key cache = elim (get key cache.processing_counter) [ none ↦ pos 0 | some n ↦ n ]

-- The request as it is admitted: with its processor and its job id.
abbrev pub admitted : Ids → Text → JobInput → JobInput
admitted ids processor_name job_input = record job_input {
  processor_name = some processor_name;
  job_id = some ids.job_id;
}

-- What the search for the workspace and the initial count leave as it was.
pub record Untouched (s t : Server) : Type 0 where
  pub locked_pages : t.locked_pages ≡ s.locked_pages
  pub queues : (key : Text) → queue_of key t.cache ≡ queue_of key s.cache
  pub counters : (key : Text) → counter_of key t.cache ≡ counter_of key s.cache
  pub db : t.db ≡ s.db
  pub pushed : t.pushed ≡ s.pushed
  pub events : t.events ≡ s.events

-- The new document of the job.
abbrev pub document : Services → JobInput → JobState → ProcessorJob
document services request state = record {
  input = request;
  internal_callback_url = services.internal_job_callback_url;
  state = state;
}

pub get_from_database_workspace-state :
    (id path : Option Text) (s : Server) → (get_from_database_workspace id path s).1 ≡ s
unfolding get_from_database_workspace
get_from_database_workspace-state id path s = ground arith

pub create_workspace-Untouched :
    (new_id : Text) (exists : Bool) (path : Option Text) (s : Server)
    → Untouched s (create_workspace_if_not_exists new_id exists path s).1
unfolding create_workspace_if_not_exists
create_workspace-Untouched new_id exists path s = record {
  locked_pages = ground arith;
  queues = λ key. ground arith;
  counters = λ key. ground arith;
  db = ground arith;
  pushed = ground arith;
  events = ground arith;
}

pub Untouched-refl : (s : Server) → Untouched s s
Untouched-refl s = record {
  locked_pages = refl;
  queues = λ key. refl;
  counters = λ key. refl;
  db = refl;
  pushed = refl;
  events = refl;
}

pub find_workspace-Untouched :
    (services : Services) (ids : Ids) (request : JobInput) (s : Server)
    → Untouched s (find_workspace services ids request s).1
unfolding find_workspace
find_workspace-Untouched services ids request s = elim (Bool-cases (is_set request.workspace_id)) [
  | inl t ↦
      let same : (find_workspace services ids request s).1 ≡ s =
        ground (arith, get_from_database_workspace-state request.workspace_id none s) in
      subst (Untouched s) (sym same) (Untouched-refl s)
  | inr f ↦
      let same : find_workspace services ids request s
          ≡ create_workspace_if_not_exists ids.workspace_id
              (elim request.path_to_mets [ none ↦ false | some path ↦ services.path_exists path ])
              request.path_to_mets s =
        rw f refl in
      rw same (create_workspace-Untouched ids.workspace_id _ request.path_to_mets s)
]

pub counter_of-count :
    (key : Text) (n : ℤ) (s : Server)
    → counter_of key (count key n s).1.cache ≡ counter_of key s.cache +ℤ n
unfolding count update_request_counter
counter_of-count key n s = ground (
  arith,
  list_beq_iff key key,
  get-put key key (counter_of key s.cache +ℤ n) s.cache.processing_counter,
)

pub counter_of-count_zero :
    (key j : Text) (s : Server) → counter_of j (count key (pos 0) s).1.cache ≡ counter_of j s.cache
unfolding count update_request_counter
counter_of-count_zero key j s = ground (
  arith,
  list_beq_iff key j,
  +ℤ_zero (counter_of key s.cache),
  get-put key j (counter_of key s.cache +ℤ pos 0) s.cache.processing_counter,
)

pub count-Untouched : (key : Text) (s : Server) → Untouched s (count key (pos 0) s).1
count-Untouched key s = record {
  locked_pages = unfold count in refl;
  queues = λ j. unfold count update_request_counter in refl;
  counters = λ j. counter_of-count_zero key j s;
  db = unfold count in refl;
  pushed = unfold count in refl;
  events = unfold count in refl;
}

pub Untouched-trans : {s t u : Server} → Untouched s t → Untouched t u → Untouched s u
Untouched-trans a b = record {
  locked_pages = b.locked_pages ∙ a.locked_pages;
  queues = λ key. b.queues key ∙ a.queues key;
  counters = λ key. b.counters key ∙ a.counters key;
  db = b.db ∙ a.db;
  pushed = b.pushed ∙ a.pushed;
  events = b.events ∙ a.events;
}

pub validate_path-state :
    (request : JobInput) (s : Server) → (validate_and_return_mets_path request s).1 ≡ s
unfolding validate_and_return_mets_path
validate_path-state request s = ground arith

pub page_ids_of-inv :
    (request : JobInput) (pages : List PageId) (s t : Server)
    → page_ids_of request s ≡ (ok pages, t)
    → (t ≡ s) × (expand_page_ids request.page_id ≡ some pages)
unfolding page_ids_of
page_ids_of-inv request pages s t h = elim (Option-cases (expand_page_ids request.page_id)) [
  | inl n ↦ absurd (ground arith)
  | inr (found, e) ↦ (ground arith, ground arith)
]

-- A run of `admit` that returns has reached its decision in a state like the first one.
pub admit-inv :
    (services : Services) (ids : Ids) (request : JobInput) (out : Output) (s t : Server)
    → admit services ids request s ≡ (ok out, t)
    → (u : Server) × (mets_path : Option Text) × (pages : List PageId) × Untouched s u
      × (expand_page_ids request.page_id ≡ some pages)
      × (decide services
            (workspace_key request.path_to_mets request.workspace_id)
            ids.job_id
            request
            mets_path
            pages
            u
          ≡ (ok out, t))
unfolding admit
admit-inv services ids request out s t h =
    let key = workspace_key request.path_to_mets request.workspace_id in
    let found : Exec Server Unit = find_workspace services ids request in
    let counted : Exec Server ℤ = found >> count key (pos 0) in
    let reached : Exec Server (Option Text) = counted >> validate_and_return_mets_path request in
    let decision : Option Text → List PageId → Exec Server Output =
      decide services key ids.job_id request in
    let (path, s3, h3, h4) =
      and_then-inv reached (λ mets_path. page_ids_of request >>= decision mets_path) s out t h in
    let (a, s2, h2, h3') =
      and_then-inv counted (λ _. validate_and_return_mets_path request) s path s3 h3 in
    let (b, s1, h1, h2') = and_then-inv found (λ _. count key (pos 0)) s a s2 h2 in
    let (pages, s4, h5, h6) = and_then-inv (page_ids_of request) (decision path) s3 out t h4 in
    let first : Untouched s s1 =
      subst (Untouched s) (ap (λ r. r.1) h1) (find_workspace-Untouched services ids request s) in
    let second : Untouched s1 s2 =
      subst (Untouched s1) (ap (λ r. r.1) h2') (count-Untouched key s1) in
    let third : s2 ≡ s3 = sym (validate_path-state request s2) ∙ ap (λ r. r.1) h3' in
    let (fourth, expanded) = page_ids_of-inv request pages s3 s4 h5 in
    let all : Untouched s s4 =
      subst (Untouched s) (third ∙ sym fourth) (Untouched-trans first second) in
    (s4, path, pages, all, expanded, h6)

pub start_mets_server-state :
    (services : Services) (request : JobInput) (mets_path : Option Text) (s : Server)
    → ((start_mets_server services request mets_path s).1.locked_pages ≡ s.locked_pages)
      × ((start_mets_server services request mets_path s).1.cache ≡ s.cache)
      × ((start_mets_server services request mets_path s).1.db ≡ s.db)
      × ((start_mets_server services request mets_path s).1.pushed ≡ s.pushed)
unfolding start_mets_server
start_mets_server-state services request mets_path s =
    (ground arith, ground arith, ground arith, ground arith)

pub push-state :
    (services : Services) (request : JobInput) (job : ProcessorJob) (out : Output) (s t : Server)
    → push_job_to_network_agent services request job s ≡ (ok out, t)
    → record s { pushed = s.pushed ++ request ∷ [] } ≡ t
unfolding push_job_to_network_agent
push-state services request job out s t h = elim (Result-cases (push_result services request job)) [
  | inl (o, e) ↦ ground arith
  | inr (x, e) ↦ absurd (ground arith)
]

pub lock_request-inv :
    (key : Text) (groups : Option (List Text)) (pages : List PageId) (s t : Server) (a : Unit)
    → lock_request key groups pages s ≡ (ok a, t)
    → (grps : List Text) × (groups ≡ some grps)
      × (record s { locked_pages = lock_pages key grps pages s.locked_pages } ≡ t)
unfolding lock_request
lock_request-inv key none pages s t a h = absurd (ground arith)
lock_request-inv key (some grps) pages s t a h = (grps, refl, ap (λ r. r.1) h)
