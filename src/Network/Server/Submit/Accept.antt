-- ===== src/Network/Server/Submit/Accept.antt =====
-- Requests that are let through, and the search for their workspaces.
use ocr_d_core.Common.{
  ◌≡◌, refl, sym, ap, ◌∙◌, ◌⊎◌, inl, inr, Bool, true, false, if◌then◌else◌, Option, none, some,
  List, [], ◌∷◌, ◌++◌, arith, Text, list_eq, nat_eq, list_beq_iff, Option-cases,
}
use ocr_d_core.Common.Exec.{ok}
use ocr_d_core.Network.Jobs.{JobInput, PageId}
use ocr_d_core.Network.Pages.{expand_page_ids}
use ocr_d_core.Network.Server.{Server, Services, Workspace, workspace_key, is_set}
use ocr_d_core.Network.Server.Workspaces.{
  find_one, has_path, has_id, save_url, get_from_database_workspace, db_get_workspace,
  db_update_workspace, create_workspace_if_not_exists, validate_and_return_mets_path,
}
use ocr_d_core.Network.Server.Checks.{refusal}
use ocr_d_core.Network.Server.Submit.{Ids, find_workspace}
use ocr_d_core.Network.Server.Submit.Stages.{admitted}

-- A request by the path of a METS file, which exists.
pub record ByPath (services : Services) (job_input : JobInput) (key : Text) : Type 0 where
  pub no_workspace : is_set job_input.workspace_id ≡ false
  pub with_path : job_input.path_to_mets ≡ some key
  pub path_is_set : is_set (some key) ≡ true
  pub exists : services.path_exists key ≡ true

-- A request by the id of a workspace that the database knows.
pub record ById (job_input : JobInput) (key : Text) (s : Server) : Type 0 where
  pub no_path : is_set job_input.path_to_mets ≡ false
  pub with_id : job_input.workspace_id ≡ some key
  pub id_is_set : is_set (some key) ≡ true
  pub workspace : Workspace
  pub known : db_get_workspace (some key) none s.workspaces ≡ some workspace

-- A request that passes the checks, by a path or by the id of a workspace, whose page ids can be
-- expanded and which has a list of output file groups.
pub record IsAcceptable (services : Services) (processor_name : Text) (job_input : JobInput)
    (key : Text) (grps : List Text) (pages : List PageId) (s : Server) : Type 0 where
  pub passes :
      refusal services processor_name (record job_input { processor_name = some processor_name })
      ≡ none
  pub source : ByPath services job_input key ⊎ ById job_input key s
  pub expands : expand_page_ids job_input.page_id ≡ some pages
  pub names : job_input.output_file_grps ≡ some grps

find_one-append :
    (p : Workspace → Bool) (ws : List Workspace) (w : Workspace)
    → find_one p ws ≡ none
    → p w ≡ true
    → find_one p (ws ++ w ∷ []) ≡ some w
unfolding find_one
find_one-append p [] w n h = ground arith
find_one-append p (v ∷ ws) w n h = ground (arith, find_one-append p ws w)

-- What the search for the workspace leads to.
pub record Located (services : Services) (ids : Ids) (request : JobInput) (key : Text) (s : Server)
    : Type 0 where
  pub workspaces : List Workspace
  pub mets_path : Option Text
  pub saved : List Workspace
  pub found : find_workspace services ids request s ≡ (ok tt, record s { workspaces = workspaces })
  pub keyed : workspace_key request.path_to_mets request.workspace_id ≡ key
  pub validated :
      (t : Server)
      → t.workspaces ≡ workspaces
      → validate_and_return_mets_path request t ≡ (ok mets_path, t)
  pub updated :
      db_update_workspace request.workspace_id request.path_to_mets
        (services.mets_server_url_of mets_path)
        workspaces
      ≡ some saved

db_get_workspace-path :
    (id path : Option Text) (workspaces : List Workspace)
    → is_set id ≡ false
    → is_set path ≡ true
    → db_get_workspace id path workspaces ≡ find_one (has_path path) workspaces
unfolding db_get_workspace
db_get_workspace-path id path workspaces no_id set = rw (set, no_id, db_get_workspace) refl

db_get_workspace-id :
    (id path : Option Text) (workspaces : List Workspace)
    → is_set id ≡ true
    → is_set path ≡ false
    → db_get_workspace id path workspaces ≡ find_one (has_id id) workspaces
unfolding db_get_workspace
db_get_workspace-id id path workspaces set no_path = rw (no_path, set, db_get_workspace) refl

-- The search for a path ends in a state with a document for the path.
find_workspace-path :
    (services : Services) (ids : Ids) (request : JobInput) (key : Text) (s : Server)
    → ByPath services request key
    → (workspaces : List Workspace) × (w : Workspace) × (find_workspace services ids request s
        ≡ (ok tt, record s { workspaces = workspaces }))
      × (find_one (has_path (some key)) workspaces ≡ some w)
unfolding find_workspace create_workspace_if_not_exists db_get_workspace
find_workspace-path services ids request path s p =
    elim (Option-cases (find_one (has_path (some path)) s.workspaces)) [
      | inr (w, e) ↦
          (s.workspaces, w, ground (arith, p.no_workspace, p.with_path, p.path_is_set, p.exists), e)
      | inl n ↦
          let w : Workspace = record {
            workspace_id = ids.workspace_id;
            workspace_mets_path = path;
            mets_server_url = none;
          } in
          (
            s.workspaces ++ w ∷ [],
            w,
            ground (arith, p.no_workspace, p.with_path, p.path_is_set, p.exists),
            ground (
              arith,
              list_beq_iff path path,
              find_one-append (has_path (some path)) s.workspaces w,
            ),
          )
    ]

Located-path :
    (services : Services) (ids : Ids) (request : JobInput) (key : Text) (s : Server)
    → ByPath services request key
    → Located services ids request key s
unfolding validate_and_return_mets_path db_update_workspace
Located-path services ids request key s p =
    let (workspaces, w, found, known) = find_workspace-path services ids request key s p in
    let set : is_set request.path_to_mets ≡ true = ap is_set p.with_path ∙ p.path_is_set in
    let search : db_get_workspace request.workspace_id request.path_to_mets workspaces ≡ some w =
      db_get_workspace-path request.workspace_id request.path_to_mets workspaces p.no_workspace set
      ∙ ap (λ o. find_one (has_path o) workspaces) p.with_path
      ∙ known in
    record {
      workspaces = workspaces;
      mets_path = some key;
      saved =
          save_url
            (if is_set request.path_to_mets
              then has_path request.path_to_mets
              else has_id request.workspace_id)
            (services.mets_server_url_of (some key)) workspaces;
      found = found;
      keyed = rw (p.with_path, p.path_is_set) refl;
      validated = λ t same. ground (arith, p.no_workspace, p.with_path);
      updated = rw (search, db_update_workspace) refl;
    }

Located-id :
    (services : Services) (ids : Ids) (request : JobInput) (key : Text) (s : Server)
    → ById request key s
    → Located services ids request key s
unfolding find_workspace get_from_database_workspace validate_and_return_mets_path
    db_update_workspace
Located-id services ids request key s p =
    let set : is_set request.workspace_id ≡ true = ap is_set p.with_id ∙ p.id_is_set in
    let lookup : db_get_workspace request.workspace_id none s.workspaces ≡ some p.workspace =
      ap (λ o. db_get_workspace o none s.workspaces) p.with_id ∙ p.known in
    let search : db_get_workspace request.workspace_id request.path_to_mets s.workspaces
        ≡ some p.workspace =
      db_get_workspace-id request.workspace_id request.path_to_mets s.workspaces set p.no_path
      ∙ sym (db_get_workspace-id request.workspace_id none s.workspaces set refl)
      ∙ lookup in
    record {
      workspaces = s.workspaces;
      mets_path = some p.workspace.workspace_mets_path;
      saved =
          save_url
            (if is_set request.path_to_mets
              then has_path request.path_to_mets
              else has_id request.workspace_id)
            (services.mets_server_url_of (some p.workspace.workspace_mets_path)) s.workspaces;
      found = ground (arith, set, lookup);
      keyed = rw (p.no_path, p.with_id) refl;
      validated = λ t same.
          ground (arith, set, lookup, ap (db_get_workspace request.workspace_id none) same);
      updated = rw (search, db_update_workspace) refl;
    }

Located-source :
    (services : Services) (ids : Ids) (request : JobInput) (key : Text) (s : Server)
    → ByPath services request key ⊎ ById request key s
    → Located services ids request key s
Located-source services ids request key s (inl p) = Located-path services ids request key s p
Located-source services ids request key s (inr i) = Located-id services ids request key s i

pub Located-admitted :
    (services : Services) (ids : Ids) (processor_name : Text) (job_input : JobInput) (key : Text)
    (s : Server)
    → ByPath services job_input key ⊎ ById job_input key s
    → Located services ids (admitted ids processor_name job_input) key s
Located-admitted services ids processor_name job_input key s (inl p) =
    Located-source services ids (admitted ids processor_name job_input) key s (
      inl (record {
        no_workspace = p.no_workspace;
        with_path = p.with_path;
        path_is_set = p.path_is_set;
        exists = p.exists;
      }))
Located-admitted services ids processor_name job_input key s (inr p) =
    Located-source services ids (admitted ids processor_name job_input) key s (
      inr (record {
        no_path = p.no_path;
        with_id = p.with_id;
        id_is_set = p.id_is_set;
        workspace = p.workspace;
        known = p.known;
      }))
