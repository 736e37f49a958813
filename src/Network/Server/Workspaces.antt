-- ===== src/Network/Server/Workspaces.antt =====
-- The collection of workspaces: db_get_workspace, db_create_workspace and db_update_workspace of
-- src/ocrd_network/database.py, and their callers in src/ocrd_network/server_utils.py.
use ocr_d_core.Common.{
  Bool, true, false, Option, none, some, List, [], ◌∷◌, ◌++◌, Text, list_eq, nat_eq, if◌then◌else◌,
  ◌==◌,
}
use ocr_d_core.Common.Exec.{Exec, http, ok, err}
use ocr_d_core.Network.Jobs.{JobInput}
use ocr_d_core.Network.Server.{Workspace, Server, is_set}

-- `DBWorkspace.find_one`
unfoldable pub find_one : (Workspace → Bool) → List Workspace → Option Workspace
find_one p [] = none
find_one p (w ∷ workspaces) = let rest = find_one p workspaces in if p w then some w else rest

abbrev pub has_id : Option Text → Workspace → Bool
has_id none w = false
has_id (some id) w = w.workspace_id == id

abbrev pub has_path : Option Text → Workspace → Bool
has_path none w = false
has_path (some path) w = w.workspace_mets_path == path

-- Whether a search for the id succeeds, when there is one.
abbrev pub id_is_known : Option Text → List Workspace → Bool
id_is_known id workspaces =
    if is_set id
    then elim (find_one (has_id id) workspaces) [ none ↦ false | some w ↦ true ]
    else true

-- `db_get_workspace`; `none` is ValueError. If both keys are given, then the path decides.
unfoldable pub db_get_workspace : Option Text → Option Text → List Workspace → Option Workspace
db_get_workspace workspace_id workspace_mets_path workspaces =
    if is_set workspace_mets_path
    then (if id_is_known workspace_id workspaces
        then find_one (has_path workspace_mets_path) workspaces
        else none)
    else if is_set workspace_id
    then find_one (has_id workspace_id) workspaces
    else none

-- `get_from_database_workspace`
unfoldable pub get_from_database_workspace : Option Text → Option Text → Exec Server Workspace
get_from_database_workspace workspace_id workspace_mets_path s =
    elim (db_get_workspace workspace_id workspace_mets_path s.workspaces) [
      | none ↦ (err (http 404), s)
      | some w ↦ (ok w, s)
    ]

-- `create_workspace_if_not_exists` and `db_create_workspace`, given the new workspace's id and
-- whether the file exists. No file has the empty path.
unfoldable pub create_workspace_if_not_exists : Text → Bool → Option Text → Exec Server Unit
create_workspace_if_not_exists new_id exists none s = (err (http 404), s)
create_workspace_if_not_exists new_id false (some path) s = (err (http 404), s)
create_workspace_if_not_exists new_id true (some path) s =
    elim (db_get_workspace none (some path) s.workspaces) [
      | some w ↦ (ok tt, s)
      | none ↦ (
        ok tt,
        record s {
          workspaces =
              s.workspaces
              ++ (record {
                workspace_id = new_id;
                workspace_mets_path = path;
                mets_server_url = none;
              }
                  ∷ []);
        },
      )
    ]

-- `validate_and_return_mets_path`
unfoldable pub validate_and_return_mets_path : JobInput → Exec Server (Option Text)
validate_and_return_mets_path job_input s =
    if is_set job_input.workspace_id
    then elim (db_get_workspace job_input.workspace_id none s.workspaces) [
      | none ↦ (err (http 404), s)
      | some w ↦ (ok (some w.workspace_mets_path), s)
    ]
    else (ok job_input.path_to_mets, s)

-- The new documents of `save()`: the first that fits the test is replaced.
unfoldable pub save_url : (Workspace → Bool) → Text → List Workspace → List Workspace
save_url p url [] = []
save_url p url (w ∷ workspaces) =
    let rest = save_url p url workspaces in
    if p w then record w { mets_server_url = some url } ∷ workspaces else w ∷ rest

-- `db_update_workspace(workspace_id, workspace_mets_path, mets_server_url=url)`; `none` is
-- ValueError.
unfoldable pub db_update_workspace :
    Option Text → Option Text → Text → List Workspace → Option (List Workspace)
db_update_workspace workspace_id workspace_mets_path url workspaces =
    elim (db_get_workspace workspace_id workspace_mets_path workspaces) [
      | none ↦ none
      | some w ↦ some (
          save_url
            (if is_set workspace_mets_path
              then has_path workspace_mets_path
              else has_id workspace_id)
            url workspaces)
    ]
