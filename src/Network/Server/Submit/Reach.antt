-- ===== src/Network/Server/Submit/Reach.antt =====
-- An acceptable request reaches the decision whether it waits or is pushed.
use ocr_d_core.Common.{◌≡◌, refl, sym, subst, ◌∙◌, Option, some, List, arith, Text, list_eq, nat_eq}
use ocr_d_core.Common.Int.{pos, ◌+ℤ◌}
use ocr_d_core.Common.Exec.{ok, Exec, and_then-ok, ◌>>=◌, ◌>>◌}
use ocr_d_core.Network.Jobs.{JobInput, PageId}
use ocr_d_core.Network.Pages.{expand_page_ids}
use ocr_d_core.Network.Requests.{update_request_counter}
use ocr_d_core.Network.Server.{Server, Services, Output, Workspace}
use ocr_d_core.Network.Server.Workspaces.{db_update_workspace, validate_and_return_mets_path}
use ocr_d_core.Network.Server.Submit.{
  Ids, find_workspace, count, page_ids_of, decide, admit, validate_and_forward_job_to_network_agent,
}
use ocr_d_core.Network.Server.Submit.Stages.{admitted, counter_of}
use ocr_d_core.Network.Server.Submit.Accept.{IsAcceptable, Located, Located-admitted}

page_ids_of_runs :
    (request : JobInput) (pages : List PageId) (s : Server)
    → expand_page_ids request.page_id ≡ some pages
    → page_ids_of request s ≡ (ok pages, s)
unfolding page_ids_of
page_ids_of_runs request pages s expands = ground arith

admit_runs :
    (services : Services) (ids : Ids) (request : JobInput) (key : Text) (pages : List PageId)
    (s : Server) (l : Located services ids request key s)
    → expand_page_ids request.page_id ≡ some pages
    → admit services ids request s
      ≡ decide services key ids.job_id request l.mets_path pages
          (count key (pos 0) (record s { workspaces = l.workspaces })).1
unfolding admit
admit_runs services ids request key pages s l expands =
    let t : Server = record s { workspaces = l.workspaces } in
    let u = (count key (pos 0) t).1 in
    let counted : count key (pos 0) t ≡ (ok (counter_of key t.cache +ℤ pos 0), u) =
      unfold count update_request_counter in refl in
    let decision : Text → Option Text → List PageId → Exec Server Output =
      λ k. decide services k ids.job_id request in
    subst
      (λ k.
        (find_workspace services ids request
            >> count k (pos 0)
            >> validate_and_return_mets_path request
            >>= (λ mets_path. page_ids_of request >>= decision k mets_path))
          s
        ≡ decision key l.mets_path pages u)
      (sym l.keyed)
      (and_then-ok
          (find_workspace services ids request
            >> count key (pos 0)
            >> validate_and_return_mets_path request)
          (λ mets_path. page_ids_of request >>= decision key mets_path) s l.mets_path u
          (and_then-ok (find_workspace services ids request >> count key (pos 0))
              (λ _. validate_and_return_mets_path request) s (counter_of key t.cache +ℤ pos 0) u
              (and_then-ok (find_workspace services ids request) (λ _. count key (pos 0)) s tt t
                  l.found
                ∙ counted)
            ∙ l.validated u (unfold count in refl))
        ∙ and_then-ok (page_ids_of request) (decision key l.mets_path) u pages u
            (page_ids_of_runs request pages u expands))

-- An acceptable request reaches its decision.
pub reaches :
    (services : Services) (ids : Ids) (processor_name : Text) (job_input : JobInput) (key : Text)
    (grps : List Text) (pages : List PageId) (s : Server)
    → IsAcceptable services processor_name job_input key grps pages s
    → (u : Server) × (mets_path : Option Text) × (ws : List Workspace)
      × (validate_and_forward_job_to_network_agent services ids processor_name job_input s
          ≡ decide services key ids.job_id
              (admitted ids processor_name job_input)
              mets_path
              pages
              u)
      × (u.locked_pages ≡ s.locked_pages)
      × (u.db ≡ s.db)
      × (u.pushed ≡ s.pushed)
      × (db_update_workspace job_input.workspace_id job_input.path_to_mets
            (services.mets_server_url_of mets_path)
            u.workspaces
          ≡ some ws)
unfolding validate_and_forward_job_to_network_agent
reaches services ids processor_name job_input key grps pages s a =
    let l = Located-admitted services ids processor_name job_input key s a.source in
    (
      (count key (pos 0) (record s { workspaces = l.workspaces })).1,
      l.mets_path,
      l.saved,
      rw (a.passes, validate_and_forward_job_to_network_agent)
          (admit_runs services ids (admitted ids processor_name job_input) key pages s l a.expands),
      unfold count in refl,
      unfold count in refl,
      unfold count in refl,
      unfold count in l.updated,
    )
