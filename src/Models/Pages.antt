-- ===== src/Models/Pages.antt =====
-- The physical pages of a METS file: the methods of class OcrdMets of
-- src/ocrd_models/ocrd_mets.py on one page, without caches.
pub mod Links
use ocr_d_core.Common.{
  Bool, true, false, Option, none, some, List, [], ◌∷◌, ◌++◌, map, Text, nat_eq, list_eq, option_eq,
  if◌then◌else◌, ◌==◌, keep_if, not, contains, is_some, is_nonempty,
}
use ocr_d_core.Common.Dict.{Dict, put}
use ocr_d_core.Models.Tree.{Page, Tree, pages_of}

-- `physical_pages`: pages without an ID are passed over.
unfoldable pub page_ids : List Page → List Text
page_ids [] = []
page_ids (page ∷ pages) =
    let rest = page_ids pages in elim page.page_id [ none ↦ rest | some page_id ↦ page_id ∷ rest ]

unfoldable pub physical_pages : Tree → List Text
physical_pages t = page_ids (pages_of t)

-- The page of the first mets:fptr with this FILEID.
unfoldable pub page_with_file : Text → List Page → Option Page
page_with_file file_id [] = none
page_with_file file_id (page ∷ pages) =
    let rest = page_with_file file_id pages in
    if contains file_id page.fptrs then some page else rest

-- `get_physical_page_for_file`, by the ID of the file
unfoldable pub get_physical_page_for_file : Text → Tree → Option Text
get_physical_page_for_file file_id t = elim (page_with_file file_id (pages_of t)) [
  | none ↦ none
  | some page ↦ page.page_id
]

abbrev pub without_fptr : Text → Page → Page
without_fptr file_id page = record page { fptrs = keep_if (λ f. not (f == file_id)) page.fptrs }

abbrev pub set_pages : (List Page → List Page) → Tree → Tree
set_pages f t = record t {
  phys_sequence = elim t.phys_sequence [ none ↦ none | some pages ↦ some (f pages) ];
}

-- The page ids of the removed mets:fptr, one for each of them.
unfoldable pub fptr_pages : Text → List Page → List (Option Text)
fptr_pages file_id [] = []
fptr_pages file_id (page ∷ pages) =
    map (λ f. page.page_id) (keep_if (λ f. f == file_id) page.fptrs) ++ fptr_pages file_id pages

-- `remove_physical_page_fptr`
unfoldable pub remove_physical_page_fptr : Text → Tree → List (Option Text) × Tree
remove_physical_page_fptr file_id t =
    (fptr_pages file_id (pages_of t), set_pages (map (without_fptr file_id)) t)

-- A mets:fptr is added to the first page with the ID, or to a new page at the end.
unfoldable pub add_fptr : Text → Text → Option Text → Option Text → List Page → List Page
add_fptr page_id file_id order orderlabel [] =
    (record {
      page_id = some page_id;
      order = order;
      orderlabel = orderlabel;
      label = none;
      contentids = none;
      fptrs = file_id ∷ [];
    })
    ∷ []
add_fptr page_id file_id order orderlabel (page ∷ pages) =
    let rest = add_fptr page_id file_id order orderlabel pages in
    if page.page_id == some page_id
    then record page { fptrs = page.fptrs ++ file_id ∷ [] } ∷ pages
    else page ∷ rest

-- An attribute that is not set if it is empty.
abbrev pub if_set : Option Text → Option Text
if_set none = none
if_set (some []) = none
if_set (some (c ∷ t)) = some (c ∷ t)

-- `set_physical_page_for_file`, by the ID of the file
unfoldable pub set_physical_page_for_file : Text → Text → Option Text → Option Text → Tree → Tree
set_physical_page_for_file page_id file_id order orderlabel t = record t {
  phys_sequence = some (
      add_fptr page_id file_id (if_set order) (if_set orderlabel)
        (map (without_fptr file_id) (pages_of t)));
}

unfoldable pub drop_first : Text → List Page → List Page
drop_first page_id [] = []
drop_first page_id (page ∷ pages) =
    let rest = drop_first page_id pages in
    if page.page_id == some page_id then pages else page ∷ rest

-- `remove_physical_page`: the first page with the ID.
unfoldable pub remove_physical_page : Text → Tree → Tree
remove_physical_page page_id t = set_pages (drop_first page_id) t

unfoldable pub labels_from :
    Dict Text (Option Text × Option Text × Option Text)
    → List Page
    → Dict Text (Option Text × Option Text × Option Text)
labels_from known [] = known
labels_from known (page ∷ pages) = elim page.page_id [
  | none ↦ labels_from known pages
  | some page_id ↦ labels_from (put page_id (page.order, page.orderlabel, page.label) known) pages
]

-- `physical_pages_labels`. The key None of pages without an ID is left out.
unfoldable pub physical_pages_labels : Tree → Dict Text (Option Text × Option Text × Option Text)
physical_pages_labels t = labels_from [] (pages_of t)

-- The pages after the mets:fptr of a removed file are gone: a page that had one and is left empty
-- is removed as well.
unfoldable pub drop_fptr : Text → List Page → List Page
drop_fptr file_id [] = []
drop_fptr file_id (page ∷ pages) =
    let rest = drop_fptr file_id pages in
    if contains file_id page.fptrs
    then (if is_nonempty (without_fptr file_id page).fptrs
        then without_fptr file_id page ∷ rest
        else rest)
    else page ∷ rest
