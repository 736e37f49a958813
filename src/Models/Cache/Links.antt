-- ===== src/Models/Cache/Links.antt =====
-- The groups and the page links that the caches of class OcrdMets of
-- src/ocrd_models/ocrd_mets.py give.
use ocr_d_core.Common.{
  ◌≡◌, refl, ap, ◌∙◌, ◌||◌, some, List, [], ◌∷◌, map, arith, Text, nat_eq, list_eq, option_eq,
  list_beq_iff, contains,
}
use ocr_d_core.Common.Dict.{Dict, put, keys, get, has, get-put}
use ocr_d_core.Models.Tree.{Group, Page, Tree, groups_of, pages_of}
use ocr_d_core.Models.Pages.{page_with_file, get_physical_page_for_file}
use ocr_d_core.Models.Pages.Links.{page_of}
use ocr_d_core.Models.Mets.{file_groups}
use ocr_d_core.Models.Cache.{
  put_all, fptrs_by_id, fill_caches, cached_groups, page_with_fptr, cached_page_for_file,
}
use ocr_d_core.Models.Cache.Fill.{put_all-Distinct}
use ocr_d_core.Models.Cache.Same.{IsDistinct, entries, fill_caches-files}

keys-entries : (groups : List Group) → keys (entries groups) ≡ map (λ group. group.use_name) groups
keys-entries [] = refl
keys-entries (group ∷ groups) = ap (group.use_name ∷◌) (keys-entries groups)

-- The links of a page, where an ID that is listed twice is kept once.
has-put_all :
    (file_id : Text) (d : Dict Text Text) (ids : List Text)
    → has file_id (put_all (λ f. f) (λ f. f) d ids) ≡ (contains file_id ids || has file_id d)
unfolding put_all contains
has-put_all f d [] = refl
has-put_all f d (g ∷ ids) =
    has-put_all f (put g g d) ids
    ∙ ground (arith, get-put g f g d, list_beq_iff f g, list_beq_iff g f)

has-fptrs_by_id :
    (file_id : Text) (page : Page) → has file_id (fptrs_by_id page) ≡ contains file_id page.fptrs
unfolding get
has-fptrs_by_id f page = ground (arith, has-put_all f [] page.fptrs)

page_with_fptr-pages :
    (file_id : Text) (pages : List Page)
    → page_with_fptr file_id (map (λ page. (page.page_id, fptrs_by_id page)) pages)
      ≡ page_of file_id pages
unfolding page_with_fptr page_with_file
page_with_fptr-pages f [] = refl
page_with_fptr-pages f (page ∷ pages) =
    ground (arith, has-fptrs_by_id f page, page_with_fptr-pages f pages)

-- For a METS file that has a mets:fileSec and distinct names and IDs, `file_groups` and
-- `get_physical_page_for_file` give the same with filled caches as without.
cached_page_for_file-same :
    (groups : List Group) (file_id : Text) (t : Tree)
    → t.file_sec ≡ some groups
    → IsDistinct t
    → (cached_groups (fill_caches t) ≡ file_groups t)
      × (cached_page_for_file file_id (fill_caches t) ≡ get_physical_page_for_file file_id t)
unfolding fill_caches file_groups get_physical_page_for_file
cached_page_for_file-same groups f t e d = (
  ap keys (fill_caches-files t d.groups) ∙ keys-entries (groups_of t),
  simp (e, fill_caches)
      (ap (page_with_fptr f)
          (put_all-Distinct (λ (page : Page). page.page_id) fptrs_by_id [] (pages_of t) d.pages)
        ∙ page_with_fptr-pages f (pages_of t)),
)
