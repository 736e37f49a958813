-- ===== src/Models/Find/OnPage.antt =====
-- The files of one page: find_files of src/ocrd_models/ocrd_mets.py.
use ocr_d_core.Common.{
  ◌≡◌, refl, ap, ◌∙◌, fun_ext, ℕ, true, false, none, some, List, [], ◌∷◌, Text, codes, nat_eq,
  list_eq, option_eq, keep_if, contains, is_nonempty, starts_with, split_once, arith,
}
use mathlib.Core.List.{append-nil}
use ocr_d_core.Common.Exec.{Result, ok, err, value_error}
use ocr_d_core.Models.Tree.{Page, Tree, Regex, groups_of, pages_of}
use ocr_d_core.Models.Select.{get_physical_pages}
use ocr_d_core.Models.Select.Literal.{has_value, first_page, get_physical_pages-literal}
use ocr_d_core.Models.Find.{
  OcrdFile, Query, all_files, candidates, fptrs_of, files_of_pages, is_result, find_files,
  file_passes, grp_passes, listed,
}

abbrev pub on_page : Text → Query
on_page page_id = record all_files { by_page_id = some page_id }

is_result-on_page :
    (regex : Regex) (page_id : Text) (ids : List Text) (f : OcrdFile)
    → is_result regex (on_page page_id) (some ids) f ≡ contains f.file.id ids
unfolding file_passes grp_passes listed contains
is_result-on_page regex p ids f = ground arith

-- What `find_files` makes of the selected pages.
abbrev files_on : Tree → Result (List Page) → Result (List OcrdFile)
files_on t (err e) = err e
files_on t (ok pages) =
    ok (keep_if (λ f. contains f.file.id (fptrs_of pages)) (candidates (groups_of t)))

find_files-on_page :
    (regex : Regex) (c : ℕ) (page_id : Text) (t : Tree) (selected : Result (List Page))
    → get_physical_pages regex (c ∷ page_id) t ≡ selected
    → find_files regex (on_page (c ∷ page_id)) t ≡ files_on t selected
unfolding find_files files_of_pages
find_files-on_page regex c p t (err e) h =
    let ids : files_of_pages regex (some (c ∷ p)) t ≡ err e = rw (h, files_of_pages) refl in
    rw (ids, find_files) refl
find_files-on_page regex c p t (ok pages) h =
    let ids : files_of_pages regex (some (c ∷ p)) t ≡ ok (some (fptrs_of pages)) =
      rw (h, files_of_pages) refl in
    rw (ids, find_files)
      (ap (λ test. ok (keep_if test (candidates (groups_of t))))
        (fun_ext (is_result-on_page regex (c ∷ p) (fptrs_of pages))))

-- The files of the first page of a list.
abbrev pub files_of_first : Tree → List Page → Result (List OcrdFile)
files_of_first t [] = err value_error
files_of_first t (page ∷ pages) =
    ok (keep_if (λ f. contains f.file.id page.fptrs) (candidates (groups_of t)))

files_on-first_page :
    (t : Tree) (pages : List Page) → files_on t (first_page pages) ≡ files_of_first t pages
unfolding fptrs_of
files_on-first_page t [] = refl
files_on-first_page t (page ∷ pages) =
    ap (λ ids. ok (keep_if (λ f. contains f.file.id ids) (candidates (groups_of t))))
      (append-nil page.fptrs)

-- For a page ID that is no list, no range and no regular expression and not empty, `find_files` gives the
-- files, in the order of the METS file, that are linked to the first page that has it as one of its
-- attributes; without such a page it raises ValueError.
pub find_files-page :
    (regex : Regex) (page_id : Text) (t : Tree)
    → is_nonempty page_id ≡ true
    → contains b',' page_id ≡ false
    → starts_with page_id (codes "//") ≡ false
    → split_once (codes "..") page_id ≡ none
    → find_files regex (on_page page_id) t
      ≡ files_of_first t (keep_if (has_value page_id) (pages_of t))
find_files-page regex [] t e comma slashes dots = cc
find_files-page regex (c ∷ p) t e comma slashes dots =
    let selected = get_physical_pages-literal regex (c ∷ p) t comma slashes dots in
    let pages = keep_if (has_value (c ∷ p)) (pages_of t) in
    find_files-on_page regex c p t (first_page pages) selected ∙ files_on-first_page t pages
