-- ===== src/Models/Find.antt =====
-- Searching files: find_files of class OcrdMets of src/ocrd_models/ocrd_mets.py, without caches.
pub mod OnPage
use ocr_d_core.Common.{
  Bool, true, false, ◌&&◌, Option, none, some, List, [], ◌∷◌, ◌++◌, map, Text, codes, nat_eq,
  list_eq, option_eq, if◌then◌else◌, ◌==◌, contains, is_nonempty, starts_with, drop, keep_if, not,
  is_some,
}
use ocr_d_core.Common.Exec.{Result, ok, err}
use ocr_d_core.Models.Tree.{File, Group, Page, Tree, Regex, groups_of}
use ocr_d_core.Models.Select.{get_physical_pages, or_empty}

-- OcrdFile: a file, and the USE of the group that holds it.
pub record OcrdFile : Type 0 where
  pub file_grp : Text
  pub file : File

-- The keyword arguments of `find_files`.
pub record Query : Type 0 where
  pub by_id : Option Text
  pub by_file_grp : Option Text
  pub by_page_id : Option Text
  pub by_mimetype : Option Text
  pub by_url : Option Text
  pub by_local_filename : Option Text
  pub local_only : Bool
  pub include_file_grp : List Text
  pub exclude_file_grp : List Text

abbrev pub all_files : Query
all_files = record {
  by_id = none;
  by_file_grp = none;
  by_page_id = none;
  by_mimetype = none;
  by_url = none;
  by_local_filename = none;
  local_only = false;
  include_file_grp = [];
  exclude_file_grp = [];
}

-- A literal text or, after `//`, a regular expression.
unfoldable pub needle_matches : Regex → Text → Text → Bool
needle_matches regex needle value =
    if starts_with needle (codes "//")
    then regex.fullmatch (drop 2 needle) value
    else needle == value

-- The test of a needle that is set and not empty.
abbrev pub passes : Option Text → (Text → Bool) → Bool
passes none test = true
passes (some []) test = true
passes (some (c ∷ needle)) test = test (c ∷ needle)

-- `cand.get('MIMETYPE')`: a literal differs from None, a regular expression sees the empty text.
abbrev pub mimetype_matches : Regex → Option Text → Text → Bool
mimetype_matches regex mimetype needle =
    if starts_with needle (codes "//")
    then regex.fullmatch (drop 2 needle) (or_empty mimetype)
    else mimetype == some needle

abbrev pub url_matches : Regex → Option Text → Text → Bool
url_matches regex none needle = false
url_matches regex (some url) needle = needle_matches regex needle url

-- The tests of the loop but that on the group, given the files of the pages that are asked for.
unfoldable pub file_passes : Regex → Query → Option (List Text) → File → Bool
file_passes regex query page_files file =
    passes query.by_id (λ needle. needle_matches regex needle file.id)
    && (elim page_files [ none ↦ true | some ids ↦ contains file.id ids ]
        && (passes query.by_mimetype (mimetype_matches regex file.mimetype)
            && (passes query.by_url (url_matches regex file.url)
                && (passes query.by_local_filename (λ needle. file.local_filename == some needle)
                    && (if query.local_only then is_some file.local_filename else true)))))

unfoldable pub grp_passes : Regex → Query → Text → Bool
grp_passes regex query file_grp =
    passes query.by_file_grp (λ needle. needle_matches regex needle file_grp)

-- The last two tests, on `exclude_fileGrp` and `include_fileGrp`.
unfoldable pub listed : Query → Text → Bool
listed query file_grp =
    not (contains file_grp query.exclude_file_grp)
    && (if is_nonempty query.include_file_grp
        then contains file_grp query.include_file_grp
        else true)

-- `//mets:file`
unfoldable pub candidates : List Group → List OcrdFile
candidates [] = []
candidates (group ∷ groups) =
    map (λ file. record { file_grp = group.use_name; file = file }) group.files ++ candidates groups

unfoldable pub fptrs_of : List Page → List Text
fptrs_of [] = []
fptrs_of (page ∷ pages) = page.fptrs ++ fptrs_of pages

-- `pageId_list`; `none` if there is no test on pages. An empty text finds no file.
unfoldable pub files_of_pages : Regex → Option Text → Tree → Result (Option (List Text))
files_of_pages regex none t = ok none
files_of_pages regex (some []) t = ok (some [])
files_of_pages regex (some (c ∷ page_id)) t = elim (get_physical_pages regex (c ∷ page_id) t) [
  | err e ↦ err e
  | ok pages ↦ ok (some (fptrs_of pages))
]

-- Whether a candidate is a result.
abbrev pub is_result : Regex → Query → Option (List Text) → OcrdFile → Bool
is_result regex query page_files f =
    file_passes regex query page_files f.file
    && (grp_passes regex query f.file_grp && listed query f.file_grp)

-- `find_files`, all results
unfoldable pub find_files : Regex → Query → Tree → Result (List OcrdFile)
find_files regex query t = elim (files_of_pages regex query.by_page_id t) [
  | err e ↦ err e
  | ok page_files ↦ ok (keep_if (is_result regex query page_files) (candidates (groups_of t)))
]
