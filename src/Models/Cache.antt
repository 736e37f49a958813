-- ===== src/Models/Cache.antt =====
-- The caches of class OcrdMets of src/ocrd_models/ocrd_mets.py: how they are filled, and the
-- methods that read them in place of the elements.
pub mod Fill
pub mod Same
pub mod Links
use ocr_d_core.Common.{
  Bool, true, false, ◌&&◌, Option, none, some, List, [], ◌∷◌, ◌++◌, map, Text, codes, nat_eq,
  list_eq, option_eq, if◌then◌else◌, keep_if, starts_with, drop, is_some, Eq, not,
}
use ocr_d_core.Common.Dict.{Dict, get, has, put, keys, values}
use ocr_d_core.Models.Tree.{File, Group, Page, PageAttr, Tree, Regex, page_attr, pages_of}
use ocr_d_core.Models.Find.{OcrdFile, Query, file_passes, listed}

-- `_file_cache`, `_page_cache` and `_fptr_cache`. The last has the key None for a page without ID.
pub record Cache : Type 0 where
  pub files : Dict Text (Dict Text File)
  pub pages : PageAttr → Dict Text Page
  pub fptrs : Dict (Option Text) (Dict Text Text)

-- `d[key(x)] = value(x)` for each element of a list
unfoldable pub put_all :
    {A K V : Type 0} ⦃e : Eq K⦄ → (A → K) → (A → V) → Dict K V → List A → Dict K V
put_all key value d [] = d
put_all key value d (x ∷ xs) = put_all key value (put (key x) (value x) d) xs

-- The inner dictionaries.
abbrev pub files_by_id : Group → Dict Text File
files_by_id group = put_all (λ (file : File). file.id) (λ file. file) [] group.files

abbrev pub fptrs_by_id : Page → Dict Text Text
fptrs_by_id page = put_all (λ f. f) (λ f. f) [] page.fptrs

-- `str(el_div.get(attr.name))`
abbrev pub attr_text : Option Text → Text
attr_text none = codes "None"
attr_text (some t) = t

-- `_fill_caches`, on caches that `_initialize_caches` has emptied
unfoldable pub fill_caches : Tree → Cache
fill_caches t = elim t.file_sec [
  | none ↦ record { files = []; pages = λ a. []; fptrs = [] }
  | some groups ↦ record {
    files = put_all (λ (group : Group). group.use_name) files_by_id [] groups;
    pages = λ a. put_all (λ page. attr_text (page_attr a page)) (λ page. page) [] (pages_of t);
    fptrs = put_all (λ (page : Page). page.page_id) fptrs_by_id [] (pages_of t);
  }
]

-- `file_groups`
abbrev pub cached_groups : Cache → List Text
cached_groups c = keys c.files

-- The files of some groups of the cache.
unfoldable pub cached_files : Dict Text (Dict Text File) → List OcrdFile
cached_files [] = []
cached_files ((use_name, files) ∷ groups) =
    map (λ file. record { file_grp = use_name; file = file }) (values files) ++ cached_files groups

abbrev pub files_of_group : Text → Option (Dict Text File) → List OcrdFile
files_of_group use_name none = []
files_of_group use_name (some files) =
    map (λ file. record { file_grp = use_name; file = file }) (values files)

-- The candidates of `find_files`, by `fileGrp`. A regular expression is tested with `match`.
unfoldable pub cached_candidates : Regex → Option Text → Cache → List OcrdFile
cached_candidates regex none c = cached_files c.files
cached_candidates regex (some []) c = cached_files c.files
cached_candidates regex (some (b ∷ needle)) c =
    if starts_with (b ∷ needle) (codes "//")
    then cached_files (keep_if (λ item. regex.match_start (drop 2 (b ∷ needle)) item.0) c.files)
    else files_of_group (b ∷ needle) (get (b ∷ needle) c.files)

-- The loop of `find_files`, given the files of the pages that are asked for.
unfoldable pub cached_results : Regex → Query → Option (List Text) → Cache → List OcrdFile
cached_results regex query page_files c =
    keep_if (λ f. file_passes regex query page_files f.file && listed query f.file_grp)
      (cached_candidates regex query.by_file_grp c)

unfoldable pub page_with_fptr : Text → Dict (Option Text) (Dict Text Text) → Option Text
page_with_fptr file_id [] = none
page_with_fptr file_id ((page_id, fptrs) ∷ pages) =
    let rest = page_with_fptr file_id pages in if has file_id fptrs then page_id else rest

-- `get_physical_page_for_file`, by the ID of the file
abbrev pub cached_page_for_file : Text → Cache → Option Text
cached_page_for_file file_id c = page_with_fptr file_id c.fptrs
