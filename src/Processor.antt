-- ===== src/Processor.antt =====
-- Class Processor of src/ocrd/processor/base.py: how the files of several input file groups are
-- aligned by their pages.

pub mod Keys
pub mod Slots
pub mod Tuples
pub mod Zip
pub mod Choice
use ocr_d_core.Common.{
  ℕ, zero, suc, Bool, true, false, ◌||◌, not, Option, none, some, List, [], ◌∷◌, map, Text, codes,
  nat_eq, list_eq, option_eq, if◌then◌else◌, ◌==◌, keep_if, is_some, is_nonempty, length, replicate,
  split, ltb,
}
use ocr_d_core.Common.Dict.{Dict, get, put, values}
use ocr_d_core.Common.Exec.{Result, ok, err, value_error, type_error, failure}
use ocr_d_core.Models.Tree.{Tree, Regex}
use ocr_d_core.Models.Pages.{get_physical_page_for_file}
use ocr_d_core.Models.Select.{or_empty}
use ocr_d_core.Models.Find.{OcrdFile, Query, all_files, find_files}

-- MIMETYPE_PAGE
abbrev pub page_mimetype : Option Text
page_mimetype = some (codes "application/vnd.prima.page+xml")

-- The argument `on_error`.
pub data OnError : Type 0 where
  skip first last abort unknown : OnError

-- The order of texts by code points.
unfoldable pub text_lt : Text → Text → Bool
text_lt t [] = false
text_lt [] (d ∷ u) = true
text_lt (c ∷ t) (d ∷ u) =
    let rest = text_lt t u in if ltb c d then true else if c == d then rest else false

abbrev pub sort_key : OcrdFile → Text
sort_key f = or_empty f.file.mimetype

unfoldable pub insert_file : OcrdFile → List OcrdFile → List OcrdFile
insert_file f [] = f ∷ []
insert_file f (g ∷ files) =
    let rest = insert_file f files in
    if text_lt (sort_key f) (sort_key g) then f ∷ g ∷ files else g ∷ rest

-- Python's stable sort.
unfoldable pub sort_onto : List OcrdFile → List OcrdFile → List OcrdFile
sort_onto sorted [] = sorted
sort_onto sorted (f ∷ files) = sort_onto (insert_file f sorted) files

abbrev pub lacks_mimetype : OcrdFile → Bool
lacks_mimetype f = not (is_some f.file.mimetype)

-- `sorted(…, key=lambda file_: file_.mimetype)`: None cannot be compared, which happens as soon as there
-- are two files.
unfoldable pub sort_files : List OcrdFile → Result (List OcrdFile)
sort_files files =
    if ltb 1 (length files)
    then (if is_nonempty (keep_if lacks_mimetype files)
        then err type_error
        else ok (sort_onto [] files))
    else ok files

-- What is chosen of two files that are not both PAGE-XML.
unfoldable pub resolve : OnError → OcrdFile → OcrdFile → Result (Option OcrdFile)
resolve skip chosen file = ok none
resolve first chosen file = ok (some chosen)
resolve last chosen file = ok (some file)
resolve abort chosen file = err value_error
resolve unknown chosen file = err failure

-- A file for a page and a file group that may have one, where `filtered` is whether `mimetype` is set.
unfoldable pub choose : Bool → OnError → Option OcrdFile → OcrdFile → Result (Option OcrdFile)
choose filtered on_error none file = ok (some file)
choose filtered on_error (some chosen) file =
    if filtered
    then resolve on_error chosen file
    else if chosen.file.mimetype == page_mimetype
    then (if file.file.mimetype == page_mimetype then err value_error else ok (some chosen))
    else resolve on_error chosen file

abbrev pub Slots : Type 0
Slots = List (Option OcrdFile)

-- `ift[i]` and `ift[i] = x`
unfoldable pub slot : ℕ → Slots → Option OcrdFile
slot i [] = none
slot zero (x ∷ slots) = x
slot (suc i) (x ∷ slots) = slot i slots

unfoldable pub set_slot : ℕ → Option OcrdFile → Slots → Slots
set_slot i x [] = []
set_slot zero x (y ∷ slots) = x ∷ slots
set_slot (suc i) x (y ∷ slots) = y ∷ set_slot i x slots

-- `pages.setdefault(…)`, where `count` is the number of file groups
abbrev pub slots_of : ℕ → Text → Dict Text Slots → Slots
slots_of count page_id pages = elim (get page_id pages) [
  | none ↦ replicate count none
  | some slots ↦ slots
]

-- The file `file` of the group `i` for a page.
unfoldable pub add_to_page :
    Bool → OnError → ℕ → ℕ → Text → OcrdFile → Dict Text Slots → Result (Dict Text Slots)
add_to_page filtered on_error count i page_id file pages =
    let slots = slots_of count page_id pages in
    elim (choose filtered on_error (slot i slots) file) [
      | err e ↦ err e
      | ok x ↦ ok (put page_id (set_slot i x slots) pages)
    ]

-- The loop over the files of a group, with the pages of the files. Files without a page are passed
-- over.
unfoldable pub add_files :
    Bool
    → OnError
    → ℕ
    → ℕ
    → (OcrdFile → Option Text)
    → List OcrdFile
    → Dict Text Slots
    → Result (Dict Text Slots)
add_files filtered on_error count i page_of [] pages = ok pages
add_files filtered on_error count i page_of (file ∷ files) pages = elim (page_of file) [
  | none ↦ add_files filtered on_error count i page_of files pages
  | some [] ↦ add_files filtered on_error count i page_of files pages
  | some (c ∷ page_id) ↦ elim (add_to_page filtered on_error count i (c ∷ page_id) file pages) [
    | err e ↦ err e
    | ok after ↦ add_files filtered on_error count i page_of files after
  ]
]

-- Whether a text is set and not empty.
abbrev pub is_given : Option Text → Bool
is_given t = is_nonempty (or_empty t)

abbrev pub is_abort : OnError → Bool
is_abort abort = true
is_abort _ = false

-- The files of a group, sorted.
unfoldable pub files_of_input :
    Regex → Option Text → Option Text → OnError → Text → Tree → Result (List OcrdFile)
files_of_input regex page_id mimetype on_error file_grp t =
    elim (find_files regex
      (record all_files {
        by_page_id = page_id;
        by_file_grp = some file_grp;
        by_mimetype = mimetype;
      })
      t) [
        | err e ↦ err e
        | ok [] ↦
            if is_given page_id
            then (if is_abort on_error then err value_error else ok [])
            else ok []
        | ok (f ∷ files) ↦ sort_files (f ∷ files)
      ]

-- The loop over the groups from the index `i` on.
unfoldable pub add_groups :
    Regex
    → Option Text
    → Option Text
    → OnError
    → Tree
    → ℕ
    → ℕ
    → List Text
    → Dict Text Slots
    → Result (Dict Text Slots)
add_groups regex page_id mimetype on_error t count i [] pages = ok pages
add_groups regex page_id mimetype on_error t count i (file_grp ∷ file_grps) pages =
    elim (files_of_input regex page_id mimetype on_error file_grp t) [
      | err e ↦ err e
      | ok files ↦
          elim (add_files (is_given mimetype) on_error count i
            (λ f. get_physical_page_for_file f.file.id t) files pages) [
              | err e ↦ err e
              | ok after ↦
                  add_groups regex page_id mimetype on_error t count (suc i) file_grps after
            ]
    ]

-- `zip_input_files`: the tuples of the pages, in the order in which the pages were first met
unfoldable pub zip_input_files :
    Regex → Text → Option Text → Bool → Option Text → OnError → Tree → Result (List Slots)
zip_input_files regex input_file_grp page_id require_first mimetype on_error t =
    if is_nonempty input_file_grp
    then (let file_grps = split b',' input_file_grp in
        elim (add_groups regex page_id mimetype on_error t (length file_grps) 0 file_grps []) [
          | err e ↦ err e
          | ok pages ↦
              ok (keep_if (λ slots. is_some (slot 0 slots) || not require_first) (values pages))
        ])
    else err value_error
