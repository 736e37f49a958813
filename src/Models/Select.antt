-- ===== src/Models/Select.antt =====
-- Selecting physical pages by a list of ids, ranges and regular expressions: get_physical_pages of
-- src/ocrd_models/ocrd_mets.py, without caches.
pub mod Literal
use ocr_d_core.Common.{
  Bool, true, false, Option, none, some, List, [], ◌∷◌, ◌++◌, Text, codes, nat_eq, list_eq,
  option_eq, if◌then◌else◌, ◌==◌, contains, remove, is_nonempty, starts_with, drop, split,
  split_once,
}
use ocr_d_core.Common.Exec.{Result, ok, err, value_error, index_error}
use ocr_d_core.Utils.Strings.{generate_range}
use ocr_d_core.Models.Tree.{Page, Tree, PageAttr, page_attrs, page_attr, pages_of, Regex}

-- A pattern, with the attribute that it was found to be about. Of a range, the values that are
-- left.
pub data Pattern : Type 0 where
  literal : Text → Pattern
  range : Option PageAttr → List Text → Pattern
  regex_of : Option PageAttr → Text → Pattern

-- An entry of `page_attr_patterns`: whether it is in `page_attr_patterns_matched`, and whether it
-- was removed. `start` is the first value of a range.
pub record Entry : Type 0 where
  pub pattern : Pattern
  pub start : Text
  pub matched : Bool
  pub exhausted : Bool

abbrev pub entry_of : Text → Pattern → Entry
entry_of start pattern = record {
  pattern = pattern;
  start = start;
  matched = false;
  exhausted = false;
}

-- The pattern of one token. A range has no first value if its numbers fall.
unfoldable pub token_pattern : Text → Result Entry
token_pattern token =
    if starts_with token (codes "//")
    then ok (entry_of [] (regex_of none (drop 2 token)))
    else elim (split_once (codes "..") token) [
      | none ↦ ok (entry_of [] (literal token))
      | some (first, last) ↦ elim (generate_range first last) [
        | none ↦ err value_error
        | some values ↦ elim values [
          | [] ↦ ok (entry_of [] (range none []))
          | start ∷ rest ↦ ok (entry_of start (range none (start ∷ rest)))
        ]
      ]
    ]

unfoldable pub token_patterns : List Text → Result (List Entry)
token_patterns [] = ok []
token_patterns (token ∷ tokens) =
    let rest = token_patterns tokens in
    elim (token_pattern token) [
      | err e ↦ err e
      | ok entry ↦ elim rest [ err e ↦ err e | ok entries ↦ ok (entry ∷ entries) ]
    ]

abbrev pub is_empty_range : Pattern → Bool
is_empty_range (range attr []) = true
is_empty_range _ = false

-- The first attribute whose value on the page passes a test.
unfoldable pub find_attr : (Option Text → Bool) → Page → List PageAttr → Option PageAttr
find_attr test page [] = none
find_attr test page (attr ∷ attrs) =
    let rest = find_attr test page attrs in if test (page_attr attr page) then some attr else rest

abbrev pub value_in : List Text → Option Text → Bool
value_in values none = false
value_in values (some v) = contains v values

-- `page.get(a.name) or ''`
abbrev pub or_empty : Option Text → Text
or_empty none = []
or_empty (some v) = v

-- A known attribute, or the first one that passes the test.
abbrev pub attr_for : Option PageAttr → (Option Text → Bool) → Page → Option PageAttr
attr_for none test page = find_attr test page page_attrs
attr_for (some attr) test page = some attr

-- The attribute value of the page is taken out of a range.
unfoldable pub take_value : PageAttr → List Text → Option Text → Entry → Bool × Entry
take_value attr values none entry =
    (false, record entry { pattern = range (some attr) values; matched = true })
take_value attr values (some v) entry = elim (remove v values) [
  | none ↦ (false, record entry { pattern = range (some attr) values; matched = true })
  | some left ↦ (
    true,
    record entry {
      pattern = range (some attr) left;
      matched = true;
      exhausted = if is_nonempty left then false else true;
    },
  )
]

-- One pattern on one page: whether the page is added, and the entry afterwards.
unfoldable pub match_pattern : Regex → Page → Entry → Pattern → Bool × Entry
match_pattern regex page entry (literal t) = elim (find_attr (λ v. v == some t) page page_attrs) [
  | none ↦ (false, entry)
  | some attr ↦ (true, record entry { matched = true; exhausted = true })
]
match_pattern regex page entry (range known values) = elim (attr_for known (value_in values) page) [
  | none ↦ (false, entry)
  | some attr ↦ take_value attr values (page_attr attr page) entry
]
match_pattern regex page entry (regex_of known p) =
    elim (attr_for known (λ v. regex.fullmatch p (or_empty v)) page) [
      | none ↦ (false, entry)
      | some attr ↦ (
        regex.fullmatch p (or_empty (page_attr attr page)),
        record entry { pattern = regex_of (some attr) p; matched = true },
      )
    ]

-- The inner loop: the page, as often as a pattern adds it, and the entries afterwards.
unfoldable pub match_page : Regex → Page → List Entry → List Page × List Entry
match_page regex page [] = ([], [])
match_page regex page (entry ∷ entries) =
    let (found, rest) = match_page regex page entries in
    if entry.exhausted
    then (found, entry ∷ rest)
    else (let (adds, after) = match_pattern regex page entry entry.pattern in
        ((if adds then page ∷ found else found), after ∷ rest))

-- The outer loop.
unfoldable pub match_pages : Regex → List Page → List Entry → List Page × List Entry
match_pages regex [] entries = ([], entries)
match_pages regex (page ∷ pages) entries =
    let (found, after) = match_page regex page entries in
    let (more, last) = match_pages regex pages after in (found ++ more, last)

unfoldable pub all_matched : List Entry → Bool
all_matched [] = true
all_matched (entry ∷ entries) =
    let rest = all_matched entries in if entry.matched then rest else false

-- The first value of a range is left.
abbrev pub start_is_left : Entry → Pattern → Bool
start_is_left entry (range attr values) = contains entry.start values
start_is_left entry _ = false

unfoldable pub any_start_left : List Entry → Bool
any_start_left [] = false
any_start_left (entry ∷ entries) =
    let rest = any_start_left entries in if start_is_left entry entry.pattern then true else rest

unfoldable pub any_empty_range : List Entry → Bool
any_empty_range [] = false
any_empty_range (entry ∷ entries) =
    let rest = any_empty_range entries in if is_empty_range entry.pattern then true else rest

-- The selection by entries, and the errors after the loops.
unfoldable pub select_entries : Regex → List Page → List Entry → Result (List Page)
select_entries regex pages entries =
    let (found, last) = match_pages regex pages entries in
    if all_matched last
    then (if any_start_left last then err value_error else ok found)
    else err value_error

-- `get_physical_pages(for_pageIds=…, return_divs=True)`
unfoldable pub get_physical_pages : Regex → Text → Tree → Result (List Page)
get_physical_pages regex for_page_ids t = elim (token_patterns (split b',' for_page_ids)) [
  | err e ↦ err e
  | ok entries ↦
      if any_empty_range entries then err index_error else select_entries regex (pages_of t) entries
]

-- `get_physical_pages(for_fileIds=…)`, which keeps for each file id the last page with a mets:fptr
-- to it. A file id that occurs twice counts at its first place.
unfoldable pub last_page : Text → List Page → Option Page
last_page file_id [] = none
last_page file_id (page ∷ pages) =
    let rest = last_page file_id pages in
    elim rest [
      | some later ↦ some later
      | none ↦ if contains file_id page.fptrs then some page else none
    ]

unfoldable pub pages_for_files : List Text → List Text → Tree → List (Option Page)
pages_for_files before [] t = []
pages_for_files before (file_id ∷ file_ids) t =
    (if contains file_id before then none else last_page file_id (pages_of t))
    ∷ pages_for_files (file_id ∷ before) file_ids t
