-- ===== src/Models/Tree.antt =====
-- The elements of a METS file that src/ocrd_models/ocrd_mets.py and ocrd_file.py read and write.
-- mets:file and mets:fileGrp have the attributes that the schema requires, and a mets:file has at
-- most one mets:FLocat of each kind. A mets:fptr stands for its FILEID.
use ocr_d_core.Common.{
  ℕ, Bool, true, false, Option, none, some, List, [], ◌∷◌, Text, nat_eq, nat_beq, list_eq,
  if◌then◌else◌, option_eq, leb,
}

-- The identity of an element, which stays the same when its attributes change.
pub record File : Type 0 where
  pub el : ℕ
  pub id : Text
  pub mimetype : Option Text
  pub url : Option Text
  pub local_filename : Option Text

pub record Group : Type 0 where
  pub use_name : Text
  pub files : List File

-- A mets:div of TYPE page with its mets:fptr children.
pub record Page : Type 0 where
  pub page_id : Option Text
  pub order : Option Text
  pub orderlabel : Option Text
  pub label : Option Text
  pub contentids : Option Text
  pub fptrs : List Text

-- The mets:fileSec, and the mets:div of TYPE physSequence in the physical mets:structMap, if any.
-- `next_el` is larger than the identity of every element.
pub record Tree : Type 0 where
  pub file_sec : Option (List Group)
  pub phys_sequence : Option (List Page)
  pub next_el : ℕ

-- METS_PAGE_DIV_ATTRIBUTE
pub data PageAttr : Type 0 where
  by_id by_order by_orderlabel by_label by_contentids : PageAttr

abbrev pub page_attrs : List PageAttr
page_attrs = by_id ∷ by_order ∷ by_orderlabel ∷ by_label ∷ by_contentids ∷ []

-- `page.get(a.name)`
abbrev pub page_attr : PageAttr → Page → Option Text
page_attr by_id page = page.page_id
page_attr by_order page = page.order
page_attr by_orderlabel page = page.orderlabel
page_attr by_label page = page.label
page_attr by_contentids page = page.contentids

abbrev pub groups_of : Tree → List Group
groups_of t = elim t.file_sec [ none ↦ [] | some groups ↦ groups ]

abbrev pub pages_of : Tree → List Page
pages_of t = elim t.phys_sequence [ none ↦ [] | some pages ↦ pages ]

-- The regular expressions of Python's `re`, which are not part of the repository.
pub record Regex : Type 0 where
  -- `re.compile(p).fullmatch(t)` and `re.compile(p).match(t)`
  pub fullmatch : Text → Text → Bool
  pub match_start : Text → Text → Bool
  -- `\w`
  pub is_word : ℕ → Bool

abbrev pub is_letter : ℕ → Bool
is_letter c = if leb b'a' c then leb c b'z' else if leb b'A' c then leb c b'Z' else nat_beq c b'_'

unfoldable pub all_file_id : Regex → Text → Bool
all_file_id regex [] = true
all_file_id regex (c ∷ t) =
    let rest = all_file_id regex t in
    if regex.is_word c
    then rest
    else if nat_beq c b'.'
    then rest
    else if nat_beq c b'-'
    then rest
    else false

-- REGEX_FILE_ID, `^[a-zA-Z_][\w.-]*$`
unfoldable pub is_file_id : Regex → Text → Bool
is_file_id regex [] = false
is_file_id regex (c ∷ t) = if is_letter c then all_file_id regex t else false

-- `empty_mets`: METS_XML_EMPTY has a mets:fileSec without groups and a physSequence without pages.
abbrev pub empty_mets : Tree
empty_mets = record { file_sec = some []; phys_sequence = some []; next_el = 0 }
