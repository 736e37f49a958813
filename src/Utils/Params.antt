-- ===== src/Utils/Params.antt =====
-- Parameters as text: parse_json_string_with_comments and parse_json_string_or_file of
-- src/ocrd_utils/str.py, and set_json_key_value_overrides of src/ocrd_utils/introspect.py.
pub mod Printed
use ocr_d_core.Common.{
  ℕ, zero, suc, ◌+◌, Bool, true, false, ◌&&◌, ◌||◌, not, Option, none, some, List, [], ◌∷◌, Text,
  list_eq, nat_eq, ◌==◌, if◌then◌else◌, strip,
}
use ocr_d_core.Common.Json.{Json, Members}
use ocr_d_core.Common.Exec.{Result, ok, err, value_error}

-- What `open(value, 'r')` and `f.read()` give: the text, an OSError, or a ValueError, for a name
-- or for bytes that are not text.
pub data Opened : Type 0 where
  contents : Text → Opened
  os_error bad_text : Opened

-- Python's white space, files and json; `json_loads` gives `none` for a JSONDecodeError.
pub record Reader : Type 0 where
  pub is_space : ℕ → Bool
  pub open_text : Text → Opened
  pub json_loads : Text → Option Json
  pub json_dumps : Json → Text

-- `.*$` from a place in a line: how many characters it matches.
unfoldable pub line_length : Text → ℕ
line_length [] = 0
line_length (c ∷ t) = let rest = line_length t in if c == 10 then 0 else suc rest

-- `\s*#.*$`: how many characters it matches, and 0 if it does not match.
unfoldable pub comment_length : Reader → Text → ℕ
comment_length r [] = 0
comment_length r (c ∷ t) =
    let later = comment_length r t in
    if c == b'#'
    then suc (line_length t)
    else if r.is_space c
    then (if later == 0 then 0 else suc later)
    else 0

-- `re.sub(r'^\s*#.*$', '', val, flags=re.MULTILINE)`: `skip` characters still belong to a comment,
-- and `at_start` says that a line starts here.
unfoldable pub without_comments : Reader → ℕ → Bool → Text → Text
without_comments r skip at_start [] = []
without_comments r (suc skip) at_start (c ∷ t) = without_comments r skip (c == 10) t
without_comments r zero at_start (c ∷ t) = elim (if at_start then comment_length r (c ∷ t) else 0) [
  | zero ↦ c ∷ without_comments r zero (c == 10) t
  | suc skip ↦ without_comments r skip (c == 10) t
]

-- `parse_json_string_with_comments`
unfoldable pub parse_json_string_with_comments : Reader → Text → Option Json
parse_json_string_with_comments r val = r.json_loads (without_comments r zero true val)

-- `re.fullmatch(r"\s*", value)`
unfoldable pub only_spaces : Reader → Text → Bool
only_spaces r [] = true
only_spaces r (c ∷ t) = r.is_space c && only_spaces r t

-- `obj[key] = value`
unfoldable pub set_member : Text → Json → Members → Members
set_member key value Members.end = Members.member key value Members.end
set_member key value (Members.member k v members) =
    let rest = set_member key value members in
    if k == key then Members.member k value members else Members.member k v rest

-- `{**obj, **other}`
unfoldable pub merge_members : Members → Members → Members
merge_members members Members.end = members
merge_members members (Members.member key value other) =
    merge_members (set_member key value members) other

abbrev pub as_object : Option Json → Result Members
as_object (some (Json.obj members)) = ok members
as_object _ = err value_error

-- The value of a text that is not blank.
unfoldable pub parse_value : Reader → Text → Result Members
parse_value r value = elim (r.open_text value) [
  | contents t ↦ as_object (parse_json_string_with_comments r t)
  | os_error ↦ as_object (parse_json_string_with_comments r (strip r.is_space value))
  | bad_text ↦ err value_error
]

-- The loop of `parse_json_string_or_file`.
unfoldable pub parse_values : Reader → Members → List Text → Result Members
parse_values r ret [] = ok ret
parse_values r ret (value ∷ values) =
    elim (if only_spaces r value then ok Members.end else parse_value r value) [
      | err e ↦ err e
      | ok value_parsed ↦ parse_values r (merge_members ret value_parsed) values
    ]

-- `parse_json_string_or_file`
abbrev pub parse_json_string_or_file : Reader → List Text → Result Members
parse_json_string_or_file r values = parse_values r Members.end values

-- `set_json_key_value_overrides` for one pair
unfoldable pub set_json_key_value_overrides : Reader → Members → Text → Text → Members
set_json_key_value_overrides r members k v = elim (r.json_loads v) [
  | some value ↦ set_member k value members
  | none ↦ set_member k (Json.str v) members
]
