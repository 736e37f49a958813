-- ===== src/Utils/FileId.antt =====
-- make_file_id of src/ocrd_utils/str.py.
pub mod Valid
use ocr_d_core.Common.{
  ℕ, Bool, true, false, ◌&&◌, ◌||◌, not, Option, none, some, List, [], ◌∷◌, ◌++◌, map, Text, codes,
  nat_eq, list_eq, nat_beq, if◌then◌else◌, ◌==◌, keep_if, is_some, replace, split_once,
}
use ocr_d_core.Models.Tree.{Regex, is_letter, is_file_id}
use ocr_d_core.Models.Find.{OcrdFile}

-- A character that `[^\w.-]` does not match.
abbrev pub is_id_char : Regex → ℕ → Bool
is_id_char regex c = regex.is_word c || (nat_beq c b'.' || nat_beq c b'-')

abbrev pub colon_to_underscore : ℕ → ℕ
colon_to_underscore c = if nat_beq c b':' then b'_' else c

-- `re.sub(r'^([^a-zA-Z_])', r'id_\1', ret)`
abbrev pub begin_with_letter : Text → Text
begin_with_letter [] = []
begin_with_letter (c ∷ t) = if is_letter c then c ∷ t else codes "id_" ++ c ∷ t

-- The three replacements in a text that is no valid ID.
unfoldable pub to_file_id : Regex → Text → Text
to_file_id regex t = keep_if (is_id_char regex) (begin_with_letter (map colon_to_underscore t))

-- `ocrd_file.pageId and ocrd_file.pageId not in ocrd_file.ID`
abbrev pub is_absent_page : Option Text → Text → Bool
is_absent_page none id = false
is_absent_page (some []) id = false
is_absent_page (some (c ∷ page_id)) id = not (is_some (split_once (c ∷ page_id) id))

-- What follows the output file group.
abbrev pub suffix_of : Option Text → Text → Text
suffix_of none id = id
suffix_of (some page_id) id = if is_absent_page (some page_id) id then page_id else id

-- The ID before it is made valid. The name of the file group is not empty.
unfoldable pub derived_id : OcrdFile → Option Text → Text → Text
derived_id f page_id output_file_grp =
    let replaced = replace f.file_grp output_file_grp f.file.id in
    if (replaced == f.file.id) && not (output_file_grp == f.file_grp)
    then output_file_grp ++ b'_' ∷ suffix_of page_id f.file.id
    else replaced

-- `make_file_id`, with the page of the file
unfoldable pub make_file_id : Regex → OcrdFile → Option Text → Text → Text
make_file_id regex f page_id output_file_grp =
    let id = derived_id f page_id output_file_grp in
    if is_file_id regex id then id else to_file_id regex id
