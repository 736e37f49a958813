-- ===== src/Network/Pages.antt =====
-- expand_page_ids of src/ocrd_network/utils.py.
use ocr_d_core.Common.{
  Option, none, some, List, [], ◌∷◌, ◌++◌, map, if◌then◌else◌, Text, codes, split, split_once,
  starts_with, drop,
}
use ocr_d_core.Utils.Strings.{generate_range}
use ocr_d_core.Network.Jobs.{PageId, literal, pattern_of}

-- One token of the list; `none` is ValueError. REGEX_PREFIX is `//`.
unfoldable pub expand_token : Text → Option (List PageId)
expand_token token =
    if starts_with token (codes "//")
    then some (pattern_of (drop 2 token) ∷ [])
    else elim (split_once (codes "..") token) [
      | none ↦ some (literal token ∷ [])
      | some (start, end) ↦ elim (generate_range start end) [
        | none ↦ none
        | some range ↦ some (map literal range)
      ]
    ]

unfoldable pub expand_tokens : List Text → Option (List PageId)
expand_tokens [] = some []
expand_tokens (token ∷ tokens) =
    let rest = expand_tokens tokens in
    elim (expand_token token) [
      | none ↦ none
      | some pages ↦ elim rest [ none ↦ none | some more ↦ some (pages ++ more) ]
    ]

unfoldable pub expand_page_ids : Option Text → Option (List PageId)
expand_page_ids none = some []
expand_page_ids (some []) = some []
expand_page_ids (some (c ∷ page_id)) = expand_tokens (split b',' (c ∷ page_id))
