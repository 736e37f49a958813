-- ===== src/Utils/Urls.antt =====
-- The functions on URLs and paths of src/ocrd_utils/str.py.
pub mod Segments
pub mod Local
use ocr_d_core.Common.{
  ℕ, zero, suc, ◌-◌, Bool, true, false, ◌&&◌, ◌||◌, not, Option, none, some, List, [], ◌∷◌, ◌++◌,
  Text, codes, nat_eq, list_eq, nat_beq, if◌then◌else◌, is_nonempty, is_some, length, drop, leb,
  split, split_parts, split_once, starts_with, last_of,
}
use ocr_d_core.Common.Int.{ℤ, pos, negsuc}
use ocr_d_core.Common.Exec.{Result, ok, err, value_error}

-- Whether slashes are all that follows, up to the end of the text or a line feed at the end, which is
-- where `$` matches.
unfoldable pub only_slashes : Text → Bool
only_slashes [] = true
only_slashes (c ∷ t) =
    let rest = only_slashes t in
    if nat_beq c b'/' then rest else nat_beq c 10 && not (is_nonempty t)

-- `re.sub(r"/+$", "", url)`
unfoldable pub strip_slashes : Text → Text
strip_slashes [] = []
strip_slashes (c ∷ t) =
    let rest = strip_slashes t in
    if nat_beq c b'/' then (if only_slashes t then rest else c ∷ rest) else c ∷ rest

-- `t.split(c, 1)[0]`
unfoldable pub before_first : ℕ → Text → Text
before_first c [] = []
before_first c (d ∷ t) = let rest = before_first c t in if nat_beq d c then [] else d ∷ rest

-- `remove_non_path_from_url`
unfoldable pub remove_non_path_from_url : Text → Text
remove_non_path_from_url url = strip_slashes (before_first b'#' (before_first b'?' url))

-- `segments[n]`, or the empty text
unfoldable pub segment_at : ℕ → List Text → Text
segment_at n [] = []
segment_at zero (s ∷ segments) = s
segment_at (suc n) (s ∷ segments) = segment_at n segments

abbrev pub segment : ℤ → List Text → Text
segment (pos n) segments = segment_at n segments
segment (negsuc n) segments =
    if leb (suc n) (length segments) then segment_at (length segments - suc n) segments else []

-- `nth_url_segment`
unfoldable pub nth_url_segment : Text → ℤ → Text
nth_url_segment url n = segment n (split b'/' (remove_non_path_from_url url))

-- A prefix that is removed if it is there.
abbrev pub without_prefix : Text → ℕ → Text → Text
without_prefix prefix count url = if starts_with url prefix then drop count url else url

-- `start` with a slash at its end
unfoldable pub with_slash : Text → Text
with_slash [] = codes "/"
with_slash (c ∷ []) = if nat_beq c b'/' then c ∷ [] else c ∷ b'/' ∷ []
with_slash (c ∷ d ∷ t) = c ∷ with_slash (d ∷ t)

abbrev pub without_start : Option Text → Text → Result Text
without_start none url = ok url
without_start (some []) url = ok url
without_start (some (c ∷ start)) url =
    if starts_with url (c ∷ start)
    then ok (drop (length (with_slash (c ∷ start))) url)
    else err value_error

-- `get_local_filename`: of `file:/`, the slash is kept.
unfoldable pub get_local_filename : Text → Option Text → Result Text
get_local_filename url start =
    if starts_with url (codes "https://") || starts_with url (codes "http:")
    then err value_error
    else without_start start
        (without_prefix (codes "file:/") 5 (without_prefix (codes "file://") 7 url))

-- `is_local_filename`
unfoldable pub is_local_filename : Text → Bool
is_local_filename url =
    starts_with url (codes "file://") || not (is_some (split_once (codes "://") url))
