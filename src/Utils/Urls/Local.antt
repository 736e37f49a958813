-- ===== src/Utils/Urls/Local.antt =====
-- Names of files below a directory: get_local_filename of src/ocrd_utils/str.py.
use ocr_d_core.Common.{
  ◌≡◌, refl, ap, true, false, some, [], ◌∷◌, ◌++◌, Text, codes, nat_eq, list_eq, is_nonempty,
  starts_with, arith, drop-length_append,
}
use ocr_d_core.Common.Exec.{ok}
use ocr_d_core.Utils.Urls.{with_slash, get_local_filename}

starts_with-append : (prefix t : Text) → starts_with (prefix ++ t) prefix ≡ true
unfolding starts_with
starts_with-append [] t = refl
starts_with-append (c ∷ prefix) t = ground (arith, starts_with-append prefix t)

with_slash-starts_with : (start t : Text) → starts_with (with_slash start ++ t) start ≡ true
unfolding with_slash starts_with
with_slash-starts_with [] t = refl
with_slash-starts_with (c ∷ []) t = ground arith
with_slash-starts_with (c ∷ d ∷ start) t = ground (arith, with_slash-starts_with (d ∷ start) t)

-- For a path below a directory that is given with or without a slash at its end, `get_local_filename`
-- gives the path from that directory on. The path is no URL.
pub get_local_filename-below :
    (start rest : Text)
    → is_nonempty start ≡ true
    → starts_with (with_slash start ++ rest) (codes "https://") ≡ false
    → starts_with (with_slash start ++ rest) (codes "http:") ≡ false
    → starts_with (with_slash start ++ rest) (codes "file://") ≡ false
    → starts_with (with_slash start ++ rest) (codes "file:/") ≡ false
    → get_local_filename (with_slash start ++ rest) (some start) ≡ ok rest
unfolding get_local_filename
get_local_filename-below [] rest e h1 h2 h3 h4 = cc
get_local_filename-below (c ∷ start) rest e h1 h2 h3 h4 =
    rw (h1, h2, h3, h4, with_slash-starts_with (c ∷ start) rest)
      (ap ok (drop-length_append (with_slash (c ∷ start)) rest))
