-- ===== src/Utils/Urls/Segments.antt =====
-- The last segment of a URL, and the name of a file below a directory: nth_url_segment and
-- get_local_filename of src/ocrd_utils/str.py.
use ocr_d_core.Common.{
  ◌≡◌, refl, ap, ◌∙◌, ℕ, ◌-◌, true, false, List, [], ◌∷◌, ◌++◌, Text, nat_eq, list_eq, nat_beq,
  nat_beq_iff, is_nonempty, length, leb, split, split_parts, contains, arith, subst, Bool-cases,
  inl, inr, length-append,
}
use mathlib.Core.List.{append_assoc}
use ocr_d_core.Common.Int.{negsuc}
use ocr_d_core.Utils.Urls.{
  only_slashes, strip_slashes, before_first, remove_non_path_from_url, segment, segment_at,
  nth_url_segment,
}

-- Text without a question mark or a number sign stays.
before_first-absent : (c : ℕ) (t : Text) → contains c t ≡ false → before_first c t ≡ t
unfolding before_first contains
before_first-absent c [] h = refl
before_first-absent c (d ∷ t) h =
    ground (arith, nat_beq_iff c d, nat_beq_iff d c, before_first-absent c t)

-- A name that is a segment.
abbrev IsName : Text → Type 0
IsName t = (is_nonempty t ≡ true) × (contains b'/' t ≡ false) × (contains 10 t ≡ false)

append-nonempty : (base name : Text) → is_nonempty name ≡ true → is_nonempty (base ++ name) ≡ true
append-nonempty [] name h = h
append-nonempty (c ∷ base) name h = refl

only_slashes-name : (base name : Text) → IsName name → only_slashes (base ++ name) ≡ false
unfolding only_slashes contains
only_slashes-name [] [] n = cc
only_slashes-name [] (c ∷ t) n =
    ground (arith, nat_beq_iff c b'/', nat_beq_iff b'/' c, nat_beq_iff c 10, nat_beq_iff 10 c)
only_slashes-name (c ∷ base) name n =
    ground (arith, only_slashes-name base name n, append-nonempty base name n.0)

strip_slashes-name : (name : Text) → contains b'/' name ≡ false → strip_slashes name ≡ name
unfolding strip_slashes contains
strip_slashes-name [] h = refl
strip_slashes-name (c ∷ t) h =
    ground (arith, nat_beq_iff c b'/', nat_beq_iff b'/' c, strip_slashes-name t)

strip_slashes-append :
    (base name : Text) → IsName name → strip_slashes (base ++ name) ≡ base ++ name
unfolding strip_slashes
strip_slashes-append [] name n = strip_slashes-name name n.1
strip_slashes-append (c ∷ base) name n =
    ground (arith, only_slashes-name base name n, strip_slashes-append base name n)

split_parts-name : (name : Text) → contains b'/' name ≡ false → split_parts b'/' name ≡ (name, [])
unfolding split_parts contains
split_parts-name [] h = refl
split_parts-name (c ∷ t) h =
    ground (arith, nat_beq_iff c b'/', nat_beq_iff b'/' c, split_parts-name t)

abbrev onto_head : ℕ → List Text → List Text
onto_head c [] = []
onto_head c (part ∷ parts) = (c ∷ part) ∷ parts

split-append :
    (base name : Text)
    → contains b'/' name ≡ false
    → split b'/' (base ++ b'/' ∷ name) ≡ split b'/' base ++ name ∷ []
unfolding split_parts
split-append [] name h = rw (split_parts-name name h) refl
split-append (c ∷ base) name h = elim (Bool-cases (nat_beq c b'/')) [
  | inl y ↦ rw y (ap ([] ∷◌) (split-append base name h))
  | inr n ↦ rw n (ap (onto_head c) (split-append base name h))
]

segment_at-last :
    (segments : List Text) (s : Text) → segment_at (length segments) (segments ++ s ∷ []) ≡ s
unfolding segment_at
segment_at-last [] s = refl
segment_at-last (x ∷ segments) s = segment_at-last segments s

segment_last : (segments : List Text) (s : Text) → segment (negsuc 0) (segments ++ s ∷ []) ≡ s
segment_last segments s =
    let count = length-append segments (s ∷ []) in
    let less : leb 1 (length (segments ++ s ∷ [])) ≡ true = ground (arith, count) in
    let index : length (segments ++ s ∷ []) - 1 ≡ length segments = omega (arith, count) in
    rw less (ap (λ n. segment_at n (segments ++ s ∷ [])) index ∙ segment_at-last segments s)

-- The last segment of a URL that ends in a slash and a name is that name: of a name that is not empty and
-- has no slash and no line feed, if there is no question mark and no number sign.
nth_url_segment-last :
    (base name : Text)
    → is_nonempty name ≡ true
    → contains b'/' name ≡ false
    → contains 10 name ≡ false
    → contains b'?' (base ++ b'/' ∷ name) ≡ false
    → contains b'#' (base ++ b'/' ∷ name) ≡ false
    → nth_url_segment (base ++ b'/' ∷ name) (negsuc 0) ≡ name
unfolding nth_url_segment remove_non_path_from_url
nth_url_segment-last base name e slash feed query fragment =
    let url = base ++ b'/' ∷ name in
    let whole : (base ++ b'/' ∷ []) ++ name ≡ url = append_assoc base (b'/' ∷ []) name in
    let path : remove_non_path_from_url url ≡ url =
      ap (λ t. strip_slashes (before_first b'#' t)) (before_first-absent b'?' url query)
      ∙ ap strip_slashes (before_first-absent b'#' url fragment)
      ∙ subst (λ t. strip_slashes t ≡ t) whole
          (strip_slashes-append (base ++ b'/' ∷ []) name (e, slash, feed)) in
    ap (λ t. segment (negsuc 0) (split b'/' t)) path
    ∙ ap (segment (negsuc 0)) (split-append base name slash)
    ∙ segment_last (split b'/' base) name
