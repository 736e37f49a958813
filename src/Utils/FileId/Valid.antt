-- ===== src/Utils/FileId/Valid.antt =====
-- The IDs that make_file_id of src/ocrd_utils/str.py makes.
use ocr_d_core.Common.{
  ◌≡◌, refl, ap, ◌∙◌, ℕ, true, false, Option, [], ◌∷◌, ◌++◌, map, Text, nat_eq, list_eq, keep_if,
  replace, replace_from, starts_with, length, drop, is_nonempty, arith, Bool-cases, inl, inr,
}
use ocr_d_core.Models.Tree.{Regex, is_letter, is_file_id, all_file_id}
use ocr_d_core.Models.Find.{OcrdFile}
use ocr_d_core.Utils.FileId.{
  is_id_char, colon_to_underscore, begin_with_letter, to_file_id, derived_id, make_file_id,
}

all_file_id-keep_if :
    (regex : Regex) (t : Text) → all_file_id regex (keep_if (is_id_char regex) t) ≡ true
unfolding all_file_id keep_if
all_file_id-keep_if regex [] = refl
all_file_id-keep_if regex (c ∷ t) = ground (arith, all_file_id-keep_if regex t)

keep_if-is_file_id :
    (regex : Regex) (c : ℕ) (t : Text)
    → regex.is_word c ≡ true
    → is_letter c ≡ true
    → is_file_id regex (keep_if (is_id_char regex) (c ∷ t)) ≡ true
unfolding is_file_id keep_if
keep_if-is_file_id regex c t w l = rw (w, l) (all_file_id-keep_if regex t)

begin_with_letter-letter :
    (c : ℕ) (t : Text) → is_letter c ≡ true → begin_with_letter (c ∷ t) ≡ c ∷ t
begin_with_letter-letter c t y = ground (arith, y)

begin_with_letter-other :
    (c : ℕ) (t : Text)
    → is_letter c ≡ false
    → begin_with_letter (c ∷ t) ≡ b'i' ∷ b'd' ∷ b'_' ∷ c ∷ t
begin_with_letter-other c t n = ground (arith, n)

to_file_id-is_file_id :
    (regex : Regex) (t : Text)
    → ((c : ℕ) → is_letter c ≡ true → regex.is_word c ≡ true)
    → is_nonempty t ≡ true
    → is_file_id regex (to_file_id regex t) ≡ true
unfolding to_file_id
to_file_id-is_file_id regex [] words h = cc
to_file_id-is_file_id regex (c ∷ t) words h =
    elim (Bool-cases (is_letter (colon_to_underscore c))) [
      | inl y ↦
          let d = colon_to_underscore c in
          ap (λ x. is_file_id regex (keep_if (is_id_char regex) x))
            (begin_with_letter-letter d (map colon_to_underscore t) y)
          ∙ keep_if-is_file_id regex d (map colon_to_underscore t) (words d y) y
      | inr n ↦
          let rest = b'd' ∷ b'_' ∷ colon_to_underscore c ∷ map colon_to_underscore t in
          ap (λ x. is_file_id regex (keep_if (is_id_char regex) x))
            (begin_with_letter-other (colon_to_underscore c) (map colon_to_underscore t) n)
          ∙ keep_if-is_file_id regex b'i' rest (words b'i' refl) refl
    ]

replace_from-nonempty :
    (old new t : Text)
    → is_nonempty new ≡ true
    → is_nonempty t ≡ true
    → is_nonempty (replace old new t) ≡ true
unfolding replace_from
replace_from-nonempty old [] t n h = cc
replace_from-nonempty old (d ∷ new) [] n h = cc
replace_from-nonempty old (d ∷ new) (c ∷ t) n h = ground arith

derived_id-nonempty :
    (f : OcrdFile) (page_id : Option Text) (output_file_grp : Text)
    → is_nonempty f.file.id ≡ true
    → is_nonempty output_file_grp ≡ true
    → is_nonempty (derived_id f page_id output_file_grp) ≡ true
unfolding derived_id
derived_id-nonempty f page_id [] i o = cc
derived_id-nonempty f page_id (c ∷ grp) i o =
    ground (arith, replace_from-nonempty f.file_grp (c ∷ grp) f.file.id o i)

-- The ID that `make_file_id` derives for a file with an ID and a file group that is not empty is a valid
-- ID. `\w` matches the ASCII letters and the underscore.
pub make_file_id-is_file_id :
    (regex : Regex) (f : OcrdFile) (page_id : Option Text) (output_file_grp : Text)
    → ((c : ℕ) → is_letter c ≡ true → regex.is_word c ≡ true)
    → is_nonempty f.file.id ≡ true
    → is_nonempty output_file_grp ≡ true
    → is_file_id regex (make_file_id regex f page_id output_file_grp) ≡ true
unfolding make_file_id
make_file_id-is_file_id regex f page_id grp words i o =
    let id = derived_id f page_id grp in
    elim (Bool-cases (is_file_id regex id)) [
      | inl y ↦ rw (y, make_file_id) y
      | inr n ↦
          rw (n, make_file_id)
            (to_file_id-is_file_id regex id words (derived_id-nonempty f page_id grp i o))
    ]

starts_with-drop :
    (t prefix : Text) → starts_with t prefix ≡ true → prefix ++ drop (length prefix) t ≡ t
unfolding starts_with
starts_with-drop t [] h = refl
starts_with-drop [] (p ∷ prefix) h = cc
starts_with-drop (c ∷ t) (p ∷ prefix) h = ground (arith, starts_with-drop t prefix)
