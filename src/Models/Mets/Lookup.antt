-- ===== src/Models/Mets/Lookup.antt =====
-- Looking files up by an ID and a group, as class OcrdMets of src/ocrd_models/ocrd_mets.py does before
-- it adds or removes a file.
use ocr_d_core.Common.{
  ◌≡◌, refl, sym, ap, fun_ext, Bool, true, ◌&&◌, none, some, List, [], ◌∷◌, Text, nat_eq, list_eq,
  option_eq, ◌==◌, keep_if, starts_with, arith, Option-cases, inl, inr, contains,
}
use ocr_d_core.Common.Exec.{ok}
use ocr_d_core.Models.Tree.{Group, Tree, Regex, groups_of, is_file_id}
use ocr_d_core.Models.Find.{
  OcrdFile, candidates, find_files, files_of_pages, is_result, needle_matches, file_passes,
  grp_passes, listed,
}
use ocr_d_core.Models.Mets.{by_id_and_grp, set_groups}

-- Whether a file has this ID and stands in a group of this name.
abbrev pub has_key : Text → Text → OcrdFile → Bool
has_key id use_name f = id == f.file.id && use_name == f.file_grp

-- A valid ID is no regular expression.
needle_matches_literal :
    (regex : Regex) (needle value : Text)
    → is_file_id regex needle ≡ true
    → needle_matches regex needle value ≡ (needle == value)
unfolding is_file_id needle_matches starts_with
needle_matches_literal regex [] value h = cc
needle_matches_literal regex (c ∷ needle) value h = ground arith

is_result-has_key :
    (regex : Regex) (id use_name : Text) (f : OcrdFile)
    → is_file_id regex id ≡ true
    → is_file_id regex use_name ≡ true
    → is_result regex (by_id_and_grp id (some use_name)) none f ≡ has_key id use_name f
unfolding is_file_id file_passes grp_passes listed contains
is_result-has_key regex [] grp f h k = cc
is_result-has_key regex (c ∷ id) [] f h k = cc
is_result-has_key regex (c ∷ id) (d ∷ grp) f h k = ground (
  arith,
  needle_matches_literal regex (c ∷ id) f.file.id h,
  needle_matches_literal regex (d ∷ grp) f.file_grp k,
)

pub find_files-has_key :
    (regex : Regex) (id use_name : Text) (t : Tree)
    → is_file_id regex id ≡ true
    → is_file_id regex use_name ≡ true
    → find_files regex (by_id_and_grp id (some use_name)) t
      ≡ ok (keep_if (has_key id use_name) (candidates (groups_of t)))
unfolding find_files files_of_pages
find_files-has_key regex id grp t h k =
    ap (λ p. ok (keep_if p (candidates (groups_of t))))
      (fun_ext (λ f. is_result-has_key regex id grp f h k))

pub groups_of-set_groups :
    (f : List Group → List Group) (t : Tree)
    → f [] ≡ []
    → groups_of (set_groups f t) ≡ f (groups_of t)
groups_of-set_groups f t h = elim (Option-cases t.file_sec) [
  | inl e ↦ rw e (sym h)
  | inr (groups, e) ↦ rw e refl
]
