-- ===== src/Models/Cache/Same.antt =====
-- The methods of class OcrdMets of src/ocrd_models/ocrd_mets.py that read the caches agree with those
-- that read the elements.
use ocr_d_core.Common.{
  ◌≡◌, refl, sym, ap, ◌∙◌, Bool, true, false, ◌&&◌, Option, none, some, List, [], ◌∷◌, map, arith,
  ◌==◌, In, Distinct, Text, nat_eq, list_eq, option_eq, list_beq_iff, keep_if, keep_if-append,
  keep_if_all, starts_with, codes, Bool-cases, Option-cases, inl, inr, subst, beq_refl,
}
use ocr_d_core.Common.Dict.{Dict, get, values}
use ocr_d_core.Models.Tree.{File, Group, Page, Tree, Regex, groups_of, pages_of}
use ocr_d_core.Models.Find.{
  OcrdFile, Query, candidates, file_passes, grp_passes, listed, is_result, needle_matches, passes,
}
use ocr_d_core.Models.Cache.{
  files_by_id, fill_caches, cached_files, files_of_group, cached_candidates, cached_results,
}
use ocr_d_core.Models.Cache.Fill.{put_all-Distinct, append_nil}

-- Groups have distinct names, the files of a group have distinct IDs, and pages have distinct IDs.
pub record IsDistinct (t : Tree) : Type 0 where
  pub groups : Distinct (map (λ (group : Group). group.use_name) (groups_of t))
  pub files :
      (group : Group)
      → In group (groups_of t)
      → Distinct (map (λ (file : File). file.id) group.files)
  pub pages : Distinct (map (λ (page : Page). page.page_id) (pages_of t))

abbrev in_group : Text → File → OcrdFile
in_group use_name file = record { file_grp = use_name; file = file }

values-map : {A B : Type 0} (f : A → B) (xs : List A) → values (map (λ x. (f x, x)) xs) ≡ xs
values-map f [] = refl
values-map f (x ∷ xs) = ap (x ∷◌) (values-map f xs)

values-files_by_id :
    (group : Group)
    → Distinct (map (λ (file : File). file.id) group.files)
    → values (files_by_id group) ≡ group.files
values-files_by_id group d =
    ap values (put_all-Distinct (λ (file : File). file.id) (λ file. file) [] group.files d)
    ∙ values-map (λ (file : File). file.id) group.files

abbrev pub entries : List Group → Dict Text (Dict Text File)
entries groups = map (λ (group : Group). (group.use_name, files_by_id group)) groups

AreDistinct : List Group → Type 0
AreDistinct groups =
    (group : Group) → In group groups → Distinct (map (λ (file : File). file.id) group.files)

cached_files-entries :
    (groups : List Group) → AreDistinct groups → cached_files (entries groups) ≡ candidates groups
unfolding AreDistinct cached_files candidates
cached_files-entries [] d = refl
cached_files-entries (group ∷ groups) d =
    rw
      (
        values-files_by_id group (d group (inl refl)),
        cached_files-entries groups (λ g m. d g (inr m)),
      )
      refl

-- The files of other groups.
keep_if-other_group :
    (use_name : Text) (files : List File) (name : Text)
    → (use_name == name) ≡ false
    → keep_if (λ (f : OcrdFile). use_name == f.file_grp) (map (in_group name) files) ≡ []
unfolding keep_if
keep_if-other_group grp [] name h = refl
keep_if-other_group grp (file ∷ files) name h = rw h (keep_if-other_group grp files name h)

keep_if-same_group :
    (use_name : Text) (files : List File)
    → keep_if (λ (f : OcrdFile). use_name == f.file_grp) (map (in_group use_name) files)
      ≡ map (in_group use_name) files
unfolding keep_if
keep_if-same_group grp [] = refl
keep_if-same_group grp (file ∷ files) =
    rw (beq_refl grp) (ap (in_group grp file ∷◌) (keep_if-same_group grp files))

keep_if-no_group :
    (use_name : Text) (groups : List Group)
    → ¬ In use_name (map (λ (group : Group). group.use_name) groups)
    → keep_if (λ (f : OcrdFile). use_name == f.file_grp) (candidates groups) ≡ []
unfolding candidates keep_if
keep_if-no_group grp [] h = refl
keep_if-no_group grp (group ∷ groups) h =
    let here = map (in_group group.use_name) group.files in
    let test : OcrdFile → Bool = λ f. grp == f.file_grp in
    keep_if-append test here (candidates groups)
    ∙ rw
        (
          keep_if-other_group grp group.files group.use_name
              (ground (arith, list_beq_iff grp group.use_name)),
          keep_if-no_group grp groups (λ m. h (inr m)),
        )
        refl

-- The entry of a group holds the files of that name.
files_of_group-entries :
    (use_name : Text) (groups : List Group)
    → AreDistinct groups
    → Distinct (map (λ (group : Group). group.use_name) groups)
    → files_of_group use_name (get use_name (entries groups))
      ≡ keep_if (λ (f : OcrdFile). use_name == f.file_grp) (candidates groups)
unfolding AreDistinct get candidates keep_if
files_of_group-entries grp [] d n = refl
files_of_group-entries grp (group ∷ groups) d n =
    let here = map (in_group group.use_name) group.files in
    let test : OcrdFile → Bool = λ f. grp == f.file_grp in
    let split = keep_if-append test here (candidates groups) in
    elim (Bool-cases (group.use_name == grp)) [
      | inl y ↦
          let name = group.use_name in
          let same : OcrdFile → Bool = λ f. name == f.file_grp in
          let found =
            keep_if-append same here (candidates groups)
            ∙ rw (keep_if-same_group name group.files, keep_if-no_group name groups n.0)
                (append_nil here) in
          subst
            (λ g.
              files_of_group g (get g (entries (group ∷ groups)))
              ≡ keep_if (λ (f : OcrdFile). g == f.file_grp) (candidates (group ∷ groups)))
            ((list_beq_iff name grp).0 y)
            (rw (beq_refl name, values-files_by_id group (d group (inl refl))) (sym found))
      | inr m ↦
          let differs : (grp == group.use_name) ≡ false =
            ground (arith, list_beq_iff group.use_name grp, list_beq_iff grp group.use_name) in
          rw m (
            files_of_group-entries grp groups (λ g x. d g (inr x)) n.1
            ∙ sym (split ∙ rw (keep_if-other_group grp group.files group.use_name differs) refl))
    ]

pub fill_caches-files :
    (t : Tree)
    → Distinct (map (λ (group : Group). group.use_name) (groups_of t))
    → (fill_caches t).files ≡ entries (groups_of t)
unfolding fill_caches
fill_caches-files t d = elim (Option-cases t.file_sec) [
  | inl e ↦ simp (e, fill_caches) (rw e refl)
  | inr (groups, e) ↦
      let same : groups ≡ groups_of t = rw e refl in
      simp (e, fill_caches)
        (put_all-Distinct (λ (group : Group). group.use_name) files_by_id [] groups (rw e at d)
          ∙ ap entries same)
]

abbrev pub is_regex : Option Text → Bool
is_regex none = false
is_regex (some needle) = starts_with needle (codes "//")

-- The candidates by `fileGrp`.
cached_candidates-passes :
    (regex : Regex) (file_grp : Option Text) (t : Tree)
    → IsDistinct t
    → is_regex file_grp ≡ false
    → cached_candidates regex file_grp (fill_caches t)
      ≡ keep_if
          (λ (f : OcrdFile). passes file_grp (λ needle. needle_matches regex needle f.file_grp))
          (candidates (groups_of t))
unfolding cached_candidates needle_matches AreDistinct
cached_candidates-passes regex none t d h =
    ap cached_files (fill_caches-files t d.groups)
    ∙ cached_files-entries (groups_of t) d.files
    ∙ sym (keep_if_all (λ f. true) (candidates (groups_of t)) (λ f m. refl))
cached_candidates-passes regex (some []) t d h =
    ap cached_files (fill_caches-files t d.groups)
    ∙ cached_files-entries (groups_of t) d.files
    ∙ sym (keep_if_all (λ f. true) (candidates (groups_of t)) (λ f m. refl))
cached_candidates-passes regex (some (c ∷ grp)) t d h = rw h (
    ap (λ x. files_of_group (c ∷ grp) (get (c ∷ grp) x)) (fill_caches-files t d.groups)
    ∙ files_of_group-entries (c ∷ grp) (groups_of t) d.files d.groups)

keep_if-keep_if :
    {A : Type 0} (p q r : A → Bool) (xs : List A)
    → ((x : A) → (q x && p x) ≡ r x)
    → keep_if p (keep_if q xs) ≡ keep_if r xs
unfolding keep_if
keep_if-keep_if p q r [] h = refl
keep_if-keep_if p q r (x ∷ xs) h = ground (arith, h x, keep_if-keep_if p q r xs h)

and_exchange : (a b c : Bool) → (b && (a && c)) ≡ (a && (b && c))
and_exchange a b c = ground arith

-- For a METS file with distinct names and IDs, `find_files` with filled caches finds the same files in the
-- same order as without caches, whatever files the pages that are asked for have, unless `fileGrp` is a
-- regular expression.
pub cached_results-same :
    (regex : Regex) (query : Query) (page_files : Option (List Text)) (t : Tree)
    → IsDistinct t
    → is_regex query.by_file_grp ≡ false
    → cached_results regex query page_files (fill_caches t)
      ≡ keep_if (is_result regex query page_files) (candidates (groups_of t))
unfolding cached_results grp_passes
cached_results-same regex query page_files t d h =
    let test : OcrdFile → Bool =
      λ f. file_passes regex query page_files f.file && listed query f.file_grp in
    let in_grp : OcrdFile → Bool = λ f. grp_passes regex query f.file_grp in
    ap (keep_if test) (cached_candidates-passes regex query.by_file_grp t d h)
    ∙ keep_if-keep_if test in_grp (is_result regex query page_files) (candidates (groups_of t))
        (λ f.
          and_exchange (file_passes regex query page_files f.file) (in_grp f)
            (listed query f.file_grp))
