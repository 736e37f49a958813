-- ===== src/Models/Mets/RemoveGroup.antt =====
-- remove_file_group of class OcrdMets of src/ocrd_models/ocrd_mets.py leaves files and links that
-- were there before.
use ocr_d_core.Common.{
  ◌≡◌, refl, Bool, Option, some, List, [], ◌∷◌, Text, arith, ◌≤◌, length, inl, inr, is_nonempty,
  Bool-cases, keep_if, starts_with, codes, drop, Option-cases, ◌==◌, list_eq, nat_eq, option_eq,
  map,
}
use ocr_d_core.Common.Exec.{ok, Result-cases}
use ocr_d_core.Models.Tree.{File, Group, Tree, Regex, groups_of}
use ocr_d_core.Models.Find.{OcrdFile, find_files, candidates}
use ocr_d_core.Models.Mets.{
  by_id_and_grp, set_groups, remove_file_by_id, remove_ids, drop_group, remove_group, remove_groups,
  remove_named_group, remove_file_group, find_group,
}
use ocr_d_core.Models.Mets.Lookup.{groups_of-set_groups}
use ocr_d_core.Models.Mets.Fewer.{
  Fewer, Fewer-refl, Fewer-trans, and_then-Fewer, remove_one_file-Fewer, length-keep_if_append,
}

remove_first-Fewer :
    (regex : Regex) (id : Text) (file_grp : Option Text) (t : Tree) (found : List OcrdFile)
    → find_files regex (by_id_and_grp id file_grp) t ≡ ok found
    → Fewer t (remove_file_by_id regex id file_grp t).1
unfolding remove_file_by_id
remove_first-Fewer regex id grp t [] e = rw (e, remove_file_by_id) (Fewer-refl t)
remove_first-Fewer regex id grp t (f ∷ found) e =
    rw (e, remove_file_by_id) (remove_one_file-Fewer f t)

remove_file_by_id-Fewer :
    (regex : Regex) (id : Text) (file_grp : Option Text) (t : Tree)
    → Fewer t (remove_file_by_id regex id file_grp t).1
unfolding remove_file_by_id
remove_file_by_id-Fewer regex id grp t =
    elim (Result-cases (find_files regex (by_id_and_grp id grp) t)) [
      | inl (found, e) ↦ remove_first-Fewer regex id grp t found e
      | inr (x, e) ↦ rw (e, remove_file_by_id) (Fewer-refl t)
    ]

remove_ids-Fewer :
    (regex : Regex) (use_name : Text) (files : List File) (t : Tree)
    → Fewer t (remove_ids regex use_name files t).1
unfolding remove_ids
remove_ids-Fewer regex grp [] t = Fewer-refl t
remove_ids-Fewer regex grp (file ∷ files) t =
    let after = (remove_file_by_id regex file.id (some grp) t).1 in
    let first = remove_file_by_id-Fewer regex file.id (some grp) t in
    elim (Result-cases (remove_file_by_id regex file.id (some grp) t).0) [
      | inl (g, e) ↦ rw (e, remove_ids) (Fewer-trans first (remove_ids-Fewer regex grp files after))
      | inr (x, e) ↦ rw (e, remove_ids) first
    ]

candidates-drop_group :
    (p : OcrdFile → Bool) (use_name : Text) (groups : List Group)
    → length (keep_if p (candidates (drop_group use_name groups)))
      ≤ length (keep_if p (candidates groups))
unfolding candidates drop_group
candidates-drop_group p grp [] = omega arith
candidates-drop_group p grp (group ∷ groups) =
    let here = map (λ file. record { file_grp = group.use_name; file = file }) group.files in
    let split = length-keep_if_append p here (candidates groups) in
    elim (Bool-cases (group.use_name == grp)) [
      | inl y ↦ rw y (omega (arith, split))
      | inr n ↦ rw n (
          omega (
            arith,
            split,
            length-keep_if_append p here (candidates (drop_group grp groups)),
            candidates-drop_group p grp groups,
          ))
    ]

drop_group-Fewer : (use_name : Text) (t : Tree) → Fewer t (set_groups (drop_group use_name) t)
unfolding drop_group
drop_group-Fewer grp t = record {
  files = λ p.
      rw (groups_of-set_groups (drop_group grp) t refl) (candidates-drop_group p grp (groups_of t));
  links = λ p. omega arith;
}

remove_group-Fewer :
    (regex : Regex) (recursive : Bool) (group : Group) (t : Tree)
    → Fewer t (remove_group regex recursive group t).1
unfolding remove_group
remove_group-Fewer regex recursive group t = elim (Bool-cases (is_nonempty group.files)) [
  | inr n ↦ rw (n, remove_group) (drop_group-Fewer group.use_name t)
  | inl y ↦ elim (Bool-cases recursive) [
    | inr n ↦ rw (y, n, remove_group) (Fewer-refl t)
    | inl r ↦
        rw (y, r, remove_group)
          (and_then-Fewer (remove_ids regex group.use_name group.files)
            (λ u s. (ok tt, set_groups (drop_group group.use_name) s)) t
            (remove_ids-Fewer regex group.use_name group.files t)
            (λ u s. drop_group-Fewer group.use_name s))
  ]
]

remove_groups-Fewer :
    (regex : Regex) (recursive : Bool) (groups : List Group) (t : Tree)
    → Fewer t (remove_groups regex recursive groups t).1
unfolding remove_groups
remove_groups-Fewer regex recursive [] t = Fewer-refl t
remove_groups-Fewer regex recursive (group ∷ groups) t =
    let after = (remove_group regex recursive group t).1 in
    let first = remove_group-Fewer regex recursive group t in
    elim (Result-cases (remove_group regex recursive group t).0) [
      | inl (u, e) ↦
          rw (e, remove_groups)
            (Fewer-trans first (remove_groups-Fewer regex recursive groups after))
      | inr (x, e) ↦ rw (e, remove_groups) first
    ]

remove_named_group-Fewer :
    (regex : Regex) (use_name : Text) (recursive force : Bool) (t : Tree)
    → Fewer t (remove_named_group regex use_name recursive force t).1
unfolding remove_named_group
remove_named_group-Fewer regex grp recursive force t =
    elim (Option-cases (find_group grp (groups_of t))) [
      | inl n ↦ rw (n, remove_named_group) (Fewer-refl t)
      | inr (group, e) ↦ rw (e, remove_named_group) (remove_group-Fewer regex recursive group t)
    ]

pub remove_file_group-Fewer :
    (regex : Regex) (use_name : Text) (recursive force : Bool) (t : Tree)
    → Fewer t (remove_file_group regex use_name recursive force t).1
unfolding remove_file_group
remove_file_group-Fewer regex grp recursive force t = elim (Option-cases t.file_sec) [
  | inl n ↦ simp (n, remove_file_group) (Fewer-refl t)
  | inr (groups, e) ↦ elim (Bool-cases (starts_with grp (codes "//"))) [
    | inl y ↦
        simp (e, y, remove_file_group)
          (remove_groups-Fewer regex recursive
            (keep_if (λ group. regex.fullmatch (drop 2 grp) group.use_name) groups) t)
    | inr n ↦ simp (e, n, remove_file_group) (remove_named_group-Fewer regex grp recursive force t)
  ]
]
