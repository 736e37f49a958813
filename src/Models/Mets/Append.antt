-- ===== src/Models/Mets/Append.antt =====
-- The groups of a METS file when a file is put into one: append_to and move_fptrs, for add_file of class OcrdMets of src/ocrd_models/ocrd_mets.py.
use ocr_d_core.Common.{
  ◌≡◌, refl, sym, ap, ◌∙◌, Bool, true, Option, none, some, List, [], ◌∷◌, ◌++◌, map, Text, nat_eq,
  list_eq, option_eq, ◌==◌, keep_if, keep_if-append, Bool-cases, list_beq_iff, arith, is_some, inl,
  inr, if◌then◌else◌, beq_refl, Option-cases, contains,
}
use ocr_d_core.Common.Exec.{ok}
use ocr_d_core.Models.Tree.{File, Group, Tree, groups_of}
use ocr_d_core.Models.Pages.{set_physical_page_for_file, remove_physical_page_fptr}
use ocr_d_core.Models.Find.{OcrdFile, candidates}
use ocr_d_core.Models.Mets.{
  find_group, append_to, add_group, add_file_group, set_page_id, set_page_ids, move_fptrs,
}
use ocr_d_core.Models.Mets.Lookup.{has_key}

-- Links of files to pages leave the groups alone.
pub groups_of-set_page_id :
    (file_id : Text) (page_id : Option Text) (t : Tree)
    → groups_of (set_page_id file_id page_id t) ≡ groups_of t
unfolding set_page_id set_physical_page_for_file
groups_of-set_page_id f none t = refl
groups_of-set_page_id f (some p) t = refl

groups_of-set_page_ids :
    (file_id : Text) (page_ids : List (Option Text)) (t : Tree)
    → groups_of (set_page_ids file_id page_ids t) ≡ groups_of t
unfolding set_page_ids
groups_of-set_page_ids f [] t = refl
groups_of-set_page_ids f (p ∷ ps) t =
    groups_of-set_page_ids f ps (set_page_id f p t) ∙ groups_of-set_page_id f p t

pub groups_of-move_fptrs :
    (old new : Text) (t : Tree) → groups_of (move_fptrs old new t) ≡ groups_of t
unfolding move_fptrs remove_physical_page_fptr
groups_of-move_fptrs old new t =
    groups_of-set_page_ids new (remove_physical_page_fptr old t).0
      (remove_physical_page_fptr old t).1

-- The group exists after it is added.
find_group-append :
    (use_name : Text) (groups : List Group)
    → is_some (find_group use_name (groups ++ (record { use_name = use_name; files = [] }) ∷ []))
      ≡ true
unfolding find_group
find_group-append grp [] = ground (arith, list_beq_iff grp grp)
find_group-append grp (group ∷ groups) = ground (arith, find_group-append grp groups)

find_group-add_group :
    (use_name : Text) (groups : List Group)
    → is_some (find_group use_name (add_group use_name groups)) ≡ true
unfolding add_group
find_group-add_group grp groups = elim (Option-cases (find_group grp groups)) [
  | inl n ↦ rw (n, add_group) (find_group-append grp groups)
  | inr (group, s) ↦ rw (s, add_group) (ap is_some s)
]

pub add_file_group-find_group :
    (use_name : Text) (t u : Tree)
    → add_file_group use_name t ≡ (ok tt, u)
    → is_some (find_group use_name (groups_of u)) ≡ true
unfolding add_file_group
add_file_group-find_group grp t u h = elim (Bool-cases (contains b',' grp)) [
  | inl c ↦ absurd (ground arith)
  | inr n ↦
      rw (sym (ap (λ r. groups_of r.1) (rw (n, add_file_group) at h)))
        (find_group-add_group grp (groups_of t))
]

append_nil : {A : Type 0} (xs ys : List A) → xs ++ ys ≡ [] → (xs ≡ []) × (ys ≡ [])
append_nil [] ys h = (refl, h)
append_nil (x ∷ xs) ys h = cc

pub keep_if-map-snoc :
    {A B : Type 0} (p : B → Bool) (f : A → B) (xs : List A) (x : A)
    → keep_if p (map f (xs ++ x ∷ [])) ≡ keep_if p (map f xs) ++ (if p (f x) then f x ∷ [] else [])
unfolding keep_if
keep_if-map-snoc p f [] x = ground arith
keep_if-map-snoc p f (y ∷ xs) x = ground (arith, keep_if-map-snoc p f xs x)

abbrev pub in_group : Text → File → OcrdFile
in_group use_name file = record { file_grp = use_name; file = file }

-- Among files without the key, the new file is the only one that has it.
pub keep_if-append_to :
    (use_name : Text) (file : File) (groups : List Group)
    → is_some (find_group use_name groups) ≡ true
    → keep_if (has_key file.id use_name) (candidates groups) ≡ []
    → keep_if (has_key file.id use_name) (candidates (append_to use_name file groups))
      ≡ in_group use_name file ∷ []
unfolding candidates append_to find_group
keep_if-append_to grp file [] h absent = cc
keep_if-append_to grp file (group ∷ groups) h absent =
    let key = has_key file.id grp in
    let here = map (in_group group.use_name) group.files in
    let (left, right) =
      append_nil (keep_if key here) (keep_if key (candidates groups))
        (sym (keep_if-append key here (candidates groups)) ∙ absent) in
    elim (Bool-cases (group.use_name == grp)) [
      | inl y ↦
          let new = map (in_group group.use_name) (group.files ++ file ∷ []) in
          let e = (list_beq_iff group.use_name grp).0 y in
          let found : keep_if key new ≡ in_group grp file ∷ [] =
            keep_if-map-snoc key (in_group group.use_name) group.files file
            ∙ rw (left, e, beq_refl file.id, beq_refl grp) in
          rw y (keep_if-append key new (candidates groups) ∙ rw (found, right))
      | inr n ↦ rw n (
          keep_if-append key here (candidates (append_to grp file groups))
          ∙ rw left (keep_if-append_to grp file groups (rw n at h) right))
    ]
