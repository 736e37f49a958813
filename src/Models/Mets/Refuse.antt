-- ===== src/Models/Mets/Refuse.antt =====
-- When add_file and remove_file of class OcrdMets of src/ocrd_models/ocrd_mets.py raise an exception.
use ocr_d_core.Common.{
  ◌≡◌, refl, ap, ◌∙◌, Bool, true, false, some, List, [], ◌∷◌, map, Text, nat_eq, list_eq, option_eq,
  keep_if, list_beq_iff, arith, is_some, inl, inr, In, In-append, In-keep_if, Option-cases,
  contains, beq_refl,
}
use ocr_d_core.Common.Exec.{ok, err, ◌>>◌, and_then-ok, and_then-err, file_exists}
use ocr_d_core.Models.Tree.{Group, Tree, Regex, groups_of, is_file_id}
use ocr_d_core.Models.Find.{OcrdFile, candidates, find_files}
use ocr_d_core.Models.Mets.{
  NewFile, by_id_and_grp, find_group, add_group, add_file_group, make_room, create_file, add_file,
}
use ocr_d_core.Models.Mets.Lookup.{has_key, find_files-has_key}

module _ {A B : Type 0} where
  In_of_map : (f : A → B) (y : B) (xs : List A) → In y (map f xs) → (x : A) × (y ≡ f x)
  In_of_map f y [] m = absurd m
  In_of_map f y (x ∷ xs) (inl e) = (x, e)
  In_of_map f y (x ∷ xs) (inr m) = In_of_map f y xs m

-- The group of a file exists.
find_group-candidates :
    (f : OcrdFile) (groups : List Group)
    → In f (candidates groups)
    → is_some (find_group f.file_grp groups) ≡ true
unfolding candidates find_group
find_group-candidates f [] m = absurd m
find_group-candidates f (group ∷ groups) m =
    elim (In-append f (map (λ file. record { file_grp = group.use_name; file = file }) group.files)
      (candidates groups) m) [
        | inl here ↦
            let (file, e) =
              In_of_map (λ file. record { file_grp = group.use_name; file = file }) f group.files
                here in
            ground
              (arith, ap (λ (x : OcrdFile). x.file_grp) e, list_beq_iff group.use_name f.file_grp)
        | inr rest ↦ ground (arith, find_group-candidates f groups rest)
      ]

-- An existing group is not added again.
add_file_group-known :
    (use_name : Text) (t : Tree)
    → contains b',' use_name ≡ false
    → is_some (find_group use_name (groups_of t)) ≡ true
    → add_file_group use_name t ≡ (ok tt, t)
unfolding add_file_group add_group find_group
add_file_group-known grp t comma known = elim (Option-cases t.file_sec) [
  | inl n ↦ absurd (ground arith)
  | inr (groups, e) ↦ elim (Option-cases (find_group grp (groups_of t))) [
    | inl n ↦ absurd (ground arith)
    | inr (group, g) ↦
        let same : add_group grp (groups_of t) ≡ groups_of t = rw (g, add_group) refl in
        let whole : some (groups_of t) ≡ t.file_sec = rw e refl in
        rw (comma, add_file_group)
          (ap (λ x. (ok tt, record t { file_sec = x })) (ap some same ∙ whole))
  ]
]

make_room-refuses :
    (regex : Regex) (use_name : Text) (new : NewFile) (t : Tree) (f : OcrdFile)
    (found : List OcrdFile)
    → find_files regex (by_id_and_grp new.id (some use_name)) t ≡ ok (f ∷ found)
    → make_room regex use_name new false t ≡ (err file_exists, t)
unfolding make_room
make_room-refuses regex grp new t f found e = ground (arith, e)

In-cons : {A : Type 0} (x : A) (xs : List A) → In x xs → (y : A) × (ys : List A) × (xs ≡ y ∷ ys)
In-cons x [] m = absurd m
In-cons x (y ∷ ys) m = (y, ys, refl)

keep_if-cons :
    {A : Type 0} (p : A → Bool) (x : A) (xs : List A)
    → In x xs
    → p x ≡ true
    → (y : A) × (ys : List A) × (keep_if p xs ≡ y ∷ ys)
keep_if-cons p x xs m e = In-cons x (keep_if p xs) (In-keep_if p x xs m e)

-- Without `force`, a file with the ID of a file that the group already has is refused with
-- FileExistsError, and the METS file stays as it is. The names are valid.
add_file-refuses :
    (regex : Regex) (new : NewFile) (t : Tree) (f : OcrdFile)
    → is_file_id regex f.file_grp ≡ true
    → contains b',' f.file_grp ≡ false
    → is_file_id regex f.file.id ≡ true
    → In f (candidates (groups_of t))
    → new.id ≡ f.file.id
    → add_file regex f.file_grp new false false t ≡ (err file_exists, t)
unfolding add_file
add_file-refuses regex new t f g comma i m e =
    let grp = f.file_grp in
    let key = has_key new.id grp in
    let i' : is_file_id regex new.id ≡ true = rw e i in
    let (h, rest, found) =
      keep_if-cons key f (candidates (groups_of t)) m
        (rw (e, beq_refl f.file.id, beq_refl grp) refl) in
    let room =
      make_room-refuses regex grp new t h rest
        (find_files-has_key regex new.id grp t i' g ∙ ap ok found) in
    let known = add_file_group-known grp t comma (find_group-candidates f (groups_of t) m) in
    let done : add_file regex grp new false false t ≡ (err file_exists, t) =
      rw (i', g, add_file)
        (and_then-err (add_file_group grp >> make_room regex grp new false)
          (λ x. create_file grp new) t file_exists t
          (and_then-ok (add_file_group grp) (λ x. make_room regex grp new false) t tt t known
            ∙ room)) in
    done
