-- ===== src/Models/Mets/Steps.antt =====
-- The changes of a METS file by the methods of class OcrdMets of src/ocrd_models/ocrd_mets.py, as
-- steps, and the well-formedness that they keep.
use ocr_d_core.Common.{
  ◌≡◌, refl, ap, Bool, true, false, some, List, [], ◌∷◌, ◌++◌, map, Text, suc, ◌≤◌, nat_eq, list_eq,
  option_eq, ◌==◌, keep_if, Bool-cases, list_beq_iff, arith, length, inl, inr, if◌then◌else◌,
  contains, codes, Option-cases, and_true,
}
use ocr_d_core.Common.Exec.{Result, ok, ◌>>◌, Result-cases, and_then-inv}
use ocr_d_core.Models.Tree.{File, Group, Tree, Regex, groups_of, is_file_id}
use ocr_d_core.Models.Pages.{get_physical_page_for_file}
use ocr_d_core.Models.Find.{OcrdFile, find_files, candidates}
use ocr_d_core.Models.Mets.{
  NewFile, find_group, append_to, add_group, add_file_group, set_groups, remove_file, make_room,
  create_file, element_of, move_fptrs, add_file, by_id_and_grp,
}
use ocr_d_core.Models.Mets.Lookup.{has_key, groups_of-set_groups}
use ocr_d_core.Models.Mets.Append.{in_group}
use ocr_d_core.Models.Mets.Add.{make_room-ok}
use ocr_d_core.Models.Mets.Fewer.{Fewer, Fewer-refl, and_then-Fewer, remove_file-Fewer}
use ocr_d_core.Models.Mets.Valid.{
  IsValid, Fewer-IsValid, set_page_id-IsValid, move_fptrs-IsValid, length-append_to,
}

-- What holds between `make_room` and `create_file`.
abbrev Room : Text → NewFile → Tree → Type 0
Room use_name new t =
    IsValid t × (keep_if (has_key new.id use_name) (candidates (groups_of t)) ≡ [])

append_to-one_file :
    (use_name : Text) (file : File) (groups : List Group) (id other : Text)
    → length (keep_if (has_key id other) (candidates groups)) ≤ 1
    → keep_if (has_key file.id use_name) (candidates groups) ≡ []
    → length (keep_if (has_key id other) (candidates (append_to use_name file groups))) ≤ 1
append_to-one_file grp file groups id other h absent =
    let bound = length-append_to (has_key id other) grp file groups in
    elim (Bool-cases (has_key id other (in_group grp file))) [
      | inl y ↦
          let (same_id, same_grp) = and_true (id == file.id) (other == grp) y in
          let none_there : length (keep_if (has_key id other) (candidates groups)) ≡ 0 =
            rw ((list_beq_iff id file.id).0 same_id, (list_beq_iff other grp).0 same_grp)
              (ap length absent) in
          omega (arith, rw y at bound, none_there)
      | inr n ↦ omega (arith, rw n at bound, h)
    ]

create_file-IsValid :
    (use_name : Text) (new : NewFile) (t : Tree)
    → Room use_name new t
    → IsValid (create_file use_name new t).1
unfolding create_file append_to
create_file-IsValid grp new t (v, absent) =
    let file = element_of t.next_el new in
    let placed = record (set_groups (append_to grp file) t) { next_el = suc t.next_el } in
    let groups = groups_of-set_groups (append_to grp file) t refl in
    let valid : IsValid placed = record {
      one_file = λ id other.
          rw groups
            (append_to-one_file grp file (groups_of t) id other (v.one_file id other) absent);
      one_link = v.one_link;
    } in
    set_page_id-IsValid new.id new.page_id (move_fptrs (codes "None") new.id placed)
      (move_fptrs-IsValid (codes "None") new.id placed valid)

if-Fewer :
    {t : Tree} {A : Type 0} (test : Bool) (x y : Result A × Tree)
    → Fewer t x.1
    → Fewer t y.1
    → Fewer t (if test then x else y).1
if-Fewer true x y f g = f
if-Fewer false x y f g = g

make_room_found-Fewer :
    (regex : Regex) (use_name : Text) (new : NewFile) (force : Bool) (t : Tree)
    (found : List OcrdFile)
    → find_files regex (by_id_and_grp new.id (some use_name)) t ≡ ok found
    → Fewer t (make_room regex use_name new force t).1
unfolding make_room
make_room_found-Fewer regex grp new force t [] e = rw (e, make_room) (Fewer-refl t)
make_room_found-Fewer regex grp new force t (f ∷ found) e =
    let removal = remove_file regex (by_id_and_grp new.id (some grp)) in
    let removed =
      and_then-Fewer removal (λ a s. (ok tt, s)) t
        (remove_file-Fewer regex (by_id_and_grp new.id (some grp)) t) (λ a s. Fewer-refl s) in
    let refused = Fewer-refl t in
    rw (e, make_room)
      (if-Fewer (f.file_grp == grp) _ _
        (if-Fewer (get_physical_page_for_file f.file.id t == new.page_id) _ _
          (if-Fewer (f.file.mimetype == new.mimetype) _ _ (if-Fewer force _ _ removed refused)
            refused)
          refused)
        refused)

make_room-Fewer :
    (regex : Regex) (use_name : Text) (new : NewFile) (force : Bool) (t : Tree)
    → Fewer t (make_room regex use_name new force t).1
unfolding make_room
make_room-Fewer regex grp new force t =
    elim (Result-cases (find_files regex (by_id_and_grp new.id (some grp)) t)) [
      | inl (found, e) ↦ make_room_found-Fewer regex grp new force t found e
      | inr (x, e) ↦ rw (e, make_room) (Fewer-refl t)
    ]

candidates-append_empty :
    (use_name : Text) (groups : List Group)
    → candidates (groups ++ (record { use_name = use_name; files = [] }) ∷ []) ≡ candidates groups
unfolding candidates
candidates-append_empty grp [] = refl
candidates-append_empty grp (group ∷ groups) =
    ap (map (in_group group.use_name) group.files ++◌) (candidates-append_empty grp groups)

candidates-add_group :
    (use_name : Text) (groups : List Group)
    → candidates (add_group use_name groups) ≡ candidates groups
unfolding candidates add_group
candidates-add_group grp groups = elim (Option-cases (find_group grp groups)) [
  | inl n ↦ rw (n, add_group) (candidates-append_empty grp groups)
  | inr (group, e) ↦ rw (e, add_group) refl
]

pub add_file_group-Fewer : (use_name : Text) (t : Tree) → Fewer t (add_file_group use_name t).1
unfolding add_file_group
add_file_group-Fewer grp t = elim (Bool-cases (contains b',' grp)) [
  | inl c ↦ rw (c, add_file_group) (Fewer-refl t)
  | inr n ↦
      rw (n, add_file_group)
        (record {
          files = λ p.
              omega
                (arith, ap (λ x. length (keep_if p x)) (candidates-add_group grp (groups_of t)));
          links = λ p. omega arith;
        })
]

-- `add_file` without `ignore` keeps a METS file well-formed, whether it raises an exception or not.
pub add_file-IsValid :
    (regex : Regex) (use_name : Text) (new : NewFile) (force : Bool) (t : Tree)
    → IsValid t
    → IsValid (add_file regex use_name new force false t).1
unfolding add_file
add_file-IsValid regex grp new force t v = elim (Bool-cases (is_file_id regex new.id)) [
  | inr n ↦ rw (n, add_file) v
  | inl i ↦ elim (Bool-cases (is_file_id regex grp)) [
    | inr n ↦ rw (i, n, add_file) v
    | inl g ↦
        let room = make_room regex grp new force in
        let opened = add_file_group grp >> room in
        let fewer =
          and_then-Fewer (add_file_group grp) (λ x. room) t (add_file_group-Fewer grp t)
            (λ x u. make_room-Fewer regex grp new force u) in
        let w = Fewer-IsValid fewer v in
        rw (i, g, add_file)
          (elim (Result-cases (opened t).0) [
            | inr (x, e) ↦ rw e w
            | inl (a, e) ↦
                let (b, u, h, r) =
                  and_then-inv (add_file_group grp) (λ y. room) t a (opened t).1
                    (ap (λ y. (y, (opened t).1)) e) in
                rw e (
                  create_file-IsValid grp new (opened t).1
                    (w, (make_room-ok regex grp new force u (opened t).1 i g r).0))
          ])
  ]
]
