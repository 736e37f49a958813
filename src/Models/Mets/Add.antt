-- ===== src/Models/Mets/Add.antt =====
-- Adding a file: add_file of class OcrdMets of src/ocrd_models/ocrd_mets.py.
use ocr_d_core.Common.{
  ◌≡◌, refl, sym, ap, ◌∙◌, Bool, true, false, none, some, List, [], ◌∷◌, Text, codes, nat_eq,
  list_eq, option_eq, ◌==◌, keep_if, Bool-cases, arith, is_some, ℕ, suc, inl, inr, if◌then◌else◌,
  In-keep_if, keep_if_none,
}
use ocr_d_core.Common.Exec.{Result, Exception, ok, err, ◌>>◌, and_then-inv, file_exists}
use ocr_d_core.Models.Tree.{Tree, Regex, groups_of, is_file_id}
use ocr_d_core.Models.Pages.{get_physical_page_for_file}
use ocr_d_core.Models.Pages.Links.{set_physical_page_for_file-page}
use ocr_d_core.Models.Find.{OcrdFile, candidates, find_files}
use ocr_d_core.Models.Mets.{
  NewFile, by_id_and_grp, find_group, append_to, add_file_group, set_groups, remove_each,
  remove_file, make_room, create_file, element_of, set_page_id, move_fptrs, add_file,
}
use ocr_d_core.Models.Mets.Lookup.{has_key, find_files-has_key, groups_of-set_groups}
use ocr_d_core.Models.Mets.Append.{
  in_group, groups_of-set_page_id, groups_of-move_fptrs, add_file_group-find_group,
  keep_if-append_to,
}
use ocr_d_core.Models.Mets.Remove.{remove_each-find_group, In-remove_each}

-- What is left after the files with the key are removed.
remove_each-absent :
    (id use_name : Text) (t u : Tree)
    → remove_each (keep_if (has_key id use_name) (candidates (groups_of t))) t ≡ (ok tt, u)
    → keep_if (has_key id use_name) (candidates (groups_of u)) ≡ []
remove_each-absent id grp t u h =
    let key = has_key id grp in
    let files = keep_if key (candidates (groups_of t)) in
    keep_if_none key (candidates (groups_of u)) (λ f m. elim (Bool-cases (key f)) [
      | inl y ↦
          let (there, absent) = In-remove_each f files t u h m in
          absurd (absent (In-keep_if key f (candidates (groups_of t)) there y))
      | inr n ↦ n
    ])

remove_file-found :
    (regex : Regex) (id use_name : Text) (t u : Tree) (found files : List OcrdFile)
    → find_files regex (by_id_and_grp id (some use_name)) t ≡ ok found
    → remove_file regex (by_id_and_grp id (some use_name)) t ≡ (ok files, u)
    → remove_each found t ≡ (ok tt, u)
unfolding remove_file
remove_file-found regex id grp t u [] files e h = absurd (ground arith)
remove_file-found regex id grp t u (f ∷ found) files e h =
    let (a, v, r, q) =
      and_then-inv (remove_each (f ∷ found)) (λ a s. (ok (f ∷ found), s)) t files u
        (rw (e, remove_file) at h) in
    rw (ap (λ x. x.1) q) at r

-- A guard has held where no exception was raised.
if-ok :
    {A S : Type 0} {x : Result A × S} {u : S} {a : A} (test : Bool) (e : Exception) (t : S)
    → (if test then x else (err e, t)) ≡ (ok a, u)
    → x ≡ (ok a, u)
if-ok true e t h = h
if-ok false e t h = absurd (ground arith)

-- Where `make_room` returns, the files that it found are removed.
make_room-found :
    (regex : Regex) (use_name : Text) (new : NewFile) (force : Bool) (t u : Tree)
    (found : List OcrdFile)
    → find_files regex (by_id_and_grp new.id (some use_name)) t ≡ ok found
    → make_room regex use_name new force t ≡ (ok tt, u)
    → remove_each found t ≡ (ok tt, u)
unfolding make_room remove_each
make_room-found regex grp new force t u [] e h = rw (e, make_room) at h
make_room-found regex grp new force t u (f ∷ found) e h =
    let removal = remove_file regex (by_id_and_grp new.id (some grp)) in
    let first = if-ok (f.file_grp == grp) file_exists t (rw (e, make_room) at h) in
    let second =
      if-ok (get_physical_page_for_file f.file.id t == new.page_id) file_exists t first in
    let third = if-ok (f.file.mimetype == new.mimetype) file_exists t second in
    let fourth = if-ok force file_exists t third in
    let (files, v, r, q) = and_then-inv removal (λ a s. (ok tt, s)) t tt u fourth in
    remove_file-found regex new.id grp t u (f ∷ found) files e (rw (ap (λ x. x.1) q) at r)

-- Where `make_room` returns, the group has no file with the ID.
pub make_room-ok :
    (regex : Regex) (use_name : Text) (new : NewFile) (force : Bool) (t u : Tree)
    → is_file_id regex new.id ≡ true
    → is_file_id regex use_name ≡ true
    → make_room regex use_name new force t ≡ (ok tt, u)
    → (keep_if (has_key new.id use_name) (candidates (groups_of u)) ≡ [])
      × (is_some (find_group use_name (groups_of u)) ≡ is_some (find_group use_name (groups_of t)))
make_room-ok regex grp new force t u i g h =
    let e = find_files-has_key regex new.id grp t i g in
    let found = keep_if (has_key new.id grp) (candidates (groups_of t)) in
    let r = make_room-found regex grp new force t u found e h in
    (remove_each-absent new.id grp t u r, remove_each-find_group grp found t u r)

create_file-groups :
    (use_name : Text) (new : NewFile) (t u : Tree) (f : OcrdFile)
    → create_file use_name new t ≡ (ok f, u)
    → (f ≡ in_group use_name (element_of t.next_el new))
      × (groups_of u ≡ append_to use_name (element_of t.next_el new) (groups_of t))
unfolding create_file append_to
create_file-groups grp new t u f h =
    let file = element_of t.next_el new in
    let placed = record (set_groups (append_to grp file) t) { next_el = suc t.next_el } in
    (
      ground arith,
      ap (λ r. groups_of r.1) (sym h)
          ∙ groups_of-set_page_id new.id new.page_id (move_fptrs (codes "None") new.id placed)
          ∙ groups_of-move_fptrs (codes "None") new.id placed
          ∙ groups_of-set_groups (append_to grp file) t refl,
    )

create_file-page :
    (use_name : Text) (new : NewFile) (page_id : Text) (t u : Tree) (f : OcrdFile)
    → new.page_id ≡ some page_id
    → create_file use_name new t ≡ (ok f, u)
    → get_physical_page_for_file new.id u ≡ some page_id
unfolding create_file set_page_id
create_file-page grp new p t u f e h =
    let placed = record (set_groups (append_to grp (element_of t.next_el new)) t) {
      next_el = suc t.next_el;
    } in
    let moved = move_fptrs (codes "None") new.id placed in
    rw (sym (ap (λ r. r.1) h), e, set_page_id)
      (set_physical_page_for_file-page p new.id none none moved)

-- A file that is added is afterwards the only file of its group with its ID, so that
-- `find_files(ID=…, fileGrp=…)` gives exactly it, as `add_file` has returned it: the arguments that were
-- given, with a new element. A file with the ID that the group had before is gone. `ignore` is not set.
pub add_file-find_files :
    (regex : Regex) (use_name : Text) (new : NewFile) (force : Bool) (t u : Tree) (f : OcrdFile)
    → add_file regex use_name new force false t ≡ (ok f, u)
    → (el : ℕ) × (f ≡ in_group use_name (element_of el new))
      × (find_files regex (by_id_and_grp new.id (some use_name)) u ≡ ok (f ∷ []))
unfolding add_file
add_file-find_files regex grp new force t u f h = elim (Bool-cases (is_file_id regex new.id)) [
  | inr n ↦ absurd (ground arith)
  | inl i ↦ elim (Bool-cases (is_file_id regex grp)) [
    | inr n ↦ absurd (ground arith)
    | inl g ↦
        let room = make_room regex grp new force in
        let (a, v, h1, h2) =
          and_then-inv (add_file_group grp >> room) (λ x. create_file grp new) t f u
            (rw (i, g, add_file) at h) in
        let (b, w, h3, h4) = and_then-inv (add_file_group grp) (λ x. room) t a v h1 in
        let (absent, kept) = make_room-ok regex grp new force w v i g h4 in
        let (same, groups) = create_file-groups grp new v u f h2 in
        let there = kept ∙ add_file_group-find_group grp t w h3 in
        let found = keep_if-append_to grp (element_of v.next_el new) (groups_of v) there absent in
        (
          v.next_el,
          same,
          find_files-has_key regex new.id grp u i g
              ∙ ap ok (
                  ap (λ x. keep_if (has_key new.id grp) (candidates x)) groups
                  ∙ found
                  ∙ ap (◌∷ []) (sym same)),
        )
  ]
]

-- A file that is added with a page is on that page afterwards.
add_file-page :
    (regex : Regex) (use_name : Text) (new : NewFile) (force ignore : Bool) (page_id : Text)
    (t u : Tree) (f : OcrdFile)
    → new.page_id ≡ some page_id
    → add_file regex use_name new force ignore t ≡ (ok f, u)
    → get_physical_page_for_file new.id u ≡ some page_id
unfolding add_file
add_file-page regex grp new force ignore p t u f e h = elim (Bool-cases (is_file_id regex new.id)) [
  | inr n ↦ absurd (ground arith)
  | inl i ↦ elim (Bool-cases (is_file_id regex grp)) [
    | inr n ↦ absurd (ground arith)
    | inl g ↦
        let room = if ignore then (λ s. (ok tt, s)) else make_room regex grp new force in
        let (a, v, h1, h2) =
          and_then-inv (add_file_group grp >> room) (λ x. create_file grp new) t f u
            (rw (i, g, add_file) at h) in
        create_file-page grp new p v u f e h2
  ]
]
