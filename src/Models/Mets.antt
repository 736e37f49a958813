-- ===== src/Models/Mets.antt =====
-- Changing the file section of a METS file: class OcrdMets of src/ocrd_models/ocrd_mets.py without
-- caches, and the setters of class OcrdFile of src/ocrd_models/ocrd_file.py.
pub mod Lookup
pub mod Remove
pub mod Append
pub mod Add
pub mod Refuse
pub mod Fewer
pub mod Valid
pub mod Gone
pub mod RemoveGroup
pub mod Steps
pub mod Reach
use ocr_d_core.Common.{
  ℕ, suc, Bool, true, false, Option, none, some, List, [], ◌∷◌, ◌++◌, map, Text, codes, nat_eq,
  nat_beq, list_eq, option_eq, if◌then◌else◌, ◌==◌, contains, is_nonempty, starts_with, drop,
  keep_if, not, is_some,
}
use ocr_d_core.Common.Dict.{Dict, get}
use ocr_d_core.Common.Exec.{
  Result, ok, err, Exec, value_error, file_not_found, file_exists, attribute_error, failure, ◌>>=◌,
  ◌>>◌,
}
use ocr_d_core.Models.Tree.{File, Group, Page, Tree, Regex, groups_of, is_file_id}
use ocr_d_core.Models.Pages.{
  get_physical_page_for_file, remove_physical_page_fptr, set_physical_page_for_file, drop_fptr,
  set_pages,
}
use ocr_d_core.Models.Find.{OcrdFile, Query, all_files, needle_matches, find_files}

-- `file_groups`
unfoldable pub file_groups : Tree → List Text
file_groups t = map (λ group. group.use_name) (groups_of t)

abbrev pub set_groups : (List Group → List Group) → Tree → Tree
set_groups f t = record t {
  file_sec = elim t.file_sec [ none ↦ none | some groups ↦ some (f groups) ];
}

-- `mets:fileGrp[@USE="…"]`, the first one
unfoldable pub find_group : Text → List Group → Option Group
find_group use_name [] = none
find_group use_name (group ∷ groups) =
    let rest = find_group use_name groups in if group.use_name == use_name then some group else rest

unfoldable pub add_group : Text → List Group → List Group
add_group use_name groups = elim (find_group use_name groups) [
  | none ↦ groups ++ (record { use_name = use_name; files = [] }) ∷ []
  | some group ↦ groups
]

-- `add_file_group`
unfoldable pub add_file_group : Text → Exec Tree Unit
add_file_group use_name t =
    if contains b',' use_name
    then (err value_error, t)
    else (ok tt, record t { file_sec = some (add_group use_name (groups_of t)) })

unfoldable pub rename_first : Text → Text → List Group → List Group
rename_first old new [] = []
rename_first old new (group ∷ groups) =
    let rest = rename_first old new groups in
    if group.use_name == old then record group { use_name = new } ∷ groups else group ∷ rest

-- `rename_file_group`
unfoldable pub rename_file_group : Text → Text → Exec Tree Unit
rename_file_group old new t = elim (find_group old (groups_of t)) [
  | none ↦ (err file_not_found, t)
  | some group ↦ (ok tt, set_groups (rename_first old new) t)
]

-- The element `el` among some files, and in some groups.
unfoldable pub update_file : ℕ → (File → File) → List File → List File
update_file el f [] = []
update_file el f (file ∷ files) =
    (if nat_beq file.el el then f file else file) ∷ update_file el f files

abbrev pub in_files : (List File → List File) → Group → Group
in_files f group = record group { files = f group.files }

abbrev pub set_file : ℕ → (File → File) → Tree → Tree
set_file el f t = set_groups (map (in_files (update_file el f))) t

abbrev pub drop_el : ℕ → List File → List File
drop_el el files = keep_if (λ file. not (nat_beq file.el el)) files

unfoldable pub has_el : ℕ → List Group → Bool
has_el el [] = false
has_el el (group ∷ groups) =
    let rest = has_el el groups in
    if is_nonempty (keep_if (λ file. nat_beq file.el el) group.files) then true else rest

-- `remove_one_file` with an OcrdFile, which has no parent if it was removed before: then its page
-- references are gone, and AttributeError is raised.
unfoldable pub remove_one_file : OcrdFile → Exec Tree OcrdFile
remove_one_file f t =
    let unlinked = set_pages (drop_fptr f.file.id) t in
    if has_el f.file.el (groups_of t)
    then (ok f, set_groups (map (in_files (drop_el f.file.el))) unlinked)
    else (err attribute_error, unlinked)

-- The arguments ID and fileGrp.
abbrev pub by_id_and_grp : Text → Option Text → Query
by_id_and_grp id file_grp = record all_files { by_id = some id; by_file_grp = file_grp }

-- `remove_one_file` with an ID, that of the first file that is found
unfoldable pub remove_file_by_id : Regex → Text → Option Text → Exec Tree OcrdFile
remove_file_by_id regex id file_grp t = elim (find_files regex (by_id_and_grp id file_grp) t) [
  | err e ↦ (err e, t)
  | ok [] ↦ (err file_not_found, t)
  | ok (f ∷ others) ↦ remove_one_file f t
]

-- `remove_one_file` for each file of a list.
unfoldable pub remove_each : List OcrdFile → Exec Tree Unit
remove_each [] t = (ok tt, t)
remove_each (f ∷ files) t =
    let (result, after) = remove_one_file f t in
    let rest = remove_each files after in elim result [ err e ↦ (err e, after) | ok g ↦ rest ]

-- `remove_file`. The test for an empty result looks for `//` in the names of the arguments, where it
-- never stands.
unfoldable pub remove_file : Regex → Query → Exec Tree (List OcrdFile)
remove_file regex query t = elim (find_files regex query t) [
  | err e ↦ (err e, t)
  | ok [] ↦ (err file_not_found, t)
  | ok (f ∷ files) ↦ (remove_each (f ∷ files) >> (λ s. (ok (f ∷ files), s))) t
]

-- The loop of `remove_file_group` over the files of a group.
unfoldable pub remove_ids : Regex → Text → List File → Exec Tree Unit
remove_ids regex use_name [] t = (ok tt, t)
remove_ids regex use_name (file ∷ files) t =
    let (result, after) = remove_file_by_id regex file.id (some use_name) t in
    let rest = remove_ids regex use_name files after in
    elim result [ err e ↦ (err e, after) | ok g ↦ rest ]

-- The first group with the name is removed.
unfoldable pub drop_group : Text → List Group → List Group
drop_group use_name [] = []
drop_group use_name (group ∷ groups) =
    let rest = drop_group use_name groups in
    if group.use_name == use_name then groups else group ∷ rest

-- `remove_file_group` for one group.
unfoldable pub remove_group : Regex → Bool → Group → Exec Tree Unit
remove_group regex recursive group t =
    if is_nonempty group.files
    then (if recursive
        then (remove_ids regex group.use_name group.files
              >> (λ s. (ok tt, set_groups (drop_group group.use_name) s)))
            t
        else (err failure, t))
    else (ok tt, set_groups (drop_group group.use_name) t)

-- The loop over the groups that a regular expression matches.
unfoldable pub remove_groups : Regex → Bool → List Group → Exec Tree Unit
remove_groups regex recursive [] t = (ok tt, t)
remove_groups regex recursive (group ∷ groups) t =
    let (result, after) = remove_group regex recursive group t in
    let rest = remove_groups regex recursive groups after in
    elim result [ err e ↦ (err e, after) | ok u ↦ rest ]

unfoldable pub remove_named_group : Regex → Text → Bool → Bool → Exec Tree Unit
remove_named_group regex use_name recursive force t = elim (find_group use_name (groups_of t)) [
  | none ↦ ((if force then ok tt else err failure), t)
  | some group ↦ remove_group regex recursive group t
]

-- `remove_file_group`. The names of the groups are distinct where a regular expression is used.
unfoldable pub remove_file_group : Regex → Text → Bool → Bool → Exec Tree Unit
remove_file_group regex use_name recursive force t = elim t.file_sec [
  | none ↦ (err failure, t)
  | some groups ↦
      if starts_with use_name (codes "//")
      then remove_groups regex recursive
          (keep_if (λ group. regex.fullmatch (drop 2 use_name) group.use_name) groups) t
      else remove_named_group regex use_name recursive force t
]

-- The setter `pageId`.
unfoldable pub set_page_id : Text → Option Text → Tree → Tree
set_page_id file_id none t = t
set_page_id file_id (some page_id) t = set_physical_page_for_file page_id file_id none none t

unfoldable pub set_page_ids : Text → List (Option Text) → Tree → Tree
set_page_ids file_id [] t = t
set_page_ids file_id (page_id ∷ page_ids) t =
    set_page_ids file_id page_ids (set_page_id file_id page_id t)

-- The mets:fptr of `old` are moved to the ID `new`.
unfoldable pub move_fptrs : Text → Text → Tree → Tree
move_fptrs old new t =
    let (page_ids, after) = remove_physical_page_fptr old t in set_page_ids new page_ids after

-- The setter `ID`.
unfoldable pub set_file_id : ℕ → Text → Text → Tree → Tree
set_file_id el old new t = move_fptrs old new (set_file el (λ file. record file { id = new }) t)

-- The setter `url`. For None nothing is removed: an element without children is false.
unfoldable pub set_url : Option Text → File → File
set_url none file = file
set_url (some url) file = record file { url = some url }

-- The setter `local_filename`
unfoldable pub set_local_filename : Option Text → File → File
set_local_filename none file = record file { local_filename = none }
set_local_filename (some []) file = record file { local_filename = none }
set_local_filename (some (c ∷ name)) file = record file { local_filename = some (c ∷ name) }

-- The arguments of `add_file` that describe the file.
pub record NewFile : Type 0 where
  pub id : Text
  pub mimetype : Option Text
  pub page_id : Option Text
  pub url : Option Text
  pub local_filename : Option Text

abbrev pub if_not_empty : Option Text → Option Text
if_not_empty none = none
if_not_empty (some []) = none
if_not_empty (some (c ∷ t)) = some (c ∷ t)

-- The element of a new file.
abbrev pub element_of : ℕ → NewFile → File
element_of el new = record {
  el = el;
  id = new.id;
  mimetype = new.mimetype;
  url = if_not_empty new.url;
  local_filename = if_not_empty new.local_filename;
}

unfoldable pub append_to : Text → File → List Group → List Group
append_to use_name file [] = []
append_to use_name file (group ∷ groups) =
    let rest = append_to use_name file groups in
    if group.use_name == use_name
    then record group { files = group.files ++ file ∷ [] } ∷ groups
    else group ∷ rest

-- The new mets:file and the constructor of OcrdFile. The element has no ID when its ID is set: the
-- setter looks for mets:fptr of the old ID, which is written `None`.
unfoldable pub create_file : Text → NewFile → Exec Tree OcrdFile
create_file use_name new t =
    let file = element_of t.next_el new in
    let placed = record (set_groups (append_to use_name file) t) { next_el = suc t.next_el } in
    (
      ok (record { file_grp = use_name; file = file }),
      set_page_id new.id new.page_id (move_fptrs (codes "None") new.id placed),
    )

-- A file with the same ID in the group: it is removed, or an exception is raised.
unfoldable pub make_room : Regex → Text → NewFile → Bool → Exec Tree Unit
make_room regex use_name new force t =
    elim (find_files regex (by_id_and_grp new.id (some use_name)) t) [
      | err e ↦ (err e, t)
      | ok [] ↦ (ok tt, t)
      | ok (f ∷ others) ↦
          if f.file_grp == use_name
          then (if get_physical_page_for_file f.file.id t == new.page_id
              then (if f.file.mimetype == new.mimetype
                  then (if force
                      then (remove_file regex (by_id_and_grp new.id (some use_name))
                            >> (λ s. (ok tt, s)))
                          t
                      else (err file_exists, t))
                  else (err file_exists, t))
              else (err file_exists, t))
          else (err file_exists, t)
    ]

-- `add_file`
unfoldable pub add_file : Regex → Text → NewFile → Bool → Bool → Exec Tree OcrdFile
add_file regex use_name new force ignore t =
    if is_file_id regex new.id
    then (if is_file_id regex use_name
        then (add_file_group use_name
              >> (if ignore then (λ s. (ok tt, s)) else make_room regex use_name new force)
              >> create_file use_name new)
            t
        else (err value_error, t))
    else (err value_error, t)
