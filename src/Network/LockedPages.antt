-- ===== src/Network/LockedPages.antt =====
-- class CacheLockedPages of src/ocrd_network/server_cache.py. The logger is left out.
pub mod View
pub mod Check
pub mod Unlock
use ocr_d_core.Common.{
  Bool, true, false, not, Option, none, some, List, [], ◌∷◌, ◌++◌, if◌then◌else◌, is_nonempty,
  keep_if, contains, remove, Text, list_eq, nat_eq,
}
use ocr_d_core.Common.Dict.{Dict, get, put}
use ocr_d_core.Common.Exec.{Exec, Result, ok, err, value_error}
use ocr_d_core.Network.Jobs.{PageId, page_id_eq, all_pages}

-- The locked pages of each output file group.
abbrev pub Groups : Type 0
Groups = Dict Text (List PageId)

-- `self.locked_pages`: the groups of each workspace key.
abbrev pub LockedPages : Type 0
LockedPages = Dict Text Groups

-- `self.locked_pages.get(workspace_key, None)`, where an empty dict counts as no entry.
abbrev pub entry : Text → LockedPages → Option Groups
entry workspace_key locked_pages = elim (get workspace_key locked_pages) [
  | none ↦ none
  | some groups ↦ if is_nonempty groups then some groups else none
]

-- `not set(locked).isdisjoint(page_ids)`
unfoldable pub overlaps : List PageId → List PageId → Bool
overlaps [] page_ids = false
overlaps (p ∷ locked) page_ids =
    let rest = overlaps locked page_ids in if contains p page_ids then true else rest

unfoldable pub check_groups : Groups → List Text → List PageId → Bool
check_groups groups [] page_ids = false
check_groups groups (file_group ∷ file_grps) page_ids =
    let rest = check_groups groups file_grps page_ids in
    elim (get file_group groups) [
      | none ↦ rest
      | some locked ↦
          if contains all_pages locked
          then true
          else if overlaps locked page_ids
          then true
          else rest
    ]

unfoldable pub check_if_locked_pages_for_output_file_grps :
    Text → List Text → List PageId → LockedPages → Bool
check_if_locked_pages_for_output_file_grps workspace_key output_file_grps page_ids locked_pages =
    elim (entry workspace_key locked_pages) [
      | none ↦ false
      | some groups ↦ check_groups groups output_file_grps page_ids
    ]

unfoldable pub get_locked_pages : Text → LockedPages → Groups
get_locked_pages workspace_key locked_pages = elim (entry workspace_key locked_pages) [
  | none ↦ []
  | some groups ↦ groups
]

-- The pages that a request locks.
abbrev pub requested : List PageId → List PageId
requested page_ids = if is_nonempty page_ids then page_ids else all_pages ∷ []

abbrev pub locked_in : Text → Groups → List PageId
locked_in file_group groups = elim (get file_group groups) [ none ↦ [] | some pages ↦ pages ]

unfoldable pub lock_groups : List Text → List PageId → Groups → Groups
lock_groups [] page_ids groups = groups
lock_groups (file_group ∷ file_grps) page_ids groups =
    lock_groups file_grps page_ids
      (put file_group (locked_in file_group groups ++ requested page_ids) groups)

unfoldable pub lock_pages : Text → List Text → List PageId → LockedPages → LockedPages
lock_pages workspace_key output_file_grps page_ids locked_pages =
    put workspace_key
      (lock_groups output_file_grps page_ids (get_locked_pages workspace_key locked_pages))
      locked_pages

-- The new list of one file group; `none` is the ValueError of `list.remove`.
abbrev pub unlock_group : List PageId → List PageId → Option (List PageId)
unlock_group page_ids locked =
    if is_nonempty page_ids
    then some (keep_if (λ x. not (contains x page_ids)) locked)
    else remove all_pages locked

unfoldable pub unlock_groups : List Text → List PageId → Exec Groups Unit
unlock_groups [] page_ids groups = (ok tt, groups)
unlock_groups (file_group ∷ file_grps) page_ids groups = elim (get file_group groups) [
  | none ↦ unlock_groups file_grps page_ids groups
  | some locked ↦ elim (unlock_group page_ids locked) [
    | none ↦ (err value_error, groups)
    | some left ↦ unlock_groups file_grps page_ids (put file_group left groups)
  ]
]

unfoldable pub unlock_pages : Text → List Text → List PageId → Exec LockedPages Unit
unlock_pages workspace_key output_file_grps page_ids locked_pages =
    elim (entry workspace_key locked_pages) [
      | none ↦ (ok tt, locked_pages)
      | some groups ↦
          let (result, after) = unlock_groups output_file_grps page_ids groups in
          (result, put workspace_key after locked_pages)
    ]
