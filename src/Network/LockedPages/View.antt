-- ===== src/Network/LockedPages/View.antt =====
-- The pages that are locked for a workspace key and a file group, as a set.
use ocr_d_core.Common.{
  ◌≡◌, ◌↔◌, ◌⊎◌, inl, inr, List, [], ◌∷◌, ◌++◌, arith, In, In-append, In-append_left,
  In-append_right, Text, list_eq, nat_eq, ◌==◌, list_beq_iff, if◌then◌else◌,
}
use ocr_d_core.Common.Dict.{put, get-put}
use ocr_d_core.Network.Jobs.{PageId, all_pages}
use ocr_d_core.Network.LockedPages.{
  Groups, LockedPages, get_locked_pages, requested, locked_in, lock_groups, lock_pages,
}

-- The pages locked for a file group of a workspace.
abbrev pub pages_of : Text → Text → LockedPages → List PageId
pages_of workspace_key file_group locked_pages =
    locked_in file_group (get_locked_pages workspace_key locked_pages)

pub locked_in-put :
    (g h : Text) (pages : List PageId) (groups : Groups)
    → locked_in h (put g pages groups) ≡ (if g == h then pages else locked_in h groups)
locked_in-put g h pages groups = ground (arith, get-put g h pages groups)

pub get_locked_pages-put :
    (k j : Text) (groups : Groups) (locked_pages : LockedPages)
    → get_locked_pages j (put k groups locked_pages)
      ≡ (if k == j then groups else get_locked_pages j locked_pages)
unfolding get_locked_pages
get_locked_pages-put k j groups locked_pages = ground (arith, get-put k j groups locked_pages)

pub lock_groups-In :
    (p : PageId) (h : Text) (grps : List Text) (pages : List PageId) (groups : Groups)
    → In p (locked_in h (lock_groups grps pages groups))
    → In p (locked_in h groups) ⊎ (In h grps × In p (requested pages))
unfolding lock_groups
lock_groups-In p h [] pages groups m = inl m
lock_groups-In p h (g ∷ grps) pages groups m = ground (
  arith,
  lock_groups-In p h grps pages (put g (locked_in g groups ++ requested pages) groups),
  locked_in-put g h (locked_in g groups ++ requested pages) groups,
  list_beq_iff g h,
  In-append p (locked_in g groups) (requested pages),
)

pub In-lock_groups :
    (p : PageId) (h : Text) (grps : List Text) (pages : List PageId) (groups : Groups)
    → In p (locked_in h groups) ⊎ (In h grps × In p (requested pages))
    → In p (locked_in h (lock_groups grps pages groups))
unfolding lock_groups
In-lock_groups p h [] pages groups (inl m) = m
In-lock_groups p h [] pages groups (inr m) = absurd m.0
In-lock_groups p h (g ∷ grps) pages groups m = ground (
  arith,
  In-lock_groups p h grps pages (put g (locked_in g groups ++ requested pages) groups),
  locked_in-put g h (locked_in g groups ++ requested pages) groups,
  list_beq_iff g h,
  In-append_left p (locked_in g groups) (requested pages),
  In-append_right p (locked_in g groups) (requested pages),
)

-- A request for `page_ids` of `file_grps` clashes with what is locked for a workspace: one of its
-- file groups has the placeholder of all pages locked, or an entry that is in the list `page_ids`. A
-- request for all pages has an empty list; entries that are regular expressions are compared as
-- they are written.
pub record Clash (k : Text) (file_grps : List Text) (page_ids : List PageId) (l : LockedPages)
    : Type 0 where
  pub file_group : Text
  pub page : PageId
  pub requested_group : In file_group file_grps
  pub held : In page (pages_of k file_group l)
  pub wanted : (page ≡ all_pages) ⊎ In page page_ids

-- After `lock_pages` exactly the requested pages are locked as well: those of the file groups of
-- the request, in its own workspace.
pub lock_pages-In :
    (p : PageId) (k j h : Text) (grps : List Text) (pages : List PageId) (l : LockedPages)
    → In p (pages_of j h (lock_pages k grps pages l))
      ↔ (In p (pages_of j h l) ⊎ ((k ≡ j) × In h grps × In p (requested pages)))
unfolding lock_pages
lock_pages-In p k j h grps pages l = (
  λ m. ground (
    arith,
    get_locked_pages-put k j (lock_groups grps pages (get_locked_pages k l)) l,
    list_beq_iff k j,
    lock_groups-In p h grps pages (get_locked_pages k l),
  ),
  λ m. ground (
    arith,
    get_locked_pages-put k j (lock_groups grps pages (get_locked_pages k l)) l,
    list_beq_iff k j,
    In-lock_groups p h grps pages (get_locked_pages k l),
  ),
)
