-- ===== src/Network/LockedPages/Unlock.antt =====
-- Unlocking: unlock_pages.
use ocr_d_core.Common.{
  ◌≡◌, refl, ◌∙◌, ◌⊎◌, inl, inr, true, false, not, ◌&&◌, List, [], ◌∷◌, ◌++◌, arith, In_of_contains,
  contains, contains_of_In, Text, list_eq, nat_eq, Bool-cases, Option-cases, is_nonempty, keep_if,
  keep_if_idem, keep_if_nil, keep_if_none, keep_if_all, keep_if-append, list_beq_iff, if◌then◌else◌,
  ◌==◌,
}
use ocr_d_core.Common.Dict.{get, put}
use mathlib.Core.List.{append-nil}
use ocr_d_core.Network.LockedPages.Check.{check_iff-Clash}
use ocr_d_core.Common.Exec.{ok}
use ocr_d_core.Network.Jobs.{PageId, page_id_eq}
use ocr_d_core.Network.LockedPages.{
  Groups, LockedPages, entry, get_locked_pages, locked_in, requested, lock_pages, lock_groups,
  unlock_groups, unlock_pages, check_if_locked_pages_for_output_file_grps as check,
}
use ocr_d_core.Network.LockedPages.View.{pages_of, locked_in-put, get_locked_pages-put}

-- The pages of a file group after unlocking `pages`.
abbrev pub without : List PageId → List PageId → List PageId
without pages locked = keep_if (λ x. not (contains x pages)) locked

unlock_groups-locked_in :
    (h : Text) (grps : List Text) (pages : List PageId) (groups : Groups)
    → is_nonempty pages ≡ true
    → locked_in h (unlock_groups grps pages groups).1
      ≡ (if contains h grps then without pages (locked_in h groups) else locked_in h groups)
unfolding unlock_groups contains
unlock_groups-locked_in h [] pages groups n = refl
unlock_groups-locked_in h (g ∷ grps) pages groups n = ground (
  arith,
  unlock_groups-locked_in h grps pages groups,
  unlock_groups-locked_in h grps pages (put g (without pages (locked_in g groups)) groups),
  locked_in-put g h (without pages (locked_in g groups)) groups,
  list_beq_iff g h,
  list_beq_iff h g,
  keep_if_idem (λ x. not (contains x pages)) (locked_in h groups),
  keep_if_nil (λ x. not (contains x pages)),
)

unlock_groups-ok :
    (grps : List Text) (pages : List PageId) (groups : Groups)
    → is_nonempty pages ≡ true
    → (unlock_groups grps pages groups).0 ≡ ok tt
unfolding unlock_groups
unlock_groups-ok [] pages groups n = refl
unlock_groups-ok (g ∷ grps) pages groups n = ground (
  arith,
  unlock_groups-ok grps pages groups,
  unlock_groups-ok grps pages (put g (without pages (locked_in g groups)) groups),
)

-- `unlock_pages` works on the groups of the entry, if there is one.
unlock_pages_cases :
    (k : Text) (grps : List Text) (pages : List PageId) (l : LockedPages)
    → ((unlock_pages k grps pages l ≡ (ok tt, l)) × (get_locked_pages k l ≡ []))
      ⊎ (unlock_pages k grps pages l ≡ (
        (unlock_groups grps pages (get_locked_pages k l)).0,
        put k (unlock_groups grps pages (get_locked_pages k l)).1 l,
      ))
unfolding unlock_pages get_locked_pages
unlock_pages_cases k grps pages l = elim (Option-cases (entry k l)) [
  | inl n ↦ inl (ground arith, ground arith)
  | inr (groups, s) ↦ inr (ground arith)
]

-- Unlocking named pages does not fail. It takes exactly these pages out of the file groups of the
-- request, in its own workspace, and leaves every other file group as it was.
pub unlock_pages_lem :
    (k j h : Text) (grps : List Text) (pages : List PageId) (l : LockedPages)
    → is_nonempty pages ≡ true
    → ((unlock_pages k grps pages l).0 ≡ ok tt)
      × (pages_of j h (unlock_pages k grps pages l).1
          ≡ (if k == j && contains h grps then without pages (pages_of j h l) else pages_of j h l))
unlock_pages_lem k j h grps pages l n = elim (unlock_pages_cases k grps pages l) [
  | inl (e, none_left) ↦
      let nothing : locked_in h [] ≡ [] = unfold get in refl in
      rw e (refl, ground (arith, list_beq_iff k j, keep_if_nil (λ x. not (contains x pages))))
  | inr e ↦ rw e (
    unlock_groups-ok grps pages (get_locked_pages k l) n,
    ground (
      arith,
      list_beq_iff k j,
      get_locked_pages-put k j (unlock_groups grps pages (get_locked_pages k l)).1 l,
      unlock_groups-locked_in h grps pages (get_locked_pages k l),
    ),
  )
]

without_self : (pages : List PageId) → without pages pages ≡ []
without_self pages =
    keep_if_none (λ x. not (contains x pages)) pages (λ x m. rw (contains_of_In x pages m))

without-lock_groups :
    (h : Text) (grps : List Text) (pages : List PageId) (groups : Groups)
    → is_nonempty pages ≡ true
    → without pages (locked_in h (lock_groups grps pages groups))
      ≡ without pages (locked_in h groups)
unfolding lock_groups
without-lock_groups h [] pages groups n = refl
without-lock_groups h (g ∷ grps) pages groups n = ground (
  arith,
  without-lock_groups h grps pages (put g (locked_in g groups ++ requested pages) groups),
  locked_in-put g h (locked_in g groups ++ requested pages) groups,
  list_beq_iff g h,
  keep_if-append (λ x. not (contains x pages)) (locked_in g groups) pages,
  without_self pages,
  append-nil (without pages (locked_in g groups)),
)

locked_in-lock_groups :
    (h : Text) (grps : List Text) (pages : List PageId) (groups : Groups)
    → contains h grps ≡ false
    → locked_in h (lock_groups grps pages groups) ≡ locked_in h groups
unfolding lock_groups contains
locked_in-lock_groups h [] pages groups n = refl
locked_in-lock_groups h (g ∷ grps) pages groups n = ground (
  arith,
  locked_in-lock_groups h grps pages (put g (locked_in g groups ++ requested pages) groups),
  locked_in-put g h (locked_in g groups ++ requested pages) groups,
  list_beq_iff g h,
  list_beq_iff h g,
)

without-disjoint :
    (k h : Text) (grps : List Text) (pages : List PageId) (l : LockedPages)
    → check k grps pages l ≡ false
    → contains h grps ≡ true
    → without pages (pages_of k h l) ≡ pages_of k h l
without-disjoint k h grps pages l free c = keep_if_all _ (pages_of k h l) λ x m.
    elim (Bool-cases (contains x pages)) [
      | inr f ↦ rw f
      | inl t ↦ cc (
        free,
        (check_iff-Clash k grps pages l).1 (record {
          file_group = h;
          page = x;
          requested_group = In_of_contains h grps c;
          held = m;
          wanted = inr (In_of_contains x pages t);
        }),
      )
    ]

-- If a request for named pages clashes with nothing, then locking its pages and unlocking them
-- again does not fail, and leaves the same pages locked, in every file group of every workspace.
pub unlock_pages-lock_pages :
    (k j h : Text) (grps : List Text) (pages : List PageId) (l : LockedPages)
    → is_nonempty pages ≡ true
    → check k grps pages l ≡ false
    → ((unlock_pages k grps pages (lock_pages k grps pages l)).0 ≡ ok tt)
      × (pages_of j h (unlock_pages k grps pages (lock_pages k grps pages l)).1 ≡ pages_of j h l)
unlock_pages-lock_pages k j h grps pages l n free =
    let (fine, left) = unlock_pages_lem k j h grps pages (lock_pages k grps pages l) n in
    (
      fine,
      left
          ∙ unfold lock_pages in
            ground (
              arith,
              list_beq_iff k j,
              get_locked_pages-put k j (lock_groups grps pages (get_locked_pages k l)) l,
              without-lock_groups h grps pages (get_locked_pages k l),
              locked_in-lock_groups h grps pages (get_locked_pages k l),
              without-disjoint k h grps pages l,
            ),
    )
