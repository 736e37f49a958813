-- ===== src/Network/LockedPages/Check.antt =====
-- When a request has to wait: check_if_locked_pages_for_output_file_grps.
use ocr_d_core.Common.{
  ◌≡◌, refl, sym, subst, ◌∙◌, ◌↔◌, ◌⊎◌, inl, inr, true, false, some, List, [], ◌∷◌, arith, In,
  In_of_contains, contains, contains_of_In, Text, list_eq, nat_eq, Bool-cases, Option-cases,
  is_nonempty,
}
use ocr_d_core.Common.Dict.{get}
use ocr_d_core.Network.Jobs.{PageId, page_id_eq, all_pages}
use ocr_d_core.Network.LockedPages.{
  Groups, LockedPages, overlaps, check_groups, get_locked_pages, locked_in, requested,
  check_if_locked_pages_for_output_file_grps as check, lock_pages,
}
use ocr_d_core.Network.LockedPages.View.{pages_of, lock_pages-In, Clash}

pub overlaps_common :
    (locked pages : List PageId)
    → overlaps locked pages ≡ true
    → (p : PageId) × In p locked × In p pages
unfolding overlaps
overlaps_common [] pages h = absurd (ground arith)
overlaps_common (p ∷ locked) pages h = elim (Bool-cases (contains p pages)) [
  | inl t ↦ (p, inl refl, In_of_contains p pages t)
  | inr f ↦ let (q, m, n) = overlaps_common locked pages (ground arith) in (q, inr m, n)
]

common-overlaps :
    (p : PageId) (locked pages : List PageId)
    → In p locked
    → In p pages
    → overlaps locked pages ≡ true
unfolding overlaps
common-overlaps p [] pages m n = absurd m
common-overlaps p (q ∷ locked) pages m n =
    ground (arith, common-overlaps p locked pages, contains_of_In p pages)

-- What `check_groups` finds.
abbrev Found : Groups → List Text → List PageId → Type 0
Found groups grps pages =
    (g : Text) × (p : PageId) × In g grps
    × In p (locked_in g groups)
    × ((p ≡ all_pages) ⊎ In p pages)

locked_in-some :
    (g : Text) (groups : Groups) {locked : List PageId}
    → get g groups ≡ some locked
    → locked_in g groups ≡ locked
locked_in-some g groups s = ground arith

check_group_sound :
    (groups : Groups) (g : Text) (grps : List Text) (pages : List PageId)
    → (check_groups groups grps pages ≡ true → Found groups grps pages)
    → check_groups groups (g ∷ grps) pages ≡ true
    → Found groups (g ∷ grps) pages
unfolding check_groups
check_group_sound groups g grps pages ih h = elim (Option-cases (get g groups)) [
  | inl n ↦ let (g', p, a, b, c) = ih (ground arith) in (g', p, inr a, b, c)
  | inr (locked, s) ↦ elim (Bool-cases (contains all_pages locked)) [
    | inl t ↦ (
      g,
      all_pages,
      inl refl,
      subst (In all_pages) (sym (locked_in-some g groups s)) (In_of_contains all_pages locked t),
      inl refl,
    )
    | inr f ↦ elim (Bool-cases (overlaps locked pages)) [
      | inl t ↦
          let (p, m, n) = overlaps_common locked pages t in
          (g, p, inl refl, subst (In p) (sym (locked_in-some g groups s)) m, inr n)
      | inr f' ↦ let (g', p, a, b, c) = ih (ground arith) in (g', p, inr a, b, c)
    ]
  ]
]

check_groups_sound :
    (groups : Groups) (grps : List Text) (pages : List PageId)
    → check_groups groups grps pages ≡ true
    → Found groups grps pages
unfolding check_groups
check_groups_sound groups [] pages h = absurd (ground arith)
check_groups_sound groups (g ∷ grps) pages h =
    check_group_sound groups g grps pages (check_groups_sound groups grps pages) h

check_groups_complete :
    (groups : Groups) (grps : List Text) (pages : List PageId) (g : Text) (p : PageId)
    → In g grps
    → In p (locked_in g groups)
    → (p ≡ all_pages) ⊎ In p pages
    → check_groups groups grps pages ≡ true
unfolding check_groups
check_groups_complete groups [] pages g p a b c = absurd a
check_groups_complete groups (h ∷ grps) pages g p a b c = ground (
  arith,
  check_groups_complete groups grps pages g p,
  contains_of_In p (locked_in g groups),
  common-overlaps p (locked_in g groups) pages,
)

check_groups-nil : (grps : List Text) (pages : List PageId) → check_groups [] grps pages ≡ false
unfolding check_groups get
check_groups-nil [] pages = refl
check_groups-nil (g ∷ grps) pages = check_groups-nil grps pages

check-eq-check_groups :
    (k : Text) (grps : List Text) (pages : List PageId) (l : LockedPages)
    → check k grps pages l ≡ check_groups (get_locked_pages k l) grps pages
unfolding check get_locked_pages
check-eq-check_groups k grps pages l = ground (arith, check_groups-nil grps pages)

-- The check tells exactly whether the request clashes with the locked pages: whether all pages are
-- locked in one of its output file groups, or a page that it names.
pub check_iff-Clash :
    (k : Text) (grps : List Text) (pages : List PageId) (l : LockedPages)
    → (check k grps pages l ≡ true) ↔ Clash k grps pages l
check_iff-Clash k grps pages l = (
  λ h.
      let (g, p, a, b, c) =
        check_groups_sound (get_locked_pages k l) grps pages
          (sym (check-eq-check_groups k grps pages l) ∙ h) in
      record { file_group = g; page = p; requested_group = a; held = b; wanted = c },
  λ c.
      check-eq-check_groups k grps pages l
      ∙ check_groups_complete (get_locked_pages k l) grps pages c.file_group c.page
          c.requested_group c.held c.wanted,
)

In-requested :
    (p : PageId) (pages : List PageId)
    → is_nonempty pages ≡ true
    → In p (requested pages)
    → In p pages
In-requested p [] h m = cc
In-requested p (x ∷ pages) h m = m

-- A request for all pages (with no page id) is not held back by the pages that another request has
-- locked one by one: the check looks only for the placeholder.
pub check-all_pages :
    (k : Text) (grps held_grps : List Text) (held_pages : List PageId) (l : LockedPages)
    → check k grps [] l ≡ false
    → is_nonempty held_pages ≡ true
    → ¬ In all_pages held_pages
    → check k grps [] (lock_pages k held_grps held_pages l) ≡ false
check-all_pages k grps held_grps held_pages l free some_pages proper =
    elim (Bool-cases (check k grps [] (lock_pages k held_grps held_pages l))) [
      | inr f ↦ f
      | inl t ↦
          let c = (check_iff-Clash k grps [] (lock_pages k held_grps held_pages l)).0 t in
          let held = (lock_pages-In c.page k k c.file_group held_grps held_pages l).0 c.held in
          let before = λ (m : In c.page (pages_of k c.file_group l)).
            (check_iff-Clash k grps [] l).1 (record {
              file_group = c.file_group;
              page = c.page;
              requested_group = c.requested_group;
              held = m;
              wanted = c.wanted;
            }) in
          let placeholder : c.page ≡ all_pages = elim c.wanted [ inl e ↦ e | inr m ↦ absurd m ] in
          elim held [
            | inl m ↦ cc (before m, free)
            | inr (_, _, m) ↦
                absurd (proper (rw placeholder at (In-requested _ held_pages some_pages m)))
          ]
    ]
