-- ===== src/Models/Pages/Links.antt =====
-- The page of a file after its link is set: set_physical_page_for_file of class OcrdMets of
-- src/ocrd_models/ocrd_mets.py.
use ocr_d_core.Common.{
  ◌≡◌, ◌≢◌, refl, Bool, not, ◌&&◌, ◌||◌, Option, none, some, List, [], ◌∷◌, ◌++◌, map, Text, nat_eq,
  list_eq, option_eq, ◌==◌, contains, keep_if, list_beq_iff, option_beq_iff, Bool-cases, arith, ◌∙◌,
  Eq, inl, inr, if◌then◌else◌,
}
use ocr_d_core.Models.Tree.{Page, Tree, pages_of}
use ocr_d_core.Models.Pages.{
  page_with_file, get_physical_page_for_file, set_physical_page_for_file, add_fptr, without_fptr,
  if_set,
}

module _ {A : Type 0} ⦃e : Eq A⦄ where
  pub contains-append :
      (x : A) (xs ys : List A) → contains x (xs ++ ys) ≡ (contains x xs || contains x ys)
  unfolding contains
  contains-append x [] ys = refl
  contains-append x (y ∷ xs) ys = ground (arith, contains-append x xs ys)

  pub contains-keep_if :
      (p : A → Bool) (x : A) (xs : List A) → contains x (keep_if p xs) ≡ (p x && contains x xs)
  unfolding contains keep_if
  contains-keep_if p x [] = ground arith
  contains-keep_if p x (y ∷ xs) = ground (arith, e.same_iff x y, contains-keep_if p x xs)

-- The ID of the page that `page_with_file` finds.
abbrev pub page_of : Text → List Page → Option Text
page_of file_id pages = elim (page_with_file file_id pages) [
  | none ↦ none
  | some page ↦ page.page_id
]

-- Without a link before, the file is on the page of the new link.
page_of-add_fptr :
    (file_id page_id : Text) (order orderlabel : Option Text) (pages : List Page)
    → page_with_file file_id pages ≡ none
    → page_of file_id (add_fptr page_id file_id order orderlabel pages) ≡ some page_id
unfolding page_with_file add_fptr contains
page_of-add_fptr f p o l [] h = ground (arith, list_beq_iff f f)
page_of-add_fptr f p o l (page ∷ pages) h = elim (Bool-cases (page.page_id == some p)) [
  | inl t ↦ ground (
    arith,
    contains-append f page.fptrs (f ∷ []),
    list_beq_iff f f,
    option_beq_iff page.page_id (some p),
  )
  | inr n ↦ ground (arith, page_of-add_fptr f p o l pages)
]

page_with_file-without :
    (file_id : Text) (pages : List Page)
    → page_with_file file_id (map (without_fptr file_id) pages) ≡ none
unfolding page_with_file
page_with_file-without f [] = refl
page_with_file-without f (page ∷ pages) = ground (
  arith,
  contains-keep_if (λ g. not (g == f)) f page.fptrs,
  list_beq_iff f f,
  page_with_file-without f pages,
)

-- Links of one file do not change the page of another.
page_of-add_fptr_other :
    (file_id other page_id : Text) (order orderlabel : Option Text) (pages : List Page)
    → other ≢ file_id
    → page_of other (add_fptr page_id file_id order orderlabel pages) ≡ page_of other pages
unfolding page_with_file add_fptr contains
page_of-add_fptr_other f g p o l [] ne = ground (arith, list_beq_iff g f)
page_of-add_fptr_other f g p o l (page ∷ pages) ne = elim (Bool-cases (page.page_id == some p)) [
  | inl t ↦ ground (arith, contains-append g page.fptrs (f ∷ []), list_beq_iff g f)
  | inr n ↦ ground (arith, page_of-add_fptr_other f g p o l pages ne)
]

pub page_of-without_other :
    (file_id other : Text) (pages : List Page)
    → other ≢ file_id
    → page_of other (map (without_fptr file_id) pages) ≡ page_of other pages
unfolding page_with_file
page_of-without_other f g [] ne = refl
page_of-without_other f g (page ∷ pages) ne = ground (
  arith,
  contains-keep_if (λ x. not (x == f)) g page.fptrs,
  list_beq_iff g f,
  page_of-without_other f g pages ne,
)

pub set_physical_page_for_file-page :
    (page_id file_id : Text) (order orderlabel : Option Text) (t : Tree)
    → get_physical_page_for_file file_id
        (set_physical_page_for_file page_id file_id order orderlabel t)
      ≡ some page_id
unfolding get_physical_page_for_file set_physical_page_for_file
set_physical_page_for_file-page p f o l t =
    page_of-add_fptr f p (if_set o) (if_set l) (map (without_fptr f) (pages_of t))
      (page_with_file-without f (pages_of t))

pub set_physical_page_for_file-other :
    (page_id file_id other : Text) (order orderlabel : Option Text) (t : Tree)
    → other ≢ file_id
    → get_physical_page_for_file other
        (set_physical_page_for_file page_id file_id order orderlabel t)
      ≡ get_physical_page_for_file other t
unfolding get_physical_page_for_file set_physical_page_for_file
set_physical_page_for_file-other p f g o l t ne =
    page_of-add_fptr_other f g p (if_set o) (if_set l) (map (without_fptr f) (pages_of t)) ne
    ∙ page_of-without_other f g (pages_of t) ne

-- After `set_physical_page_for_file`, a file is on the page that was set, and every other file is on
-- the page where it was before.
pub set_physical_page_for_file-get :
    (page_id file_id other : Text) (order orderlabel : Option Text) (t : Tree)
    → get_physical_page_for_file other
        (set_physical_page_for_file page_id file_id order orderlabel t)
      ≡ (if other == file_id then some page_id else get_physical_page_for_file other t)
set_physical_page_for_file-get p f g o l t = elim (Bool-cases (g == f)) [
  | inl e ↦ rw (e, (list_beq_iff g f).0 e) (set_physical_page_for_file-page p f o l t)
  | inr n ↦
      rw n (set_physical_page_for_file-other p f g o l t (λ q. ground (arith, list_beq_iff g f)))
]
