-- ===== src/Models/Mets/Gone.antt =====
-- What is left of a file that remove_one_file of class OcrdMets of
-- src/ocrd_models/ocrd_mets.py removes.
use ocr_d_core.Common.{
  ◌≡◌, refl, sym, ap, ◌∙◌, true, false, not, none, List, [], ◌∷◌, Text, nat_eq, list_eq, option_eq,
  ◌==◌, contains, keep_if, list_beq_iff, Bool-cases, arith, inl, inr, if◌then◌else◌, is_nonempty,
  nat_beq, In, ◌⊎◌,
}
use ocr_d_core.Common.Exec.{ok}
use ocr_d_core.Models.Tree.{Page, Tree, pages_of, groups_of}
use ocr_d_core.Models.Pages.{page_with_file, get_physical_page_for_file, drop_fptr, without_fptr}
use ocr_d_core.Models.Pages.Links.{page_of, contains-keep_if}
use ocr_d_core.Models.Find.{OcrdFile, candidates}
use ocr_d_core.Models.Mets.{has_el, remove_one_file}
use ocr_d_core.Models.Mets.Remove.{candidates-drop_el, remove_one_file-groups}
use ocr_d_core.Models.Mets.Fewer.{pages_of-set_pages}

contains-of_empty : (x : Text) (xs : List Text) → is_nonempty xs ≡ false → contains x xs ≡ false
unfolding contains
contains-of_empty x [] h = refl
contains-of_empty x (y ∷ xs) h = cc

page_of-drop_fptr :
    (file_id other : Text) (pages : List Page)
    → page_of other (drop_fptr file_id pages)
      ≡ (if other == file_id then none else page_of other pages)
unfolding page_with_file drop_fptr
page_of-drop_fptr f g [] = ground arith
page_of-drop_fptr f g (page ∷ pages) = ground (
  arith,
  contains-keep_if (λ x. not (x == f)) g page.fptrs,
  contains-of_empty g (without_fptr f page).fptrs,
  list_beq_iff g f,
  page_of-drop_fptr f g pages,
)

shift : {A B C : Type 0} → B ⊎ C → (A ⊎ B) ⊎ C
shift (inl b) = inl (inr b)
shift (inr c) = inr c

In-drop_fptr :
    (file_id : Text) (page : Page) (pages : List Page)
    → In page (drop_fptr file_id pages)
    → In page pages ⊎ (is_nonempty page.fptrs ≡ true)
unfolding drop_fptr
In-drop_fptr f page [] m = absurd m
In-drop_fptr f page (first ∷ pages) m = elim (Bool-cases (contains f first.fptrs)) [
  | inr n ↦ elim (rw n at m) [
    | inl e ↦ inl (inl e)
    | inr later ↦ shift (In-drop_fptr f page pages later)
  ]
  | inl y ↦ elim (Bool-cases (is_nonempty (without_fptr f first).fptrs)) [
    | inr n ↦ shift (In-drop_fptr f page pages (rw (y, n) at m))
    | inl z ↦ elim (rw (y, z) at m) [
      | inl e ↦ inr (ap (λ (x : Page). is_nonempty x.fptrs) e ∙ z)
      | inr later ↦ shift (In-drop_fptr f page pages later)
    ]
  ]
]

remove_one_file-pages :
    (f g : OcrdFile) (t u : Tree)
    → remove_one_file f t ≡ (ok g, u)
    → pages_of u ≡ drop_fptr f.file.id (pages_of t)
unfolding remove_one_file drop_fptr
remove_one_file-pages f g t u h = elim (Bool-cases (has_el f.file.el (groups_of t))) [
  | inl y ↦
      ap (λ r. pages_of r.1) (sym (rw (y, remove_one_file) at h))
      ∙ pages_of-set_pages (drop_fptr f.file.id) t refl
  | inr n ↦ absurd (ground arith)
]

-- When `remove_one_file` returns, exactly the element of the file is gone from the files, no page has a
-- link to its ID, and every other ID is on the page where it was.
pub remove_one_file-gone :
    (f g : OcrdFile) (t u : Tree) (other : Text)
    → remove_one_file f t ≡ (ok g, u)
    → (candidates (groups_of u)
        ≡ keep_if (λ x. not (nat_beq x.file.el f.file.el)) (candidates (groups_of t)))
      × (get_physical_page_for_file other u
          ≡ (if other == f.file.id then none else get_physical_page_for_file other t))
unfolding get_physical_page_for_file
remove_one_file-gone f g t u other h = (
  ap candidates (remove_one_file-groups f g t u h) ∙ candidates-drop_el f.file.el (groups_of t),
  ap (page_of other) (remove_one_file-pages f g t u h)
      ∙ page_of-drop_fptr f.file.id other (pages_of t),
)

-- When `remove_one_file` returns, a page was there before with the same links, or it still has a link:
-- pages that lose their last link are removed.
remove_one_file-pages_left :
    (f g : OcrdFile) (t u : Tree) (page : Page)
    → remove_one_file f t ≡ (ok g, u)
    → In page (pages_of u)
    → In page (pages_of t) ⊎ (is_nonempty page.fptrs ≡ true)
remove_one_file-pages_left f g t u page h m =
    In-drop_fptr f.file.id page (pages_of t) (rw (remove_one_file-pages f g t u h) at m)
