-- ===== src/Models/Mets/Fewer.antt =====
-- What the removing methods of class OcrdMets of src/ocrd_models/ocrd_mets.py leave: files and links
-- that were there before.
use ocr_d_core.Common.{
  ◌≡◌, refl, sym, Bool, false, some, List, [], ◌∷◌, ◌++◌, map, Text, ℕ, ◌+◌, ◌≤◌, nat_eq, list_eq,
  option_eq, ◌==◌, keep_if, keep_if-append, Bool-cases, arith, not, length, length-append, inl, inr,
  contains, is_nonempty, nat_beq, Eq, Option-cases,
}
use ocr_d_core.Common.Exec.{Exec, ok, ◌>>=◌, Result-cases}
use ocr_d_core.Models.Tree.{Page, Tree, Regex, groups_of, pages_of}
use ocr_d_core.Models.Pages.{
  drop_fptr, without_fptr, set_pages, drop_first, remove_physical_page, remove_physical_page_fptr,
}
use ocr_d_core.Models.Find.{OcrdFile, Query, candidates, find_files, fptrs_of}
use ocr_d_core.Models.Mets.{
  has_el, drop_el, in_files, set_groups, remove_one_file, remove_each, remove_file,
}
use ocr_d_core.Models.Mets.Lookup.{groups_of-set_groups}
use ocr_d_core.Models.Mets.Remove.{candidates-drop_el}

module _ {A : Type 0} where
  pub length-keep_if-keep_if :
      (p q : A → Bool) (xs : List A) → length (keep_if p (keep_if q xs)) ≤ length (keep_if p xs)
  unfolding keep_if
  length-keep_if-keep_if p q [] = ground arith
  length-keep_if-keep_if p q (x ∷ xs) = ground (arith, length-keep_if-keep_if p q xs)

  pub length-keep_if_append :
      (p : A → Bool) (xs ys : List A)
      → length (keep_if p (xs ++ ys)) ≡ length (keep_if p xs) + length (keep_if p ys)
  length-keep_if_append p xs ys =
      rw (keep_if-append p xs ys) (length-append (keep_if p xs) (keep_if p ys))

keep_if-not_contained :
    {A : Type 0} ⦃e : Eq A⦄ (x : A) (xs : List A)
    → contains x xs ≡ false
    → keep_if (λ y. not (y == x)) xs ≡ xs
unfolding contains keep_if
keep_if-not_contained x [] h = refl
keep_if-not_contained ⦃e⦄ x (y ∷ xs) h =
    ground (arith, e.same_iff x y, e.same_iff y x, keep_if-not_contained x xs)

-- The links of all pages.
pub fptrs_of-without :
    (file_id : Text) (pages : List Page)
    → fptrs_of (map (without_fptr file_id) pages)
      ≡ keep_if (λ f. not (f == file_id)) (fptrs_of pages)
unfolding fptrs_of keep_if
fptrs_of-without f [] = refl
fptrs_of-without f (page ∷ pages) =
    rw (keep_if-append (λ g. not (g == f)) page.fptrs (fptrs_of pages), fptrs_of-without f pages)
      refl

is_nonempty_nil : {A : Type 0} (xs : List A) → is_nonempty xs ≡ false → xs ≡ []
is_nonempty_nil [] h = refl
is_nonempty_nil (x ∷ xs) h = cc

pub fptrs_of-drop_fptr :
    (file_id : Text) (pages : List Page)
    → fptrs_of (drop_fptr file_id pages) ≡ keep_if (λ f. not (f == file_id)) (fptrs_of pages)
unfolding fptrs_of keep_if drop_fptr
fptrs_of-drop_fptr f [] = refl
fptrs_of-drop_fptr f (page ∷ pages) =
    let kept = (without_fptr f page).fptrs in
    let rest = fptrs_of-drop_fptr f pages in
    let split = keep_if-append (λ g. not (g == f)) page.fptrs (fptrs_of pages) in
    elim (Bool-cases (contains f page.fptrs)) [
      | inr n ↦ rw (n, split, rest, keep_if-not_contained f page.fptrs n) refl
      | inl y ↦ elim (Bool-cases (is_nonempty kept)) [
        | inl z ↦ rw (y, z, split, rest) refl
        | inr z ↦ rw (y, z, split, rest, is_nonempty_nil kept z) refl
      ]
    ]

fptrs_of-drop_first :
    (p : Text → Bool) (page_id : Text) (pages : List Page)
    → length (keep_if p (fptrs_of (drop_first page_id pages))) ≤ length (keep_if p (fptrs_of pages))
unfolding fptrs_of drop_first
fptrs_of-drop_first p i [] = ground arith
fptrs_of-drop_first p i (page ∷ pages) = elim (Bool-cases (page.page_id == some i)) [
  | inl y ↦ rw y (omega (arith, length-keep_if_append p page.fptrs (fptrs_of pages)))
  | inr n ↦ rw n (
      omega (
        arith,
        length-keep_if_append p page.fptrs (fptrs_of pages),
        length-keep_if_append p page.fptrs (fptrs_of (drop_first i pages)),
        fptrs_of-drop_first p i pages,
      ))
]

-- `u` has no files and no links that `t` has not, and none more often.
pub record Fewer (t u : Tree) : Type 0 where
  pub files :
      (p : OcrdFile → Bool)
      → length (keep_if p (candidates (groups_of u)))
        ≤ length (keep_if p (candidates (groups_of t)))
  pub links :
      (p : Text → Bool)
      → length (keep_if p (fptrs_of (pages_of u))) ≤ length (keep_if p (fptrs_of (pages_of t)))

pub Fewer-refl : (t : Tree) → Fewer t t
Fewer-refl t = record { files = λ p. omega arith; links = λ p. omega arith }

pub Fewer-trans : {t u v : Tree} → Fewer t u → Fewer u v → Fewer t v
Fewer-trans f g = record {
  files = λ p. omega (arith, f.files p, g.files p);
  links = λ p. omega (arith, f.links p, g.links p);
}

pub pages_of-set_pages :
    (f : List Page → List Page) (t : Tree) → f [] ≡ [] → pages_of (set_pages f t) ≡ f (pages_of t)
pages_of-set_pages f t h = elim (Option-cases t.phys_sequence) [
  | inl e ↦ rw e (sym h)
  | inr (pages, e) ↦ rw e refl
]

pub remove_physical_page-Fewer :
    (page_id : Text) (t : Tree) → Fewer t (remove_physical_page page_id t)
unfolding remove_physical_page drop_first
remove_physical_page-Fewer i t = record {
  files = λ p. omega arith;
  links = λ p. rw (pages_of-set_pages (drop_first i) t refl) (fptrs_of-drop_first p i (pages_of t));
}

pub remove_physical_page_fptr-Fewer :
    (file_id : Text) (t : Tree) → Fewer t (remove_physical_page_fptr file_id t).1
unfolding remove_physical_page_fptr
remove_physical_page_fptr-Fewer f t = record {
  files = λ p. omega arith;
  links = λ p.
      rw (pages_of-set_pages (map (without_fptr f)) t refl, fptrs_of-without f (pages_of t))
        (length-keep_if-keep_if p (λ g. not (g == f)) (fptrs_of (pages_of t)));
}

unlinked-Fewer : (file_id : Text) (t : Tree) → Fewer t (set_pages (drop_fptr file_id) t)
unfolding drop_fptr
unlinked-Fewer f t = record {
  files = λ p. omega arith;
  links = λ p.
      rw (pages_of-set_pages (drop_fptr f) t refl, fptrs_of-drop_fptr f (pages_of t))
        (length-keep_if-keep_if p (λ g. not (g == f)) (fptrs_of (pages_of t)));
}

drop_el-Fewer : (el : ℕ) (t : Tree) → Fewer t (set_groups (map (in_files (drop_el el))) t)
drop_el-Fewer el t = record {
  files = λ p.
      rw
        (
          groups_of-set_groups (map (in_files (drop_el el))) t refl,
          candidates-drop_el el (groups_of t),
        )
        (length-keep_if-keep_if p (λ f. not (nat_beq f.file.el el)) (candidates (groups_of t)));
  links = λ p. omega arith;
}

-- Removing files leaves fewer, with an exception or without.
pub remove_one_file-Fewer : (f : OcrdFile) (t : Tree) → Fewer t (remove_one_file f t).1
unfolding remove_one_file
remove_one_file-Fewer f t =
    let unlinked = set_pages (drop_fptr f.file.id) t in
    elim (Bool-cases (has_el f.file.el (groups_of t))) [
      | inl y ↦
          rw (y, remove_one_file)
            (Fewer-trans (unlinked-Fewer f.file.id t) (drop_el-Fewer f.file.el unlinked))
      | inr n ↦ rw (n, remove_one_file) (unlinked-Fewer f.file.id t)
    ]

pub remove_each-Fewer : (files : List OcrdFile) (t : Tree) → Fewer t (remove_each files t).1
unfolding remove_each
remove_each-Fewer [] t = Fewer-refl t
remove_each-Fewer (f ∷ files) t =
    let after = (remove_one_file f t).1 in
    let first = remove_one_file-Fewer f t in
    elim (Result-cases (remove_one_file f t).0) [
      | inl (g, e) ↦ rw (e, remove_each) (Fewer-trans first (remove_each-Fewer files after))
      | inr (x, e) ↦ rw (e, remove_each) first
    ]

-- A sequence of statements that leave fewer.
pub and_then-Fewer :
    {A B : Type 0} (m : Exec Tree A) (f : A → Exec Tree B) (t : Tree)
    → Fewer t (m t).1
    → ((a : A) (u : Tree) → Fewer u (f a u).1)
    → Fewer t ((m >>= f) t).1
and_then-Fewer m f t first next = elim (Result-cases (m t).0) [
  | inl (a, e) ↦ rw e (Fewer-trans first (next a (m t).1))
  | inr (x, e) ↦ rw e first
]

remove_found-Fewer :
    (regex : Regex) (query : Query) (t : Tree) (found : List OcrdFile)
    → find_files regex query t ≡ ok found
    → Fewer t (remove_file regex query t).1
unfolding remove_file
remove_found-Fewer regex query t [] e = rw (e, remove_file) (Fewer-refl t)
remove_found-Fewer regex query t (f ∷ found) e =
    rw (e, remove_file)
      (and_then-Fewer (remove_each (f ∷ found)) (λ u s. (ok (f ∷ found), s)) t
        (remove_each-Fewer (f ∷ found) t) (λ u s. Fewer-refl s))

pub remove_file-Fewer :
    (regex : Regex) (query : Query) (t : Tree) → Fewer t (remove_file regex query t).1
unfolding remove_file
remove_file-Fewer regex query t = elim (Result-cases (find_files regex query t)) [
  | inr (x, e) ↦ rw (e, remove_file) (Fewer-refl t)
  | inl (found, e) ↦ remove_found-Fewer regex query t found e
]
