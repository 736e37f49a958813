-- ===== src/Models/Mets/Valid.antt =====
-- The well-formedness of a METS file that class OcrdMets of src/ocrd_models/ocrd_mets.py changes: a
-- group has at most one file of an ID, and a file is linked to at most one page, once.
use ocr_d_core.Common.{
  ◌≡◌, refl, ap, Bool, true, false, Option, none, some, List, [], ◌∷◌, ◌++◌, map, Text, ℕ, ◌+◌, ◌≤◌,
  nat_eq, list_eq, option_eq, ◌==◌, keep_if, Bool-cases, list_beq_iff, arith, not, length,
  length-append, inl, inr, if◌then◌else◌,
}
use ocr_d_core.Models.Tree.{File, Group, Page, Tree, groups_of, pages_of}
use ocr_d_core.Models.Pages.{
  add_fptr, without_fptr, if_set, set_physical_page_for_file, remove_physical_page_fptr,
}
use ocr_d_core.Models.Find.{OcrdFile, candidates, fptrs_of}
use ocr_d_core.Models.Mets.{append_to, set_page_id, set_page_ids, move_fptrs}
use ocr_d_core.Models.Mets.Lookup.{has_key}
use ocr_d_core.Models.Mets.Append.{in_group, keep_if-map-snoc}
use ocr_d_core.Models.Mets.Fewer.{
  Fewer, length-keep_if_append, length-keep_if-keep_if, fptrs_of-without,
  remove_physical_page_fptr-Fewer,
}

pub record IsValid (t : Tree) : Type 0 where
  pub one_file :
      (id use_name : Text) → length (keep_if (has_key id use_name) (candidates (groups_of t))) ≤ 1
  pub one_link : (id : Text) → length (keep_if (λ f. f == id) (fptrs_of (pages_of t))) ≤ 1

pub Fewer-IsValid : {t u : Tree} → Fewer t u → IsValid t → IsValid u
Fewer-IsValid f v = record {
  one_file = λ id grp. omega (arith, f.files (has_key id grp), v.one_file id grp);
  one_link = λ id. omega (arith, f.links (λ g. g == id), v.one_link id);
}

single : {A : Type 0} (p : A → Bool) (x : A) → length (keep_if p (x ∷ [])) ≡ (if p x then 1 else 0)
unfolding keep_if
single p x = ground arith

-- A link that is added is one more.
length-add_fptr :
    (p : Text → Bool) (page_id file_id : Text) (order orderlabel : Option Text) (pages : List Page)
    → length (keep_if p (fptrs_of (add_fptr page_id file_id order orderlabel pages)))
      ≡ length (keep_if p (fptrs_of pages)) + (if p file_id then 1 else 0)
unfolding fptrs_of add_fptr keep_if
length-add_fptr p i f o l [] = ground arith
length-add_fptr p i f o l (page ∷ pages) = elim (Bool-cases (page.page_id == some i)) [
  | inl y ↦ rw y (
      omega (
        arith,
        length-keep_if_append p (page.fptrs ++ f ∷ []) (fptrs_of pages),
        length-keep_if_append p page.fptrs (f ∷ []),
        length-keep_if_append p page.fptrs (fptrs_of pages),
        single p f,
      ))
  | inr n ↦ rw n (
      omega (
        arith,
        length-keep_if_append p page.fptrs (fptrs_of pages),
        length-keep_if_append p page.fptrs (fptrs_of (add_fptr i f o l pages)),
        length-add_fptr p i f o l pages,
      ))
]

keep_if-disjoint :
    {A : Type 0} (p q : A → Bool) (xs : List A)
    → ((x : A) → p x ≡ true → q x ≡ false)
    → length (keep_if p (keep_if q xs)) ≡ 0
unfolding keep_if
keep_if-disjoint p q [] h = refl
keep_if-disjoint p q (x ∷ xs) h = ground (arith, h x, keep_if-disjoint p q xs h)

set_physical_page_for_file-link :
    (page_id file_id : Text) (order orderlabel : Option Text) (t : Tree) (id : Text)
    → length (keep_if (λ f. f == id) (fptrs_of (pages_of t))) ≤ 1
    → length (
        keep_if
          (λ f. f == id)
          (fptrs_of (pages_of (set_physical_page_for_file page_id file_id order orderlabel t))))
      ≤ 1
unfolding set_physical_page_for_file
set_physical_page_for_file-link i f o l t id h =
    let test : Text → Bool = λ g. g == id in
    let others : Text → Bool = λ g. not (g == f) in
    let links = fptrs_of (pages_of t) in
    let added =
      length-add_fptr test i f (if_set o) (if_set l) (map (without_fptr f) (pages_of t)) in
    let kept = ap (λ x. length (keep_if test x)) (fptrs_of-without f (pages_of t)) in
    elim (Bool-cases (f == id)) [
      | inl y ↦
          let e = (list_beq_iff f id).0 y in
          let gone =
            keep_if-disjoint test others links
              (λ g q. ground (arith, list_beq_iff g id, list_beq_iff g f)) in
          omega (arith, rw y at added, kept, gone)
      | inr n ↦ omega (arith, rw n at added, kept, length-keep_if-keep_if test others links)
    ]

pub set_physical_page_for_file-IsValid :
    (page_id file_id : Text) (order orderlabel : Option Text) (t : Tree)
    → IsValid t
    → IsValid (set_physical_page_for_file page_id file_id order orderlabel t)
unfolding set_physical_page_for_file
set_physical_page_for_file-IsValid i f o l t v = record {
  one_file = v.one_file;
  one_link = λ id. set_physical_page_for_file-link i f o l t id (v.one_link id);
}

pub set_page_id-IsValid :
    (file_id : Text) (page_id : Option Text) (t : Tree)
    → IsValid t
    → IsValid (set_page_id file_id page_id t)
unfolding set_page_id
set_page_id-IsValid f none t v = v
set_page_id-IsValid f (some p) t v = set_physical_page_for_file-IsValid p f none none t v

set_page_ids-IsValid :
    (file_id : Text) (page_ids : List (Option Text)) (t : Tree)
    → IsValid t
    → IsValid (set_page_ids file_id page_ids t)
unfolding set_page_ids
set_page_ids-IsValid f [] t v = v
set_page_ids-IsValid f (p ∷ ps) t v =
    set_page_ids-IsValid f ps (set_page_id f p t) (set_page_id-IsValid f p t v)

pub move_fptrs-IsValid : (old new : Text) (t : Tree) → IsValid t → IsValid (move_fptrs old new t)
unfolding move_fptrs
move_fptrs-IsValid old new t v =
    let removed = remove_physical_page_fptr old t in
    set_page_ids-IsValid new removed.0 removed.1
      (Fewer-IsValid (remove_physical_page_fptr-Fewer old t) v)

length_if :
    {A : Type 0} (b : Bool) (x : A) → length (if b then x ∷ [] else []) ≡ (if b then 1 else 0)
length_if true x = refl
length_if false x = refl

-- A file that is put into a group is one more.
pub length-append_to :
    (p : OcrdFile → Bool) (use_name : Text) (file : File) (groups : List Group)
    → length (keep_if p (candidates (append_to use_name file groups)))
      ≤ length (keep_if p (candidates groups)) + (if p (in_group use_name file) then 1 else 0)
unfolding candidates append_to keep_if
length-append_to p grp file [] = ground arith
length-append_to p grp file (group ∷ groups) =
    let here = map (in_group group.use_name) group.files in
    let before = length-keep_if_append p here (candidates groups) in
    elim (Bool-cases (group.use_name == grp)) [
      | inl y ↦
          let e = (list_beq_iff group.use_name grp).0 y in
          let new = map (in_group group.use_name) (group.files ++ file ∷ []) in
          let added = ap length (keep_if-map-snoc p (in_group group.use_name) group.files file) in
          let tail =
            if p (in_group group.use_name file) then in_group group.use_name file ∷ [] else [] in
          rw y (
            omega (
              arith,
              before,
              length-keep_if_append p new (candidates groups),
              added,
              length-append (keep_if p here) tail,
              length_if (p (in_group group.use_name file)) (in_group group.use_name file),
              ap {B = ℕ} (λ x. if p (in_group x file) then 1 else 0) e,
            ))
      | inr n ↦ rw n (
          omega (
            arith,
            before,
            length-keep_if_append p here (candidates (append_to grp file groups)),
            length-append_to p grp file groups,
          ))
    ]
