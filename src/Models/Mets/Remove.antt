-- ===== src/Models/Mets/Remove.antt =====
-- Removing files: remove_one_file and remove_file of class OcrdMets of
-- src/ocrd_models/ocrd_mets.py.
use ocr_d_core.Common.{
  ◌≡◌, refl, sym, ap, ◌∙◌, Bool, List, [], ◌∷◌, ◌++◌, map, Text, nat_eq, list_eq, option_eq,
  keep_if, keep_if-append, keep_if_nil, Bool-cases, arith, is_some, ℕ, not, nat_beq, inl, inr, In,
  In_of_keep_if, nat_beq_iff,
}
use ocr_d_core.Common.Exec.{ok, Result-cases}
use ocr_d_core.Models.Tree.{File, Group, Tree, groups_of}
use ocr_d_core.Models.Pages.{set_pages, drop_fptr}
use ocr_d_core.Models.Find.{OcrdFile, candidates}
use ocr_d_core.Models.Mets.{find_group, in_files, drop_el, has_el, remove_one_file, remove_each}
use ocr_d_core.Models.Mets.Lookup.{groups_of-set_groups}

keep_if-map :
    {A B : Type 0} (p : B → Bool) (q : A → Bool) (f : A → B) (xs : List A)
    → ((x : A) → p (f x) ≡ q x)
    → keep_if p (map f xs) ≡ map f (keep_if q xs)
unfolding keep_if
keep_if-map p q f [] h = refl
keep_if-map p q f (x ∷ xs) h = ground (arith, h x, keep_if-map p q f xs h)

-- The files after an element is removed.
pub candidates-drop_el :
    (el : ℕ) (groups : List Group)
    → candidates (map (in_files (drop_el el)) groups)
      ≡ keep_if (λ f. not (nat_beq f.file.el el)) (candidates groups)
unfolding candidates
candidates-drop_el el [] = sym (keep_if_nil (λ f. not (nat_beq f.file.el el)))
candidates-drop_el el (group ∷ groups) =
    rw
      (
        keep_if-append (λ f. not (nat_beq f.file.el el))
            (map (λ file. record { file_grp = group.use_name; file = file }) group.files)
            (candidates groups),
        keep_if-map (λ (f : OcrdFile). not (nat_beq f.file.el el))
            (λ file. not (nat_beq file.el el))
            (λ file. record { file_grp = group.use_name; file = file }) group.files (λ x. refl),
      )
      (ap
        (map (λ file. record { file_grp = group.use_name; file = file }) (drop_el el group.files)
          ++◌)
        (candidates-drop_el el groups))

pub remove_one_file-groups :
    (f g : OcrdFile) (t u : Tree)
    → remove_one_file f t ≡ (ok g, u)
    → groups_of u ≡ map (in_files (drop_el f.file.el)) (groups_of t)
unfolding remove_one_file
remove_one_file-groups f g t u h = elim (Bool-cases (has_el f.file.el (groups_of t))) [
  | inl y ↦
      ap (λ r. groups_of r.1) (sym (rw y at h))
      ∙ groups_of-set_groups (map (in_files (drop_el f.file.el)))
          (set_pages (drop_fptr f.file.id) t) refl
  | inr n ↦ absurd (ground arith)
]

find_group-in_files :
    (use_name : Text) (f : List File → List File) (groups : List Group)
    → is_some (find_group use_name (map (in_files f) groups)) ≡ is_some (find_group use_name groups)
unfolding find_group
find_group-in_files u f [] = refl
find_group-in_files u f (group ∷ groups) = ground (arith, find_group-in_files u f groups)

-- The groups and the files after some files are removed.
pub remove_each-find_group :
    (use_name : Text) (files : List OcrdFile) (t u : Tree)
    → remove_each files t ≡ (ok tt, u)
    → is_some (find_group use_name (groups_of u)) ≡ is_some (find_group use_name (groups_of t))
unfolding remove_each
remove_each-find_group grp [] t u h = ap (λ r. is_some (find_group grp (groups_of r.1))) (sym h)
remove_each-find_group grp (f ∷ files) t u h = elim (Result-cases (remove_one_file f t).0) [
  | inl (g, e) ↦
      let after = (remove_one_file f t).1 in
      remove_each-find_group grp files after u (rw (e, remove_each) at h)
      ∙ ap (λ groups. is_some (find_group grp groups))
          (remove_one_file-groups f g t after (ap (λ r. (r, after)) e))
      ∙ find_group-in_files grp (drop_el f.file.el) (groups_of t)
  | inr (x, e) ↦ absurd (ground arith)
]

pub In-remove_each :
    (f : OcrdFile) (files : List OcrdFile) (t u : Tree)
    → remove_each files t ≡ (ok tt, u)
    → In f (candidates (groups_of u))
    → In f (candidates (groups_of t)) × (¬ In f files)
unfolding remove_each
In-remove_each f [] t u h m = (rw (ap (λ r. r.1) h) m, λ x. x)
In-remove_each f (g ∷ files) t u h m = elim (Result-cases (remove_one_file g t).0) [
  | inl (r, e) ↦
      let after = (remove_one_file g t).1 in
      let (before, rest) = In-remove_each f files after u (rw (e, remove_each) at h) m in
      let groups = remove_one_file-groups g r t after (ap (λ x. (x, after)) e) in
      let (there, differs) =
        In_of_keep_if (λ x. not (nat_beq x.file.el g.file.el)) f (candidates (groups_of t))
          (rw (sym (candidates-drop_el g.file.el (groups_of t)), sym groups) before) in
      (
        there,
        λ x. elim x [
          | inl q ↦
              ground (arith, nat_beq_iff f.file.el g.file.el, ap (λ (y : OcrdFile). y.file.el) q)
          | inr y ↦ rest y
        ],
      )
  | inr (x, e) ↦ absurd (ground arith)
]
