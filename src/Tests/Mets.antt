-- ===== src/Tests/Mets.antt =====
-- A METS file with one group, one file and two pages, on which the theorems about
-- src/ocrd_models/ocrd_mets.py are used.
use ocr_d_core.Common.{
  ◌≡◌, refl, ap, true, false, none, some, List, [], ◌∷◌, map, Text, codes, nat_eq, list_eq,
  option_eq, ◌==◌, starts_with, leb, inl, inr, keep_if, contains, not, nat_beq, subst, sym,
  true_ne_false, Distinct, ℕ, if◌then◌else◌,
}
use ocr_d_core.Common.Exec.{ok}
use ocr_d_core.Models.Tree.{
  File, Group, Page, Tree, Regex, groups_of, is_file_id, all_file_id, empty_mets,
}
use ocr_d_core.Models.Pages.{
  get_physical_page_for_file, set_physical_page_for_file, page_with_file, add_fptr, drop_fptr,
  fptr_pages, remove_physical_page_fptr,
}
use ocr_d_core.Models.Find.{
  OcrdFile, candidates, find_files, files_of_pages, file_passes, needle_matches, grp_passes, listed,
  is_result,
}
use ocr_d_core.Models.Mets.{
  NewFile, by_id_and_grp, element_of, add_file, remove_one_file, add_file_group, make_room,
  add_group, find_group, append_to, create_file, has_el, move_fptrs, remove_each, remove_file,
  set_page_id, set_page_ids,
}
use ocr_d_core.Models.Mets.Add.{add_file-find_files}
use ocr_d_core.Models.Mets.Append.{in_group}
use ocr_d_core.Models.Mets.Gone.{remove_one_file-gone}
use ocr_d_core.Models.Mets.Valid.{IsValid}
use ocr_d_core.Models.Mets.Reach.{Step, Reachable, Reachable-IsValid}
use ocr_d_core.Models.Pages.Links.{set_physical_page_for_file-get}
use ocr_d_core.Models.Cache.{fill_caches, cached_results}
use ocr_d_core.Models.Cache.Same.{IsDistinct, cached_results-same}

abbrev pub some_regex : Regex
some_regex = record {
  fullmatch = λ p t. p == t;
  match_start = λ p t. starts_with t p;
  is_word = λ c. leb b'0' c;
}

abbrev image : File
image = record {
  el = 0;
  id = codes "F";
  mimetype = none;
  url = none;
  local_filename = some (codes "f.png");
}

abbrev pub page : Text → List Text → Page
page id fptrs = record {
  page_id = some id;
  order = none;
  orderlabel = none;
  label = none;
  contentids = none;
  fptrs = fptrs;
}

abbrev pub one_file : Tree
one_file = record {
  file_sec = some ((record { use_name = codes "G"; files = image ∷ [] }) ∷ []);
  phys_sequence = some (page (codes "P") (codes "F" ∷ []) ∷ page (codes "Q") [] ∷ []);
  next_el = 1;
}

abbrev new_file : NewFile
new_file = record {
  id = codes "F";
  mimetype = none;
  page_id = some (codes "P");
  url = none;
  local_filename = some (codes "g.png");
}

-- The tree after the file is replaced.
abbrev replaced : Tree
replaced = record {
  file_sec = some ((record { use_name = codes "G"; files = element_of 1 new_file ∷ [] }) ∷ []);
  phys_sequence = some (page (codes "Q") [] ∷ page (codes "P") (codes "F" ∷ []) ∷ []);
  next_el = 2;
}

add_replaces :
    add_file some_regex (codes "G") new_file true false one_file
    ≡ (ok (in_group (codes "G") (element_of 1 new_file)), replaced)
unfolding add_file is_file_id all_file_id add_file_group contains make_room find_files
    files_of_pages keep_if candidates add_group find_group file_passes needle_matches starts_with
    grp_passes listed get_physical_page_for_file append_to create_file has_el move_fptrs remove_each
    remove_file remove_one_file set_page_id set_page_ids add_fptr drop_fptr fptr_pages
    page_with_file remove_physical_page_fptr set_physical_page_for_file
add_replaces = refl

add_file-find_files_example :
    (el : ℕ) × (in_group (codes "G") (element_of 1 new_file)
      ≡ in_group (codes "G") (element_of el new_file))
    × (find_files some_regex (by_id_and_grp (codes "F") (some (codes "G"))) replaced
        ≡ ok (in_group (codes "G") (element_of 1 new_file) ∷ []))
add_file-find_files_example =
    add_file-find_files some_regex (codes "G") new_file true one_file replaced
      (in_group (codes "G") (element_of 1 new_file)) add_replaces

set_physical_page_for_file-get_example :
    get_physical_page_for_file
      (codes "F")
      (set_physical_page_for_file (codes "Q") (codes "F") none (some (codes "1")) one_file)
    ≡ (if codes "F" == codes "F"
        then some (codes "Q")
        else get_physical_page_for_file (codes "F") one_file)
set_physical_page_for_file-get_example =
    set_physical_page_for_file-get (codes "Q") (codes "F") (codes "F") none (some (codes "1"))
      one_file

-- The tree after the file is removed.
abbrev removed : Tree
removed = record {
  file_sec = some ((record { use_name = codes "G"; files = [] }) ∷ []);
  phys_sequence = some (page (codes "Q") [] ∷ []);
  next_el = 1;
}

abbrev found : OcrdFile
found = in_group (codes "G") image

remove_removes : remove_one_file found one_file ≡ (ok found, removed)
unfolding remove_one_file has_el drop_fptr contains keep_if
remove_removes = refl

remove_one_file-gone_example :
    (candidates (groups_of removed)
      ≡ keep_if (λ x. not (nat_beq x.file.el 0)) (candidates (groups_of one_file)))
    × (get_physical_page_for_file (codes "F") removed ≡ (
        if codes "F" == codes "F" then none else get_physical_page_for_file (codes "F") one_file))
remove_one_file-gone_example =
    remove_one_file-gone found found one_file removed (codes "F") remove_removes

-- The METS file after one file is added and another page is set for it.
abbrev changed : Tree
changed =
    set_physical_page_for_file (codes "Q") (codes "F") none none
      (add_file some_regex (codes "G") new_file false false empty_mets).1

changed-Reachable : Reachable some_regex changed
changed-Reachable =
    Reachable.next
      (Reachable.next Reachable.start (Step.adding (codes "G") new_file false empty_mets))
      (Step.linking (codes "Q") (codes "F") none none
        (add_file some_regex (codes "G") new_file false false empty_mets).1)

Reachable-IsValid_example : IsValid changed
Reachable-IsValid_example = Reachable-IsValid some_regex changed changed-Reachable

one_file-IsDistinct : IsDistinct one_file
one_file-IsDistinct = record {
  groups = (λ m. m, tt);
  files = λ group m. elim m [
    | inl e ↦
        subst (λ (g : Group). Distinct (map (λ (file : File). file.id) g.files)) (sym e)
          (λ x. x, tt)
    | inr x ↦ absurd x
  ];
  pages = (
    λ m. elim m [
      | inl e ↦ true_ne_false refl (ap (λ o. o == some (codes "P")) e)
      | inr x ↦ absurd x
    ],
    (λ x. x, tt),
  );
}

cached_results-same_example :
    cached_results some_regex
      (by_id_and_grp (codes "F") (some (codes "G")))
      none
      (fill_caches one_file)
    ≡ keep_if
        (is_result some_regex (by_id_and_grp (codes "F") (some (codes "G"))) none)
        (candidates (groups_of one_file))
unfolding starts_with
cached_results-same_example =
    cached_results-same some_regex (by_id_and_grp (codes "F") (some (codes "G"))) none one_file
      one_file-IsDistinct refl
