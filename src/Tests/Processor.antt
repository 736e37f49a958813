-- ===== src/Tests/Processor.antt =====
-- Two pages with files in two groups, on which the theorems about src/ocrd/processor/base.py
-- are used.
use ocr_d_core.Common.{
  ◌≡◌, refl, true, Option, none, some, List, [], ◌∷◌, Text, codes, nat_eq, list_eq, option_eq, inl,
  last_of, keep_if, contains, starts_with, split_parts,
}
use ocr_d_core.Common.Dict.{get, put}
use ocr_d_core.Common.Exec.{ok}
use ocr_d_core.Models.Tree.{File, Tree}
use ocr_d_core.Models.Pages.{get_physical_page_for_file, page_with_file}
use ocr_d_core.Models.Find.{
  OcrdFile, candidates, find_files, files_of_pages, file_passes, grp_passes, listed, needle_matches,
}
use ocr_d_core.Processor.{
  OnError, zip_input_files, page_mimetype, add_groups, files_of_input, sort_files, add_files,
  sort_onto, insert_file, add_to_page, choose, resolve, set_slot, slot, text_lt,
}
use ocr_d_core.Processor.Slots.{select}
use ocr_d_core.Processor.Zip.{IsTuple, zip_input_files-IsTuple}
use ocr_d_core.Processor.Choice.{odd_last, select-strategies}
use ocr_d_core.Tests.Mets.{page, some_regex}

abbrev file : Text → Option Text → File
file id mimetype = record {
  el = 0;
  id = id;
  mimetype = mimetype;
  url = none;
  local_filename = none;
}

abbrev two_groups : Tree
two_groups = record {
  file_sec = some (
      (record {
        use_name = codes "A";
        files = file (codes "a") (some (codes "image/png")) ∷ file (codes "x") page_mimetype ∷ [];
      })
      ∷ (record { use_name = codes "B"; files = file (codes "b") (some (codes "image/png")) ∷ [] })
      ∷ []);
  phys_sequence =
      some (page (codes "P") (codes "a" ∷ codes "x" ∷ codes "b" ∷ []) ∷ page (codes "Q") [] ∷ []);
  next_el = 3;
}

abbrev of_group : Text → File → OcrdFile
of_group use_name f = record { file_grp = use_name; file = f }

abbrev zipped : List (Option OcrdFile)
zipped =
    some (of_group (codes "A") (file (codes "x") page_mimetype))
    ∷ some (of_group (codes "B") (file (codes "b") (some (codes "image/png"))))
    ∷ []

zips :
    zip_input_files some_regex (codes "A,B") none true none OnError.skip two_groups
    ≡ ok (zipped ∷ [])
unfolding zip_input_files add_groups files_of_input find_files files_of_pages keep_if candidates
    file_passes grp_passes split_parts needle_matches starts_with listed contains sort_files
    add_files sort_onto insert_file get put get_physical_page_for_file page_with_file add_to_page
    choose resolve set_slot slot text_lt
zips = refl

zip_input_files-IsTuple_example :
    IsTuple some_regex (codes "A,B") none true none OnError.skip two_groups zipped
zip_input_files-IsTuple_example =
    zip_input_files-IsTuple some_regex (codes "A,B") none true none OnError.skip two_groups
      (zipped ∷ []) zipped zips (inl refl)

abbrev image_file : OcrdFile
image_file = of_group (codes "A") (file (codes "a") (some (codes "image/png")))

abbrev page_file : OcrdFile
page_file = of_group (codes "A") (file (codes "x") page_mimetype)

select-strategies_example :
    (select true OnError.first none (image_file ∷ page_file ∷ image_file ∷ [])
      ≡ ok (some image_file))
    × (select true OnError.last none (image_file ∷ page_file ∷ image_file ∷ [])
        ≡ ok (last_of (image_file ∷ page_file ∷ image_file ∷ [])))
    × (select true OnError.skip none (image_file ∷ page_file ∷ image_file ∷ [])
        ≡ ok (odd_last (image_file ∷ page_file ∷ image_file ∷ [])))
select-strategies_example = select-strategies image_file (page_file ∷ image_file ∷ [])
