-- ===== src/Tests/PageFiles.antt =====
-- A page and its file, on which the theorems about the selection of pages in
-- src/ocrd_models/ocrd_mets.py are used.
use ocr_d_core.Common.{
  ◌≡◌, refl, codes, contains, starts_with, split_once, keep_if, nat_eq, list_eq,
}
use ocr_d_core.Models.Tree.{pages_of}
use ocr_d_core.Models.Select.Literal.{has_value}
use ocr_d_core.Models.Find.{find_files}
use ocr_d_core.Models.Find.OnPage.{on_page, files_of_first, find_files-page}
use ocr_d_core.Tests.Mets.{some_regex, one_file}

find_files-page_example :
    find_files some_regex (on_page (codes "P")) one_file
    ≡ files_of_first one_file (keep_if (has_value (codes "P")) (pages_of one_file))
unfolding contains starts_with split_once
find_files-page_example = find_files-page some_regex (codes "P") one_file refl refl refl refl
