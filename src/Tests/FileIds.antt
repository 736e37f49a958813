-- ===== src/Tests/FileIds.antt =====
-- Texts on which the theorems about src/ocrd_utils/str.py are used.
use ocr_d_core.Common.{starts_with, ◌≡◌, refl, ℕ, true, none, some, codes, arith}
use ocr_d_core.Models.Tree.{is_letter, is_file_id}
use ocr_d_core.Models.Find.{OcrdFile}
use ocr_d_core.Utils.FileId.{make_file_id}
use ocr_d_core.Utils.FileId.Valid.{make_file_id-is_file_id}
use ocr_d_core.Common.Exec.{ok}
use ocr_d_core.Utils.Urls.{get_local_filename, with_slash}
use ocr_d_core.Utils.Urls.Local.{get_local_filename-below}
use ocr_d_core.Tests.Mets.{some_regex}

abbrev image : OcrdFile
image = record {
  file_grp = codes "IN";
  file = record { el = 0; id = codes "IN_1"; mimetype = none; url = none; local_filename = none };
}

letters_are_words : (c : ℕ) → is_letter c ≡ true → some_regex.is_word c ≡ true
letters_are_words c h = ground arith

make_file_id-is_file_id_example :
    is_file_id some_regex (make_file_id some_regex image (some (codes "P:1")) (codes "9,OUT"))
    ≡ true
make_file_id-is_file_id_example =
    make_file_id-is_file_id some_regex image (some (codes "P:1")) (codes "9,OUT") letters_are_words
      refl refl

get_local_filename-below_example :
    get_local_filename (codes "/data/ws/OCR/1.xml") (some (codes "/data/ws"))
    ≡ ok (codes "OCR/1.xml")
unfolding with_slash starts_with
get_local_filename-below_example =
    get_local_filename-below (codes "/data/ws") (codes "OCR/1.xml") refl refl refl refl refl
