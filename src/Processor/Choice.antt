-- ===== src/Processor/Choice.antt =====
-- The strategies `on_error` of zip_input_files of src/ocrd/processor/base.py.
use ocr_d_core.Common.{
  ◌≡◌, refl, true, Option, none, some, List, [], ◌∷◌, nat_eq, list_eq, option_eq, last_of,
}
use ocr_d_core.Common.Exec.{ok}
use ocr_d_core.Models.Find.{OcrdFile}
use ocr_d_core.Processor.{OnError, choose, resolve}
use ocr_d_core.Processor.Slots.{select}

-- Nothing of an even number of files, and the last one of an odd number.
pub odd_last : List OcrdFile → Option OcrdFile
odd_last [] = none
odd_last (f ∷ []) = some f
odd_last (f ∷ g ∷ files) = odd_last files

select-skip : (files : List OcrdFile) → select true OnError.skip none files ≡ ok (odd_last files)
unfolding select choose resolve odd_last
select-skip [] = refl
select-skip (f ∷ []) = refl
select-skip (f ∷ g ∷ files) = select-skip files

select-first :
    (f : OcrdFile) (files : List OcrdFile) → select true OnError.first (some f) files ≡ ok (some f)
unfolding select choose resolve
select-first f [] = refl
select-first f (g ∷ files) = select-first f files

select-last :
    (f : OcrdFile) (files : List OcrdFile)
    → select true OnError.last (some f) files ≡ ok (last_of (f ∷ files))
unfolding select choose resolve
select-last f [] = refl
select-last f (g ∷ files) = select-last g files

-- Where a MIME type is asked for, `first` chooses the first file of a page and a group and `last` the
-- last one. `skip` chooses none of an even number of files, but the last one of an odd number.
pub select-strategies :
    (f : OcrdFile) (files : List OcrdFile)
    → (select true OnError.first none (f ∷ files) ≡ ok (some f))
      × (select true OnError.last none (f ∷ files) ≡ ok (last_of (f ∷ files)))
      × (select true OnError.skip none (f ∷ files) ≡ ok (odd_last (f ∷ files)))
unfolding select choose
select-strategies f files = (select-first f files, select-last f files, select-skip (f ∷ files))
