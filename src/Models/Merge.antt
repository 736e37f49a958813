-- ===== src/Models/Merge.antt =====
-- Merging METS files: merge of class OcrdMets of src/ocrd_models/ocrd_mets.py without caches.
use ocr_d_core.Common.{
  Bool, false, Option, none, some, List, [], ◌∷◌, Text, nat_eq, list_eq, option_eq,
}
use ocr_d_core.Common.Dict.{Dict, get}
use ocr_d_core.Common.Exec.{ok, err, Exec, ◌>>=◌}
use ocr_d_core.Models.Tree.{Tree, Regex}
use ocr_d_core.Models.Pages.{get_physical_page_for_file}
use ocr_d_core.Models.Find.{OcrdFile, Query, find_files}
use ocr_d_core.Models.Mets.{NewFile, add_file}

-- `mapping.get(key, key)`
abbrev pub mapped : Dict Text Text → Text → Text
mapped mapping key = elim (get key mapping) [ none ↦ key | some value ↦ value ]

abbrev pub mapped_page : Dict Text Text → Option Text → Option Text
mapped_page mapping none = none
mapped_page mapping (some key) = some (mapped mapping key)

-- The arguments of `merge` that change what is added.
pub record Mapping : Type 0 where
  pub file_grps : Dict Text Text
  pub file_ids : Dict Text Text
  pub page_ids : Dict Text Text

-- `url` of a mets:file without one is the empty text.
abbrev pub source_file : Mapping → Tree → OcrdFile → NewFile
source_file mapping other f = record {
  id = mapped mapping.file_ids f.file.id;
  mimetype = f.file.mimetype;
  page_id = mapped_page mapping.page_ids (get_physical_page_for_file f.file.id other);
  url = f.file.url;
  local_filename = f.file.local_filename;
}

-- The loop of `merge`, with its callback.
unfoldable pub merge_files :
    Regex → Mapping → Bool → (OcrdFile → Exec Tree Unit) → Tree → List OcrdFile → Exec Tree Unit
merge_files regex mapping force after_add other [] t = (ok tt, t)
merge_files regex mapping force after_add other (f ∷ files) t =
    let (result, after) =
      (add_file regex (mapped mapping.file_grps f.file_grp) (source_file mapping other f) force
            false
          >>= after_add)
        t in
    let rest = merge_files regex mapping force after_add other files after in
    elim result [ err e ↦ (err e, after) | ok u ↦ rest ]

-- `merge`
unfoldable pub merge :
    Regex → Mapping → Bool → (OcrdFile → Exec Tree Unit) → Query → Tree → Exec Tree Unit
merge regex mapping force after_add query other t = elim (find_files regex query other) [
  | err e ↦ (err e, t)
  | ok files ↦ merge_files regex mapping force after_add other files t
]
