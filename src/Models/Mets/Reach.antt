-- ===== src/Models/Mets/Reach.antt =====
-- What can happen to the METS file that METS_XML_EMPTY gives: calls of methods of class OcrdMets of
-- src/ocrd_models/ocrd_mets.py, one after the other, each with an exception or without.
use ocr_d_core.Common.{Bool, false, Option, Text, arith, keep_if, list_eq, nat_eq, option_eq}
use ocr_d_core.Models.Tree.{Tree, Regex, empty_mets}
use ocr_d_core.Models.Pages.{
  set_physical_page_for_file, remove_physical_page, remove_physical_page_fptr,
}
use ocr_d_core.Models.Find.{OcrdFile, Query, candidates, fptrs_of}
use ocr_d_core.Models.Mets.{
  NewFile, add_file_group, remove_one_file, remove_file, add_file, remove_file_group,
}
use ocr_d_core.Models.Mets.Fewer.{
  remove_one_file-Fewer, remove_file-Fewer, remove_physical_page-Fewer,
  remove_physical_page_fptr-Fewer,
}
use ocr_d_core.Models.Mets.RemoveGroup.{remove_file_group-Fewer}
use ocr_d_core.Models.Mets.Valid.{IsValid, Fewer-IsValid, set_physical_page_for_file-IsValid}
use ocr_d_core.Models.Mets.Steps.{add_file-IsValid, add_file_group-Fewer}

-- One call of a method, and the METS file after it.
pub data Step (regex : Regex) : Tree → Tree → Type 0 where
  adding_group : (use_name : Text) (t : Tree) → Step regex t (add_file_group use_name t).1
  adding :
      (use_name : Text) (new : NewFile) (force : Bool) (t : Tree)
      → Step regex t (add_file regex use_name new force false t).1
  removing_one : (f : OcrdFile) (t : Tree) → Step regex t (remove_one_file f t).1
  removing : (query : Query) (t : Tree) → Step regex t (remove_file regex query t).1
  removing_group :
      (use_name : Text) (recursive force : Bool) (t : Tree)
      → Step regex t (remove_file_group regex use_name recursive force t).1
  linking :
      (page_id file_id : Text) (order orderlabel : Option Text) (t : Tree)
      → Step regex t (set_physical_page_for_file page_id file_id order orderlabel t)
  unlinking : (file_id : Text) (t : Tree) → Step regex t (remove_physical_page_fptr file_id t).1
  removing_page : (page_id : Text) (t : Tree) → Step regex t (remove_physical_page page_id t)

pub data Reachable (regex : Regex) : Tree → Type 0 where
  start : Reachable regex empty_mets
  next : {t u : Tree} → Reachable regex t → Step regex t u → Reachable regex u

empty_mets-IsValid : IsValid empty_mets
unfolding candidates fptrs_of keep_if
empty_mets-IsValid = record { one_file = λ id grp. ground arith; one_link = λ id. ground arith }

Step-IsValid : (regex : Regex) {t u : Tree} → Step regex t u → IsValid t → IsValid u
Step-IsValid regex (adding_group grp t) v = Fewer-IsValid (add_file_group-Fewer grp t) v
Step-IsValid regex (adding grp new force t) v = add_file-IsValid regex grp new force t v
Step-IsValid regex (removing_one f t) v = Fewer-IsValid (remove_one_file-Fewer f t) v
Step-IsValid regex (removing query t) v = Fewer-IsValid (remove_file-Fewer regex query t) v
Step-IsValid regex (removing_group grp recursive force t) v =
    Fewer-IsValid (remove_file_group-Fewer regex grp recursive force t) v
Step-IsValid regex (linking p f o l t) v = set_physical_page_for_file-IsValid p f o l t v
Step-IsValid regex (unlinking f t) v = Fewer-IsValid (remove_physical_page_fptr-Fewer f t) v
Step-IsValid regex (removing_page p t) v = Fewer-IsValid (remove_physical_page-Fewer p t) v

-- However the groups, files and pages of an empty METS file are changed by `add_file_group`, `add_file`
-- without `ignore`, `remove_one_file`, `remove_file`, `remove_file_group`, `set_physical_page_for_file`,
-- `remove_physical_page_fptr` and `remove_physical_page`, also where these raise exceptions, no
-- group has two files of one ID, and no ID is linked to two pages or twice to one.
pub Reachable-IsValid : (regex : Regex) (t : Tree) → Reachable regex t → IsValid t
Reachable-IsValid regex t start = empty_mets-IsValid
Reachable-IsValid regex t (next {t = s} before step) =
    Step-IsValid regex step (Reachable-IsValid regex s before)
