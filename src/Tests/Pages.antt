-- ===== src/Tests/Pages.antt =====
-- The theorems on locked pages, on page ranges and on the state of a workflow, at concrete inputs.
use ocr_d_core.Common.{
  ◌≡◌, refl, inl, inr, ◌↔◌, ◌⊎◌, true, false, some, List, [], ◌∷◌, ◌++◌, map, In, codes, list_eq,
  nat_eq, range_from, length, ◌+◌, ◌-◌, contains,
}
use ocr_d_core.Common.Exec.{ok}
use ocr_d_core.Common.Dict.{get}
use ocr_d_core.Network.Jobs.{JobState, page_id_eq, all_pages}
use ocr_d_core.Network.LockedPages.{
  LockedPages, requested, lock_pages, unlock_pages, overlaps, check_groups,
  check_if_locked_pages_for_output_file_grps as check,
}
use ocr_d_core.Network.LockedPages.View.{pages_of, Clash, lock_pages-In}
use ocr_d_core.Network.LockedPages.Check.{check_iff-Clash, check-all_pages}
use ocr_d_core.Network.LockedPages.Unlock.{unlock_pages-lock_pages}
use ocr_d_core.Utils.Strings.{generate_range, zfill, to_decimal, to_int}
use ocr_d_core.Utils.Strings.Range.{generate_range_lem}
use ocr_d_core.Network.Server.Workflow.Status.{
  SomeJob, IsBroken, produce_workflow_status_simple_response as status,
  produce_workflow_status_simple_response_lem,
}
use ocr_d_core.Network.Database.{ProcessorJob}
use ocr_d_core.Tests.Data.{path, group_a, page_1, page_2, job, request_1, request_2}

abbrev held : LockedPages
held = (path, (group_a, page_2 ∷ []) ∷ []) ∷ []

lock_pages-In_example :
    In page_1 (pages_of path group_a (lock_pages path (group_a ∷ []) (page_1 ∷ []) held)) ↔ (
      In page_1 (pages_of path group_a held)
      ⊎ ((path ≡ path) × In group_a (group_a ∷ []) × In page_1 (requested (page_1 ∷ []))))
lock_pages-In_example = lock_pages-In page_1 path path group_a (group_a ∷ []) (page_1 ∷ []) held

check_iff-Clash_example :
    (check path (group_a ∷ []) (page_2 ∷ []) held ≡ true)
    ↔ Clash path (group_a ∷ []) (page_2 ∷ []) held
check_iff-Clash_example = check_iff-Clash path (group_a ∷ []) (page_2 ∷ []) held

all_pages-free : check path (group_a ∷ []) [] held ≡ false
unfolding check check_groups get overlaps contains
all_pages-free = refl

proper : ¬ In all_pages (page_1 ∷ [])
proper (inl e) = cc
proper (inr z) = z

check-all_pages_example :
    check path (group_a ∷ []) [] (lock_pages path (group_a ∷ []) (page_1 ∷ []) held) ≡ false
check-all_pages_example =
    check-all_pages path (group_a ∷ []) (group_a ∷ []) (page_1 ∷ []) held all_pages-free refl proper

page_1-free : check path (group_a ∷ []) (page_1 ∷ []) held ≡ false
unfolding check check_groups get overlaps contains
page_1-free = refl

unlock_pages-lock_pages_example :
    ((unlock_pages path
        (group_a ∷ [])
        (page_1 ∷ [])
        (lock_pages path (group_a ∷ []) (page_1 ∷ []) held)).0
      ≡ ok tt)
    × (pages_of path group_a
          (unlock_pages path
            (group_a ∷ [])
            (page_1 ∷ [])
            (lock_pages path (group_a ∷ []) (page_1 ∷ []) held)).1
        ≡ pages_of path group_a held)
unlock_pages-lock_pages_example =
    unlock_pages-lock_pages path path group_a (group_a ∷ []) (page_1 ∷ []) held refl page_1-free

generate_range_lem_example :
    generate_range (codes "p_" ++ codes "08") (codes "p_" ++ codes "10")
    ≡ some (
        map
          (λ i. codes "p_" ++ zfill (length (codes "08")) (to_decimal i))
          (range_from (to_int (codes "08")) (to_int (codes "10") + 1 - to_int (codes "08"))))
generate_range_lem_example =
    generate_range_lem (codes "p_") (codes "08") (codes "10") (refl, (refl, tt)) (refl, (refl, tt))
      (refl, (refl, tt)) refl refl

abbrev jobs : List ProcessorJob
jobs = job request_1 JobState.running ∷ job request_2 JobState.failed ∷ []

produce_workflow_status_simple_response_example :
    ((status jobs ≡ JobState.success)
      ↔ ((j : ProcessorJob) → In j jobs → j.state ≡ JobState.success))
    × ((status jobs ≡ JobState.failed) ↔ SomeJob IsBroken jobs)
    × ((status jobs ≡ JobState.running)
        ↔ (SomeJob (λ state. state ≡ JobState.running) jobs × ¬ SomeJob IsBroken jobs))
    × ((status jobs ≡ JobState.success)
        ⊎ (status jobs ≡ JobState.failed)
        ⊎ (status jobs ≡ JobState.running)
        ⊎ (status jobs ≡ JobState.unset))
produce_workflow_status_simple_response_example = produce_workflow_status_simple_response_lem jobs
