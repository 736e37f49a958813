-- ===== src/Tasks/Groups.antt =====
-- The file groups of a valid sequence of tasks: validate_tasks.
use ocr_d_core.Common.{
  ◌≡◌, refl, ap, subst, ◌∙◌, ◌⊎◌, inl, inr, false, Bool, List, [], ◌∷◌, ◌++◌, arith, In, Text,
  list_eq, nat_eq, In_of_contains, contains_of_In, In-append, In-append_left, Option-cases,
  if◌then◌else◌,
}
use mathlib.Core.List.{append_assoc}
use ocr_d_core.Common.Exec.{ok, Result-cases}
use ocr_d_core.Tasks.{
  ProcessorTask, Mets, Tools, GroupError, not_in_mets, not_produced, missing_inputs,
  existing_outputs, check_file_grp, validate, validate_rest, if_valid, validate_tasks,
}

-- The output file groups of some tasks.
abbrev pub outputs_of : List ProcessorTask → List Text
outputs_of [] = []
outputs_of (task ∷ tasks) = task.output_file_grps ++ outputs_of tasks

append-nil_inv : (xs ys : List GroupError) → xs ++ ys ≡ [] → (xs ≡ []) × (ys ≡ [])
append-nil_inv [] ys e = (refl, e)
append-nil_inv (x ∷ xs) ys e = absurd (ground arith)

pub missing_inputs-In :
    (error : Text → GroupError) (known inputs : List Text) (g : Text)
    → missing_inputs error known inputs ≡ []
    → In g inputs
    → In g known
unfolding missing_inputs
missing_inputs-In error known [] g e m = absurd m
missing_inputs-In error known (h ∷ inputs) g e m =
    ground (arith, missing_inputs-In error known inputs g, In_of_contains h known)

existing_outputs-In :
    (mets : Mets) (outputs : List Text) (g : Text)
    → existing_outputs mets [] outputs ≡ []
    → In g outputs
    → ¬ In g mets.file_groups
unfolding existing_outputs
existing_outputs-In mets [] g e m n = m
existing_outputs-In mets (h ∷ outputs) g e m n =
    ground (arith, existing_outputs-In mets outputs g, contains_of_In h mets.file_groups)

if_valid-inv : (errors : List GroupError) → if_valid (ok errors) ≡ ok tt → errors ≡ []
if_valid-inv [] h = refl
if_valid-inv (x ∷ errors) h = absurd (ground arith)

module _ (tools : Tools) (mets : Mets) (pages : List Text) (overwrite : Bool) where
  pub validate_rest-inv :
      (prev : List Text) (task : ProcessorTask) (tasks : List ProcessorTask)
      → validate_rest tools mets pages overwrite prev (task ∷ tasks) ≡ ok []
      → (missing_inputs not_produced prev task.input_file_grps ≡ [])
        × (overwrite ≡ false → existing_outputs mets pages task.output_file_grps ≡ [])
        × (validate_rest tools mets pages overwrite (prev ++ task.output_file_grps) tasks ≡ ok [])
  unfolding validate_rest check_file_grp missing_inputs
  validate_rest-inv prev task tasks h = elim (Option-cases (validate tools task)) [
    | inr (e, v) ↦ absurd (ground arith)
    | inl v ↦
        elim (Result-cases
          (validate_rest tools mets pages overwrite (prev ++ task.output_file_grps) tasks)) [
            | inr (e, r) ↦ absurd (ground arith)
            | inl (errors, r) ↦
                let missing = missing_inputs not_produced prev task.input_file_grps in
                let outputs : List GroupError =
                  if overwrite then [] else existing_outputs mets pages task.output_file_grps in
                let all : ok (missing ++ (outputs ++ errors)) ≡ ok [] = ground arith in
                let (a, b) = append-nil_inv missing (outputs ++ errors) (ground arith) in
                let (c, d) = append-nil_inv outputs errors b in (a, λ o. ground arith, r ∙ ap ok d)
          ]
  ]

  validate_rest-In :
      (prev : List Text) (before after : List ProcessorTask) (task : ProcessorTask) (g : Text)
      → validate_rest tools mets pages overwrite prev (before ++ task ∷ after) ≡ ok []
      → In g task.input_file_grps
      → In g (prev ++ outputs_of before)
  validate_rest-In prev [] after task g h m =
      let (a, b, c) = validate_rest-inv prev task after h in
      In-append_left g prev [] (missing_inputs-In not_produced prev task.input_file_grps g a m)
  validate_rest-In prev (first ∷ before) after task g h m =
      let (a, b, c) = validate_rest-inv prev first (before ++ task ∷ after) h in
      subst (In g) (append_assoc prev first.output_file_grps (outputs_of before))
        (validate_rest-In (prev ++ first.output_file_grps) before after task g c m)

  validate_rest-free :
      (prev : List Text) (before after : List ProcessorTask) (task : ProcessorTask)
      → validate_rest tools mets pages overwrite prev (before ++ task ∷ after) ≡ ok []
      → overwrite ≡ false
      → existing_outputs mets pages task.output_file_grps ≡ []
  validate_rest-free prev [] after task h o = (validate_rest-inv prev task after h).1 o
  validate_rest-free prev (first ∷ before) after task h o =
      validate_rest-free (prev ++ first.output_file_grps) before after task
        (validate_rest-inv prev first (before ++ task ∷ after) h).2 o

  pub validate_tasks-inv :
      (first : ProcessorTask) (tasks : List ProcessorTask)
      → validate_tasks tools mets (first ∷ tasks) pages overwrite ≡ ok tt
      → (missing_inputs not_in_mets mets.file_groups first.input_file_grps ≡ [])
        × (overwrite ≡ false → existing_outputs mets pages first.output_file_grps ≡ [])
        × (validate_rest tools mets pages overwrite
              (mets.file_groups ++ first.output_file_grps)
              tasks
            ≡ ok [])
  unfolding validate_tasks check_file_grp
  validate_tasks-inv first tasks h = elim (Option-cases (validate tools first)) [
    | inr (e, v) ↦ absurd (ground arith)
    | inl v ↦
        elim (Result-cases (
          validate_rest tools mets pages overwrite (mets.file_groups ++ first.output_file_grps)
            tasks)) [
              | inr (e, r) ↦ absurd (ground arith)
              | inl (errors, r) ↦
                  let missing = missing_inputs not_in_mets mets.file_groups first.input_file_grps in
                  let outputs =
                    existing_outputs mets pages
                      (if overwrite then [] else first.output_file_grps) in
                  let (ab, d) = append-nil_inv (missing ++ outputs) errors (
                    if_valid-inv ((missing ++ outputs) ++ errors)
                      (rw (v, r, validate_tasks) at h)) in
                  let (a, b) = append-nil_inv missing outputs ab in (a, λ o. rw o at b, r ∙ ap ok d)
            ]
  ]

-- In a sequence of tasks that is valid, whatever the page ids, every task reads only file groups of
-- the METS file and file groups that tasks before it write. Without `overwrite` and page ids, no
-- task writes a file group that the METS file has.
pub validate_tasks-groups :
    (tools : Tools) (mets : Mets) (pages : List Text) (overwrite : Bool)
    (before after : List ProcessorTask) (task : ProcessorTask) (g : Text)
    → validate_tasks tools mets (before ++ task ∷ after) pages overwrite ≡ ok tt
    → (In g task.input_file_grps → In g mets.file_groups ⊎ In g (outputs_of before))
      × (overwrite ≡ false → pages ≡ [] → In g task.output_file_grps → ¬ In g mets.file_groups)
validate_tasks-groups tools mets pages overwrite [] after task g h =
    let (a, b, c) = validate_tasks-inv tools mets pages overwrite task after h in
    (
      λ m. inl (missing_inputs-In not_in_mets mets.file_groups task.input_file_grps g a m),
      λ o e. existing_outputs-In mets task.output_file_grps g (rw e at (b o)),
    )
validate_tasks-groups tools mets pages overwrite (first ∷ before) after task g h =
    let (a, b, c) =
      validate_tasks-inv tools mets pages overwrite first (before ++ task ∷ after) h in
    let known = mets.file_groups ++ first.output_file_grps in
    (
      λ m. In-append g mets.file_groups (outputs_of (first ∷ before)) (
          subst (In g) (append_assoc mets.file_groups first.output_file_grps (outputs_of before))
            (validate_rest-In tools mets pages overwrite known before after task g c m)),
      λ o e.
          existing_outputs-In mets task.output_file_grps g
            (rw e at (validate_rest-free tools mets pages overwrite known before after task c o)),
    )
