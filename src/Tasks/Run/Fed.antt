-- ===== src/Tasks/Run/Fed.antt =====
-- The file groups that the processors of run_tasks find: src/ocrd/task_sequence.py.
use ocr_d_core.Common.{
  ◌≡◌, ap, subst, ◌⊎◌, inl, inr, true, ◌&&◌, and_true, Bool-cases, List, [], ◌∷◌, ◌++◌, Text, arith,
  In, In-append, In_of_contains, contains, list_eq, nat_eq,
}
use ocr_d_core.Common.Exec.{ok, err, failure, Result-cases, err_ne_ok}
use ocr_d_core.Utils.Params.{Reader}
use ocr_d_core.Tasks.{
  ProcessorTask, Tools, not_in_mets, not_produced, validate_tasks, validate_rest,
}
use ocr_d_core.Tasks.Groups.{outputs_of, missing_inputs-In, validate_rest-inv, validate_tasks-inv}
use ocr_d_core.Tasks.Run.{
  System, command_line, Settings, cli_of, page_list, is_zero, all_in, parse_all, run_cli, run_each,
  run_tasks,
}

all_in-In :
    (outputs known : List Text) (g : Text) → all_in outputs known ≡ true → In g outputs → In g known
unfolding all_in
all_in-In [] known g h m = absurd m
all_in-In (x ∷ outputs) known g h m =
    let (a, b) = and_true (contains x known) (all_in outputs known) h in
    ground (arith, all_in-In outputs known g b, In_of_contains x known a)

module _ {S : Type 0} (system : System S) (r : Reader) (c : Settings) where
  abbrev pub groups : S → List Text
  groups s = (system.mets s).file_groups

  -- The workspace after a task.
  abbrev pub after_task : ProcessorTask → S → S
  after_task task s = (run_cli system (cli_of r c task) s).1

  -- Each task finds its input file groups in the METS file when it starts.
  unfoldable pub IsFed : List ProcessorTask → S → Type 0
  IsFed [] s = Unit
  IsFed (task ∷ tasks) s =
      ((g : Text) → In g task.input_file_grps → In g (groups s)) × IsFed tasks (after_task task s)

  -- Processors that remove no file group.
  abbrev pub KeepsGroups : Type 0
  KeepsGroups =
      (args : List Text) (s : S) (g : Text) → In g (groups s) → In g (groups (system.run args s).1)

  run_each-inv :
      (task : ProcessorTask) (tasks : List ProcessorTask) (s u : S)
      → run_each system r c (task ∷ tasks) s ≡ (ok tt, u)
      → (all_in task.output_file_grps (groups (after_task task s)) ≡ true)
        × (run_each system r c tasks (after_task task s) ≡ (ok tt, u))
  unfolding run_each
  run_each-inv task tasks s u h =
      let (returncode, after) = run_cli system (cli_of r c task) s in
      let written = all_in task.output_file_grps (groups after) in
      elim (Bool-cases (is_zero returncode && written)) [
        | inl y ↦ ((and_true (is_zero returncode) written y).1, rw (y, run_each) at h)
        | inr n ↦
            let failed : (err failure, after) ≡ (ok tt, u) = rw (n, run_each) at h in
            absurd (err_ne_ok (ap (λ p. p.0) failed))
      ]

  module _ (k : KeepsGroups) where
    -- File groups stay, and those that tasks write are added.
    run_each-groups :
        (tasks : List ProcessorTask) (s u : S) (g : Text)
        → run_each system r c tasks s ≡ (ok tt, u)
        → In g (groups s) ⊎ In g (outputs_of tasks)
        → In g (groups u)
    unfolding run_each
    run_each-groups [] s u g h (inl m) = subst (λ v. In g (groups v)) (ap (λ p. p.1) h) m
    run_each-groups [] s u g h (inr m) = absurd m
    run_each-groups (task ∷ tasks) s u g h m =
        let (written, next) = run_each-inv task tasks s u h in
        let after = after_task task s in
        run_each-groups tasks after u g next (elim m [
          | inl old ↦ inl (k (command_line system.directory (cli_of r c task)) s g old)
          | inr new ↦ elim (In-append g task.output_file_grps (outputs_of tasks) new) [
            | inl own ↦ inl (all_in-In task.output_file_grps (groups after) g written own)
            | inr later ↦ inr later
          ]
        ])

    validate_rest-IsFed :
        (tools : Tools) (prev : List Text) (tasks : List ProcessorTask) (s t u : S)
        → validate_rest tools (system.mets t) (page_list c.page_id) c.overwrite prev tasks ≡ ok []
        → ((g : Text) → In g prev → In g (groups s))
        → run_each system r c tasks s ≡ (ok tt, u)
        → IsFed tasks s
    unfolding IsFed
    validate_rest-IsFed tools prev [] s t u v known h = tt
    validate_rest-IsFed tools prev (task ∷ tasks) s t u v known h =
        let (missing, free, later) =
          validate_rest-inv tools (system.mets t) (page_list c.page_id) c.overwrite prev task tasks
            v in
        let (written, next) = run_each-inv task tasks s u h in
        let after = after_task task s in
        (
          λ g m. known g (missing_inputs-In not_produced prev task.input_file_grps g missing m),
          validate_rest-IsFed tools (prev ++ task.output_file_grps) tasks after t u later
              (λ g m. elim (In-append g prev task.output_file_grps m) [
                | inl old ↦ k (command_line system.directory (cli_of r c task)) s g (known g old)
                | inr own ↦ all_in-In task.output_file_grps (groups after) g written own
              ])
              next,
        )

    validate_tasks-IsFed :
        (tools : Tools) (tasks : List ProcessorTask) (s u : S)
        → validate_tasks tools (system.mets s) tasks (page_list c.page_id) c.overwrite ≡ ok tt
        → run_each system r c tasks s ≡ (ok tt, u)
        → IsFed tasks s
    unfolding IsFed
    validate_tasks-IsFed tools [] s u v h = tt
    validate_tasks-IsFed tools (task ∷ tasks) s u v h =
        let (missing, free, later) =
          validate_tasks-inv tools (system.mets s) (page_list c.page_id) c.overwrite task tasks v in
        let (written, next) = run_each-inv task tasks s u h in
        let after = after_task task s in
        (
          λ g m. missing_inputs-In not_in_mets (groups s) task.input_file_grps g missing m,
          validate_rest-IsFed tools (groups s ++ task.output_file_grps) tasks after s u later
              (λ g m. elim (In-append g (groups s) task.output_file_grps m) [
                | inl old ↦ k (command_line system.directory (cli_of r c task)) s g old
                | inr own ↦ all_in-In task.output_file_grps (groups after) g written own
              ])
              next,
        )

    -- If all tasks have been run, and no processor removes a file group, then each task found its
    -- input file groups in the METS file when it started, and in the end the METS file has the file
    -- groups that it had before and all output file groups.
    pub run_tasks-IsFed :
        (tools : Tools) (task_strs : List Text) (s u : S)
        → run_tasks system r tools c task_strs s ≡ (ok tt, u)
        → (tasks : List ProcessorTask) × (parse_all r task_strs ≡ ok tasks)
          × IsFed tasks s
          × ((g : Text) → In g (groups s) ⊎ In g (outputs_of tasks) → In g (groups u))
    unfolding run_tasks
    run_tasks-IsFed tools task_strs s u h = elim (Result-cases (parse_all r task_strs)) [
      | inr (e, parsed) ↦
          let failed : (err e, s) ≡ (ok tt, u) = rw (parsed, run_tasks) at h in
          absurd (err_ne_ok (ap (λ p. p.0) failed))
      | inl (tasks, parsed) ↦
          elim (Result-cases
            (validate_tasks tools (system.mets s) tasks (page_list c.page_id) c.overwrite)) [
              | inr (e, v) ↦
                  let failed : (err e, s) ≡ (ok tt, u) = rw (parsed, v, run_tasks) at h in
                  absurd (err_ne_ok (ap (λ p. p.0) failed))
              | inl (t, v) ↦
                  let ran : run_each system r c tasks s ≡ (ok tt, u) =
                    rw (parsed, v, run_tasks) at h in
                  (
                    tasks,
                    parsed,
                    validate_tasks-IsFed tools tasks s u v ran,
                    λ g m. run_each-groups tasks s u g ran m,
                  )
            ]
    ]
