-- ===== src/Backup/Kept.antt =====
-- What the operations on backups keep, whatever they return.
use ocr_d_core.Common.{
  ℕ, Bool, true, ◌&&◌, not, Option, none, some, List, [], ◌∷◌, Text, if_either, keep_if,
  is_nonempty, In, In-append, In-append_left, ◌==◌, nat_eq, list_eq, ◌≡◌, refl, inl, inr, subst,
  sym,
}
use ocr_d_core.Common.Exec.{Result, ok, err, and_then}
use ocr_d_core.Backup.{
  Backup, Tools, Store, name_of, first_backup, has_chksum, list_backups, make_backup, add,
  copy_backup, restore_from, restore, undo_to, undo,
}

module _ (tools : Tools) where
  -- Every backup is named by the checksum of what it holds.
  abbrev pub IsSound : Store tools → Type 0
  IsSound s = (b : Backup) → In b s.backups → b.chksum ≡ tools.sha256 b.xml

  -- No backup is lost, and all stay sound.
  abbrev pub IsKept : Store tools → Store tools → Type 0
  IsKept s t = ((b : Backup) → In b s.backups → In b t.backups) × (IsSound s → IsSound t)

  IsKept-refl : (s : Store tools) → IsKept s s
  IsKept-refl s = (λ b m. m, λ h. h)

  IsKept-trans : (s t u : Store tools) → IsKept s t → IsKept t u → IsKept s u
  IsKept-trans s t u p q = (λ b m. q.0 b (p.0 b m), λ h. q.1 (p.1 h))

  make_backup-IsKept :
      (s : Store tools) (now : ℕ) (xml : Text)
      → IsKept s
          (make_backup tools (record { chksum = tools.sha256 xml; lastmod = now; xml = xml }) s).1
  unfolding make_backup
  make_backup-IsKept s now xml =
      let new : Backup = record { chksum = tools.sha256 xml; lastmod = now; xml = xml } in
      if_either (λ (r : Result Text × Store tools). IsKept s r.1)
        (is_nonempty (keep_if (λ old. name_of tools old == name_of tools new) s.backups)) _ _
        (λ t. IsKept-refl s)
        (λ f. (
          λ b m. In-append_left b s.backups (new ∷ []) m,
          λ h b m. elim (In-append b s.backups (new ∷ []) m) [
            | inl k ↦ h b k
            | inr (inl e) ↦ subst (λ z. z.chksum ≡ tools.sha256 z.xml) (sym e) refl
            | inr (inr k) ↦ absurd k
          ],
        ))

  add-IsKept : (now : ℕ) (s : Store tools) → IsKept s (add tools now s).1
  unfolding add
  add-IsKept now s =
      if_either (λ (r : Result Text × Store tools). IsKept s r.1)
        (has_chksum (tools.sha256 (tools.to_xml s.mets)) (first_backup (list_backups tools s))) _ _
        (λ t. IsKept-refl s) (λ f. make_backup-IsKept s now (tools.to_xml s.mets))

  copy_backup-IsKept :
      (b : Backup) (s : Store tools) (result : Result Text) (t : Store tools)
      → IsKept s t
      → IsKept s (and_then result (copy_backup tools b) t).1
  copy_backup-IsKept b s (ok c) t p = p
  copy_backup-IsKept b s (err x) t p = p

  restore_from-IsKept :
      (candidates : List Backup) (choose_first : Bool) (now : ℕ) (s : Store tools)
      → IsKept s (restore_from tools candidates choose_first now s).1
  restore_from-IsKept [] choose_first now s = IsKept-refl s
  restore_from-IsKept (b ∷ bs) choose_first now s =
      if_either (λ (r : Result Unit × Store tools). IsKept s r.1)
        (is_nonempty bs && not choose_first) _ _ (λ t. IsKept-refl s)
        (λ f. copy_backup-IsKept b s (add tools now s).0 (add tools now s).1 (add-IsKept now s))

  restore-IsKept :
      (chksum : Text) (choose_first : Bool) (now : ℕ) (s : Store tools)
      → IsKept s (restore tools chksum choose_first now s).1
  unfolding restore
  restore-IsKept chksum choose_first now s = restore_from-IsKept _ choose_first now s

  undo-IsKept : (now : ℕ) (s : Store tools) → IsKept s (undo tools now s).1
  unfolding undo
  undo-IsKept now s = undo_to-IsKept (first_backup (list_backups tools s))
    where
      undo_to-IsKept : (b : Option Backup) → IsKept s (undo_to tools b now s).1
      undo_to-IsKept none = IsKept-refl s
      undo_to-IsKept (some b) = restore-IsKept b.chksum true now s

-- The calls of the backup manager, and changes of the METS between them.
pub data Call (tools : Tools) : Type 0 where
  edit : tools.Mets → Text → Call tools
  add_call : (now : ℕ) → Call tools
  restore_call : (chksum : Text) (choose_first : Bool) (now : ℕ) → Call tools
  undo_call : (now : ℕ) → Call tools

module _ (tools : Tools) where
  -- The state after a call, also after one that raises an exception.
  abbrev pub called : Call tools → Store tools → Store tools
  called (edit mets file) s = record s { mets = mets; file = file }
  called (add_call now) s = (add tools now s).1
  called (restore_call chksum choose_first now) s = (restore tools chksum choose_first now s).1
  called (undo_call now) s = (undo tools now s).1

  abbrev pub run : List (Call tools) → Store tools → Store tools
  run [] s = s
  run (c ∷ calls) s = run calls (called c s)

  called-IsKept : (c : Call tools) (s : Store tools) → IsKept tools s (called c s)
  called-IsKept (edit mets file) s = IsKept-refl tools s
  called-IsKept (add_call now) s = add-IsKept tools now s
  called-IsKept (restore_call chksum choose_first now) s =
      restore-IsKept tools chksum choose_first now s
  called-IsKept (undo_call now) s = undo-IsKept tools now s

  run-IsKept : (calls : List (Call tools)) (s : Store tools) → IsKept tools s (run calls s)
  run-IsKept [] s = IsKept-refl tools s
  run-IsKept (c ∷ calls) s =
      IsKept-trans tools s (called c s) (run calls (called c s)) (called-IsKept c s)
        (run-IsKept calls (called c s))

  -- If every backup has the checksum of what it holds, then, whatever is called and however the METS
  -- is changed in between, and also after calls that raise an exception, each backup is still there as
  -- it was, and every backup has the checksum of what it holds.
  pub run-IsSound :
      (calls : List (Call tools)) (s : Store tools)
      → IsSound tools s
      → (b : Backup) → In b s.backups
      → In b (run calls s).backups × IsSound tools (run calls s)
  run-IsSound calls s sound b m = ((run-IsKept calls s).0 b m, (run-IsKept calls s).1 sound)
