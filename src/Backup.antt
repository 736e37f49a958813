-- ===== src/Backup.antt =====
-- The backups of the METS file of a workspace: class WorkspaceBackupManager of
-- src/ocrd/workspace_backup.py.
mod Newest
pub mod Kept
pub mod Undo
use ocr_d_core.Common.{
  ℕ, Bool, true, false, ◌&&◌, not, Option, none, some, List, [], ◌∷◌, ◌++◌, Text, if◌then◌else◌,
  ltb, ◌==◌, nat_eq, list_eq, keep_if, is_nonempty, starts_with, ◌≡◌,
}
use ocr_d_core.Common.Exec.{Exec, ok, err, file_exists, failure, ◌>>=◌, and_then}
use ocr_d_core.Common.Sort.{sort_by}

-- A directory of a backup. The checksum and the time are the two parts of its name.
pub record Backup : Type 0 where
  pub chksum : Text
  pub lastmod : ℕ
  pub xml : Text

-- The METS model, hashlib, and the file system.
pub record Tools : Type 1 where
  pub Mets : Type 0
  pub to_xml : Mets → Text
  -- the METS of a file
  pub read : Text → Mets
  pub sha256 : Text → Text
  -- the name of a directory, of a checksum and a time
  pub dir_name : Text → ℕ → Text
  -- the order in which `glob` lists directories
  pub listing : List Backup → List Backup

abbrev pub first_backup : List Backup → Option Backup
first_backup [] = none
first_backup (b ∷ bs) = some b

abbrev pub has_chksum : Text → Option Backup → Bool
has_chksum chksum none = false
has_chksum chksum (some b) = b.chksum == chksum

module _ (tools : Tools) where
  -- The workspace: the METS in memory, the METS file, and the backup directory.
  pub record Store : Type 0 where
    pub mets : tools.Mets
    pub file : Text
    pub backups : List Backup

  abbrev pub name_of : Backup → Text
  name_of b = tools.dir_name b.chksum b.lastmod

  -- `list`, sorted descending by lastmod
  unfoldable pub list_backups : Store → List Backup
  list_backups s = sort_by (λ a b. ltb b.lastmod a.lastmod) [] (tools.listing s.backups)

  -- `makedirs` of a directory that is there raises FileExistsError.
  unfoldable pub make_backup : Backup → Exec Store Text
  make_backup b s =
      if is_nonempty (keep_if (λ old. name_of old == name_of b) s.backups)
      then (err file_exists, s)
      else (ok b.chksum, record s { backups = s.backups ++ b ∷ [] })

  unfoldable pub add : ℕ → Exec Store Text
  add now s =
      let xml = tools.to_xml s.mets in
      let chksum = tools.sha256 xml in
      if has_chksum chksum (first_backup (list_backups s))
      then (ok chksum, s)
      else make_backup (record { chksum = chksum; lastmod = now; xml = xml }) s

  -- `copy` and `reload_mets`
  abbrev pub copy_backup : Backup → Text → Exec Store Unit
  copy_backup b chksum s = (ok tt, record s { mets = tools.read b.xml; file = b.xml })

  abbrev pub restore_from : List Backup → (choose_first : Bool) → ℕ → Exec Store Unit
  restore_from [] choose_first now s = (ok tt, s)
  restore_from (b ∷ bs) choose_first now s =
      if is_nonempty bs && not choose_first then (err failure, s) else (add now >>= copy_backup b) s

  -- `restore`, for a checksum without the special characters of `glob`
  unfoldable pub restore : Text → (choose_first : Bool) → ℕ → Exec Store Unit
  restore chksum choose_first now s =
      restore_from (keep_if (λ b. starts_with (name_of b) chksum) (tools.listing s.backups))
        choose_first now s

  abbrev pub undo_to : Option Backup → ℕ → Exec Store Unit
  undo_to none now s = (ok tt, s)
  undo_to (some b) now s = restore b.chksum true now s

  unfoldable pub undo : ℕ → Exec Store Unit
  undo now s = undo_to (first_backup (list_backups s)) now s
