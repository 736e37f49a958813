-- ===== src/Backup/Undo.antt =====
-- To undo an undo.
use ocr_d_core.Common.{
  ℕ, ◌<◌, Bool, true, false, some, some_eq, List, [], ◌∷◌, ◌++◌, Text, if◌then◌else◌, keep_if,
  is_nonempty, starts_with, In, In-append, In-append_right, In_of_keep_if, In-keep_if, ◌==◌, nat_eq,
  list_eq, list_beq_iff, keep_if_none, Bool-cases, ◌≡◌, refl, ap, sym, subst, ◌∙◌, inl, inr, ◌↔◌,
  arith,
}
use ocr_d_core.Common.Exec.{ok, err, file_exists, ◌>>=◌, and_then-ok}
use ocr_d_core.Backup.{
  Backup, Tools, Store, name_of, first_backup, has_chksum, list_backups, make_backup, add,
  copy_backup, restore_from, restore, undo_to, undo,
}
use ocr_d_core.Backup.Newest.{NotLater, first-sort_by}

-- What the backups rely on.
pub record IsUsual (tools : Tools) : Type 0 where
  -- `glob` lists each directory.
  pub listing_iff : (b : Backup) (bs : List Backup) → In b (tools.listing bs) ↔ In b bs
  -- The name of a directory begins with the checksum and has the time in it.
  pub begins : (chksum : Text) (now : ℕ) → starts_with (tools.dir_name chksum now) chksum ≡ true
  pub dated : (a b : Text) (i j : ℕ) → tools.dir_name a i ≡ tools.dir_name b j → i ≡ j
  -- A METS that is written is read again.
  pub read_again : (mets : tools.Mets) → tools.read (tools.to_xml mets) ≡ mets

module _ (tools : Tools) (usual : IsUsual tools) where
  abbrev pub AllBefore : ℕ → List Backup → Type 0
  AllBefore now bs = (b : Backup) → In b bs → b.lastmod < now

  -- The backup of the METS as it is.
  abbrev current : ℕ → Store tools → Backup
  current now s = record {
    chksum = tools.sha256 (tools.to_xml s.mets);
    lastmod = now;
    xml = tools.to_xml s.mets;
  }

  make_backup_runs :
      (b : Backup) (s : Store tools)
      → AllBefore b.lastmod s.backups
      → make_backup tools b s ≡ (ok b.chksum, record s { backups = s.backups ++ b ∷ [] })
  unfolding make_backup
  make_backup_runs b s h =
      let none_there =
        keep_if_none (λ old. name_of tools old == name_of tools b) s.backups
          (λ old m. elim (Bool-cases (name_of tools old == name_of tools b)) [
            | inl t ↦ absurd (
                omega (
                  arith,
                  h old m,
                  usual.dated old.chksum b.chksum old.lastmod b.lastmod
                      ((list_beq_iff (name_of tools old) (name_of tools b)).0 t),
                ))
            | inr f ↦ f
          ]) in
      ap
        (λ l.
          if is_nonempty {A = Backup} l
          then (err file_exists, s)
          else (ok b.chksum, record s { backups = s.backups ++ b ∷ [] }))
        none_there

  -- An addition returns: the backups are as they were, or the current METS is added.
  add_runs :
      (now : ℕ) (s : Store tools)
      → AllBefore now s.backups
      → (kept : Bool) × (has_chksum
            (tools.sha256 (tools.to_xml s.mets))
            (first_backup (list_backups tools s))
          ≡ kept)
        × (add tools now s ≡ (
          ok (tools.sha256 (tools.to_xml s.mets)),
          record s { backups = if kept then s.backups else s.backups ++ current now s ∷ [] },
        ))
  unfolding add
  add_runs now s h =
      elim (Bool-cases
        (has_chksum (tools.sha256 (tools.to_xml s.mets)) (first_backup (list_backups tools s)))) [
          | inl t ↦ (
            true,
            t,
            ap
                (λ k.
                  if k then (ok (current now s).chksum, s) else make_backup tools (current now s) s)
                t,
          )
          | inr f ↦ (
            false,
            f,
            ap
                  (λ k.
                    if k
                    then (ok (current now s).chksum, s)
                    else make_backup tools (current now s) s)
                  f
                ∙ make_backup_runs (current now s) s h,
          )
        ]

  -- What a restoration to the first of the candidates leaves.
  abbrev left : Backup → List Backup → Store tools → Store tools
  left c bs s = record s { mets = tools.read c.xml; file = c.xml; backups = bs }

  copy_runs :
      (c : Backup) (now : ℕ) (s : Store tools) (bs : List Backup)
      → add tools now s ≡ (ok (current now s).chksum, record s { backups = bs })
      → (add tools now >>= copy_backup tools c) s ≡ (ok tt, left c bs s)
  copy_runs c now s bs runs = and_then-ok (add tools now) (copy_backup tools c) s _ _ runs

  restore_from_runs :
      (b : Backup) (cs : List Backup) (now : ℕ) (s : Store tools) (bs : List Backup)
      → In b cs
      → add tools now s ≡ (ok (current now s).chksum, record s { backups = bs })
      → (c : Backup) × In c cs × (restore_from tools cs true now s ≡ (ok tt, left c bs s))
  restore_from_runs b [] now s bs m runs = absurd m
  restore_from_runs b (c ∷ []) now s bs m runs = (c, inl refl, copy_runs c now s bs runs)
  restore_from_runs b (c ∷ d ∷ cs) now s bs m runs = (c, inl refl, copy_runs c now s bs runs)

  restore_runs :
      (b : Backup) (now : ℕ) (s : Store tools) (bs : List Backup)
      → In b s.backups
      → add tools now s ≡ (ok (current now s).chksum, record s { backups = bs })
      → (c : Backup) × In c s.backups
        × (starts_with (name_of tools c) b.chksum ≡ true)
        × (restore tools b.chksum true now s ≡ (ok tt, left c bs s))
  unfolding restore
  restore_runs b now s bs m runs =
      let test = λ (d : Backup). starts_with (name_of tools d) b.chksum in
      let (c, found, returns) =
        restore_from_runs b (keep_if test (tools.listing s.backups)) now s bs
          (In-keep_if test b (tools.listing s.backups) ((usual.listing_iff b s.backups).1 m)
            (usual.begins b.chksum b.lastmod))
          runs in
      let (listed, begins) = In_of_keep_if test c (tools.listing s.backups) found in
      (c, (usual.listing_iff c s.backups).0 listed, begins, returns)

  first-In : (xs : List Backup) (b : Backup) → first_backup xs ≡ some b → In b xs
  first-In [] b h = absurd (ground arith)
  first-In (x ∷ xs) b h = inl (some_eq (sym h))

  undo_runs :
      (b : Backup) (now : ℕ) (s : Store tools) (bs : List Backup)
      → first_backup (list_backups tools s) ≡ some b
      → In b s.backups
      → add tools now s ≡ (ok (current now s).chksum, record s { backups = bs })
      → (c : Backup) × In c s.backups
        × (starts_with (name_of tools c) b.chksum ≡ true)
        × (undo tools now s ≡ (ok tt, left c bs s))
  unfolding undo
  undo_runs b now s bs first m runs =
      let (c, found, begins, returns) = restore_runs b now s bs m runs in
      (c, found, begins, ap (λ o. undo_to tools o now s) first ∙ returns)

  first_is_newest :
      (n : Backup) (s : Store tools)
      → In n s.backups
      → NotLater n s.backups
      → first_backup (list_backups tools s) ≡ some n
  unfolding list_backups
  first_is_newest n s m h =
      first-sort_by n [] (tools.listing s.backups) (λ b k. absurd k)
        (λ b k. h b ((usual.listing_iff b s.backups).0 k)) ((usual.listing_iff n s.backups).1 m)

  added_NotLater :
      (now : ℕ) (s : Store tools)
      → AllBefore now s.backups
      → NotLater (current now s) (s.backups ++ current now s ∷ [])
  added_NotLater now s h b m = elim (In-append b s.backups (current now s ∷ []) m) [
    | inl k ↦ inr (h b k)
    | inr (inl e) ↦ inl e
    | inr (inr k) ↦ absurd k
  ]

  -- The current METS is added when the last backup is of another one.
  add_changed :
      (last : Backup) (now : ℕ) (s : Store tools)
      → first_backup (list_backups tools s) ≡ some last
      → ¬ (last.chksum ≡ tools.sha256 (tools.to_xml s.mets))
      → AllBefore now s.backups
      → add tools now s
        ≡ (ok (current now s).chksum, record s { backups = s.backups ++ current now s ∷ [] })
  add_changed last now s first changed before =
      let (kept, tested, adds) = add_runs now s before in
      let same_chksum = ap (has_chksum (current now s).chksum) (sym first) ∙ tested in
      elim (Bool-cases kept) [
        | inl t ↦
            absurd (changed ((list_beq_iff last.chksum (current now s).chksum).0 (same_chksum ∙ t)))
        | inr f ↦
            adds
            ∙ ap
                (λ k. (
                  ok (current now s).chksum,
                  record s { backups = if k then s.backups else s.backups ++ current now s ∷ [] },
                ))
                f
      ]

  added_before :
      (now later : ℕ) (s : Store tools)
      → AllBefore now s.backups
      → now < later
      → AllBefore later (s.backups ++ current now s ∷ [])
  added_before now later s h l b m = elim (added_NotLater now s h b m) [
    | inl e ↦ subst (λ x. x.lastmod < later) (sym e) l
    | inr k ↦ omega (arith, k, l)
  ]

  -- The METS was changed since the last backup, and the times at which undo is called are later than
  -- all backups. Then undo and undo again return, and the METS is as it was, as long as no other METS
  -- has a backup with the same checksum.
  pub undo-undo :
      (last : Backup) (now later : ℕ) (s : Store tools)
      → In last s.backups
      → NotLater last s.backups
      → ¬ (last.chksum ≡ tools.sha256 (tools.to_xml s.mets))
      → AllBefore now s.backups
      → now < later
      → ((b : Backup)
          → In b s.backups
          → starts_with (name_of tools b) (tools.sha256 (tools.to_xml s.mets)) ≡ true
          → b.xml ≡ tools.to_xml s.mets)
      → (t : Store tools) × (u : Store tools) × (undo tools now s ≡ (ok tt, t))
        × (undo tools later t ≡ (ok tt, u))
        × (u.mets ≡ s.mets)
        × (u.file ≡ tools.to_xml s.mets)
  undo-undo last now later s there newest changed before after free =
      let first = first_is_newest last s there newest in
      let n = current now s in
      let bs = s.backups ++ n ∷ [] in
      let (c, c_there, c_begins, runs) =
        undo_runs last now s bs first there (add_changed last now s first changed before) in
      let t = left c bs s in
      let n_there = In-append_right n s.backups (n ∷ []) (inl refl) in
      let (kept, tested, adds) = add_runs later t (added_before now later s before after) in
      let (d, d_there, d_begins, runs_again) =
        undo_runs n later t (if kept then bs else bs ++ current later t ∷ [])
          (first_is_newest n t n_there (added_NotLater now s before)) n_there adds in
      let same : d.xml ≡ tools.to_xml s.mets = elim (In-append d s.backups (n ∷ []) d_there) [
        | inl k ↦ free d k d_begins
        | inr (inl e) ↦ ap (λ (b : Backup). b.xml) e
        | inr (inr k) ↦ absurd k
      ] in
      (
        t,
        left d (if kept then bs else bs ++ current later t ∷ []) t,
        runs,
        runs_again,
        ap tools.read same ∙ usual.read_again s.mets,
        same,
      )
