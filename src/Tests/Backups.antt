-- ===== src/Tests/Backups.antt =====
-- A workspace with one backup, on which the theorems about src/ocrd/workspace_backup.py are used.
use ocr_d_core.Common.{
  ◌≡◌, refl, ap, sym, ◌∙◌, arith, ℕ, Text, codes, true, some, some_eq, List, [], ◌∷◌, ◌++◌, In, inl,
  inr, last_of, starts_with, nat_eq, true_ne_false,
}
use ocr_d_core.Common.Exec.{ok}
use ocr_d_core.Backup.{Backup, Tools, Store, name_of, undo}
use ocr_d_core.Backup.Kept.{Call, edit, add_call, undo_call, IsSound, run, run-IsSound}
use ocr_d_core.Backup.Undo.{IsUsual, undo-undo}

-- A METS is its text, and its own checksum; a time is one character.
abbrev plain : Tools
plain = record {
  Mets = Text;
  to_xml = λ t. t;
  read = λ t. t;
  sha256 = λ t. t;
  dir_name = λ chksum now. chksum ++ 46 ∷ now ∷ [];
  listing = λ bs. bs;
}

begins_plain : (t : Text) (now : ℕ) → starts_with (t ++ 46 ∷ now ∷ []) t ≡ true
unfolding starts_with
begins_plain [] now = refl
begins_plain (c ∷ t) now = ground (arith, begins_plain t now)

last_of_plain : (t : Text) (now : ℕ) → last_of (t ++ 46 ∷ now ∷ []) ≡ some now
last_of_plain [] now = refl
last_of_plain (c ∷ []) now = refl
last_of_plain (c ∷ d ∷ t) now = last_of_plain (d ∷ t) now

plain_usual : IsUsual plain
plain_usual = record {
  listing_iff = λ b bs. (λ m. m, λ m. m);
  begins = begins_plain;
  dated = λ a b i j h. some_eq (sym (last_of_plain a i) ∙ ap last_of h ∙ last_of_plain b j);
  read_again = λ mets. refl;
}

abbrev saved : Backup
saved = record { chksum = codes "a"; lastmod = 1; xml = codes "a" }

abbrev edited : Store plain
edited = record { mets = codes "bb"; file = codes "bb"; backups = saved ∷ [] }

undo-undo_example :
    (t : Store plain) × (u : Store plain) × (undo plain 2 edited ≡ (ok tt, t))
    × (undo plain 3 t ≡ (ok tt, u))
    × (u.mets ≡ codes "bb")
    × (u.file ≡ codes "bb")
unfolding starts_with
undo-undo_example =
    undo-undo plain plain_usual saved 2 3 edited (inl refl)
      (λ b m. elim m [ inl e ↦ inl e | inr k ↦ absurd k ]) (λ e. absurd cc)
      (λ b m. elim m [ inl e ↦ omega (arith, ap (λ (x : Backup). x.lastmod) e) | inr k ↦ absurd k ])
      (omega arith)
      (λ b m h. elim m [
        | inl e ↦ absurd (
            true_ne_false
              (ap (λ (x : Backup). starts_with (name_of plain x) (codes "bb")) (sym e) ∙ h) refl)
        | inr k ↦ absurd k
      ])

abbrev some_calls : List (Call plain)
some_calls = add_call 2 ∷ edit (codes "c") (codes "c") ∷ undo_call 3 ∷ []

run-IsSound_example :
    In saved (run plain some_calls edited).backups × IsSound plain (run plain some_calls edited)
run-IsSound_example =
    run-IsSound plain some_calls edited
      (λ b m. elim m [
        | inl e ↦ ap (λ (x : Backup). x.chksum) e ∙ sym (ap (λ (x : Backup). x.xml) e)
        | inr k ↦ absurd k
      ])
      saved (inl refl)
