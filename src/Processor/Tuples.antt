-- ===== src/Processor/Tuples.antt =====
-- The tuples of zip_input_files of src/ocrd/processor/base.py: what all files and groups do to one
-- slot.
use ocr_d_core.Common.{
  ◌≡◌, ◌≢◌, refl, ◌∙◌, subst, ℕ, ◌<◌, Bool, false, Option, none, some, List, [], ◌∷◌, ◌++◌, Text,
  nat_eq, list_eq, option_eq, ◌==◌, keep_if, arith, inl, inr, ◌⊎◌, Bool-cases,
}
use ocr_d_core.Common.Dict.{Dict}
use ocr_d_core.Common.Exec.{ok, Result-cases, err_ne_ok}
use ocr_d_core.Models.Find.{OcrdFile}
use ocr_d_core.Processor.{OnError, Slots, choose, add_to_page, add_files}
use ocr_d_core.Processor.Keys.{IsKeyed}
use ocr_d_core.Processor.Slots.{
  select, on_page, slot_at, IsWide, add_to_page-IsWide, add_to_page-IsKeyed, add_to_page-select,
  add_to_page-other,
}

select-append :
    (filtered : Bool) (on_error : OnError) (x y : Option OcrdFile) (files later : List OcrdFile)
    → select filtered on_error x files ≡ ok y
    → select filtered on_error x (files ++ later) ≡ select filtered on_error y later
unfolding select
select-append filtered on_error x y [] later h = ground (arith, h)
select-append filtered on_error x y (f ∷ files) later h =
    elim (Result-cases (choose filtered on_error x f)) [
      | inl (z, e) ↦
          rw (e, select) (select-append filtered on_error z y files later (rw (e, select) at h))
      | inr (z, e) ↦ absurd (ground arith)
    ]

page-cases :
    (o : Option Text) → ((o ≡ none) ⊎ (o ≡ some [])) ⊎ ((d : ℕ) × (q : Text) × (o ≡ some (d ∷ q)))
page-cases none = inl (inl refl)
page-cases (some []) = inl (inr refl)
page-cases (some (d ∷ q)) = inr (d, q, refl)

module _ (filtered : Bool) (on_error : OnError) (count i : ℕ)
    (page_of : OcrdFile → Option Text) where
  -- What the files of one group do to the pages.
  pub record Filled (files : List OcrdFile) (pages after : Dict Text Slots) : Type 0 where
    pub wide : IsWide count after
    pub keyed : IsKeyed after
    pub chosen :
        (c : ℕ) (page_id : Text)
        → select filtered on_error
            (slot_at i (c ∷ page_id) pages)
            (on_page page_of (c ∷ page_id) files)
          ≡ ok (slot_at i (c ∷ page_id) after)
    pub others :
        (j : ℕ) (page_id : Text) → i ≢ j → slot_at j page_id after ≡ slot_at j page_id pages

  -- A file without a page.
  Filled-pass :
      (file : OcrdFile) (files : List OcrdFile) (pages after : Dict Text Slots)
      → ((c : ℕ) (page_id : Text) → (page_of file == some (c ∷ page_id)) ≡ false)
      → Filled files pages after
      → Filled (file ∷ files) pages after
  unfolding keep_if
  Filled-pass file files pages after h f = record {
    wide = f.wide;
    keyed = f.keyed;
    chosen = λ c p. rw (h c p) (f.chosen c p);
    others = f.others;
  }

  Filled-add :
      (d : ℕ) (page_id : Text) (file : OcrdFile) (files : List OcrdFile)
      (pages between after : Dict Text Slots)
      → page_of file ≡ some (d ∷ page_id)
      → add_to_page filtered on_error count i (d ∷ page_id) file pages ≡ ok between
      → IsWide count pages
      → i < count
      → Filled files between after
      → Filled (file ∷ files) pages after
  unfolding keep_if
  Filled-add d q file files pages between after e h w less f = record {
    wide = f.wide;
    keyed = f.keyed;
    chosen = λ c p.
        let step =
          add_to_page-select count i filtered on_error (d ∷ q) (c ∷ p) file pages between h w
            less in
        elim (Bool-cases ((d ∷ q) == (c ∷ p))) [
          | inl y ↦
              rw (e, y)
                (select-append filtered on_error (slot_at i (c ∷ p) pages)
                    (slot_at i (c ∷ p) between) (file ∷ []) (on_page page_of (c ∷ p) files)
                    (rw y at step)
                  ∙ f.chosen c p)
          | inr n ↦
              rw (e, n)
                (select-append filtered on_error (slot_at i (c ∷ p) pages)
                    (slot_at i (c ∷ p) between) [] (on_page page_of (c ∷ p) files) (rw n at step)
                  ∙ f.chosen c p)
        ];
    others = λ j p ne.
        f.others j p ne
        ∙ add_to_page-other count i filtered on_error (d ∷ q) p j file pages between h ne;
  }

  pub add_files-Filled :
      (files : List OcrdFile) (pages after : Dict Text Slots)
      → add_files filtered on_error count i page_of files pages ≡ ok after
      → IsWide count pages
      → IsKeyed pages
      → i < count
      → Filled files pages after
  unfolding add_files select keep_if
  add_files-Filled [] pages after h w k less =
      let e : pages ≡ after = ground arith in
      subst (Filled [] pages) e
        (record { wide = w; keyed = k; chosen = λ c p. refl; others = λ j p ne. refl })
  add_files-Filled (file ∷ files) pages after h w k less = elim (page-cases (page_of file)) [
    | inl (inl e) ↦
        Filled-pass file files pages after (λ c p. rw e refl)
          (add_files-Filled files pages after (rw (e, add_files) at h) w k less)
    | inl (inr e) ↦
        Filled-pass file files pages after (λ c p. rw e refl)
          (add_files-Filled files pages after (rw (e, add_files) at h) w k less)
    | inr (d, q, e) ↦
        elim (Result-cases (add_to_page filtered on_error count i (d ∷ q) file pages)) [
          | inr (x, y) ↦ absurd (err_ne_ok (rw (e, y, add_files) at h))
          | inl (between, y) ↦ Filled-add d q file files pages between after e y w less (
              add_files-Filled files between after (rw (e, y, add_files) at h)
                (add_to_page-IsWide count i filtered on_error (d ∷ q) file pages between y w)
                (add_to_page-IsKeyed count i filtered on_error d q file pages between y k) less)
        ]
  ]
