-- ===== src/Processor/Zip.antt =====
-- The result of zip_input_files of src/ocrd/processor/base.py.
use ocr_d_core.Common.{
  ◌≡◌, refl, sym, ap, ◌∙◌, subst, ℕ, suc, ◌+◌, ◌<◌, ◌≤◌, Bool, true, not, ◌||◌, Option, none, List,
  [], ◌∷◌, ◌++◌, Text, nat_eq, list_eq, option_eq, keep_if, length, arith, inl, inr, Bool-cases,
  split, is_some, is_nonempty, In, In_of_keep_if,
}
use ocr_d_core.Common.Dict.{Dict, get, values}
use ocr_d_core.Common.Exec.{ok, Result-cases, ok_eq, err_ne_ok}
use ocr_d_core.Models.Tree.{Tree, Regex}
use ocr_d_core.Models.Pages.{get_physical_page_for_file}
use ocr_d_core.Models.Find.{OcrdFile}
use ocr_d_core.Processor.{
  OnError, Slots, slot, add_files, add_groups, files_of_input, is_given, zip_input_files,
}
use ocr_d_core.Processor.Keys.{IsKeyed, get_of_values}
use ocr_d_core.Processor.Slots.{select, on_page, slot_in, slot_at, IsWide}
use ocr_d_core.Processor.Tuples.{Filled, add_files-Filled}

nil_ne_split : {A : Type 0} (before later : List A) (x : A) → [] ≡ before ++ x ∷ later → ⊥
nil_ne_split [] later x h = cc
nil_ne_split (y ∷ before) later x h = cc

head_eq : {A : Type 0} {x y : A} {xs ys : List A} → x ∷ xs ≡ y ∷ ys → x ≡ y
head_eq h = ground arith

tail_eq : {A : Type 0} {x y : A} {xs ys : List A} → x ∷ xs ≡ y ∷ ys → xs ≡ ys
tail_eq h = ground arith

module _ (regex : Regex) (page_id mimetype : Option Text) (on_error : OnError) (t : Tree)
    (count : ℕ) where
  abbrev page_of : OcrdFile → Option Text
  page_of f = get_physical_page_for_file f.file.id t

  -- The slot `k` of each page is what is chosen of the files of a group.
  record Chosen (file_grp : Text) (k : ℕ) (pages after : Dict Text Slots) : Type 0 where
    files : List OcrdFile
    found : files_of_input regex page_id mimetype on_error file_grp t ≡ ok files
    chosen :
        (c : ℕ) (p : Text)
        → select
            (is_given mimetype)
            on_error
            (slot_at k (c ∷ p) pages)
            (on_page page_of (c ∷ p) files)
          ≡ ok (slot_at k (c ∷ p) after)

  -- What the groups from the index `i` on do to the pages.
  record Zipped (file_grps : List Text) (i : ℕ) (pages after : Dict Text Slots) : Type 0 where
    wide : IsWide count after
    keyed : IsKeyed after
    earlier : (j : ℕ) (p : Text) → j < i → slot_at j p after ≡ slot_at j p pages
    each :
        (before later : List Text) (file_grp : Text) (k : ℕ)
        → file_grps ≡ before ++ file_grp ∷ later
        → k ≡ i + length before
        → Chosen file_grp k pages after

  Zipped-each :
      (file_grp : Text) (file_grps : List Text) (i : ℕ) (files : List OcrdFile)
      (pages between after : Dict Text Slots)
      → files_of_input regex page_id mimetype on_error file_grp t ≡ ok files
      → Filled (is_given mimetype) on_error count i page_of files pages between
      → Zipped file_grps (suc i) between after
      → (before later : List Text) (g : Text) (k : ℕ) → file_grp ∷ file_grps ≡ before ++ g ∷ later
      → k ≡ i + length before
      → Chosen g k pages after
  Zipped-each grp grps i files pages between after e f z [] later g k q n =
      let here : Chosen g i pages after = record {
        files = files;
        found = ap (λ x. files_of_input regex page_id mimetype on_error x t) (sym (head_eq q)) ∙ e;
        chosen = λ c p. f.chosen c p ∙ ap ok (sym (z.earlier i (c ∷ p) (omega arith)));
      } in
      subst (λ j. Chosen g j pages after) (omega (arith, n)) here
  Zipped-each grp grps i files pages between after e f z (b ∷ rest) later g k q n =
      let later_one = z.each rest later g k (tail_eq q) (omega (arith, n)) in
      record {
        files = later_one.files;
        found = later_one.found;
        chosen = λ c p.
            ap
              (λ x. select (is_given mimetype) on_error x (on_page page_of (c ∷ p) later_one.files))
              (sym (f.others k (c ∷ p) (λ m. omega (arith, n, m))))
            ∙ later_one.chosen c p;
      }

  Zipped-cons :
      (file_grp : Text) (file_grps : List Text) (i : ℕ) (files : List OcrdFile)
      (pages between after : Dict Text Slots)
      → files_of_input regex page_id mimetype on_error file_grp t ≡ ok files
      → Filled (is_given mimetype) on_error count i page_of files pages between
      → Zipped file_grps (suc i) between after
      → Zipped (file_grp ∷ file_grps) i pages after
  Zipped-cons grp grps i files pages between after e f z = record {
    wide = z.wide;
    keyed = z.keyed;
    earlier = λ j p h. z.earlier j p (omega (arith, h)) ∙ f.others j p (λ q. omega (arith, q, h));
    each = Zipped-each grp grps i files pages between after e f z;
  }

  add_groups-Zipped :
      (file_grps : List Text) (i : ℕ) (pages after : Dict Text Slots)
      → add_groups regex page_id mimetype on_error t count i file_grps pages ≡ ok after
      → IsWide count pages
      → IsKeyed pages
      → i + length file_grps ≤ count
      → Zipped file_grps i pages after
  unfolding add_groups
  add_groups-Zipped [] i pages after h w k less =
      let e : pages ≡ after = ground arith in
      subst (Zipped [] i pages) e (record {
        wide = w;
        keyed = k;
        earlier = λ j p x. refl;
        each = λ before later g n q m. absurd (nil_ne_split before later g q);
      })
  add_groups-Zipped (grp ∷ grps) i pages after h w k less =
      elim (Result-cases (files_of_input regex page_id mimetype on_error grp t)) [
        | inr (x, e) ↦ absurd (err_ne_ok (rw (e, add_groups) at h))
        | inl (files, e) ↦
            elim (Result-cases
              (add_files (is_given mimetype) on_error count i page_of files pages)) [
                | inr (x, y) ↦ absurd (err_ne_ok (rw (e, y, add_groups) at h))
                | inl (between, y) ↦
                    let f =
                      add_files-Filled (is_given mimetype) on_error count i page_of files pages
                        between y w k (omega (arith, less)) in
                    Zipped-cons grp grps i files pages between after e f (
                      add_groups-Zipped grps (suc i) between after (rw (e, y, add_groups) at h)
                        f.wide f.keyed (omega (arith, less)))
              ]
      ]

empty-IsWide : (count : ℕ) → IsWide count []
unfolding IsWide get
empty-IsWide count p slots e = absurd (ground arith)

empty-IsKeyed : IsKeyed {V = Slots} []
unfolding IsKeyed
empty-IsKeyed = (tt, λ k m. absurd m)

-- What one tuple of the result is: the files that are chosen for one page, one for each group, of the
-- sorted files that `find_files` finds in the group for that page; the first one is there if it is
-- required.
pub record IsTuple (regex : Regex) (input_file_grp : Text) (page_id : Option Text)
    (require_first : Bool) (mimetype : Option Text) (on_error : OnError) (t : Tree) (slots : Slots)
    : Type 0 where
  pub width : length slots ≡ length (split b',' input_file_grp)
  pub required : (is_some (slot 0 slots) || not require_first) ≡ true
  pub page : Text
  pub each :
      (before later : List Text) (file_grp : Text)
      → split b',' input_file_grp ≡ before ++ file_grp ∷ later
      → (files : List OcrdFile) × (files_of_input regex page_id mimetype on_error file_grp t
          ≡ ok files)
        × (select
              (is_given mimetype)
              on_error
              none
              (on_page (λ f. get_physical_page_for_file f.file.id t) page files)
            ≡ ok (slot (length before) slots))

nonempty-cons : (t : Text) → is_nonempty t ≡ true → (c : ℕ) × (p : Text) × (t ≡ c ∷ p)
nonempty-cons [] h = cc
nonempty-cons (c ∷ p) h = (c, p, refl)

Zipped-IsTuple :
    (regex : Regex) (input_file_grp : Text) (page_id : Option Text) (require_first : Bool)
    (mimetype : Option Text) (on_error : OnError) (t : Tree) (slots : Slots)
    (pages : Dict Text Slots)
    → Zipped regex page_id mimetype on_error t
        (length (split b',' input_file_grp))
        (split b',' input_file_grp)
        0
        []
        pages
    → (is_some (slot 0 slots) || not require_first) ≡ true
    → In slots (values pages)
    → IsTuple regex input_file_grp page_id require_first mimetype on_error t slots
unfolding IsWide IsKeyed get
Zipped-IsTuple regex grp page_id require mimetype on_error t slots pages z needed m =
    let (page, there, found) = get_of_values slots pages z.keyed.0 m in
    let (c, p, named) = nonempty-cons page (z.keyed.1 page there) in
    record {
      width = z.wide page slots found;
      required = needed;
      page = page;
      each = λ before later g q.
          let x = z.each before later g (length before) q (omega arith) in
          (
            x.files,
            x.found,
            subst
                (λ y.
                  select (is_given mimetype) on_error none
                    (on_page (λ f. get_physical_page_for_file f.file.id t) y x.files)
                  ≡ ok (slot (length before) slots))
                (sym named)
                (x.chosen c p
                  ∙ ap ok (
                      ap (λ y. slot_at (length before) y pages) (sym named)
                      ∙ ap (slot_in (length before)) found)),
          );
    }

-- Every tuple that `zip_input_files` returns has one member for each input file group. All members are
-- files of one page: the member for a group is what is chosen of the files of that page in the
-- group alone, one after the other in the sorted order, whatever the other pages and groups have. With
-- `require_first`, the first member is not None.
pub zip_input_files-IsTuple :
    (regex : Regex) (input_file_grp : Text) (page_id : Option Text) (require_first : Bool)
    (mimetype : Option Text) (on_error : OnError) (t : Tree) (tuples : List Slots) (slots : Slots)
    → zip_input_files regex input_file_grp page_id require_first mimetype on_error t ≡ ok tuples
    → In slots tuples
    → IsTuple regex input_file_grp page_id require_first mimetype on_error t slots
unfolding zip_input_files
zip_input_files-IsTuple regex grp page_id require mimetype on_error t tuples slots h m =
    elim (Bool-cases (is_nonempty grp)) [
      | inr n ↦ absurd (err_ne_ok (rw (n, zip_input_files) at h))
      | inl y ↦
          let grps = split b',' grp in
          let count = length grps in
          elim (Result-cases (add_groups regex page_id mimetype on_error t count 0 grps [])) [
            | inr (x, e) ↦ absurd (err_ne_ok (rw (y, e, zip_input_files) at h))
            | inl (pages, e) ↦
                let z =
                  add_groups-Zipped regex page_id mimetype on_error t count grps 0 [] pages e
                    (empty-IsWide count) empty-IsKeyed (omega arith) in
                let test : Slots → Bool = λ s. is_some (slot 0 s) || not require in
                let all : keep_if test (values pages) ≡ tuples =
                  ok_eq (rw (y, e, zip_input_files) at h) in
                let (there, needed) =
                  In_of_keep_if test slots (values pages) (subst (In slots) (sym all) m) in
                Zipped-IsTuple regex grp page_id require mimetype on_error t slots pages z needed
                  there
          ]
    ]
