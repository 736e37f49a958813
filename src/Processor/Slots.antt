-- ===== src/Processor/Slots.antt =====
-- What zip_input_files of src/ocrd/processor/base.py chooses for one page and one file group.
use ocr_d_core.Common.{
  ◌≡◌, ◌≢◌, refl, sym, ap, ◌∙◌, subst, ℕ, zero, suc, ◌<◌, Bool, false, Option, none, some, List, [],
  ◌∷◌, Text, nat_eq, list_eq, option_eq, if◌then◌else◌, ◌==◌, keep_if, length, replicate, arith,
  inl, inr, Option-cases, Bool-cases, list_beq_iff, beq_refl,
}
use ocr_d_core.Common.Dict.{Dict, get, put, get-put}
use ocr_d_core.Common.Exec.{Result, ok, err, Result-cases}
use ocr_d_core.Models.Find.{OcrdFile}
use ocr_d_core.Processor.Keys.{IsKeyed, put-IsKeyed}
use ocr_d_core.Processor.{OnError, Slots, choose, slot, set_slot, slots_of, add_to_page}

-- The files of one page and one group, one after the other: what is chosen of them, beginning with what
-- was chosen before.
unfoldable pub select : Bool → OnError → Option OcrdFile → List OcrdFile → Result (Option OcrdFile)
select filtered on_error x [] = ok x
select filtered on_error x (f ∷ files) = elim (choose filtered on_error x f) [
  | err e ↦ err e
  | ok y ↦ select filtered on_error y files
]

abbrev pub on_page : (OcrdFile → Option Text) → Text → List OcrdFile → List OcrdFile
on_page page_of page_id files = keep_if (λ f. page_of f == some page_id) files

abbrev pub slot_in : ℕ → Option Slots → Option OcrdFile
slot_in i none = none
slot_in i (some slots) = slot i slots

abbrev pub slot_at : ℕ → Text → Dict Text Slots → Option OcrdFile
slot_at i page_id pages = slot_in i (get page_id pages)

-- Every page has a slot for each group.
unfoldable pub IsWide : ℕ → Dict Text Slots → Type 0
IsWide count pages =
    (page_id : Text) (slots : Slots) → get page_id pages ≡ some slots → length slots ≡ count

slot-replicate : (i count : ℕ) → slot i (replicate count none) ≡ none
unfolding slot
slot-replicate i zero = refl
slot-replicate zero (suc n) = refl
slot-replicate (suc i) (suc n) = slot-replicate i n

length-replicate : {A : Type 0} (n : ℕ) (x : A) → length (replicate n x) ≡ n
length-replicate zero x = refl
length-replicate (suc n) x = ap suc (length-replicate n x)

slot-set_slot :
    (i : ℕ) (x : Option OcrdFile) (slots : Slots)
    → i < length slots
    → slot i (set_slot i x slots) ≡ x
unfolding slot set_slot
slot-set_slot i x [] h = absurd (omega (arith, h))
slot-set_slot zero x (y ∷ slots) h = refl
slot-set_slot (suc i) x (y ∷ slots) h = slot-set_slot i x slots (omega (arith, h))

slot-set_slot_other :
    (i j : ℕ) (x : Option OcrdFile) (slots : Slots)
    → i ≢ j
    → slot j (set_slot i x slots) ≡ slot j slots
unfolding slot set_slot
slot-set_slot_other i j x [] h = refl
slot-set_slot_other zero zero x (y ∷ slots) h = absurd (h refl)
slot-set_slot_other zero (suc j) x (y ∷ slots) h = refl
slot-set_slot_other (suc i) zero x (y ∷ slots) h = refl
slot-set_slot_other (suc i) (suc j) x (y ∷ slots) h =
    slot-set_slot_other i j x slots (λ e. h (ap suc e))

length-set_slot :
    (i : ℕ) (x : Option OcrdFile) (slots : Slots) → length (set_slot i x slots) ≡ length slots
unfolding set_slot
length-set_slot i x [] = refl
length-set_slot zero x (y ∷ slots) = refl
length-set_slot (suc i) x (y ∷ slots) = ap suc (length-set_slot i x slots)

slots_of-slot :
    (count i : ℕ) (page_id : Text) (pages : Dict Text Slots)
    → slot i (slots_of count page_id pages) ≡ slot_at i page_id pages
slots_of-slot count i p pages = elim (Option-cases (get p pages)) [
  | inl n ↦ rw (n, slots_of) (slot-replicate i count)
  | inr (slots, e) ↦ rw (e, slots_of) refl
]

slots_of-length :
    (count : ℕ) (page_id : Text) (pages : Dict Text Slots)
    → IsWide count pages
    → length (slots_of count page_id pages) ≡ count
unfolding IsWide
slots_of-length count p pages w = elim (Option-cases (get p pages)) [
  | inl n ↦ rw (n, slots_of) (length-replicate count none)
  | inr (slots, e) ↦ rw (e, slots_of) (w p slots e)
]

put-IsWide :
    (count : ℕ) (page_id : Text) (slots : Slots) (pages : Dict Text Slots)
    → IsWide count pages
    → length slots ≡ count
    → IsWide count (put page_id slots pages)
unfolding IsWide
put-IsWide count p slots pages w h q found e = elim (Bool-cases (p == q)) [
  | inl y ↦
      let same : slots ≡ found = ground (arith, rw (get-put p q slots pages, y) at e) in
      ap length (sym same) ∙ h
  | inr n ↦ w q found (rw (get-put p q slots pages, n) at e)
]

select-one :
    (filtered : Bool) (on_error : OnError) (x y : Option OcrdFile) (file : OcrdFile)
    → choose filtered on_error x file ≡ ok y
    → select filtered on_error x (file ∷ []) ≡ ok y
unfolding select
select-one filtered on_error x y file e = rw (e, select) refl

module _ (count i : ℕ) where
  slot_at-put :
      (page_id : Text) (x : Option OcrdFile) (pages : Dict Text Slots)
      → IsWide count pages
      → i < count
      → slot_at i page_id (put page_id (set_slot i x (slots_of count page_id pages)) pages) ≡ x
  slot_at-put p x pages w h =
      let slots = set_slot i x (slots_of count p pages) in
      let found : get p (put p slots pages) ≡ some slots =
        get-put p p slots pages ∙ rw (beq_refl p) refl in
      ap (slot_in i) found
      ∙ slot-set_slot i x (slots_of count p pages)
          (omega (arith, h, slots_of-length count p pages w))

  slot_at-put_page :
      (page_id other : Text) (j : ℕ) (slots : Slots) (pages : Dict Text Slots)
      → (page_id == other) ≡ false
      → slot_at j other (put page_id slots pages) ≡ slot_at j other pages
  slot_at-put_page p q j slots pages h =
      let found : get q (put p slots pages) ≡ get q pages = get-put p q slots pages ∙ rw h refl in
      ap (slot_in j) found

  slot_at-put_group :
      (page_id other : Text) (j : ℕ) (x : Option OcrdFile) (pages : Dict Text Slots)
      → i ≢ j
      → slot_at j other (put page_id (set_slot i x (slots_of count page_id pages)) pages)
        ≡ slot_at j other pages
  slot_at-put_group p q j x pages ne = elim (Bool-cases (p == q)) [
    | inr n ↦ slot_at-put_page p q j (set_slot i x (slots_of count p pages)) pages n
    | inl y ↦
        let e = (list_beq_iff p q).0 y in
        let slots = set_slot i x (slots_of count p pages) in
        let found : get q (put p slots pages) ≡ some slots = get-put p q slots pages ∙ rw y refl in
        ap (slot_in j) found
        ∙ slot-set_slot_other i j x (slots_of count p pages) ne
        ∙ slots_of-slot count j p pages
        ∙ ap (λ z. slot_at j z pages) e
  ]

  add_to_page-put :
      (filtered : Bool) (on_error : OnError) (page_id : Text) (file : OcrdFile)
      (pages after : Dict Text Slots)
      → add_to_page filtered on_error count i page_id file pages ≡ ok after
      → (x : Option OcrdFile) × (choose filtered on_error (slot_at i page_id pages) file ≡ ok x)
        × (put page_id (set_slot i x (slots_of count page_id pages)) pages ≡ after)
  unfolding add_to_page
  add_to_page-put filtered on_error p file pages after h =
      elim (Result-cases (choose filtered on_error (slot i (slots_of count p pages)) file)) [
        | inr (x, e) ↦ absurd (ground arith)
        | inl (x, e) ↦ (
          x,
          ap (λ y. choose filtered on_error y file) (sym (slots_of-slot count i p pages)) ∙ e,
          ground (arith, rw (e, add_to_page) at h),
        )
      ]

  pub add_to_page-IsWide :
      (filtered : Bool) (on_error : OnError) (page_id : Text) (file : OcrdFile)
      (pages after : Dict Text Slots)
      → add_to_page filtered on_error count i page_id file pages ≡ ok after
      → IsWide count pages
      → IsWide count after
  add_to_page-IsWide filtered on_error p file pages after h w =
      let (x, e, same) = add_to_page-put filtered on_error p file pages after h in
      let slots = slots_of count p pages in
      subst (IsWide count) same (
        put-IsWide count p (set_slot i x slots) pages w
          (length-set_slot i x slots ∙ slots_of-length count p pages w))

  pub add_to_page-IsKeyed :
      (filtered : Bool) (on_error : OnError) (c : ℕ) (page_id : Text) (file : OcrdFile)
      (pages after : Dict Text Slots)
      → add_to_page filtered on_error count i (c ∷ page_id) file pages ≡ ok after
      → IsKeyed pages
      → IsKeyed after
  add_to_page-IsKeyed filtered on_error c p file pages after h k =
      let (x, e, same) = add_to_page-put filtered on_error (c ∷ p) file pages after h in
      subst IsKeyed same (put-IsKeyed c p (set_slot i x (slots_of count (c ∷ p) pages)) pages k)

  -- One file, and what it does to the slot of a page.
  pub add_to_page-select :
      (filtered : Bool) (on_error : OnError) (page_id other : Text) (file : OcrdFile)
      (pages after : Dict Text Slots)
      → add_to_page filtered on_error count i page_id file pages ≡ ok after
      → IsWide count pages
      → i < count
      → select filtered on_error
          (slot_at i other pages)
          (if page_id == other then file ∷ [] else [])
        ≡ ok (slot_at i other after)
  unfolding select
  add_to_page-select filtered on_error p q file pages after h w less =
      let (x, e, same) = add_to_page-put filtered on_error p file pages after h in
      let slots = set_slot i x (slots_of count p pages) in
      elim (Bool-cases (p == q)) [
        | inr n ↦ rw n (ap ok (sym (slot_at-put_page p q i slots pages n) ∙ ap (slot_at i q) same))
        | inl y ↦
            let r = (list_beq_iff p q).0 y in
            let chosen : choose filtered on_error (slot_at i q pages) file ≡ ok x =
              ap (λ z. choose filtered on_error (slot_at i z pages) file) (sym r) ∙ e in
            let stored : x ≡ slot_at i q after =
              sym (slot_at-put p x pages w less)
              ∙ ap (slot_at i p) same
              ∙ ap (λ z. slot_at i z after) r in
            rw y (select-one filtered on_error (slot_at i q pages) x file chosen ∙ ap ok stored)
      ]

  -- The slots of the other groups stay.
  pub add_to_page-other :
      (filtered : Bool) (on_error : OnError) (page_id other : Text) (j : ℕ) (file : OcrdFile)
      (pages after : Dict Text Slots)
      → add_to_page filtered on_error count i page_id file pages ≡ ok after
      → i ≢ j
      → slot_at j other after ≡ slot_at j other pages
  add_to_page-other filtered on_error p q j file pages after h ne =
      let (x, e, same) = add_to_page-put filtered on_error p file pages after h in
      ap (slot_at j q) (sym same) ∙ slot_at-put_group p q j x pages ne
