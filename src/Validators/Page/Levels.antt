-- ===== src/Validators/Page/Levels.antt =====
-- What is reported at each level of consistency.
use ocr_d_core.Common.{
  Bool, true, false, ◌&&◌, ◌||◌, not, List, [], ◌∷◌, ◌++◌, map, Text, is_nonempty, if_either, ◌≡◌,
  refl, arith,
}
use ocr_d_core.Common.Exec.{ok}
use ocr_d_core.Validators.Elements.{Geometry, Element, Groups}
use ocr_d_core.Validators.Texts.{Characters, concatenate, compare_without_whitespace}
use ocr_d_core.Validators.Checks.{
  Consistency, strict, lax, fix, off, Context, Checked, Error, text_error, outside, invalid, Loop,
  differs, is_off, text_of, check_text, report_text,
}
use ocr_d_core.Validators.Checks.Repeat.{at_level}
use ocr_d_core.Validators.Checks.Report.{IsKept}
use ocr_d_core.Validators.Page.{validate_page}
use ocr_d_core.Validators.Page.Errors.{validate_page-Holds}

abbrev is_text_error : Error → Bool
is_text_error (text_error tag id actual expected) = true
is_text_error (outside tag id) = false
is_text_error (invalid tag id reason) = false

-- Whether a report has a ConsistencyError.
abbrev pub has_text_error : List Error → Bool
has_text_error [] = false
has_text_error (e ∷ es) = is_text_error e || has_text_error es

has_text_error-append :
    (xs ys : List Error)
    → has_text_error xs ≡ false
    → has_text_error ys ≡ false
    → has_text_error (xs ++ ys) ≡ false
has_text_error-append [] ys p q = q
has_text_error-append (x ∷ xs) ys p q = ground (arith, has_text_error-append xs ys)

-- Consistent exactly when nothing is reported.
abbrev Exact : Bool → List Error → Type 0
Exact b xs = b ≡ not (is_nonempty xs)

-- Nothing is reported of what is consistent.
abbrev Silent : Bool → List Error → Type 0
Silent b xs = b ≡ true → xs ≡ []

Exact-both : (b d : Bool) (xs ys : List Error) → Exact b xs → Exact d ys → Exact (d && b) (xs ++ ys)
Exact-both b d [] [] p q = ground arith
Exact-both b d [] (y ∷ ys) p q = ground arith
Exact-both b d (x ∷ xs) ys p q = ground arith

Exact-added : (xs : List Error) (x : Error) → Exact false (xs ++ x ∷ [])
Exact-added [] x = refl
Exact-added (y ∷ xs) x = refl

Silent-both :
    (b d : Bool) (xs ys : List Error) → Silent b xs → Silent d ys → Silent (d && b) (xs ++ ys)
Silent-both true true xs ys p q h = rw (p refl, q refl) refl
Silent-both true false xs ys p q h = cc
Silent-both false d xs ys p q h = ground arith

module _ (g : Geometry) (chars : Characters) where
  -- The check of a text reports the text or leaves the state.
  pub check_text_either :
      (P : Loop g → Type 0) (level : Consistency) (c : Context) (separator : Text)
      (children : List (Element g)) (s : Loop g)
      → ((concatenated actual : Text)
          → P (report_text g chars (at_level level c) concatenated actual s))
      → P s
      → P (check_text g chars (at_level level c) separator children s)
  unfolding check_text
  check_text_either P level c separator children s p q =
      if_either P (is_off level) _ _ (λ t. q)
        (λ f.
          if_either P
            (differs
              (concatenate chars c.joins separator
                (map (λ e. (e.id, text_of g chars c e)) children))
              (text_of g chars c s.element))
            _ s (λ t. p _ _) (λ f. q))

  strict-IsKept : IsKept g chars strict Exact
  unfolding report_text
  strict-IsKept = record {
    at_start = refl;
    both = Exact-both;
    at_outside = λ b xs tag id h. Exact-added xs (outside tag id);
    at_invalid = λ b xs tag id reason h. Exact-added xs (invalid tag id reason);
    at_text = λ c separator children s h.
        check_text_either (λ l. Exact l.consistent l.errors) strict c separator children s
          (λ concatenated actual. Exact-added s.errors _) h;
  }

  fix-IsKept : IsKept g chars fix (λ b xs. has_text_error xs ≡ false)
  unfolding report_text
  fix-IsKept = record {
    at_start = refl;
    both = λ b d xs ys p q. has_text_error-append xs ys p q;
    at_outside = λ b xs tag id h. has_text_error-append xs (outside tag id ∷ []) h refl;
    at_invalid =
        λ b xs tag id reason h. has_text_error-append xs (invalid tag id reason ∷ []) h refl;
    at_text = λ c separator children s h.
        check_text_either (λ l. has_text_error l.errors ≡ false) fix c separator children s
          (λ concatenated actual. h) h;
  }

  report_text-Silent :
      (level : Consistency) (c : Context) (concatenated actual : Text) (s : Loop g)
      → Silent s.consistent s.errors
      → Silent
          (report_text g chars (at_level level c) concatenated actual s).consistent
          (report_text g chars (at_level level c) concatenated actual s).errors
  unfolding report_text
  report_text-Silent strict c concatenated actual s h e = cc
  report_text-Silent fix c concatenated actual s h e = cc
  report_text-Silent lax c concatenated actual s h e =
      if_either (λ (l : Loop g). Silent l.consistent l.errors)
        (compare_without_whitespace chars concatenated actual) _ _ (λ t k. cc) (λ f k. cc) e
  report_text-Silent off c concatenated actual s h e = h e

  any-IsKept : (level : Consistency) → IsKept g chars level Silent
  any-IsKept level = record {
    at_start = λ h. refl;
    both = Silent-both;
    at_outside = λ b xs tag id h e. cc;
    at_invalid = λ b xs tag id reason h e. cc;
    at_text = λ c separator children s h.
        check_text_either (λ l. Silent l.consistent l.errors) level c separator children s
          (λ concatenated actual. report_text-Silent level c concatenated actual s h) h;
  }

  module _ (c : Context) (e : Element g) (gs : Groups g) (r : Checked g) where
    -- A strict validation of a page that returns says that the page is consistent exactly when it
    -- has added nothing to the report.
    pub validate_page-strict :
        validate_page g chars (at_level strict c) e gs ≡ ok r
        → r.consistent ≡ not (is_nonempty r.errors)
    validate_page-strict h = validate_page-Holds g chars strict Exact strict-IsKept c e gs r h

    pub validate_page-fix :
        validate_page g chars (at_level fix c) e gs ≡ ok r → has_text_error r.errors ≡ false
    validate_page-fix h =
        validate_page-Holds g chars fix (λ b xs. has_text_error xs ≡ false) fix-IsKept c e gs r h

    -- At every level of consistency, a page that is called consistent has nothing in the report.
    validate_page-silent :
        (level : Consistency)
        → validate_page g chars (at_level level c) e gs ≡ ok r
        → r.consistent ≡ true
        → r.errors ≡ []
    validate_page-silent level h =
        validate_page-Holds g chars level Silent (any-IsKept level) c e gs r h
