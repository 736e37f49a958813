-- ===== src/Validators/Checks/Report.antt =====
-- What the checks of an element keep of `consistent` and of the report.
use ocr_d_core.Common.{
  Bool, true, false, ◌&&◌, ◌||◌, not, Option, List, [], ◌∷◌, ◌++◌, map, Text, if_either, Bool-cases,
  Option-cases, ◌≡◌, sym, subst, ◌∙◌, arith, inl, inr,
}
use ocr_d_core.Common.Exec.{ok, Result-cases, ok_eq, err_ne_ok}
use ocr_d_core.Validators.Elements.{Geometry, Kind, Element, Made-cases, make_poly, make_line}
use ocr_d_core.Validators.Texts.{Characters}
use ocr_d_core.Validators.Checks.{
  Consistency, Context, Checked, Error, outside, invalid, Loop, separator_of, is_within, is_line,
  is_line_within, check_polygon, check_children, check_baseline, arrange_group, check_groups,
  arrange, check_text, check_texts, check_element,
}
use ocr_d_core.Validators.Checks.Repeat.{at_level, check_groups_ok, check_groups_err}
use ocr_d_core.Validators.Checks.Again.{check_element_ok, check_element_err}
use ocr_d_core.Validators.Checks.Each.{All, All-reversed, in_reading_order-All}

-- A property of `consistent` and of the report that the checks keep.
pub record IsKept (g : Geometry) (chars : Characters) (level : Consistency)
    (P : Bool → List Error → Type 0) : Type 0 where
  pub at_start : P true []
  pub both : (b d : Bool) (xs ys : List Error) → P b xs → P d ys → P (d && b) (xs ++ ys)
  pub at_outside :
      (b : Bool) (xs : List Error) (tag id : Text) → P b xs → P false (xs ++ outside tag id ∷ [])
  pub at_invalid :
      (b : Bool) (xs : List Error) (tag id reason : Text)
      → P b xs
      → P false (xs ++ invalid tag id reason ∷ [])
  pub at_text :
      (c : Context) (separator : Text) (children : List (Element g)) (s : Loop g)
      → P s.consistent s.errors
      → P
          (check_text g chars (at_level level c) separator children s).consistent
          (check_text g chars (at_level level c) separator children s).errors

module _ (g : Geometry) (chars : Characters) (level : Consistency) (P : Bool → List Error → Type 0)
    (kept : IsKept g chars level P) where
  abbrev pub Holds : Loop g → Type 0
  Holds s = P s.consistent s.errors

  abbrev pub HoldsOf : Checked g → Type 0
  HoldsOf r = P r.consistent r.errors

  check_polygon-Holds : (c : Context) (e : Element g) → Holds (check_polygon g c e).1
  unfolding check_polygon
  check_polygon-Holds c e = elim (Bool-cases (c.check_coords || c.check_baseline)) [
    | inl t ↦ elim (Option-cases e.points) [
      | inl n ↦ rw (t, n, check_polygon) kept.at_start
      | inr (points, p) ↦ elim (Made-cases (make_poly g points)) [
        | inl (poly, m) ↦ rw (t, p, m, check_polygon) kept.at_start
        | inr (reason, m) ↦
            rw (t, p, m, check_polygon) (kept.at_invalid true [] e.tag e.id reason kept.at_start)
      ]
    ]
    | inr f ↦ rw (f, check_polygon) kept.at_start
  ]

  check_children-Holds :
      (c : Context) (poly : Option g.Polygon) (xs : List (Checked g)) (s : Loop g)
      → All HoldsOf xs
      → Holds s
      → Holds (check_children g c poly xs s)
  unfolding check_children
  check_children-Holds c poly [] s r h = h
  check_children-Holds c poly (x ∷ xs) s r h =
      let joined = kept.both s.consistent x.consistent s.errors x.errors h r.0 in
      check_children-Holds c poly xs _ r.1 (
        if_either Holds (c.check_coords && not (is_within g poly x.element)) _ _
          (λ t. kept.at_outside _ _ x.element.tag x.element.id joined) (λ f. joined))

  check_baseline-Holds :
      (c : Context) (poly : Option g.Polygon) (s : Loop g)
      → Holds s
      → Holds (check_baseline g c poly s)
  unfolding check_baseline
  check_baseline-Holds c poly s h = elim (Bool-cases (is_line s.element.kind && c.check_baseline)) [
    | inl t ↦ elim (Option-cases s.element.baseline) [
      | inl n ↦ rw (t, n, check_baseline) h
      | inr (points, p) ↦ elim (Made-cases (make_line g points)) [
        | inl (line, m) ↦ elim (Bool-cases (is_line_within g poly line)) [
          | inl w ↦ rw (t, p, m, w, check_baseline) h
          | inr w ↦ rw (t, p, m, w, check_baseline) (kept.at_outside _ _ _ _ h)
        ]
        | inr (reason, m) ↦ rw (t, p, m, check_baseline) (kept.at_invalid _ _ _ _ _ h)
      ]
    ]
    | inr f ↦ rw (f, check_baseline) h
  ]

  arrange-Holds :
      (c : Context) (k : Kind) (xs : List (Checked g))
      → All HoldsOf xs
      → All HoldsOf (arrange g c k xs)
  unfolding arrange
  arrange-Holds c k xs h = ground (arith, All-reversed HoldsOf xs h)

  with_ids :
      (xs : List (Checked g))
      → All HoldsOf xs
      → All (λ (x : Text × Checked g). HoldsOf x.1) (map (λ x. (x.element.id, x)) xs)
  with_ids [] h = tt
  with_ids (x ∷ xs) h = (h.0, with_ids xs h.1)

  arrange_group-Holds :
      (c : Context) (b : Bool) (xs ys : List (Checked g))
      → All HoldsOf xs
      → arrange_group g c b xs ≡ ok ys
      → All HoldsOf ys
  arrange_group-Holds c true xs ys h e =
      in_reading_order-All HoldsOf c.reading_order _ ys (with_ids xs h) e
  arrange_group-Holds c false xs ys h e = subst (All HoldsOf) (ok_eq e) h

  abbrev pub HoldsOfGroup : Bool × List (Checked g) → Type 0
  HoldsOfGroup x = All HoldsOf x.1

  check_groups-Holds :
      (c : Context) (poly : Option g.Polygon) (xs : List (Bool × List (Checked g))) (s t : Loop g)
      → All HoldsOfGroup xs
      → Holds s
      → check_groups g c poly xs s ≡ ok t
      → Holds t
  unfolding check_groups
  check_groups-Holds c poly [] s t r h e = subst Holds (ok_eq e) h
  check_groups-Holds c poly ((b, x) ∷ xs) s t r h e = elim (Result-cases (arrange_group g c b x)) [
    | inl (ys, p) ↦
        check_groups-Holds c poly xs _ t r.1
          (check_children-Holds c poly ys s (arrange_group-Holds c b x ys r.0 p) h)
          (sym (check_groups_ok g c poly b x ys xs s p) ∙ e)
    | inr (y, p) ↦ absurd (err_ne_ok (sym (check_groups_err g c poly b x xs s y p) ∙ e))
  ]

  check_texts-Holds :
      (c : Context) (poly : Option g.Polygon) (xs : List (Checked g)) (s : Loop g)
      → All HoldsOf xs
      → Holds s
      → Holds (check_texts g chars (at_level level c) poly xs s)
  unfolding check_texts
  check_texts-Holds c poly xs s r h = elim (Option-cases (separator_of s.element.kind)) [
    | inl n ↦ rw (n, check_texts) h
    | inr (separator, p) ↦
        rw (p, check_texts)
          (kept.at_text c separator _ _ (
            check_baseline-Holds (at_level level c) poly _ (
              check_children-Holds (at_level level c) poly _ s
                (arrange-Holds (at_level level c) s.element.kind xs r) h)))
  ]

  pub check_element-Holds :
      (c : Context) (e : Element g) (gs : List (Bool × List (Checked g))) (xs : List (Checked g))
      (r : Checked g)
      → All HoldsOfGroup gs
      → All HoldsOf xs
      → check_element g chars (at_level level c) e gs xs ≡ ok r
      → HoldsOf r
  check_element-Holds c e gs xs r q p h =
      let (poly, s) = check_polygon g (at_level level c) e in
      elim (Result-cases (check_groups g (at_level level c) poly gs s)) [
        | inl (t, k) ↦
            subst HoldsOf
              (ok_eq (sym (check_element_ok g chars (at_level level c) e gs xs t k) ∙ h))
              (check_texts-Holds c poly xs t p (
                check_groups-Holds (at_level level c) poly gs s t q
                  (check_polygon-Holds (at_level level c) e) k))
        | inr (x, k) ↦
            absurd (err_ne_ok (sym (check_element_err g chars (at_level level c) e gs xs x k) ∙ h))
      ]
