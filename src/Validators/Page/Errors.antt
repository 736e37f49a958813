-- ===== src/Validators/Page/Errors.antt =====
-- What every validation keeps of `consistent` and of the report, and what it reports at each level
-- of consistency.
use ocr_d_core.Common.{Bool, List, Bool-cases, ◌≡◌, ap, sym, subst, ◌∙◌, inl, inr}
use ocr_d_core.Common.Exec.{ok, ok_eq}
use ocr_d_core.Validators.Elements.{Geometry, Element, Nodes, Groups}
use ocr_d_core.Validators.Texts.{Characters}
use ocr_d_core.Validators.Checks.{
  Consistency, Context, Checked, Error, is_glyph, enter, check_element,
}
use ocr_d_core.Validators.Checks.Repeat.{at_level}
use ocr_d_core.Validators.Checks.Each.{All}
use ocr_d_core.Validators.Checks.Report.{IsKept, HoldsOf, HoldsOfGroup, check_element-Holds}
use ocr_d_core.Validators.Page.{validate_nodes, validate_groups, validate_page}
use ocr_d_core.Validators.Page.Steps.{
  also-inv, with_flag-inv, order_in-at_level, check_with-inv, validate_glyph, validate_other,
}

module _ (g : Geometry) (chars : Characters) (level : Consistency) (P : Bool → List Error → Type 0)
    (kept : IsKept g chars level P) where
  mutual
    unfolding validate_nodes validate_groups

    validate_nodes-Holds :
        (c : Context) (ns : Nodes g) (rs : List (Checked g))
        → validate_nodes g chars (at_level level c) ns ≡ ok rs
        → All (HoldsOf g chars level P kept) rs
    validate_nodes-Holds c Nodes.nil rs h = subst (All (HoldsOf g chars level P kept)) (ok_eq h) tt
    validate_nodes-Holds c (Nodes.cons e gs ns rest) rs h = elim (Bool-cases (is_glyph e.kind)) [
      | inl k ↦
          let (r, others, x, y, z) =
            also-inv _ _ rs (sym (validate_glyph g chars (at_level level c) e gs ns rest k) ∙ h) in
          subst (All (HoldsOf g chars level P kept)) (sym z) (
            subst (HoldsOf g chars level P kept) (ok_eq x) kept.at_start,
            validate_nodes-Holds c rest others y,
          )
      | inr k ↦
          let (r, others, x, y, z) =
            also-inv _ _ rs (sym (validate_other g chars (at_level level c) e gs ns rest k) ∙ h) in
          let (hs, ys, hg, hn, checked) = check_with-inv g chars _ e _ _ r x in
          let entered = order_in-at_level g level e.kind e c in
          subst (All (HoldsOf g chars level P kept)) (sym z) (
            check_element-Holds g chars level P kept (enter g e c) e hs ys r
                (validate_groups-Holds (enter g e c) gs hs
                  (ap (λ d. validate_groups g chars d gs) (sym entered) ∙ hg))
                (validate_nodes-Holds (enter g e c) ns ys
                  (ap (λ d. validate_nodes g chars d ns) (sym entered) ∙ hn))
                (ap (λ d. check_element g chars d e hs ys) (sym entered) ∙ checked),
            validate_nodes-Holds c rest others y,
          )
    ]

    validate_groups-Holds :
        (c : Context) (gs : Groups g) (rs : List (Bool × List (Checked g)))
        → validate_groups g chars (at_level level c) gs ≡ ok rs
        → All (HoldsOfGroup g chars level P kept) rs
    validate_groups-Holds c Groups.end rs h =
        subst (All (HoldsOfGroup g chars level P kept)) (ok_eq h) tt
    validate_groups-Holds c (Groups.group b ns gs) rs h =
        let (r, others, x, y, z) = also-inv _ _ rs h in
        let (ys, hn, flagged) = with_flag-inv g b _ r x in
        subst (All (HoldsOfGroup g chars level P kept)) (sym z) (
          subst (HoldsOfGroup g chars level P kept) flagged (validate_nodes-Holds c ns ys hn),
          validate_groups-Holds c gs others y,
        )

  -- What the checks of an element keep holds of the page.
  pub validate_page-Holds :
      (c : Context) (e : Element g) (gs : Groups g) (r : Checked g)
      → validate_page g chars (at_level level c) e gs ≡ ok r
      → P r.consistent r.errors
  unfolding validate_page
  validate_page-Holds c e gs r h =
      let (hs, ys, hg, hn, checked) = check_with-inv g chars _ e _ _ r h in
      let entered = order_in-at_level g level e.kind e c in
      check_element-Holds g chars level P kept (enter g e c) e hs ys r
        (validate_groups-Holds (enter g e c) gs hs
          (ap (λ d. validate_groups g chars d gs) (sym entered) ∙ hg))
        (subst (All (HoldsOf g chars level P kept)) (ok_eq hn) tt)
        (ap (λ d. check_element g chars d e hs ys) (sym entered) ∙ checked)
