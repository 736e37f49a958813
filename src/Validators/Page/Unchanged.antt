-- ===== src/Validators/Page/Unchanged.antt =====
-- A validation that does not repair leaves the document.
use ocr_d_core.Common.{
  Text, codes, Bool, Option, some, List, ◌∷◌, Bool-cases, Option-cases, if_either, list_beq_iff,
  nat_eq, arith, ◌≡◌, refl, ap, sym, subst, ◌∙◌, inl, inr,
}
use ocr_d_core.Common.Exec.{ok, Result-cases, ok_eq, err_ne_ok}
use ocr_d_core.Validators.Elements.{Geometry, Element, Nodes, Groups}
use ocr_d_core.Validators.Texts.{Characters, compare_without_whitespace}
use ocr_d_core.Validators.Checks.{
  Consistency, strict, lax, fix, off, Context, Checked, Error, Loop, is_glyph, enter, separator_of,
  nodes_of, groups_of, check_polygon, check_groups, report_text, check_texts, check_element,
}
use ocr_d_core.Validators.Checks.Repeat.{at_level}
use ocr_d_core.Validators.Checks.Kept.{
  check_polygon-element, check_children-element, check_baseline-element, check_groups-element,
}
use ocr_d_core.Validators.Checks.Again.{check_element_ok, check_element_err}
use ocr_d_core.Validators.Page.{
  validate_nodes, validate_groups, validate_page, PcGts, start, strategy_of, consistency_of,
  validate_at, validate,
}
use ocr_d_core.Validators.Page.Levels.{check_text_either}
use ocr_d_core.Validators.Page.Steps.{
  also-inv, with_flag-inv, order_in-at_level, check_with-inv, validate_glyph, report_of-inv,
  validate_known, validate-inv, validate_other,
}

module _ (g : Geometry) (chars : Characters) (level : Consistency) (other : ¬ (level ≡ fix)) where
  report_text-element :
      (l : Consistency) (c : Context) (concatenated actual : Text) (s : Loop g)
      → ¬ (l ≡ fix)
      → (report_text g chars (at_level l c) concatenated actual s).element ≡ s.element
  unfolding report_text
  report_text-element strict c concatenated actual s h = refl
  report_text-element lax c concatenated actual s h =
      if_either (λ (t : Loop g). t.element ≡ s.element)
        (compare_without_whitespace chars concatenated actual) _ _ (λ t. refl) (λ f. refl)
  report_text-element fix c concatenated actual s h = absurd (h refl)
  report_text-element off c concatenated actual s h = refl

  check_texts-element :
      (c : Context) (poly : Option g.Polygon) (xs : List (Checked g)) (s : Loop g)
      → (check_texts g chars (at_level level c) poly xs s).element ≡ s.element
  unfolding check_texts
  check_texts-element c poly xs s = elim (Option-cases (separator_of s.element.kind)) [
    | inl n ↦ simp (n, check_texts)
    | inr (separator, p) ↦
        simp (p, check_texts)
          (check_text_either g chars (λ t. t.element ≡ s.element) level c separator _ _
            (λ concatenated actual.
              report_text-element level c concatenated actual _ other
              ∙ check_baseline-element g (at_level level c) poly _
              ∙ check_children-element g (at_level level c) poly _ s)
            (check_baseline-element g (at_level level c) poly _
              ∙ check_children-element g (at_level level c) poly _ s))
  ]

  check_element-unchanged :
      (c : Context) (e : Element g) (gs : List (Bool × List (Checked g))) (xs : List (Checked g))
      (r : Checked g)
      → check_element g chars (at_level level c) e gs xs ≡ ok r
      → (r.element ≡ e) × (r.groups ≡ groups_of g gs) × (r.children ≡ nodes_of g xs)
  check_element-unchanged c e gs xs r h =
      let (poly, s) = check_polygon g (at_level level c) e in
      elim (Result-cases (check_groups g (at_level level c) poly gs s)) [
        | inl (t, k) ↦
            subst
              (λ (z : Checked g).
                (z.element ≡ e) × (z.groups ≡ groups_of g gs) × (z.children ≡ nodes_of g xs))
              (ok_eq (sym (check_element_ok g chars (at_level level c) e gs xs t k) ∙ h))
              (
                check_texts-element c poly xs t
                    ∙ check_groups-element g (at_level level c) poly gs s t k
                    ∙ check_polygon-element g (at_level level c) e,
                refl,
                refl,
              )
        | inr (x, k) ↦
            absurd (err_ne_ok (sym (check_element_err g chars (at_level level c) e gs xs x k) ∙ h))
      ]

  cons_unchanged :
      {e f : Element g} {gs hs ks : Groups g} {ns ms ls rest others : Nodes g}
      → (e ≡ f) × (gs ≡ hs) × (ns ≡ ms)
      → hs ≡ ks
      → ms ≡ ls
      → rest ≡ others
      → Nodes.cons e gs ns rest ≡ Nodes.cons f ks ls others
  cons_unchanged (p, q, r) s t u = cc

  group_unchanged :
      {b : Bool} {ns ms : Nodes g} {gs hs : Groups g}
      → ns ≡ ms
      → gs ≡ hs
      → Groups.group b ns gs ≡ Groups.group b ms hs
  group_unchanged p q = cc

  mutual
    unfolding nodes_of groups_of validate_nodes validate_groups

    nodes_of-validate_nodes :
        (c : Context) (ns : Nodes g) (rs : List (Checked g))
        → validate_nodes g chars (at_level level c) ns ≡ ok rs
        → nodes_of g rs ≡ ns
    nodes_of-validate_nodes c Nodes.nil rs h = ap (nodes_of g) (sym (ok_eq h))
    nodes_of-validate_nodes c (Nodes.cons e gs ns rest) rs h = elim (Bool-cases (is_glyph e.kind)) [
      | inl k ↦
          let (r, others, x, y, z) =
            also-inv _ _ rs (sym (validate_glyph g chars (at_level level c) e gs ns rest k) ∙ h) in
          ap (nodes_of g) z
          ∙ ap (λ q. nodes_of g (q ∷ others)) (sym (ok_eq x))
          ∙ ap (Nodes.cons e gs ns) (nodes_of-validate_nodes c rest others y)
      | inr k ↦
          let (r, others, x, y, z) =
            also-inv _ _ rs (sym (validate_other g chars (at_level level c) e gs ns rest k) ∙ h) in
          let (hs, ys, hg, hn, checked) = check_with-inv g chars _ e _ _ r x in
          let entered = order_in-at_level g level e.kind e c in
          ap (nodes_of g) z
          ∙ cons_unchanged
              (check_element-unchanged (enter g e c) e hs ys r
                (ap (λ d. check_element g chars d e hs ys) (sym entered) ∙ checked))
              (groups_of-validate_groups (enter g e c) gs hs
                (ap (λ d. validate_groups g chars d gs) (sym entered) ∙ hg))
              (nodes_of-validate_nodes (enter g e c) ns ys
                (ap (λ d. validate_nodes g chars d ns) (sym entered) ∙ hn))
              (nodes_of-validate_nodes c rest others y)
    ]

    groups_of-validate_groups :
        (c : Context) (gs : Groups g) (rs : List (Bool × List (Checked g)))
        → validate_groups g chars (at_level level c) gs ≡ ok rs
        → groups_of g rs ≡ gs
    groups_of-validate_groups c Groups.end rs h = ap (groups_of g) (sym (ok_eq h))
    groups_of-validate_groups c (Groups.group b ns gs) rs h =
        let (r, others, x, y, z) = also-inv _ _ rs h in
        let (ys, hn, flagged) = with_flag-inv g b _ r x in
        ap (groups_of g) z
        ∙ ap (λ q. groups_of g (q ∷ others)) (sym flagged)
        ∙ group_unchanged (nodes_of-validate_nodes c ns ys hn)
            (groups_of-validate_groups c gs others y)

  validate_page-unchanged :
      (c : Context) (e : Element g) (gs : Groups g) (r : Checked g)
      → validate_page g chars (at_level level c) e gs ≡ ok r
      → (r.element ≡ e) × (r.groups ≡ gs)
  unfolding validate_page
  validate_page-unchanged c e gs r h =
      let (hs, ys, hg, hn, checked) = check_with-inv g chars _ e _ _ r h in
      let entered = order_in-at_level g level e.kind e c in
      let (element, groups, children) =
        check_element-unchanged (enter g e c) e hs ys r
          (ap (λ d. check_element g chars d e hs ys) (sym entered) ∙ checked) in
      (
        element,
        groups
            ∙ groups_of-validate_groups (enter g e c) gs hs
                (ap (λ d. validate_groups g chars d gs) (sym entered) ∙ hg),
      )

doc_path :
    {g : Geometry} (doc : PcGts g) {e : Element g} {gs : Groups g}
    → e ≡ doc.page
    → gs ≡ doc.regions
    → ◌≡◌ {A = PcGts g} (record doc { page = e; regions = gs }) doc
doc_path doc p q = cc

consistency_of_fix : (name : Text) → consistency_of name ≡ some fix → name ≡ codes "fix"
consistency_of_fix name h = ground (
  arith,
  list_beq_iff name (codes "strict"),
  list_beq_iff name (codes "lax"),
  list_beq_iff name (codes "fix"),
  list_beq_iff name (codes "off"),
)

-- A validation that returns leaves the document, unless its level of consistency is `fix`.
pub validate-unchanged :
    (g : Geometry) (chars : Characters) (name strategy : Text) (baseline coords : Bool)
    (doc after : PcGts g) (errors : List Error)
    → ¬ (name ≡ codes "fix")
    → validate g chars name strategy baseline coords doc ≡ ok (errors, after)
    → after ≡ doc
validate-unchanged g chars name strategy baseline coords doc after errors n h =
    let known = validate-inv g chars name strategy baseline coords doc (errors, after) h in
    let called = sym (validate_known g chars name strategy baseline coords doc known) ∙ h in
    elim (Option-cases (consistency_of name)) [
      | inl none_of ↦ absurd (
          err_ne_ok (
            ap (λ o. validate_at g chars o (strategy_of strategy) baseline coords doc) (sym none_of)
            ∙ called))
      | inr (level, p) ↦
          let (r, returns, same_errors, same_doc) = report_of-inv g chars doc _ errors after (
            ap (λ o. validate_at g chars o (strategy_of strategy) baseline coords doc) (sym p)
            ∙ called) in
          let (page, regions) =
            validate_page-unchanged g chars level (λ e. n (consistency_of_fix name (p ∙ ap some e)))
              (start g chars strict (strategy_of strategy) baseline coords doc) doc.page doc.regions
              r returns in
          sym same_doc ∙ doc_path doc page regions
    ]
