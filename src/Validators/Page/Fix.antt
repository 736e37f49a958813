-- ===== src/Validators/Page/Fix.antt =====
-- A page that is repaired, and validated again.
use ocr_d_core.Common.{
  Text, codes, Bool, true, false, List, [], ◌∷◌, Bool-cases, ◌≡◌, refl, ap, sym, subst, ◌∙◌, inl,
  inr,
}
use ocr_d_core.Common.Exec.{ok, ok_eq}
use ocr_d_core.Validators.Elements.{Geometry, Element, Nodes, Groups}
use ocr_d_core.Validators.Texts.{Characters}
use ocr_d_core.Validators.Texts.Order.{Pairwise}
use ocr_d_core.Validators.Checks.{
  Error, strict, fix, Context, Checked, is_glyph, enter, nodes_of, groups_of, check_element,
}
use ocr_d_core.Validators.Checks.Repeat.{at_level, Same, SameGroup}
use ocr_d_core.Validators.Checks.Again.{check_element-Again}
use ocr_d_core.Validators.Page.{
  also, untouched, check_with, with_flag, validate_nodes, validate_groups, validate_page, PcGts,
  start, strategy_of, report_of, validate,
}
use ocr_d_core.Validators.Page.Levels.{has_text_error, validate_page-fix}
use ocr_d_core.Validators.Page.Steps.{
  also-inv, with_flag-inv, order_in-at_level, enter_again, check_with-inv, validate_glyph,
  report_of-inv, validate_known, validate-inv, validate_other,
}

module _ (g : Geometry) (chars : Characters) where
  -- What a second validation of validated nodes gives.
  abbrev Repeated : Context → List (Checked g) → Type 0
  Repeated c rs =
      (ss : List (Checked g)) × (validate_nodes g chars (at_level strict c) (nodes_of g rs) ≡ ok ss)
      × Pairwise (Same g) rs ss

  abbrev RepeatedGroups : Context → List (Bool × List (Checked g)) → Type 0
  RepeatedGroups c rs =
      (ss : List (Bool × List (Checked g))) × (validate_groups g chars (at_level strict c)
          (groups_of g rs)
        ≡ ok ss)
      × Pairwise (SameGroup g) rs ss

  module _ (c : Context) (r : Checked g) (rest : List (Checked g)) where
    cons_glyph :
        is_glyph r.element.kind ≡ true → Repeated c rest → r.errors ≡ [] → Repeated c (r ∷ rest)
    unfolding nodes_of
    cons_glyph k (ss, h, same) e = (
      untouched g r.element r.groups r.children ∷ ss,
      validate_glyph g chars (at_level strict c) r.element r.groups r.children (nodes_of g rest) k
          ∙ ap (also (ok (untouched g r.element r.groups r.children))) h,
      ((e, refl, refl, refl), same),
    )

  check_with_again :
      (c d : Context) (f : Element g) (rg gs : Groups g) (rn ns : Nodes g)
      (hs : List (Bool × List (Checked g))) (ys : List (Checked g)) (s : Checked g)
      → c ≡ d
      → rg ≡ gs
      → rn ≡ ns
      → validate_groups g chars d gs ≡ ok hs
      → validate_nodes g chars d ns ≡ ok ys
      → check_element g chars d f hs ys ≡ ok s
      → check_with g chars c f (validate_groups g chars c rg) (validate_nodes g chars c rn) ≡ ok s
  check_with_again c d f rg gs rn ns hs ys s p q r hg hn h = rw (p, q, r, hg, hn) h

  cons_other :
      (c : Context) (e : Element g) (hs : List (Bool × List (Checked g))) (ys : List (Checked g))
      (r : Checked g) (rest : List (Checked g))
      → is_glyph e.kind ≡ false
      → check_element g chars (at_level fix (enter g e c)) e hs ys ≡ ok r
      → RepeatedGroups (enter g e c) hs
      → Repeated (enter g e c) ys
      → Repeated c rest
      → Repeated c (r ∷ rest)
  unfolding nodes_of
  cons_other c e hs ys r rest k h (hs2, hg, sg) (ys2, hn, sn) (ss, ht, st) =
      let (s, again, same, retexted, groups, children) =
        check_element-Again g chars (enter g e c) e hs hs2 ys ys2 r sg sn h in
      (
        s ∷ ss,
        validate_other g chars (at_level strict c) r.element r.groups r.children (nodes_of g rest)
              (ap (λ (x : Element g). is_glyph x.kind) retexted ∙ k)
            ∙ ap (λ x. also x (validate_nodes g chars (at_level strict c) (nodes_of g rest)))
                (check_with_again _ (at_level strict (enter g e c)) r.element r.groups
                  (groups_of g hs) r.children (nodes_of g ys) hs2 ys2 s
                  (enter_again g strict e r.element r.element.equivs c retexted) groups children hg
                  hn again)
            ∙ ap (also (ok s)) ht,
        (same, st),
      )

  mutual
    unfolding nodes_of groups_of validate_nodes validate_groups

    validate_nodes-Repeated :
        (c : Context) (ns : Nodes g) (rs : List (Checked g))
        → validate_nodes g chars (at_level fix c) ns ≡ ok rs
        → Repeated c rs
    validate_nodes-Repeated c Nodes.nil rs h = subst (Repeated c) (ok_eq h) ([], refl, tt)
    validate_nodes-Repeated c (Nodes.cons e gs ns rest) rs h = elim (Bool-cases (is_glyph e.kind)) [
      | inl k ↦
          let (r, others, x, y, z) =
            also-inv _ _ rs (sym (validate_glyph g chars (at_level fix c) e gs ns rest k) ∙ h) in
          subst (Repeated c) (sym z) (
            cons_glyph c r others
              (ap (λ (q : Checked g). is_glyph q.element.kind) (sym (ok_eq x)) ∙ k)
              (validate_nodes-Repeated c rest others y)
              (ap (λ (q : Checked g). q.errors) (sym (ok_eq x))))
      | inr k ↦
          let (r, others, x, y, z) =
            also-inv _ _ rs (sym (validate_other g chars (at_level fix c) e gs ns rest k) ∙ h) in
          let (hs, ys, hg, hn, checked) = check_with-inv g chars _ e _ _ r x in
          let entered = order_in-at_level g fix e.kind e c in
          subst (Repeated c) (sym z) (
            cons_other c e hs ys r others k
              (ap (λ d. check_element g chars d e hs ys) (sym entered) ∙ checked)
              (validate_groups-Repeated (enter g e c) gs hs
                (ap (λ d. validate_groups g chars d gs) (sym entered) ∙ hg))
              (validate_nodes-Repeated (enter g e c) ns ys
                (ap (λ d. validate_nodes g chars d ns) (sym entered) ∙ hn))
              (validate_nodes-Repeated c rest others y))
    ]

    validate_groups-Repeated :
        (c : Context) (gs : Groups g) (rs : List (Bool × List (Checked g)))
        → validate_groups g chars (at_level fix c) gs ≡ ok rs
        → RepeatedGroups c rs
    validate_groups-Repeated c Groups.end rs h = subst (RepeatedGroups c) (ok_eq h) ([], refl, tt)
    validate_groups-Repeated c (Groups.group b ns gs) rs h =
        let (r, others, x, y, z) = also-inv _ _ rs h in
        let (ys, hn, flagged) = with_flag-inv g b _ r x in
        let (zs, again, same) = validate_nodes-Repeated c ns ys hn in
        let (ws, again2, same2) = validate_groups-Repeated c gs others y in
        subst (RepeatedGroups c) (ap (λ q. q ∷ others) flagged ∙ sym z) (
          (b, zs) ∷ ws,
          ap
                (λ v.
                  also (with_flag g b v)
                    (validate_groups g chars (at_level strict c) (groups_of g others)))
                again
              ∙ ap (also (ok (b, zs))) again2,
          ((refl, same), same2),
        )

  -- A page that is validated with `fix` is validated again with `strict`.
  pub validate_page-again :
      (c : Context) (e : Element g) (gs : Groups g) (r : Checked g)
      → validate_page g chars (at_level fix c) e gs ≡ ok r
      → (s : Checked g) × (validate_page g chars (at_level strict c) r.element r.groups ≡ ok s)
        × Same g r s
  unfolding validate_page
  validate_page-again c e gs r h =
      let (hs, ys, hg, hn, checked) = check_with-inv g chars _ e _ _ r h in
      let entered = order_in-at_level g fix e.kind e c in
      let (hs2, hg2, same_groups) =
        validate_groups-Repeated (enter g e c) gs hs
          (ap (λ d. validate_groups g chars d gs) (sym entered) ∙ hg) in
      let (s, again, same, retexted, groups, children) =
        check_element-Again g chars (enter g e c) e hs hs2 ys [] r same_groups
          (subst (λ zs. Pairwise (Same g) zs []) (ok_eq hn) tt)
          (ap (λ d. check_element g chars d e hs ys) (sym entered) ∙ checked) in
      (
        s,
        rw (enter_again g strict e r.element r.element.equivs c retexted, groups, hg2) again,
        same,
      )

  outcome_path :
      (doc : PcGts g) {es fs : List Error} {e f : Element g} {gs hs : Groups g}
      → es ≡ fs
      → e ≡ f
      → gs ≡ hs
      → ◌≡◌ {A = List Error × PcGts g}
          (es, record doc { page = e; regions = gs })
          (fs, record doc { page = f; regions = hs })
  outcome_path doc p q r = cc

  -- When a document is validated with `fix` and a validation returns, then validating what it has
  -- become with `strict`, and with the same other arguments, returns the same report and leaves it as
  -- it is; and this report has no ConsistencyError.
  pub validate-fix :
      (strategy : Text) (baseline coords : Bool) (doc fixed : PcGts g) (errors : List Error)
      → validate g chars (codes "fix") strategy baseline coords doc ≡ ok (errors, fixed)
      → (validate g chars (codes "strict") strategy baseline coords fixed ≡ ok (errors, fixed))
        × (has_text_error errors ≡ false)
  validate-fix strategy baseline coords doc fixed errors h =
      let known =
        validate-inv g chars (codes "fix") strategy baseline coords doc (errors, fixed) h in
      let (r, returns, same_errors, same_doc) =
        report_of-inv g chars doc _ errors fixed
          (sym (validate_known g chars (codes "fix") strategy baseline coords doc known) ∙ h) in
      let c = start g chars strict (strategy_of strategy) baseline coords doc in
      let (s, again, same) = validate_page-again c doc.page doc.regions r returns in
      let left : PcGts g = record doc { page = r.element; regions = r.groups } in
      (
        subst
            (λ (d : PcGts g).
              validate g chars (codes "strict") strategy baseline coords d ≡ ok (errors, d))
            same_doc
            (validate_known g chars (codes "strict") strategy baseline coords left known
              ∙ ap (report_of g chars left) again
              ∙ ap ok (outcome_path doc (sym same.0 ∙ same_errors) (sym same.1) (sym same.2))),
        subst (λ es. has_text_error es ≡ false) same_errors
            (validate_page-fix g chars c doc.page doc.regions r returns),
      )
