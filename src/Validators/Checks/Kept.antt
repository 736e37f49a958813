-- ===== src/Validators/Checks/Kept.antt =====
-- An element that is validated again after a repair.
use ocr_d_core.Common.{
  Bool, ◌&&◌, ◌||◌, not, Option, List, [], ◌∷◌, map, if_either, ◌≡◌, refl, ap, sym, ◌∙◌, Bool-cases,
  Option-cases, inl, inr,
}
use ocr_d_core.Common.Exec.{ok, Result-cases, ok_eq, err_ne_ok}
use ocr_d_core.Validators.Elements.{
  Geometry, Element, Nodes, Groups, Made-cases, make_poly, make_line,
}
use ocr_d_core.Validators.Texts.Order.{Pairwise}
use ocr_d_core.Validators.Checks.{
  Context, Checked, Loop, is_within, is_line_within, is_line, check_polygon, check_children,
  check_baseline, arrange_group, check_groups, nodes_of, groups_of,
}
use ocr_d_core.Validators.Checks.Repeat.{Same, SameGroup, check_groups_ok, check_groups_err}

module _ (g : Geometry) where
  -- The checks of coordinates leave the element as it is.
  pub check_polygon-element : (c : Context) (e : Element g) → (check_polygon g c e).1.element ≡ e
  unfolding check_polygon
  check_polygon-element c e = elim (Bool-cases (c.check_coords || c.check_baseline)) [
    | inl t ↦ elim (Option-cases e.points) [
      | inl n ↦ simp (t, n, check_polygon) refl
      | inr (points, p) ↦ elim (Made-cases (make_poly g points)) [
        | inl (poly, m) ↦ simp (t, p, m, check_polygon) refl
        | inr (reason, m) ↦ simp (t, p, m, check_polygon) refl
      ]
    ]
    | inr f ↦ simp (f, check_polygon) refl
  ]

  pub check_children-element :
      (c : Context) (poly : Option g.Polygon) (xs : List (Checked g)) (s : Loop g)
      → (check_children g c poly xs s).element ≡ s.element
  unfolding check_children
  check_children-element c poly [] s = refl
  check_children-element c poly (x ∷ xs) s =
      check_children-element c poly xs _
      ∙ if_either (λ (t : Loop g). t.element ≡ s.element)
          (c.check_coords && not (is_within g poly x.element)) _ _ (λ t. refl) (λ f. refl)

  pub check_baseline-element :
      (c : Context) (poly : Option g.Polygon) (s : Loop g)
      → (check_baseline g c poly s).element ≡ s.element
  unfolding check_baseline
  check_baseline-element c poly s = elim (Bool-cases (is_line s.element.kind && c.check_baseline)) [
    | inl t ↦ elim (Option-cases s.element.baseline) [
      | inl n ↦ simp (t, n, check_baseline) refl
      | inr (points, p) ↦ elim (Made-cases (make_line g points)) [
        | inl (line, m) ↦ elim (Bool-cases (is_line_within g poly line)) [
          | inl w ↦ simp (t, p, m, w, check_baseline) refl
          | inr w ↦ simp (t, p, m, w, check_baseline) refl
        ]
        | inr (reason, m) ↦ simp (t, p, m, check_baseline) refl
      ]
    ]
    | inr f ↦ simp (f, check_baseline) refl
  ]

  pub check_groups-element :
      (c : Context) (poly : Option g.Polygon) (xs : List (Bool × List (Checked g))) (s t : Loop g)
      → check_groups g c poly xs s ≡ ok t
      → t.element ≡ s.element
  unfolding check_groups
  check_groups-element c poly [] s t h = ap (λ l. l.element) (sym (ok_eq h))
  check_groups-element c poly ((b, x) ∷ xs) s t h = elim (Result-cases (arrange_group g c b x)) [
    | inl (ys, p) ↦
        check_groups-element c poly xs _ t (sym (check_groups_ok g c poly b x ys xs s p) ∙ h)
        ∙ check_children-element c poly ys s
    | inr (e, p) ↦ absurd (err_ne_ok (sym (check_groups_err g c poly b x xs s e p) ∙ h))
  ]

  cons_path :
      {e f : Element g} {gs hs : Groups g} {ns ms rest others : Nodes g}
      → e ≡ f
      → gs ≡ hs
      → ns ≡ ms
      → rest ≡ others
      → Nodes.cons e gs ns rest ≡ Nodes.cons f hs ms others
  cons_path p q r t = cc

  group_path :
      {b d : Bool} {ns ms : Nodes g} {rest others : Groups g}
      → b ≡ d
      → ns ≡ ms
      → rest ≡ others
      → Groups.group b ns rest ≡ Groups.group d ms others
  group_path p q r = cc

  element_path :
      {e f : Element g} {rest others : List (Element g)}
      → e ≡ f
      → rest ≡ others
      → e ∷ rest ≡ f ∷ others
  element_path p q = cc

  pub nodes_of-Same :
      (xs ys : List (Checked g)) → Pairwise (Same g) xs ys → nodes_of g xs ≡ nodes_of g ys
  unfolding nodes_of
  nodes_of-Same [] [] r = refl
  nodes_of-Same (x ∷ xs) [] r = absurd r
  nodes_of-Same [] (y ∷ ys) r = absurd r
  nodes_of-Same (x ∷ xs) (y ∷ ys) r = cons_path r.0.1 r.0.2 r.0.3 (nodes_of-Same xs ys r.1)

  pub elements-Same :
      (xs ys : List (Checked g))
      → Pairwise (Same g) xs ys
      → map (λ x. x.element) xs ≡ map (λ y. y.element) ys
  elements-Same [] [] r = refl
  elements-Same (x ∷ xs) [] r = absurd r
  elements-Same [] (y ∷ ys) r = absurd r
  elements-Same (x ∷ xs) (y ∷ ys) r = element_path r.0.1 (elements-Same xs ys r.1)

  pub groups_of-Same :
      (xs ys : List (Bool × List (Checked g)))
      → Pairwise (SameGroup g) xs ys
      → groups_of g xs ≡ groups_of g ys
  unfolding groups_of
  groups_of-Same [] [] r = refl
  groups_of-Same (x ∷ xs) [] r = absurd r
  groups_of-Same [] (y ∷ ys) r = absurd r
  groups_of-Same (x ∷ xs) (y ∷ ys) r =
      group_path r.0.0 (nodes_of-Same x.1 y.1 r.0.1) (groups_of-Same xs ys r.1)
