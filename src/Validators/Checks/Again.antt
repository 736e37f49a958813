-- ===== src/Validators/Checks/Again.antt =====
-- An element that is validated again after a repair.
use ocr_d_core.Common.{
  Bool, false, Option, none, some, List, map, Text, Option-cases, ◌≡◌, refl, ap, sym, subst, ◌∙◌,
  inl, inr,
}
use ocr_d_core.Common.Exec.{ok, err, Result-cases, ok_eq, err_ne_ok, Exception}
use ocr_d_core.Validators.Elements.{Geometry, Kind, Element}
use ocr_d_core.Validators.Texts.{Characters}
use ocr_d_core.Validators.Texts.Order.{Pairwise}
use ocr_d_core.Validators.Checks.{
  strict, fix, Context, Checked, Loop, separator_of, check_polygon, check_children, check_baseline,
  check_groups, arrange, check_text, differs, text_of, check_texts, nodes_of, groups_of,
  check_element,
}
use ocr_d_core.Validators.Checks.Repeat.{
  at_level, Same, SameGroup, SameLoop, check_polygon-level, check_children-Same,
  check_baseline-Same, arrange-Same, check_groups-Same,
}
use ocr_d_core.Validators.Checks.Fixed.{expected, check_text-Settled, check_text_settled}
use ocr_d_core.Validators.Checks.Kept.{
  check_polygon-element, check_children-element, check_baseline-element, check_groups-element,
  nodes_of-Same, elements-Same, groups_of-Same,
}

module _ (g : Geometry) (chars : Characters) where
  -- The loop over the lines, words or glyphs, without the texts.
  abbrev looped : Context → Option g.Polygon → List (Checked g) → Loop g → Loop g
  looped c poly arranged s = check_baseline g c poly (check_children g c poly arranged s)

  check_texts_leaf :
      (c : Context) (poly : Option g.Polygon) (xs : List (Checked g)) (s : Loop g)
      → separator_of s.element.kind ≡ none
      → check_texts g chars c poly xs s ≡ s
  unfolding check_texts
  check_texts_leaf c poly xs s h = simp (h, check_texts)

  check_texts_inner :
      (c : Context) (poly : Option g.Polygon) (xs : List (Checked g)) (s : Loop g)
      (separator : Text) (kind : Kind)
      → kind ≡ s.element.kind
      → separator_of kind ≡ some separator
      → check_texts g chars c poly xs s
        ≡ check_text g chars c separator
            (map (λ x. x.element) (arrange g c kind xs))
            (looped c poly (arrange g c kind xs) s)
  unfolding check_texts
  check_texts_inner c poly xs s separator kind e h =
      subst
        (λ k.
          check_texts g chars c poly xs s
          ≡ check_text g chars c separator (map (λ x. x.element) (arrange g c k xs))
              (looped c poly (arrange g c k xs) s))
        (sym e) (simp (sym e, h, check_texts))

  -- What the second validation of a repaired element finds.
  abbrev Again : Loop g → Loop g → Loop g → Type 0
  Again s u v =
      (u.element ≡ record s.element { equivs = u.element.equivs })
      × (u.errors ≡ v.errors)
      × (u.element ≡ v.element)

  leaf_repeats : (s t u v : Loop g) → s ≡ u → t ≡ v → SameLoop g u.element.equivs s t → Again s u v
  leaf_repeats s t u v p q =
      subst (λ (x : Loop g). SameLoop g x.element.equivs s t → Again s x v) p
        (subst (λ (y : Loop g). SameLoop g s.element.equivs s t → Again s s y) q
          (λ h. (refl, h.0, h.1)))

  module _ (c : Context) (separator : Text) where
    text_repeats :
        (xs ys : List (Element g)) (s t u : Loop g)
        → xs ≡ ys
        → s.element ≡ u.element
        → SameLoop g (check_text g chars (at_level fix c) separator xs s).element.equivs s t
        → Again u
            (check_text g chars (at_level fix c) separator xs s)
            (check_text g chars (at_level strict c) separator ys t)
    text_repeats xs ys s t u p q h =
        let (errors, element, agrees) = check_text-Settled g chars c separator xs s in
        let repaired = check_text g chars (at_level fix c) separator xs s in
        let settled : check_text g chars (at_level strict c) separator ys t ≡ t =
          ap (λ zs. check_text g chars (at_level strict c) separator zs t) (sym p)
          ∙ check_text_settled g chars c separator xs t (
              subst (λ e. differs (expected g chars c separator xs) (text_of g chars c e) ≡ false)
                (element ∙ h.1) agrees) in
        (
          element ∙ ap (λ (e : Element g). record e { equivs = repaired.element.equivs }) q,
          errors ∙ h.0 ∙ ap (λ (l : Loop g). l.errors) (sym settled),
          element ∙ h.1 ∙ ap (λ (l : Loop g). l.element) (sym settled),
        )

    inner_repeats :
        (xs ys : List (Element g)) (s t l u v : Loop g)
        → check_text g chars (at_level fix c) separator xs s ≡ u
        → check_text g chars (at_level strict c) separator ys t ≡ v
        → xs ≡ ys
        → s.element ≡ l.element
        → SameLoop g u.element.equivs s t
        → Again l u v
    inner_repeats xs ys s t l u v p q e f =
        subst (λ (x : Loop g). SameLoop g x.element.equivs s t → Again l x v) p
          (subst
            (λ (y : Loop g).
              SameLoop g (check_text g chars (at_level fix c) separator xs s).element.equivs s t
              → Again l (check_text g chars (at_level fix c) separator xs s) y)
            q (text_repeats xs ys s t l e f))

  module _ (c : Context) (poly : Option g.Polygon) where
    check_texts-Again :
        (xs ys : List (Checked g)) (s t : Loop g)
        → Pairwise (Same g) xs ys
        → SameLoop g (check_texts g chars (at_level fix c) poly xs s).element.equivs s t
        → Again s
            (check_texts g chars (at_level fix c) poly xs s)
            (check_texts g chars (at_level strict c) poly ys t)
    check_texts-Again xs ys s t r h =
        let es = (check_texts g chars (at_level fix c) poly xs s).element.equivs in
        elim (Option-cases (separator_of s.element.kind)) [
          | inl n ↦
              leaf_repeats s t _ _ (sym (check_texts_leaf (at_level fix c) poly xs s n))
                (sym (
                  check_texts_leaf (at_level strict c) poly ys t
                    (ap (λ e. separator_of e.kind) (sym h.1) ∙ n)))
                h
          | inr (separator, p) ↦
              let kind = s.element.kind in
              let arranged = arrange-Same g strict es (at_level fix c) kind xs ys r in
              let loops =
                check_baseline-Same g strict es (at_level fix c) poly _ _
                  (check_children-Same g strict es (at_level fix c) poly _ _ s t arranged h) in
              inner_repeats c separator _ _ _ _ s _ _
                (sym (check_texts_inner (at_level fix c) poly xs s separator kind refl p))
                (sym (
                  check_texts_inner (at_level strict c) poly ys t separator kind
                    (ap (λ (e : Element g). e.kind) h.1) p))
                (elements-Same g _ _ arranged)
                (check_baseline-element g (at_level fix c) poly _
                  ∙ check_children-element g (at_level fix c) poly _ s)
                loops
        ]

  -- What the check of an element returns.
  abbrev finished :
      Context
      → Option g.Polygon
      → List (Bool × List (Checked g))
      → List (Checked g)
      → Loop g
      → Checked g
  finished c poly groups children t =
      let u = check_texts g chars c poly children t in
      record {
        consistent = u.consistent;
        errors = u.errors;
        element = u.element;
        groups = groups_of g groups;
        children = nodes_of g children;
      }

  module _ (c : Context) (e : Element g) (groups : List (Bool × List (Checked g)))
      (children : List (Checked g)) where
    pub check_element_ok :
        (t : Loop g)
        → check_groups g c (check_polygon g c e).0 groups (check_polygon g c e).1 ≡ ok t
        → check_element g chars c e groups children
          ≡ ok (finished c (check_polygon g c e).0 groups children t)
    unfolding check_element
    check_element_ok t h = rw (h, check_element) refl

    pub check_element_err :
        (x : Exception)
        → check_groups g c (check_polygon g c e).0 groups (check_polygon g c e).1 ≡ err x
        → check_element g chars c e groups children ≡ err x
    unfolding check_element
    check_element_err x h = rw (h, check_element) refl

  module _ (c : Context) (e : Element g) where
    abbrev first_polygon : Option g.Polygon × Loop g
    first_polygon = check_polygon g (at_level fix c) e

    -- The element with other text results.
    abbrev pub Retexted : Element g → Type 0
    Retexted f = f ≡ record e { equivs = f.equivs }

    finished-Again :
        (gs hs : List (Bool × List (Checked g))) (xs ys : List (Checked g)) (t : Loop g)
        → Pairwise (SameGroup g) gs hs
        → Pairwise (Same g) xs ys
        → check_groups g (at_level fix c) first_polygon.0 gs first_polygon.1 ≡ ok t
        → (s : Checked g) × (check_element g chars
              (at_level strict c)
              (finished (at_level fix c) first_polygon.0 gs xs t).element
              hs
              ys
            ≡ ok s)
          × Same g (finished (at_level fix c) first_polygon.0 gs xs t) s
          × Retexted (finished (at_level fix c) first_polygon.0 gs xs t).element
          × (groups_of g gs ≡ groups_of g gs)
          × (nodes_of g xs ≡ nodes_of g xs)
    finished-Again gs hs xs ys t q r h =
        let (poly, start) = first_polygon in
        let u = check_texts g chars (at_level fix c) poly xs t in
        let es = u.element.equivs in
        let other : Element g = record e { equivs = es } in
        let (same_poly, same_start) = check_polygon-level g strict es (at_level fix c) e in
        let (v, returns, loops) =
          check_groups-Same g strict es (at_level fix c) poly gs hs start
            (check_polygon g (at_level strict c) other).1 t q same_start h in
        let (element, errors, same) = check_texts-Again c poly xs ys t v r loops in
        let kept : t.element ≡ e =
          check_groups-element g (at_level fix c) poly gs start t h
          ∙ check_polygon-element g (at_level fix c) e in
        let changed : u.element ≡ other =
          element ∙ ap (λ (f : Element g). record f { equivs = es }) kept in
        (
          finished (at_level strict c) poly hs ys v,
          ap (λ f. check_element g chars (at_level strict c) f hs ys) changed
              ∙ check_element_ok (at_level strict c) other hs ys v (
                  ap
                    (λ p.
                      check_groups g (at_level strict c) p hs
                        (check_polygon g (at_level strict c) other).1)
                    same_poly
                  ∙ returns)
              ∙ ap (λ p. ok (finished (at_level strict c) p hs ys v)) same_poly,
          (errors, same, groups_of-Same g gs hs q, nodes_of-Same g xs ys r),
          changed,
          refl,
          refl,
        )

    -- An element that is checked with `fix` and whose children are the same at the second check.
    pub check_element-Again :
        (gs hs : List (Bool × List (Checked g))) (xs ys : List (Checked g)) (r : Checked g)
        → Pairwise (SameGroup g) gs hs
        → Pairwise (Same g) xs ys
        → check_element g chars (at_level fix c) e gs xs ≡ ok r
        → (s : Checked g) × (check_element g chars (at_level strict c) r.element hs ys ≡ ok s)
          × Same g r s
          × Retexted r.element
          × (r.groups ≡ groups_of g gs)
          × (r.children ≡ nodes_of g xs)
    check_element-Again gs hs xs ys r q p h =
        elim (Result-cases (check_groups g (at_level fix c) first_polygon.0 gs first_polygon.1)) [
          | inl (t, k) ↦
              subst
                (λ (z : Checked g).
                  (s : Checked g) × (check_element g chars (at_level strict c) z.element hs ys
                    ≡ ok s)
                  × Same g z s
                  × Retexted z.element
                  × (z.groups ≡ groups_of g gs)
                  × (z.children ≡ nodes_of g xs))
                (ok_eq (sym (check_element_ok (at_level fix c) e gs xs t k) ∙ h))
                (finished-Again gs hs xs ys t q p k)
          | inr (x, k) ↦
              absurd (err_ne_ok (sym (check_element_err (at_level fix c) e gs xs x k) ∙ h))
        ]
