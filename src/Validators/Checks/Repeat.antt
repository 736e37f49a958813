-- ===== src/Validators/Checks/Repeat.antt =====
-- One element checked twice, with two levels of consistency: what does not depend on the level.
use ocr_d_core.Common.{
  Bool, true, false, ◌&&◌, ◌||◌, not, subst, Option, List, [], ◌∷◌, ◌++◌, map, Text, if◌then◌else◌,
  ◌≡◌, refl, ap, sym, ◌∙◌, arith, Bool-cases, Option-cases, inl, inr,
}
use ocr_d_core.Common.Exec.{Exception, Result, ok, err, Result-cases, ok_eq, err_ne_ok}
use ocr_d_core.Validators.Elements.{
  Geometry, TextEquiv, Kind, Element, Made-cases, make_poly, make_line,
}
use ocr_d_core.Validators.Texts.Order.{Pairwise}
use ocr_d_core.Validators.Order.{reversed}
use ocr_d_core.Validators.Checks.Ordered.{Keyed, Outcome, in_reading_order-Keyed}
use ocr_d_core.Validators.Checks.{
  Consistency, Context, Checked, Error, Loop, check_polygon, check_children, check_baseline,
  check_groups, arrange_group, arrange, is_line, add_error, outside, is_within, is_line_within,
}

abbrev pub at_level : Consistency → Context → Context
at_level level c = record c { consistency = level }

module _ (g : Geometry) where
  -- Two validations of one element that report and leave the same.
  abbrev pub Same : Checked g → Checked g → Type 0
  Same r s =
      (r.errors ≡ s.errors)
      × (r.element ≡ s.element)
      × (r.groups ≡ s.groups)
      × (r.children ≡ s.children)

  abbrev pub SameGroup : Bool × List (Checked g) → Bool × List (Checked g) → Type 0
  SameGroup a b = (a.0 ≡ b.0) × Pairwise Same a.1 b.1

  -- Two states of which the second has other text results.
  abbrev pub SameLoop : List TextEquiv → Loop g → Loop g → Type 0
  SameLoop es s t = (s.errors ≡ t.errors) × (record s.element { equivs = es } ≡ t.element)

pair_path : {A B : Type 0} {a b : A} {c d : B} → a ≡ b → c ≡ d → ◌≡◌ {A = A × B} (a, c) (b, d)
pair_path p q = cc

module _ (g : Geometry) where
  pub check_groups_ok :
      (c : Context) (poly : Option g.Polygon) (b : Bool) (x found : List (Checked g))
      (xs : List (Bool × List (Checked g))) (s : Loop g)
      → arrange_group g c b x ≡ ok found
      → check_groups g c poly ((b, x) ∷ xs) s
        ≡ check_groups g c poly xs (check_children g c poly found s)
  unfolding check_groups
  check_groups_ok c poly b x found xs s h = rw (h, check_groups) refl

  pub check_groups_err :
      (c : Context) (poly : Option g.Polygon) (b : Bool) (x : List (Checked g))
      (xs : List (Bool × List (Checked g))) (s : Loop g) (e : Exception)
      → arrange_group g c b x ≡ err e
      → check_groups g c poly ((b, x) ∷ xs) s ≡ err e
  unfolding check_groups
  check_groups_err c poly b x xs s e h = rw (h, check_groups) refl

module _ (g : Geometry) (level : Consistency) (es : List TextEquiv) where
  pub check_polygon-level :
      (c : Context) (e : Element g)
      → ((check_polygon g (at_level level c) (record e { equivs = es })).0
          ≡ (check_polygon g c e).0)
        × SameLoop g es
            (check_polygon g c e).1
            (check_polygon g (at_level level c) (record e { equivs = es })).1
  unfolding check_polygon
  check_polygon-level c e = elim (Bool-cases (c.check_coords || c.check_baseline)) [
    | inl t ↦ elim (Option-cases e.points) [
      | inl n ↦ rw (t, n, check_polygon) (refl, (refl, refl))
      | inr (points, p) ↦ elim (Made-cases (make_poly g points)) [
        | inl (poly, m) ↦ rw (t, p, m, check_polygon) (refl, (refl, refl))
        | inr (reason, m) ↦ rw (t, p, m, check_polygon) (refl, (refl, refl))
      ]
    ]
    | inr f ↦ rw (f, check_polygon) (refl, (refl, refl))
  ]

  add_if-Same :
      (b d : Bool) (x y : Error) (s t : Loop g)
      → b ≡ d
      → x ≡ y
      → SameLoop g es s t
      → SameLoop g es (if b then add_error g x s else s) (if d then add_error g y t else t)
  add_if-Same true d x y s t p q h = rw (sym p) (ap (λ e. e.0 ++ e.1 ∷ []) (pair_path h.0 q), h.1)
  add_if-Same false d x y s t p q h = rw (sym p) h

  pub check_children-Same :
      (c : Context) (poly : Option g.Polygon) (xs ys : List (Checked g)) (s t : Loop g)
      → Pairwise (Same g) xs ys
      → SameLoop g es s t
      → SameLoop g es (check_children g c poly xs s) (check_children g (at_level level c) poly ys t)
  unfolding check_children
  check_children-Same c poly [] [] s t r h = h
  check_children-Same c poly (x ∷ xs) [] s t r h = absurd r
  check_children-Same c poly [] (y ∷ ys) s t r h = absurd r
  check_children-Same c poly (x ∷ xs) (y ∷ ys) s t r h = check_children-Same c poly xs ys _ _ r.1 (
      add_if-Same (c.check_coords && not (is_within g poly x.element)) _ _ _ _ _
        (ap (λ e. c.check_coords && not (is_within g poly e)) r.0.1)
        (ap (λ e. outside e.tag e.id) r.0.1) (ap (λ e. e.0 ++ e.1) (pair_path h.0 r.0.0), h.1))

  check_baseline_at :
      (c : Context) (poly : Option g.Polygon) (b d : Bool) (errors : List Error) (e : Element g)
      → SameLoop g es
          (check_baseline g c poly (record { consistent = b; errors = errors; element = e }))
          (check_baseline g
            (at_level level c)
            poly
            (record { consistent = d; errors = errors; element = record e { equivs = es } }))
  unfolding check_baseline
  check_baseline_at c poly b d errors e = elim (Bool-cases (is_line e.kind && c.check_baseline)) [
    | inl t ↦ elim (Option-cases e.baseline) [
      | inl n ↦ rw (t, n) (refl, refl)
      | inr (points, p) ↦ elim (Made-cases (make_line g points)) [
        | inl (line, m) ↦ elim (Bool-cases (is_line_within g poly line)) [
          | inl w ↦ rw (t, p, m, w) (refl, refl)
          | inr w ↦ rw (t, p, m, w) (refl, refl)
        ]
        | inr (reason, m) ↦ rw (t, p, m) (refl, refl)
      ]
    ]
    | inr f ↦ rw f (refl, refl)
  ]

  pub check_baseline-Same :
      (c : Context) (poly : Option g.Polygon) (s t : Loop g)
      → SameLoop g es s t
      → SameLoop g es (check_baseline g c poly s) (check_baseline g (at_level level c) poly t)
  check_baseline-Same c poly s t h =
      subst
        (λ x. SameLoop g es (check_baseline g c poly s) (
          check_baseline g (at_level level c) poly
            (record { consistent = t.consistent; errors = x.0; element = x.1 })))
        (pair_path h.0 h.1) (check_baseline_at c poly s.consistent t.consistent s.errors s.element)

  Pairwise-append :
      (xs ys zs ws : List (Checked g))
      → Pairwise (Same g) xs ys
      → Pairwise (Same g) zs ws
      → Pairwise (Same g) (xs ++ zs) (ys ++ ws)
  Pairwise-append [] [] zs ws r q = q
  Pairwise-append (x ∷ xs) [] zs ws r q = absurd r
  Pairwise-append [] (y ∷ ys) zs ws r q = absurd r
  Pairwise-append (x ∷ xs) (y ∷ ys) zs ws r q = (r.0, Pairwise-append xs ys zs ws r.1 q)

  reversed-Pairwise :
      (xs ys : List (Checked g))
      → Pairwise (Same g) xs ys
      → Pairwise (Same g) (reversed xs) (reversed ys)
  unfolding reversed
  reversed-Pairwise [] [] r = tt
  reversed-Pairwise (x ∷ xs) [] r = absurd r
  reversed-Pairwise [] (y ∷ ys) r = absurd r
  reversed-Pairwise (x ∷ xs) (y ∷ ys) r =
      Pairwise-append (reversed xs) (reversed ys) _ _ (reversed-Pairwise xs ys r.1) (r.0, tt)

  pub arrange-Same :
      (c : Context) (kind : Kind) (xs ys : List (Checked g))
      → Pairwise (Same g) xs ys
      → Pairwise (Same g) (arrange g c kind xs) (arrange g (at_level level c) kind ys)
  unfolding arrange
  arrange-Same c kind xs ys r = ground (arith, reversed-Pairwise xs ys r)

  with_ids :
      (xs ys : List (Checked g))
      → Pairwise (Same g) xs ys
      → Pairwise
          (Keyed (Same g) {K = Text})
          (map (λ x. (x.element.id, x)) xs)
          (map (λ y. (y.element.id, y)) ys)
  with_ids [] [] r = tt
  with_ids (x ∷ xs) [] r = absurd r
  with_ids [] (y ∷ ys) r = absurd r
  with_ids (x ∷ xs) (y ∷ ys) r = ((ap (λ e. e.id) r.0.1, r.0), with_ids xs ys r.1)

  arrange_group-Same :
      (c : Context) (is_text : Bool) (xs ys : List (Checked g))
      → Pairwise (Same g) xs ys
      → Outcome
          (Same g)
          (Same g)
          (arrange_group g c is_text xs)
          (arrange_group g (at_level level c) is_text ys)
  arrange_group-Same c true xs ys r =
      in_reading_order-Keyed (Same g) c.reading_order _ _ (with_ids xs ys r)
  arrange_group-Same c false xs ys r = r

  Outcome-ok :
      (xs ys : Result (List (Checked g))) (zs : List (Checked g))
      → Outcome (Same g) (Same g) xs ys
      → xs ≡ ok zs
      → (ws : List (Checked g)) × (ys ≡ ok ws) × Pairwise (Same g) zs ws
  Outcome-ok (ok xs) (ok ys) zs r h = (ys, refl, subst (λ l. Pairwise (Same g) l ys) (ok_eq h) r)
  Outcome-ok (ok xs) (err e) zs r h = absurd r
  Outcome-ok (err e) ys zs r h = absurd (ground arith)

  pub check_groups-Same :
      (c : Context) (poly : Option g.Polygon) (xs ys : List (Bool × List (Checked g)))
      (s t u : Loop g)
      → Pairwise (SameGroup g) xs ys
      → SameLoop g es s t
      → check_groups g c poly xs s ≡ ok u
      → (v : Loop g) × (check_groups g (at_level level c) poly ys t ≡ ok v) × SameLoop g es u v
  unfolding check_groups
  check_groups-Same c poly [] [] s t u r h e = (t, refl, subst (λ l. SameLoop g es l t) (ok_eq e) h)
  check_groups-Same c poly (x ∷ xs) [] s t u r h e = absurd r
  check_groups-Same c poly [] (y ∷ ys) s t u r h e = absurd r
  check_groups-Same c poly ((b, x) ∷ xs) ((d, y) ∷ ys) s t u r h e =
      let found = arrange_group-Same c b x y r.0.1 in
      elim (Result-cases (arrange_group g c b x)) [
        | inl (zs, p) ↦
            let (ws, q, related) = Outcome-ok _ _ zs found p in
            let (v, returns, same) =
              check_groups-Same c poly xs ys _ _ u r.1
                (check_children-Same c poly zs ws s t related h)
                (sym (check_groups_ok g c poly b x zs xs s p) ∙ e) in
            (
              v,
              ap (λ k. check_groups g (at_level level c) poly ((k, y) ∷ ys) t) (sym r.0.0)
                  ∙ check_groups_ok g (at_level level c) poly b y ws ys t q
                  ∙ returns,
              same,
            )
        | inr (x', p) ↦ absurd (err_ne_ok (sym (check_groups_err g c poly b x xs s x' p) ∙ e))
      ]
