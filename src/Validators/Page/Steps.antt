-- ===== src/Validators/Page/Steps.antt =====
-- The steps of a validation that returns.
use ocr_d_core.Common.{
  Text, codes, Bool-cases, inl, inr, if◌then◌else◌, Bool, true, false, List, ◌∷◌, ◌≡◌, refl, ap,
  sym, ◌∙◌,
}
use ocr_d_core.Common.Exec.{Result, ok, err, ok_eq, err_ne_ok}
use ocr_d_core.Validators.Elements.{Geometry, TextEquiv, Kind, Element, Nodes, Groups}
use ocr_d_core.Validators.Texts.{Characters}
use ocr_d_core.Validators.Checks.{
  Error, Consistency, Context, Checked, is_glyph, enter, order_in, check_element,
}
use ocr_d_core.Validators.Checks.Repeat.{at_level}
use ocr_d_core.Validators.Page.{
  also, untouched, check_with, with_flag, validate_nodes, validate_groups, PcGts, report_of,
  validate_at, validate, is_part_of, strategy_of, consistency_of,
}

module _ {A : Type 0} where
  pub also-inv :
      (x : Result A) (others : Result (List A)) (zs : List A)
      → also x others ≡ ok zs
      → (a : A) × (rest : List A) × (x ≡ ok a) × (others ≡ ok rest) × (zs ≡ a ∷ rest)
  also-inv (ok a) (ok rest) zs h = (a, rest, refl, refl, sym (ok_eq h))
  also-inv (ok a) (err e) zs h = absurd (err_ne_ok h)
  also-inv (err e) others zs h = absurd (err_ne_ok h)

module _ (g : Geometry) where
  pub with_flag-inv :
      (b : Bool) (x : Result (List (Checked g))) (z : Bool × List (Checked g))
      → with_flag g b x ≡ ok z
      → (rs : List (Checked g)) × (x ≡ ok rs) × ((b, rs) ≡ z)
  with_flag-inv b (ok rs) z h = (rs, refl, ok_eq h)
  with_flag-inv b (err e) z h = absurd (err_ne_ok h)

  -- The level of consistency takes no part in what an element hands on, nor do the text results.
  pub order_in-at_level :
      (l : Consistency) (k : Kind) (e : Element g) (c : Context)
      → order_in g k e (at_level l c) ≡ at_level l (order_in g k e c)
  order_in-at_level l Kind.page e c = refl
  order_in-at_level l Kind.text_region e c = refl
  order_in-at_level l Kind.line e c = refl
  order_in-at_level l Kind.word e c = refl
  order_in-at_level l Kind.region e c = refl
  order_in-at_level l Kind.glyph e c = refl

  order_in_retexted :
      (k : Kind) (e : Element g) (es : List TextEquiv) (c : Context)
      → order_in g k (record e { equivs = es }) c ≡ order_in g k e c
  order_in_retexted Kind.page e es c = refl
  order_in_retexted Kind.text_region e es c = refl
  order_in_retexted Kind.line e es c = refl
  order_in_retexted Kind.word e es c = refl
  order_in_retexted Kind.region e es c = refl
  order_in_retexted Kind.glyph e es c = refl

  pub enter_again :
      (l : Consistency) (e f : Element g) (es : List TextEquiv) (c : Context)
      → f ≡ record e { equivs = es }
      → enter g f (at_level l c) ≡ at_level l (enter g e c)
  enter_again l e f es c h =
      ap (λ (x : Element g). enter g x (at_level l c)) h
      ∙ order_in_retexted e.kind e es (at_level l c)
      ∙ order_in-at_level l e.kind e c

module _ (g : Geometry) (chars : Characters) where
  pub check_with-inv :
      (c : Context) (e : Element g) (gs : Result (List (Bool × List (Checked g))))
      (xs : Result (List (Checked g))) (r : Checked g)
      → check_with g chars c e gs xs ≡ ok r
      → (hs : List (Bool × List (Checked g))) × (ys : List (Checked g)) × (gs ≡ ok hs)
        × (xs ≡ ok ys)
        × (check_element g chars c e hs ys ≡ ok r)
  check_with-inv c e (ok gs) (ok xs) r h = (gs, xs, refl, refl, h)
  check_with-inv c e (ok gs) (err x) r h = absurd (err_ne_ok h)
  check_with-inv c e (err x) xs r h = absurd (err_ne_ok h)

  pub validate_glyph :
      (c : Context) (e : Element g) (gs : Groups g) (ns rest : Nodes g)
      → is_glyph e.kind ≡ true
      → validate_nodes g chars c (Nodes.cons e gs ns rest)
        ≡ also (ok (untouched g e gs ns)) (validate_nodes g chars c rest)
  unfolding validate_nodes
  validate_glyph c e gs ns rest h =
      ap
        (λ b.
          also
            (if b
              then ok (untouched g e gs ns)
              else check_with g chars (enter g e c) e (validate_groups g chars (enter g e c) gs)
                  (validate_nodes g chars (enter g e c) ns))
            (validate_nodes g chars c rest))
        h

  pub validate_other :
      (c : Context) (e : Element g) (gs : Groups g) (ns rest : Nodes g)
      → is_glyph e.kind ≡ false
      → validate_nodes g chars c (Nodes.cons e gs ns rest)
        ≡ also
            (check_with g chars
              (enter g e c)
              e
              (validate_groups g chars (enter g e c) gs)
              (validate_nodes g chars (enter g e c) ns))
            (validate_nodes g chars c rest)
  unfolding validate_nodes
  validate_other c e gs ns rest h =
      ap
        (λ b.
          also
            (if b
              then ok (untouched g e gs ns)
              else check_with g chars (enter g e c) e (validate_groups g chars (enter g e c) gs)
                  (validate_nodes g chars (enter g e c) ns))
            (validate_nodes g chars c rest))
        h

  pub report_of-inv :
      (doc : PcGts g) (x : Result (Checked g)) (errors : List Error) (fixed : PcGts g)
      → report_of g chars doc x ≡ ok (errors, fixed)
      → (r : Checked g) × (x ≡ ok r)
        × (r.errors ≡ errors)
        × (record doc { page = r.element; regions = r.groups } ≡ fixed)
  report_of-inv doc (ok r) errors fixed h =
      (r, refl, ap (λ x. x.0) (ok_eq h), ap (λ x. x.1) (ok_eq h))
  report_of-inv doc (err x) errors fixed h = absurd (err_ne_ok h)

  module _ (name strategy : Text) (baseline coords : Bool) (doc : PcGts g) where
    pub validate_known :
        is_part_of strategy (codes "first") ≡ true
        → validate g chars name strategy baseline coords doc
          ≡ validate_at g chars (consistency_of name) (strategy_of strategy) baseline coords doc
    unfolding validate
    validate_known p = rw p refl

    pub validate-inv :
        (out : List Error × PcGts g)
        → validate g chars name strategy baseline coords doc ≡ ok out
        → is_part_of strategy (codes "first") ≡ true
    unfolding validate
    validate-inv out h = elim (Bool-cases (is_part_of strategy (codes "first"))) [
      | inl t ↦ t
      | inr f ↦ absurd (err_ne_ok (rw f at h))
    ]
