-- ===== src/Validators/Checks/Fixed.antt =====
-- An element whose text is repaired has the text of its children.
use ocr_d_core.Common.{
  false, List, [], ◌∷◌, map, Text, beq_refl, if_either, nat_eq, list_eq, ◌≡◌, refl, ap, ◌∙◌,
  true_ne_false,
}
use ocr_d_core.Validators.Elements.{Geometry, TextEquiv, Element}
use ocr_d_core.Validators.Texts.{Characters, get_text, set_text, concatenate}
use ocr_d_core.Validators.Texts.Strip.{strip-concatenate}
use ocr_d_core.Validators.Texts.Equivs.{get_text-set_text}
use ocr_d_core.Validators.Checks.{
  strict, fix, Context, Loop, differs, text_of, check_text, report_text,
}
use ocr_d_core.Validators.Checks.Repeat.{at_level}

differs_self : (t : Text) → differs t t ≡ false
differs_self [] = refl
differs_self (c ∷ t) = rw (beq_refl (c ∷ t)) refl

module _ (g : Geometry) (chars : Characters) (c : Context) (separator : Text)
    (children : List (Element g)) where
  abbrev pub expected : Text
  expected = concatenate chars c.joins separator (map (λ e. (e.id, text_of g chars c e)) children)

  -- What the repair leaves: other text results, which agree with the children.
  abbrev pub Settled : Loop g → Loop g → Type 0
  Settled s u =
      (u.errors ≡ s.errors)
      × (u.element ≡ record s.element { equivs = u.element.equivs })
      × (differs expected (text_of g chars c u.element) ≡ false)

  repaired_text :
      (es : List TextEquiv)
      → get_text chars c.strategy (set_text chars c.strategy expected es) ≡ expected
  repaired_text es =
      get_text-set_text chars c.strategy expected es
      ∙ strip-concatenate chars c.joins separator (map (λ e. (e.id, text_of g chars c e)) children)

  pub check_text-Settled :
      (s : Loop g) → Settled s (check_text g chars (at_level fix c) separator children s)
  unfolding check_text report_text
  check_text-Settled s =
      if_either (Settled s) (differs expected (text_of g chars c s.element)) _ s
        (λ t. (
          refl,
          refl,
          ap (differs expected) (repaired_text s.element.equivs) ∙ differs_self expected,
        ))
        (λ f. (refl, refl, f))

  pub check_text_settled :
      (s : Loop g)
      → differs expected (text_of g chars c s.element) ≡ false
      → check_text g chars (at_level strict c) separator children s ≡ s
  unfolding check_text
  check_text_settled s h =
      if_either (λ x. x ≡ s) (differs expected (text_of g chars c s.element)) _ s
        (λ t. absurd (true_ne_false t h)) (λ f. refl)
