-- ===== src/Validators/Texts/Equivs.antt =====
-- get_text and set_text of src/ocrd_validators/page_validator.py choose the same text result.
use ocr_d_core.Common.{
  lstrip, rstrip, strip, ℕ, zero, suc, ◌+◌, ◌<◌, ◌≤◌, List, [], ◌∷◌, Text, length, ◌≡◌, refl, ap,
  sym, ◌∙◌, arith,
}
use ocr_d_core.Validators.Elements.{TextEquiv}
use ocr_d_core.Validators.Texts.{
  Characters, Strategy, first, best, enumerate_from, sorted_equivs, head_position, last_position,
  position, unicode_at, set_unicode_at, get_text, set_text,
}
use ocr_d_core.Validators.Texts.Strip.{strip_idem}
use ocr_d_core.Validators.Texts.Order.{Pairwise, keep_if-Pairwise, sort_by-Pairwise}

-- Two text results at one position below a bound that differ in their text only.
abbrev Alike : ℕ → ℕ × TextEquiv → ℕ × TextEquiv → Type 0
Alike n a b = (a.0 ≡ b.0) × (a.0 < n) × (a.1.index ≡ b.1.index) × (a.1.conf ≡ b.1.conf)

module _ (n : ℕ) where
  enumerate_from-Alike :
      (base : ℕ) (es : List TextEquiv)
      → base + length es ≤ n
      → Pairwise (Alike n) (enumerate_from base es) (enumerate_from base es)
  unfolding enumerate_from
  enumerate_from-Alike base [] h = tt
  enumerate_from-Alike base (e ∷ es) h =
      ((refl, omega arith, refl, refl), enumerate_from-Alike (suc base) es (omega arith))

  enumerate-set_unicode_at :
      (k : ℕ) (t : Text) (base : ℕ) (es : List TextEquiv)
      → base + length es ≤ n
      → Pairwise (Alike n) (enumerate_from base es) (enumerate_from base (set_unicode_at k t es))
  unfolding enumerate_from set_unicode_at
  enumerate-set_unicode_at k t base [] h = tt
  enumerate-set_unicode_at zero t base (e ∷ es) h =
      ((refl, omega arith, refl, refl), enumerate_from-Alike (suc base) es (omega arith))
  enumerate-set_unicode_at (suc k) t base (e ∷ es) h =
      ((refl, omega arith, refl, refl), enumerate-set_unicode_at k t (suc base) es (omega arith))

  head_position-Alike :
      (xs ys : List (ℕ × TextEquiv))
      → Pairwise (Alike n) xs ys
      → 0 < n
      → (head_position ys ≡ head_position xs) × (head_position xs < n)
  head_position-Alike [] [] r h = (refl, h)
  head_position-Alike [] (y ∷ ys) r h = absurd r
  head_position-Alike (x ∷ xs) [] r h = absurd r
  head_position-Alike (x ∷ xs) (y ∷ ys) r h = (sym r.0.0, r.0.1)

  last_position-Alike :
      (xs ys : List (ℕ × TextEquiv))
      → Pairwise (Alike n) xs ys
      → 0 < n
      → (last_position ys ≡ last_position xs) × (last_position xs < n)
  last_position-Alike [] [] r h = (refl, h)
  last_position-Alike [] (y ∷ ys) r h = absurd r
  last_position-Alike (x ∷ xs) [] r h = absurd r
  last_position-Alike (x ∷ []) (y ∷ []) r h = (sym r.0.0, r.0.1)
  last_position-Alike (x ∷ []) (y ∷ z ∷ ys) r h = absurd r.1
  last_position-Alike (x ∷ w ∷ xs) (y ∷ []) r h = absurd r.1
  last_position-Alike (x ∷ w ∷ xs) (y ∷ z ∷ ys) r h = last_position-Alike (w ∷ xs) (z ∷ ys) r.1 h

module _ (chars : Characters) (n : ℕ) where
  sorted_equivs-Alike :
      (strategy : Strategy) (xs ys : List (ℕ × TextEquiv))
      → Pairwise (Alike n) xs ys
      → Pairwise (Alike n) (sorted_equivs chars strategy xs) (sorted_equivs chars strategy ys)
  unfolding sorted_equivs
  sorted_equivs-Alike first xs ys r =
      sort_by-Pairwise (Alike n) _ _ (λ a b c d r s. cc) [] [] _ _ tt
        (keep_if-Pairwise (Alike n) _ _ (λ a b r. cc) xs ys r)
  sorted_equivs-Alike best xs ys r =
      sort_by-Pairwise (Alike n) _ _ (λ a b c d r s. cc) [] [] _ _ tt
        (keep_if-Pairwise (Alike n) _ _ (λ a b r. cc) xs ys r)

module _ (chars : Characters) where
  -- The position among several text results.
  abbrev chosen : Strategy → List TextEquiv → ℕ
  chosen first es = head_position (sorted_equivs chars first (enumerate_from 0 es))
  chosen best es = last_position (sorted_equivs chars best (enumerate_from 0 es))

  chosen-set_unicode_at :
      (strategy : Strategy) (k : ℕ) (t : Text) (es : List TextEquiv)
      → 0 < length es
      → (chosen strategy (set_unicode_at k t es) ≡ chosen strategy es)
        × (chosen strategy es < length es)
  chosen-set_unicode_at first k t es h =
      head_position-Alike (length es) _ _
        (sorted_equivs-Alike chars (length es) first _ _
          (enumerate-set_unicode_at (length es) k t 0 es (omega arith)))
        h
  chosen-set_unicode_at best k t es h =
      last_position-Alike (length es) _ _
        (sorted_equivs-Alike chars (length es) best _ _
          (enumerate-set_unicode_at (length es) k t 0 es (omega arith)))
        h

  position_two :
      (strategy : Strategy) (e f : TextEquiv) (es : List TextEquiv)
      → position chars strategy (e ∷ f ∷ es) ≡ chosen strategy (e ∷ f ∷ es)
  unfolding position
  position_two first e f es = refl
  position_two best e f es = refl

  position_set_two :
      (strategy : Strategy) (k : ℕ) (t : Text) (e f : TextEquiv) (es : List TextEquiv)
      → position chars strategy (set_unicode_at k t (e ∷ f ∷ es))
        ≡ chosen strategy (set_unicode_at k t (e ∷ f ∷ es))
  unfolding set_unicode_at
  position_set_two strategy zero t e f es = position_two strategy _ f es
  position_set_two strategy (suc zero) t e f es = position_two strategy e _ es
  position_set_two strategy (suc (suc k)) t e f es = position_two strategy e f _

  position_set_one :
      (strategy : Strategy) (k : ℕ) (t : Text) (e : TextEquiv)
      → position chars strategy (set_unicode_at k t (e ∷ [])) ≡ 0
  unfolding set_unicode_at position
  position_set_one strategy zero t e = refl
  position_set_one strategy (suc k) t e = refl

  position_one : (strategy : Strategy) (e : TextEquiv) → position chars strategy (e ∷ []) ≡ 0
  unfolding position
  position_one strategy e = refl

  -- The position exists, and does not depend on the text there.
  position-set_unicode_at :
      (strategy : Strategy) (k : ℕ) (t : Text) (e : TextEquiv) (es : List TextEquiv)
      → (position chars strategy (set_unicode_at k t (e ∷ es)) ≡ position chars strategy (e ∷ es))
        × (position chars strategy (e ∷ es) < length (e ∷ es))
  position-set_unicode_at strategy k t e [] = (
    position_set_one strategy k t e ∙ sym (position_one strategy e),
    omega (arith, position_one strategy e),
  )
  position-set_unicode_at strategy k t e (f ∷ es) =
      let two = position_two strategy e f es in
      let c = chosen-set_unicode_at strategy k t (e ∷ f ∷ es) (omega arith) in
      (position_set_two strategy k t e f es ∙ c.0 ∙ sym two, rw two c.1)

  unicode_at-set_unicode_at :
      (n : ℕ) (t : Text) (es : List TextEquiv)
      → n < length es
      → unicode_at n (set_unicode_at n t es) ≡ t
  unfolding unicode_at set_unicode_at
  unicode_at-set_unicode_at n t [] h = absurd (omega arith)
  unicode_at-set_unicode_at zero t (e ∷ es) h = refl
  unicode_at-set_unicode_at (suc n) t (e ∷ es) h = unicode_at-set_unicode_at n t es (omega arith)

  get_text_at :
      (strategy : Strategy) (es : List TextEquiv)
      → get_text chars strategy es
        ≡ strip chars.is_space (unicode_at (position chars strategy es) es)
  unfolding get_text position unicode_at lstrip rstrip
  get_text_at strategy [] = refl
  get_text_at strategy (e ∷ es) = refl

  get_text-set_unicode_at :
      (strategy : Strategy) (t : Text) (e : TextEquiv) (es : List TextEquiv)
      → get_text chars strategy
          (set_unicode_at (position chars strategy (e ∷ es)) (strip chars.is_space t) (e ∷ es))
        ≡ strip chars.is_space t
  get_text-set_unicode_at strategy t e es =
      let p = position chars strategy (e ∷ es) in
      let (same, bound) = position-set_unicode_at strategy p (strip chars.is_space t) e es in
      get_text_at strategy (set_unicode_at p (strip chars.is_space t) (e ∷ es))
      ∙ ap
          (λ n.
            strip chars.is_space
              (unicode_at n (set_unicode_at p (strip chars.is_space t) (e ∷ es))))
          same
      ∙ ap (strip chars.is_space)
          (unicode_at-set_unicode_at p (strip chars.is_space t) (e ∷ es) bound)
      ∙ strip_idem chars t

  get_text_one :
      (strategy : Strategy) (e : TextEquiv)
      → get_text chars strategy (e ∷ []) ≡ strip chars.is_space e.unicode
  unfolding get_text position unicode_at
  get_text_one strategy e = refl

  pub get_text-set_text :
      (strategy : Strategy) (t : Text) (es : List TextEquiv)
      → get_text chars strategy (set_text chars strategy t es) ≡ strip chars.is_space t
  unfolding set_text
  get_text-set_text strategy t [] = get_text_one strategy _ ∙ strip_idem chars t
  get_text-set_text strategy t (e ∷ es) = get_text-set_unicode_at strategy t e es
