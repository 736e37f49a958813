-- ===== src/Validators/Texts/Strip.antt =====
-- What `strip` leaves: a text without space at its ends.
use ocr_d_core.Common.{
  lstrip, rstrip, strip, ℕ, List, [], ◌∷◌, ◌++◌, Text, ◌≡◌, refl, ap, ◌∙◌, arith,
}
use ocr_d_core.Validators.Texts.{Characters, join_texts, concatenate}

module _ (chars : Characters) where
  rstrip_idem :
      (t : Text) → rstrip chars.is_space (rstrip chars.is_space t) ≡ rstrip chars.is_space t
  unfolding rstrip
  rstrip_idem [] = refl
  rstrip_idem (c ∷ t) = ground (arith, rstrip_idem t)

  rstrip_tail :
      (c : ℕ) (t : Text) → rstrip chars.is_space (c ∷ t) ≡ c ∷ t → rstrip chars.is_space t ≡ t
  unfolding rstrip
  rstrip_tail c t h = ground arith

  rstrip-lstrip :
      (t : Text)
      → rstrip chars.is_space t ≡ t
      → rstrip chars.is_space (lstrip chars.is_space t) ≡ lstrip chars.is_space t
  unfolding rstrip lstrip
  rstrip-lstrip [] h = refl
  rstrip-lstrip (c ∷ t) h = ground (arith, rstrip-lstrip t, rstrip_tail c t h)

  lstrip_idem :
      (t : Text) → lstrip chars.is_space (lstrip chars.is_space t) ≡ lstrip chars.is_space t
  unfolding lstrip
  lstrip_idem [] = refl
  lstrip_idem (c ∷ t) = ground (arith, lstrip_idem t)

  pub strip_idem :
      (t : Text) → strip chars.is_space (strip chars.is_space t) ≡ strip chars.is_space t
  strip_idem t =
      ap (lstrip chars.is_space) (rstrip-lstrip (rstrip chars.is_space t) (rstrip_idem t))
      ∙ lstrip_idem (rstrip chars.is_space t)

  pub strip-concatenate :
      (joins : List (Text × Text)) (separator : Text) (elements : List (Text × Text))
      → strip chars.is_space (concatenate chars joins separator elements)
        ≡ concatenate chars joins separator elements
  unfolding concatenate lstrip rstrip
  strip-concatenate joins separator [] = refl
  strip-concatenate joins separator ((id, t) ∷ rest) =
      strip_idem (t ++ join_texts joins separator id rest)
