-- ===== src/Validators/Texts.antt =====
-- The text results of an element: get_text, set_text and concatenate of
-- src/ocrd_validators/page_validator.py.
pub mod Strip
pub mod Order
pub mod Equivs
use ocr_d_core.Common.{
  strip, ℕ, zero, suc, Bool, true, false, Option, none, some, List, [], ◌∷◌, ◌++◌, map, Text,
  nat_eq, list_eq, list_beq, if◌then◌else◌, ◌==◌, ltb, contains, keep_if, is_some, last_of, ◌&&◌,
  Eq, not,
}
use ocr_d_core.Common.Sort.{sort_by}
use ocr_d_core.Validators.Elements.{TextEquiv}

-- Python's tests of characters and of the numbers that are written in attributes: `isspace`, and
-- `float(a) < float(b)`.
pub record Characters : Type 0 where
  pub is_space : ℕ → Bool
  pub float_lt : Text → Text → Bool

pub data Strategy : Type 0 where
  first best : Strategy

-- `pair in joins`
unfoldable pub contains_pair : Text × Text → List (Text × Text) → Bool
contains_pair p [] = false
contains_pair p (q ∷ joins) =
    let rest = contains_pair p joins in if (p.0 == q.0) && (p.1 == q.1) then true else rest

-- The text results with their positions.
unfoldable pub enumerate_from : ℕ → List TextEquiv → List (ℕ × TextEquiv)
enumerate_from n [] = []
enumerate_from n (e ∷ es) = (n, e) ∷ enumerate_from (suc n) es

abbrev pub index_lt : Option ℕ → Option ℕ → Bool
index_lt (some i) (some j) = ltb i j
index_lt _ _ = false

-- `x.conf` of a text result that has one that is not empty
abbrev pub has_conf : Option Text → Bool
has_conf none = false
has_conf (some []) = false
has_conf (some (c ∷ t)) = true

abbrev pub head_position : List (ℕ × TextEquiv) → ℕ
head_position [] = 0
head_position (e ∷ es) = e.0

abbrev pub last_position : List (ℕ × TextEquiv) → ℕ
last_position es = elim (last_of es) [ none ↦ 0 | some e ↦ e.0 ]

unfoldable pub unicode_at : ℕ → List TextEquiv → Text
unicode_at n [] = []
unicode_at zero (e ∷ es) = e.unicode
unicode_at (suc n) (e ∷ es) = unicode_at n es

unfoldable pub set_unicode_at : ℕ → Text → List TextEquiv → List TextEquiv
set_unicode_at n t [] = []
set_unicode_at zero t (e ∷ es) = record e { unicode = t } ∷ es
set_unicode_at (suc n) t (e ∷ es) = e ∷ set_unicode_at n t es

-- What follows the first text: the separator, unless the two elements are joined, and the text.
unfoldable pub join_texts : List (Text × Text) → Text → Text → List (Text × Text) → Text
join_texts joins separator id [] = []
join_texts joins separator id ((next, t) ∷ rest) =
    (if contains_pair (id, next) joins then t else separator ++ t)
    ++ join_texts joins separator next rest

module _ (chars : Characters) where
  -- `compare_without_whitespace`
  unfoldable pub compare_without_whitespace : Text → Text → Bool
  compare_without_whitespace a b =
      keep_if (λ c. not (chars.is_space c)) a == keep_if (λ c. not (chars.is_space c)) b

  abbrev pub conf_lt : Option Text → Option Text → Bool
  conf_lt (some a) (some b) = chars.float_lt a b
  conf_lt _ _ = false

  -- `textEquivsSorted`
  unfoldable pub sorted_equivs : Strategy → List (ℕ × TextEquiv) → List (ℕ × TextEquiv)
  sorted_equivs first es =
      sort_by (λ a b. index_lt a.1.index b.1.index) [] (keep_if (λ e. is_some e.1.index) es)
  sorted_equivs best es =
      sort_by (λ a b. conf_lt a.1.conf b.1.conf) [] (keep_if (λ e. has_conf e.1.conf) es)

  -- The position of the text result that is meant, the first one if nothing is sorted.
  unfoldable pub position : Strategy → List TextEquiv → ℕ
  position strategy [] = 0
  position strategy (e ∷ []) = 0
  position first (e ∷ f ∷ es) = head_position (sorted_equivs first (enumerate_from 0 (e ∷ f ∷ es)))
  position best (e ∷ f ∷ es) = last_position (sorted_equivs best (enumerate_from 0 (e ∷ f ∷ es)))

  unfoldable pub get_text : Strategy → List TextEquiv → Text
  get_text strategy [] = []
  get_text strategy (e ∷ es) =
      strip chars.is_space (unicode_at (position strategy (e ∷ es)) (e ∷ es))

  unfoldable pub set_text : Strategy → Text → List TextEquiv → List TextEquiv
  set_text strategy t [] =
      (record { index = none; conf = none; unicode = strip chars.is_space t }) ∷ []
  set_text strategy t (e ∷ es) =
      set_unicode_at (position strategy (e ∷ es)) (strip chars.is_space t) (e ∷ es)

  -- `concatenate`, on the ids and the texts of the elements
  unfoldable pub concatenate : List (Text × Text) → Text → List (Text × Text) → Text
  concatenate joins separator [] = []
  concatenate joins separator ((id, t) ∷ rest) =
      strip chars.is_space (t ++ join_texts joins separator id rest)
