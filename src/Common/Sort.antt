-- ===== src/Common/Sort.antt =====
-- Python's `sorted`, as a stable insertion.
use mathlib.Core.Bool.{Bool}
use mathlib.Core.List.{List, [], ◌∷◌}
use ocr_d_core.Common.Tests.{if◌then◌else◌}

module _ {A : Type 0} where
  unfoldable pub insert_by : (A → A → Bool) → A → List A → List A
  insert_by lt x [] = x ∷ []
  insert_by lt x (y ∷ ys) = let rest = insert_by lt x ys in if lt x y then x ∷ y ∷ ys else y ∷ rest

  unfoldable pub sort_by : (A → A → Bool) → List A → List A → List A
  sort_by lt sorted [] = sorted
  sort_by lt sorted (x ∷ xs) = sort_by lt (insert_by lt x sorted) xs
