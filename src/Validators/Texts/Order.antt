-- ===== src/Validators/Texts/Order.antt =====
-- Lists that are related element by element, and how sorting keeps the relation.
use ocr_d_core.Common.{Bool, List, [], ◌∷◌, keep_if, ◌≡◌, arith}
use ocr_d_core.Common.Sort.{insert_by, sort_by}

module _ {A B : Type 0} (R : A → B → Type 0) where
  abbrev pub Pairwise : List A → List B → Type 0
  Pairwise [] [] = Unit
  Pairwise (x ∷ xs) (y ∷ ys) = R x y × Pairwise xs ys
  Pairwise _ _ = ⊥

  pub keep_if-Pairwise :
      (p : A → Bool) (q : B → Bool)
      → ((a : A) (b : B) → R a b → p a ≡ q b)
      → (xs : List A) (ys : List B) → Pairwise xs ys
      → Pairwise (keep_if p xs) (keep_if q ys)
  unfolding keep_if
  keep_if-Pairwise p q h [] [] r = tt
  keep_if-Pairwise p q h (x ∷ xs) [] r = absurd r
  keep_if-Pairwise p q h [] (y ∷ ys) r = absurd r
  keep_if-Pairwise p q h (x ∷ xs) (y ∷ ys) r =
      ground (arith, h x y r.0, keep_if-Pairwise p q h xs ys r.1)

  module _ (lt : A → A → Bool) (lt' : B → B → Bool)
      (h : (a b : A) (c d : B) → R a c → R b d → lt a b ≡ lt' c d) where
    insert_by-Pairwise :
        (x : A) (y : B) (xs : List A) (ys : List B)
        → R x y
        → Pairwise xs ys
        → Pairwise (insert_by lt x xs) (insert_by lt' y ys)
    unfolding insert_by
    insert_by-Pairwise x y [] [] r rs = (r, rs)
    insert_by-Pairwise x y (a ∷ xs) [] r rs = absurd rs
    insert_by-Pairwise x y [] (b ∷ ys) r rs = absurd rs
    insert_by-Pairwise x y (a ∷ xs) (b ∷ ys) r rs =
        ground (arith, h x a y b r rs.0, insert_by-Pairwise x y xs ys r rs.1)

    pub sort_by-Pairwise :
        (sorted : List A) (sorted' : List B) (xs : List A) (ys : List B)
        → Pairwise sorted sorted'
        → Pairwise xs ys
        → Pairwise (sort_by lt sorted xs) (sort_by lt' sorted' ys)
    unfolding sort_by
    sort_by-Pairwise sorted sorted' [] [] rs r = rs
    sort_by-Pairwise sorted sorted' (x ∷ xs) [] rs r = absurd r
    sort_by-Pairwise sorted sorted' [] (y ∷ ys) rs r = absurd r
    sort_by-Pairwise sorted sorted' (x ∷ xs) (y ∷ ys) rs r =
        sort_by-Pairwise (insert_by lt x sorted) (insert_by lt' y sorted') xs ys
          (insert_by-Pairwise x y sorted sorted' r.0 rs) r.1
