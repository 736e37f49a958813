-- ===== src/Validators/Checks/Ordered.antt =====
-- The reading order of children that are validated twice.
use ocr_d_core.Common.{
  ℕ, Bool, true, false, Option, none, some, List, [], ◌∷◌, map, Text, if◌then◌else◌, ◌≡◌, refl, ap,
  sym, nat_eq, list_eq, option_eq,
}
use ocr_d_core.Common.Dict.{Dict, get}
use ocr_d_core.Common.Exec.{Result, ok, err}
use ocr_d_core.Validators.Texts.Order.{Pairwise, sort_by-Pairwise}
use ocr_d_core.Validators.Order.{
  Place, index_of, all_placed, is_sorted_group, with_index, add_index, sort_children,
  in_reading_order,
}

module _ {A : Type 0} (R : A → A → Type 0) where
  -- What is paired with equal keys.
  abbrev pub Keyed : {K : Type 0} → K × A → K × A → Type 0
  Keyed a b = (a.0 ≡ b.0) × R a.1 b.1

  -- Results that are both lists, related, or both the same exception.
  abbrev pub Outcome : {B : Type 0} → (B → B → Type 0) → Result (List B) → Result (List B) → Type 0
  Outcome S (ok xs) (ok ys) = Pairwise S xs ys
  Outcome S (err e) (err f) = e ≡ f
  Outcome S _ _ = ⊥

  map-Keyed :
      {K : Type 0} (xs ys : List (K × A))
      → Pairwise Keyed xs ys
      → Pairwise R (map (λ x. x.1) xs) (map (λ x. x.1) ys)
  map-Keyed [] [] r = tt
  map-Keyed (x ∷ xs) [] r = absurd r
  map-Keyed [] (y ∷ ys) r = absurd r
  map-Keyed (x ∷ xs) (y ∷ ys) r = (r.0.1, map-Keyed xs ys r.1)

  add_index-Keyed :
      (o p : Option ℕ) (x y : A) (others others' : Result (List (ℕ × A)))
      → o ≡ p
      → R x y
      → Outcome (Keyed {K = ℕ}) others others'
      → Outcome (Keyed {K = ℕ}) (add_index o x others) (add_index p y others')
  add_index-Keyed none p x y others others' h r rs = rw (sym h) refl
  add_index-Keyed (some i) p x y (ok xs) (ok ys) h r rs = rw (sym h) ((refl, r), rs)
  add_index-Keyed (some i) p x y (err e) (err f) h r rs = rw (sym h) rs
  add_index-Keyed (some i) p x y (ok xs) (err f) h r rs = absurd rs
  add_index-Keyed (some i) p x y (err e) (ok ys) h r rs = absurd rs

  sort_children-Keyed :
      (xs ys : Result (List (ℕ × A)))
      → Outcome (Keyed {K = ℕ}) xs ys
      → Outcome R (sort_children xs) (sort_children ys)
  sort_children-Keyed (ok xs) (ok ys) r =
      map-Keyed _ _ (sort_by-Pairwise Keyed _ _ (λ a b c d p q. cc) [] [] xs ys tt r)
  sort_children-Keyed (err e) (err f) r = r
  sort_children-Keyed (ok xs) (err f) r = absurd r
  sort_children-Keyed (err e) (ok ys) r = absurd r

  choose-Outcome :
      (b d : Bool) (x y z w : Result (List A))
      → b ≡ d
      → Outcome R x y
      → Outcome R z w
      → Outcome R (if b then x else z) (if d then y else w)
  choose-Outcome true d x y z w h p q = rw (sym h) p
  choose-Outcome false d x y z w h p q = rw (sym h) q

  module _ (ro : Dict (Option Text) Place) where
    all_placed-Keyed :
        (xs ys : List (Text × A)) → Pairwise Keyed xs ys → all_placed ro xs ≡ all_placed ro ys
    unfolding all_placed
    all_placed-Keyed [] [] r = refl
    all_placed-Keyed (x ∷ xs) [] r = absurd r
    all_placed-Keyed [] (y ∷ ys) r = absurd r
    all_placed-Keyed ((i, x) ∷ xs) ((j, y) ∷ ys) r = rw (r.0.0, all_placed-Keyed xs ys r.1) refl

    is_sorted_group-Keyed :
        (xs ys : List (Text × A))
        → Pairwise Keyed xs ys
        → is_sorted_group ro xs ≡ is_sorted_group ro ys
    is_sorted_group-Keyed [] [] r = refl
    is_sorted_group-Keyed (x ∷ xs) [] r = absurd r
    is_sorted_group-Keyed [] (y ∷ ys) r = absurd r
    is_sorted_group-Keyed ((i, x) ∷ xs) ((j, y) ∷ ys) r =
        rw (all_placed-Keyed ((i, x) ∷ xs) ((j, y) ∷ ys) r, r.0.0) refl

    with_index-Keyed :
        (xs ys : List (Text × A))
        → Pairwise Keyed xs ys
        → Outcome (Keyed {K = ℕ}) (with_index ro xs) (with_index ro ys)
    unfolding with_index
    with_index-Keyed [] [] r = tt
    with_index-Keyed (x ∷ xs) [] r = absurd r
    with_index-Keyed [] (y ∷ ys) r = absurd r
    with_index-Keyed ((i, x) ∷ xs) ((j, y) ∷ ys) r =
        add_index-Keyed _ _ x y (with_index ro xs) (with_index ro ys)
          (ap (λ k. index_of (get (some k) ro)) r.0.0) r.0.1 (with_index-Keyed xs ys r.1)

    -- Sorting by the reading order keeps the relation.
    pub in_reading_order-Keyed :
        (xs ys : List (Text × A))
        → Pairwise Keyed xs ys
        → Outcome R (in_reading_order ro xs) (in_reading_order ro ys)
    unfolding in_reading_order
    in_reading_order-Keyed xs ys r =
        choose-Outcome (is_sorted_group ro xs) _ _ _ _ _ (is_sorted_group-Keyed xs ys r)
          (sort_children-Keyed (with_index ro xs) (with_index ro ys) (with_index-Keyed xs ys r))
          (map-Keyed xs ys r)
