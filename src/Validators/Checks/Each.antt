-- ===== src/Validators/Checks/Each.antt =====
-- What holds of each child holds of the children in their order.
use ocr_d_core.Common.{
  ℕ, Bool, Option, none, some, List, [], ◌∷◌, ◌++◌, map, Text, if_either, Bool-cases, ◌≡◌, refl,
  subst, inl, inr, nat_eq, list_eq, option_eq,
}
use ocr_d_core.Common.Sort.{insert_by, sort_by}
use ocr_d_core.Common.Dict.{Dict, get}
use ocr_d_core.Common.Exec.{Result, ok, err, ok_eq, err_ne_ok}
use ocr_d_core.Validators.Order.{
  Place, index_of, add_index, with_index, sort_children, in_reading_order, is_sorted_group,
  reversed,
}

module _ {A : Type 0} (P : A → Type 0) where
  abbrev pub All : List A → Type 0
  All [] = Unit
  All (x ∷ xs) = P x × All xs

  All-append : (xs ys : List A) → All xs → All ys → All (xs ++ ys)
  All-append [] ys p q = q
  All-append (x ∷ xs) ys p q = (p.0, All-append xs ys p.1 q)

  pub All-reversed : (xs : List A) → All xs → All (reversed xs)
  unfolding reversed
  All-reversed [] p = p
  All-reversed (x ∷ xs) p = All-append (reversed xs) (x ∷ []) (All-reversed xs p.1) (p.0, tt)

  All-insert_by : (lt : A → A → Bool) (x : A) (xs : List A) → P x → All xs → All (insert_by lt x xs)
  unfolding insert_by
  All-insert_by lt x [] p q = (p, tt)
  All-insert_by lt x (y ∷ ys) p q =
      if_either (λ l. All l) (lt x y) _ _ (λ t. (p, q)) (λ f. (q.0, All-insert_by lt x ys p q.1))

  All-sort_by :
      (lt : A → A → Bool) (sorted xs : List A) → All sorted → All xs → All (sort_by lt sorted xs)
  unfolding sort_by
  All-sort_by lt sorted [] p q = p
  All-sort_by lt sorted (x ∷ xs) p q =
      All-sort_by lt (insert_by lt x sorted) xs (All-insert_by lt x sorted q.0 p) q.1

module _ {A : Type 0} (P : A → Type 0) where
  abbrev Second : {K : Type 0} → K × A → Type 0
  Second x = P x.1

  All-map : {K : Type 0} (xs : List (K × A)) → All (Second {K = K}) xs → All P (map (λ x. x.1) xs)
  All-map [] p = tt
  All-map (x ∷ xs) p = (p.0, All-map xs p.1)

  add_index-All :
      (o : Option ℕ) (x : A) (others : Result (List (ℕ × A))) (ys : List (ℕ × A))
      → P x
      → ((zs : List (ℕ × A)) → others ≡ ok zs → All (Second {K = ℕ}) zs)
      → add_index o x others ≡ ok ys
      → All (Second {K = ℕ}) ys
  add_index-All none x others ys p q h = absurd (err_ne_ok h)
  add_index-All (some j) x (err e) ys p q h = absurd (err_ne_ok h)
  add_index-All (some j) x (ok zs) ys p q h = subst (All (Second {K = ℕ})) (ok_eq h) (p, q zs refl)

  with_index-All :
      (ro : Dict (Option Text) Place) (xs : List (Text × A)) (ys : List (ℕ × A))
      → All (Second {K = Text}) xs
      → with_index ro xs ≡ ok ys
      → All (Second {K = ℕ}) ys
  unfolding with_index
  with_index-All ro [] ys p h = subst (All (Second {K = ℕ})) (ok_eq h) tt
  with_index-All ro ((i, x) ∷ xs) ys p h =
      add_index-All (index_of (get (some i) ro)) x (with_index ro xs) ys p.0
        (λ zs e. with_index-All ro xs zs p.1 e) h

  sort_children-All :
      (r : Result (List (ℕ × A))) (ys : List A)
      → ((zs : List (ℕ × A)) → r ≡ ok zs → All (Second {K = ℕ}) zs)
      → sort_children r ≡ ok ys
      → All P ys
  sort_children-All (err e) ys q h = absurd (err_ne_ok h)
  sort_children-All (ok zs) ys q h =
      subst (All P) (ok_eq h) (All-map _ (All-sort_by (Second {K = ℕ}) _ [] zs tt (q zs refl)))

  pub in_reading_order-All :
      (ro : Dict (Option Text) Place) (xs : List (Text × A)) (ys : List A)
      → All (Second {K = Text}) xs
      → in_reading_order ro xs ≡ ok ys
      → All P ys
  unfolding in_reading_order
  in_reading_order-All ro xs ys p h = elim (Bool-cases (is_sorted_group ro xs)) [
    | inl t ↦
        sort_children-All (with_index ro xs) ys (λ zs e. with_index-All ro xs zs p e)
          (rw (t, in_reading_order) at h)
    | inr f ↦ subst (All P) (ok_eq (rw (f, in_reading_order) at h)) (All-map xs p)
  ]
