-- ===== src/Models/Cache/Fill.antt =====
-- A cache that is filled from elements with distinct keys has an entry for each of them, in their
-- order: `_fill_caches` of src/ocrd_models/ocrd_mets.py.
use ocr_d_core.Common.{
  ◌≡◌, refl, sym, ap, ◌∙◌, List, [], ◌∷◌, ◌++◌, map, arith, Eq, In, Distinct, Distinct-of_middle,
  In-append_left, inr, subst,
}
use ocr_d_core.Common.Dict.{Dict, put, keys}
use ocr_d_core.Models.Cache.{put_all}

module _ {A : Type 0} where
  append_assoc : (xs ys zs : List A) → (xs ++ ys) ++ zs ≡ xs ++ (ys ++ zs)
  append_assoc [] ys zs = refl
  append_assoc (x ∷ xs) ys zs = ap (x ∷◌) (append_assoc xs ys zs)

pub append_nil : {A : Type 0} (xs : List A) → xs ++ [] ≡ xs
append_nil [] = refl
append_nil (x ∷ xs) = ap (x ∷◌) (append_nil xs)

map-append : {A B : Type 0} (f : A → B) (xs ys : List A) → map f (xs ++ ys) ≡ map f xs ++ map f ys
map-append f [] ys = refl
map-append f (x ∷ xs) ys = ap (f x ∷◌) (map-append f xs ys)

module _ {K V : Type 0} ⦃e : Eq K⦄ where
  put-new : (k : K) (v : V) (d : Dict K V) → ¬ In k (keys d) → put k v d ≡ d ++ (k, v) ∷ []
  unfolding put
  put-new k v [] h = refl
  put-new k v ((j, w) ∷ d) h = ground (arith, e.same_iff j k, put-new k v d (λ m. h (inr m)))

  pub put_all-Distinct :
      {A : Type 0} (key : A → K) (value : A → V) (d : Dict K V) (xs : List A)
      → Distinct (keys d ++ map key xs)
      → put_all key value d xs ≡ d ++ map (λ x. (key x, value x)) xs
  unfolding put_all
  put_all-Distinct key value d [] h = sym (append_nil d)
  put_all-Distinct {A = A} key value d (x ∷ xs) h =
      let absent = (Distinct-of_middle (key x) (keys d) (map key xs) h).0 in
      let entry : K × V = (key x, value x) in
      let new =
        put-new (key x) (value x) d
          (λ m. absent (In-append_left (key x) (keys d) (map key xs) m)) in
      let keys_after : keys (d ++ entry ∷ []) ++ map key xs ≡ keys d ++ key x ∷ map key xs =
        ap (◌++ map key xs) (map-append (λ p. p.0) d (entry ∷ []))
        ∙ append_assoc (keys d) (key x ∷ []) (map key xs) in
      ap (λ b. put_all key value b xs) new
      ∙ put_all-Distinct key value (d ++ entry ∷ []) xs (subst Distinct (sym keys_after) h)
      ∙ append_assoc d (entry ∷ []) (map (λ x. (key x, value x)) xs)
