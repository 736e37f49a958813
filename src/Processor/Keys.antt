-- ===== src/Processor/Keys.antt =====
-- The pages that zip_input_files of src/ocrd/processor/base.py has met: each once.
use ocr_d_core.Common.{
  ℕ, ◌≡◌, refl, sym, ap, true, some, [], ◌∷◌, Text, nat_eq, list_eq, ◌==◌, Eq, arith, inl, inr, ◌⊎◌,
  In, Distinct, is_nonempty, Bool-cases, subst, beq_refl,
}
use ocr_d_core.Common.Dict.{Dict, get, put, keys, values}

module _ {K V : Type 0} ⦃e : Eq K⦄ where
  In-keys-put : (j k : K) (v : V) (d : Dict K V) → In j (keys (put k v d)) → (j ≡ k) ⊎ In j (keys d)
  unfolding put
  In-keys-put j k v [] m = m
  In-keys-put j k v ((i, w) ∷ d) m = ground (arith, e.same_iff i k, In-keys-put j k v d)

  Distinct-keys-put :
      (k : K) (v : V) (d : Dict K V) → Distinct (keys d) → Distinct (keys (put k v d))
  unfolding put
  Distinct-keys-put k v [] h = (λ m. m, tt)
  Distinct-keys-put k v ((i, w) ∷ d) h = elim (Bool-cases (i == k)) [
    | inl y ↦ rw y (subst (λ j. (¬ In j (keys d)) × Distinct (keys d)) ((e.same_iff i k).0 y) h)
    | inr n ↦ rw n (
      λ m. elim (In-keys-put i k v d m) [
        | inl q ↦ absurd (ground (arith, e.same_iff i k))
        | inr x ↦ h.0 x
      ],
      Distinct-keys-put k v d h.1,
    )
  ]

  -- Each value has a key.
  pub get_of_values :
      (v : V) (d : Dict K V)
      → Distinct (keys d)
      → In v (values d)
      → (k : K) × In k (keys d) × (get k d ≡ some v)
  unfolding get
  get_of_values v [] h m = absurd m
  get_of_values v ((i, w) ∷ d) h (inl x) = (i, inl refl, rw (beq_refl i) (ap some (sym x)))
  get_of_values v ((i, w) ∷ d) h (inr m) =
      let (k, there, found) = get_of_values v d h.1 m in
      (
        k,
        inr there,
        elim (Bool-cases (i == k)) [
          | inl y ↦ absurd (h.0 (subst (λ j. In j (keys d)) (sym ((e.same_iff i k).0 y)) there))
          | inr n ↦ rw n found
        ],
      )

-- The pages are distinct, and their IDs are not empty.
unfoldable pub IsKeyed : {V : Type 0} → Dict Text V → Type 0
IsKeyed pages = Distinct (keys pages) × ((k : Text) → In k (keys pages) → is_nonempty k ≡ true)

pub put-IsKeyed :
    {V : Type 0} (c : ℕ) (page_id : Text) (v : V) (pages : Dict Text V)
    → IsKeyed pages
    → IsKeyed (put (c ∷ page_id) v pages)
unfolding IsKeyed
put-IsKeyed c p v pages k = (
  Distinct-keys-put (c ∷ p) v pages k.0,
  λ j m. elim (In-keys-put j (c ∷ p) v pages m) [ inl q ↦ rw q refl | inr x ↦ k.1 j x ],
)
