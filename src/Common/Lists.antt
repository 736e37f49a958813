-- ===== src/Common/Lists.antt =====
-- Lists measured by native numbers, membership, and Python's operations on lists.
use Prim.Native.Nat.{ℕ, suc, ◌+◌}
use mathlib.Core.Path.{◌≡◌, refl, sym, ap, ◌∙◌}
use mathlib.Core.Logic.{◌↔◌, ◌⊎◌, inl, inr, ∥∥₁_elim}
use mathlib.Core.Bool.{Bool, true, false, ◌||◌}
use mathlib.Core.Option.{Option, none, some}
use mathlib.Core.List.{List, [], ◌∷◌, ◌++◌, Perm, Permᴰ, perm_middle}
use native.Mathlib.Nat.{ℕ_set}
use native.Mathlib.Omega.{arith}
use ocr_d_core.Common.Tests.{Eq, ◌==◌, if◌then◌else◌, Bool-cases, Option-cases}

module _ {ℓ} {A : Type ℓ} where
  abbrev pub length : List A → ℕ
  length [] = 0
  length (x ∷ xs) = suc (length xs)

  pub length-append : (xs ys : List A) → length (xs ++ ys) ≡ length xs + length ys
  length-append [] ys = omega arith
  length-append (x ∷ xs) ys = omega (arith, length-append xs ys)

  -- Python's truth value of a list.
  abbrev pub is_nonempty : List A → Bool
  is_nonempty [] = false
  is_nonempty (x ∷ xs) = true

  -- `[x for x in xs if p(x)]`
  unfoldable pub keep_if : (A → Bool) → List A → List A
  keep_if p [] = []
  keep_if p (x ∷ xs) = let rest = keep_if p xs in if p x then x ∷ rest else rest

  pub keep_if_nil : (p : A → Bool) → keep_if p [] ≡ []
  unfolding keep_if
  keep_if_nil p = refl

  pub keep_if-append :
      (p : A → Bool) (xs ys : List A) → keep_if p (xs ++ ys) ≡ keep_if p xs ++ keep_if p ys
  unfolding keep_if
  keep_if-append p [] ys = refl
  keep_if-append p (x ∷ xs) ys = ground (arith, keep_if-append p xs ys)

module _ {ℓ} {A : Type ℓ} where
  pub keep_if_idem : (p : A → Bool) (xs : List A) → keep_if p (keep_if p xs) ≡ keep_if p xs
  unfolding keep_if
  keep_if_idem p [] = refl
  keep_if_idem p (x ∷ xs) = ground (arith, keep_if_idem p xs)

Permᴰ-length {ℓ} : {A : Type ℓ} {xs ys : List A} → Permᴰ xs ys → length xs ≡ length ys
Permᴰ-length Permᴰ.nil = refl
Permᴰ-length (Permᴰ.cons x p) = ap suc (Permᴰ-length p)
Permᴰ-length (Permᴰ.swap x y) = refl
Permᴰ-length (Permᴰ.trans p q) = Permᴰ-length p ∙ Permᴰ-length q

pub Perm-length {ℓ} : {A : Type ℓ} {xs ys : List A} → Perm xs ys → length xs ≡ length ys
Perm-length {xs = xs} {ys = ys} p = ∥∥₁_elim p (ℕ_set (length xs) (length ys)) Permᴰ-length

-- Membership as a sum, which tactics take apart.
module _ {A : Type 0} where
  abbrev pub In : A → List A → Type 0
  In x [] = ⊥
  In x (y ∷ ys) = (x ≡ y) ⊎ In x ys

  pub In-append_left : (x : A) (xs ys : List A) → In x xs → In x (xs ++ ys)
  In-append_left x [] ys h = absurd h
  In-append_left x (y ∷ xs) ys (inl e) = inl e
  In-append_left x (y ∷ xs) ys (inr h) = inr (In-append_left x xs ys h)

  pub In-append_right : (x : A) (xs ys : List A) → In x ys → In x (xs ++ ys)
  In-append_right x [] ys h = h
  In-append_right x (y ∷ xs) ys h = inr (In-append_right x xs ys h)

  pub In-append : (x : A) (xs ys : List A) → In x (xs ++ ys) → In x xs ⊎ In x ys
  In-append x [] ys h = inr h
  In-append x (y ∷ xs) ys (inl e) = inl (inl e)
  In-append x (y ∷ xs) ys (inr h) = ground (arith, In-append x xs ys h)

  pub In-middle : (z x : A) (xs ys : List A) → In z (xs ++ ys) → In z (xs ++ x ∷ ys)
  In-middle z x [] ys h = inr h
  In-middle z x (y ∷ xs) ys (inl e) = inl e
  In-middle z x (y ∷ xs) ys (inr h) = inr (In-middle z x xs ys h)

  pub In_at_middle : (z x : A) (xs ys : List A) → z ≡ x → In z (xs ++ x ∷ ys)
  In_at_middle z x [] ys e = inl e
  In_at_middle z x (y ∷ xs) ys e = inr (In_at_middle z x xs ys e)

  pub In_of_keep_if :
      (p : A → Bool) (x : A) (xs : List A) → In x (keep_if p xs) → In x xs × (p x ≡ true)
  unfolding keep_if
  In_of_keep_if p x [] h = absurd h
  In_of_keep_if p x (y ∷ ys) h = ground (arith, In_of_keep_if p x ys)

  pub In-keep_if : (p : A → Bool) (x : A) (xs : List A) → In x xs → p x ≡ true → In x (keep_if p xs)
  unfolding keep_if
  In-keep_if p x [] h e = absurd h
  In-keep_if p x (y ∷ ys) h e = ground (arith, In-keep_if p x ys)

  pub keep_if_all :
      (p : A → Bool) (xs : List A) → ((x : A) → In x xs → p x ≡ true) → keep_if p xs ≡ xs
  unfolding keep_if
  keep_if_all p [] h = refl
  keep_if_all p (x ∷ xs) h =
      rw (h x (inl refl)) (ap (◌∷◌ x) (keep_if_all p xs (λ y m. h y (inr m))))

  pub keep_if_none :
      (p : A → Bool) (xs : List A) → ((x : A) → In x xs → p x ≡ false) → keep_if p xs ≡ []
  unfolding keep_if
  keep_if_none p [] h = refl
  keep_if_none p (x ∷ xs) h = rw (h x (inl refl)) (keep_if_none p xs (λ y m. h y (inr m)))

  -- No element occurs twice.
  abbrev pub Distinct : List A → Type 0
  Distinct [] = Unit
  Distinct (x ∷ xs) = (¬ In x xs) × Distinct xs

  pub Distinct-of_middle :
      (x : A) (before after : List A)
      → Distinct (before ++ x ∷ after)
      → (¬ In x (before ++ after)) × Distinct (before ++ after)
  Distinct-of_middle x [] after d = d
  Distinct-of_middle x (y ∷ before) after d =
      let (absent, rest) = Distinct-of_middle x before after d.1 in
      (
        λ m. elim m [ inl e ↦ d.0 (In_at_middle y x before after (sym e)) | inr m' ↦ absent m' ],
        (λ m. d.0 (In-middle y x before after m), rest),
      )

module _ {A : Type 0} ⦃e : Eq A⦄ where
  -- `x in xs`
  unfoldable pub contains : A → List A → Bool
  contains x [] = false
  contains x (y ∷ ys) = x == y || contains x ys

  pub In_of_contains : (x : A) (xs : List A) → contains x xs ≡ true → In x xs
  unfolding contains
  In_of_contains x [] h = cc
  In_of_contains x (y ∷ ys) h = ground (arith, e.same_iff x y, In_of_contains x ys)

  pub contains_of_In : (x : A) (xs : List A) → In x xs → contains x xs ≡ true
  unfolding contains
  contains_of_In x [] h = absurd h
  contains_of_In x (y ∷ ys) h = ground (arith, e.same_iff x y, contains_of_In x ys)

  pub contains_iff : (x : A) (xs : List A) → (contains x xs ≡ true) ↔ In x xs
  contains_iff x xs = (In_of_contains x xs, contains_of_In x xs)

  -- `xs.remove(x)`: the list without the first element that equals `x`; `none` is ValueError.
  unfoldable pub remove : A → List A → Option (List A)
  remove x [] = none
  remove x (y ∷ ys) =
      let rest = remove x ys in
      if y == x then some ys else (elim rest [ none ↦ none | some zs ↦ some (y ∷ zs) ])

  -- What a successful removal did.
  pub record Removed (x : A) (xs ys : List A) : Type 0 where
    pub before : List A
    pub after : List A
    pub split : xs ≡ before ++ x ∷ after
    pub joined : ys ≡ before ++ after

  pub remove-Removed : (x : A) (xs ys : List A) → remove x xs ≡ some ys → Removed x xs ys
  unfolding remove
  remove-Removed x [] ys h = cc
  remove-Removed x (y ∷ xs) ys h = elim (Bool-cases (y == x)) [
    | inl t ↦ record {
      before = [];
      after = xs;
      split = ground (arith, e.same_iff y x);
      joined = ground arith;
    }
    | inr f ↦ elim (Option-cases (remove x xs)) [
      | inl n ↦ absurd (ground arith)
      | inr (zs, s) ↦
          let r = remove-Removed x xs zs s in
          record {
            before = y ∷ r.before;
            after = r.after;
            split = cc r.split;
            joined = ground (arith, r.joined);
          }
    ]
  ]

  pub remove-perm : (x : A) (xs ys : List A) → remove x xs ≡ some ys → Perm xs (x ∷ ys)
  remove-perm x xs ys h =
      let r = remove-Removed x xs ys h in rw (r.split, r.joined) (perm_middle r.before r.after)

  pub In-remove : (x z : A) (xs ys : List A) → remove x xs ≡ some ys → In z ys → In z xs
  In-remove x z xs ys h m =
      let r = remove-Removed x xs ys h in
      rw r.split (In-middle z x r.before r.after (rw r.joined at m))

  pub length-remove : (x : A) (xs ys : List A) → remove x xs ≡ some ys → length xs ≡ suc (length ys)
  length-remove x xs ys h =
      let r = remove-Removed x xs ys h in
      omega (
        arith,
        ap length r.split,
        ap length r.joined,
        length-append r.before (x ∷ r.after),
        length-append r.before r.after,
      )

  pub remove-eq_none : (x : A) (xs : List A) → remove x xs ≡ none → ¬ In x xs
  unfolding remove
  remove-eq_none x [] h m = m
  remove-eq_none x (y ∷ xs) h m = ground (arith, e.same_iff y x, remove-eq_none x xs)

  pub remove_middle :
      (x : A) (before after : List A)
      → ¬ In x before
      → remove x (before ++ x ∷ after) ≡ some (before ++ after)
  unfolding remove
  remove_middle x [] after h = ground (arith, e.same_iff x x)
  remove_middle x (y ∷ before) after h =
      ground (arith, e.same_iff y x, remove_middle x before after (λ m. h (inr m)))

  pub remove-Distinct :
      (x : A) (xs ys : List A) → remove x xs ≡ some ys → Distinct xs → (¬ In x ys) × Distinct ys
  remove-Distinct x xs ys h d =
      let r = remove-Removed x xs ys h in
      rw r.joined (Distinct-of_middle x r.before r.after (rw r.split at d))

  pub In_of_remove : (x : A) (xs ys : List A) → remove x xs ≡ some ys → In x xs
  In_of_remove x xs ys h =
      let r = remove-Removed x xs ys h in rw r.split (In_at_middle x x r.before r.after refl)
