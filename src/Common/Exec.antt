-- ===== src/Common/Exec.antt =====
-- Python statements that may raise and that change a state: the state outlives the exception.
use Prim.Native.Nat.{ℕ}
use mathlib.Core.Path.{◌≡◌, refl, sym, ap, ◌∙◌}
use mathlib.Core.Logic.{◌⊎◌, inl, inr}
use native.Mathlib.Omega.{arith}

pub data Exception : Type 0 where
  value_error type_error key_error index_error : Exception
  file_not_found file_exists : Exception
  attribute_error : Exception
  -- an `Exception` that the source raises by itself
  failure : Exception
  -- `HTTPException` with its status code
  http : ℕ → Exception

pub data Result (A : Type 0) : Type 0 where
  ok : A → Result A
  err : Exception → Result A

abbrev pub Exec : Type 0 → Type 0 → Type 0
Exec S A = S → Result A × S

module _ {S A B : Type 0} where
  -- What follows a result: the next statement, or nothing after an exception.
  abbrev pub and_then : Result A → (A → Exec S B) → Exec S B
  and_then (ok a) next = next a
  and_then (err e) next = λ s. (err e, s)

  infixl 5 ◌>>=◌ ◌>>◌
  abbrev pub ◌>>=◌ : (first : Exec S A) (next : A → Exec S B) → Exec S B
  first >>= next = λ s. let (result, after) = first s in and_then result next after

  abbrev pub ◌>>◌ : (first : Exec S A) (next : Exec S B) → Exec S B
  first >> next = first >>= (λ a. next)

pub Result-cases :
    {A : Type 0} (r : Result A) → ((a : A) × (r ≡ ok a)) ⊎ ((e : Exception) × (r ≡ err e))
Result-cases (ok a) = inl (a, refl)
Result-cases (err e) = inr (e, refl)

module _ {A : Type 0} where
  pub ok_eq : {a b : A} → ok a ≡ ok b → a ≡ b
  ok_eq h = cc

  pub err_ne_ok : {e : Exception} {a : A} → err e ≡ ok a → ⊥
  err_ne_ok h = cc

module _ {S A B : Type 0} (m : Exec S A) (f : A → Exec S B) (s : S) where
  -- A sequence goes on from the state that its first part leaves.
  pub and_then-ok : (a : A) (t : S) → m s ≡ (ok a, t) → (m >>= f) s ≡ f a t
  and_then-ok a t e = rw e refl

  -- It ends with the exception of its first part.
  pub and_then-err : (e : Exception) (t : S) → m s ≡ (err e, t) → (m >>= f) s ≡ (err e, t)
  and_then-err e t h = rw h refl

  -- A sequence that has returned went through a state between its parts.
  pub and_then-inv :
      (b : B) (t : S)
      → (m >>= f) s ≡ (ok b, t)
      → (a : A) × (u : S) × (m s ≡ (ok a, u)) × (f a u ≡ (ok b, t))
  and_then-inv b t h = elim (Result-cases (m s).0) [
    | inl (a, e) ↦ (
      a,
      (m s).1,
      ap (λ r. (r, (m s).1)) e,
      sym (and_then-ok a (m s).1 (ap (λ r. (r, (m s).1)) e)) ∙ h,
    )
    | inr (x, e) ↦ absurd (ground arith)
  ]
