-- ===== src/Common/Dict.antt =====
-- Python's dict: the entries in the order in which the keys were first set.
use mathlib.Core.Path.{◌≡◌, refl}
use mathlib.Core.Bool.{Bool, true}
use mathlib.Core.Option.{Option, none, some}
use mathlib.Core.List.{List, [], ◌∷◌, map}
use native.Mathlib.Omega.{arith}
use ocr_d_core.Common.Tests.{Eq, ◌==◌, if◌then◌else◌, is_some}
use ocr_d_core.Common.Lists.{In}

abbrev pub Dict : Type 0 → Type 0 → Type 0
Dict K V = List (K × V)

-- `d.keys()`
abbrev pub keys : {K V : Type 0} → Dict K V → List K
keys d = map (λ e. e.0) d

-- `d.values()`
abbrev pub values : {K V : Type 0} → Dict K V → List V
values d = map (λ e. e.1) d

module _ {K V : Type 0} ⦃e : Eq K⦄ where
  -- `d.get(k)`
  unfoldable pub get : K → Dict K V → Option V
  get k [] = none
  get k ((j, v) ∷ d) = if j == k then some v else get k d

  -- `k in d`
  abbrev pub has : K → Dict K V → Bool
  has k d = is_some (get k d)

  -- `d[k] = v`
  unfoldable pub put : K → V → Dict K V → Dict K V
  put k v [] = (k, v) ∷ []
  put k v ((j, w) ∷ d) = if j == k then (k, v) ∷ d else (j, w) ∷ put k v d

  -- `del d[k]`, where a missing key is passed over.
  unfoldable pub delete : K → Dict K V → Dict K V
  delete k [] = []
  delete k ((j, v) ∷ d) = let rest = delete k d in if j == k then rest else (j, v) ∷ rest

  pub get-put :
      (k j : K) (v : V) (d : Dict K V) → get j (put k v d) ≡ (if k == j then some v else get j d)
  unfolding get put
  get-put k j v [] = refl
  get-put k j v ((i, w) ∷ d) =
      ground (arith, e.same_iff k j, e.same_iff i k, e.same_iff i j, get-put k j v d)

  -- Setting a key to the value that it has changes nothing.
  pub put_same : (k : K) (v : V) (d : Dict K V) → get k d ≡ some v → put k v d ≡ d
  unfolding get put
  put_same k v [] h = cc
  put_same k v ((j, w) ∷ d) h = ground (arith, e.same_iff j k, put_same k v d)

  pub get-delete :
      (k j : K) (d : Dict K V) → get j (delete k d) ≡ (if k == j then none else get j d)
  unfolding get delete
  get-delete k j [] = ground arith
  get-delete k j ((i, v) ∷ d) =
      ground (arith, get-delete k j d, e.same_iff i k, e.same_iff i j, e.same_iff k j)

  pub get-put_self : (k : K) (v : V) (d : Dict K V) → get k (put k v d) ≡ some v
  get-put_self k v d = ground (arith, get-put k k v d, e.same_iff k k)

  pub get-put_ne : (k j : K) (v : V) (d : Dict K V) → ¬ (k ≡ j) → get j (put k v d) ≡ get j d
  get-put_ne k j v d h = ground (arith, get-put k j v d, e.same_iff k j)

  pub In_of_has : (k : K) (d : Dict K V) → has k d ≡ true → In k (keys d)
  unfolding get
  In_of_has k [] h = cc
  In_of_has k ((j, v) ∷ d) h = ground (arith, e.same_iff j k, In_of_has k d)

pub ruleset dict_laws = (get-put, get-delete)
