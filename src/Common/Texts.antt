-- ===== src/Common/Texts.antt =====
-- Python's str as the list of its code points, and the methods of str.
use Prim.Native.Char.{code}
use Prim.Native.Nat.{ℕ, zero, suc, ◌-◌}
use Prim.Native.String.{String}
use mathlib.Core.Path.{◌≡◌, refl, ap}
use mathlib.Core.Bool.{Bool, true, false, ◌&&◌}
use mathlib.Core.Option.{Option, none, some}
use mathlib.Core.List.{List, [], ◌∷◌, ◌++◌}
use ocr_d_core.Common.Tests.{nat_beq, if◌then◌else◌}
use ocr_d_core.Common.Lists.{length}

abbrev pub Text : Type 0
Text = List ℕ

-- A text literal.
abbrev pub codes : String → Text
codes String.[] = []
codes (String.◌∷◌ c s) = code c ∷ codes s

module _ {ℓ} {A : Type ℓ} where
  abbrev pub take : ℕ → List A → List A
  take zero xs = []
  take (suc n) [] = []
  take (suc n) (x ∷ xs) = x ∷ take n xs

  abbrev pub drop : ℕ → List A → List A
  drop zero xs = xs
  drop (suc n) [] = []
  drop (suc n) (x ∷ xs) = drop n xs

  abbrev pub replicate : ℕ → A → List A
  replicate zero a = []
  replicate (suc n) a = a ∷ replicate n a

  -- `xs[-1]`
  abbrev pub last_of : List A → Option A
  last_of [] = none
  last_of (x ∷ []) = some x
  last_of (x ∷ y ∷ xs) = last_of (y ∷ xs)

  pub take-length_append : (xs ys : List A) → take (length xs) (xs ++ ys) ≡ xs
  take-length_append [] ys = refl
  take-length_append (x ∷ xs) ys = ap (◌∷◌ x) (take-length_append xs ys)

  pub drop-length_append : (xs ys : List A) → drop (length xs) (xs ++ ys) ≡ ys
  drop-length_append [] ys = refl
  drop-length_append (x ∷ xs) ys = drop-length_append xs ys

-- `t.startswith(prefix)`
unfoldable pub starts_with : Text → Text → Bool
starts_with t [] = true
starts_with [] (p ∷ prefix) = false
starts_with (c ∷ t) (p ∷ prefix) = nat_beq c p && starts_with t prefix

-- `t.split(c)` for one character: the first part, and the further ones.
unfoldable pub split_parts : ℕ → Text → Text × List Text
split_parts c [] = ([], [])
split_parts c (x ∷ t) =
    let (part, parts) = split_parts c t in
    if nat_beq x c then ([], part ∷ parts) else (x ∷ part, parts)

abbrev pub split : ℕ → Text → List Text
split c t = let (part, parts) = split_parts c t in part ∷ parts

-- `c.join(parts)` for one character.
unfoldable pub join : ℕ → List Text → Text
join c [] = []
join c (part ∷ []) = part
join c (part ∷ next ∷ parts) = part ++ c ∷ join c (next ∷ parts)

-- `t.split(separator, 1)`: the two sides of the first occurrence; `none` if there is none.
unfoldable pub split_once : Text → Text → Option (Text × Text)
split_once separator [] = none
split_once separator (c ∷ t) =
    let later = split_once separator t in
    if starts_with (c ∷ t) separator
    then some ([], drop (length separator) (c ∷ t))
    else elim later [ none ↦ none | some (before, after) ↦ some (c ∷ before, after) ]

-- `t.replace(old, new)` for an `old` that is not empty. `skip` characters still belong to the
-- occurrence that was replaced last.
unfoldable pub replace_from : Text → Text → ℕ → Text → Text
replace_from old new skip [] = []
replace_from old new (suc skip) (c ∷ t) = replace_from old new skip t
replace_from old new zero (c ∷ t) =
    let others = replace_from old new (length old - 1) t in
    let rest = replace_from old new zero t in
    if starts_with (c ∷ t) old then new ++ others else c ∷ rest

abbrev pub replace : Text → Text → Text → Text
replace old new t = replace_from old new 0 t

-- `t.lstrip()`, `t.rstrip()` and `t.strip()`, for what Python takes as white space.
module _ (is_space : ℕ → Bool) where
  unfoldable pub lstrip : Text → Text
  lstrip [] = []
  lstrip (c ∷ t) = let rest = lstrip t in if is_space c then rest else c ∷ t

  unfoldable pub rstrip : Text → Text
  rstrip [] = []
  rstrip (c ∷ t) = elim (rstrip t) [
    | [] ↦ if is_space c then [] else c ∷ []
    | d ∷ rest ↦ c ∷ d ∷ rest
  ]

  abbrev pub strip : Text → Text
  strip t = lstrip (rstrip t)

-- `range(a, a + n)`
abbrev pub range_from : ℕ → ℕ → List ℕ
range_from a zero = []
range_from a (suc n) = a ∷ range_from (suc a) n
