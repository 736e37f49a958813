-- ===== src/Utils/Strings.antt =====
-- src/ocrd_utils/str.py. `\d` stands for the ASCII digits.
pub mod Range
use ocr_d_core.Common.{
  ℕ, zero, suc, ◌+◌, ◌-◌, ◌*◌, ◌/◌, ◌%◌, Bool, true, false, ◌&&◌, Option, none, some, List, [], ◌∷◌,
  ◌++◌, map, if◌then◌else◌, leb, ltb, length, is_nonempty, Text, take, replicate, last_of, replace,
  range_from, ◌==◌, list_eq, nat_eq,
}

abbrev pub is_digit : ℕ → Bool
is_digit c = leb b'0' c && leb c b'9'

-- `re.findall(r'\d+', t)`, where `run` are the digits that were just read.
unfoldable pub digit_runs_from : Text → Text → List Text
digit_runs_from run [] = if is_nonempty run then run ∷ [] else []
digit_runs_from run (c ∷ t) = elim (is_digit c) [
  | true ↦ digit_runs_from (run ++ c ∷ []) t
  | false ↦ let rest = digit_runs_from [] t in if is_nonempty run then run ∷ rest else rest
]

abbrev pub digit_runs : Text → List Text
digit_runs t = digit_runs_from [] t

-- `int(t)`, for digits.
unfoldable pub to_int_from : ℕ → Text → ℕ
to_int_from n [] = n
to_int_from n (c ∷ t) = to_int_from (n * 10 + (c - b'0')) t

abbrev pub to_int : Text → ℕ
to_int t = to_int_from 0 t

-- `str(n)`, on fuel above `n`.
unfoldable pub to_decimal_fuel : ℕ → ℕ → Text
to_decimal_fuel zero n = []
to_decimal_fuel (suc fuel) n =
    let more = to_decimal_fuel fuel (n / 10) in
    if ltb n 10 then (n + b'0') ∷ [] else more ++ (n % 10 + b'0') ∷ []

abbrev pub to_decimal : ℕ → Text
to_decimal n = to_decimal_fuel (suc n) n

-- `t.zfill(width)`, for digits.
abbrev pub zfill : ℕ → Text → Text
zfill width t = replicate (width - length t) b'0' ++ t

-- `t[:-n]`, for a positive n.
abbrev pub drop_last : ℕ → Text → Text
drop_last n t = take (length t - n) t

-- The strings of a range whose numbers are the texts `start_num` and `end_num`.
abbrev pub expand_range : Text → Text → Text → List Text
expand_range start start_num end_num =
    map (λ i. replace start_num (zfill (length start_num) (to_decimal i)) start)
      (range_from (to_int start_num) (to_int end_num + 1 - to_int start_num))

-- `generate_range`; `none` is ValueError. The warning on equal numbers is left out.
unfoldable pub generate_range : Text → Text → Option (List Text)
generate_range start end = elim (last_of (digit_runs start)) [
  | none ↦ none
  | some start_num ↦ elim (last_of (digit_runs end)) [
    | none ↦ none
    | some end_num ↦
        if drop_last (length start_num) start == drop_last (length end_num) end
        then some (expand_range start start_num end_num)
        else none
  ]
]
