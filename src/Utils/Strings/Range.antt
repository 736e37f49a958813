-- ===== src/Utils/Strings/Range.antt =====
-- Page ranges: generate_range.
use ocr_d_core.Common.{
  ℕ, zero, suc, ◌+◌, ◌-◌, ◌*◌, ◌/◌, ◌%◌, ◌<◌, ◌≤◌, ◌≡◌, refl, ◌∙◌, ap, true, false, some, [], ◌∷◌,
  ◌++◌, map, arith, ltb, length, is_nonempty, Text, last_of, replace, range_from, list_eq, nat_eq,
  Bool-cases, length-append, take-length_append, beq_refl, fun_ext, inl, inr,
}
use mathlib.Core.List.{append-nil, append_assoc}
use ocr_d_core.Utils.Strings.{
  is_digit, digit_runs_from, digit_runs, to_int_from, to_int, to_decimal_fuel, to_decimal, zfill,
  drop_last, generate_range,
}
use ocr_d_core.Common.{replace_from, starts_with}

to_int_from-append : (n : ℕ) (s t : Text) → to_int_from n (s ++ t) ≡ to_int_from (to_int_from n s) t
unfolding to_int_from
to_int_from-append n [] t = refl
to_int_from-append n (c ∷ s) t = to_int_from-append (n * 10 + (c - b'0')) s t

to_int-to_decimal_fuel : (fuel n : ℕ) → n < fuel → to_int_from 0 (to_decimal_fuel fuel n) ≡ n
unfolding to_decimal_fuel
to_int-to_decimal_fuel zero n h = absurd (omega arith)
to_int-to_decimal_fuel (suc fuel) n h = elim (Bool-cases (ltb n 10)) [
  | inl t ↦ rw t (unfold to_int_from in ground arith)
  | inr f ↦ rw f (
      to_int_from-append 0 (to_decimal_fuel fuel (n / 10)) ((n % 10 + b'0') ∷ [])
      ∙ rw (to_int-to_decimal_fuel fuel (n / 10) (ground arith))
          (unfold to_int_from in ground arith))
]

-- Reading a printed number gives it back.
pub to_int-to_decimal : (n : ℕ) → to_int (to_decimal n) ≡ n
to_int-to_decimal n = to_int-to_decimal_fuel (suc n) n (omega arith)

abbrev pub AllDigits : Text → Type 0
AllDigits [] = Unit
AllDigits (c ∷ t) = (is_digit c ≡ true) × AllDigits t

abbrev pub NoDigits : Text → Type 0
NoDigits [] = Unit
NoDigits (c ∷ t) = (is_digit c ≡ false) × NoDigits t

digit_runs_from-AllDigits :
    (run s : Text)
    → AllDigits s
    → is_nonempty (run ++ s) ≡ true
    → digit_runs_from run s ≡ (run ++ s) ∷ []
unfolding digit_runs_from
digit_runs_from-AllDigits run [] d h = ground (arith, append-nil run)
digit_runs_from-AllDigits run (c ∷ s) d h =
    rw (d.0, digit_runs_from)
      (let again : is_nonempty ((run ++ c ∷ []) ++ s) ≡ true = rw append_assoc h in
        digit_runs_from-AllDigits (run ++ c ∷ []) s d.1 again ∙ rw append_assoc refl)

digit_runs-NoDigits : (pre s : Text) → NoDigits pre → digit_runs (pre ++ s) ≡ digit_runs s
unfolding digit_runs_from
digit_runs-NoDigits [] s d = refl
digit_runs-NoDigits (c ∷ pre) s d = rw (d.0, digit_runs_from) (digit_runs-NoDigits pre s d.1)

starts_with_self : (s t : Text) → starts_with (s ++ t) s ≡ true
unfolding starts_with
starts_with_self [] [] = refl
starts_with_self [] (c ∷ t) = refl
starts_with_self (c ∷ s) t = ground (arith, starts_with_self s t)

replace_from-skip : (old new s : Text) (n : ℕ) → length s ≤ n → replace_from old new n s ≡ []
unfolding replace_from
replace_from-skip old new [] zero h = refl
replace_from-skip old new [] (suc n) h = refl
replace_from-skip old new (c ∷ s) zero h = absurd (omega arith)
replace_from-skip old new (c ∷ s) (suc n) h = replace_from-skip old new s n (omega arith)

replace-whole : (d : ℕ) (s new : Text) → replace (d ∷ s) new (d ∷ s) ≡ new
unfolding replace_from
replace-whole d s new =
    let found : starts_with (d ∷ s) (d ∷ s) ≡ true =
      rw append-nil at (starts_with_self (d ∷ s) []) in
    rw found (
      ap (◌++◌ new) (replace_from-skip (d ∷ s) new s (suc (length s) - 1) (omega arith))
      ∙ append-nil new)

replace-NoDigits :
    (d : ℕ) (s new pre : Text)
    → is_digit d ≡ true
    → NoDigits pre
    → replace (d ∷ s) new (pre ++ d ∷ s) ≡ pre ++ new
unfolding replace_from
replace-NoDigits d s new [] h p = replace-whole d s new
replace-NoDigits d s new (c ∷ pre) h p =
    let apart : starts_with (c ∷ (pre ++ d ∷ s)) (d ∷ s) ≡ false =
      unfold starts_with in ground (arith, p.0) in
    rw apart (ap (◌∷◌ c) (replace-NoDigits d s new pre h p.1))

last_run :
    (pre s : Text)
    → NoDigits pre
    → AllDigits s
    → is_nonempty s ≡ true
    → last_of (digit_runs (pre ++ s)) ≡ some s
last_run pre s p d h = ap last_of (digit_runs-NoDigits pre s p ∙ digit_runs_from-AllDigits [] s d h)

drop_last-append : (pre s : Text) → drop_last (length s) (pre ++ s) ≡ pre
drop_last-append pre s =
    let size : length (pre ++ s) - length s ≡ length pre = omega (arith, length-append pre s) in
    rw size (take-length_append pre s)

replace_number :
    (pre s new : Text)
    → NoDigits pre
    → AllDigits s
    → is_nonempty s ≡ true
    → replace s new (pre ++ s) ≡ pre ++ new
replace_number pre [] new p d h = cc
replace_number pre (c ∷ s) new p d h = replace-NoDigits c s new pre d.0 p

-- For two page ids that consist of the same prefix without digits and of a number, the range is
-- that prefix followed by each number from the first to the second, padded with zeros to the
-- width of the first.
pub generate_range_lem :
    (pre s e : Text)
    → NoDigits pre
    → AllDigits s
    → AllDigits e
    → is_nonempty s ≡ true
    → is_nonempty e ≡ true
    → generate_range (pre ++ s) (pre ++ e)
      ≡ some (
          map
            (λ i. pre ++ zfill (length s) (to_decimal i))
            (range_from (to_int s) (to_int e + 1 - to_int s)))
unfolding generate_range
generate_range_lem pre s e p ds de hs he =
    rw (last_run pre s p ds hs, generate_range)
      (rw (last_run pre e p de he) (
        rw (drop_last-append pre s) (
          rw (drop_last-append pre e) (
            rw (beq_refl pre) (
              ap some (
                ap (λ f. map f (range_from (to_int s) (to_int e + 1 - to_int s)))
                  (fun_ext
                    (λ i. replace_number pre s (zfill (length s) (to_decimal i)) p ds hs))))))))
