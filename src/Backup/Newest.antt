-- ===== src/Backup/Newest.antt =====
-- The first of the backups that are sorted by their time.
use ocr_d_core.Common.{
  Bool, false, some, List, [], ◌∷◌, ltb, In, ◌<◌, ◌≡◌, refl, sym, ◌⊎◌, inl, inr, arith, ap, ◌∙◌,
  subst, if_either, some_eq, true_ne_false,
}
use ocr_d_core.Common.Sort.{insert_by, sort_by}
use ocr_d_core.Backup.{Backup, first_backup}

abbrev later : Backup → Backup → Bool
later a b = ltb b.lastmod a.lastmod

-- Each is the backup itself or an older one.
abbrev pub NotLater : Backup → List Backup → Type 0
NotLater n xs = (b : Backup) → In b xs → (b ≡ n) ⊎ (b.lastmod < n.lastmod)

-- A backup that is not later than another one.
abbrev IsAtMost : Backup → Backup → Type 0
IsAtMost n b = (b ≡ n) ⊎ (b.lastmod < n.lastmod)

at_most_lem : (n x : Backup) → IsAtMost n x → later x n ≡ false
at_most_lem n x (inl e) = rw e (ground arith)
at_most_lem n x (inr l) = ground arith

first-insert_by :
    (n : Backup) (x : Backup) (xs : List Backup)
    → first_backup xs ≡ some n
    → IsAtMost n x
    → first_backup (insert_by later x xs) ≡ some n
unfolding insert_by
first-insert_by n x [] h r = absurd (ground arith)
first-insert_by n x (y ∷ ys) h r =
    if_either (λ l. first_backup l ≡ some n) (later x y) _ _
      (λ t. absurd (true_ne_false (ap (later x) (some_eq (sym h)) ∙ t) (at_most_lem n x r)))
      (λ f. h)

first_sort_found :
    (n : Backup) (sorted xs : List Backup)
    → first_backup sorted ≡ some n
    → NotLater n xs
    → first_backup (sort_by later sorted xs) ≡ some n
unfolding sort_by
first_sort_found n sorted [] h r = h
first_sort_found n sorted (x ∷ xs) h r =
    first_sort_found n (insert_by later x sorted) xs (first-insert_by n x sorted h (r x (inl refl)))
      (λ b m. r b (inr m))

first_insert_newest :
    (n : Backup) (xs : List Backup) → NotLater n xs → first_backup (insert_by later n xs) ≡ some n
unfolding insert_by
first_insert_newest n [] r = refl
first_insert_newest n (y ∷ ys) r =
    if_either (λ l. first_backup l ≡ some n) (later n y) _ _ (λ t. refl)
      (λ f. elim (r y (inl refl)) [ inl e ↦ ap some e | inr l ↦ absurd (ground arith) ])

In-insert_by : (b x : Backup) (xs : List Backup) → In b (insert_by later x xs) → (b ≡ x) ⊎ In b xs
unfolding insert_by
In-insert_by b x [] m = m
In-insert_by b x (y ∷ ys) m = ground (arith, In-insert_by b x ys)

NotLater-insert_by :
    (n : Backup) (x : Backup) (xs : List Backup)
    → IsAtMost n x
    → NotLater n xs
    → NotLater n (insert_by later x xs)
NotLater-insert_by n x xs p r b m = elim (In-insert_by b x xs m) [
  | inl e ↦ subst (IsAtMost n) (sym e) p
  | inr k ↦ r b k
]

-- A backup that is there and later than all others is the first one.
pub first-sort_by :
    (n : Backup) (sorted xs : List Backup)
    → NotLater n sorted
    → NotLater n xs
    → In n xs
    → first_backup (sort_by later sorted xs) ≡ some n
unfolding sort_by
first-sort_by n sorted [] p r m = absurd m
first-sort_by n sorted (x ∷ xs) p r (inl e) =
    first_sort_found n (insert_by later x sorted) xs
      (subst (λ z. first_backup (insert_by later z sorted) ≡ some n) e
        (first_insert_newest n sorted p))
      (λ b m. r b (inr m))
first-sort_by n sorted (x ∷ xs) p r (inr m) =
    first-sort_by n (insert_by later x sorted) xs (NotLater-insert_by n x sorted (r x (inl refl)) p)
      (λ b k. r b (inr k)) m
