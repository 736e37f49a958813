-- ===== src/Models/Select/Literal.antt =====
-- Selecting one page by a value: get_physical_pages of src/ocrd_models/ocrd_mets.py.
use ocr_d_core.Common.{
  ◌≡◌, refl, sym, ap, ◌∙◌, ℕ, Bool, true, false, Option, none, some, List, [], ◌∷◌, ◌++◌, Text,
  codes, nat_eq, list_eq, option_eq, nat_beq_iff, if◌then◌else◌, ◌==◌, keep_if, contains, is_some,
  starts_with, split_parts, split_once, arith, Option-cases, inl, inr,
}
use ocr_d_core.Common.Exec.{Result, ok, err, value_error, index_error}
use ocr_d_core.Models.Tree.{Page, PageAttr, Tree, Regex, page_attrs, pages_of}
use ocr_d_core.Models.Select.{
  Pattern, Entry, entry_of, token_pattern, token_patterns, find_attr, match_pattern, match_page,
  match_pages, all_matched, any_start_left, any_empty_range, select_entries, get_physical_pages,
}

-- Whether an attribute of a page has a value.
abbrev pub has_value : Text → Page → Bool
has_value token page = is_some (find_attr (λ v. v == some token) page page_attrs)

-- The first page.
abbrev pub first_page : List Page → Result (List Page)
first_page [] = err value_error
first_page (page ∷ pages) = ok (page ∷ [])

abbrev matched_entry : Text → Entry
matched_entry token = record (entry_of [] (Pattern.literal token)) {
  matched = true;
  exhausted = true;
}

-- After the match, no page is added.
match_pages-exhausted :
    (regex : Regex) (token : Text) (pages : List Page)
    → match_pages regex pages (matched_entry token ∷ []) ≡ ([], matched_entry token ∷ [])
unfolding match_pages match_page
match_pages-exhausted regex token [] = refl
match_pages-exhausted regex token (page ∷ pages) = rw (match_pages-exhausted regex token pages) refl

module _ (regex : Regex) (token : Text) (page : Page) where
  abbrev add_page : Bool × Entry → List Page × List Entry
  add_page r = ((if r.0 then page ∷ [] else []), r.1 ∷ [])

  match_pattern-none :
      find_attr (λ v. v == some token) page page_attrs ≡ none
      → match_pattern regex page (entry_of [] (Pattern.literal token)) (Pattern.literal token)
        ≡ (false, entry_of [] (Pattern.literal token))
  unfolding match_pattern
  match_pattern-none n = rw (n, match_pattern) refl

  match_pattern-some :
      (attr : PageAttr)
      → find_attr (λ v. v == some token) page page_attrs ≡ some attr
      → match_pattern regex page (entry_of [] (Pattern.literal token)) (Pattern.literal token)
        ≡ (true, matched_entry token)
  unfolding match_pattern
  match_pattern-some attr e = rw (e, match_pattern) refl

  match_page-none :
      find_attr (λ v. v == some token) page page_attrs ≡ none
      → match_page regex page (entry_of [] (Pattern.literal token) ∷ [])
        ≡ ([], entry_of [] (Pattern.literal token) ∷ [])
  unfolding match_page
  match_page-none n = ap add_page (match_pattern-none n)

  match_page-some :
      (attr : PageAttr)
      → find_attr (λ v. v == some token) page page_attrs ≡ some attr
      → match_page regex page (entry_of [] (Pattern.literal token) ∷ [])
        ≡ (page ∷ [], matched_entry token ∷ [])
  unfolding match_page
  match_page-some attr e = ap add_page (match_pattern-some attr e)

match_pages-step :
    (regex : Regex) (page : Page) (pages found : List Page) (entries after : List Entry)
    → match_page regex page entries ≡ (found, after)
    → match_pages regex (page ∷ pages) entries
      ≡ (found ++ (match_pages regex pages after).0, (match_pages regex pages after).1)
unfolding match_pages
match_pages-step regex page pages found entries after h = rw h refl

-- What follows the loops.
abbrev finish : List Page × List Entry → Result (List Page)
finish r =
    if all_matched r.1
    then (if any_start_left r.1 then err value_error else ok r.0)
    else err value_error

select_literal :
    (regex : Regex) (token : Text) (pages : List Page)
    → select_entries regex pages (entry_of [] (Pattern.literal token) ∷ [])
      ≡ first_page (keep_if (has_value token) pages)
unfolding select_entries match_pages all_matched any_start_left keep_if
select_literal regex token [] = refl
select_literal regex token (page ∷ pages) =
    let entries = entry_of [] (Pattern.literal token) ∷ [] in
    let rest = keep_if (has_value token) pages in
    let kept : Option PageAttr → Result (List Page) =
      λ o. first_page (if is_some o then page ∷ rest else rest) in
    elim (Option-cases (find_attr (λ v. v == some token) page page_attrs)) [
      | inl n ↦
          ap finish (
            match_pages-step regex page pages [] entries entries
              (match_page-none regex token page n))
          ∙ select_literal regex token pages
          ∙ ap kept (sym n)
      | inr (attr, e) ↦
          let after = matched_entry token ∷ [] in
          ap finish (
            match_pages-step regex page pages (page ∷ []) entries after
              (match_page-some regex token page attr e))
          ∙ ap (λ r. finish (page ∷ r.0, r.1)) (match_pages-exhausted regex token pages)
          ∙ ap kept (sym e)
    ]

split-absent : (c : ℕ) (t : Text) → contains c t ≡ false → split_parts c t ≡ (t, [])
unfolding split_parts contains
split-absent c [] h = refl
split-absent c (d ∷ t) h = ground (arith, nat_beq_iff d c, nat_beq_iff c d, split-absent c t)

token_patterns-literal :
    (token : Text)
    → starts_with token (codes "//") ≡ false
    → split_once (codes "..") token ≡ none
    → token_patterns (token ∷ []) ≡ ok (entry_of [] (Pattern.literal token) ∷ [])
unfolding token_patterns token_pattern starts_with
token_patterns-literal token slashes dots = rw (slashes, dots) refl

-- What `get_physical_pages` does with the entries.
abbrev pages_of_entries : Regex → Tree → Result (List Entry) → Result (List Page)
pages_of_entries regex t (err e) = err e
pages_of_entries regex t (ok entries) =
    if any_empty_range entries then err index_error else select_entries regex (pages_of t) entries

-- For a text that is no list, no range and no regular expression, `get_physical_pages` gives the first page
-- that has it as one of its attributes, and only this one; without such a page it raises ValueError.
pub get_physical_pages-literal :
    (regex : Regex) (token : Text) (t : Tree)
    → contains b',' token ≡ false
    → starts_with token (codes "//") ≡ false
    → split_once (codes "..") token ≡ none
    → get_physical_pages regex token t ≡ first_page (keep_if (has_value token) (pages_of t))
unfolding get_physical_pages any_empty_range
get_physical_pages-literal regex token t comma slashes dots =
    ap (λ p. pages_of_entries regex t (token_patterns (p.0 ∷ p.1))) (split-absent b',' token comma)
    ∙ ap (pages_of_entries regex t) (token_patterns-literal token slashes dots)
    ∙ select_literal regex token (pages_of t)
