-- ===== src/Tests/Validation.antt =====
-- A page with a text region of two lines, on which the theorems about
-- src/ocrd_validators/page_validator.py are used.
use ocr_d_core.Common.{
  lstrip, rstrip, ◌≡◌, refl, ℕ, Text, codes, Bool, true, false, none, some, List, [], ◌∷◌, keep_if,
  nat_eq, list_eq, option_eq, not, is_nonempty, starts_with, ◌==◌,
}
use ocr_d_core.Common.Sort.{insert_by, sort_by}
use ocr_d_core.Common.Dict.{get, put}
use ocr_d_core.Common.Exec.{ok}
use ocr_d_core.Validators.Elements.{
  Geometry, TextEquiv, Kind, Element, Nodes, Groups, make_poly, make_line,
}
use ocr_d_core.Validators.Texts.{
  Characters, first, contains_pair, enumerate_from, sorted_equivs, position, unicode_at,
  set_unicode_at, get_text, set_text, join_texts, concatenate,
}
use ocr_d_core.Validators.Order.{
  Refs, region_ref, page_get_reading_order, all_placed, with_index, in_reading_order, reversed,
}
use ocr_d_core.Validators.Checks.{
  strict, Context, Checked, Error, text_error, check_polygon, is_within, check_children,
  is_line_within, check_baseline, report_text, check_text, check_groups, arrange, check_texts,
  nodes_of, groups_of, check_element,
}
use ocr_d_core.Validators.Checks.Repeat.{at_level}
use ocr_d_core.Validators.Page.{
  PcGts, join_relations, reading_order_of, is_part_of, start, validate_nodes, validate_groups,
  validate_page, validate,
}
use ocr_d_core.Validators.Page.Fix.{validate-fix}
use ocr_d_core.Validators.Page.Levels.{has_text_error, validate_page-strict}
use ocr_d_core.Validators.Page.Unchanged.{validate-unchanged}
use ocr_d_core.Validators.Page.Returns.{validate-returns}

-- Polygons and lines by their points, all of them valid.
abbrev plane : Geometry
plane = record {
  Number = ℕ;
  Polygon = List (ℕ × ℕ);
  Line = List (ℕ × ℕ);
  polygon = λ points. points;
  explain = λ p. none;
  is_empty = λ p. false;
  is_negative = λ p. false;
  within = λ a b. true;
  line = λ points. points;
  explain_line = λ l. none;
  is_empty_line = λ l. false;
  is_negative_line = λ l. false;
  line_within = λ a b. true;
}

abbrev ascii : Characters
ascii = record { is_space = λ c. c == 32; float_lt = λ a b. false }

abbrev text_result : Text → TextEquiv
text_result t = record { index = none; conf = none; unicode = t }

abbrev element : Kind → (tag id text : Text) → Element plane
element kind tag id text = record {
  kind = kind;
  tag = tag;
  id = id;
  equivs = text_result text ∷ [];
  points = some ((0, 0) ∷ (9, 0) ∷ (9, 9) ∷ (0, 9) ∷ []);
  baseline = none;
  bottom_to_top = false;
  right_to_left = false;
}

abbrev lines : Nodes plane
lines =
    Nodes.cons (element Kind.line (codes "TextLine") (codes "l1") (codes "a")) Groups.end Nodes.nil
      (Nodes.cons (element Kind.line (codes "TextLine") (codes "l2") (codes "b")) Groups.end
        Nodes.nil Nodes.nil)

-- The document, with the text of the region.
abbrev document : Text → PcGts plane
document text = record {
  page = element Kind.page (codes "Page") (codes "P") [];
  regions =
      Groups.group true
        (Nodes.cons (element Kind.text_region (codes "TextRegion") (codes "r") text) Groups.end
          lines Nodes.nil)
        Groups.end;
  reading_order = some (true, region_ref (some (codes "r")) (some 0) Refs.nil);
  relations = [];
}

fix_runs :
    validate plane ascii (codes "fix") (codes "first") true true (document (codes "ab"))
    ≡ ok ([], document (codes "a\nb"))
unfolding validate validate_page validate_nodes validate_groups check_element check_polygon
    is_within check_children is_line_within check_baseline report_text check_text check_groups
    arrange check_texts nodes_of groups_of make_poly make_line lstrip rstrip insert_by sort_by
    contains_pair enumerate_from sorted_equivs position unicode_at set_unicode_at get_text set_text
    join_texts concatenate page_get_reading_order all_placed with_index in_reading_order reversed
    join_relations reading_order_of is_part_of starts_with get put keep_if
fix_runs = refl

validate-fix_example :
    (validate plane ascii (codes "strict") (codes "first") true true (document (codes "a\nb"))
      ≡ ok ([], document (codes "a\nb")))
    × (has_text_error [] ≡ false)
validate-fix_example =
    validate-fix plane ascii (codes "first") true true (document (codes "ab"))
      (document (codes "a\nb")) [] fix_runs

abbrev region_error : Error
region_error = text_error (codes "TextRegion") (codes "r") (codes "ab") (codes "a\nb")

strict_runs :
    validate plane ascii (codes "strict") (codes "first") true true (document (codes "ab"))
    ≡ ok (region_error ∷ [], document (codes "ab"))
unfolding validate validate_page validate_nodes validate_groups check_element check_polygon
    is_within check_children is_line_within check_baseline report_text check_text check_groups
    arrange check_texts nodes_of groups_of make_poly make_line lstrip rstrip insert_by sort_by
    contains_pair enumerate_from sorted_equivs position unicode_at set_unicode_at get_text set_text
    join_texts concatenate page_get_reading_order all_placed with_index in_reading_order reversed
    join_relations reading_order_of is_part_of starts_with get put keep_if
strict_runs = refl

validate-unchanged_example : document (codes "ab") ≡ document (codes "ab")
validate-unchanged_example =
    validate-unchanged plane ascii (codes "strict") (codes "first") true true
      (document (codes "ab")) (document (codes "ab")) (region_error ∷ []) (λ h. absurd cc)
      strict_runs

validate-returns_example :
    (errors : List Error) × (after : PcGts plane) × (validate plane ascii
        (codes "strict")
        (codes "first")
        true
        true
        (document (codes "ab"))
      ≡ ok (errors, after))
unfolding is_part_of starts_with
validate-returns_example =
    validate-returns plane ascii (codes "strict") (codes "first") true true (document (codes "ab"))
      refl refl refl

-- A document at the level strict.
abbrev at_start : Text → Context
at_start text = start plane ascii strict first true true (document text)

abbrev checked : Text → Bool → List Error → Checked plane
checked text consistent errors = record {
  consistent = consistent;
  errors = errors;
  element = (document text).page;
  groups = (document text).regions;
  children = Nodes.nil;
}

page_runs :
    (validate_page plane ascii
        (at_level strict (at_start (codes "ab")))
        (document (codes "ab")).page
        (document (codes "ab")).regions
      ≡ ok (checked (codes "ab") false (region_error ∷ [])))
    × (validate_page plane ascii
          (at_level strict (at_start (codes "a\nb")))
          (document (codes "a\nb")).page
          (document (codes "a\nb")).regions
        ≡ ok (checked (codes "a\nb") true []))
unfolding validate validate_page validate_nodes validate_groups check_element check_polygon
    is_within check_children is_line_within check_baseline report_text check_text check_groups
    arrange check_texts nodes_of groups_of make_poly make_line lstrip rstrip insert_by sort_by
    contains_pair enumerate_from sorted_equivs position unicode_at set_unicode_at get_text set_text
    join_texts concatenate page_get_reading_order all_placed with_index in_reading_order reversed
    join_relations reading_order_of is_part_of starts_with get put keep_if
page_runs = (refl, refl)

validate_page-strict_example : false ≡ not (is_nonempty (region_error ∷ []))
validate_page-strict_example =
    validate_page-strict plane ascii (at_start (codes "ab")) (document (codes "ab")).page
      (document (codes "ab")).regions (checked (codes "ab") false (region_error ∷ [])) page_runs.0
