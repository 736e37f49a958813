-- ===== src/Validators/Page.antt =====
-- The recursion of validate_consistency of src/ocrd_validators/page_validator.py. The children of an
-- element are validated one by one, each without regard to the others; what the report says of them
-- is then put into the order in which the source goes through them.
mod Steps
pub mod Errors
pub mod Levels
pub mod Unchanged
pub mod Returns
pub mod Fix
use ocr_d_core.Common.{
  Bool, true, false, ◌||◌, not, Option, none, some, List, [], ◌∷◌, Text, codes, if◌then◌else◌, ◌==◌,
  nat_eq, list_eq, starts_with,
}
use ocr_d_core.Common.Dict.{Dict}
use ocr_d_core.Common.Exec.{Result, ok, err, failure}
use ocr_d_core.Validators.Elements.{Geometry, Element, Nodes, Groups}
use ocr_d_core.Validators.Texts.{Characters, Strategy, first, best}
use ocr_d_core.Validators.Order.{Place, Refs, page_get_reading_order}
use ocr_d_core.Validators.Checks.{
  Consistency, strict, lax, fix, off, Context, Checked, Error, is_glyph, enter, check_element,
}

module _ {A : Type 0} where
  -- A result before those of the others.
  abbrev pub also : Result A → Result (List A) → Result (List A)
  also (err e) others = err e
  also (ok a) (err e) = err e
  also (ok a) (ok as_list) = ok (a ∷ as_list)

module _ (g : Geometry) where
  -- Glyphs are not looked at.
  abbrev pub untouched : Element g → Groups g → Nodes g → Checked g
  untouched e groups children = record {
    consistent = true;
    errors = [];
    element = e;
    groups = groups;
    children = children;
  }

  abbrev pub with_flag : Bool → Result (List (Checked g)) → Result (Bool × List (Checked g))
  with_flag is_text (err x) = err x
  with_flag is_text (ok children) = ok (is_text, children)

module _ (g : Geometry) (chars : Characters) where
  abbrev pub check_with :
      Context
      → Element g
      → Result (List (Bool × List (Checked g)))
      → Result (List (Checked g))
      → Result (Checked g)
  check_with c e (err x) children = err x
  check_with c e (ok groups) (err x) = err x
  check_with c e (ok groups) (ok children) = check_element g chars c e groups children

  unfoldable mutual
    pub validate_nodes : Context → Nodes g → Result (List (Checked g))
    validate_nodes c Nodes.nil = ok []
    validate_nodes c (Nodes.cons e groups children rest) =
        also
          (if is_glyph e.kind
            then ok (untouched g e groups children)
            else check_with (enter g e c) e (validate_groups (enter g e c) groups)
                (validate_nodes (enter g e c) children))
          (validate_nodes c rest)

    pub validate_groups : Context → Groups g → Result (List (Bool × List (Checked g)))
    validate_groups c Groups.end = ok []
    validate_groups c (Groups.group is_text nodes groups) =
        also (with_flag g is_text (validate_nodes c nodes)) (validate_groups c groups)

-- A relation of the page: its type, and the regions that it refers to.
pub record Relation : Type 0 where
  pub type : Text
  pub source : Text
  pub target : Text

-- PcGtsType. The id of the page element is the one of the document. The reading order is the first
-- of the ordered and the unordered group.
pub record PcGts (g : Geometry) : Type 0 where
  pub page : Element g
  pub regions : Groups g
  pub reading_order : Option (Bool × Refs)
  pub relations : List Relation

-- The relations of type join.
unfoldable pub join_relations : List Relation → List (Text × Text)
join_relations [] = []
join_relations (r ∷ relations) =
    let rest = join_relations relations in
    if r.type == codes "join" then (r.source, r.target) ∷ rest else rest

unfoldable pub reading_order_of : Option (Bool × Refs) → Dict (Option Text) Place
reading_order_of none = []
reading_order_of (some (ordered, refs)) = page_get_reading_order ordered refs []

-- `a in b` for texts
unfoldable pub is_part_of : Text → Text → Bool
is_part_of a [] = starts_with [] a
is_part_of a (c ∷ b) = starts_with (c ∷ b) a || is_part_of a b

abbrev pub strategy_of : Text → Strategy
strategy_of t = if t == codes "best" then best else first

-- The names of `page_textequiv_consistency`.
abbrev pub consistency_of : Text → Option Consistency
consistency_of t =
    if t == codes "strict"
    then some strict
    else if t == codes "lax"
    then some lax
    else if t == codes "fix"
    then some fix
    else if t == codes "off"
    then some off
    else none

module _ (g : Geometry) (chars : Characters) where
  abbrev pub start :
      Consistency → Strategy → (check_baseline check_coords : Bool) → PcGts g → Context
  start consistency strategy baseline coords doc = record {
    consistency = consistency;
    strategy = strategy;
    check_baseline = baseline;
    check_coords = coords;
    joins = join_relations doc.relations;
    reading_order = reading_order_of doc.reading_order;
    bottom_to_top = false;
    right_to_left = false;
  }

  -- A page has no lines, words or glyphs.
  unfoldable pub validate_page : Context → Element g → Groups g → Result (Checked g)
  validate_page c e regions =
      check_with g chars (enter g e c) e (validate_groups g chars (enter g e c) regions) (ok [])

  -- The report and the page after the validation of a document.
  abbrev pub report_of : PcGts g → Result (Checked g) → Result (List Error × PcGts g)
  report_of doc (err x) = err x
  report_of doc (ok r) = ok (r.errors, record doc { page = r.element; regions = r.groups })

  abbrev pub validate_at :
      Option Consistency
      → Strategy
      → (check_baseline check_coords : Bool) → PcGts g
      → Result (List Error × PcGts g)
  validate_at none strategy baseline coords doc = err failure
  validate_at (some level) strategy baseline coords doc =
      report_of doc (validate_page (start level strategy baseline coords doc) doc.page doc.regions)

  -- `PageValidator.validate` of a page that is read: what the report says, and the page afterwards.
  unfoldable pub validate :
      (consistency strategy : Text) (check_baseline check_coords : Bool)
      → PcGts g
      → Result (List Error × PcGts g)
  validate consistency strategy baseline coords doc =
      let result =
        validate_at (consistency_of consistency) (strategy_of strategy) baseline coords doc in
      if not (is_part_of strategy (codes "first")) then err failure else result
