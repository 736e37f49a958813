-- ===== src/Validators/Checks.antt =====
-- validate_consistency of src/ocrd_validators/page_validator.py on one element whose children are
-- validated. Log messages are left out.
mod Fixed
pub mod Kept
pub mod Again
pub mod Each
pub mod Report
pub mod Repeat
mod Ordered
use ocr_d_core.Common.{
  Bool, true, false, ◌&&◌, ◌||◌, not, Option, none, some, List, [], ◌∷◌, ◌++◌, map, Text, codes,
  nat_eq, list_eq, option_eq, if◌then◌else◌, ◌==◌, is_nonempty,
}
use ocr_d_core.Common.Dict.{Dict}
use ocr_d_core.Common.Exec.{Result, ok, err}
use ocr_d_core.Validators.Elements.{
  Geometry, Kind, Element, Nodes, Groups, Made, made, refused, make_poly, make_line,
}
use ocr_d_core.Validators.Texts.{
  Characters, Strategy, compare_without_whitespace, get_text, set_text, concatenate,
}
use ocr_d_core.Validators.Order.{Place, in_reading_order, reversed}

-- The argument `page_textequiv_consistency`.
pub data Consistency : Type 0 where
  strict lax fix off : Consistency

-- ConsistencyError, CoordinateConsistencyError and CoordinateValidityError
pub data Error : Type 0 where
  text_error : (tag id actual expected : Text) → Error
  outside : (tag id : Text) → Error
  invalid : (tag id reason : Text) → Error

-- The arguments that the recursion hands on. The last two are `textLineOrder == BOTTOMTOTOP` and
-- `readingDirection == RIGHTTOLEFT`.
pub record Context : Type 0 where
  pub consistency : Consistency
  pub strategy : Strategy
  pub check_baseline : Bool
  pub check_coords : Bool
  pub joins : List (Text × Text)
  pub reading_order : Dict (Option Text) Place
  pub bottom_to_top : Bool
  pub right_to_left : Bool

-- A validated element: the result, what is added to the report, and the element afterwards.
pub record Checked (g : Geometry) : Type 0 where
  pub consistent : Bool
  pub errors : List Error
  pub element : Element g
  pub groups : Groups g
  pub children : Nodes g

-- The text level below an element, with the separator of its children.
abbrev pub separator_of : Kind → Option Text
separator_of Kind.text_region = some (codes "\n")
separator_of Kind.line = some (codes " ")
separator_of Kind.word = some []
separator_of _ = none

abbrev pub is_glyph : Kind → Bool
is_glyph Kind.glyph = true
is_glyph _ = false

abbrev pub is_line : Kind → Bool
is_line Kind.line = true
is_line _ = false

abbrev pub is_off : Consistency → Bool
is_off off = true
is_off _ = false

-- Whether the texts of an element and of its children differ.
abbrev pub differs : Text → Text → Bool
differs concatenated actual =
    is_nonempty concatenated && (is_nonempty actual && not (concatenated == actual))

module _ (g : Geometry) where
  -- What _ORDER says of the class of the element.
  abbrev pub order_in : Kind → Element g → Context → Context
  order_in Kind.page e c = record c {
    bottom_to_top = e.bottom_to_top;
    right_to_left = e.right_to_left;
  }
  order_in Kind.text_region e c = record c {
    bottom_to_top = e.bottom_to_top;
    right_to_left = e.right_to_left;
  }
  order_in Kind.line e c = record c { right_to_left = e.right_to_left }
  order_in Kind.word e c = record c { right_to_left = e.right_to_left }
  order_in Kind.region e c = c
  order_in Kind.glyph e c = c

  abbrev pub enter : Element g → Context → Context
  enter e c = order_in e.kind e c

  -- The state of the loop over the children: `consistent`, the report, and the element.
  pub record Loop : Type 0 where
    pub consistent : Bool
    pub errors : List Error
    pub element : Element g

  abbrev pub add_error : Error → Loop → Loop
  add_error error s = record s { consistent = false; errors = s.errors ++ error ∷ [] }

  -- `node_poly`, and the state before the children.
  unfoldable pub check_polygon : Context → Element g → Option g.Polygon × Loop
  check_polygon c e =
      let s : Loop = record { consistent = true; errors = []; element = e } in
      if c.check_coords || c.check_baseline
      then elim e.points [
        | none ↦ (none, s)
        | some points ↦ elim (make_poly g points) [
          | made poly ↦ (some poly, s)
          | refused reason ↦ (none, add_error (invalid e.tag e.id reason) s)
        ]
      ]
      else (none, s)

  -- Whether a child is within the polygon of its parent. A polygon that cannot be made is left to the
  -- validation of the child.
  unfoldable pub is_within : Option g.Polygon → Element g → Bool
  is_within none child = true
  is_within (some poly) child = elim child.points [
    | none ↦ true
    | some points ↦ elim (make_poly g points) [
      | made child_poly ↦ g.within child_poly poly
      | refused reason ↦ true
    ]
  ]

  -- The loop over the children of one getter.
  unfoldable pub check_children : Context → Option g.Polygon → List (Checked g) → Loop → Loop
  check_children c poly [] s = s
  check_children c poly (child ∷ children) s =
      let t : Loop = record s {
        consistent = child.consistent && s.consistent;
        errors = s.errors ++ child.errors;
      } in
      check_children c poly children (
        if c.check_coords && not (is_within poly child.element)
        then add_error (outside child.element.tag child.element.id) t
        else t)

  unfoldable pub is_line_within : Option g.Polygon → g.Line → Bool
  is_line_within none line = true
  is_line_within (some poly) line = g.line_within line poly

  unfoldable pub check_baseline : Context → Option g.Polygon → Loop → Loop
  check_baseline c poly s =
      if is_line s.element.kind && c.check_baseline
      then elim s.element.baseline [
        | none ↦ s
        | some points ↦ elim (make_line g points) [
          | refused reason ↦ add_error (invalid (codes "Baseline") s.element.id reason) s
          | made line ↦
              if is_line_within poly line
              then s
              else add_error (outside (codes "Baseline") s.element.id) s
        ]
      ]
      else s

  -- The order of the children of a getter of regions.
  abbrev pub arrange_group : Context → Bool → List (Checked g) → Result (List (Checked g))
  arrange_group c true children =
      in_reading_order c.reading_order (map (λ child. (child.element.id, child)) children)
  arrange_group c false children = ok children

  -- The children of the getters of regions.
  unfoldable pub check_groups :
      Context → Option g.Polygon → List (Bool × List (Checked g)) → Loop → Result Loop
  check_groups c poly [] s = ok s
  check_groups c poly ((is_text, children) ∷ groups) s = elim (arrange_group c is_text children) [
    | err e ↦ err e
    | ok found ↦ check_groups c poly groups (check_children c poly found s)
  ]

  -- The order of lines, words and glyphs.
  unfoldable pub arrange : Context → Kind → List (Checked g) → List (Checked g)
  arrange c Kind.text_region children = if c.bottom_to_top then reversed children else children
  arrange c _ children = if c.right_to_left then reversed children else children

  unfoldable pub nodes_of : List (Checked g) → Nodes g
  nodes_of [] = Nodes.nil
  nodes_of (child ∷ children) =
      Nodes.cons child.element child.groups child.children (nodes_of children)

  unfoldable pub groups_of : List (Bool × List (Checked g)) → Groups g
  groups_of [] = Groups.end
  groups_of ((is_text, children) ∷ groups) =
      Groups.group is_text (nodes_of children) (groups_of groups)

module _ (g : Geometry) (chars : Characters) where
  abbrev pub text_of : Context → Element g → Text
  text_of c e = get_text chars c.strategy e.equivs

  -- What is done about a text that differs from that of the children.
  unfoldable pub report_text : Context → Text → Text → Loop g → Loop g
  report_text c concatenated actual s = elim c.consistency [
    | fix ↦ record s {
      consistent = false;
      element = record s.element {
        equivs = set_text chars c.strategy concatenated s.element.equivs;
      };
    }
    | strict ↦ add_error g (text_error s.element.tag s.element.id actual concatenated) s
    | lax ↦
        if compare_without_whitespace chars concatenated actual
        then record s { consistent = false }
        else add_error g (text_error s.element.tag s.element.id actual concatenated) s
    | off ↦ s
  ]

  unfoldable pub check_text : Context → Text → List (Element g) → Loop g → Loop g
  check_text c separator children s =
      let concatenated =
        concatenate chars c.joins separator (map (λ e. (e.id, text_of c e)) children) in
      let actual = text_of c s.element in
      if is_off c.consistency
      then s
      else if differs concatenated actual
      then report_text c concatenated actual s
      else s

  -- The lines, words or glyphs.
  unfoldable pub check_texts : Context → Option g.Polygon → List (Checked g) → Loop g → Loop g
  check_texts c poly children s = elim (separator_of s.element.kind) [
    | none ↦ s
    | some separator ↦
        let arranged = arrange g c s.element.kind children in
        check_text c separator (map (λ child. child.element) arranged)
          (check_baseline g c poly (check_children g c poly arranged s))
  ]

  -- An element whose children are validated.
  unfoldable pub check_element :
      Context → Element g → List (Bool × List (Checked g)) → List (Checked g) → Result (Checked g)
  check_element c e groups children =
      let (poly, s) = check_polygon g c e in
      elim (check_groups g c poly groups s) [
        | err x ↦ err x
        | ok t ↦
            let u = check_texts c poly children t in
            ok (record {
              consistent = u.consistent;
              errors = u.errors;
              element = u.element;
              groups = groups_of g groups;
              children = nodes_of g children;
            })
      ]
