-- ===== src/Validators/Elements.antt =====
-- What src/ocrd_validators/page_validator.py reads of a PAGE-XML file. The classes of
-- ocrd_page_generateds.py are generated from the schema, whose required parts are always there.
use ocr_d_core.Common.{
  ℕ, Bool, true, false, Option, none, some, List, Text, codes, if◌then◌else◌, ltb, length, ◌≡◌,
  refl, ◌⊎◌, inl, inr,
}

-- shapely, and the points of Coords and Baseline as numbers.
pub record Geometry : Type 1 where
  pub Number : Type 0
  pub Polygon : Type 0
  pub Line : Type 0
  -- `Polygon(points).simplify(POLY_TOLERANCE)`
  pub polygon : List (Number × Number) → Polygon
  -- `explain_validity` of a polygon that is not valid
  pub explain : Polygon → Option Text
  pub is_empty : Polygon → Bool
  pub is_negative : Polygon → Bool
  -- `child.within(parent.buffer(PARENT_SLACK))`
  pub within : Polygon → Polygon → Bool
  pub line : List (Number × Number) → Line
  pub explain_line : Line → Option Text
  pub is_empty_line : Line → Bool
  pub is_negative_line : Line → Bool
  pub line_within : Line → Polygon → Bool

-- TextEquivType
pub record TextEquiv : Type 0 where
  pub index : Option ℕ
  pub conf : Option Text
  pub unicode : Text

pub data Kind : Type 0 where
  page region text_region line word glyph : Kind

-- An element without its children. The points of a page are those of its Border, if it has one.
pub record Element (g : Geometry) : Type 0 where
  pub kind : Kind
  pub tag : Text
  pub id : Text
  pub equivs : List TextEquiv
  pub points : Option (List (g.Number × g.Number))
  pub baseline : Option (List (g.Number × g.Number))
  -- `get_textLineOrder()` is BOTTOMTOTOP, `get_readingDirection()` is RIGHTTOLEFT
  pub bottom_to_top : Bool
  pub right_to_left : Bool

-- Elements with their children: for each getter of regions, in the order of _HIERARCHY, those that it
-- gives, and the text lines, words or glyphs.
mutual
  pub data Nodes (g : Geometry) : Type 0 where
    nil : Nodes g
    cons : Element g → Groups g → Nodes g → Nodes g → Nodes g

  -- Whether the getter is get_TextRegion.
  pub data Groups (g : Geometry) : Type 0 where
    end : Groups g
    group : Bool → Nodes g → Groups g → Groups g

-- A polygon or the reason why there is none.
pub data Made (A : Type 0) : Type 0 where
  made : A → Made A
  refused : Text → Made A

-- `is_valid`, `is_empty` and `bounds` of a geometry
abbrev pub judged : {A : Type 0} → A → Option Text → Bool → Bool → Made A
judged a (some reason) empty negative = refused reason
judged a none true negative = refused (codes "is empty")
judged a none false true = refused (codes "is negative")
judged a none false false = made a

module _ (g : Geometry) where
  unfoldable pub make_poly : List (g.Number × g.Number) → Made g.Polygon
  make_poly points =
      let poly = g.polygon points in
      if ltb (length points) 4
      then refused (codes "has too few points")
      else judged poly (g.explain poly) (g.is_empty poly) (g.is_negative poly)

  unfoldable pub make_line : List (g.Number × g.Number) → Made g.Line
  make_line points =
      let line = g.line points in
      if ltb (length points) 2
      then refused (codes "has too few points")
      else judged line (g.explain_line line) (g.is_empty_line line) (g.is_negative_line line)

pub Made-cases :
    {A : Type 0} (m : Made A) → ((a : A) × (m ≡ made a)) ⊎ ((reason : Text) × (m ≡ refused reason))
Made-cases (made a) = inl (a, refl)
Made-cases (refused reason) = inr (reason, refl)
