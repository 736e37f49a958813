-- ===== src/Utils/Boxes/Bounds.antt =====
-- The bounding box of a polygon is the least box around its points.
use ocr_d_core.Common.{ℕ, List, [], ◌∷◌, In, inl, inr, refl, subst, sym, arith}
use ocr_d_core.Common.Int.{ℤ, ◌≤ℤ◌}
use ocr_d_core.Utils.Boxes.{Point, Box, lowered, raised, extend_box, empty_box, bbox_from_polygon}

abbrev pub IsInside : Box → Point → Type 0
IsInside b p = (b.minx ≤ℤ p.0) × (p.0 ≤ℤ b.maxx) × (b.miny ≤ℤ p.1) × (p.1 ≤ℤ b.maxy)

abbrev pub IsWithin : Box → Box → Type 0
IsWithin a b = (b.minx ≤ℤ a.minx) × (a.maxx ≤ℤ b.maxx) × (b.miny ≤ℤ a.miny) × (a.maxy ≤ℤ b.maxy)

pub ≤ℤ_refl : (a : ℤ) → a ≤ℤ a
≤ℤ_refl a = omega arith

pub ≤ℤ_trans : (a b c : ℤ) → a ≤ℤ b → b ≤ℤ c → a ≤ℤ c
≤ℤ_trans a b c h k = omega (arith, h, k)

lowered_old : (a b : ℤ) → lowered a b ≤ℤ b
lowered_old a b = ground arith

lowered_new : (a b : ℤ) → lowered a b ≤ℤ a
lowered_new a b = ground arith

raised_old : (a b : ℤ) → b ≤ℤ raised a b
raised_old a b = ground arith

raised_new : (a b : ℤ) → a ≤ℤ raised a b
raised_new a b = ground arith

lowered_above : (c a b : ℤ) → c ≤ℤ a → c ≤ℤ b → c ≤ℤ lowered a b
lowered_above c a b h k = ground arith

raised_below : (c a b : ℤ) → a ≤ℤ c → b ≤ℤ c → raised a b ≤ℤ c
raised_below c a b h k = ground arith

-- The box after one point.
abbrev stepped : Point → Box → Box
stepped p b = record {
  minx = lowered p.0 b.minx;
  miny = lowered p.1 b.miny;
  maxx = raised p.0 b.maxx;
  maxy = raised p.1 b.maxy;
}

IsWithin-trans : (a b c : Box) → IsWithin a b → IsWithin b c → IsWithin a c
IsWithin-trans a b c h k = (
  ≤ℤ_trans c.minx b.minx a.minx k.0 h.0,
  ≤ℤ_trans a.maxx b.maxx c.maxx h.1 k.1,
  ≤ℤ_trans c.miny b.miny a.miny k.2 h.2,
  ≤ℤ_trans a.maxy b.maxy c.maxy h.3 k.3,
)

stepped-IsWithin : (p : Point) (b : Box) → IsWithin b (stepped p b)
stepped-IsWithin p b =
    (lowered_old p.0 b.minx, raised_old p.0 b.maxx, lowered_old p.1 b.miny, raised_old p.1 b.maxy)

stepped-IsInside : (p : Point) (b : Box) → IsInside (stepped p b) p
stepped-IsInside p b =
    (lowered_new p.0 b.minx, raised_new p.0 b.maxx, lowered_new p.1 b.miny, raised_new p.1 b.maxy)

IsInside-IsWithin : (p : Point) (a b : Box) → IsInside a p → IsWithin a b → IsInside b p
IsInside-IsWithin p a b h k = (
  ≤ℤ_trans b.minx a.minx p.0 k.0 h.0,
  ≤ℤ_trans p.0 a.maxx b.maxx h.1 k.1,
  ≤ℤ_trans b.miny a.miny p.1 k.2 h.2,
  ≤ℤ_trans p.1 a.maxy b.maxy h.3 k.3,
)

extend_box-IsWithin : (polygon : List Point) (b : Box) → IsWithin b (extend_box polygon b)
unfolding extend_box
extend_box-IsWithin [] b = (≤ℤ_refl b.minx, ≤ℤ_refl b.maxx, ≤ℤ_refl b.miny, ≤ℤ_refl b.maxy)
extend_box-IsWithin (p ∷ polygon) b =
    IsWithin-trans b (stepped p b) _ (stepped-IsWithin p b)
      (extend_box-IsWithin polygon (stepped p b))

extend_box-IsInside :
    (polygon : List Point) (b : Box) (p : Point) → In p polygon → IsInside (extend_box polygon b) p
unfolding extend_box
extend_box-IsInside [] b p m = absurd m
extend_box-IsInside (q ∷ polygon) b p (inl e) =
    subst (IsInside (extend_box polygon (stepped q b))) (sym e) (
      IsInside-IsWithin q (stepped q b) _ (stepped-IsInside q b)
        (extend_box-IsWithin polygon (stepped q b)))
extend_box-IsInside (q ∷ polygon) b p (inr m) = extend_box-IsInside polygon (stepped q b) p m

extend_box-least :
    (polygon : List Point) (a b : Box)
    → IsWithin a b
    → ((p : Point) → In p polygon → IsInside b p)
    → IsWithin (extend_box polygon a) b
unfolding extend_box
extend_box-least [] a b h k = h
extend_box-least (p ∷ polygon) a b h k =
    let i = k p (inl refl) in
    extend_box-least polygon (stepped p a) b
      (
        lowered_above b.minx p.0 a.minx i.0 h.0,
        raised_below b.maxx p.0 a.maxx i.1 h.1,
        lowered_above b.miny p.1 a.miny i.2 h.2,
        raised_below b.maxy p.1 a.maxy i.3 h.3,
      )
      (λ q m. k q (inr m))

-- The bounding box has every point of the polygon in it, and is within every box that has them in it
-- and that does not begin above sys.maxsize or end below its negation.
pub bbox_from_polygon-least :
    (maxsize : ℕ) (polygon : List Point) (b : Box)
    → IsWithin (empty_box maxsize) b
    → ((p : Point) → In p polygon → IsInside b p)
    → (p : Point) → In p polygon
    → IsInside (bbox_from_polygon maxsize polygon) p
      × IsWithin (bbox_from_polygon maxsize polygon) b
unfolding bbox_from_polygon
bbox_from_polygon-least maxsize polygon b h k p m = (
  extend_box-IsInside polygon (empty_box maxsize) p m,
  extend_box-least polygon (empty_box maxsize) b h k,
)
