-- ===== src/Utils/Boxes/Convert.antt =====
-- Conversions there and back.
use ocr_d_core.Common.{ℕ, suc, In, inl, inr, ◌≡◌, refl, ap, sym, subst, ◌∙◌, arith}
use ocr_d_core.Common.Int.{ℤ, pos, negsuc, ◌+ℤ◌, ◌≤ℤ◌}
use ocr_d_core.Utils.Boxes.{
  ◌-ℤ◌, Point, empty_box, Box, Xywh, bbox_from_polygon, bbox_from_xywh, polygon_from_bbox,
  polygon_from_xywh, xywh_from_bbox, xywh_from_polygon,
}
use ocr_d_core.Utils.Boxes.Bounds.{IsInside, IsWithin, ≤ℤ_refl, ≤ℤ_trans, bbox_from_polygon-least}

sub-add : (a b : ℤ) → (a +ℤ b) -ℤ a ≡ b
unfolding ◌+ℤ◌ ◌-ℤ◌
sub-add (pos a) (pos b) = ground arith
sub-add (pos a) (negsuc b) = ground arith
sub-add (negsuc a) (pos b) = ground arith
sub-add (negsuc a) (negsuc b) = ground arith

box_path :
    {a b c d e f g h : ℤ}
    → a ≡ e
    → b ≡ f
    → c ≡ g
    → d ≡ h
    → ◌≡◌ {A = Box}
        (record { minx = a; miny = b; maxx = c; maxy = d })
        (record { minx = e; miny = f; maxx = g; maxy = h })
box_path p q r s = cc

xywh_path :
    {a b c d e f g h : ℤ}
    → a ≡ e
    → b ≡ f
    → c ≡ g
    → d ≡ h
    → ◌≡◌ {A = Xywh} (record { x = a; y = b; w = c; h = d }) (record { x = e; y = f; w = g; h = h })
xywh_path p q r s = cc

-- A box whose sides are in order and within the range is the bounding box of its corners.
abbrev pub IsOrdered : ℕ → Box → Type 0
IsOrdered maxsize b =
    (b.minx ≤ℤ b.maxx)
    × (b.miny ≤ℤ b.maxy)
    × (negsuc maxsize ≤ℤ b.minx)
    × (negsuc maxsize ≤ℤ b.miny)
    × (b.maxx ≤ℤ pos (suc maxsize))
    × (b.maxy ≤ℤ pos (suc maxsize))

≤ℤ_antisym : (a b : ℤ) → a ≤ℤ b → b ≤ℤ a → a ≡ b
≤ℤ_antisym (pos a) (pos b) h k = ap pos (omega arith)
≤ℤ_antisym (pos a) (negsuc b) h k = absurd (omega arith)
≤ℤ_antisym (negsuc a) (pos b) h k = absurd (omega arith)
≤ℤ_antisym (negsuc a) (negsuc b) h k = ap negsuc (omega arith)

corners-IsInside :
    (maxsize : ℕ) (b : Box)
    → IsOrdered maxsize b
    → (p : Point) → In p (polygon_from_bbox b)
    → IsInside b p
unfolding polygon_from_bbox
corners-IsInside maxsize b (x, y, _, _, _, _) p m = elim m [
  | inl e ↦ subst (IsInside b) (sym e) (≤ℤ_refl b.minx, x, ≤ℤ_refl b.miny, y)
  | inr (inl e) ↦ subst (IsInside b) (sym e) (x, ≤ℤ_refl b.maxx, ≤ℤ_refl b.miny, y)
  | inr (inr (inl e)) ↦ subst (IsInside b) (sym e) (x, ≤ℤ_refl b.maxx, y, ≤ℤ_refl b.maxy)
  | inr (inr (inr (inl e))) ↦ subst (IsInside b) (sym e) (≤ℤ_refl b.minx, x, y, ≤ℤ_refl b.maxy)
  | inr (inr (inr (inr k))) ↦ absurd k
]

bbox_from_polygon-polygon_from_bbox :
    (maxsize : ℕ) (b : Box)
    → IsOrdered maxsize b
    → bbox_from_polygon maxsize (polygon_from_bbox b) ≡ b
unfolding polygon_from_bbox
bbox_from_polygon-polygon_from_bbox maxsize b o =
    let (x, y, p, q, r, s) = o in
    let found = bbox_from_polygon maxsize (polygon_from_bbox b) in
    let within : IsWithin (empty_box maxsize) b = (
      ≤ℤ_trans b.minx b.maxx (pos (suc maxsize)) x r,
      ≤ℤ_trans (negsuc maxsize) b.minx b.maxx p x,
      ≤ℤ_trans b.miny b.maxy (pos (suc maxsize)) y s,
      ≤ℤ_trans (negsuc maxsize) b.miny b.maxy q y,
    ) in
    let least =
      bbox_from_polygon-least maxsize (polygon_from_bbox b) b within
        (corners-IsInside maxsize b o) in
    let (low, inside) = least (b.minx, b.miny) (inl refl) in
    let (high, _) = least (b.maxx, b.maxy) (inr (inr (inl refl))) in
    box_path (≤ℤ_antisym found.minx b.minx low.0 inside.0)
      (≤ℤ_antisym found.miny b.miny low.2 inside.2) (≤ℤ_antisym found.maxx b.maxx inside.1 high.1)
      (≤ℤ_antisym found.maxy b.maxy inside.3 high.3)

-- A box given by its position and its size, whose corners are in order and within the range of
-- sys.maxsize, is found again from the polygon of its corners.
pub xywh_from_polygon-polygon_from_xywh :
    (maxsize : ℕ) (b : Xywh)
    → IsOrdered maxsize (bbox_from_xywh b)
    → xywh_from_polygon maxsize (polygon_from_xywh b) ≡ b
unfolding xywh_from_polygon polygon_from_xywh xywh_from_bbox bbox_from_xywh
xywh_from_polygon-polygon_from_xywh maxsize b o =
    ap xywh_from_bbox (bbox_from_polygon-polygon_from_bbox maxsize (bbox_from_xywh b) o)
    ∙ xywh_path refl refl (sub-add b.x b.w) (sub-add b.y b.h)
