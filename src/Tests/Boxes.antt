-- ===== src/Tests/Boxes.antt =====
-- A box and its corners, on which the theorems about src/ocrd_utils/image.py are used.
use ocr_d_core.Common.{◌≡◌, refl, subst, sym, arith, List, [], ◌∷◌, inl, inr}
use ocr_d_core.Common.Int.{pos, ◌+ℤ◌}
use ocr_d_core.Utils.Boxes.{
  Point, Box, Xywh, bbox_from_polygon, bbox_from_xywh, polygon_from_xywh, xywh_from_polygon,
}
use ocr_d_core.Utils.Boxes.Bounds.{IsInside, IsWithin, bbox_from_polygon-least}
use ocr_d_core.Utils.Boxes.Convert.{xywh_from_polygon-polygon_from_xywh}

abbrev area : Xywh
area = record { x = pos 2; y = pos 3; w = pos 4; h = pos 5 }

xywh_from_polygon-polygon_from_xywh_example : xywh_from_polygon 99 (polygon_from_xywh area) ≡ area
unfolding bbox_from_xywh ◌+ℤ◌
xywh_from_polygon-polygon_from_xywh_example =
    xywh_from_polygon-polygon_from_xywh 99 area
      (omega arith, omega arith, omega arith, omega arith, omega arith, omega arith)

abbrev corner : Point
corner = (pos 2, pos 3)

abbrev line : List Point
line = corner ∷ (pos 6, pos 1) ∷ []

abbrev sheet : Box
sheet = record { minx = pos 0; miny = pos 0; maxx = pos 9; maxy = pos 9 }

bbox_from_polygon-least_example :
    IsInside (bbox_from_polygon 99 line) corner × IsWithin (bbox_from_polygon 99 line) sheet
bbox_from_polygon-least_example =
    bbox_from_polygon-least 99 line sheet (omega arith, omega arith, omega arith, omega arith)
      (λ p m. elim m [
        | inl e ↦
            subst (IsInside sheet) (sym e) (omega arith, omega arith, omega arith, omega arith)
        | inr (inl e) ↦
            subst (IsInside sheet) (sym e) (omega arith, omega arith, omega arith, omega arith)
        | inr (inr k) ↦ absurd k
      ])
      corner (inl refl)
