-- ===== src/Utils/Boxes.antt =====
-- Polygons, bounding boxes and their conversions in src/ocrd_utils/image.py, for integers as
-- coordinates.
pub mod Bounds
pub mod Convert
use ocr_d_core.Common.{ℕ, suc, ◌+◌, Bool, List, [], ◌∷◌, if◌then◌else◌, ltb}
use ocr_d_core.Common.Int.{ℤ, pos, negsuc, pos_part, neg_part, sub_ℕ, ◌+ℤ◌}

-- `a < b`
abbrev pub lt_int : ℤ → ℤ → Bool
lt_int a b = ltb (pos_part a + neg_part b) (pos_part b + neg_part a)

infixl 65 ◌-ℤ◌
unfoldable pub ◌-ℤ◌ : ℤ → ℤ → ℤ
a -ℤ b = sub_ℕ (pos_part a + neg_part b) (neg_part a + pos_part b)

abbrev pub Point : Type 0
Point = ℤ × ℤ

-- The tuple minx, miny, maxx, maxy.
pub record Box : Type 0 where
  pub minx : ℤ
  pub miny : ℤ
  pub maxx : ℤ
  pub maxy : ℤ

-- The dict with the keys x, y, w and h.
pub record Xywh : Type 0 where
  pub x : ℤ
  pub y : ℤ
  pub w : ℤ
  pub h : ℤ

-- `if a < b: b = a`
abbrev pub lowered : ℤ → ℤ → ℤ
lowered a b = if lt_int a b then a else b

-- `if a > b: b = a`
abbrev pub raised : ℤ → ℤ → ℤ
raised a b = if lt_int b a then a else b

-- The loop of bbox_from_polygon.
unfoldable pub extend_box : List Point → Box → Box
extend_box [] box = box
extend_box (p ∷ polygon) box = extend_box polygon (record {
  minx = lowered p.0 box.minx;
  miny = lowered p.1 box.miny;
  maxx = raised p.0 box.maxx;
  maxy = raised p.1 box.maxy;
})

-- `maxsize` is sys.maxsize less one.
abbrev pub empty_box : ℕ → Box
empty_box maxsize = record {
  minx = pos (suc maxsize);
  miny = pos (suc maxsize);
  maxx = negsuc maxsize;
  maxy = negsuc maxsize;
}

unfoldable pub bbox_from_polygon : ℕ → List Point → Box
bbox_from_polygon maxsize polygon = extend_box polygon (empty_box maxsize)

unfoldable pub bbox_from_xywh : Xywh → Box
bbox_from_xywh b = record { minx = b.x; miny = b.y; maxx = b.x +ℤ b.w; maxy = b.y +ℤ b.h }

unfoldable pub polygon_from_bbox : Box → List Point
polygon_from_bbox b = (b.minx, b.miny) ∷ (b.maxx, b.miny) ∷ (b.maxx, b.maxy) ∷ (b.minx, b.maxy) ∷ []

unfoldable pub polygon_from_xywh : Xywh → List Point
polygon_from_xywh b = polygon_from_bbox (bbox_from_xywh b)

unfoldable pub xywh_from_bbox : Box → Xywh
xywh_from_bbox b = record { x = b.minx; y = b.miny; w = b.maxx -ℤ b.minx; h = b.maxy -ℤ b.miny }

unfoldable pub xywh_from_polygon : ℕ → List Point → Xywh
xywh_from_polygon maxsize polygon = xywh_from_bbox (bbox_from_polygon maxsize polygon)
