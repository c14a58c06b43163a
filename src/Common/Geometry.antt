-- ===== src/Common/Geometry.antt =====
-- The value types of Qt that the program computes with: QPoint, QSize and QRect over `int`.
use mathlib.Core.Path.{◌≡◌}
use mathlib.Core.Logic.{◌↔◌}
use mathlib.Core.Bool.{Bool, true, ◌&&◌, ◌||◌}
use native.Mathlib.Omega.{arith}
use greenisland.Common.Int.{ℤ, pos, ◌+ℤ◌, ◌-ℤ◌, ltb_ℤ, leb_ℤ, eq_ℤ, eq_ℤ_iff}

pub record Point : Type 0 where
  pub x : ℤ
  pub y : ℤ

abbrev pub eq_point : Point → Point → Bool
eq_point p q = eq_ℤ p.x q.x && eq_ℤ p.y q.y

pub eq_point_iff : (p q : Point) → (eq_point p q ≡ true) ↔ (p ≡ q)
eq_point_iff p q = ground (arith, eq_ℤ_iff p.x q.x, eq_ℤ_iff p.y q.y)

pub record Size : Type 0 where
  pub width : ℤ
  pub height : ℤ

-- `QSize::isEmpty`: a side is at most 0.
abbrev pub is_empty : Size → Bool
is_empty s = ltb_ℤ s.width (pos 1) || ltb_ℤ s.height (pos 1)

abbrev pub eq_size : Size → Size → Bool
eq_size s t = eq_ℤ s.width t.width && eq_ℤ s.height t.height

pub eq_size_iff : (s t : Size) → (eq_size s t ≡ true) ↔ (s ≡ t)
eq_size_iff s t = ground (arith, eq_ℤ_iff s.width t.width, eq_ℤ_iff s.height t.height)

-- A rectangle by its corners, both inside, as QRect keeps it.
pub record Rect : Type 0 where
  pub left : ℤ
  pub top : ℤ
  pub right : ℤ
  pub bottom : ℤ

abbrev pub eq_rect : Rect → Rect → Bool
eq_rect r s =
    eq_ℤ r.left s.left && eq_ℤ r.top s.top && eq_ℤ r.right s.right && eq_ℤ r.bottom s.bottom

abbrev pub rect_width : Rect → ℤ
rect_width r = r.right -ℤ r.left +ℤ pos 1

abbrev pub rect_height : Rect → ℤ
rect_height r = r.bottom -ℤ r.top +ℤ pos 1

abbrev pub is_valid : Rect → Bool
is_valid r = leb_ℤ r.left r.right && leb_ℤ r.top r.bottom

-- `QRect::setTopLeft`: the other corner stays.
abbrev pub set_top_left : Point → Rect → Rect
set_top_left p r = record r { left = p.x; top = p.y }
