-- ===== src/Server/Window/Placement.antt =====
-- `randomPosition` of src/server/shell/clientwindow.cpp: where a new window is placed.
use greenisland.Common.{
  ℕ, ◌≡◌, refl, ◌⊎◌, inl, inr, Bool, List, [], ◌∷◌, arith, if◌then◌else◌, Bool-cases, ℤ, pos, ◌+ℤ◌,
  ◌-ℤ◌, half, ◌≤ℤ◌, ltb_ℤ, Point, Size, Rect, +ℤ_parts, -ℤ_parts,
}

abbrev pub step : ℤ
step = pos 24

-- The two static variables.
pub record Cursor : Type 0 where
  pub px : ℤ
  pub py : ℤ

unfoldable pub first_cursor : Cursor
first_cursor = record { px = pos 24; py = pos 48 }

-- One coordinate: the next value of the static variable (`back` is where it starts again), then
-- the place `d` for a side of length `side` on an output with `room`, and the variable behind it.
next : ℤ → ℤ → ℤ → ℤ → ℤ
next p by back room = let q = p +ℤ by in if ltb_ℤ (half room) q then back else q

place : ℤ → ℤ → ℤ → ℤ
place p side room =
    if ltb_ℤ room (p +ℤ side)
    then (if ltb_ℤ (room -ℤ side) (pos 0) then pos 0 else room -ℤ side)
    else p

keep : ℤ → ℤ → ℤ → ℤ
keep p side room = if ltb_ℤ room (p +ℤ side) then pos 0 else p

-- The first output whose geometry contains the pointer, or the default one; `contains_point` is
-- `QRect::contains` of a point.
unfoldable pub pointer_output : (Rect → Point → Bool) → Point → ℕ → List (ℕ × Rect) → ℕ
pointer_output contains_point p default_output [] = default_output
pointer_output contains_point p default_output ((o, r) ∷ os) =
    let rest = pointer_output contains_point p default_output os in
    if contains_point r p then o else rest

-- `surface` is the size of the surface, and `output` the available size of the output.
unfoldable pub random_position : Size → Size → Cursor → Cursor × Point
unfolding next place keep
random_position surface output c =
    let px = next c.px step step output.width in
    let py = next c.py (pos 48) step output.height in
    (
      record { px = keep px surface.width output.width; py = keep py surface.height output.height },
      record { x = place px surface.width output.width; y = place py surface.height output.height },
    )

-- The static variables are never negative.
pub record IsCursor (c : Cursor) : Type 0 where
  pub px : pos 0 ≤ℤ c.px
  pub py : pos 0 ≤ℤ c.py

pub first_cursor-IsCursor : IsCursor first_cursor
unfolding first_cursor
first_cursor-IsCursor = omega arith

-- A side that fits lies inside; one that does not starts at 0.
abbrev pub Fits : ℤ → ℤ → ℤ → Type 0
Fits d side room = (pos 0 ≤ℤ d) × ((d +ℤ side ≤ℤ room) ⊎ (d ≡ pos 0))

next_nonneg :
    (p by back room : ℤ) → pos 0 ≤ℤ p → pos 0 ≤ℤ by → pos 0 ≤ℤ back → pos 0 ≤ℤ next p by back room
unfolding next
next_nonneg p by back room h k l = ground (arith, +ℤ_parts p by)

keep_nonneg : (p side room : ℤ) → pos 0 ≤ℤ p → pos 0 ≤ℤ keep p side room
unfolding keep
keep_nonneg p side room h = ground arith

place-Fits : (p side room : ℤ) → pos 0 ≤ℤ p → Fits (place p side room) side room
unfolding place
place-Fits p side room h = elim (Bool-cases (ltb_ℤ room (p +ℤ side))) [
  | inl long ↦ elim (Bool-cases (ltb_ℤ (room -ℤ side) (pos 0))) [
    | inl too_long ↦ rw (long, place) (rw too_long (omega arith, inr refl))
    | inr fits ↦
        rw (long, place)
          (rw fits
            (ground arith, inl (ground (arith, -ℤ_parts room side, +ℤ_parts (room -ℤ side) side))))
  ]
  | inr short ↦ rw (short, place) (h, inl (ground arith))
]

-- A new window starts at no negative coordinate; along each axis it lies within as much room as the
-- available part of the output has, counted from 0 and not from where the output is, or, if its
-- surface is too long for that, starts at 0.
-- The static variables stay usable for the next window.
pub random_position-Fits :
    (surface output : Size) (c : Cursor)
    → IsCursor c
    → let (d, p) = random_position surface output c in
      IsCursor d × Fits p.x surface.width output.width × Fits p.y surface.height output.height
unfolding random_position
random_position-Fits surface output c h =
    let px = next_nonneg c.px step step output.width h.px (omega arith) (omega arith) in
    let py = next_nonneg c.py (pos 48) step output.height h.py (omega arith) (omega arith) in
    (
      record {
        px = keep_nonneg _ surface.width output.width px;
        py = keep_nonneg _ surface.height output.height py;
      },
      place-Fits _ surface.width output.width px,
      place-Fits _ surface.height output.height py,
    )
