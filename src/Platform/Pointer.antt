-- ===== src/Platform/Pointer.antt =====
-- src/platform/libinput/libinputpointer.cpp: the place of the pointer, the buttons that are held, and
-- the events that are sent. `geometry` is the virtual desktop in native pixels; what the code reads
-- of an event is rounded to whole pixels, and a wheel delta to a whole number, as `toPoint` and
-- `qRound` do. The buttons are numbered from the left one.
pub mod State
use greenisland.Common.{
  ℕ, ◌-◌, refl, Bool, true, false, ◌&&◌, Option, none, some, List, [], ◌∷◌, ◌++◌, arith, leb, ◌==◌,
  if◌then◌else◌, ℤ, pos, ◌+ℤ◌, ltb_ℤ, Point, Rect,
}

pub record MouseEvent : Type 0 where
  pub pos : Point
  pub buttons : ℕ → Bool
  pub wheel_delta : ℤ
  pub is_vertical : Bool

pub data Sent : Type 0 where
  mouse_pressed mouse_released mouse_moved mouse_wheel : MouseEvent → Sent

-- `LibInputPointer`: `m_pt` and `m_buttons`.
pub record Pointer : Type 0 where
  pub point : Point
  pub buttons : ℕ → Bool
  pub sent : List Sent

unfoldable pub new_pointer : Pointer
new_pointer = record { point = record { x = pos 0; y = pos 0 }; buttons = λ b. false; sent = [] }

-- `qBound`.
unfoldable pub bound : ℤ → ℤ → ℤ → ℤ
bound low v high = let m = if ltb_ℤ v high then v else high in if ltb_ℤ low m then m else low

abbrev event_at : Pointer → ℤ → Bool → MouseEvent
event_at s delta is_vertical = record {
  pos = s.point;
  buttons = s.buttons;
  wheel_delta = delta;
  is_vertical = is_vertical;
}

abbrev send : Sent → Pointer → Pointer
send e s = record s { sent = s.sent ++ e ∷ [] }

-- Both writes are to the x coordinate.
unfoldable pub set_position : Rect → Point → Pointer → Pointer
set_position geometry p s =
    let first = record (s.point) { x = bound geometry.left p.x geometry.right } in
    record s { point = record first { x = bound geometry.top p.x geometry.bottom } }

-- The `switch` over the button's code: the codes from 0x110 to 0x11f.
unfoldable pub button_of : ℕ → Option ℕ
button_of code = if leb 0x110 code && leb code 0x11f then some (code - 0x110) else none

-- `m_buttons |= button`, or `m_buttons &= ~button`; no button changes nothing.
unfoldable pub set_flag : Option ℕ → Bool → (ℕ → Bool) → ℕ → Bool
set_flag none pressed buttons b = buttons b
set_flag (some n) pressed buttons b = if n == b then pressed else buttons b

unfoldable pub handle_button : ℕ → Bool → Pointer → Pointer
handle_button code pressed s =
    let t = record s { buttons = set_flag (button_of code) pressed s.buttons } in
    let e = event_at t (pos 0) false in
    send (if pressed then mouse_pressed e else mouse_released e) t

unfoldable pub process_motion : Rect → Point → Pointer → Pointer
process_motion geometry p s =
    let t = record s {
      point = record {
        x = bound geometry.left p.x geometry.right;
        y = bound geometry.top p.y geometry.bottom;
      };
    } in
    send (mouse_moved (event_at t (pos 0) false)) t

unfoldable pub handle_motion : Rect → Point → Pointer → Pointer
handle_motion geometry delta s =
    process_motion geometry (record { x = s.point.x +ℤ delta.x; y = s.point.y +ℤ delta.y }) s

unfoldable pub handle_absolute_motion : Rect → Point → Pointer → Pointer
handle_absolute_motion geometry p s = process_motion geometry p s

wheel : Bool → Option ℤ → Pointer → Pointer
wheel is_vertical none s = s
wheel is_vertical (some delta) s = send (mouse_wheel (event_at s delta is_vertical)) s

-- The deltas of the two axes, where the event has them.
unfoldable pub handle_axis : Option ℤ → Option ℤ → Pointer → Pointer
unfolding wheel
handle_axis horizontal vertical s = wheel true vertical (wheel false horizontal s)

pub data Event : Type 0 where
  button : ℕ → Bool → Event
  motion absolute_motion : Point → Event
  axis : Option ℤ → Option ℤ → Event

unfoldable pub handle : Rect → Event → Pointer → Pointer
handle geometry (button code pressed) s = handle_button code pressed s
handle geometry (motion delta) s = handle_motion geometry delta s
handle geometry (absolute_motion p) s = handle_absolute_motion geometry p s
handle geometry (axis horizontal vertical) s = handle_axis horizontal vertical s

unfoldable pub handle_all : Rect → List Event → Pointer → Pointer
handle_all geometry [] s = s
handle_all geometry (e ∷ es) s = handle_all geometry es (handle geometry e s)
