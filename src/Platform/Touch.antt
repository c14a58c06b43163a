-- ===== src/Platform/Touch.antt =====
-- src/platform/libinput/libinputtouch.cpp: the contacts of a touch device, which become events of
-- Qt frame by frame. `R` stands for the coordinates, `double`, and `eq_real` for the comparison of
-- two points of them. The state is that of one device; the handlers look up the device of an event.
pub mod Points
pub mod Frames
use greenisland.Common.{
  ℕ, refl, Bool, true, false, not, ◌&&◌, Option, none, some, List, [], ◌∷◌, ◌++◌, arith, ◌==◌,
  if◌then◌else◌, ℤ, pos_part, Size,
}

-- `Qt::TouchPointState`.
pub data PointState : Type 0 where
  pressed moved stationary released : PointState

pub record TouchPoint (R : Type 0) : Type 0 where
  pub id : ℕ
  pub state : PointState
  pub center : R × R

-- `State`, and the events that were sent: the points of a touch event, or of a cancellation.
pub data Sent (R : Type 0) : Type 0 where
  touch_event touch_cancel : List (TouchPoint R) → Sent R

pub record State (R : Type 0) : Type 0 where
  pub device : Option ℕ
  pub points : List (TouchPoint R)
  pub sent : List (Sent R)

unfoldable pub init : {R : Type 0} → State R
init = record { device = none; points = []; sent = [] }

-- What the code reads of an event: its slot, and the coordinates as functions of a length.
pub record TouchEvent (R : Type 0) : Type 0 where
  pub slot : ℤ
  pub x_transformed : ℤ → R
  pub y_transformed : ℤ → R

-- `qMax(0, slot)`.
abbrev pub point_id : ℤ → ℕ
point_id slot = pos_part slot

-- The size of the virtual desktop; both coordinates are scaled by the width.
unfoldable pub position_from_event : {R : Type 0} → Size → TouchEvent R → R × R
position_from_event size e = (e.x_transformed size.width, e.y_transformed size.width)

-- `touchPointAt`, and a write through the pointer that it returns.
unfoldable pub touch_point_at : {R : Type 0} → ℕ → List (TouchPoint R) → Option (TouchPoint R)
touch_point_at n [] = none
touch_point_at n (p ∷ ps) = if p.id == n then some p else touch_point_at n ps

unfoldable pub write_at :
    {R : Type 0} → ℕ → (TouchPoint R → TouchPoint R) → List (TouchPoint R) → List (TouchPoint R)
write_at n f [] = []
write_at n f (p ∷ ps) = if p.id == n then f p ∷ ps else p ∷ write_at n f ps

-- `Qt::TouchPointStates`, a set of states, and the union that `handleTouchUp` computes.
pub record States : Type 0 where
  pub has_pressed : Bool
  pub has_moved : Bool
  pub has_stationary : Bool
  pub has_released : Bool

abbrev join : PointState → States → States
join pressed s = record s { has_pressed = true }
join moved s = record s { has_moved = true }
join stationary s = record s { has_stationary = true }
join released s = record s { has_released = true }

union_states : {R : Type 0} → List (TouchPoint R) → States → States
union_states [] s = s
union_states (p ∷ ps) s = union_states ps (join p.state s)

abbrev only_released : States → Bool
only_released s = not s.has_pressed && not s.has_moved && not s.has_stationary && s.has_released

abbrev no_states : States
no_states = record {
  has_pressed = false;
  has_moved = false;
  has_stationary = false;
  has_released = false;
}

-- The loop behind a frame: released points go, pressed ones become stationary.
unfoldable pub after_frame : {R : Type 0} → List (TouchPoint R) → List (TouchPoint R)
after_frame [] = []
after_frame (p ∷ ps) =
    let rest = after_frame ps in
    elim p.state [
      | released ↦ rest
      | pressed ↦ record p { state = stationary } ∷ rest
      | _ ↦ p ∷ rest
    ]

abbrev is_nil : {R : Type 0} → List (TouchPoint R) → Bool
is_nil [] = true
is_nil (p ∷ ps) = false

unfoldable pub handle_frame : {R : Type 0} → State R → State R
handle_frame s = elim s.device [
  | none ↦ s
  | some _ ↦
      if is_nil s.points
      then s
      else record s { points = after_frame s.points; sent = s.sent ++ touch_event s.points ∷ [] }
]

unfoldable pub handle_cancel : {R : Type 0} → State R → State R
handle_cancel s = elim s.device [
  | none ↦ s
  | some _ ↦ record s { sent = s.sent ++ touch_cancel s.points ∷ [] }
]

unfoldable pub handle_up : {R : Type 0} → TouchEvent R → State R → State R
unfolding union_states
handle_up e s = elim (touch_point_at (point_id e.slot) s.points) [
  | none ↦ s
  | some _ ↦
      let t = record s {
        points = write_at (point_id e.slot) (λ p. record p { state = released }) s.points;
      } in
      if only_released (union_states t.points no_states) then handle_frame t else t
]

unfoldable pub handle_down : {R : Type 0} → Size → TouchEvent R → State R → State R
handle_down size e s = elim (touch_point_at (point_id e.slot) s.points) [
  | some _ ↦ s
  | none ↦ record s {
    points =
        s.points
        ++ record { id = point_id e.slot; state = pressed; center = position_from_event size e }
          ∷ [];
  }
]

-- The state of a point after a motion: `pressed` stays if the point moved.
abbrev pub state_after_move : PointState → PointState
state_after_move pressed = pressed
state_after_move _ = moved

move_point : {R : Type 0} → (R × R → R × R → Bool) → R × R → TouchPoint R → TouchPoint R
move_point eq_real c p =
    if eq_real p.center c
    then record p { state = stationary }
    else record p { center = c; state = state_after_move p.state }

unfoldable pub handle_motion :
    {R : Type 0} → (R × R → R × R → Bool) → Size → TouchEvent R → State R → State R
unfolding move_point
handle_motion eq_real size e s = elim (touch_point_at (point_id e.slot) s.points) [
  | none ↦ s
  | some _ ↦ record s {
    points = write_at (point_id e.slot) (move_point eq_real (position_from_event size e)) s.points;
  }
]

-- `registerDevice`.
unfoldable pub register_device : {R : Type 0} → ℕ → State R → State R
register_device device s = record s { device = some device }

pub data Event (R : Type 0) : Type 0 where
  up motion : TouchEvent R → Event R
  down : TouchEvent R → Event R
  frame cancel : Event R

-- A sequence of events of one device, on a desktop of a size.
unfoldable pub handle : {R : Type 0} → (R × R → R × R → Bool) → Size → Event R → State R → State R
handle eq_real size (up e) s = handle_up e s
handle eq_real size (motion e) s = handle_motion eq_real size e s
handle eq_real size (down e) s = handle_down size e s
handle eq_real size frame s = handle_frame s
handle eq_real size cancel s = handle_cancel s

unfoldable pub handle_all :
    {R : Type 0} → (R × R → R × R → Bool) → Size → List (Event R) → State R → State R
handle_all eq_real size [] s = s
handle_all eq_real size (e ∷ es) s = handle_all eq_real size es (handle eq_real size e s)
