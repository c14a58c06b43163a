-- ===== src/Server/QuickOutput.antt =====
-- src/server/core/quickoutput.cpp: the hot spots of an output, at its corners, and its modes. Times
-- are in milliseconds. The difference of two times is one of unsigned 64-bit numbers.
pub mod HotSpots
pub mod Modes
use mathlib.Core.Option
use greenisland.Common.{
  ℕ, ◌+◌, ◌-◌, ◌%◌, refl, Bool, true, false, not, ◌&&◌, ◌||◌, Option, none, some, List, [], ◌∷◌,
  ◌++◌, map, arith, ltb, ◌==◌, if◌then◌else◌, get_elem?, ℤ, pos, negsuc, ◌+ℤ◌, ◌-ℤ◌, leb_ℤ, eq_ℤ,
  Point, Size, eq_size, Rect, eq_bool,
}
use greenisland.Server.Screen.{Mode, Screen}

pub data HotSpot : Type 0 where
  top_left top_right bottom_left bottom_right : HotSpot

-- The hot spot that is triggered, and when the timer said so.
pub data Signal : Type 0 where
  hot_spot_triggered : ℕ → HotSpot → Signal
  hot_spot_size_changed hot_spot_threshold_changed hot_spot_push_time_changed : Signal
  enabled_changed native_screen_changed : Signal

-- `QuickOutputPrivate` and the event filter of its window; `geometry` is that of the output, and
-- `modes` and `current_mode` are what it told Qt, a mode with whether it is preferred.
pub record QuickOutput (R : Type 0) : Type 0 where
  pub is_initialized : Bool
  pub native_screen : Option (Screen R)
  pub modes : List (Mode R × Bool)
  pub current_mode : Option (Mode R)
  pub is_enabled : Bool
  pub hot_spot_size : Size
  pub hot_spot_threshold : ℕ
  pub hot_spot_push_time : ℕ
  pub geometry : Rect
  pub hot_spot_last_time : ℕ
  pub hot_spot_entered : ℕ
  pub signals : List Signal

unfoldable pub new_output : {R : Type 0} → Rect → QuickOutput R
new_output geometry = record {
  is_initialized = false;
  native_screen = none;
  modes = [];
  current_mode = none;
  is_enabled = true;
  hot_spot_size = record { width = pos 5; height = pos 5 };
  hot_spot_threshold = 1000;
  hot_spot_push_time = 50;
  geometry = geometry;
  hot_spot_last_time = 0;
  hot_spot_entered = 0;
  signals = [];
}

-- The difference of two 64-bit numbers.
abbrev pub sub64 : ℕ → ℕ → ℕ
sub64 a b = (a + 18446744073709551616 - b) % 18446744073709551616

-- The corner that a point is in, for hot spots of a size. The coordinates do not come near the
-- bounds of an `int`.
unfoldable pub corner : Rect → Size → Point → Option HotSpot
corner r size pt =
    let is_left = leb_ℤ pt.x (r.left +ℤ size.width) in
    let is_right = leb_ℤ (r.right -ℤ size.width) pt.x in
    let is_top = leb_ℤ pt.y (r.top +ℤ size.height) in
    let is_bottom = leb_ℤ (r.bottom -ℤ size.height) pt.y in
    if is_left && is_top
    then some top_left
    else if is_right && is_top
    then some top_right
    else if is_left && is_bottom
    then some bottom_left
    else if is_right && is_bottom
    then some bottom_right
    else none

abbrev pub index_of : ℤ → ℕ
index_of (pos n) = n
index_of (negsuc n) = 0

module _ {R : Type 0} where
  abbrev pub emit : Signal → QuickOutput R → QuickOutput R
  emit e s = record s { signals = s.signals ++ e ∷ [] }

  -- What a triggered hot spot does at a time.
  unfoldable pub enter_hot_spot : ℕ → HotSpot → QuickOutput R → QuickOutput R
  enter_hot_spot time h s =
      if s.hot_spot_entered == 0
      then record s { hot_spot_entered = time }
      else if ltb (sub64 time s.hot_spot_entered) s.hot_spot_push_time
      then emit (hot_spot_triggered time h) (record s { hot_spot_last_time = time })
      else s

  -- A move of the mouse over the window, seen by the filter.
  unfoldable pub mouse_moved : ℕ → Point → QuickOutput R → QuickOutput R
  unfolding corner enter_hot_spot
  mouse_moved time pt s =
      if ltb (sub64 time s.hot_spot_last_time) s.hot_spot_threshold
      then s
      else elim (corner s.geometry s.hot_spot_size pt) [
        | none ↦ record s { hot_spot_entered = 0 }
        | some h ↦ enter_hot_spot time h s
      ]

  unfoldable pub set_hot_spot_size : Size → QuickOutput R → QuickOutput R
  set_hot_spot_size size s =
      if eq_size s.hot_spot_size size
      then s
      else emit hot_spot_size_changed (record s { hot_spot_size = size })

  unfoldable pub set_hot_spot_threshold : ℕ → QuickOutput R → QuickOutput R
  set_hot_spot_threshold n s =
      if s.hot_spot_threshold == n
      then s
      else emit hot_spot_threshold_changed (record s { hot_spot_threshold = n })

  -- The test is on the threshold.
  unfoldable pub set_hot_spot_push_time : ℕ → QuickOutput R → QuickOutput R
  set_hot_spot_push_time n s =
      if s.hot_spot_threshold == n
      then s
      else emit hot_spot_push_time_changed (record s { hot_spot_push_time = n })

  unfoldable pub set_enabled : Bool → QuickOutput R → QuickOutput R
  set_enabled v s =
      if eq_bool s.is_enabled v then s else emit enabled_changed (record s { is_enabled = v })

  -- The screen is one of the same address or not. `none` in place of a new state stands for an access
  -- through a null pointer; `window` says whether the output has a window, which is put on the screen.
  unfoldable pub set_native_screen :
      Bool → Bool → Option (Screen R) → QuickOutput R → Option (QuickOutput R)
  set_native_screen is_same window screen s =
      if is_same || s.is_initialized
      then some s
      else (let t = emit native_screen_changed (record s { native_screen = screen }) in
          if window then Option.map (λ _. t) screen else some t)

  -- The modes of the screen from an index on are added to those of the output; `add_mode` is
  -- `QWaylandOutput::addMode`, with whether the mode is preferred, on the modes with their flags.
  unfoldable pub add_modes :
      (Mode R → Bool → List (Mode R × Bool) → List (Mode R × Bool))
      → ℕ
      → ℤ
      → List (Mode R)
      → List (Mode R × Bool)
      → List (Mode R × Bool)
  add_modes add_mode i preferred [] l = l
  add_modes add_mode i preferred (m ∷ ms) l =
      add_modes add_mode (i + 1) preferred ms (add_mode m (eq_ℤ (pos i) preferred) l)

  abbrev pub is_nonempty : List (Mode R) → Bool
  is_nonempty [] = false
  is_nonempty (_ ∷ _) = true

  -- `initialize` of an output whose window is there or not, and whose size follows the window or not.
  unfoldable pub initialize :
      (Mode R → Bool → List (Mode R × Bool) → List (Mode R × Bool))
      → Bool
      → Bool
      → QuickOutput R
      → Option (QuickOutput R)
  unfolding add_modes
  initialize add_mode window follows s = if not window then some s else elim s.native_screen [
    | none ↦ none
    | some screen ↦
        if is_nonempty screen.modes && not follows
        then Option.map
            (λ m. record s {
              modes = add_modes add_mode 0 screen.preferred_mode screen.modes s.modes;
              current_mode = some m;
              is_initialized = true;
            })
            (get_elem? screen.modes (index_of screen.current_mode))
        else some (record s { is_initialized = true })
  ]
