-- ===== src/Server/NativeScreens.antt =====
-- src/server/screen/nativescreenbackend.cpp: screens that follow those of Qt.
pub mod Changed
pub mod Removed
use Prim.Native.String.{◌++◌ as str_append}
use greenisland.Common.{
  ℕ, zero, suc, String, refl, Bool, true, false, not, ◌&&◌, Option, none, some, List, [], ◌∷◌, ◌++◌,
  arith, ◌==◌, if◌then◌else◌, str_eq, length, ℤ, pos, Point, Size,
}
use greenisland.Server.Screen.{
  Screen, QScreen, Mode, RealOps, Orientation, orient, new_screen, set_position, set_size,
  set_refresh_rate, set_physical_size, set_scale_factor, set_modes, set_current_mode,
  set_preferred_mode, set_subpixel, subpixel_none, horizontal_rgb, horizontal_bgr, vertical_rgb,
  vertical_bgr,
}

-- `QPlatformScreen::SubpixelAntialiasingType`.
pub data SubpixelHint : Type 0 where
  hint_none hint_rgb hint_bgr hint_vrgb hint_vbgr hint_other : SubpixelHint

-- What the code reads of this program's platform screen.
pub record EglfsScreen (R : Type 0) : Type 0 where
  pub manufacturer : String
  pub model : String
  pub serial_number : String
  pub modes : List (Mode R)
  pub current_mode : ℤ
  pub preferred_mode : ℤ

-- What the code reads of a screen of Qt. `native` is the platform screen, where the platform is
-- "greenisland" and the handle is not null; the refresh rate is `refreshRate() * 1000` as an `int`,
-- and the scale the device pixel ratio rounded down.
pub record Source (R : Type 0) : Type 0 where
  pub screen : QScreen
  pub name : String
  pub top_left : Point
  pub size : Size
  pub refresh_rate : ℤ
  pub physical_size : R × R
  pub scale : ℤ
  pub orientation : Orientation
  pub subpixel : SubpixelHint
  pub native : Option (EglfsScreen R)

pub data Event : Type 0 where
  screen_added screen_removed primary_screen_changed : ℕ → Event

pub record Backend (R : Type 0) : Type 0 where
  pub screens : List (Screen R)
  pub initialized : Bool
  pub events : List Event

is_empty_text : String → Bool
is_empty_text s = str_eq s ""

-- The manufacturer and the model of a new screen.
unfoldable pub identity : {R : Type 0} → Source R → Screen R → Screen R
unfolding is_empty_text
identity q s = elim q.native [
  | none ↦ record s { manufacturer = "Green Island"; model = q.name }
  | some e ↦ record s {
    manufacturer = if is_empty_text e.manufacturer then "Unknown" else e.manufacturer;
    model =
        if is_empty_text e.model
        then (if is_empty_text e.serial_number then "Unknown" else e.serial_number)
        else if is_empty_text e.serial_number
        then e.model
        else str_append (str_append e.model "/") e.serial_number;
  }
]

-- The `switch` over the subpixel hint.
unfoldable pub hint_subpixel : {R : Type 0} → SubpixelHint → Screen R → Screen R
hint_subpixel hint_none s = set_subpixel subpixel_none s
hint_subpixel hint_rgb s = set_subpixel horizontal_rgb s
hint_subpixel hint_bgr s = set_subpixel horizontal_bgr s
hint_subpixel hint_vrgb s = set_subpixel vertical_rgb s
hint_subpixel hint_vbgr s = set_subpixel vertical_bgr s
hint_subpixel hint_other s = s

module _ {R : Type 0} (ops : RealOps R) where
  -- The modes, the current and the preferred one: the platform's, or a single mode.
  unfoldable pub update_modes : Option (EglfsScreen R) → Screen R → Screen R
  update_modes (some e) s =
      set_preferred_mode e.preferred_mode (set_current_mode e.current_mode (set_modes e.modes s))
  update_modes none s = set_preferred_mode (pos 0) (
      set_current_mode (pos 0)
        (set_modes (record { size = s.size; refresh_rate = ops.per_mille s.refresh_rate } ∷ []) s))

  unfoldable pub handle_screen_changed : Source R → Screen R → Screen R
  handle_screen_changed q s = hint_subpixel q.subpixel (
      orient q.orientation (
        update_modes q.native (
          set_scale_factor q.scale (
            set_physical_size ops.eq_real q.physical_size
              (set_refresh_rate q.refresh_rate (set_size q.size (set_position q.top_left s)))))))

  -- A new screen is announced by its position in the list; until the backend is initialized, the
  -- primary screen of Qt (`primary`) is announced as such.
  unfoldable pub handle_screen_added : ℕ → Source R → Backend R → Backend R
  handle_screen_added primary q b =
      let s =
        handle_screen_changed q
          (identity q (record (new_screen ops.unset) { screen = some q.screen })) in
      record b {
        screens = b.screens ++ s ∷ [];
        events =
            b.events
            ++ screen_added (length b.screens)
              ∷ (if not b.initialized && (primary == q.screen.id)
                  then primary_screen_changed (length b.screens) ∷ []
                  else []);
      }

  unfoldable pub acquire_configuration : ℕ → List (Source R) → Backend R → Backend R
  acquire_configuration primary [] b = record b { initialized = true }
  acquire_configuration primary (q ∷ qs) b =
      acquire_configuration primary qs (handle_screen_added primary q b)

-- Whether a screen stands for the screen of Qt with an identifier.
unfoldable pub stands_for : {R : Type 0} → ℕ → Screen R → Bool
stands_for q s = elim s.screen [ none ↦ false | some x ↦ x.id == q ]

-- The signal of Qt that its primary screen changed: the first screen that stands for it.
unfoldable pub find_screen : {R : Type 0} → ℕ → ℕ → List (Screen R) → Option ℕ
find_screen q i [] = none
find_screen q i (s ∷ ss) = if stands_for q s then some i else find_screen q (suc i) ss

-- The loop of `handleScreenRemoved`, over what the iterator has before it of the local copy of the
-- list: an erased screen is announced by `i`, and the iterator does not move past another one.
-- `none` means that the rounds given are not enough.
unfoldable pub remove_loop :
    {R : Type 0} → ℕ → ℕ → ℕ → List (Screen R) → List Event → Option (List Event)
remove_loop zero q i ss es = none
remove_loop (suc fuel) q i [] es = some es
remove_loop (suc fuel) q i (s ∷ ss) es =
    let erased = remove_loop fuel q (suc i) ss (es ++ screen_removed i ∷ []) in
    let again = remove_loop fuel q i (s ∷ ss) es in if stands_for q s then erased else again

-- The list of the backend itself is not written.
unfoldable pub handle_screen_removed : {R : Type 0} → ℕ → ℕ → Backend R → Option (Backend R)
handle_screen_removed fuel q b = elim (remove_loop fuel q 0 b.screens b.events) [
  | none ↦ none
  | some es ↦ some (record b { events = es })
]
