-- ===== src/Server/Screen.antt =====
-- src/server/screen/screenbackend.cpp: a screen, its setters, and the application of a changeset.
-- `R` stands for `qreal`, with `eq_real` for the comparison of two sizes of it. A screen keeps the
-- signals that it emitted and the calls that it made to the platform's screen.
use greenisland.Common.{
  ℕ, Bool, List, [], ◌∷◌, ◌++◌, Option, none, String, ℤ, pos, negsuc, eq_ℤ, if◌then◌else◌, Point,
  eq_point, Size, eq_size, Rect, ◌==◌,
}

-- `QWaylandOutput::Transform` and `QWaylandOutput::Subpixel`.
pub data Transform : Type 0 where
  normal rotate_90 rotate_180 rotate_270 : Transform
  flipped flipped_90 flipped_180 flipped_270 : Transform

-- The values that the Wayland protocol gives to the transforms.
abbrev pub transform_code : Transform → ℕ
transform_code normal = 0
transform_code rotate_90 = 1
transform_code rotate_180 = 2
transform_code rotate_270 = 3
transform_code flipped = 4
transform_code flipped_90 = 5
transform_code flipped_180 = 6
transform_code flipped_270 = 7

abbrev pub eq_transform : Transform → Transform → Bool
eq_transform s t = transform_code s == transform_code t

pub data Subpixel : Type 0 where
  subpixel_unknown subpixel_none horizontal_rgb horizontal_bgr vertical_rgb vertical_bgr : Subpixel

abbrev pub subpixel_code : Subpixel → ℕ
subpixel_code subpixel_unknown = 0
subpixel_code subpixel_none = 1
subpixel_code horizontal_rgb = 2
subpixel_code horizontal_bgr = 3
subpixel_code vertical_rgb = 4
subpixel_code vertical_bgr = 5

abbrev pub eq_subpixel : Subpixel → Subpixel → Bool
eq_subpixel s t = subpixel_code s == subpixel_code t

pub data Signal : Type 0 where
  position_changed size_changed refresh_rate_changed physical_size_changed : Signal
  subpixel_changed transform_changed scale_factor_changed : Signal
  current_mode_changed preferred_mode_changed modes_changed : Signal
  -- calls to the platform's screen
  platform_mode : ℤ → Signal
  platform_geometry : Rect → Signal

-- A screen of Qt: whether its handle is the one of this program's platform plugin, and its area.
pub record QScreen : Type 0 where
  pub id : ℕ
  pub has_eglfs : Bool
  pub geometry : Rect

pub record Mode (R : Type 0) : Type 0 where
  pub size : Size
  pub refresh_rate : R

-- `ScreenPrivate`.
pub record Screen (R : Type 0) : Type 0 where
  pub screen : Option QScreen
  pub manufacturer : String
  pub model : String
  pub position : Point
  pub size : Size
  pub refresh_rate : ℤ
  pub physical_size : R × R
  pub subpixel : Subpixel
  pub transform : Transform
  pub scale_factor : ℤ
  pub current_mode : ℤ
  pub preferred_mode : ℤ
  pub modes : List (Mode R)
  pub signals : List Signal

-- The constructor; `unset` is the `QSizeF` that is not valid.
unfoldable pub new_screen : {R : Type 0} → R × R → Screen R
new_screen unset = record {
  screen = none;
  manufacturer = "";
  model = "";
  position = record { x = pos 0; y = pos 0 };
  size = record { width = negsuc 0; height = negsuc 0 };
  refresh_rate = pos 60000;
  physical_size = unset;
  subpixel = subpixel_none;
  transform = normal;
  scale_factor = pos 1;
  current_mode = negsuc 0;
  preferred_mode = negsuc 0;
  modes = [];
  signals = [];
}

module _ {R : Type 0} where
  abbrev pub emit : Signal → Screen R → Screen R
  emit g s = record s { signals = s.signals ++ g ∷ [] }

  unfoldable pub set_position : Point → Screen R → Screen R
  set_position v s =
      if eq_point s.position v then s else emit position_changed (record s { position = v })

  unfoldable pub set_size : Size → Screen R → Screen R
  set_size v s = if eq_size s.size v then s else emit size_changed (record s { size = v })

  unfoldable pub set_refresh_rate : ℤ → Screen R → Screen R
  set_refresh_rate v s =
      if eq_ℤ s.refresh_rate v then s else emit refresh_rate_changed (record s { refresh_rate = v })

  unfoldable pub set_subpixel : Subpixel → Screen R → Screen R
  set_subpixel v s =
      if eq_subpixel s.subpixel v then s else emit subpixel_changed (record s { subpixel = v })

  unfoldable pub set_transform : Transform → Screen R → Screen R
  set_transform v s =
      if eq_transform s.transform v then s else emit transform_changed (record s { transform = v })

  unfoldable pub set_scale_factor : ℤ → Screen R → Screen R
  set_scale_factor v s =
      if eq_ℤ s.scale_factor v then s else emit scale_factor_changed (record s { scale_factor = v })

  unfoldable pub set_current_mode : ℤ → Screen R → Screen R
  set_current_mode v s =
      if eq_ℤ s.current_mode v then s else emit current_mode_changed (record s { current_mode = v })

  unfoldable pub set_preferred_mode : ℤ → Screen R → Screen R
  set_preferred_mode v s =
      if eq_ℤ s.preferred_mode v
      then s
      else emit preferred_mode_changed (record s { preferred_mode = v })

  unfoldable pub set_physical_size : (R × R → R × R → Bool) → R × R → Screen R → Screen R
  set_physical_size eq_real v s =
      if eq_real s.physical_size v
      then s
      else emit physical_size_changed (record s { physical_size = v })

  -- No test here: the modes are always replaced.
  unfoldable pub set_modes : List (Mode R) → Screen R → Screen R
  set_modes v s = emit modes_changed (record s { modes = v })

-- The arithmetic of `qreal` that the screens need: the comparison of two sizes, the conversion of
-- an `int`, the division of one by 1000, and the millimetres of a number of pixels, rounded down.
pub record RealOps (R : Type 0) : Type 0 where
  pub eq_real : R × R → R × R → Bool
  pub of_int : ℤ → R
  pub per_mille : ℤ → R
  pub floor_mm : ℤ → ℤ
  pub unset : R × R

-- `Qt::ScreenOrientation`.
pub data Orientation : Type 0 where
  primary_orientation portrait landscape inverted_portrait inverted_landscape : Orientation

-- The `switch` over the orientation of both backends: the other cases leave the transform.
unfoldable pub orient : {R : Type 0} → Orientation → Screen R → Screen R
orient portrait s = set_transform rotate_90 s
orient inverted_landscape s = set_transform rotate_180 s
orient inverted_portrait s = set_transform rotate_270 s
orient _ s = s
