-- ===== src/Server/FakeScreens.antt =====
-- src/server/screen/fakescreenbackend.cpp: screens that a configuration file describes, and
-- screenmanager.cpp, which remembers the primary one. Reading and parsing the file is not in the
-- repository: `Configuration` is what comes of it. Screens are numbered in the order of the list.
pub mod Primary
use greenisland.Common.{
  ℕ, String, refl, Bool, true, false, ◌&&◌, ◌||◌, Option, some, List, [], ◌∷◌, ◌++◌, arith,
  if◌then◌else◌, length, ℤ, pos, leb_ℤ, Size,
}
use greenisland.Server.Screen.{
  Screen, new_screen, RealOps, Orientation, orient, set_physical_size, set_position, set_size,
  set_refresh_rate, set_scale_factor, set_modes,
}

-- What the loop reads of an entry of the array "outputs"; absent numbers are 0, and the sides of
-- an absent physical size are -1.
pub record Settings : Type 0 where
  pub name : String
  pub primary : Bool
  pub scale : ℤ
  pub x : ℤ
  pub y : ℤ
  pub width : ℤ
  pub height : ℤ
  pub refresh_rate : ℤ
  pub physical_width : ℤ
  pub physical_height : ℤ
  pub orientation : Orientation

pub data Configuration : Type 0 where
  unreadable no_object : Configuration
  outputs : List Settings → Configuration

pub data Event : Type 0 where
  screen_added primary_screen_changed : ℕ → Event

pub record Backend (R : Type 0) : Type 0 where
  pub screens : List (Screen R)
  pub events : List Event

pub data Result (A : Type 0) : Type 0 where
  finished : A → Result A
  crashed : Result A

-- `QSize::isValid`.
abbrev pub is_valid_size : Size → Bool
is_valid_size s = leb_ℤ (pos 0) s.width && leb_ℤ (pos 0) s.height

-- Without a primary screen the first one is promoted; `at(0)` of an empty list is an error.
unfoldable pub promote_first : {R : Type 0} → Backend R × Bool → Result (Backend R)
promote_first (b, true) = finished b
promote_first (b, false) = elim b.screens [
  | [] ↦ crashed
  | s ∷ rest ↦ finished (record b { events = b.events ++ primary_screen_changed 0 ∷ [] })
]

module _ {R : Type 0} (ops : RealOps R) where
  abbrev physical : Settings → Size
  physical o =
      let given : Size = record { width = o.physical_width; height = o.physical_height } in
      if is_valid_size given
      then given
      else record { width = ops.floor_mm o.width; height = ops.floor_mm o.height }

  -- `setPhysicalSize`, which is called if the size is valid.
  place_physical : Size → Screen R → Screen R
  place_physical p s =
      if is_valid_size p
      then set_physical_size ops.eq_real (ops.of_int p.width, ops.of_int p.height) s
      else s

  -- The screen that the loop makes of an entry.
  unfoldable pub make_screen : Settings → Screen R
  unfolding place_physical
  make_screen o =
      let s0 = record (new_screen ops.unset) { manufacturer = "Green Island"; model = o.name } in
      let size : Size = record { width = o.width; height = o.height } in
      orient o.orientation (
        set_modes (record { size = size; refresh_rate = ops.per_mille o.refresh_rate } ∷ []) (
          set_scale_factor (if leb_ℤ o.scale (pos 0) then pos 1 else o.scale) (
            set_refresh_rate o.refresh_rate (
              set_size size
                (set_position (record { x = o.x; y = o.y }) (place_physical (physical o) s0))))))

  -- One round of the loop: the screen is appended and announced, and promoted if it is primary.
  unfoldable pub add_screen : Settings → Backend R → Backend R
  add_screen o b = record {
    screens = b.screens ++ make_screen o ∷ [];
    events =
        b.events
        ++ screen_added (length b.screens)
          ∷ (if o.primary then primary_screen_changed (length b.screens) ∷ [] else []);
  }

  -- The loop, with the flag `primarySet`.
  unfoldable pub add_screens : List Settings → Bool → Backend R → Backend R × Bool
  add_screens [] primary_set b = (b, primary_set)
  add_screens (o ∷ os) primary_set b = add_screens os (o.primary || primary_set) (add_screen o b)

  unfoldable pub acquire_configuration : Configuration → Backend R → Result (Backend R)
  unfolding add_screens promote_first
  acquire_configuration unreadable b = finished b
  acquire_configuration no_object b = finished b
  acquire_configuration (outputs os) b = promote_first (add_screens os false b)

-- `ScreenManager`: the primary screen, after the events of the backend.
unfoldable pub primary_screen : List Event → Option ℕ → Option ℕ
primary_screen [] p = p
primary_screen (screen_added i ∷ es) p = primary_screen es p
primary_screen (primary_screen_changed i ∷ es) p = primary_screen es (some i)
