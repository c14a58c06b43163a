-- ===== src/Server/Tests/Screens.antt =====
-- The theorems about outputs and screens at concrete inputs.
use greenisland.Common.{ℕ, ◌≡◌, refl, true, none, some, List, [], ◌∷◌, pos}
use greenisland.Server.Screen.{Screen, QScreen, new_screen, normal, rotate_90, portrait}
use greenisland.Server.Output.{
  Output, Changeset, Configuration, Request, mode, transform, position, apply, lookup,
  new_changeset, apply_changeset,
}
use greenisland.Server.Output.Requests.{handle_all, changeset_after, lookup-handle_all}
use greenisland.Server.Output.Apply.{apply_changeset_fields}
use greenisland.Server.NativeScreens.{Backend as NativeBackend, Source, hint_rgb}

abbrev output : Output
output = record {
  is_default = true;
  transform = normal;
  mode_index = pos 0;
  position = record { x = pos 0; y = pos 0 };
  scale_factor = pos 1;
}

abbrev no_changes : Configuration
no_changes = record { changes = []; notices = [] }

abbrev requests : List Request
requests = transform 7 (pos 1) ∷ mode 8 (pos 2) ∷ position 7 (pos 100) (pos 0) ∷ apply ∷ []

lookup-handle_all_example :
    lookup 7 (handle_all (λ o. output) requests no_changes).changes
    ≡ changeset_after (λ o. output) 7 requests (lookup 7 no_changes.changes)
lookup-handle_all_example = lookup-handle_all (λ o. output) requests 7 no_changes

-- A screen that the output mirrors.
abbrev screen : Screen ℕ
screen = record (new_screen (0, 0)) { current_mode = pos 0 }

abbrev turned : Changeset
turned = record (new_changeset output) {
  transform = rotate_90;
  position = record { x = pos 100; y = pos 0 };
}

apply_changeset_fields_example :
    let r = apply_changeset turned output screen in
    (r.1 ≡ true)
    × (r.0.transform ≡ turned.transform)
    × (r.0.current_mode ≡ turned.mode_id)
    × (r.0.position ≡ turned.position)
    × (r.0.scale_factor ≡ turned.scale_factor)
    × (r.0.size ≡ screen.size)
    × (r.0.refresh_rate ≡ screen.refresh_rate)
    × (r.0.modes ≡ screen.modes)
    × (r.0.preferred_mode ≡ screen.preferred_mode)
unfolding new_screen
apply_changeset_fields_example =
    apply_changeset_fields turned output screen refl
      (record { transforms = refl; modes = refl; positions = refl; scales = refl })

-- A screen of this program's platform plugin.
abbrev platform_screen : QScreen
platform_screen = record {
  id = 5;
  has_eglfs = true;
  geometry = record { left = pos 0; top = pos 0; right = pos 1919; bottom = pos 1079 };
}

abbrev native_screen : Screen ℕ
native_screen = record screen { screen = some platform_screen }

-- A screen of Qt without a platform screen of this program.
abbrev source : Source ℕ
source = record {
  screen = platform_screen;
  name = "VGA-1";
  top_left = record { x = pos 0; y = pos 0 };
  size = record { width = pos 1920; height = pos 1080 };
  refresh_rate = pos 60000;
  physical_size = (520, 290);
  scale = pos 1;
  orientation = portrait;
  subpixel = hint_rgb;
  native = none;
}

-- The backend that shows one screen, which stands for the screen 5 of Qt.
abbrev shown : NativeBackend ℕ
shown = record { screens = native_screen ∷ []; initialized = true; events = [] }
