-- ===== src/Server/Tests/Windows.antt =====
-- The theorems about windows at concrete inputs.
use greenisland.Common.{
  ℕ, ◌*◌, ◌≡◌, refl, ◌⊎◌, Bool, ◌&&◌, some, List, [], ◌∷◌, arith, ◌==◌, if◌then◌else◌, ℤ, pos, ◌≤ℤ◌,
  leb_ℤ, Size, Rect,
}
use greenisland.Server.Window.{
  ClientWindow, new_window, WlEvent, title, make_transient, maximize, default_toplevel,
}
use greenisland.Server.Applications.{transient}
use greenisland.Server.Window.Roles.{role, wl_events, roles_after, role-wl_events}
use greenisland.Server.Window.Placement.{
  IsCursor, Fits, first_cursor, first_cursor-IsCursor, random_position, random_position-Fits,
}
use greenisland.Server.Window.Outputs.{
  window_rect, find_outputs, inside, Bounded, Attained, find_outputs_lem,
}
use greenisland.Server.Window.Stacking.{Scene, raise, OnTop, raise-OnTop}

-- A dialog of window 4, on surface 8.
abbrev dialog : ClientWindow
dialog = record (new_window 5) { surface = some 8; kind = transient; parent = some 4 }

abbrev requests : List WlEvent
requests = make_transient (some 4) ∷ title "Open" ∷ maximize ∷ default_toplevel ∷ []

role-wl_events_example : role (wl_events requests dialog) ≡ roles_after requests (role dialog)
role-wl_events_example = role-wl_events requests dialog

abbrev screen_size : Size
screen_size = record { width = pos 1366; height = pos 768 }

abbrev small : Size
small = record { width = pos 640; height = pos 2000 }

random_position-Fits_example :
    let r = random_position small screen_size first_cursor in
    IsCursor r.0
    × Fits r.1.x small.width screen_size.width
    × Fits r.1.y small.height screen_size.height
random_position-Fits_example =
    random_position-Fits small screen_size first_cursor first_cursor-IsCursor

abbrev encloses : Rect → Rect → Bool
encloses r s =
    leb_ℤ r.left s.left && leb_ℤ r.top s.top && leb_ℤ s.right r.right && leb_ℤ s.bottom r.bottom

abbrev larger : ℤ → ℤ → ℤ
larger a b = if leb_ℤ a b then b else a

abbrev smaller : ℤ → ℤ → ℤ
smaller a b = if leb_ℤ a b then a else b

abbrev meet : Rect → Rect → Rect
meet r s = record {
  left = larger r.left s.left;
  top = larger r.top s.top;
  right = smaller r.right s.right;
  bottom = smaller r.bottom s.bottom;
}

-- Two outputs side by side.
abbrev outputs : List (ℕ × Rect)
outputs =
    (1, record { left = pos 0; top = pos 0; right = pos 799; bottom = pos 599 })
    ∷ (2, record { left = pos 800; top = pos 0; right = pos 1599; bottom = pos 599 })
    ∷ []

find_outputs_lem_example :
    let window = window_rect dialog.position screen_size in
    let v = find_outputs encloses meet screen_size outputs dialog in
    (v.outputs_list ≡ inside encloses meet window outputs)
    × (m : ℤ) × (pos 0 ≤ℤ m)
    × Bounded encloses meet window m outputs
    × (((v.designed_output ≡ dialog.designed_output) × (m ≡ pos 0))
        ⊎ Attained encloses meet window m v.designed_output outputs)
find_outputs_lem_example = find_outputs_lem encloses meet screen_size outputs dialog 8 refl

-- Views 1 and 2 are children of items 10 and 20.
abbrev scene : Scene
scene = record { parent = λ v. v * 10; children = λ q. if q == 10 then 1 ∷ 3 ∷ [] else 4 ∷ 2 ∷ [] }

raise-OnTop_example :
    OnTop scene.parent (raise (1 ∷ 2 ∷ []) scene).children (1 ∷ 2 ∷ [])
    × ((raise (1 ∷ 2 ∷ []) scene).parent ≡ scene.parent)
raise-OnTop_example = raise-OnTop (1 ∷ 2 ∷ []) scene (refl, (omega arith, tt), (refl, tt, tt))
