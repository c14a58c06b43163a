-- ===== src/Server/Applications.antt =====
-- src/server/extensions/applicationmanager.cpp: the registered windows, the identifiers of the
-- running applications, and the signals about them. A window, a surface, an output and a client
-- are numbers; a registered window is kept with the fields that the manager reads.
pub mod Names
pub mod Windows
pub mod Invariant
pub mod Shared
pub mod Focus
use greenisland.Common.{
  ℕ, String, refl, Bool, true, false, not, ◌&&◌, ◌||◌, Option, none, some, List, [], ◌∷◌, ◌++◌,
  arith, ◌==◌, if◌then◌else◌, str_eq,
}

-- `ClientWindow::Type`.
pub data Kind : Type 0 where
  unknown top_level popup transient : Kind

pub record Window : Type 0 where
  pub id : ℕ
  pub surface : ℕ
  pub client : ℕ
  pub process_id : ℕ
  pub app_id : String
  pub prev_app_id : String
  pub kind : Kind
  pub parent : Option ℕ
  pub activated : Bool
  pub designed_output : Option ℕ
  pub views : List ℕ

pub data Event : Type 0 where
  window_created : ℕ → Event
  application_added application_removed : String → ℕ → Event
  application_focused : String → Event
  focused_window_changed : Event
  -- calls to other objects
  close_client take_focus : ℕ → Event

-- `ApplicationManagerPrivate`.
pub record Manager : Type 0 where
  pub windows : List Window
  pub app_ids : List String
  pub focused : Option ℕ
  pub events : List Event

unfoldable pub init : Manager
init = record { windows = []; app_ids = []; focused = none; events = [] }

-- `contains` and `removeOne` of a list of texts.
unfoldable pub contains_id : String → List String → Bool
contains_id a [] = false
contains_id a (x ∷ xs) = str_eq x a || contains_id a xs

unfoldable pub remove_id : String → List String → List String
remove_id a [] = []
remove_id a (x ∷ xs) = if str_eq x a then xs else x ∷ remove_id a xs

-- The window with an identifier, and the list without it.
unfoldable pub find_window : ℕ → List Window → Option Window
find_window n [] = none
find_window n (w ∷ ws) = if w.id == n then some w else find_window n ws

unfoldable pub remove_window : ℕ → List Window → List Window
remove_window n [] = []
remove_window n (w ∷ ws) = if w.id == n then ws else w ∷ remove_window n ws

-- Some window of a list has an application identifier.
unfoldable pub has_app : String → List Window → Bool
has_app a [] = false
has_app a (w ∷ ws) = str_eq w.app_id a || has_app a ws

abbrev pub note : Event → Manager → Manager
note e m = record m { events = m.events ++ e ∷ [] }

-- Append an identifier to the applications, and announce it.
add_app : String → ℕ → Manager → Manager
add_app a pid m = note (application_added a pid) (record m { app_ids = m.app_ids ++ a ∷ [] })

remove_app : String → ℕ → Manager → Manager
remove_app a pid m = note (application_removed a pid) (record m { app_ids = remove_id a m.app_ids })

unfoldable pub register_window : Window → Manager → Manager
unfolding add_app
register_window w m = elim (find_window w.id m.windows) [
  | some _ ↦ m
  | none ↦
      let m1 = note (window_created w.id) (record m { windows = m.windows ++ w ∷ [] }) in
      if not (str_eq w.app_id "") && not (contains_id w.app_id m.app_ids)
      then add_app w.app_id w.process_id m1
      else m1
]

unfoldable pub unregister_window : ℕ → Manager → Manager
unfolding remove_app
unregister_window n m = elim (find_window n m.windows) [
  | none ↦ m
  | some w ↦
      let m1 = record m { windows = remove_window n m.windows } in
      if has_app w.app_id m1.windows then m1 else remove_app w.app_id w.process_id m1
]

-- `_q_appIdChanged`, sent by a window.
unfoldable pub app_id_changed : Window → Manager → Manager
unfolding add_app remove_app
app_id_changed w m =
    let m1 =
      if contains_id w.prev_app_id m.app_ids then remove_app w.prev_app_id w.process_id m else m in
    if contains_id w.app_id m1.app_ids then m1 else add_app w.app_id w.process_id m1

-- A change to the window with an identifier.
unfoldable pub update_window : ℕ → (Window → Window) → List Window → List Window
update_window n f [] = []
update_window n f (w ∷ ws) = if w.id == n then f w ∷ ws else w ∷ update_window n f ws

-- `ClientWindowPrivate::setAppId`, up to the icon: the old identifier is kept, and the signal of a
-- registered window reaches the manager.
unfoldable pub rename : String → Window → Window
rename a w = record w { prev_app_id = w.app_id; app_id = a }

-- `appIdMap`: known identifiers and the correct ones.
unfoldable pub app_id_map : String → String
app_id_map a =
    if str_eq a "org.hawaiios.hawaii-system-preferences"
    then "org.hawaiios.SystemPreferences"
    else if str_eq a "org.hawaiios.hawaii-screenshot"
    then "org.hawaiios.Screenshot"
    else if str_eq a "org.hawaiios.hawaii-terminal"
    then "org.hawaiios.terminal"
    else if str_eq a "org.qterminal.qterminal-qt5"
    then "qterminal-qt5"
    else a

-- An empty identifier is replaced by the name of the process, if that can be read.
unfoldable pub requested_id : Option String → String → String
requested_id process a = if str_eq a "" then (elim process [ none ↦ a | some name ↦ name ]) else a

unfoldable pub set_app_id : Option String → ℕ → String → Manager → Manager
unfolding app_id_changed rename
set_app_id process n a m = elim (find_window n m.windows) [
  | none ↦ m
  | some w ↦
      let b = requested_id process a in
      if str_eq w.app_id b
      then m
      else app_id_changed (rename (app_id_map b) w)
          (record m { windows = update_window n (rename (app_id_map b)) m.windows })
]

-- `_q_activatedChanged`, and the handler that `createWindow` connects to the same signal before it.
unfoldable pub activated_changed : Window → Manager → Manager
activated_changed w m =
    if w.activated
    then note (application_focused w.app_id)
        (note focused_window_changed (record m { focused = some w.id }))
    else m

focus_views : List ℕ → Manager → Manager
focus_views [] m = m
focus_views (v ∷ vs) m = focus_views vs (note (take_focus v) m)

-- The handler of `surfaceDestroyed` that `createWindow` connects. The parent may be a window that
-- is registered.
unfoldable pub surface_destroyed : Window → Manager → Manager
unfolding focus_views
surface_destroyed w m =
    let m1 = unregister_window w.id m in
    elim w.kind [
      | transient ↦ elim w.parent [
        | none ↦ m1
        | some p ↦ elim (find_window p m1.windows) [ none ↦ m1 | some q ↦ focus_views q.views m1 ]
      ]
      | _ ↦ m1
    ]

-- `windowForSurface`; `none` is the null surface.
unfoldable pub window_for_surface : Option ℕ → List Window → Option ℕ
window_for_surface none ws = none
window_for_surface (some s) [] = none
window_for_surface (some s) (w ∷ ws) =
    if w.surface == s then some w.id else window_for_surface (some s) ws

eq_output : Option ℕ → Option ℕ → Bool
eq_output none none = true
eq_output (some a) (some b) = a == b
eq_output _ _ = false

on_output : Option ℕ → List Window → List ℕ
on_output o [] = []
on_output o (w ∷ ws) =
    let rest = on_output o ws in if eq_output w.designed_output o then w.id ∷ rest else rest

-- `windowsForOutput`: `default_output` is the compositor's, and a null output stands for it.
unfoldable pub windows_for_output : Option ℕ → Option ℕ → Manager → List ℕ
unfolding on_output eq_output
windows_for_output default_output none m = on_output default_output m.windows
windows_for_output default_output (some o) m = on_output (some o) m.windows

unfoldable pub is_registered : String → Manager → Bool
is_registered a m = contains_id a m.app_ids

first_client : String → List Window → Option ℕ
first_client a [] = none
first_client a (w ∷ ws) = if str_eq w.app_id a then some w.client else first_client a ws

-- `quit`: only the client of the first window of a registered application is closed.
unfoldable pub quit : String → Manager → Manager
unfolding first_client
quit a m =
    if contains_id a m.app_ids
    then elim (first_client a m.windows) [ none ↦ m | some c ↦ note (close_client c) m ]
    else m
