-- ===== src/Server/Window.antt =====
-- src/server/shell/clientwindow.cpp: the state of a client's window and what the shells' requests
-- do to it. Windows, surfaces, outputs and items are numbers. Positions are integers: all that the
-- code writes to the move item is whole.
pub mod Placement
pub mod Stacking
pub mod Roles
pub mod Activation
pub mod Outputs
use greenisland.Common.{
  eq_bool, ℕ, String, refl, Bool, true, false, Option, none, some, List, [], ◌∷◌, ◌++◌, arith, ◌==◌,
  if◌then◌else◌, str_eq, contains, remove_one, pos, negsuc, ◌+ℤ◌, ◌-ℤ◌, half, Point, Size, Rect,
  eq_rect,
}
use greenisland.Server.Applications.{Kind, unknown, top_level, popup, transient}

pub data Signal : Type 0 where
  surface_changed process_id_changed type_changed parent_window_changed title_changed : Signal
  activated_changed window_geometry_changed task_icon_geometry_changed minimized_changed : Signal
  maximized_changed fullscreen_changed outputs_changed designed_output_changed : Signal
  -- calls to other parts: `setAppId`, `raise` of a window, `takeFocus` of a view
  set_app_id : String → Signal
  raise_window take_focus : ℕ → Signal

-- `ClientWindowPrivate`, and the number of the window.
pub record ClientWindow : Type 0 where
  pub id : ℕ
  pub surface : Option ℕ
  pub pid : ℕ
  pub kind : Kind
  pub parent : Option ℕ
  pub title : String
  pub position : Point
  pub window_geometry : Rect
  pub task_icon_geometry : Rect
  pub active : Bool
  pub minimized : Bool
  pub maximized : Bool
  pub fullscreen : Bool
  pub views : List ℕ
  pub designed_output : Option ℕ
  pub outputs_list : List ℕ
  pub signals : List Signal

abbrev pub emit : Signal → ClientWindow → ClientWindow
emit g w = record w { signals = w.signals ++ g ∷ [] }

-- The constructor.
unfoldable pub new_window : ℕ → ClientWindow
new_window id = record {
  id = id;
  surface = none;
  pid = 0;
  kind = unknown;
  parent = none;
  title = "";
  position = record { x = pos 0; y = pos 0 };
  window_geometry = record { left = pos 0; top = pos 0; right = negsuc 0; bottom = negsuc 0 };
  task_icon_geometry = record { left = pos 0; top = pos 0; right = pos 31; bottom = pos 31 };
  active = false;
  minimized = false;
  maximized = false;
  fullscreen = false;
  views = [];
  designed_output = none;
  outputs_list = [];
  signals = [];
}

abbrev pub eq_option : Option ℕ → Option ℕ → Bool
eq_option none none = true
eq_option (some a) (some b) = a == b
eq_option _ _ = false

abbrev kind_code : Kind → ℕ
kind_code unknown = 0
kind_code top_level = 1
kind_code popup = 2
kind_code transient = 3

abbrev pub eq_kind : Kind → Kind → Bool
eq_kind k l = kind_code k == kind_code l

unfoldable pub set_type : Kind → ClientWindow → ClientWindow
set_type k w = if eq_kind w.kind k then w else emit type_changed (record w { kind = k })

unfoldable pub set_parent_window : Option ℕ → ClientWindow → ClientWindow
set_parent_window p w =
    if eq_option w.parent p then w else emit parent_window_changed (record w { parent = p })

unfoldable pub set_title : String → ClientWindow → ClientWindow
set_title t w = if str_eq w.title t then w else emit title_changed (record w { title = t })

unfoldable pub set_active : Bool → ClientWindow → ClientWindow
set_active b w = if eq_bool w.active b then w else emit activated_changed (record w { active = b })

unfoldable pub set_window_geometry : Rect → ClientWindow → ClientWindow
set_window_geometry r w =
    if eq_rect w.window_geometry r
    then w
    else emit window_geometry_changed (record w { window_geometry = r })

unfoldable pub set_task_icon_geometry : Rect → ClientWindow → ClientWindow
set_task_icon_geometry r w =
    if eq_rect w.task_icon_geometry r
    then w
    else emit task_icon_geometry_changed (record w { task_icon_geometry = r })

unfoldable pub set_maximized : Bool → ClientWindow → ClientWindow
set_maximized b w =
    if eq_bool w.maximized b then w else emit maximized_changed (record w { maximized = b })

unfoldable pub set_fullscreen : Bool → ClientWindow → ClientWindow
set_fullscreen b w =
    if eq_bool w.fullscreen b then w else emit fullscreen_changed (record w { fullscreen = b })

unfoldable pub set_minimized : Bool → ClientWindow → ClientWindow
set_minimized b w =
    if eq_bool w.minimized b then w else emit minimized_changed (record w { minimized = b })

-- `initialize`: `position` is what `randomPosition` gives.
unfoldable pub initialize : ℕ → ℕ → Point → ClientWindow → ClientWindow
initialize surface pid position w = elim w.surface [
  | some _ ↦ w
  | none ↦
      record (emit process_id_changed
        (emit surface_changed (record w { surface = some surface; pid = pid }))) {
          position = position;
        }
]

-- What the connections of `_q_wlShellSurfaceCreated` do on a signal of the shell surface. A parent
-- is the window of the parent surface, if there is one.
pub data WlEvent : Type 0 where
  title class_name : String → WlEvent
  default_toplevel full_screen maximize : WlEvent
  make_transient make_popup : Option ℕ → WlEvent

unfoldable pub wl_event : WlEvent → ClientWindow → ClientWindow
wl_event (title t) w = set_title t w
wl_event (class_name a) w = emit (set_app_id a) w
wl_event default_toplevel w =
    set_type top_level (set_fullscreen false (set_maximized false (set_parent_window none w)))
wl_event (make_transient p) w =
    set_type transient (set_fullscreen false (set_maximized false (set_parent_window p w)))
wl_event full_screen w = set_fullscreen true w
wl_event (make_popup p) w = set_type popup (set_maximized false (set_parent_window p w))
wl_event maximize w = set_fullscreen false (set_maximized true w)

-- The activation code that the handlers of xdg_shell and of wl_shell share: a transient window
-- raises its parent, and then itself.
raise_parent : Kind → Option ℕ → ClientWindow → ClientWindow
raise_parent transient (some p) w = emit (raise_window p) w
raise_parent _ _ w = w

raise_active : ClientWindow → ClientWindow
unfolding raise_parent
raise_active w = emit (raise_window w.id) (raise_parent w.kind w.parent w)

unfoldable pub activate_as : Bool → ClientWindow → ClientWindow
unfolding raise_active
activate_as b w =
    let v = set_minimized false (set_active b w) in if v.active then raise_active v else v

-- What the connections of `_q_xdgSurfaceCreated` do. The parent of a transient surface comes with
-- its position and the size of its surface, and `size` is the size of the window geometry.
pub record Parent : Type 0 where
  pub id : ℕ
  pub position : Point
  pub surface_size : Size

pub data XdgEvent : Type 0 where
  set_top_level minimize : XdgEvent
  set_transient : Option Parent → Size → XdgEvent
  xdg_title app_id : String → XdgEvent
  geometry : Rect → XdgEvent
  maximized fullscreen activated : Bool → XdgEvent

-- The place in the middle of the parent.
abbrev pub centered : Parent → Size → Point
centered p s = record {
  x = p.position.x +ℤ half p.surface_size.width -ℤ half s.width;
  y = p.position.y +ℤ half p.surface_size.height -ℤ half s.height;
}

unfoldable pub xdg_event : XdgEvent → ClientWindow → ClientWindow
xdg_event set_top_level w = set_type top_level w
xdg_event minimize w = set_minimized true w
xdg_event (set_transient none s) w = set_parent_window none w
xdg_event (set_transient (some p) s) w =
    set_type transient (record (set_parent_window (some p.id) w) { position = centered p s })
xdg_event (xdg_title t) w = set_title t w
xdg_event (app_id a) w = emit (set_app_id a) w
xdg_event (geometry r) w = set_window_geometry r w
xdg_event (maximized b) w = set_minimized false (set_maximized b w)
xdg_event (fullscreen b) w = set_minimized false (set_fullscreen b w)
xdg_event (activated b) w = activate_as b w

-- `_q_xdgPopupCreated`, for the surface of the new popup.
unfoldable pub xdg_popup_created : ℕ → ClientWindow → ClientWindow
xdg_popup_created s w = if eq_option (some s) w.surface then set_type popup w else w

-- `_q_handleFocusChanged`: the surface with the keyboard focus, and whether it is one of wl_shell.
unfoldable pub handle_focus_changed : Option ℕ → Bool → ClientWindow → ClientWindow
handle_focus_changed surface is_wl w =
    if is_wl then activate_as (eq_option surface w.surface) w else w

-- `addWindowView`, `removeWindowView`, `activate` and `move`.
unfoldable pub add_window_view : ℕ → ClientWindow → ClientWindow
add_window_view v w = if contains w.views v then w else record w { views = w.views ++ v ∷ [] }

unfoldable pub remove_window_view : ℕ → ClientWindow → ClientWindow
remove_window_view v w = record w { views = remove_one w.views v }

focus_views : List ℕ → ClientWindow → ClientWindow
focus_views [] w = w
focus_views (v ∷ vs) w = focus_views vs (emit (take_focus v) w)

unfoldable pub activate : ClientWindow → ClientWindow
unfolding focus_views
activate w = focus_views w.views w

unfoldable pub move : Point → ClientWindow → ClientWindow
move p w = record w { position = p }
