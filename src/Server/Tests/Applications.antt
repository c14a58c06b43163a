-- ===== src/Server/Tests/Applications.antt =====
-- The theorems about the application manager at concrete inputs.
use greenisland.Common.{refl, true, none, some, []}
use greenisland.Server.Applications.{
  Window, Manager, init, register_window, unregister_window, set_app_id, top_level, has_app,
  contains_id, find_window, remove_window,
}
use greenisland.Server.Applications.Invariant.{
  Inv, IsComplete, init-Inv, register_window-Inv, unregister_window-Inv,
}
use greenisland.Server.Applications.Shared.{set_app_id-Inv, set_app_id-IsComplete}

abbrev terminal : Window
terminal = record {
  id = 1;
  surface = 10;
  client = 100;
  process_id = 1000;
  app_id = "terminal";
  prev_app_id = "";
  kind = top_level;
  parent = none;
  activated = true;
  designed_output = none;
  views = [];
}

-- A second window of the same application.
abbrev terminal_too : Window
terminal_too = record terminal { id = 2; surface = 11 }

abbrev one_window : Manager
one_window = register_window terminal init

abbrev two_windows : Manager
two_windows = register_window terminal_too one_window

one_window-Inv : Inv one_window × IsComplete one_window
one_window-Inv = register_window-Inv terminal init init-Inv.0 init-Inv.1

register_window-Inv_example : Inv two_windows × IsComplete two_windows
register_window-Inv_example =
    register_window-Inv terminal_too one_window one_window-Inv.0 one_window-Inv.1

unregister_window-Inv_example :
    Inv (unregister_window 1 one_window) × IsComplete (unregister_window 1 one_window)
unregister_window-Inv_example = unregister_window-Inv 1 one_window one_window-Inv.0 one_window-Inv.1

set_app_id-Inv_example : Inv (set_app_id none 1 "editor" one_window)
set_app_id-Inv_example = set_app_id-Inv none 1 "editor" one_window one_window-Inv.0

set_app_id-IsComplete_example : IsComplete (set_app_id (some "editor") 1 "" one_window)
unfolding register_window init contains_id find_window remove_window has_app
set_app_id-IsComplete_example =
    set_app_id-IsComplete (some "editor") 1 "" terminal one_window one_window-Inv.0 one_window-Inv.1
      refl refl
