-- ===== src/Launcher/Tests.antt =====
-- The theorems about the launcher at concrete inputs.
use greenisland.Common.{true, false, some, List, [], ◌∷◌}
use greenisland.Launcher.Process.{
  Process, new_process, start, Event, start_requested, stop_requested, sent, error,
}
use greenisland.Launcher.Modes.{start as launch_plan, detect_hardware, Mode, Host, unknown_mode}
use greenisland.Launcher.Modes.Environment.{IsMode, IsPlan, start_lem}

-- A child that is started, fails, is started again, and is stopped.
abbrev failing : List Event
failing = start_requested ∷ sent error ∷ start_requested ∷ stop_requested (error ∷ []) false ∷ []

abbrev running : Process
running = record (new_process "weston") {
  process = some 0;
  reports = true;
  watcher = true;
  listening = true;
  next = 1;
}

abbrev host : Host
host = record {
  environment = ("HOME", "/root") ∷ ("QT_QPA_PLATFORM", "xcb") ∷ [];
  has_drm = true;
  model_is_raspberry = false;
  existing_paths = [];
  plugin_files = [];
  old_qt = true;
}

start_lem_example :
    (mode : Mode) × (IsMode host (detect_hardware host) unknown_mode mode
      × IsPlan mode host "/usr/bin/greenisland" []
          (launch_plan host "/usr/bin/greenisland" [] unknown_mode))
start_lem_example = start_lem host "/usr/bin/greenisland" [] unknown_mode
