-- ===== src/Launcher/Modes.antt =====
-- launcher/compositorlauncher.cpp: how the compositor is run. The environment of the launcher, the
-- files of the system and the libraries' plugins are data of `Host`; `model_is_raspberry` is the test
-- of the device model. Variables of the environment are pairs of texts.
use greenisland.Common.{
  String, Bool, true, false, ◌||◌, Option, none, some, List, [], ◌∷◌, ◌++◌, if◌then◌else◌, str_eq,
}
pub mod Environment
use Prim.Native.String.{◌++◌ as str_append}

pub data Mode : Type 0 where
  unknown_mode eglfs_mode hwcomposer_mode nested_mode x11_mode wayland_mode : Mode

pub data Hardware : Type 0 where
  unknown_hardware drm_hardware broadcom_hardware : Hardware

-- What the launcher reads of the system. `old_qt` is the condition of the build that Qt is older
-- than 5.5.
pub record Host : Type 0 where
  pub environment : List (String × String)
  pub has_drm : Bool
  pub model_is_raspberry : Bool
  pub existing_paths : List String
  pub plugin_files : List String
  pub old_qt : Bool

unfoldable pub lookup : String → List (String × String) → Option String
lookup k [] = none
lookup k ((x, v) ∷ env) = if str_eq x k then some v else lookup k env

-- `QProcessEnvironment::insert`.
unfoldable pub insert : String → String → List (String × String) → List (String × String)
insert k v [] = (k, v) ∷ []
insert k v ((x, w) ∷ env) = if str_eq x k then (k, v) ∷ env else (x, w) ∷ insert k v env

abbrev pub is_set : String → Host → Bool
is_set k h = elim (lookup k h.environment) [ none ↦ false | some v ↦ true ]

contains_text : String → List String → Bool
contains_text a [] = false
contains_text a (x ∷ xs) = str_eq x a || contains_text a xs

paths_exist : List String → List String → Bool
paths_exist files [] = false
paths_exist files (p ∷ ps) = contains_text p files || paths_exist files ps

unfoldable pub detect_hardware : Host → Hardware
unfolding contains_text paths_exist
detect_hardware h =
    if h.has_drm
    then drm_hardware
    else if h.model_is_raspberry
        || paths_exist h.existing_paths
            ("/usr/bin/vcgencmd" ∷ "/opt/vc/bin/vcgencmd" ∷ "/proc/vc-cma" ∷ [])
    then broadcom_hardware
    else unknown_hardware

unfoldable pub detect_mode : Host → Hardware → Mode → Mode
detect_mode h hardware unknown_mode =
    if is_set "WAYLAND_DISPLAY" h
    then wayland_mode
    else if is_set "DISPLAY" h
    then x11_mode
    else elim hardware [
      | unknown_hardware ↦ nested_mode
      | drm_hardware ↦ if h.old_qt then nested_mode else eglfs_mode
      | broadcom_hardware ↦ eglfs_mode
    ]
detect_mode h hardware mode = mode

unfoldable pub detect_lib_input : Host → Bool
unfolding contains_text
detect_lib_input h = contains_text "libqlibinputplugin.so" h.plugin_files

unfoldable pub compositor_args : Mode → Bool → List String → String → List String
compositor_args mode has_plugin arguments socket_name =
    let specific : List String = elim mode [
      | hwcomposer_mode ↦ if has_plugin then "-plugin" ∷ "libinput" ∷ [] else []
      | nested_mode ↦ "--nested" ∷ []
      | _ ↦ []
    ] in
    (arguments ++ specific) ++ "--wayland-socket-name" ∷ socket_name ∷ []

-- `weston` is the socket name of the master compositor.
unfoldable pub compositor_env :
    Mode → Hardware → Bool → String → List (String × String) → List (String × String)
compositor_env nested_mode hardware has_plugin weston env =
    let nested = insert "WAYLAND_DISPLAY" weston (insert "QT_QPA_PLATFORM" "greenisland" env) in
    elim hardware [
      | broadcom_hardware ↦
          insert "QT_WAYLAND_CLIENT_BUFFER_INTEGRATION" "brcm-egl"
            (insert "QT_WAYLAND_HARDWARE_INTEGRATION" "brcm-egl" nested)
      | _ ↦ nested
    ]
compositor_env eglfs_mode hardware has_plugin weston env =
    insert "QT_QPA_PLATFORM" "greenisland" env
compositor_env hwcomposer_mode hardware has_plugin weston env =
    let platform = insert "EGL_PLATFORM" "hwcomposer" (insert "QT_QPA_PLATFORM" "hwcomposer" env) in
    if has_plugin then insert "QT_QPA_EGLFS_DISABLE_INPUT" "1" platform else platform
compositor_env x11_mode hardware has_plugin weston env =
    insert "QT_XCB_GL_INTEGRATION" "xcb_egl" env
compositor_env wayland_mode hardware has_plugin weston env = insert "QT_QPA_PLATFORM" "wayland" env
compositor_env unknown_mode hardware has_plugin weston env = env

-- What `start` runs: nothing, a master compositor and then the compositor, or the compositor alone.
pub data Plan : Type 0 where
  no_mode : Plan
  nested : String → List String → List String → List (String × String) → Plan
  alone : List String → List (String × String) → Plan

abbrev pub weston_args : String → List String
weston_args socket = "--shell=fullscreen-shell.so" ∷ str_append "--socket=" socket ∷ []

abbrev pub seat : Host → String
seat h = elim (lookup "XDG_SEAT" h.environment) [ none ↦ "seat0" | some s ↦ s ]

plan_for : Host → Hardware → String → List String → Mode → Plan
plan_for h hardware program arguments unknown_mode = no_mode
plan_for h hardware program arguments nested_mode =
    let weston = str_append "greenisland-master-" (seat h) in
    let socket = str_append "greenisland-slave-" (seat h) in
    nested socket (weston_args weston)
      (compositor_args nested_mode (detect_lib_input h) arguments socket)
      (compositor_env nested_mode hardware (detect_lib_input h) weston h.environment)
plan_for h hardware program arguments mode =
    alone
      (program
        ∷ compositor_args mode (detect_lib_input h) arguments (str_append "greenisland-" (seat h)))
      (compositor_env mode hardware (detect_lib_input h) "" h.environment)

unfoldable pub start : Host → String → List String → Mode → Plan
unfolding plan_for
start h program arguments mode =
    plan_for h (detect_hardware h) program arguments (detect_mode h (detect_hardware h) mode)
