-- ===== src/Launcher/Modes/Environment.antt =====
-- The mode that is chosen, and the environment that the compositor gets in it.
use greenisland.Common.{
  String, ◌≡◌, refl, ◌≢◌, ◌⊎◌, inl, inr, Bool, Option, none, some, Option-cases, Bool-cases, true,
  false, List, [], ◌∷◌, ◌++◌, arith, if◌then◌else◌, str_eq, str_eq_iff,
}
use Prim.Native.String.{◌++◌ as str_append}
use greenisland.Launcher.Modes.{
  Mode, unknown_mode, eglfs_mode, hwcomposer_mode, nested_mode, x11_mode, wayland_mode, Hardware,
  Host, lookup, insert, detect_mode, detect_hardware, detect_lib_input, compositor_env,
  compositor_args, nested, alone, no_mode, Plan, unknown_hardware, drm_hardware, broadcom_hardware,
  start, plan_for, weston_args, seat,
}

lookup-insert :
    (k j v : String) (env : List (String × String))
    → lookup k (insert j v env) ≡ (if str_eq j k then some v else lookup k env)
unfolding lookup insert
lookup-insert k j v [] = refl
lookup-insert k j v ((x, w) ∷ env) =
    ground (arith, lookup-insert k j v env, str_eq_iff x j, str_eq_iff x k, str_eq_iff j k)

-- The platform plugin of Qt in each mode, given the inherited one.
abbrev pub platform_of : Mode → Option String → Option String
platform_of nested_mode p = some "greenisland"
platform_of eglfs_mode p = some "greenisland"
platform_of hwcomposer_mode p = some "hwcomposer"
platform_of wayland_mode p = some "wayland"
platform_of x11_mode p = p
platform_of unknown_mode p = p

-- The Wayland display in each mode, given the master compositor's and the inherited one.
abbrev pub display_of : Mode → String → Option String → Option String
display_of nested_mode weston d = some weston
display_of _ weston d = d

-- In every mode the compositor runs with the platform plugin of that mode; its Wayland display is
-- that of the master compositor in nested mode, and the inherited one in the others.
compositor_env_lem :
    (m : Mode) (hardware : Hardware) (has_plugin : Bool) (weston : String)
    (env : List (String × String))
    → let child = compositor_env m hardware has_plugin weston env in
      (lookup "QT_QPA_PLATFORM" child ≡ platform_of m (lookup "QT_QPA_PLATFORM" env))
      × (lookup "WAYLAND_DISPLAY" child ≡ display_of m weston (lookup "WAYLAND_DISPLAY" env))
unfolding compositor_env
compositor_env_lem unknown_mode hardware has_plugin weston env = (refl, refl)
compositor_env_lem eglfs_mode hardware has_plugin weston env = (
  lookup-insert "QT_QPA_PLATFORM" "QT_QPA_PLATFORM" "greenisland" env,
  lookup-insert "WAYLAND_DISPLAY" "QT_QPA_PLATFORM" "greenisland" env,
)
compositor_env_lem x11_mode hardware has_plugin weston env = (
  lookup-insert "QT_QPA_PLATFORM" "QT_XCB_GL_INTEGRATION" "xcb_egl" env,
  lookup-insert "WAYLAND_DISPLAY" "QT_XCB_GL_INTEGRATION" "xcb_egl" env,
)
compositor_env_lem wayland_mode hardware has_plugin weston env = (
  lookup-insert "QT_QPA_PLATFORM" "QT_QPA_PLATFORM" "wayland" env,
  lookup-insert "WAYLAND_DISPLAY" "QT_QPA_PLATFORM" "wayland" env,
)
compositor_env_lem hwcomposer_mode hardware has_plugin weston env =
    let platform = insert "QT_QPA_PLATFORM" "hwcomposer" env in
    let egl = insert "EGL_PLATFORM" "hwcomposer" platform in
    (
      ground (
        arith,
        lookup-insert "QT_QPA_PLATFORM" "QT_QPA_EGLFS_DISABLE_INPUT" "1" egl,
        lookup-insert "QT_QPA_PLATFORM" "EGL_PLATFORM" "hwcomposer" platform,
        lookup-insert "QT_QPA_PLATFORM" "QT_QPA_PLATFORM" "hwcomposer" env,
      ),
      ground (
        arith,
        lookup-insert "WAYLAND_DISPLAY" "QT_QPA_EGLFS_DISABLE_INPUT" "1" egl,
        lookup-insert "WAYLAND_DISPLAY" "EGL_PLATFORM" "hwcomposer" platform,
        lookup-insert "WAYLAND_DISPLAY" "QT_QPA_PLATFORM" "hwcomposer" env,
      ),
    )
compositor_env_lem nested_mode hardware has_plugin weston env =
    let platform = insert "QT_QPA_PLATFORM" "greenisland" env in
    let display = insert "WAYLAND_DISPLAY" weston platform in
    let server = insert "QT_WAYLAND_HARDWARE_INTEGRATION" "brcm-egl" display in
    (
      ground (
        arith,
        lookup-insert "QT_QPA_PLATFORM" "QT_WAYLAND_CLIENT_BUFFER_INTEGRATION" "brcm-egl" server,
        lookup-insert "QT_QPA_PLATFORM" "QT_WAYLAND_HARDWARE_INTEGRATION" "brcm-egl" display,
        lookup-insert "QT_QPA_PLATFORM" "WAYLAND_DISPLAY" weston platform,
        lookup-insert "QT_QPA_PLATFORM" "QT_QPA_PLATFORM" "greenisland" env,
      ),
      ground (
        arith,
        lookup-insert "WAYLAND_DISPLAY" "QT_WAYLAND_CLIENT_BUFFER_INTEGRATION" "brcm-egl" server,
        lookup-insert "WAYLAND_DISPLAY" "QT_WAYLAND_HARDWARE_INTEGRATION" "brcm-egl" display,
        lookup-insert "WAYLAND_DISPLAY" "WAYLAND_DISPLAY" weston platform,
      ),
    )

-- The arguments of a mode, behind those of the user: without a mode of its own there are none.
abbrev pub extra_of : Mode → Host → List String
extra_of hwcomposer_mode h = if detect_lib_input h then "-plugin" ∷ "libinput" ∷ [] else []
extra_of nested_mode h = "--nested" ∷ []
extra_of _ h = []

-- The mode that is meant by the one of the command line.
abbrev pub IsMode : Host → Hardware → Mode → Mode → Type 0
IsMode h hardware unknown_mode m =
    ((lookup "WAYLAND_DISPLAY" h.environment ≢ none) × (m ≡ wayland_mode))
    ⊎ ((lookup "WAYLAND_DISPLAY" h.environment ≡ none)
        × (((lookup "DISPLAY" h.environment ≢ none) × (m ≡ x11_mode))
            ⊎ ((lookup "DISPLAY" h.environment ≡ none)
                × (((m ≡ nested_mode)
                      × ((hardware ≡ unknown_hardware)
                          ⊎ ((hardware ≡ drm_hardware) × (h.old_qt ≡ true))))
                    ⊎ ((m ≡ eglfs_mode)
                        × ((hardware ≡ broadcom_hardware)
                            ⊎ ((hardware ≡ drm_hardware) × (h.old_qt ≡ false))))))))
IsMode h hardware mode m = m ≡ mode

-- The environment and the arguments of the compositor in a mode.
abbrev pub IsChild :
    Mode → Host → String → String → List String → List String → List (String × String) → Type 0
IsChild m h weston socket arguments args env =
    (args ≡ (arguments ++ extra_of m h) ++ "--wayland-socket-name" ∷ socket ∷ [])
    × (lookup "QT_QPA_PLATFORM" env ≡ platform_of m (lookup "QT_QPA_PLATFORM" h.environment))
    × (lookup "WAYLAND_DISPLAY" env ≡ display_of m weston (lookup "WAYLAND_DISPLAY" h.environment))

-- What is run in a mode: in nested mode a master compositor and then the compositor, in the others
-- the program with its arguments.
abbrev pub IsPlan : Mode → Host → String → List String → Plan → Type 0
IsPlan unknown_mode h program arguments p = p ≡ no_mode
IsPlan nested_mode h program arguments p =
    let weston = str_append "greenisland-master-" (seat h) in
    let socket = str_append "greenisland-slave-" (seat h) in
    (args : List String) × (env : List (String × String)) × ((p
        ≡ nested socket (weston_args weston) args env)
      × IsChild nested_mode h weston socket arguments args env)
IsPlan m h program arguments p =
    let socket = str_append "greenisland-" (seat h) in
    (args : List String) × (env : List (String × String)) × ((p ≡ alone (program ∷ args) env)
      × IsChild m h "" socket arguments args env)

detect_mode-IsMode :
    (h : Host) (hardware : Hardware) (m : Mode) → IsMode h hardware m (detect_mode h hardware m)
unfolding detect_mode
detect_mode-IsMode h hardware unknown_mode =
    elim (Option-cases (lookup "WAYLAND_DISPLAY" h.environment)) [
      | inr (w, wayland) ↦ inl ((λ e. ground (arith, wayland, e)), ground (arith, wayland))
      | inl no_wayland ↦ inr (
        no_wayland,
        elim (Option-cases (lookup "DISPLAY" h.environment)) [
          | inr (d, x11) ↦ inl ((λ e. ground (arith, x11, e)), ground (arith, no_wayland, x11))
          | inl no_x11 ↦ inr (no_x11, of_hardware hardware no_wayland no_x11)
        ],
      )
    ]
  where
    of_hardware :
        (g : Hardware)
        → lookup "WAYLAND_DISPLAY" h.environment ≡ none
        → lookup "DISPLAY" h.environment ≡ none
        → ((detect_mode h g unknown_mode ≡ nested_mode)
            × ((g ≡ unknown_hardware) ⊎ ((g ≡ drm_hardware) × (h.old_qt ≡ true))))
          ⊎ ((detect_mode h g unknown_mode ≡ eglfs_mode)
              × ((g ≡ broadcom_hardware) ⊎ ((g ≡ drm_hardware) × (h.old_qt ≡ false))))
    of_hardware unknown_hardware w x = inl (ground (arith, w, x), inl refl)
    of_hardware broadcom_hardware w x = inr (ground (arith, w, x), inl refl)
    of_hardware drm_hardware w x = elim (Bool-cases h.old_qt) [
      | inl old ↦ inl (ground (arith, w, x, old), inr (refl, old))
      | inr new ↦ inr (ground (arith, w, x, new), inr (refl, new))
    ]
detect_mode-IsMode h hardware eglfs_mode = refl
detect_mode-IsMode h hardware hwcomposer_mode = refl
detect_mode-IsMode h hardware nested_mode = refl
detect_mode-IsMode h hardware x11_mode = refl
detect_mode-IsMode h hardware wayland_mode = refl

plan_for-IsPlan :
    (h : Host) (hardware : Hardware) (program : String) (arguments : List String) (m : Mode)
    → IsPlan m h program arguments (plan_for h hardware program arguments m)
unfolding plan_for compositor_args
plan_for-IsPlan h hardware program arguments unknown_mode = refl
plan_for-IsPlan h hardware program arguments nested_mode =
    let weston = str_append "greenisland-master-" (seat h) in
    let env = compositor_env_lem nested_mode hardware (detect_lib_input h) weston h.environment in
    (_, _, (refl, (refl, env.0, env.1)))
plan_for-IsPlan h hardware program arguments eglfs_mode =
    let env = compositor_env_lem eglfs_mode hardware (detect_lib_input h) "" h.environment in
    (_, _, (refl, (refl, env.0, env.1)))
plan_for-IsPlan h hardware program arguments hwcomposer_mode =
    let env = compositor_env_lem hwcomposer_mode hardware (detect_lib_input h) "" h.environment in
    (_, _, (refl, (refl, env.0, env.1)))
plan_for-IsPlan h hardware program arguments x11_mode =
    let env = compositor_env_lem x11_mode hardware (detect_lib_input h) "" h.environment in
    (_, _, (refl, (refl, env.0, env.1)))
plan_for-IsPlan h hardware program arguments wayland_mode =
    let env = compositor_env_lem wayland_mode hardware (detect_lib_input h) "" h.environment in
    (_, _, (refl, (refl, env.0, env.1)))

-- The launcher runs in the mode of the command line or, without one, in that of the session: with a
-- Wayland display the Wayland mode, else with an X11 display the X11 mode, else the nested mode where
-- there is no hardware, or a DRM device with an old Qt, and the mode of EGLFS otherwise. In nested
-- mode it runs a master compositor, and gives the compositor its display; in the others the
-- compositor alone, with the display that is inherited. The compositor has the platform plugin of the
-- mode, its arguments are those of the user and of the mode, and the name of its socket is last.
pub start_lem :
    (h : Host) (program : String) (arguments : List String) (m : Mode)
    → (mode : Mode) × (IsMode h (detect_hardware h) m mode
        × IsPlan mode h program arguments (start h program arguments m))
unfolding start
start_lem h program arguments m = (
  detect_mode h (detect_hardware h) m,
  (
    detect_mode-IsMode h (detect_hardware h) m,
    plan_for-IsPlan h (detect_hardware h) program arguments (detect_mode h (detect_hardware h) m),
  ),
)
