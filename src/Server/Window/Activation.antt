-- ===== src/Server/Window/Activation.antt =====
-- The activation of windows by xdg_shell, and by the keyboard focus for wl_shell.
use mathlib.Core.List.{append_assoc}
use greenisland.Common.{
  ℕ, ◌≡◌, refl, ◌↔◌, inl, inr, Bool, true, false, Option, none, some, List, [], ◌∷◌, ◌++◌, arith,
  Option-cases, ◌≢◌, ◌⊎◌, Bool-cases,
}
use greenisland.Server.Applications.{transient}
use greenisland.Server.Window.{
  ClientWindow, Signal, raise_window, eq_option, handle_focus_changed, activate_as, raise_active,
  set_active, set_minimized, xdg_event, minimize, activated,
}

eq_option_iff : (a b : Option ℕ) → (eq_option a b ≡ true) ↔ (a ≡ b)
eq_option_iff a b = ground arith

-- The windows that an activation raises: the parent of a transient window, and the window.
abbrev pub raised : ClientWindow → List Signal
raised w = elim w.kind [
  | transient ↦ elim w.parent [
    | some p ↦ raise_window p ∷ raise_window w.id ∷ []
    | none ↦ raise_window w.id ∷ []
  ]
  | _ ↦ raise_window w.id ∷ []
]

raise_active_lem : (w : ClientWindow) → (raise_active w).signals ≡ w.signals ++ raised w
unfolding raise_active
raise_active_lem w = elim (Option-cases w.parent) [
  | inl orphan ↦ ground arith
  | inr (p, parent) ↦
      ground (arith, append_assoc w.signals (raise_window p ∷ []) (raise_window w.id ∷ []))
]

raise_active_frame :
    (w : ClientWindow)
    → ((raise_active w).active ≡ w.active) × ((raise_active w).minimized ≡ w.minimized)
unfolding raise_active
raise_active_frame w = ground arith

-- Before anything is raised the window has the new state.
shown_frame :
    (b : Bool) (w : ClientWindow)
    → let v = set_minimized false (set_active b w) in
      (v.active ≡ b) × (v.minimized ≡ false) × (raised v ≡ raised w)
unfolding set_minimized set_active
shown_frame b w = (ground arith, ground arith, ground arith)

activate_as_lem :
    (b : Bool) (w : ClientWindow)
    → let v = activate_as b w in
      (v.active ≡ b)
      × (v.minimized ≡ false)
      × (b ≡ true → (before : List Signal) × (v.signals ≡ before ++ raised w))
unfolding activate_as
activate_as_lem b w =
    let v = set_minimized false (set_active b w) in
    let (active, minimized, same) = shown_frame b w in
    let (kept, kept_too) = raise_active_frame v in
    (
      ground (arith, active, kept),
      ground (arith, minimized, kept_too),
      λ on. (v.signals, ground (arith, active, same, on, raise_active_lem v)),
    )

-- When the keyboard focus goes to a surface of wl_shell, each window becomes active exactly if the
-- surface is its own, and such a window raises its parent, if it is transient, and then itself. Every window, the others too, stops being minimized.
handle_focus_changed_lem :
    (s : ℕ) (w : ClientWindow)
    → let v = handle_focus_changed (some s) true w in
      ((v.active ≡ true) ↔ (w.surface ≡ some s))
      × (v.minimized ≡ false)
      × ((w.surface ≢ some s) ⊎ ((before : List Signal) × (v.signals ≡ before ++ raised w)))
unfolding handle_focus_changed
handle_focus_changed_lem s w =
    let (active, shown, before) = activate_as_lem (eq_option (some s) w.surface) w in
    let own = eq_option_iff (some s) w.surface in
    (
      (λ h. ground (arith, active, own), λ h. ground (arith, active, own)),
      shown,
      elim (Bool-cases (eq_option (some s) w.surface)) [
        | inl on ↦ inr (before on)
        | inr off ↦ inl (λ h. absurd (ground (arith, own)))
      ],
    )

-- A window of xdg_shell that its client minimizes and that then loses the activation is not
-- minimized any more.
minimize-deactivate :
    (w : ClientWindow)
    → ((xdg_event minimize w).minimized ≡ true)
      × ((xdg_event (activated false) (xdg_event minimize w)).minimized ≡ false)
unfolding xdg_event set_minimized
minimize-deactivate w = (ground arith, (activate_as_lem false (set_minimized true w)).1)

-- An activation by xdg_shell makes the window active and not minimized, and raises its parent, if
-- it is transient, and then itself.
xdg_activation :
    (w : ClientWindow)
    → let v = xdg_event (activated true) w in
      (v.active ≡ true)
      × (v.minimized ≡ false)
      × (before : List Signal) × (v.signals ≡ before ++ raised w)
unfolding xdg_event
xdg_activation w =
    let (active, shown, before) = activate_as_lem true w in
    (active, shown, (before refl).0, (before refl).1)
