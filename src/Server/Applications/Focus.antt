-- ===== src/Server/Applications/Focus.antt =====
-- The focused window, and the requests to quit an application.
use greenisland.Common.{
  ℕ, suc, String, ◌≡◌, refl, ◌⊎◌, inl, inr, true, false, ◌&&◌, none, some, List, [], ◌∷◌, arith,
  str_eq, str_eq_iff, Bool-cases, Option-cases, get_elem?,
}
use greenisland.Server.Applications.{
  Window, top_level, Manager, close_client, contains_id, find_window, remove_window, has_app,
  activated_changed, surface_destroyed, unregister_window, quit, first_client, is_registered, note,
}

remove_window_missing :
    (n : ℕ) (ws : List Window) → find_window n ws ≡ none → remove_window n ws ≡ ws
unfolding find_window remove_window
remove_window_missing n [] e = refl
remove_window_missing n (w ∷ ws) e = ground (arith, remove_window_missing n ws)

first_client_lem :
    (a : String) (ws : List Window)
    → ((first_client a ws ≡ none) × (has_app a ws ≡ false))
      ⊎ ((n : ℕ) × (w : Window) × (get_elem? ws n ≡ some w)
          × (first_client a ws ≡ some w.client)
          × (w.app_id ≡ a))
unfolding first_client has_app
first_client_lem a [] = inl (refl, refl)
first_client_lem a (w ∷ ws) = elim (Bool-cases (str_eq w.app_id a)) [
  | inl hit ↦ inr (0, w, refl, rw hit, (str_eq_iff w.app_id a).0 hit)
  | inr miss ↦ elim (first_client_lem a ws) [
    | inl (missing, no_window) ↦ inl (ground arith, ground arith)
    | inr (n, v, there, first, same) ↦ inr (suc n, v, there, rw (miss, first), same)
  ]
]

unregister_window-focused : (n : ℕ) (m : Manager) → (unregister_window n m).focused ≡ m.focused
unfolding unregister_window
unregister_window-focused n m = elim (Option-cases (find_window n m.windows)) [
  | inl missing ↦ ground arith
  | inr (w, found) ↦ ground arith
]

unregister_window-windows :
    (n : ℕ) (m : Manager) → (unregister_window n m).windows ≡ remove_window n m.windows
unfolding unregister_window
unregister_window-windows n m = elim (Option-cases (find_window n m.windows)) [
  | inl missing ↦ ground (arith, remove_window_missing n m.windows missing)
  | inr (w, found) ↦ ground arith
]

-- A top level window that is activated and then destroyed stays the focused window of the manager
-- although it is not registered any more: what `focusedWindow` returns points to a deleted window.
focused_after_destruction :
    (w : Window) (m : Manager)
    → w.activated ≡ true
    → w.kind ≡ top_level
    → find_window w.id (remove_window w.id m.windows) ≡ none
    → let m' = surface_destroyed w (activated_changed w m) in
      (m'.focused ≡ some w.id) × (find_window w.id m'.windows ≡ none)
unfolding surface_destroyed activated_changed
focused_after_destruction w m active top once = ground (
  arith,
  unregister_window-focused w.id (activated_changed w m),
  unregister_window-windows w.id (activated_changed w m),
)

-- A request to quit an application that is listed but has no window, or that is not listed, does
-- nothing; otherwise it closes the client of a registered window of the application.
quit_closes :
    (a : String) (m : Manager)
    → (((is_registered a m && has_app a m.windows) ≡ false) × (quit a m ≡ m))
      ⊎ ((n : ℕ) × (w : Window) × (is_registered a m ≡ true)
          × (get_elem? m.windows n ≡ some w)
          × (w.app_id ≡ a)
          × (quit a m ≡ note (close_client w.client) m))
unfolding quit is_registered
quit_closes a m = elim (first_client_lem a m.windows) [
  | inl (missing, no_window) ↦ inl (ground arith, ground arith)
  | inr (n, w, there, first, same) ↦ elim (Bool-cases (contains_id a m.app_ids)) [
    | inl listed ↦ inr (n, w, listed, there, same, ground arith)
    | inr unlisted ↦ inl (ground arith, ground arith)
  ]
]
