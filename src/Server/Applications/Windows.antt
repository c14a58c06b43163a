-- ===== src/Server/Applications/Windows.antt =====
-- Which application identifiers the windows of a list have.
use greenisland.Common.{
  ℕ, String, ◌≡◌, inl, inr, ◌||◌, some, List, [], ◌∷◌, ◌++◌, arith, ◌==◌, str_eq, Bool-cases,
}
use greenisland.Server.Applications.{
  Window, find_window, remove_window, update_window, has_app, rename,
}

pub has_app-append :
    (a : String) (w : Window) (ws : List Window)
    → has_app a (ws ++ w ∷ []) ≡ (has_app a ws || str_eq w.app_id a)
unfolding has_app
has_app-append a w [] = ground arith
has_app-append a w (v ∷ ws) = ground (arith, has_app-append a w ws)

-- A window of another application is not the one that is removed.
pub has_app-remove :
    (a : String) (n : ℕ) (w : Window) (ws : List Window)
    → find_window n ws ≡ some w
    → has_app a ws ≡ (str_eq w.app_id a || has_app a (remove_window n ws))
unfolding has_app find_window remove_window
has_app-remove a n w [] e = absurd (ground arith)
has_app-remove a n w (v ∷ ws) e = elim (Bool-cases (v.id == n)) [
  | inl hit ↦ ground arith
  | inr miss ↦ ground (arith, has_app-remove a n w ws (ground arith))
]

-- After a window changed its identifier, the identifiers are the new one and those of the others.
pub has_app-update :
    (a b : String) (n : ℕ) (w : Window) (ws : List Window)
    → find_window n ws ≡ some w
    → has_app a (update_window n (rename b) ws) ≡ (str_eq b a || has_app a (remove_window n ws))
unfolding has_app find_window remove_window update_window rename
has_app-update a b n w [] e = absurd (ground arith)
has_app-update a b n w (v ∷ ws) e = elim (Bool-cases (v.id == n)) [
  | inl hit ↦ ground arith
  | inr miss ↦ ground (arith, has_app-update a b n w ws (ground arith))
]
