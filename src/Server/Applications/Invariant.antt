-- ===== src/Server/Applications/Invariant.antt =====
-- The list of applications against the windows.
use greenisland.Common.{
  ℕ, String, ◌≡◌, inl, inr, true, false, not, ◌&&◌, ◌||◌, none, some, arith, str_eq, str_eq_iff,
  Option-cases,
}
use greenisland.Server.Applications.{
  Window, Manager, contains_id, find_window, remove_window, has_app, register_window,
  unregister_window, init,
}
use greenisland.Server.Applications.Names.{
  Distinct, contains_id-append, contains_id-remove, remove_id-Distinct, append-Distinct,
}
use greenisland.Server.Applications.Windows.{has_app-append, has_app-remove}

-- No application is listed twice, and each has a window.
pub record Inv (m : Manager) : Type 0 where
  pub distinct : Distinct m.app_ids
  pub sound : (a : String) → contains_id a m.app_ids ≡ true → has_app a m.windows ≡ true

-- Each window with an identifier has its application listed.
abbrev pub IsComplete : Manager → Type 0
IsComplete m =
    (a : String) → str_eq a "" ≡ false → has_app a m.windows ≡ true → contains_id a m.app_ids ≡ true

pub init-Inv : Inv init × IsComplete init
unfolding init contains_id has_app
init-Inv = (record { distinct = tt; sound = λ a h. cc }, λ a n h. cc)

-- The applications and the windows that `registerWindow` leaves.
register_window_lem :
    (a : String) (w : Window) (m : Manager)
    → find_window w.id m.windows ≡ none
    → (contains_id a (register_window w m).app_ids
        ≡ (contains_id a m.app_ids || (not (str_eq w.app_id "") && str_eq w.app_id a)))
      × (has_app a (register_window w m).windows ≡ (has_app a m.windows || str_eq w.app_id a))
unfolding register_window
register_window_lem a w m new = (
  ground (arith, contains_id-append a w.app_id m.app_ids, str_eq_iff w.app_id a),
  ground (arith, has_app-append a w m.windows),
)

register_window-Distinct :
    (w : Window) (m : Manager) → Distinct m.app_ids → Distinct (register_window w m).app_ids
unfolding register_window
register_window-Distinct w m d = ground (arith, append-Distinct w.app_id m.app_ids d)

register_window_known :
    (w v : Window) (m : Manager) → find_window w.id m.windows ≡ some v → register_window w m ≡ m
unfolding register_window
register_window_known w v m e = rw (e, register_window)

-- Registering a window keeps both: no application without a window or listed twice, and no
-- window with an identifier whose application is not listed.
pub register_window-Inv :
    (w : Window) (m : Manager)
    → Inv m
    → IsComplete m
    → Inv (register_window w m) × IsComplete (register_window w m)
register_window-Inv w m v c = elim (Option-cases (find_window w.id m.windows)) [
  | inr (x, known) ↦ rw (register_window_known w x m known) (v, c)
  | inl new ↦ (
    record {
      distinct = register_window-Distinct w m v.distinct;
      sound = λ a h.
          let (ids, apps) = register_window_lem a w m new in ground (arith, ids, apps, v.sound a);
    },
    λ a n h.
        let (ids, apps) = register_window_lem a w m new in
        ground (arith, ids, apps, c a, str_eq_iff w.app_id a),
  )
]

unregister_window_lem :
    (a : String) (n : ℕ) (w : Window) (m : Manager)
    → Distinct m.app_ids
    → find_window n m.windows ≡ some w
    → ((unregister_window n m).windows ≡ remove_window n m.windows)
      × (contains_id a (unregister_window n m).app_ids ≡ (
          contains_id a m.app_ids
          && (has_app w.app_id (remove_window n m.windows) || not (str_eq a w.app_id))))
unfolding unregister_window
unregister_window_lem a n w m d e =
    (ground arith, ground (arith, contains_id-remove a w.app_id m.app_ids d))

unregister_window-Distinct :
    (n : ℕ) (m : Manager) → Distinct m.app_ids → Distinct (unregister_window n m).app_ids
unfolding unregister_window
unregister_window-Distinct n m d = elim (Option-cases (find_window n m.windows)) [
  | inl missing ↦ ground arith
  | inr (w, found) ↦ ground (arith, remove_id-Distinct w.app_id m.app_ids d)
]

unregister_window_unknown :
    (n : ℕ) (m : Manager) → find_window n m.windows ≡ none → unregister_window n m ≡ m
unfolding unregister_window
unregister_window_unknown n m e = rw (e, unregister_window)

-- Unregistering a window keeps both: no application without a window or listed twice, and no
-- window with an identifier whose application is not listed.
pub unregister_window-Inv :
    (n : ℕ) (m : Manager)
    → Inv m
    → IsComplete m
    → Inv (unregister_window n m) × IsComplete (unregister_window n m)
unregister_window-Inv n m v c = elim (Option-cases (find_window n m.windows)) [
  | inl unknown ↦ rw (unregister_window_unknown n m unknown) (v, c)
  | inr (w, found) ↦ (
    record {
      distinct = unregister_window-Distinct n m v.distinct;
      sound = λ a h.
          let (windows, ids) = unregister_window_lem a n w m v.distinct found in
          ground (
            arith,
            windows,
            ids,
            v.sound a,
            has_app-remove a n w m.windows found,
            str_eq_iff w.app_id a,
            str_eq_iff a w.app_id,
          );
    },
    λ a named h.
        let (windows, ids) = unregister_window_lem a n w m v.distinct found in
        ground (
          arith,
          windows,
          ids,
          c a named,
          has_app-remove a n w m.windows found,
          str_eq_iff a w.app_id,
        ),
  )
]
