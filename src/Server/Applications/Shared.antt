-- ===== src/Server/Applications/Shared.antt =====
-- A window that changes its application identifier, alone or beside other windows of the same
-- application.
use greenisland.Common.{
  ℕ, String, ◌≡◌, inl, inr, true, false, not, ◌&&◌, ◌||◌, Option, some, arith, str_eq, str_eq_iff,
  Bool-cases, Option-cases,
}
use greenisland.Server.Applications.{
  Window, Manager, contains_id, remove_id, find_window, remove_window, update_window, has_app,
  rename, app_id_changed, set_app_id, app_id_map, requested_id, is_registered,
}
use greenisland.Server.Applications.Names.{
  Distinct, contains_id-append, contains_id-remove, remove_id-Distinct, append-Distinct,
}
use greenisland.Server.Applications.Windows.{has_app-remove, has_app-update}
use greenisland.Server.Applications.Invariant.{Inv, IsComplete}

app_id_changed_ids :
    (a : String) (w : Window) (m : Manager)
    → Distinct m.app_ids
    → contains_id a (app_id_changed w m).app_ids
      ≡ (str_eq w.app_id a || (contains_id a m.app_ids && not (str_eq a w.prev_app_id)))
unfolding app_id_changed
app_id_changed_ids a w m d = ground (
  arith,
  contains_id-remove a w.prev_app_id m.app_ids d,
  contains_id-remove w.app_id w.prev_app_id m.app_ids d,
  contains_id-append a w.app_id m.app_ids,
  contains_id-append a w.app_id (remove_id w.prev_app_id m.app_ids),
  str_eq_iff w.app_id a,
  str_eq_iff a w.prev_app_id,
  str_eq_iff w.app_id w.prev_app_id,
)

app_id_changed-Distinct :
    (w : Window) (m : Manager) → Distinct m.app_ids → Distinct (app_id_changed w m).app_ids
unfolding app_id_changed
app_id_changed-Distinct w m d = ground (
  arith,
  remove_id-Distinct w.prev_app_id m.app_ids d,
  append-Distinct w.app_id m.app_ids d,
  append-Distinct w.app_id (remove_id w.prev_app_id m.app_ids),
)

app_id_changed-windows : (w : Window) (m : Manager) → (app_id_changed w m).windows ≡ m.windows
unfolding app_id_changed
app_id_changed-windows w m = ground arith

-- What a change of the identifier of a registered window leaves, for an identifier `a`.
set_app_id_lem :
    (a : String) (process : Option String) (n : ℕ) (requested : String) (w : Window) (m : Manager)
    → Distinct m.app_ids
    → find_window n m.windows ≡ some w
    → str_eq w.app_id (requested_id process requested) ≡ false
    → let b = app_id_map (requested_id process requested) in
      let m' = set_app_id process n requested m in
      (contains_id a m'.app_ids
        ≡ (str_eq b a || (contains_id a m.app_ids && not (str_eq a w.app_id))))
      × (has_app a m'.windows ≡ (str_eq b a || has_app a (remove_window n m.windows)))
      × Distinct m'.app_ids
unfolding set_app_id
set_app_id_lem a process n requested w m d found fresh =
    let b = app_id_map (requested_id process requested) in
    let m1 = record m { windows = update_window n (rename b) m.windows } in
    let e : set_app_id process n requested m ≡ app_id_changed (rename b w) m1 =
      rw (found, set_app_id) (rw fresh) in
    rw e (
      unfold rename in app_id_changed_ids a (rename b w) m1 d,
      rw (app_id_changed-windows (rename b w) m1) (has_app-update a b n w m.windows found),
      app_id_changed-Distinct (rename b w) m1 d,
    )

set_app_id_same :
    (process : Option String) (n : ℕ) (requested : String) (m : Manager)
    → ((w : Window)
        → find_window n m.windows ≡ some w
        → str_eq w.app_id (requested_id process requested) ≡ true)
    → set_app_id process n requested m ≡ m
unfolding set_app_id
set_app_id_same process n requested m h = elim (Option-cases (find_window n m.windows)) [
  | inl missing ↦ rw (missing, set_app_id)
  | inr (w, found) ↦ rw (found, set_app_id) (rw (h w found))
]

-- A change of identifier never lists an application twice, nor one that has no window.
pub set_app_id-Inv :
    (process : Option String) (n : ℕ) (requested : String) (m : Manager)
    → Inv m
    → Inv (set_app_id process n requested m)
set_app_id-Inv process n requested m v = elim (Option-cases (find_window n m.windows)) [
  | inl missing ↦ rw (set_app_id_same process n requested m (λ w e. absurd (ground arith))) v
  | inr (w, found) ↦ elim (Bool-cases (str_eq w.app_id (requested_id process requested))) [
    | inl same ↦ rw (set_app_id_same process n requested m (λ x e. ground arith)) v
    | inr fresh ↦ record {
      distinct = (set_app_id_lem "" process n requested w m v.distinct found fresh).2;
      sound = λ a h.
          let (ids, apps, _) = set_app_id_lem a process n requested w m v.distinct found fresh in
          ground (
            arith,
            ids,
            apps,
            v.sound a,
            has_app-remove a n w m.windows found,
            str_eq_iff w.app_id a,
            str_eq_iff a w.app_id,
          );
    }
  ]
]

-- If no other window has the old identifier, every window with an identifier still has its
-- application listed after the change.
pub set_app_id-IsComplete :
    (process : Option String) (n : ℕ) (requested : String) (w : Window) (m : Manager)
    → Inv m
    → IsComplete m
    → find_window n m.windows ≡ some w
    → has_app w.app_id (remove_window n m.windows) ≡ false
    → IsComplete (set_app_id process n requested m)
set_app_id-IsComplete process n requested w m v c found alone a named h =
    elim (Bool-cases (str_eq w.app_id (requested_id process requested))) [
      | inl same ↦
          let e = set_app_id_same process n requested m (λ x f. ground arith) in
          rw e (c a named (rw e at h))
      | inr fresh ↦
          let (ids, apps, _) = set_app_id_lem a process n requested w m v.distinct found fresh in
          ground (
            arith,
            ids,
            apps,
            c a named,
            has_app-remove a n w m.windows found,
            str_eq_iff a w.app_id,
          )
    ]

-- If another window has the old identifier, the change to an identifier that is mapped to another
-- one takes the application off the list although that window is still there.
set_app_id_drops :
    (process : Option String) (n : ℕ) (requested : String) (w : Window) (m : Manager)
    → Inv m
    → find_window n m.windows ≡ some w
    → has_app w.app_id (remove_window n m.windows) ≡ true
    → str_eq w.app_id (requested_id process requested) ≡ false
    → str_eq (app_id_map (requested_id process requested)) w.app_id ≡ false
    → let m' = set_app_id process n requested m in
      (has_app w.app_id m'.windows ≡ true) × (is_registered w.app_id m' ≡ false)
unfolding is_registered
set_app_id_drops process n requested w m v found shared fresh other =
    let (ids, apps, _) = set_app_id_lem w.app_id process n requested w m v.distinct found fresh in
    ground (arith, ids, apps, str_eq_iff w.app_id w.app_id)
