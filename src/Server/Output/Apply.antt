-- ===== src/Server/Output/Apply.antt =====
-- The application of a changeset to a screen.
use greenisland.Common.{
  ap, pos_part, neg_part, eq_of_parts, int_laws, ◌≡◌, ◌↔◌, true, none, arith, eq_ℤ_iff,
  eq_point_iff, List, refl, ℕ, some, ◌≢◌, Rect, false, ◌++◌, ◌∷◌, [], rect_width, set_top_left,
}
use greenisland.Server.Screen.{
  Screen, eq_transform, set_transform, set_current_mode, set_position, set_scale_factor, Transform,
  Signal,
}
use greenisland.Server.Output.{
  apply_on, Output, Changeset, apply_changeset, is_transform_changed, is_mode_id_changed,
  is_position_changed, is_scale_factor_changed, apply_transform, apply_mode, apply_position,
  apply_scale, apply_fields, apply_platform, has_pending_changes, QScreen, Configuration, lookup,
  platform_geometry, platform_mode_of,
}

eq_transform_iff : (s t : Transform) → (eq_transform s t ≡ true) ↔ (s ≡ t)
eq_transform_iff s t = ground arith

-- The output shows what the screen is set to.
pub record Mirrors {R : Type 0} (s : Screen R) (o : Output) : Type 0 where
  pub transforms : s.transform ≡ o.transform
  pub modes : s.current_mode ≡ o.mode_index
  pub positions : s.position ≡ o.position
  pub scales : s.scale_factor ≡ o.scale_factor

apply_transform_lem :
    {R : Type 0} (c : Changeset) (o : Output) (s : Screen R)
    → s.transform ≡ o.transform
    → (signals : List Signal) × (apply_transform c o s
        ≡ record s { transform = c.transform; signals = signals })
unfolding apply_transform is_transform_changed set_transform
apply_transform_lem c o s h = (
  (apply_transform c o s).signals,
  ground
      (arith, eq_transform_iff c.transform o.transform, eq_transform_iff s.transform c.transform),
)

apply_mode_lem :
    {R : Type 0} (c : Changeset) (o : Output) (s : Screen R)
    → s.current_mode ≡ o.mode_index
    → (signals : List Signal) × (apply_mode c o s
        ≡ record s { current_mode = c.mode_id; signals = signals })
unfolding apply_mode is_mode_id_changed set_current_mode
apply_mode_lem c o s h = (
  (apply_mode c o s).signals,
  ground (arith, eq_ℤ_iff c.mode_id o.mode_index, eq_ℤ_iff s.current_mode c.mode_id),
)

apply_position_lem :
    {R : Type 0} (c : Changeset) (o : Output) (s : Screen R)
    → s.position ≡ o.position
    → (signals : List Signal) × (apply_position c o s
        ≡ record s { position = c.position; signals = signals })
unfolding apply_position is_position_changed set_position
apply_position_lem c o s h = (
  (apply_position c o s).signals,
  ground (arith, eq_point_iff c.position o.position, eq_point_iff s.position c.position),
)

apply_scale_lem :
    {R : Type 0} (c : Changeset) (o : Output) (s : Screen R)
    → s.scale_factor ≡ o.scale_factor
    → (signals : List Signal) × (apply_scale c o s
        ≡ record s { scale_factor = c.scale_factor; signals = signals })
unfolding apply_scale is_scale_factor_changed set_scale_factor
apply_scale_lem c o s h = (
  (apply_scale c o s).signals,
  ground (arith, eq_ℤ_iff c.scale_factor o.scale_factor, eq_ℤ_iff s.scale_factor c.scale_factor),
)

apply_changeset_stages :
    {R : Type 0} (c : Changeset) (o : Output) (s : Screen R)
    → s.screen ≡ none
    → apply_changeset c o s
      ≡ (apply_scale c o (apply_position c o (apply_mode c o (apply_transform c o s))), true)
unfolding apply_changeset apply_on apply_fields
apply_changeset_stages c o s h = ap (λ q. apply_on q c o s) h

-- On a screen without a platform screen that its output mirrors, the application succeeds, sets the
-- transform, the mode, the position and the scale to those of the changeset, changed or not, and
-- leaves the size, the refresh rate, the list of modes and the preferred mode.
pub apply_changeset_fields :
    {R : Type 0} (c : Changeset) (o : Output) (s : Screen R)
    → s.screen ≡ none
    → Mirrors s o
    → let r = apply_changeset c o s in
      (r.1 ≡ true)
      × (r.0.transform ≡ c.transform)
      × (r.0.current_mode ≡ c.mode_id)
      × (r.0.position ≡ c.position)
      × (r.0.scale_factor ≡ c.scale_factor)
      × (r.0.size ≡ s.size)
      × (r.0.refresh_rate ≡ s.refresh_rate)
      × (r.0.modes ≡ s.modes)
      × (r.0.preferred_mode ≡ s.preferred_mode)
apply_changeset_fields c o s no_screen m =
    let (g1, e1) = apply_transform_lem c o s m.transforms in
    let s1 = record s { transform = c.transform; signals = g1 } in
    let (g2, e2) = apply_mode_lem c o s1 m.modes in
    let s2 = record s1 { current_mode = c.mode_id; signals = g2 } in
    let (g3, e3) = apply_position_lem c o s2 m.positions in
    let s3 = record s2 { position = c.position; signals = g3 } in
    let (g4, e4) = apply_scale_lem c o s3 m.scales in
    let e : apply_changeset c o s
        ≡ (record s3 { scale_factor = c.scale_factor; signals = g4 }, true) =
      cc (apply_changeset_stages c o s no_screen, e1, e2, e3, e4) in
    rw e (refl, refl, refl, refl, refl, refl, refl, refl, refl)

-- A changeset that differs from its output in nothing changes no screen, with a platform screen or
-- without.
apply_changeset_unchanged :
    {R : Type 0} (outputs : ℕ → Output) (n : ℕ) (v : Configuration) (c : Changeset) (s : Screen R)
    → lookup n v.changes ≡ some c
    → has_pending_changes outputs n v ≡ false
    → (apply_changeset c (outputs n) s).0 ≡ s
unfolding apply_changeset apply_fields apply_platform has_pending_changes apply_transform apply_mode
    apply_position apply_scale
apply_changeset_unchanged outputs n v c s found h = ground arith

-- On a platform screen, moving an output to a place to the left or to the right of where it is
-- tells Qt a geometry with the old bottom right corner, and so with another width.
apply_position_resizes :
    {R : Type 0} (c : Changeset) (o : Output) (q : QScreen) (s : Screen R)
    → s.screen ≡ some q
    → q.has_eglfs ≡ true
    → is_position_changed c o ≡ true
    → c.position.x ≢ q.geometry.left
    → (r : Rect) × (before : List Signal) × ((apply_changeset c o s).0.signals
        ≡ before ++ platform_geometry r ∷ [])
      × (r.left ≡ c.position.x)
      × (r.right ≡ q.geometry.right)
      × (r.bottom ≡ q.geometry.bottom)
      × (rect_width r ≢ rect_width q.geometry)
unfolding apply_changeset apply_platform
apply_position_resizes c o q s e native moved away = (
  set_top_left c.position q.geometry,
  (platform_mode_of c o s).signals,
  ground arith,
  refl,
  refl,
  refl,
  λ same. away (eq_of_parts _ _ (omega (int_laws, ap pos_part same, ap neg_part same))),
)
