-- ===== src/Server/Output.antt =====
-- src/server/output/outputchangeset.cpp and outputconfiguration.cpp: the changes that a client asks
-- for, output by output, and src/server/screen/screenbackend.cpp's `Screen::applyChangeset`.
-- An output is its identifier; `Output` is what the code reads of it.
pub mod Requests
pub mod Apply
use greenisland.Common.{
  eq_bool, ℕ, Bool, true, false, not, List, [], ◌∷◌, Option, none, some, ℤ, pos, eq_ℤ, Point,
  eq_point, ◌==◌, ◌||◌, if◌then◌else◌, ◌++◌, set_top_left,
}
use greenisland.Server.Screen.{
  Transform, normal, rotate_90, rotate_180, rotate_270, flipped, flipped_90, flipped_180,
  flipped_270, eq_transform, Screen, emit, platform_mode, platform_geometry, QScreen, set_transform,
  set_current_mode, set_position, set_scale_factor,
}

pub record Output : Type 0 where
  pub is_default : Bool
  pub transform : Transform
  pub mode_index : ℤ
  pub position : Point
  pub scale_factor : ℤ

-- `OutputChangesetPrivate`.
pub record Changeset : Type 0 where
  pub enabled : Bool
  pub primary : Bool
  pub transform : Transform
  pub mode_id : ℤ
  pub position : Point
  pub scale_factor : ℤ

unfoldable pub new_changeset : Output → Changeset
new_changeset o = record {
  enabled = true;
  primary = o.is_default;
  transform = o.transform;
  mode_id = o.mode_index;
  position = o.position;
  scale_factor = o.scale_factor;
}

-- The code answers `false` until outputs can be disabled.
unfoldable pub is_enabled_changed : Changeset → Output → Bool
is_enabled_changed c o = false

unfoldable pub is_primary_changed : Changeset → Output → Bool
is_primary_changed c o = not (eq_bool c.primary o.is_default)

unfoldable pub is_transform_changed : Changeset → Output → Bool
is_transform_changed c o = not (eq_transform c.transform o.transform)

unfoldable pub is_mode_id_changed : Changeset → Output → Bool
is_mode_id_changed c o = not (eq_ℤ c.mode_id o.mode_index)

unfoldable pub is_position_changed : Changeset → Output → Bool
is_position_changed c o = not (eq_point c.position o.position)

unfoldable pub is_scale_factor_changed : Changeset → Output → Bool
is_scale_factor_changed c o = not (eq_ℤ c.scale_factor o.scale_factor)

-- What a configuration tells: its own signal, and the two events to the client.
pub data Notice : Type 0 where
  change_requested applied failed : Notice

-- `OutputConfigurationPrivate`: the pending changes by output.
pub record Configuration : Type 0 where
  pub changes : List (ℕ × Changeset)
  pub notices : List Notice

unfoldable pub lookup : ℕ → List (ℕ × Changeset) → Option Changeset
lookup o [] = none
lookup o ((k, c) ∷ m) = if k == o then some c else lookup o m

unfoldable pub insert : ℕ → Changeset → List (ℕ × Changeset) → List (ℕ × Changeset)
insert o c [] = (o, c) ∷ []
insert o c ((k, d) ∷ m) = if k == o then (o, c) ∷ m else (k, d) ∷ insert o c m

unfoldable pub pending_changes : (ℕ → Output) → ℕ → Configuration → Configuration × Changeset
pending_changes outputs o c = elim (lookup o c.changes) [
  | some s ↦ (c, s)
  | none ↦ let s = new_changeset (outputs o) in (record c { changes = insert o s c.changes }, s)
]

unfoldable pub has_pending_changes : (ℕ → Output) → ℕ → Configuration → Bool
unfolding is_enabled_changed is_primary_changed is_mode_id_changed is_transform_changed
    is_position_changed is_scale_factor_changed
has_pending_changes outputs o c = elim (lookup o c.changes) [
  | none ↦ false
  | some s ↦
      is_enabled_changed s (outputs o)
      || is_primary_changed s (outputs o)
      || is_mode_id_changed s (outputs o)
      || is_transform_changed s (outputs o)
      || is_position_changed s (outputs o)
      || is_scale_factor_changed s (outputs o)
]

unfoldable pub clear_pending_changes : Configuration → Configuration
clear_pending_changes c = record c { changes = [] }

-- A write to the fields of the pending changeset of an output.
unfoldable pub write : (ℕ → Output) → ℕ → (Changeset → Changeset) → Configuration → Configuration
unfolding pending_changes
write outputs o edit c =
    let (c', s) = pending_changes outputs o c in
    record c' { changes = insert o (edit s) c'.changes }

-- The `switch` of `outputconfiguration_transform`.
unfoldable pub decode_transform : ℤ → Transform
decode_transform t =
    if eq_ℤ t (pos 1)
    then rotate_90
    else if eq_ℤ t (pos 2)
    then rotate_180
    else if eq_ℤ t (pos 3)
    then rotate_270
    else if eq_ℤ t (pos 4)
    then flipped
    else if eq_ℤ t (pos 5)
    then flipped_90
    else if eq_ℤ t (pos 6)
    then flipped_180
    else if eq_ℤ t (pos 7)
    then flipped_270
    else normal

-- The requests of `greenisland_outputconfiguration`.
pub data Request : Type 0 where
  enable primary mode transform scale : ℕ → ℤ → Request
  position : ℕ → ℤ → ℤ → Request
  apply : Request

unfoldable pub handle : (ℕ → Output) → Request → Configuration → Configuration
unfolding write decode_transform
handle outputs (enable o v) c = write outputs o (λ s. record s { enabled = eq_ℤ v (pos 1) }) c
handle outputs (primary o v) c = write outputs o (λ s. record s { primary = eq_ℤ v (pos 1) }) c
handle outputs (mode o v) c = write outputs o (λ s. record s { mode_id = v }) c
handle outputs (transform o v) c =
    write outputs o (λ s. record s { transform = decode_transform v }) c
handle outputs (position o x y) c =
    write outputs o (λ s. record s { position = record { x = x; y = y } }) c
handle outputs (scale o v) c = write outputs o (λ s. record s { scale_factor = v }) c
handle outputs apply c = record c { notices = c.notices ++ change_requested ∷ [] }

unfoldable pub set_applied : Configuration → Configuration
unfolding clear_pending_changes
set_applied c =
    let c' = clear_pending_changes c in record c' { notices = c'.notices ++ applied ∷ [] }

unfoldable pub set_failed : Configuration → Configuration
unfolding clear_pending_changes
set_failed c = let c' = clear_pending_changes c in record c' { notices = c'.notices ++ failed ∷ [] }

platform_mode_of : {R : Type 0} → Changeset → Output → Screen R → Screen R
platform_mode_of c o s = if is_mode_id_changed c o then emit (platform_mode c.mode_id) s else s

-- `Screen::applyChangeset` on a screen with a platform screen: the handle must be this program's.
apply_platform : {R : Type 0} → Changeset → Output → QScreen → Screen R → Screen R × Bool
unfolding platform_mode_of
apply_platform c o q s =
    if q.has_eglfs
    then (
      if is_position_changed c o
          then emit (platform_geometry (set_top_left c.position q.geometry))
              (platform_mode_of c o s)
          else platform_mode_of c o s,
      true,
    )
    else (s, false)

apply_transform : {R : Type 0} → Changeset → Output → Screen R → Screen R
apply_transform c o s = if is_transform_changed c o then set_transform c.transform s else s

apply_mode : {R : Type 0} → Changeset → Output → Screen R → Screen R
apply_mode c o s = if is_mode_id_changed c o then set_current_mode c.mode_id s else s

apply_position : {R : Type 0} → Changeset → Output → Screen R → Screen R
apply_position c o s = if is_position_changed c o then set_position c.position s else s

apply_scale : {R : Type 0} → Changeset → Output → Screen R → Screen R
apply_scale c o s = if is_scale_factor_changed c o then set_scale_factor c.scale_factor s else s

-- The same on a screen without one.
apply_fields : {R : Type 0} → Changeset → Output → Screen R → Screen R × Bool
unfolding apply_transform apply_mode apply_position apply_scale
apply_fields c o s =
    (apply_scale c o (apply_position c o (apply_mode c o (apply_transform c o s))), true)

apply_on : {R : Type 0} → Option QScreen → Changeset → Output → Screen R → Screen R × Bool
unfolding apply_platform apply_fields
apply_on (some q) c o s = apply_platform c o q s
apply_on none c o s = apply_fields c o s

unfoldable pub apply_changeset : {R : Type 0} → Changeset → Output → Screen R → Screen R × Bool
unfolding apply_on
apply_changeset c o s = apply_on s.screen c o s
