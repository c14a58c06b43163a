-- ===== src/Server/Output/Requests.antt =====
-- The requests of a client against their meaning for each output on its own.
use greenisland.Common.{
  ℕ, List, [], ◌∷◌, ◌≡◌, refl, arith, Option, if◌then◌else◌, ◌==◌, some, Option-cases, inl, none,
  eq_ℤ, Bool, ◌∙◌, false, pos, inr, ap, eq_ℤ_iff,
}
use greenisland.Server.Screen.{
  Transform, transform_code, normal, rotate_90, rotate_180, rotate_270, flipped, flipped_90,
  flipped_180, flipped_270,
}
use greenisland.Server.Output.{
  Output, Changeset, Configuration, Request, enable, primary, mode, transform, position, scale,
  apply, handle, lookup, insert, write, pending_changes, new_changeset, decode_transform,
  has_pending_changes, set_applied, set_failed,
}

lookup-insert :
    (o j : ℕ) (c : Changeset) (m : List (ℕ × Changeset))
    → lookup j (insert o c m) ≡ (if o == j then some c else lookup j m)
unfolding lookup insert
lookup-insert o j c [] = refl
lookup-insert o j c ((k, d) ∷ m) = ground (arith, lookup-insert o j c m)

-- The changeset that a request edits: the pending one, or a fresh one.
abbrev pub current : (ℕ → Output) → ℕ → Option Changeset → Changeset
current outputs o (some s) = s
current outputs o none = new_changeset (outputs o)

lookup-write :
    (outputs : ℕ → Output) (o j : ℕ) (edit : Changeset → Changeset) (c : Configuration)
    → lookup j (write outputs o edit c).changes ≡ (
        if o == j then some (edit (current outputs o (lookup o c.changes))) else lookup j c.changes)
unfolding write pending_changes
lookup-write outputs o j edit c = elim (Option-cases (lookup o c.changes)) [
  | inl missing ↦
      rw (missing, pending_changes)
        (ground (
          arith,
          lookup-insert o j (edit (new_changeset (outputs o)))
              (insert o (new_changeset (outputs o)) c.changes),
          lookup-insert o j (new_changeset (outputs o)) c.changes,
        ))
  | inr (s, found) ↦ rw (found, pending_changes) (lookup-insert o j (edit s) c.changes)
]

-- What a request means for one output: the output that it names, and the edit of its changeset.
abbrev pub target : Request → Option ℕ
target (enable o v) = some o
target (primary o v) = some o
target (mode o v) = some o
target (transform o v) = some o
target (position o x y) = some o
target (scale o v) = some o
target apply = none

abbrev pub edit : Request → Changeset → Changeset
edit (enable o v) s = record s { enabled = eq_ℤ v (pos 1) }
edit (primary o v) s = record s { primary = eq_ℤ v (pos 1) }
edit (mode o v) s = record s { mode_id = v }
edit (transform o v) s = record s { transform = decode_transform v }
edit (position o x y) s = record s { position = record { x = x; y = y } }
edit (scale o v) s = record s { scale_factor = v }
edit apply s = s

abbrev pub targets : Request → ℕ → Bool
targets r o = elim (target r) [ none ↦ false | some k ↦ k == o ]

-- The pending changeset of one output, after requests of which only its own count.
pub changeset_after : (ℕ → Output) → ℕ → List Request → Option Changeset → Option Changeset
changeset_after outputs o [] m = m
changeset_after outputs o (r ∷ rs) m =
    changeset_after outputs o rs (if targets r o then some (edit r (current outputs o m)) else m)

pub handle_all : (ℕ → Output) → List Request → Configuration → Configuration
handle_all outputs [] c = c
handle_all outputs (r ∷ rs) c = handle_all outputs rs (handle outputs r c)

lookup-handle :
    (outputs : ℕ → Output) (r : Request) (j : ℕ) (c : Configuration)
    → lookup j (handle outputs r c).changes ≡ (
        if targets r j
        then some (edit r (current outputs j (lookup j c.changes)))
        else lookup j c.changes)
unfolding handle
lookup-handle outputs (enable o v) j c =
    ground (arith, lookup-write outputs o j (edit (enable o v)) c)
lookup-handle outputs (primary o v) j c =
    ground (arith, lookup-write outputs o j (edit (primary o v)) c)
lookup-handle outputs (mode o v) j c = ground (arith, lookup-write outputs o j (edit (mode o v)) c)
lookup-handle outputs (transform o v) j c =
    ground (arith, lookup-write outputs o j (edit (transform o v)) c)
lookup-handle outputs (position o x y) j c =
    ground (arith, lookup-write outputs o j (edit (position o x y)) c)
lookup-handle outputs (scale o v) j c =
    ground (arith, lookup-write outputs o j (edit (scale o v)) c)
lookup-handle outputs apply j c = refl

-- After any requests, the pending changeset of each output is what the requests that name it
-- make of it, one after the other, starting from the output's own values where none is pending.
pub lookup-handle_all :
    (outputs : ℕ → Output) (rs : List Request) (j : ℕ) (c : Configuration)
    → lookup j (handle_all outputs rs c).changes ≡ changeset_after outputs j rs (lookup j c.changes)
unfolding handle_all changeset_after
lookup-handle_all outputs [] j c = refl
lookup-handle_all outputs (r ∷ rs) j c =
    lookup-handle_all outputs rs j (handle outputs r c)
    ∙ ap (changeset_after outputs j rs) (lookup-handle outputs r j c)

-- Both answers leave no output with pending changes.
answers_clear :
    (outputs : ℕ → Output) (o : ℕ) (c : Configuration)
    → (has_pending_changes outputs o (set_applied c) ≡ false)
      × (has_pending_changes outputs o (set_failed c) ≡ false)
unfolding has_pending_changes set_applied set_failed lookup
answers_clear outputs o c = (refl, refl)

-- Asking for the pending changes of an output never makes it one with changes: the changeset is
-- either there already or equal to the output.
pending_changes_fresh :
    (outputs : ℕ → Output) (o : ℕ) (c : Configuration)
    → has_pending_changes outputs o (pending_changes outputs o c).0
      ≡ has_pending_changes outputs o c
unfolding pending_changes has_pending_changes new_changeset
pending_changes_fresh outputs o c = elim (Option-cases (lookup o c.changes)) [
  | inl missing ↦ ground (
    arith,
    missing,
    lookup-insert o o (new_changeset (outputs o)) c.changes,
    eq_ℤ_iff (outputs o).mode_index (outputs o).mode_index,
    eq_ℤ_iff (outputs o).scale_factor (outputs o).scale_factor,
    eq_ℤ_iff (outputs o).position.x (outputs o).position.x,
    eq_ℤ_iff (outputs o).position.y (outputs o).position.y,
  )
  | inr (s, found) ↦ rw (found, pending_changes)
]

-- The code of each transform is decoded as that transform.
decode_transform_code : (t : Transform) → decode_transform (pos (transform_code t)) ≡ t
unfolding decode_transform
decode_transform_code normal = refl
decode_transform_code rotate_90 = refl
decode_transform_code rotate_180 = refl
decode_transform_code rotate_270 = refl
decode_transform_code flipped = refl
decode_transform_code flipped_90 = refl
decode_transform_code flipped_180 = refl
decode_transform_code flipped_270 = refl
