-- ===== src/Platform/Touch/Points.antt =====
-- The contacts of a device have different identifiers.
use greenisland.Common.{
  ℕ, ◌≡◌, refl, inl, inr, Bool, false, ◌||◌, none, List, [], ◌∷◌, ◌++◌, arith, ◌==◌, Option-cases,
  Size,
}
use greenisland.Platform.Touch.{
  TouchPoint, State, Event, up, down, motion, frame, cancel, touch_point_at, write_at, after_frame,
  handle_frame, handle_cancel, handle_up, handle_down, handle_motion, handle, handle_all, point_id,
  released,
}

pub has_id : {R : Type 0} → ℕ → List (TouchPoint R) → Bool
has_id n [] = false
has_id n (p ∷ ps) = p.id == n || has_id n ps

abbrev pub Distinct : {R : Type 0} → List (TouchPoint R) → Type 0
Distinct [] = Unit
Distinct (p ∷ ps) = (has_id p.id ps ≡ false) × Distinct ps

has_id-write_at :
    {R : Type 0} (m n : ℕ) (f : TouchPoint R → TouchPoint R) (ps : List (TouchPoint R))
    → ((p : TouchPoint R) → (f p).id ≡ p.id)
    → has_id m (write_at n f ps) ≡ has_id m ps
unfolding has_id write_at
has_id-write_at m n f [] h = refl
has_id-write_at m n f (p ∷ ps) h = ground (arith, h p, has_id-write_at m n f ps h)

write_at-Distinct :
    {R : Type 0} (n : ℕ) (f : TouchPoint R → TouchPoint R) (ps : List (TouchPoint R))
    → ((p : TouchPoint R) → (f p).id ≡ p.id)
    → Distinct ps
    → Distinct (write_at n f ps)
unfolding write_at
write_at-Distinct n f [] h d = tt
write_at-Distinct n f (p ∷ ps) h d =
    ground (arith, h p, has_id-write_at p.id n f ps h, write_at-Distinct n f ps h d.1)

has_id-after_frame :
    {R : Type 0} (m : ℕ) (ps : List (TouchPoint R))
    → has_id m ps ≡ false
    → has_id m (after_frame ps) ≡ false
unfolding has_id after_frame
has_id-after_frame m [] h = refl
has_id-after_frame m (p ∷ ps) h = ground (arith, has_id-after_frame m ps)

after_frame-Distinct :
    {R : Type 0} (ps : List (TouchPoint R)) → Distinct ps → Distinct (after_frame ps)
unfolding after_frame
after_frame-Distinct [] d = tt
after_frame-Distinct (p ∷ ps) d =
    ground (arith, has_id-after_frame p.id ps d.0, after_frame-Distinct ps d.1)

has_id-touch_point_at :
    {R : Type 0} (n : ℕ) (ps : List (TouchPoint R))
    → touch_point_at n ps ≡ none
    → has_id n ps ≡ false
unfolding has_id touch_point_at
has_id-touch_point_at n [] h = refl
has_id-touch_point_at n (p ∷ ps) h = ground (arith, has_id-touch_point_at n ps)

has_id-append :
    {R : Type 0} (m : ℕ) (p : TouchPoint R) (ps : List (TouchPoint R))
    → has_id m (ps ++ p ∷ []) ≡ (has_id m ps || p.id == m)
unfolding has_id
has_id-append m p [] = ground arith
has_id-append m p (q ∷ ps) = ground (arith, has_id-append m p ps)

append-Distinct :
    {R : Type 0} (p : TouchPoint R) (ps : List (TouchPoint R))
    → Distinct ps
    → has_id p.id ps ≡ false
    → Distinct (ps ++ p ∷ [])
unfolding has_id
append-Distinct p [] d h = (refl, tt)
append-Distinct p (q ∷ ps) d h =
    (ground (arith, has_id-append q.id p ps), append-Distinct p ps d.1 (ground arith))

module _ {R : Type 0} (eq_real : R × R → R × R → Bool) (size : Size) where
  handle_frame-Distinct : (s : State R) → Distinct s.points → Distinct (handle_frame s).points
  unfolding handle_frame
  handle_frame-Distinct s d = ground (arith, after_frame-Distinct s.points d)

  handle-Distinct :
      (e : Event R) (s : State R) → Distinct s.points → Distinct (handle eq_real size e s).points
  unfolding handle handle_cancel handle_up handle_motion handle_down
  handle-Distinct frame s d = handle_frame-Distinct s d
  handle-Distinct cancel s d = ground arith
  handle-Distinct (motion e) s d = elim (Option-cases (touch_point_at (point_id e.slot) s.points)) [
    | inl missing ↦ rw (missing, handle_motion) d
    | inr (p, found) ↦
        rw (found, handle_motion)
          (write_at-Distinct (point_id e.slot) _ s.points (λ q. ground arith) d)
  ]
  handle-Distinct (up e) s d = elim (Option-cases (touch_point_at (point_id e.slot) s.points)) [
    | inl missing ↦ rw (missing, handle_up) d
    | inr (p, found) ↦
        let t =
          write_at-Distinct (point_id e.slot) (λ q. record q { state = released }) s.points
            (λ q. refl) d in
        rw (found, handle_up)
          (ground (
            arith,
            t,
            handle_frame-Distinct
                (record s {
                  points = write_at (point_id e.slot) (λ q. record q { state = released }) s.points;
                })
                t,
          ))
  ]
  handle-Distinct (down e) s d = elim (Option-cases (touch_point_at (point_id e.slot) s.points)) [
    | inl missing ↦
        rw (missing, handle_down)
          (append-Distinct _ s.points d (has_id-touch_point_at (point_id e.slot) s.points missing))
    | inr (p, found) ↦ rw (found, handle_down) d
  ]

  -- After any sequence of events, no two contacts of the device have the same identifier.
  pub handle_all-Distinct :
      (es : List (Event R)) (s : State R)
      → Distinct s.points
      → Distinct (handle_all eq_real size es s).points
  unfolding handle_all
  handle_all-Distinct [] s d = d
  handle_all-Distinct (e ∷ es) s d =
      handle_all-Distinct es (handle eq_real size e s) (handle-Distinct e s d)
