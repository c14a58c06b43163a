-- ===== src/Platform/Touch/Frames.antt =====
-- What a frame leaves of the contacts, and when the release of a contact sends one by itself.
use greenisland.Common.{
  ℕ, ◌≡◌, refl, ◌≢◌, ◌↔◌, true, some, List, [], ◌∷◌, ◌++◌, map, arith, if◌then◌else◌, All, false,
  Bool, Size, none, Bool-cases, inl, inr, ◌⊎◌,
}
use greenisland.Platform.Touch.{
  TouchPoint, State, touch_event, write_at, after_frame, handle_frame, point_id, TouchEvent,
  pressed, released, union_states, only_released, States, is_nil, join, stationary, touch_point_at,
  handle_up, handle_all, no_states, handle, handle_down, handle_motion, position_from_event, down,
  motion, frame, stationary, move_point,
}

abbrev pub IsReleased : {R : Type 0} → TouchPoint R → Type 0
IsReleased p = p.state ≡ released

-- A contact that is neither new nor gone.
abbrev pub IsSettled : {R : Type 0} → TouchPoint R → Type 0
IsSettled p = (p.state ≢ pressed) × (p.state ≢ released)

-- The identifiers of the contacts that are not released, in their order.
unfoldable pub kept_ids : {R : Type 0} → List (TouchPoint R) → List ℕ
kept_ids [] = []
kept_ids (p ∷ ps) = let rest = kept_ids ps in elim p.state [ released ↦ rest | _ ↦ p.id ∷ rest ]

after_frame-IsSettled : {R : Type 0} (ps : List (TouchPoint R)) → All IsSettled (after_frame ps)
unfolding after_frame
after_frame-IsSettled [] = tt
after_frame-IsSettled (p ∷ ps) = ground (arith, after_frame-IsSettled ps)

ids-after_frame :
    {R : Type 0} (ps : List (TouchPoint R)) → map (λ p. p.id) (after_frame ps) ≡ kept_ids ps
unfolding after_frame kept_ids
ids-after_frame [] = refl
ids-after_frame (p ∷ ps) = ground (arith, ids-after_frame ps)

after_frame_nil : {R : Type 0} (ps : List (TouchPoint R)) → All IsReleased ps → after_frame ps ≡ []
unfolding after_frame
after_frame_nil [] h = refl
after_frame_nil (p ∷ ps) h = ground (arith, after_frame_nil ps h.1)

-- A frame of a registered device that has contacts sends them as they are; the contacts that it
-- keeps are those that are not released, in their order, and none of them is pressed or
-- released any more.
handle_frame_lem :
    {R : Type 0} (s : State R) (d : ℕ)
    → s.device ≡ some d
    → s.points ≢ []
    → All IsSettled (handle_frame s).points
      × (map (λ p. p.id) (handle_frame s).points ≡ kept_ids s.points)
      × ((handle_frame s).sent ≡ s.sent ++ touch_event s.points ∷ [])
unfolding handle_frame kept_ids
handle_frame_lem s d e full =
    ground (arith, after_frame-IsSettled s.points, ids-after_frame s.points)

-- What the union of the states says, from any set of states to start with.
union_states_lem :
    {R : Type 0} (ps : List (TouchPoint R)) (s : States)
    → (only_released (union_states ps s) ≡ true) ↔ (
        All IsReleased ps
        × (only_released (if is_nil ps then s else record s { has_released = true }) ≡ true))
unfolding union_states
union_states_lem [] s = ground arith
union_states_lem (p ∷ ps) s = ground (arith, union_states_lem ps (join p.state s))

-- The contacts of a state after the release of the contact of an event.
abbrev pub released_at : {R : Type 0} → TouchEvent R → State R → List (TouchPoint R)
released_at e s = write_at (point_id e.slot) (λ p. record p { state = released }) s.points

is_nil-write_at :
    {R : Type 0} (n : ℕ) (f : TouchPoint R → TouchPoint R) (p : TouchPoint R)
    (ps : List (TouchPoint R))
    → touch_point_at n ps ≡ some p
    → is_nil (write_at n f ps) ≡ false
unfolding touch_point_at write_at
is_nil-write_at n f p [] h = ground arith
is_nil-write_at n f p (q ∷ ps) h = ground arith

only_released_lem :
    {R : Type 0} (e : TouchEvent R) (s : State R) (p : TouchPoint R)
    → touch_point_at (point_id e.slot) s.points ≡ some p
    → (only_released (union_states (released_at e s) no_states) ≡ true)
      ↔ All IsReleased (released_at e s)
only_released_lem e s p found = ground (
  arith,
  union_states_lem (released_at e s) no_states,
  is_nil-write_at (point_id e.slot) (λ q. record q { state = released }) p s.points found,
)

frame_of_released :
    {R : Type 0} (s : State R) (d : ℕ)
    → s.device ≡ some d
    → is_nil s.points ≡ false
    → All IsReleased s.points
    → handle_frame s ≡ record s { points = []; sent = s.sent ++ touch_event s.points ∷ [] }
unfolding handle_frame
frame_of_released s d registered full h = ground (arith, after_frame_nil s.points h)

-- The release of a contact that the device has, on a registered device: if it leaves a contact
-- that is not released, nothing is sent and the contact is kept, as released; if all are released
-- then, they are sent as one event and the device has no contact left.
handle_up_lem :
    {R : Type 0} (e : TouchEvent R) (s : State R) (d : ℕ) (p : TouchPoint R)
    → s.device ≡ some d
    → touch_point_at (point_id e.slot) s.points ≡ some p
    → (¬ All IsReleased (released_at e s) × (handle_up e s ≡ record s { points = released_at e s }))
      ⊎ (All IsReleased (released_at e s)
          × (handle_up e s
              ≡ record s { points = []; sent = s.sent ++ touch_event (released_at e s) ∷ [] }))
unfolding handle_up handle_frame
handle_up_lem e s d p registered found =
    let (last, only) = only_released_lem e s p found in
    let frame =
      frame_of_released (record s { points = released_at e s }) d registered
        (is_nil-write_at (point_id e.slot) (λ q. record q { state = released }) p s.points found) in
    elim (Bool-cases (only_released (union_states (released_at e s) no_states))) [
      | inl all ↦ inr (last all, rw (found, handle_up) (rw all (frame (last all))))
      | inr not_all ↦
          inl (λ h. absurd (ground (arith, only h)), rw (found, handle_up) (rw not_all refl))
    ]

touch_point_at-append :
    {R : Type 0} (p : TouchPoint R) (ps : List (TouchPoint R))
    → touch_point_at p.id ps ≡ none
    → touch_point_at p.id (ps ++ p ∷ []) ≡ some p
unfolding touch_point_at
touch_point_at-append p [] h = ground arith
touch_point_at-append p (q ∷ ps) h = ground (arith, touch_point_at-append p ps)

write_at-append :
    {R : Type 0} (f : TouchPoint R → TouchPoint R) (p : TouchPoint R) (ps : List (TouchPoint R))
    → touch_point_at p.id ps ≡ none
    → write_at p.id f (ps ++ p ∷ []) ≡ ps ++ f p ∷ []
unfolding touch_point_at write_at
write_at-append f p [] h = ground arith
write_at-append f p (q ∷ ps) h = ground (arith, write_at-append f p ps)

sent-handle_frame :
    {R : Type 0} (s : State R) (d : ℕ) (p : TouchPoint R) (ps : List (TouchPoint R))
    → s.device ≡ some d
    → s.points ≡ ps ++ p ∷ []
    → (handle_frame s).sent ≡ s.sent ++ touch_event s.points ∷ []
unfolding handle_frame
sent-handle_frame s d p [] registered e = ground arith
sent-handle_frame s d p (q ∷ ps) registered e = ground arith

-- A contact that is put down and is reported at the same place again before the frame, on a
-- registered device that did not have it, is never sent as pressed: the frame sends it as
-- stationary.
press_lost :
    {R : Type 0} (eq_real : R × R → R × R → Bool) (size : Size) (e : TouchEvent R) (s : State R)
    (d : ℕ)
    → s.device ≡ some d
    → touch_point_at (point_id e.slot) s.points ≡ none
    → eq_real (position_from_event size e) (position_from_event size e) ≡ true
    → (handle_all eq_real size (down e ∷ motion e ∷ frame ∷ []) s).sent
      ≡ s.sent
        ++ touch_event (
            s.points
            ++ record {
              id = point_id e.slot;
              state = stationary;
              center = position_from_event size e;
            }
              ∷ [])
          ∷ []
unfolding handle_all handle handle_down handle_motion move_point
press_lost {R = R} eq_real size e s d registered missing same =
    let new : TouchPoint R = record {
      id = point_id e.slot;
      state = pressed;
      center = position_from_event size e;
    } in
    let t = record s { points = s.points ++ new ∷ [] } in
    let put : handle_down size e s ≡ t = rw (missing, handle_down) refl in
    let moved_to : handle_motion eq_real size e t
        ≡ record s { points = s.points ++ record new { state = stationary } ∷ [] } =
      rw (touch_point_at-append new s.points missing, handle_motion)
        (rw (write_at-append (move_point eq_real (position_from_event size e)) new s.points missing)
          (rw (same, move_point) refl)) in
    rw (put, moved_to)
      (sent-handle_frame _ d (record new { state = stationary }) s.points registered refl)
