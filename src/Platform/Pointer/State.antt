-- ===== src/Platform/Pointer/State.antt =====
-- Where the pointer is after any events, and which buttons are held.
use greenisland.Common.{
  ℕ, ◌≡◌, refl, sym, ap, ◌∙◌, Bool, Option, none, some, List, [], ◌∷◌, arith, ◌==◌, if◌then◌else◌,
  ℤ, ◌≤ℤ◌, Point, Rect,
}
use mathlib.Core.Path.{subst}
use greenisland.Platform.Pointer.{
  Pointer, Event, button, motion, absolute_motion, axis, bound, set_flag, button_of, handle_button,
  process_motion, handle_motion, handle_absolute_motion, handle_axis, wheel, handle, handle_all,
}

-- A point of a rectangle.
abbrev pub IsWithin : Rect → Point → Type 0
IsWithin r p = (r.left ≤ℤ p.x) × (p.x ≤ℤ r.right) × (r.top ≤ℤ p.y) × (p.y ≤ℤ r.bottom)

bound_lem : (low v high : ℤ) → low ≤ℤ high → (low ≤ℤ bound low v high) × (bound low v high ≤ℤ high)
unfolding bound
bound_lem low v high h = ground arith

process_motion-IsWithin :
    (r : Rect) (p : Point) (s : Pointer)
    → r.left ≤ℤ r.right
    → r.top ≤ℤ r.bottom
    → IsWithin r (process_motion r p s).point
unfolding process_motion
process_motion-IsWithin r p s wide high =
    let (a, b) = bound_lem r.left p.x r.right wide in
    let (c, d) = bound_lem r.top p.y r.bottom high in (a, b, c, d)

handle_axis_lem :
    (h v : Option ℤ) (s : Pointer)
    → ((handle_axis h v s).point ≡ s.point) × ((handle_axis h v s).buttons ≡ s.buttons)
unfolding handle_axis wheel
handle_axis_lem none none s = (refl, refl)
handle_axis_lem none (some d) s = (refl, refl)
handle_axis_lem (some c) none s = (refl, refl)
handle_axis_lem (some c) (some d) s = (refl, refl)

handle-IsWithin :
    (r : Rect) (e : Event) (s : Pointer)
    → r.left ≤ℤ r.right
    → r.top ≤ℤ r.bottom
    → IsWithin r s.point
    → IsWithin r (handle r e s).point
unfolding handle handle_button handle_motion handle_absolute_motion
handle-IsWithin r (button code pressed) s wide high w = w
handle-IsWithin r (motion d) s wide high w = process_motion-IsWithin r _ s wide high
handle-IsWithin r (absolute_motion p) s wide high w = process_motion-IsWithin r p s wide high
handle-IsWithin r (axis h v) s wide high w = subst (IsWithin r) (sym (handle_axis_lem h v s).0) w

-- On a desktop that is not empty, a pointer that is inside stays inside, whatever events come.
pub handle_all-IsWithin :
    (r : Rect) (es : List Event) (s : Pointer)
    → r.left ≤ℤ r.right
    → r.top ≤ℤ r.bottom
    → IsWithin r s.point
    → IsWithin r (handle_all r es s).point
unfolding handle_all
handle_all-IsWithin r [] s wide high w = w
handle_all-IsWithin r (e ∷ es) s wide high w =
    handle_all-IsWithin r es (handle r e s) wide high (handle-IsWithin r e s wide high w)

-- Whether a button is held after some events: the last event of that button decides.
pub held : ℕ → List Event → Bool → Bool
held b [] h = h
held b (button code pressed ∷ es) h =
    held b es (elim (button_of code) [ none ↦ h | some n ↦ if n == b then pressed else h ])
held b (_ ∷ es) h = held b es h

set_flag_lem :
    (o : Option ℕ) (pressed : Bool) (buttons : ℕ → Bool) (b : ℕ)
    → set_flag o pressed buttons b
      ≡ elim o [ none ↦ buttons b | some n ↦ if n == b then pressed else buttons b ]
unfolding set_flag
set_flag_lem none pressed buttons b = refl
set_flag_lem (some n) pressed buttons b = refl

-- After any events, a button is held exactly if its last event was a press, or if it had none and
-- was held before.
pub handle_all-held :
    (r : Rect) (es : List Event) (s : Pointer) (b : ℕ)
    → (handle_all r es s).buttons b ≡ held b es (s.buttons b)
unfolding handle_all held handle handle_button handle_motion handle_absolute_motion process_motion
    set_flag
handle_all-held r [] s b = refl
handle_all-held r (button code pressed ∷ es) s b =
    handle_all-held r es (handle r (button code pressed) s) b
    ∙ ap (held b es) (set_flag_lem (button_of code) pressed s.buttons b)
handle_all-held r (motion d ∷ es) s b = handle_all-held r es (handle r (motion d) s) b
handle_all-held r (absolute_motion p ∷ es) s b =
    handle_all-held r es (handle r (absolute_motion p) s) b
handle_all-held r (axis h v ∷ es) s b =
    handle_all-held r es (handle r (axis h v) s) b
    ∙ ap (λ f. held b es (f b)) (handle_axis_lem h v s).1
