-- ===== src/Platform/InputHandler/Counts.antt =====
-- The counts of devices.
use greenisland.Common.{+ℤ_pos}
use greenisland.Common.{
  ℕ, ◌+◌, ◌≡◌, refl, sym, ap, ◌∙◌, inl, inr, Bool, true, false, not, ◌&&◌, Option, none, some, List,
  [], ◌∷◌, ◌++◌, arith, ◌==◌, if◌then◌else◌, Bool-cases, pos, ◌-ℤ◌, Rect,
}
use mathlib.Core.Path.{subst}
use greenisland.Platform.Keyboard.{Xkb}
use greenisland.Platform.InputHandler.{
  InputEvent, key_event, readable, timed_out, handle_input, handle_inputs, li_event_handler, emit,
  suspended_changed, remove_capability, device_removed, suspend, resume, session_active_changed,
  capabilities, handle, handle_all, Capability, keyboard_capability, pointer_capability,
  touch_capability, gesture_capability, Handler, Device, add_capability, device_added, Event, added,
  removed, pointer_event, pointer_placed, active_changed,
}

-- The devices that are there after some events.
abbrev pub erase_device : ℕ → List Device → List Device
erase_device n [] = []
erase_device n (d ∷ ds) = if d.id == n then ds else d ∷ erase_device n ds

abbrev pub find_device : ℕ → List Device → Option Device
find_device n [] = none
find_device n (d ∷ ds) = if d.id == n then some d else find_device n ds

abbrev pub devices : List InputEvent → List Device → List Device
devices [] ds = ds
devices (added d ∷ es) ds = devices es (d ∷ ds)
devices (removed d ∷ es) ds = devices es (erase_device d.id ds)
devices (key_event now code is_pressed ∷ es) ds = devices es ds
devices (pointer_event e ∷ es) ds = devices es ds

-- A device is removed only while it is there.
abbrev pub AreThere : List InputEvent → List Device → Type 0
AreThere [] ds = Unit
AreThere (added d ∷ es) ds = AreThere es (d ∷ ds)
AreThere (removed d ∷ es) ds = (find_device d.id ds ≡ some d) × AreThere es (erase_device d.id ds)
AreThere (key_event now code is_pressed ∷ es) ds = AreThere es ds
AreThere (pointer_event e ∷ es) ds = AreThere es ds

abbrev pub all_of : Option (List InputEvent) → List InputEvent
all_of none = []
all_of (some es) = es

-- The events of libinput that are dispatched, beginning suspended or not: those that a suspension
-- leaves come with the end of the session's activity, if that suspends.
abbrev pub inputs : Bool → List Event → List InputEvent
inputs suspended [] = []
inputs suspended (readable es ∷ rest) = all_of es ++ inputs suspended rest
inputs suspended (timed_out ∷ rest) = inputs suspended rest
inputs suspended (pointer_placed p ∷ rest) = inputs suspended rest
inputs suspended (active_changed true resumes left ∷ rest) = inputs (suspended && not resumes) rest
inputs true (active_changed false resumes left ∷ rest) = inputs true rest
inputs false (active_changed false resumes left ∷ rest) = all_of left ++ inputs true rest

devices-append :
    (xs ys : List InputEvent) (ds : List Device)
    → devices (xs ++ ys) ds ≡ devices ys (devices xs ds)
devices-append [] ys ds = refl
devices-append (added d ∷ xs) ys ds = devices-append xs ys (d ∷ ds)
devices-append (removed d ∷ xs) ys ds = devices-append xs ys (erase_device d.id ds)
devices-append (key_event n c p ∷ xs) ys ds = devices-append xs ys ds
devices-append (pointer_event e ∷ xs) ys ds = devices-append xs ys ds

AreThere-append :
    (xs ys : List InputEvent) (ds : List Device)
    → AreThere (xs ++ ys) ds
    → AreThere xs ds × AreThere ys (devices xs ds)
AreThere-append [] ys ds h = (tt, h)
AreThere-append (added d ∷ xs) ys ds h = AreThere-append xs ys (d ∷ ds) h
AreThere-append (removed d ∷ xs) ys ds h =
    let (first, rest) = AreThere-append xs ys (erase_device d.id ds) h.1 in ((h.0, first), rest)
AreThere-append (key_event n c p ∷ xs) ys ds h = AreThere-append xs ys ds h
AreThere-append (pointer_event e ∷ xs) ys ds h = AreThere-append xs ys ds h

-- How many devices have a capability.
abbrev pub how_many : Capability → List Device → ℕ
how_many c [] = 0
how_many c (d ∷ ds) = (if d.has_capability c then 1 else 0) + how_many c ds

how_many-erase :
    (c : Capability) (d : Device) (ds : List Device)
    → find_device d.id ds ≡ some d
    → how_many c (erase_device d.id ds) + (if d.has_capability c then 1 else 0) ≡ how_many c ds
how_many-erase c d [] h = cc
how_many-erase c d (x ∷ xs) h = elim (Bool-cases (x.id == d.id)) [
  | inl same ↦ ground (arith, same, h)
  | inr other ↦ ground (arith, other, h, how_many-erase c d xs)
]

-ℤ_pos : (n k : ℕ) → pos (n + k) -ℤ pos k ≡ pos n
unfolding ◌-ℤ◌
-ℤ_pos n k = ground arith

one : Device → Capability → ℕ
one d c = if d.has_capability c then 1 else 0

module _ {S : Type 0} where
  abbrev DoesCount : List Device → Handler S → Type 0
  DoesCount ds s = (c : Capability) → s.counts c ≡ pos (how_many c ds)

  device_added-counts :
      (d : Device) (c : Capability) (n : ℕ) (s : Handler S)
      → s.counts c ≡ pos n
      → (device_added d s).counts c ≡ pos (one d c + n)
  unfolding device_added add_capability one
  device_added-counts d keyboard_capability n s h = ground (arith, h, +ℤ_pos n 1)
  device_added-counts d pointer_capability n s h = ground (arith, h, +ℤ_pos n 1)
  device_added-counts d touch_capability n s h = ground (arith, h, +ℤ_pos n 1)
  device_added-counts d gesture_capability n s h = ground (arith, h, +ℤ_pos n 1)

  -- A count that is one more than a number, or as much, goes back to it.
  device_removed-counts :
      (d : Device) (c : Capability) (n : ℕ) (s : Handler S)
      → s.counts c ≡ pos (n + one d c)
      → (device_removed d s).counts c ≡ pos n
  unfolding device_removed remove_capability one
  device_removed-counts d keyboard_capability n s h = ground (arith, h, -ℤ_pos n 1)
  device_removed-counts d pointer_capability n s h = ground (arith, h, -ℤ_pos n 1)
  device_removed-counts d touch_capability n s h = ground (arith, h, -ℤ_pos n 1)
  device_removed-counts d gesture_capability n s h = ground (arith, h, -ℤ_pos n 1)

  device_added-suspended :
      (d : Device) (s : Handler S) → (device_added d s).is_suspended ≡ s.is_suspended
  unfolding device_added add_capability
  device_added-suspended d s = ground arith

  device_removed-suspended :
      (d : Device) (s : Handler S) → (device_removed d s).is_suspended ≡ s.is_suspended
  unfolding device_removed remove_capability
  device_removed-suspended d s = ground arith

  -- No count makes a capability.
  capabilities_none : (s : Handler S) (c : Capability) → capabilities s c ≡ false
  unfolding capabilities
  capabilities_none s c = ground arith

module _ {S : Type 0} (x : Xkb S) (geometry : Rect) where
  handle_inputs-DoesCount :
      (es : List InputEvent) (ds : List Device) (s : Handler S)
      → DoesCount ds s
      → AreThere es ds
      → DoesCount (devices es ds) (handle_inputs x geometry es s)
  unfolding handle_inputs handle_input
  handle_inputs-DoesCount [] ds s h there = h
  handle_inputs-DoesCount (added d ∷ es) ds s h there =
      handle_inputs-DoesCount es (d ∷ ds) (device_added d s)
        (λ c. unfold one in device_added-counts d c (how_many c ds) s (h c)) there
  handle_inputs-DoesCount (removed d ∷ es) ds s h there =
      let left = erase_device d.id ds in
      handle_inputs-DoesCount es left (device_removed d s)
        (λ c.
          device_removed-counts d c (how_many c left) s
            (h c ∙ unfold one in ap pos (sym (how_many-erase c d ds there.0))))
        there.1
  handle_inputs-DoesCount (key_event n c p ∷ es) ds s h there =
      handle_inputs-DoesCount es ds (handle_input x geometry (key_event n c p) s) h there
  handle_inputs-DoesCount (pointer_event e ∷ es) ds s h there =
      handle_inputs-DoesCount es ds (handle_input x geometry (pointer_event e) s) h there

  handle_inputs-suspended :
      (es : List InputEvent) (s : Handler S)
      → (handle_inputs x geometry es s).is_suspended ≡ s.is_suspended
  unfolding handle_inputs handle_input
  handle_inputs-suspended [] s = refl
  handle_inputs-suspended (added d ∷ es) s =
      handle_inputs-suspended es (device_added d s) ∙ device_added-suspended d s
  handle_inputs-suspended (removed d ∷ es) s =
      handle_inputs-suspended es (device_removed d s) ∙ device_removed-suspended d s
  handle_inputs-suspended (key_event n c p ∷ es) s =
      handle_inputs-suspended es (handle_input x geometry (key_event n c p) s)
  handle_inputs-suspended (pointer_event e ∷ es) s =
      handle_inputs-suspended es (handle_input x geometry (pointer_event e) s)

  -- The devices of the events that are dispatched are counted, and the suspension stays.
  li_event_handler-DoesCount :
      (left : Option (List InputEvent)) (es : List InputEvent) (ds : List Device) (s : Handler S)
      → DoesCount ds s
      → AreThere (all_of left ++ es) ds
      → let t = li_event_handler x geometry left s in
        DoesCount (devices (all_of left) ds) t
        × AreThere es (devices (all_of left) ds)
        × (t.is_suspended ≡ s.is_suspended)
  unfolding li_event_handler
  li_event_handler-DoesCount none es ds s h there = (h, there, refl)
  li_event_handler-DoesCount (some xs) es ds s h there =
      let (first, rest) = AreThere-append xs es ds there in
      (handle_inputs-DoesCount xs ds s h first, rest, handle_inputs-suspended xs s)

  handle_all-DoesCount :
      (es : List Event) (b : Bool) (ds : List Device) (s : Handler S)
      → s.is_suspended ≡ b
      → DoesCount ds s
      → AreThere (inputs b es) ds
      → DoesCount (devices (inputs b es) ds) (handle_all x geometry es s)
  unfolding handle_all handle session_active_changed suspend resume
  handle_all-DoesCount [] b ds s e h there = h
  handle_all-DoesCount (readable left ∷ es) b ds s e h there =
      let t = li_event_handler x geometry left s in
      let (counted, rest, same) = li_event_handler-DoesCount left (inputs b es) ds s h there in
      subst (λ l. DoesCount l (handle_all x geometry es t))
        (sym (devices-append (all_of left) (inputs b es) ds))
        (handle_all-DoesCount es b (devices (all_of left) ds) t (same ∙ e) counted rest)
  handle_all-DoesCount (timed_out ∷ es) b ds s e h there =
      handle_all-DoesCount es b ds (handle x geometry timed_out s) e h there
  handle_all-DoesCount (pointer_placed p ∷ es) b ds s e h there =
      handle_all-DoesCount es b ds (handle x geometry (pointer_placed p) s) e h there
  handle_all-DoesCount (active_changed true resumes left ∷ es) b ds s e h there =
      handle_all-DoesCount es (b && not resumes) ds
        (session_active_changed x geometry true resumes left s) (ground (arith, e))
        (λ c. ground (arith, h c)) there
  handle_all-DoesCount (active_changed false resumes left ∷ es) true ds s e h there =
      handle_all-DoesCount es true ds (session_active_changed x geometry false resumes left s)
        (ground (arith, e)) (λ c. ground (arith, e, h c)) there
  handle_all-DoesCount (active_changed false resumes left ∷ es) false ds s e h there =
      let u = emit (suspended_changed true) (record s { is_suspended = true }) in
      let t = li_event_handler x geometry left u in
      let same : session_active_changed x geometry false resumes left s ≡ t = ground (arith, e) in
      let (counted, rest, suspended) =
        li_event_handler-DoesCount left (inputs true es) ds u h there in
      subst
        (λ l.
          DoesCount l
            (handle_all x geometry es (session_active_changed x geometry false resumes left s)))
        (sym (devices-append (all_of left) (inputs true es) ds))
        (subst
          (λ v.
            DoesCount (devices (inputs true es) (devices (all_of left) ds))
              (handle_all x geometry es v))
          (sym same)
          (handle_all-DoesCount es true (devices (all_of left) ds) t suspended counted rest))

  -- As long as only devices are removed that are there: after any events, those that a suspension
  -- leaves included, the count of each capability is the number of the devices that are there and
  -- have it. But whatever the counts, the handler says that it has no capability.
  pub handle_all-counts :
      (es : List Event) (s : Handler S) (c : Capability)
      → ((d : Capability) → s.counts d ≡ pos 0)
      → AreThere (inputs s.is_suspended es) []
      → ((handle_all x geometry es s).counts c
          ≡ pos (how_many c (devices (inputs s.is_suspended es) [])))
        × (capabilities (handle_all x geometry es s) c ≡ false)
  handle_all-counts es s c none_yet there = (
    handle_all-DoesCount es s.is_suspended [] s refl none_yet there c,
    capabilities_none (handle_all x geometry es s) c,
  )
