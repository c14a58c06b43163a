-- ===== src/Platform/InputHandler.antt =====
-- src/platform/libinput/libinputhandler.cpp: the input devices of the session, and where their events
-- go. The events of keys and of the pointer go to Platform/Keyboard.antt and Platform/Pointer.antt;
-- those of touch devices, whose contacts are in Platform/Touch.antt, are left out, and gestures have
-- no code.
pub mod Counts
use greenisland.Common.{
  ℕ, refl, Bool, true, false, not, ◌&&◌, Option, none, some, List, [], ◌∷◌, ◌++◌, arith,
  if◌then◌else◌, ℤ, pos, ◌+ℤ◌, ◌-ℤ◌, ltb_ℤ, Point, Rect,
}
use greenisland.Platform.Keyboard.{Xkb, Keyboard, handle as handle_keyboard, key, timeout}
use greenisland.Platform.Pointer.{
  Pointer, handle as handle_pointer, Event as PointerEvent, set_position,
}

pub data Capability : Type 0 where
  keyboard_capability pointer_capability touch_capability gesture_capability : Capability

abbrev pub eq_capability : Capability → Capability → Bool
eq_capability keyboard_capability keyboard_capability = true
eq_capability pointer_capability pointer_capability = true
eq_capability touch_capability touch_capability = true
eq_capability gesture_capability gesture_capability = true
eq_capability _ _ = false

pub data Signal : Type 0 where
  capabilities_changed : Signal
  count_changed : Capability → ℤ → Signal
  touch_device_registered touch_device_unregistered : ℕ → Signal
  suspended_changed : Bool → Signal

-- `LibInputHandlerPrivate`, once it is set up: a count for each capability.
pub record Handler (S : Type 0) : Type 0 where
  pub keyboard : Keyboard S
  pub pointer : Pointer
  pub counts : Capability → ℤ
  pub is_suspended : Bool
  pub signals : List Signal

unfoldable pub new_handler : {S : Type 0} → Keyboard S → Pointer → Handler S
new_handler keyboard pointer = record {
  keyboard = keyboard;
  pointer = pointer;
  counts = λ c. pos 0;
  is_suspended = false;
  signals = [];
}

-- A device, by a number, and what it can do.
pub record Device : Type 0 where
  pub id : ℕ
  pub has_capability : Capability → Bool

abbrev pub with_count : Capability → ℤ → (Capability → ℤ) → Capability → ℤ
with_count c n counts d = if eq_capability c d then n else counts d

abbrev is_touch : Capability → Bool
is_touch touch_capability = true
is_touch _ = false

-- `caps &= flag` where a count is positive, for one capability.
abbrev intersect : ℤ → Capability → Capability → Bool → Bool
intersect count flag c caps = if ltb_ℤ (pos 0) count then caps && eq_capability flag c else caps

module _ {S : Type 0} where
  abbrev pub emit : Signal → Handler S → Handler S
  emit e s = record s { signals = s.signals ++ e ∷ [] }

  -- The count of a capability of a device changes to a number.
  abbrev pub recount : Capability → ℤ → Handler S → Handler S
  recount c n s =
      emit (count_changed c n)
        (emit capabilities_changed (record s { counts = with_count c n s.counts }))

  unfoldable pub add_capability : Device → Capability → Handler S → Handler S
  add_capability d c s =
      if d.has_capability c
      then (let t = if is_touch c then emit (touch_device_registered d.id) s else s in
          recount c (s.counts c +ℤ pos 1) t)
      else s

  unfoldable pub remove_capability : Device → Capability → Handler S → Handler S
  remove_capability d c s =
      if d.has_capability c
      then (let t = if is_touch c then emit (touch_device_unregistered d.id) s else s in
          recount c (s.counts c -ℤ pos 1) t)
      else s

  unfoldable pub device_added : Device → Handler S → Handler S
  unfolding add_capability
  device_added d s = add_capability d gesture_capability (
      add_capability d touch_capability
        (add_capability d pointer_capability (add_capability d keyboard_capability s)))

  unfoldable pub device_removed : Device → Handler S → Handler S
  unfolding remove_capability
  device_removed d s = remove_capability d gesture_capability (
      remove_capability d touch_capability
        (remove_capability d pointer_capability (remove_capability d keyboard_capability s)))

  unfoldable pub suspend : Handler S → Handler S
  suspend s =
      if s.is_suspended then s else emit (suspended_changed true) (record s { is_suspended = true })

  -- `libinput_resume` succeeds or not.
  unfoldable pub resume : Bool → Handler S → Handler S
  resume resumes s =
      if s.is_suspended && resumes
      then emit (suspended_changed false) (record s { is_suspended = false })
      else s

  -- `capabilities`, which begins with none and takes each away that is not there.
  unfoldable pub capabilities : Handler S → Capability → Bool
  capabilities s c = intersect (s.counts gesture_capability) touch_capability c (
      intersect (s.counts touch_capability) touch_capability c (
        intersect (s.counts pointer_capability) pointer_capability c
          (intersect (s.counts keyboard_capability) keyboard_capability c false)))

-- What `takeDevice` and the calls of `fcntl` answer, in their order.
pub record OpenAnswers : Type 0 where
  pub fd : Option ℕ
  pub gets_flags : Bool
  pub sets_flags : Bool
  pub gets_fd_flags : Bool
  pub sets_fd_flags : Bool

pub data OpenCall : Type 0 where
  take close release : ℕ → OpenCall

-- `restrictedOpen`: the descriptor, and what was done with it. It is closed before it is released.
unfoldable pub restricted_open : OpenAnswers → Option ℕ × List OpenCall
restricted_open a = elim a.fd [
  | none ↦ (none, [])
  | some fd ↦
      if a.gets_flags && (a.sets_flags && (a.gets_fd_flags && a.sets_fd_flags))
      then (some fd, take fd ∷ [])
      else (none, take fd ∷ close fd ∷ release fd ∷ [])
]

-- The events of libinput: devices, keys with their time, code and whether they are pressed, and the
-- pointer.
pub data InputEvent : Type 0 where
  added removed : Device → InputEvent
  key_event : ℕ → ℕ → Bool → InputEvent
  pointer_event : PointerEvent → InputEvent

-- What the handler is told: that there are events of libinput, `none` if they cannot be dispatched;
-- the timer of the keyboard; a place for the pointer; and the activity of the session, with whether
-- libinput resumes, and the events that a suspension leaves.
pub data Event : Type 0 where
  readable : Option (List InputEvent) → Event
  timed_out : Event
  pointer_placed : Point → Event
  active_changed : Bool → Bool → Option (List InputEvent) → Event

module _ {S : Type 0} (x : Xkb S) (geometry : Rect) where
  unfoldable pub handle_input : InputEvent → Handler S → Handler S
  unfolding device_added device_removed
  handle_input (added d) s = device_added d s
  handle_input (removed d) s = device_removed d s
  handle_input (key_event now code is_pressed) s = record s {
    keyboard = handle_keyboard x (key now code is_pressed) s.keyboard;
  }
  handle_input (pointer_event e) s = record s { pointer = handle_pointer geometry e s.pointer }

  unfoldable pub handle_inputs : List InputEvent → Handler S → Handler S
  unfolding handle_input
  handle_inputs [] s = s
  handle_inputs (e ∷ es) s = handle_inputs es (handle_input e s)

  -- `_q_liEventHandler`.
  unfoldable pub li_event_handler : Option (List InputEvent) → Handler S → Handler S
  unfolding handle_inputs
  li_event_handler none s = s
  li_event_handler (some es) s = handle_inputs es s

  -- The session is activated, or not: the events that the suspension leaves are handled at once.
  unfoldable pub session_active_changed :
      Bool → Bool → Option (List InputEvent) → Handler S → Handler S
  unfolding suspend resume li_event_handler
  session_active_changed active resumes left s =
      if active
      then (if not s.is_suspended then s else resume resumes s)
      else if not s.is_suspended
      then li_event_handler left (suspend s)
      else s

  unfoldable pub handle : Event → Handler S → Handler S
  unfolding li_event_handler session_active_changed
  handle (readable es) s = li_event_handler es s
  handle timed_out s = record s { keyboard = handle_keyboard x timeout s.keyboard }
  handle (pointer_placed p) s = record s { pointer = set_position geometry p s.pointer }
  handle (active_changed active resumes left) s = session_active_changed active resumes left s

  unfoldable pub handle_all : List Event → Handler S → Handler S
  unfolding handle
  handle_all [] s = s
  handle_all (e ∷ es) s = handle_all es (handle e s)
