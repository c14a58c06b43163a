-- ===== src/Platform/Tests.antt =====
-- The theorems about the input devices at concrete inputs.
use greenisland.Common.{
  ℕ, ◌+◌, ◌≡◌, refl, ◌⊎◌, Bool, true, false, ◌&&◌, none, some, List, [], ◌∷◌, ◌++◌, arith, ◌==◌, ℤ,
  pos, ◌≤ℤ◌, Size, Rect,
}
use greenisland.Platform.Pointer.{
  Pointer, Event as PointerEvent, button, motion as motion_by, new_pointer,
  handle_all as pointer_after,
}
use greenisland.Platform.InputHandler.{
  Device, Handler, Event as HandlerEvent, added, removed, key_event as key_input, readable,
  timed_out, active_changed, eq_capability, keyboard_capability, capabilities, new_handler,
  handle_all as handled,
}
use greenisland.Platform.InputHandler.Counts.{how_many, devices, inputs, handle_all-counts}
use greenisland.Platform.Logind.{
  Event as LogindEvent, names, session, active, vt_number, control_asked, control_answered,
  inhibit_answered, uninhibit_asked, unregistered, init as no_session, handle_all as session_after,
}
use greenisland.Platform.Logind.Told.{Knows, properties, handle_all-Knows}
use greenisland.Platform.Logind.Locks.{acquired, closed, held as held_locks, locks_balanced}
use greenisland.Platform.Keyboard.{
  Xkb, Event as KeyboardEvent, key, timeout, key_pressed, key_event, key_code, new_keyboard,
  handle as handle_key_event, handle_all as typed,
}
use greenisland.Platform.Keyboard.Repeat.{
  timeouts, repetitions, held_key, last_key, Follows, handle_all-Follows,
}
use greenisland.Platform.Touch.{
  State, init, up, down, motion, frame, cancel, TouchEvent, handle_all,
}
use greenisland.Platform.Pointer.State.{IsWithin, held, handle_all-IsWithin, handle_all-held}
use greenisland.Platform.Terminal.{
  Answers, Terminal, init as no_terminal, setup, handle as handle_terminal,
}
use greenisland.Platform.Terminal.Signals.{setup_lem}
use greenisland.Platform.Touch.Points.{Distinct, handle_all-Distinct}

abbrev same_point : ℕ × ℕ → ℕ × ℕ → Bool
same_point a b = a.0 == b.0 && a.1 == b.1

abbrev desktop : Size
desktop = record { width = pos 1920; height = pos 1080 }

-- The event of a contact at the same place of every desktop.
abbrev at_slot : ℤ → TouchEvent ℕ
at_slot slot = record { slot = slot; x_transformed = λ w. 7; y_transformed = λ w. 9 }

abbrev touch : State ℕ
touch = record init { device = some 3 }

handle_all-Distinct_example :
    Distinct
      (handle_all same_point desktop
        (down (at_slot (pos 0))
          ∷ down (at_slot (pos 0))
          ∷ down (at_slot (pos 1))
          ∷ frame
          ∷ motion (at_slot (pos 1))
          ∷ up (at_slot (pos 0))
          ∷ cancel
          ∷ [])
        touch).points
unfolding init
handle_all-Distinct_example =
    handle_all-Distinct same_point desktop
      (down (at_slot (pos 0))
        ∷ down (at_slot (pos 0))
        ∷ down (at_slot (pos 1))
        ∷ frame
        ∷ motion (at_slot (pos 1))
        ∷ up (at_slot (pos 0))
        ∷ cancel
        ∷ [])
      touch tt

abbrev screen : Rect
screen = record { left = pos 0; top = pos 0; right = pos 1919; bottom = pos 1079 }

-- A press of the left button, a motion beyond the right edge, a press of an unknown button, and
-- the release of the left one.
abbrev mouse : List PointerEvent
mouse =
    button 0x110 true
    ∷ motion_by (record { x = pos 4000; y = pos 10 })
    ∷ button 0x200 true
    ∷ button 0x110 false
    ∷ []

handle_all-IsWithin_example : IsWithin screen (pointer_after screen mouse new_pointer).point
unfolding new_pointer
handle_all-IsWithin_example =
    handle_all-IsWithin screen mouse new_pointer (omega arith) (omega arith)
      (omega arith, omega arith, omega arith, omega arith)

handle_all-held_example :
    (pointer_after screen mouse new_pointer).buttons 0 ≡ held 0 mouse (new_pointer.buttons 0)
handle_all-held_example = handle_all-held screen mouse new_pointer 0

-- Every call of the system succeeds.
abbrev granted : Answers
granted = record {
  opens = true;
  is_valid_vt = true;
  reads_mode = some 3;
  terminal_keyboard = false;
  mutes = true;
  turns_off = true;
  sets_graphics = true;
  pairs = true;
}

abbrev second_tty : Terminal
second_tty = setup granted (pos 2) no_terminal

setup_lem_example :
    ((second_tty.tty ≡ none)
      × (second_tty.notifier ≡ false)
      × (second_tty.active ≡ no_terminal.active)
      × (second_tty.vt_number ≡ no_terminal.vt_number))
    ⊎ ((second_tty.tty ≡ some (pos 2))
        × (second_tty.notifier ≡ true)
        × (second_tty.active ≡ true)
        × (second_tty.vt_number ≡ pos 2)
        × (pos 0 ≤ℤ pos 2)
        × (granted.opens ≡ true)
        × (granted.is_valid_vt ≡ true)
        × (granted.sets_graphics ≡ true))
unfolding no_terminal
setup_lem_example = setup_lem granted (pos 2) no_terminal refl refl

-- A session that is found, an inhibition that is taken and given back, and the end of logind.
abbrev session_events : List LogindEvent
session_events =
    names "" (some true)
    ∷ session (some "/org/freedesktop/login1/session/_32")
    ∷ active (some true)
    ∷ vt_number (some 2)
    ∷ control_asked
    ∷ control_answered true
    ∷ inhibit_answered (some 12)
    ∷ inhibit_answered (some 13)
    ∷ uninhibit_asked 12
    ∷ uninhibit_asked 13
    ∷ unregistered
    ∷ []

handle_all-Knows_example :
    Knows
      (session_after session_events no_session).signals
      (properties (session_after session_events no_session))
handle_all-Knows_example = handle_all-Knows session_events

locks_balanced_example :
    let s = session_after session_events no_session in acquired 12 s ≡ closed 12 s + held_locks 12 s
locks_balanced_example = locks_balanced 12 session_events

-- A keyboard without modifiers, of which every key repeats.
abbrev plain_keys : Xkb ℕ
plain_keys = record {
  sym = λ s k. k;
  text = λ s k. "a";
  is_active = λ s m. false;
  update_key = λ s k is_pressed. s + 1;
  repeats = λ k. true;
  qt_key = λ sym text. (sym, false);
}

held_key_example :
    (timeouts plain_keys 3
      (handle_key_event plain_keys (key 1000 30 true) (new_keyboard true 0))).emitted
    ≡ ([] ++ key_pressed 1000 (key_event plain_keys 0 (key_code 30) true) ∷ [])
      ++ repetitions (key_event plain_keys 0 (key_code 30) true) 1000 3
unfolding new_keyboard
held_key_example = held_key plain_keys 1000 30 3 (new_keyboard true 0) refl refl

-- A key is held, and another is pressed and released.
abbrev typing : List KeyboardEvent
typing = key 1000 30 true ∷ timeout ∷ key 1410 31 true ∷ key 1440 31 false ∷ []

handle_all-Follows_example :
    Follows plain_keys (last_key typing none) (typed plain_keys typing (new_keyboard true 0))
handle_all-Follows_example = handle_all-Follows plain_keys typing 0

abbrev typewriter : Device
typewriter = record { id = 4; has_capability = λ c. eq_capability c keyboard_capability }

abbrev idle_pointer : Pointer
idle_pointer = new_pointer

abbrev handler : Handler ℕ
handler = new_handler (new_keyboard true 0) idle_pointer

-- A keyboard is plugged in, a key is pressed, the session is left, and the keyboard goes away.
abbrev plugged : List HandlerEvent
plugged =
    readable (some (added typewriter ∷ key_input 1000 30 true ∷ []))
    ∷ active_changed false false (some (removed typewriter ∷ []))
    ∷ timed_out
    ∷ active_changed true true none
    ∷ readable (some (added typewriter ∷ []))
    ∷ []

handle_all-counts_example :
    ((handled plain_keys screen plugged handler).counts keyboard_capability
      ≡ pos (how_many keyboard_capability (devices (inputs false plugged) [])))
    × (capabilities (handled plain_keys screen plugged handler) keyboard_capability ≡ false)
unfolding new_handler
handle_all-counts_example =
    handle_all-counts plain_keys screen plugged handler keyboard_capability (λ d. refl) (refl, tt)
