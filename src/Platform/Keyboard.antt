-- ===== src/Platform/Keyboard.antt =====
-- src/platform/libinput/libinputkeyboard.cpp: keys, and the repetition of a key that is held. What
-- libxkbcommon and the table of keys answer is the argument `Xkb`. Times are in milliseconds, and
-- the timer fires when it is due.
pub mod Repeat
use greenisland.Common.{
  ℕ, ◌+◌, ◌%◌, String, refl, sym, Bool, true, false, not, ◌&&◌, ◌||◌, Option, none, some, List, [],
  ◌∷◌, ◌++◌, arith, ◌==◌, if◌then◌else◌,
}

pub data Modifier : Type 0 where
  control alt shift logo : Modifier

-- The keyboard of the library: its state, the symbol and the text of a key, whether a modifier is
-- depressed or latched, the state after a key, whether a key repeats, and the key of Qt for a
-- symbol and a text, with whether it is one of the keypad.
pub record Xkb (S : Type 0) : Type 0 where
  pub sym : S → ℕ → ℕ
  pub text : S → ℕ → String
  pub is_active : S → Modifier → Bool
  pub update_key : S → ℕ → Bool → S
  pub repeats : ℕ → Bool
  pub qt_key : ℕ → String → ℕ × Bool

-- The keys of Qt that are modifiers.
abbrev key_of : Modifier → ℕ
key_of shift = 0x01000020
key_of control = 0x01000021
key_of logo = 0x01000022
key_of alt = 0x01000023

pub record Modifiers : Type 0 where
  pub control_modifier : Bool
  pub alt_modifier : Bool
  pub shift_modifier : Bool
  pub meta_modifier : Bool
  pub keypad_modifier : Bool

-- `LibInputKeyEvent`.
pub record KeyEvent : Type 0 where
  pub key : ℕ
  pub modifiers : Modifiers
  pub native_scan_code : ℕ
  pub native_virtual_key : ℕ
  pub native_modifiers : Modifiers
  pub text : String
  pub auto_repeat : Bool
  pub repeat_count : ℕ

pub data Emitted : Type 0 where
  key_pressed key_released : ℕ → KeyEvent → Emitted

-- `LibInputKeyboardPrivate`: `ready` says whether the context, the keymap and the state are there,
-- `repeat_data` is the event that is repeated, and `timer` when the timer is due, if it is active.
pub record Keyboard (S : Type 0) : Type 0 where
  pub ready : Bool
  pub state : S
  pub repeat_data : Option KeyEvent
  pub timer : Option ℕ
  pub emitted : List Emitted

abbrev pub repeat_rate : ℕ
repeat_rate = 40

abbrev pub repeat_delay : ℕ
repeat_delay = 400

-- `_q_handleRepeat`, when the timer is due; the counter is an `ushort`.
unfoldable pub handle_repeat : {S : Type 0} → ℕ → Keyboard S → Keyboard S
handle_repeat due s = elim s.repeat_data [
  | none ↦ s
  | some e ↦ record s {
    emitted = s.emitted ++ key_pressed due (record e { auto_repeat = true }) ∷ [];
    repeat_data = some (record e { repeat_count = (e.repeat_count + 1) % 65536 });
    timer = some (due + repeat_rate);
  }
]

-- The key of an event, an unsigned number of 32 bits.
abbrev pub key_code : ℕ → ℕ
key_code code = (code + 8) % 4294967296

module _ {S : Type 0} (x : Xkb S) where
  -- A modifier is given unless its own key is pressed.
  abbrev pub has_modifier : S → ℕ → Bool → Modifier → Bool
  has_modifier st qtkey is_pressed m =
      x.is_active st m && (not (qtkey == key_of m) || not is_pressed)

  abbrev pub modifiers_of : S → ℕ → Bool → Bool → Modifiers
  modifiers_of st qtkey keypad is_pressed = record {
    control_modifier = has_modifier st qtkey is_pressed control;
    alt_modifier = has_modifier st qtkey is_pressed alt;
    shift_modifier = has_modifier st qtkey is_pressed shift;
    meta_modifier = has_modifier st qtkey is_pressed logo;
    keypad_modifier = keypad;
  }

  unfoldable pub key_event : S → ℕ → Bool → KeyEvent
  key_event st key is_pressed =
      let keysym = x.sym st key in
      let text = x.text st key in
      let (qtkey, keypad) = x.qt_key keysym text in
      let modifiers = modifiers_of st qtkey keypad is_pressed in
      record {
        key = qtkey;
        modifiers = modifiers;
        native_scan_code = key;
        native_virtual_key = keysym;
        native_modifiers = modifiers;
        text = text;
        auto_repeat = false;
        repeat_count = 1;
      }

  -- The end of `handleKey`: a key that repeats starts the timer, any other stops it.
  unfoldable pub update_repeat : ℕ → ℕ → Bool → KeyEvent → Keyboard S → Keyboard S
  update_repeat now key is_pressed e s =
      if is_pressed && x.repeats key
      then record s { repeat_data = some e; timer = some (now + repeat_delay) }
      else record s { timer = none }

  unfoldable pub handle_key : ℕ → ℕ → Bool → Keyboard S → Keyboard S
  unfolding update_repeat
  handle_key now code is_pressed s =
      if not s.ready
      then s
      else (let key = key_code code in
          let e = key_event s.state key is_pressed in
          let sent = if is_pressed then key_pressed now e else key_released now e in
          update_repeat now key is_pressed e (record s {
            state = x.update_key s.state key is_pressed;
            emitted = s.emitted ++ sent ∷ [];
          }))

-- A key that goes down or up, at a time, and the timer, which tells nothing when it is stopped.
pub data Event : Type 0 where
  key : ℕ → ℕ → Bool → Event
  timeout : Event

module _ {S : Type 0} (x : Xkb S) where
  unfoldable pub handle : Event → Keyboard S → Keyboard S
  unfolding handle_key handle_repeat
  handle (key now code is_pressed) s = handle_key x now code is_pressed s
  handle timeout s = elim s.timer [ none ↦ s | some due ↦ handle_repeat due s ]

  unfoldable pub handle_all : List Event → Keyboard S → Keyboard S
  unfolding handle
  handle_all [] s = s
  handle_all (e ∷ es) s = handle_all es (handle e s)

-- A new keyboard; `ready` says whether libxkbcommon made everything.
unfoldable pub new_keyboard : {S : Type 0} → Bool → S → Keyboard S
new_keyboard ready st = record {
  ready = ready;
  state = st;
  repeat_data = none;
  timer = none;
  emitted = [];
}
