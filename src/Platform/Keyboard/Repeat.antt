-- ===== src/Platform/Keyboard/Repeat.antt =====
-- Which key is repeated, when, and how it is counted.
use mathlib.Core.List.{append-nil}
use greenisland.Common.{
  ℕ, zero, suc, ◌+◌, ◌*◌, ◌%◌, ◌≡◌, refl, ap, ◌⊎◌, inl, inr, Bool, true, false, ◌&&◌, Option, none,
  some, List, [], ◌∷◌, ◌++◌, arith, Option-cases,
}
use greenisland.Platform.Keyboard.{
  Xkb, KeyEvent, Emitted, key_pressed, Keyboard, handle_repeat, key_code, key_event, update_repeat,
  handle_key, key, timeout, handle, Event, handle_all, new_keyboard,
}

-- The `i`th repetition of an event, counted from 0, of a key that went down at `now`.
abbrev pub repetition : KeyEvent → ℕ → ℕ → Emitted
repetition e now i =
    key_pressed (now + 400 + 40 * i)
      (record e { auto_repeat = true; repeat_count = (i + 1) % 65536 })

abbrev pub repetitions : KeyEvent → ℕ → ℕ → List Emitted
repetitions e now zero = []
repetitions e now (suc n) = repetitions e now n ++ repetition e now n ∷ []

append_assoc {ℓ} : {A : Type ℓ} (xs ys zs : List A) → (xs ++ ys) ++ zs ≡ xs ++ (ys ++ zs)
append_assoc [] ys zs = refl
append_assoc (x ∷ xs) ys zs = ap (λ l. x ∷ l) (append_assoc xs ys zs)

module _ {S : Type 0} (x : Xkb S) where
  -- The timer fires `n` times.
  abbrev pub timeouts : ℕ → Keyboard S → Keyboard S
  timeouts zero s = s
  timeouts (suc n) s = handle x timeout (timeouts n s)

  abbrev IsHeld : KeyEvent → ℕ → ℕ → List Emitted → Keyboard S → Type 0
  IsHeld e now n before t =
      (t.timer ≡ some (now + 400 + 40 * n))
      × (t.repeat_data ≡ some (record e { repeat_count = (n + 1) % 65536 }))
      × (t.emitted ≡ before ++ repetitions e now n)

  timeouts-IsHeld :
      (e : KeyEvent) (now n : ℕ) (before : List Emitted) (s : Keyboard S)
      → IsHeld e now 0 before s
      → IsHeld e now n before (timeouts n s)
  unfolding handle handle_repeat
  timeouts-IsHeld e now zero before s h = h
  timeouts-IsHeld e now (suc n) before s h =
      let t = timeouts n s in
      let (due, stored, sent) = timeouts-IsHeld e now n before s h in
      let assoc = append_assoc before (repetitions e now n) (repetition e now n ∷ []) in
      ground (arith, due, stored, sent, assoc)

  key_event-fresh :
      (st : S) (k : ℕ) (is_pressed : Bool)
      → record (key_event x st k is_pressed) { repeat_count = (0 + 1) % 65536 }
        ≡ key_event x st k is_pressed
  unfolding key_event
  key_event-fresh st k is_pressed = refl

  -- A key that repeats goes down on a keyboard that works, and the timer fires `n` times: the
  -- press is told, and then `n` repetitions of it, the first after 400 milliseconds and one every
  -- 40 milliseconds, with a counter from 1 on that wraps at 65536.
  pub held_key :
      (now code n : ℕ) (s : Keyboard S)
      → s.ready ≡ true
      → x.repeats (key_code code) ≡ true
      → let e = key_event x s.state (key_code code) true in
        (timeouts n (handle x (key now code true) s)).emitted
        ≡ (s.emitted ++ key_pressed now e ∷ []) ++ repetitions e now n
  unfolding handle handle_key update_repeat
  held_key now code n s ready repeats =
      let e = key_event x s.state (key_code code) true in
      (timeouts-IsHeld e now n (s.emitted ++ key_pressed now e ∷ [])
        (handle x (key now code true) s)
        (ground (
          arith,
          ready,
          repeats,
          key_event-fresh s.state (key_code code) true,
          append-nil (s.emitted ++ key_pressed now e ∷ []),
        ))).2

-- The last key of a list of events, and whether it went down.
abbrev pub last_key : List Event → Option (ℕ × Bool) → Option (ℕ × Bool)
last_key [] last = last
last_key (key now code is_pressed ∷ es) last = last_key es (some (code, is_pressed))
last_key (timeout ∷ es) last = last_key es last

-- Whether a key is one to repeat.
abbrev pub starts : {S : Type 0} → Xkb S → Option (ℕ × Bool) → Bool
starts x none = false
starts x (some (code, is_pressed)) = is_pressed && x.repeats (key_code code)

abbrev pub is_active : Option ℕ → Bool
is_active none = false
is_active (some _) = true

abbrev pub code_of : Option (ℕ × Bool) → Option ℕ
code_of none = none
code_of (some (code, _)) = some (key_code code)

abbrev pub repeated_code : Option KeyEvent → Option ℕ
repeated_code none = none
repeated_code (some e) = some e.native_scan_code

module _ {S : Type 0} (x : Xkb S) where
  -- The timer runs for the last key, if that is one to repeat, and for no other.
  abbrev pub Follows : Option (ℕ × Bool) → Keyboard S → Type 0
  Follows last s =
      (s.ready ≡ true)
      × (is_active s.timer ≡ starts x last)
      × ((starts x last ≡ false) ⊎ (repeated_code s.repeat_data ≡ code_of last))

  key_event-code :
      (st : S) (k : ℕ) (is_pressed : Bool) → (key_event x st k is_pressed).native_scan_code ≡ k
  unfolding key_event
  key_event-code st k is_pressed = refl

  handle-Follows :
      (e : Event) (last : Option (ℕ × Bool)) (s : Keyboard S)
      → Follows last s
      → Follows (last_key (e ∷ []) last) (handle x e s)
  unfolding handle handle_key update_repeat handle_repeat
  handle-Follows (key now code is_pressed) last s h =
      ground (arith, h.0, key_event-code s.state (key_code code) is_pressed)
  handle-Follows timeout last s h = elim (Option-cases s.timer) [
    | inl idle ↦ ground (arith, idle, h)
    | inr (due, running) ↦ elim (Option-cases s.repeat_data) [
      | inl missing ↦ ground (arith, running, missing, h)
      | inr (e, stored) ↦ ground (arith, running, stored, h)
    ]
  ]

  handle_all-Follows_from :
      (es : List Event) (last : Option (ℕ × Bool)) (s : Keyboard S)
      → Follows last s
      → Follows (last_key es last) (handle_all x es s)
  unfolding handle_all
  handle_all-Follows_from [] last s h = h
  handle_all-Follows_from (key now code is_pressed ∷ es) last s h =
      let e = key now code is_pressed in
      handle_all-Follows_from es (some (code, is_pressed)) (handle x e s)
        (handle-Follows e last s h)
  handle_all-Follows_from (timeout ∷ es) last s h =
      handle_all-Follows_from es last (handle x timeout s) (handle-Follows timeout last s h)

  -- On a keyboard that works, after any keys and repetitions: the timer runs if and only if the
  -- last key event is a press of a key that repeats, and it is that key which is repeated; so the
  -- release of any key ends the repetition of the one that is held.
  pub handle_all-Follows :
      (es : List Event) (st : S)
      → Follows (last_key es none) (handle_all x es (new_keyboard true st))
  unfolding new_keyboard
  handle_all-Follows es st =
      handle_all-Follows_from es none (new_keyboard true st) (refl, refl, inl refl)
