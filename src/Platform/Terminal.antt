-- ===== src/Platform/Terminal.antt =====
-- src/platform/logind/vthandler.cpp: the virtual terminal that the platform plugin takes over, as it
-- is built, with the session of logind. `none` in place of a new state stands for an access through
-- a null pointer. What the system calls answer is the argument `Answers`.
pub mod Balance
pub mod Signals
use greenisland.Common.{
  eq_bool, ℕ, refl, Bool, true, false, not, ◌&&◌, ◌||◌, Option, none, some, List, [], ◌∷◌, ◌++◌,
  arith, ◌==◌, if◌then◌else◌, ℤ, pos, ltb_ℤ, eq_ℤ,
}

-- `K_UNICODE` and `K_OFF`, the keyboard modes of Linux.
abbrev pub k_unicode : ℕ
k_unicode = 3

abbrev pub k_off : ℕ
k_off = 4

-- The calls to the system, the requests to logind and the signals.
pub data Call : Type 0 where
  open_tty : ℤ → Call
  close_tty open_signals no_signals close_signals set_graphics exit stop_itself : Call
  mute cursor : Bool → Call
  set_keyboard : ℕ → Call
  switch_to : ℤ → Call
  created interrupted about_to_suspend resumed : Call
  active_changed : Bool → Call

pub record Answers : Type 0 where
  pub opens : Bool
  pub is_valid_vt : Bool
  pub reads_mode : Option ℕ
  pub terminal_keyboard : Bool
  pub mutes : Bool
  pub turns_off : Bool
  pub sets_graphics : Bool
  pub pairs : Bool

-- `VtHandlerPrivate`: `tty` is the terminal behind `vtFd`, and `notifier` says whether the notifier
-- is not null.
pub record Terminal : Type 0 where
  pub tty : Option ℤ
  pub notifier : Bool
  pub vt_number : ℤ
  pub kb_mode : ℕ
  pub active : Bool
  pub calls : List Call

unfoldable pub init : Terminal
init = record {
  tty = none;
  notifier = false;
  vt_number = pos 0;
  kb_mode = k_off;
  active = false;
  calls = cursor false ∷ [];
}

abbrev pub note : Call → Terminal → Terminal
note c s = record s { calls = s.calls ++ c ∷ [] }

unfoldable pub close_fd : Terminal → Terminal
close_fd s = elim s.tty [
  | none ↦ s
  | some _ ↦
      let t = if s.notifier then note close_signals s else s in
      note close_tty (record t { tty = none; notifier = false })
]

-- The mode that is kept to be restored.
abbrev kept_mode : Option ℕ → ℕ
kept_mode none = k_unicode
kept_mode (some m) = if m == k_off then k_unicode else m

unfoldable pub enable_keyboard : Terminal → Terminal
enable_keyboard s = elim s.tty [
  | none ↦ s
  | some _ ↦ note (set_keyboard s.kb_mode) (note (mute false) s)
]

unfoldable pub disable_keyboard : Answers → Terminal → Terminal
unfolding close_fd
disable_keyboard a s = elim s.tty [
  | none ↦ s
  | some _ ↦
      let t = record s { kb_mode = kept_mode a.reads_mode } in
      if a.terminal_keyboard
      then t
      else if a.mutes
      then note (mute true) t
      else let u = note (set_keyboard k_off) (note (mute true) t) in
        if a.turns_off then u else close_fd u
]

unfoldable pub set_active : Bool → Terminal → Terminal
set_active v s = if eq_bool s.active v then s else note (active_changed v) (record s { active = v })

-- The installation of the signal handler: without a pair of sockets it goes on all the same.
unfoldable pub install_signal_handler : Answers → Terminal → Terminal
install_signal_handler a s = record (note (if a.pairs then open_signals else no_signals) s) {
  notifier = true;
}

-- The end of `setup`, behind the muting of the keyboard: a file that is closed takes no mode. The
-- installation of the signal handler always reports success.
unfoldable pub enter_graphics : Answers → ℤ → Terminal → Terminal
unfolding install_signal_handler
enter_graphics a nr s =
    let is_open : Bool = elim s.tty [ none ↦ false | some _ ↦ true ] in
    let t = note set_graphics s in
    if not (is_open && a.sets_graphics)
    then close_fd (enable_keyboard t)
    else note created (set_active true (record (install_signal_handler a t) { vt_number = nr }))

unfoldable pub setup : Answers → ℤ → Terminal → Terminal
setup a nr s = elim s.tty [
  | some _ ↦ s
  | none ↦
      if ltb_ℤ nr (pos 0) || not a.opens
      then s
      else let t = note (open_tty nr) (record s { tty = some nr }) in
        if not a.is_valid_vt then close_fd t else enter_graphics a nr (disable_keyboard a t)
]

-- The signals of the system.
pub data SystemSignal : Type 0 where
  interrupt suspend resume : SystemSignal

-- `notifier->setEnabled(true)`.
enable_notifier : Terminal → Option Terminal
enable_notifier s = if s.notifier then some s else none

-- The handler of the notifier; an interruption ends the program.
unfoldable pub handle_signal : Answers → SystemSignal → Terminal → Option Terminal
unfolding enable_notifier
handle_signal a g s = elim s.tty [
  | none ↦ some s
  | some _ ↦ elim g [
    | interrupt ↦ some (note exit (note (cursor true) (enable_keyboard (note interrupted s))))
    | suspend ↦
        enable_notifier
          (note stop_itself (note (cursor true) (enable_keyboard (note about_to_suspend s))))
    | resume ↦ enable_notifier (note resumed (note (cursor false) (disable_keyboard a s)))
  ]
]

unfoldable pub activate : ℤ → Terminal → Terminal
activate nr s = elim s.tty [
  | none ↦ s
  | some _ ↦ if eq_ℤ s.vt_number nr then s else set_active false (note (switch_to nr) s)
]

-- The destructor.
unfoldable pub destroy : Terminal → Terminal
destroy s =
    let t = note (cursor true) (enable_keyboard s) in
    close_fd (if t.notifier then note close_signals t else t)

-- Whether a call of the system went wrong is said event by event.
pub data Event : Type 0 where
  vt_number_changed : Answers → ℤ → Event
  session_active_changed : Bool → Event
  activate_requested : ℤ → Event
  signalled : Answers → SystemSignal → Event

unfoldable pub handle : Event → Terminal → Option Terminal
handle (vt_number_changed a nr) s = some (setup a nr s)
handle (session_active_changed v) s = some (set_active v s)
handle (activate_requested nr) s = some (activate nr s)
handle (signalled a g) s = handle_signal a g s
