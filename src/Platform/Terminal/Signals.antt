-- ===== src/Platform/Terminal/Signals.antt =====
-- The setup of a terminal, and two ways in which it goes wrong afterwards.
use greenisland.Common.{◌≡◌, ◌⊎◌, true, false, none, some, arith, ℤ, pos, ◌≤ℤ◌}
use greenisland.Platform.Terminal.{
  Answers, Terminal, close_fd, enable_keyboard, disable_keyboard, set_active, enter_graphics, setup,
  resume, handle_signal, enable_notifier, install_signal_handler,
}

-- The setup of a terminal, where none is open: either no terminal is open afterwards, and the
-- number, the activity and the notifier are as before; or the number is valid, its terminal is
-- open, is one, and took the graphics mode, the notifier is there, and the handler is active.
pub setup_lem :
    (a : Answers) (nr : ℤ) (s : Terminal)
    → s.tty ≡ none
    → s.notifier ≡ false
    → let t = setup a nr s in
      ((t.tty ≡ none) × (t.notifier ≡ false) × (t.active ≡ s.active) × (t.vt_number ≡ s.vt_number))
      ⊎ ((t.tty ≡ some nr)
          × (t.notifier ≡ true)
          × (t.active ≡ true)
          × (t.vt_number ≡ nr)
          × (pos 0 ≤ℤ nr)
          × (a.opens ≡ true)
          × (a.is_valid_vt ≡ true)
          × (a.sets_graphics ≡ true))
unfolding setup enter_graphics install_signal_handler disable_keyboard enable_keyboard close_fd
    set_active
setup_lem a nr s shut idle = ground arith

-- When the process continues after a suspension, and the keyboard can neither be muted nor turned
-- off, the terminal is closed and the notifier deleted; the handler then goes through it.
resume_null :
    (a : Answers) (nr : ℤ) (s : Terminal)
    → s.tty ≡ some nr
    → a.terminal_keyboard ≡ false
    → a.mutes ≡ false
    → a.turns_off ≡ false
    → handle_signal a resume s ≡ none
unfolding handle_signal enable_notifier disable_keyboard close_fd
resume_null a nr s taken keyboard mutes off = ground arith
