-- ===== src/Platform/Terminal/Balance.antt =====
-- What is opened and what is closed, over the life of the handler.
use greenisland.Common.{
  ℕ, ◌+◌, ◌≡◌, ◌≢◌, ◌⊎◌, Bool, false, Option, none, some, List, [], ◌∷◌, ◌==◌, if◌then◌else◌, ℤ,
}
use greenisland.Platform.Terminal.{
  Terminal, Call, open_tty, close_tty, open_signals, close_signals, no_signals, init, handle, Event,
}

-- The calls that open or close something.
abbrev pub kind : Call → ℕ
kind (open_tty n) = 0
kind close_tty = 1
kind open_signals = 2
kind close_signals = 3
kind no_signals = 5
kind _ = 4

-- How many calls of a kind were made.
pub count : ℕ → List Call → ℕ
count k [] = 0
count k (c ∷ cs) = (if kind c == k then 1 else 0) + count k cs

abbrev pub held_ttys : Option ℤ → ℕ
held_ttys none = 0
held_ttys (some n) = 1

abbrev pub held_sockets : Bool → ℕ
held_sockets notifier = if notifier then 1 else 0

-- The terminals that were opened are those that were closed and the one that is open. The pairs of
-- sockets that were opened, and those that could not be, are the pairs that were closed and the one
-- of the notifier, which is there only beside a terminal.
abbrev pub AreBalanced : Option ℤ → Bool → List Call → Type 0
AreBalanced tty notifier cs =
    (count 0 cs ≡ count 1 cs + held_ttys tty)
    × (count 2 cs + count 5 cs ≡ count 3 cs + held_sockets notifier)
    × ((notifier ≡ false) ⊎ (tty ≢ none))

abbrev pub IsBalanced : Terminal → Type 0
IsBalanced s = AreBalanced s.tty s.notifier s.calls

-- The states that a new handler reaches by events.
pub data Reached : Terminal → Type 0 where
  start : Reached init
  step : {s t : Terminal} (e : Event) → Reached s → handle e s ≡ some t → Reached t
