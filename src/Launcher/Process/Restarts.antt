-- ===== src/Launcher/Process/Restarts.antt =====
-- How often a child is started again.
use greenisland.Common.{◌≡◌, ◌≢◌, Bool, true, false, ◌||◌, none, some, List, [], ◌∷◌}
use greenisland.Launcher.Process.{
  Process, Event, handle, start_requested, stop_requested, sent, directory_changed,
}

-- A signal comes from a child.
abbrev pub Enabled : Event → Process → Type 0
Enabled start_requested s = Unit
Enabled (stop_requested signals ended) s = Unit
Enabled (sent g) s = s.process ≢ none
Enabled (directory_changed exists) s = Unit

-- A stop while which the child says something.
abbrev pub is_answered : Event → Bool
is_answered (stop_requested (_ ∷ _) ended) = true
is_answered _ = false

abbrev pub any_answered : List Event → Bool
any_answered [] = false
any_answered (e ∷ es) = is_answered e || any_answered es

-- Each event of a sequence can happen when it is its turn.
abbrev pub Orderly : List Event → Process → Type 0
Orderly [] s = Unit
Orderly (e ∷ es) s = Enabled e s × ((t : Process) → handle e s ≡ some t → Orderly es t)
