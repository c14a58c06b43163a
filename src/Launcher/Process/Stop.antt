-- ===== src/Launcher/Process/Stop.antt =====
-- A stop during which the child ends.
use greenisland.Common.{ℕ, ◌≡◌, ◌≢◌, Bool, true, none, some, [], ◌∷◌, arith, pos}
use greenisland.Launcher.Process.{
  Process, stop, deliver, deliver_all, exited, error, process_finished, process_error, respawn,
  forget, end_stop,
}

-- If the child ends with exit code 0, and says so, while `stop` waits for it, the slot for the end
-- of the child forgets it, and `stop` then goes through the null pointer; so it does if the child
-- dies of the signal that `stop` sends, while there is a retry left.
stop_ends :
    (s : Process) (p : ℕ) (normal_exit : Bool) (ended : Bool)
    → s.process ≡ some p
    → s.reports ≡ true
    → s.retries ≢ 0
    → (stop (exited (pos 0) normal_exit ∷ []) ended s ≡ none) × (stop (error ∷ []) ended s ≡ none)
unfolding stop deliver_all deliver process_finished process_error respawn forget end_stop
stop_ends s p normal_exit ended running connected left = (ground arith, ground arith)
