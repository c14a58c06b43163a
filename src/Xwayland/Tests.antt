-- ===== src/Xwayland/Tests.antt =====
-- The theorems about the X server at concrete inputs.
use greenisland.Common.{
  ℕ, zero, suc, ◌≤◌, ◌<◌, ◌≡◌, refl, ◌⊎◌, true, false, none, some, List, [], ◌∷◌, arith, length,
  pos,
}
use greenisland.Xwayland.Server.{
  existing_lock, LockAnswers, SocketAnswers, Attempt, XwaylandServer, init, setup, SpawnAnswers,
  Event, activated, started, finished, handle_all, done,
}
use greenisland.Xwayland.Server.Setup.{outcome, IsResult, setup_ends, stale_loops, goes_on}
use greenisland.Xwayland.Server.Held.{Ended, setup_holds}
use greenisland.Xwayland.Server.Process.{starts_bounded}

abbrev free_lock : LockAnswers
free_lock = record {
  opens = true;
  exists = false;
  reads = none;
  pid = none;
  is_gone = false;
  removes = true;
  writes = true;
}

-- The lock file of a process that has ended, which may not be removed.
abbrev stale_lock : LockAnswers
stale_lock = record free_lock {
  opens = false;
  exists = true;
  reads = some 11;
  pid = some (pos 412);
  is_gone = true;
  removes = false;
}

-- The lock file of a process that runs.
abbrev held_lock : LockAnswers
held_lock = record stale_lock { is_gone = false }

abbrev bound : ℕ → SocketAnswers
bound fd = record { fd = some fd; binds = true; listens = true; in_use = false }

-- Two displays are taken, and the third is free.
abbrev desktop : ℕ → Attempt
desktop zero = record { lock = held_lock; abstract_socket = bound 5; unix_socket = bound 6 }
desktop (suc zero) = record {
  lock = free_lock;
  abstract_socket = record (bound 5) { binds = false; in_use = true };
  unix_socket = bound 6;
}
desktop _ = record { lock = free_lock; abstract_socket = bound 5; unix_socket = bound 6 }

two_taken : (j : ℕ) → j < 2 → goes_on (outcome (desktop j)) ≡ true
unfolding existing_lock
two_taken zero h = refl
two_taken (suc zero) h = refl
two_taken (suc (suc j)) h = absurd (omega arith)

setup_ends_example : IsResult (setup 3 desktop init) done 2
unfolding existing_lock
setup_ends_example = setup_ends desktop 2 3 init two_taken refl (omega arith)

setup_holds_example : Ended (setup 3 desktop init)
unfolding init
setup_holds_example = setup_holds desktop 3 init (refl, refl)

abbrev displayed : XwaylandServer
displayed = record init {
  display_name = some 2;
  abstract_fd = some 5;
  unix_fd = some 6;
  locks = 2 ∷ [];
  sockets = 6 ∷ 5 ∷ [];
  names = 2 ∷ [];
  notifiers = 6 ∷ 5 ∷ [];
}

setup-desktop : setup 3 desktop init ≡ some (true, displayed)
unfolding setup init
setup-desktop = refl

stale_loops_example :
    setup 1000
      (λ k. record { lock = stale_lock; abstract_socket = bound 5; unix_socket = bound 6 })
      init
    ≡ none
stale_loops_example =
    stale_loops
      (λ k. record { lock = stale_lock; abstract_socket = bound 5; unix_socket = bound 6 }) 1000
      init (λ k. (refl, refl, refl, λ e. cc, refl, refl))

abbrev granted : SpawnAnswers
granted = record { server_pair = true; wm_pair = true; process_id = 900 }

-- A client connects, the X server ends with it, and another client connects to the same socket.
abbrev clients : List Event
clients = activated granted 5 ∷ started 9 ∷ finished ∷ activated granted 5 ∷ []

starts_bounded_example :
    ((handle_all clients displayed).starts ≤ 2)
    × ((0 < length (handle_all clients displayed).notifiers)
        ⊎ ((handle_all clients (handle_all clients displayed)).starts
            ≡ (handle_all clients displayed).starts))
starts_bounded_example = starts_bounded desktop 3 displayed clients clients setup-desktop
