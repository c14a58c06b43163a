-- ===== src/Xwayland/Server/Held.antt =====
-- The lock files and the sockets that `setup` holds when it ends.
use mathlib.Core.Path.{subst}
use greenisland.Common.{
  ℕ, zero, suc, ◌≡◌, refl, ◌≢◌, ◌⊎◌, Bool, true, false, Option, none, some, List, [], ◌∷◌, arith,
  remove_one,
}
use greenisland.Xwayland.Server.{
  LockAnswers, Attempt, XwaylandServer, created, existing_lock, create_lock_file,
  bind_to_abstract_socket, bind_to_unix_socket, Outcome, done, bind_sockets, attempt,
  search_display, setup, shutdown, init,
}

abbrev pub IsClean : XwaylandServer → Type 0
IsClean s = (s.locks ≡ []) × (s.sockets ≡ [])

abbrev pub opened : Option ℕ → List ℕ → List ℕ
opened none l = l
opened (some fd) l = fd ∷ l

-- The lock of display `d`, and the sockets behind the two descriptors.
abbrev pub HasDisplay : ℕ → XwaylandServer → Type 0
HasDisplay d s =
    (s.locks ≡ d ∷ [])
    × (s.sockets ≡ opened s.unix_fd (opened s.abstract_fd []))
    × (s.unix_fd ≢ none)

remove_self : (d : ℕ) → remove_one (d ∷ []) d ≡ []
remove_self d = ground arith

-- What a round leaves behind.
abbrev After : Outcome → ℕ → XwaylandServer → Type 0
After done d s = HasDisplay d s
After _ d s = IsClean s

create_lock_file-IsClean :
    (a : LockAnswers) (d : ℕ) (s : XwaylandServer)
    → IsClean s
    → ((create_lock_file a d s).1.sockets ≡ [])
      × ((((create_lock_file a d s).0 ≡ created) × ((create_lock_file a d s).1.locks ≡ d ∷ []))
          ⊎ (((create_lock_file a d s).0 ≢ created) × ((create_lock_file a d s).1.locks ≡ [])))
unfolding create_lock_file existing_lock
create_lock_file-IsClean a d s c = ground (arith, c, remove_self d)

bind_sockets-After :
    (a : Attempt) (d : ℕ) (s : XwaylandServer)
    → s.locks ≡ d ∷ []
    → s.sockets ≡ []
    → After (bind_sockets a d s).0 d (bind_sockets a d s).1
unfolding bind_sockets bind_to_abstract_socket bind_to_unix_socket
bind_sockets-After a d s locked idle = ground (arith, locked, idle, remove_self d)

attempt-After :
    (a : Attempt) (d : ℕ) (s : XwaylandServer)
    → IsClean s
    → After (attempt a d s).0 d (attempt a d s).1
unfolding attempt
attempt-After a d s c =
    let t = (create_lock_file a.lock d s).1 in
    ground (arith, create_lock_file-IsClean a.lock d s c, bind_sockets-After a d t)

-- A search that has ended, well or not.
abbrev pub Ended : Option (Bool × XwaylandServer) → Type 0
Ended none = Unit
Ended (some (true, t)) = (d : ℕ) × ((t.display_name ≡ some d) × HasDisplay d t)
Ended (some (false, t)) = IsClean t

search-Ended :
    (w : ℕ → Attempt) (fuel k d : ℕ) (s : XwaylandServer)
    → IsClean s
    → Ended (search_display fuel w k d s)
unfolding search_display
search-Ended w zero k d s c = tt
search-Ended w (suc fuel) k d s c =
    let t = (attempt (w k) d s).1 in
    ground (
      arith,
      attempt-After (w k) d s c,
      search-Ended w fuel (suc k) d t,
      search-Ended w fuel (suc k) (suc d) t,
    )

-- When `setup` ends, starting from no lock file and no listening socket: if it reports success,
-- it holds the lock file of the display that it names and of no other, and the sockets that are
-- open are those of its two descriptors, of which the one in the file system is there; if it
-- reports a failure, it holds no lock file and no listening socket.
pub setup_holds :
    (w : ℕ → Attempt) (fuel : ℕ) (s : XwaylandServer) → IsClean s → Ended (setup fuel w s)
unfolding setup
setup_holds w fuel s c = search-Ended w fuel 0 0 s c

attempt-unnamed :
    (a : Attempt) (d : ℕ) (s : XwaylandServer) → (attempt a d s).1.lock_file_name ≡ s.lock_file_name
unfolding attempt create_lock_file existing_lock bind_sockets bind_to_abstract_socket
    bind_to_unix_socket
attempt-unnamed a d s = ground arith

-- Nothing that `setup` does gives the server the name of its lock file.
search-unnamed :
    (w : ℕ → Attempt) (fuel k d : ℕ) (s t : XwaylandServer) (b : Bool)
    → s.lock_file_name ≡ none
    → search_display fuel w k d s ≡ some (b, t)
    → t.lock_file_name ≡ none
unfolding search_display
search-unnamed w zero k d s t b unnamed e = cc
search-unnamed w (suc fuel) k d s t b unnamed e =
    let u = (attempt (w k) d s).1 in
    let kept = attempt-unnamed (w k) d s in
    ground (
      arith,
      e,
      kept,
      unnamed,
      search-unnamed w fuel (suc k) d u t b,
      search-unnamed w fuel (suc k) (suc d) u t b,
    )

-- After a successful `setup` of a new server, the end of the server leaves the lock file of its
-- display behind.
shutdown_keeps_lock :
    (w : ℕ → Attempt) (fuel : ℕ) (t : XwaylandServer)
    → setup fuel w init ≡ some (true, t)
    → (d : ℕ) × ((t.display_name ≡ some d) × ((shutdown t).locks ≡ d ∷ []))
unfolding shutdown setup init
shutdown_keeps_lock w fuel t e =
    let (d, (named, held)) = subst Ended e (search-Ended w fuel 0 0 init (refl, refl)) in
    let unnamed = search-unnamed w fuel 0 0 init t true refl e in
    (d, (named, ground (arith, unnamed, held)))
