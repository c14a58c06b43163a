-- ===== src/Xwayland/Server.antt =====
-- src/plugins/extensions/xwayland/xwaylandserver.cpp: the sockets that X clients connect to, the
-- lock file of the display, and the process that is started when a client connects. What the
-- operating system answers is an argument; a display is a number, and its lock file and the name
-- of its sockets are known by that number.
pub mod Setup
pub mod Held
pub mod Process
use greenisland.Common.{
  ℕ, zero, suc, ◌+◌, ◌-◌, refl, Bool, true, false, not, ◌&&◌, Option, none, some, List, [], ◌∷◌,
  arith, ◌==◌, if◌then◌else◌, contains, remove_one, ℤ,
}

-- `createLockFile`: whether the file opens for writing, is there, what `read(11)` returns if it
-- opens for reading, the number in it, whether no process has that number, whether it can be
-- removed, and whether the write succeeds. A file that did not open is not open.
pub record LockAnswers : Type 0 where
  pub opens : Bool
  pub exists : Bool
  pub reads : Option ℕ
  pub pid : Option ℤ
  pub is_gone : Bool
  pub removes : Bool
  pub writes : Bool

-- `socket`, `bind` and `listen`, and whether `errno` is `EADDRINUSE` when `setup` reads it.
pub record SocketAnswers : Type 0 where
  pub fd : Option ℕ
  pub binds : Bool
  pub listens : Bool
  pub in_use : Bool

pub record Attempt : Type 0 where
  pub lock : LockAnswers
  pub abstract_socket : SocketAnswers
  pub unix_socket : SocketAnswers

-- `XWaylandServer`, with `none` for a descriptor or a process id of -1 and for an empty name. The
-- rest is what it did to the system: the lock files that it created and that are still there, the
-- listening sockets that are open, the names of sockets in the file system, the notifiers that are
-- connected, how many processes it started, and how many descriptors it opened for them.
pub record XwaylandServer : Type 0 where
  pub display_name : Option ℕ
  pub lock_file_name : Option ℕ
  pub abstract_fd : Option ℕ
  pub unix_fd : Option ℕ
  pub wm_fd : Option ℕ
  pub pid : Option ℕ
  pub process : Bool
  pub client : Bool
  pub locks : List ℕ
  pub sockets : List ℕ
  pub names : List ℕ
  pub notifiers : List ℕ
  pub starts : ℕ
  pub descriptors : ℕ

unfoldable pub init : XwaylandServer
init = record {
  display_name = none;
  lock_file_name = none;
  abstract_fd = none;
  unix_fd = none;
  wm_fd = none;
  pid = none;
  process = false;
  client = false;
  locks = [];
  sockets = [];
  names = [];
  notifiers = [];
  starts = 0;
  descriptors = 0;
}

-- The status of a lock file that is not created: `EAGAIN`, `EEXIST` or 0.
pub data Lock : Type 0 where
  created try_again exists_already failed : Lock

abbrev is_complete : Option ℕ → Bool
is_complete none = false
is_complete (some n) = n == 11

-- What a lock file that is already there makes of the attempt.
unfoldable pub existing_lock : LockAnswers → Lock
existing_lock a = if not (is_complete a.reads) then exists_already else elim a.pid [
  | none ↦ exists_already
  | some _ ↦ if a.is_gone then (if a.removes then exists_already else try_again) else exists_already
]

unfoldable pub create_lock_file : LockAnswers → ℕ → XwaylandServer → Lock × XwaylandServer
unfolding existing_lock
create_lock_file a d s =
    if a.opens
    then (let t = record s { locks = d ∷ s.locks } in
        if a.writes then (created, t) else (failed, record t { locks = remove_one t.locks d }))
    else if a.exists
    then (existing_lock a, s)
    else (failed, s)

unfoldable pub bind_to_abstract_socket : SocketAnswers → XwaylandServer → Option ℕ × XwaylandServer
bind_to_abstract_socket a s = elim a.fd [
  | none ↦ (none, s)
  | some fd ↦
      if not (a.binds && a.listens)
      then (none, s)
      else (some fd, record s { sockets = fd ∷ s.sockets; notifiers = fd ∷ s.notifiers })
]

unfoldable pub bind_to_unix_socket : SocketAnswers → ℕ → XwaylandServer → Option ℕ × XwaylandServer
bind_to_unix_socket a d s = elim a.fd [
  | none ↦ (none, s)
  | some fd ↦
      let t = record s { names = remove_one s.names d } in
      if not (a.binds && a.listens) then (none, t) else (
        some fd,
        record t { names = d ∷ t.names; sockets = fd ∷ s.sockets; notifiers = fd ∷ s.notifiers },
      )
]

-- Where the loop of `setup` goes: again with the same display, on to the next one, or out of it.
pub data Outcome : Type 0 where
  same next refused done : Outcome

abbrev pub unlink_lock : ℕ → XwaylandServer → XwaylandServer
unlink_lock d s = record s { locks = remove_one s.locks d }

abbrev pub close_socket : Option ℕ → XwaylandServer → XwaylandServer
close_socket none s = s
close_socket (some fd) s = record s { sockets = remove_one s.sockets fd }

abbrev pub is_none : Option ℕ → Bool
is_none none = true
is_none (some _) = false

unfoldable pub bind_sockets : Attempt → ℕ → XwaylandServer → Outcome × XwaylandServer
unfolding bind_to_abstract_socket bind_to_unix_socket
bind_sockets a d s =
    let (fd, t) = bind_to_abstract_socket a.abstract_socket s in
    let t1 = record t { abstract_fd = fd } in
    if is_none fd && a.abstract_socket.in_use
    then (next, unlink_lock d t1)
    else let (fd', u) = bind_to_unix_socket a.unix_socket d t1 in
      let u1 = record u { unix_fd = fd' } in
      if is_none fd' then (refused, close_socket fd (unlink_lock d u1)) else (done, u1)

-- One round of the loop.
unfoldable pub attempt : Attempt → ℕ → XwaylandServer → Outcome × XwaylandServer
unfolding create_lock_file bind_sockets
attempt a d s =
    let (lock, t) = create_lock_file a.lock d s in
    elim lock [
      | try_again ↦ (same, t)
      | exists_already ↦ (next, t)
      | failed ↦ (refused, t)
      | created ↦ bind_sockets a d t
    ]

-- The loop, from round `k` on with display `d`; `none` stands for a loop that is not over after
-- as many rounds as the first argument says. The answers are those of each round.
unfoldable pub search_display :
    ℕ → (ℕ → Attempt) → ℕ → ℕ → XwaylandServer → Option (Bool × XwaylandServer)
unfolding attempt
search_display zero w k d s = none
search_display (suc fuel) w k d s =
    let (o, t) = attempt (w k) d s in
    elim o [
      | same ↦ search_display fuel w (suc k) d t
      | next ↦ search_display fuel w (suc k) (suc d) t
      | refused ↦ some (false, t)
      | done ↦ some (true, record t { display_name = some d })
    ]

unfoldable pub setup : ℕ → (ℕ → Attempt) → XwaylandServer → Option (Bool × XwaylandServer)
unfolding search_display
setup fuel w s = search_display fuel w 0 0 s

-- Whether the two pairs of sockets are created, and the number of the process; -1 is `none`.
pub record SpawnAnswers : Type 0 where
  pub server_pair : Bool
  pub wm_pair : Bool
  pub process_id : ℕ

-- Two pairs of sockets, and four copies of descriptors for the child.
unfoldable pub spawn : SpawnAnswers → XwaylandServer → Option ℕ × XwaylandServer
spawn a s =
    if not a.server_pair
    then (none, s)
    else if not a.wm_pair
    then (none, record s { descriptors = s.descriptors + 2 })
    else (
      some a.process_id,
      record s { descriptors = s.descriptors + 8; process = true; starts = s.starts + 1 },
    )

-- The events: a connection at a listening socket, and what the process reports. The slot of the
-- start captured the descriptor for the window manager.
pub data Event : Type 0 where
  activated : SpawnAnswers → ℕ → Event
  started : ℕ → Event
  finished : Event

unfoldable pub process_events : SpawnAnswers → ℕ → XwaylandServer → XwaylandServer
unfolding spawn
process_events a fd s =
    let (pid, t) = spawn a s in
    let u = if s.process then s else record t { pid = pid } in
    record u { notifiers = remove_one u.notifiers fd }

-- A notifier that was disconnected tells nothing; neither does a process that is not there.
unfoldable pub handle : Event → XwaylandServer → XwaylandServer
unfolding process_events
handle (activated a fd) s = if contains s.notifiers fd then process_events a fd s else s
handle (started fd) s =
    if s.process
    then record s { client = true; wm_fd = some fd; descriptors = s.descriptors - 2 }
    else s
handle finished s = record s { process = false }

unfoldable pub handle_all : List Event → XwaylandServer → XwaylandServer
unfolding handle
handle_all [] s = s
handle_all (e ∷ es) s = handle_all es (handle e s)

-- Without a name nothing is unlinked.
abbrev unlink_named : Option ℕ → XwaylandServer → XwaylandServer
unlink_named none s = s
unlink_named (some d) s = unlink_lock d s

unfoldable pub shutdown : XwaylandServer → XwaylandServer
shutdown s = unlink_named s.lock_file_name (record s { process = false })
