-- ===== src/Launcher/Process.antt =====
-- launcher/compositorprocess.cpp: a child process that is watched and restarted. `none` in place of
-- a new state stands for an access through a null pointer. A child process is a number. What the
-- system says is in the events: whether the socket exists, and the signals that the child sends
-- while `stop` waits for it.
pub mod Valid
pub mod Restarts
pub mod Stop
use greenisland.Common.{
  ℕ, suc, ◌-◌, String, refl, Bool, true, false, not, Option, none, some, List, [], ◌∷◌, ◌++◌, arith,
  ltb, if◌then◌else◌, str_eq, ℤ, pos, eq_ℤ,
}

pub data Call : Type 0 where
  launch terminate kill : ℕ → Call
  schedule_start quit_application started stopped finished : Call

-- `CompositorProcess`: `watcher` says whether `m_watcher` is not null, `listening` whether its
-- signal is connected, and `reports` whether `finished` of the child is. `next` is the number of
-- the next child.
pub record Process : Type 0 where
  pub socket_name : String
  pub retries : ℕ
  pub process : Option ℕ
  pub reports : Bool
  pub watcher : Bool
  pub listening : Bool
  pub next : ℕ
  pub calls : List Call

unfoldable pub new_process : String → Process
new_process socket_name = record {
  socket_name = socket_name;
  retries = 5;
  process = none;
  reports = false;
  watcher = false;
  listening = false;
  next = 0;
  calls = [];
}

abbrev pub note : Call → Process → Process
note c s = record s { calls = s.calls ++ c ∷ [] }

unfoldable pub start : Process → Process
start s = elim s.process [
  | some _ ↦ s
  | none ↦ record s {
    process = some s.next;
    reports = true;
    watcher = true;
    listening = true;
    next = suc s.next;
    calls = s.calls ++ launch s.next ∷ [];
  }
]

-- A retry is used up, and `start` is called again by a timer.
unfoldable pub respawn : Process → Option (Process × Bool)
respawn s =
    if ltb s.retries 1 then some (s, false) else if not s.watcher then none else elim s.process [
      | none ↦ none
      | some _ ↦ some (
        record s {
          retries = s.retries - 1;
          process = none;
          reports = false;
          watcher = false;
          listening = false;
          calls = s.calls ++ schedule_start ∷ [];
        },
        true,
      )
    ]

after_respawn : Option (Process × Bool) → Option Process
after_respawn none = none
after_respawn (some (s, true)) = some s
after_respawn (some (s, false)) = some (note quit_application s)

unfoldable pub process_error : Process → Option Process
unfolding after_respawn
process_error s = elim s.process [ none ↦ none | some _ ↦ after_respawn (respawn s) ]

forget : Process → Option Process
forget s = elim s.process [
  | none ↦ none
  | some _ ↦ some (record s { process = none; reports = false })
]

unfoldable pub process_finished : ℤ → Bool → Process → Option Process
unfolding forget
process_finished exit_code normal_exit s =
    if eq_ℤ exit_code (pos 0)
    then forget (note finished s)
    else if normal_exit
    then forget (note stopped s)
    else some s

unfoldable pub socket_available : Bool → Process → Option Process
socket_available exists s =
    if str_eq s.socket_name ""
    then some s
    else if not exists
    then some s
    else if not s.watcher
    then none
    else some (note started (record s { listening = false }))

-- The two signals of the child, to the slots that are connected.
pub data Signal : Type 0 where
  error : Signal
  exited : ℤ → Bool → Signal

unfoldable pub deliver : Signal → Process → Option Process
deliver error s = process_error s
deliver (exited exit_code normal_exit) s =
    let t = process_finished exit_code normal_exit s in if s.reports then t else some s

unfoldable pub deliver_all : List Signal → Process → Option Process
deliver_all [] s = some s
deliver_all (g ∷ gs) s = elim (deliver g s) [ none ↦ none | some t ↦ deliver_all gs t ]

-- The end of `stop`, behind the wait.
end_stop : ℕ → Bool → Process → Option Process
end_stop p ended s = elim s.process [
  | none ↦ none
  | some _ ↦
      let t = if ended then s else note (kill p) s in
      some (note stopped (record t { process = none; reports = false }))
]

-- `stop`: the signals that are delivered during the wait, and whether the child ended in time.
unfoldable pub stop : List Signal → Bool → Process → Option Process
unfolding end_stop
stop signals ended s = elim s.process [
  | none ↦ some s
  | some p ↦
      if not s.watcher
      then none
      else elim (deliver_all signals
          (note (terminate p) (record s { watcher = false; listening = false }))) [
            | none ↦ none
            | some t ↦ end_stop p ended t
          ]
]

pub data Event : Type 0 where
  start_requested : Event
  stop_requested : List Signal → Bool → Event
  sent : Signal → Event
  directory_changed : Bool → Event

unfoldable pub handle : Event → Process → Option Process
handle start_requested s = some (start s)
handle (stop_requested signals ended) s = stop signals ended s
handle (sent g) s = deliver g s
handle (directory_changed exists) s =
    let t = socket_available exists s in if s.listening then t else some s

unfoldable pub handle_all : List Event → Process → Option Process
handle_all [] s = some s
handle_all (e ∷ es) s = elim (handle e s) [ none ↦ none | some t ↦ handle_all es t ]
