-- ===== src/Platform/Logind.antt =====
-- src/platform/logind/logind.cpp: the connection with logind. Most requests are asynchronous: what
-- a method asks for is in `calls`, and the reply is an event of its own, which may come at any
-- time. An invalid reply is `none`. A descriptor of a reply is the copy that `dup` makes of it.
pub mod Told
pub mod Locks
use greenisland.Common.{
  ℕ, String, refl, Bool, true, false, not, ◌&&◌, ◌||◌, Option, none, some, List, [], ◌∷◌, ◌++◌,
  arith, ◌==◌, if◌then◌else◌, str_eq, length, contains, remove_one, ℤ, pos, negsuc, eq_ℤ, wrap32,
  eq_bool,
}

-- `InhibitFlags`.
pub record InhibitFlags : Type 0 where
  pub shutdown : Bool
  pub sleep : Bool
  pub idle : Bool
  pub power_key : Bool
  pub suspend_key : Bool
  pub hibernate_key : Bool
  pub lid_switch : Bool

pub data InhibitMode : Type 0 where
  block delay : InhibitMode

-- The messages to logind, the signals of it that are listened to, and the closing of a descriptor.
pub data Call : Type 0 where
  get_session_by_pid : Call
  get_session : String → Call
  listen_to_session listen_to_manager unlisten_manager listen_to_devices : Call
  activate get_active get_vt : String → Call
  inhibit_sleep : List String → String → String → String → Call
  lock unlock take_control release_control : String → Call
  take_device release_device : String → ℕ → ℕ → Call
  pause_device_complete : String → ℕ → ℕ → Call
  switch_to : ℕ → Call
  close_fd : ℕ → Call

pub data Signal : Type 0 where
  connected_changed session_active_changed inhibited_changed : Bool → Signal
  has_session_control_changed : Bool → Signal
  vt_number_changed : ℤ → Signal
  inhibited uninhibited : ℕ → Signal

-- `LogindPrivate`.
pub record Logind : Type 0 where
  pub is_connected : Bool
  pub has_session_control : Bool
  pub session_path : String
  pub session_active : Bool
  pub vt : ℤ
  pub inhibit_fds : List ℕ
  pub calls : List Call
  pub signals : List Signal

unfoldable pub init : Logind
init = record {
  is_connected = false;
  has_session_control = false;
  session_path = "";
  session_active = false;
  vt = negsuc 0;
  inhibit_fds = [];
  calls = [];
  signals = [];
}

abbrev pub call : Call → Logind → Logind
call c s = record s { calls = s.calls ++ c ∷ [] }

abbrev pub emit : Signal → Logind → Logind
emit e s = record s { signals = s.signals ++ e ∷ [] }

-- `XDG_SESSION_ID` is an argument, empty if it is not set.
unfoldable pub service_registered : String → Logind → Logind
service_registered id s =
    if str_eq id "" then call get_session_by_pid s else call (get_session id) s

unfoldable pub properties_changed : Logind → Logind
properties_changed s =
    if not s.is_connected || str_eq s.session_path ""
    then s
    else call (get_vt s.session_path) (call (get_active s.session_path) s)

unfoldable pub session_replied : Option String → Logind → Logind
unfolding properties_changed
session_replied reply s = if s.is_connected then s else elim reply [
  | none ↦ s
  | some path ↦
      let t = record s { session_path = path; is_connected = true } in
      let u = call (activate path) (call listen_to_manager (call listen_to_session t)) in
      emit (connected_changed true) (properties_changed u)
]

abbrev reset_active : Logind → Logind
reset_active s =
    if s.session_active
    then emit (session_active_changed false) (record s { session_active = false })
    else s

abbrev reset_vt : Logind → Logind
reset_vt s =
    if eq_ℤ s.vt (negsuc 0)
    then s
    else emit (vt_number_changed (negsuc 0)) (record s { vt = negsuc 0 })

unfoldable pub service_unregistered : Logind → Logind
service_unregistered s =
    let t = record (call unlisten_manager s) { is_connected = false } in
    reset_vt (reset_active (emit (connected_changed false) t))

-- The reply to `ListNames`: whether logind is among the names.
unfoldable pub names_replied : String → Option Bool → Logind → Logind
unfolding service_registered
names_replied id none s = s
names_replied id (some listed) s = if listed then service_registered id s else s

unfoldable pub active_replied : Option Bool → Logind → Logind
active_replied none s = s
active_replied (some active) s =
    if eq_bool s.session_active active
    then s
    else emit (session_active_changed active) (record s { session_active = active })

-- The number is unsigned, and kept as an `int`.
unfoldable pub vt_replied : Option ℕ → Logind → Logind
vt_replied none s = s
vt_replied (some n) s =
    let vt = wrap32 (pos n) in
    if eq_ℤ s.vt vt then s else emit (vt_number_changed vt) (record s { vt = vt })

abbrev named : Bool → String → List String → List String
named flag name rest = if flag then name ∷ rest else rest

abbrev pub what : InhibitFlags → List String
what f = named f.shutdown "shutdown" (
    named f.sleep "sleep" (
      named f.idle "idle" (
        named f.power_key "handle-power-key" (
          named f.suspend_key "handle-suspend-key" (
            named f.hibernate_key "handle-hibernate-key"
              (named f.lid_switch "handle-lid-switch" []))))))

abbrev pub mode_string : InhibitMode → String
mode_string block = "block"
mode_string delay = "delay"

unfoldable pub inhibit : String → String → InhibitFlags → InhibitMode → Logind → Logind
inhibit who why flags mode s =
    if not s.is_connected then s else call (inhibit_sleep (what flags) who why (mode_string mode)) s

unfoldable pub inhibit_replied : Option ℕ → Logind → Logind
inhibit_replied none s = s
inhibit_replied (some fd) s =
    let t = record s { inhibit_fds = s.inhibit_fds ++ fd ∷ [] } in
    emit (inhibited fd) (if length t.inhibit_fds == 1 then emit (inhibited_changed true) t else t)

unfoldable pub uninhibit : ℕ → Logind → Logind
uninhibit fd s =
    if not s.is_connected || not (contains s.inhibit_fds fd)
    then s
    else (let t = record (call (close_fd fd) s) { inhibit_fds = remove_one s.inhibit_fds fd } in
        emit (uninhibited fd)
          (if length t.inhibit_fds == 0 then emit (inhibited_changed false) t else t))

-- A method that needs a session.
abbrev in_session : Logind → Bool
in_session s = s.is_connected && not (str_eq s.session_path "")

unfoldable pub lock_session : Logind → Logind
lock_session s = if in_session s then call (lock s.session_path) s else s

unfoldable pub unlock_session : Logind → Logind
unlock_session s = if in_session s then call (unlock s.session_path) s else s

unfoldable pub take_session_control : Logind → Logind
take_session_control s =
    if in_session s && not s.has_session_control then call (take_control s.session_path) s else s

unfoldable pub control_replied : Bool → Logind → Logind
control_replied taken s =
    let t = emit (has_session_control_changed taken) (record s { has_session_control = taken }) in
    if taken then call listen_to_devices t else t

unfoldable pub release_session_control : Logind → Logind
release_session_control s =
    if in_session s && s.has_session_control
    then emit (has_session_control_changed false)
        (record (call (release_control s.session_path) s) { has_session_control = false })
    else s

-- A device by its numbers, if `stat` succeeds, and the descriptor of the reply, if it is valid.
unfoldable pub take_device_of : Option (ℕ × ℕ) → Option ℕ → Logind → Option ℕ × Logind
take_device_of none reply s = (none, s)
take_device_of (some (a, b)) reply s = (reply, call (take_device s.session_path a b) s)

unfoldable pub release_device_of : Option (ℕ × ℕ) → Logind → Logind
release_device_of none s = s
release_device_of (some (a, b)) s = call (release_device s.session_path a b) s

-- The signals and replies of logind, and what the program asks.
pub data Event : Type 0 where
  registered : String → Event
  names : String → Option Bool → Event
  unregistered changed : Event
  session : Option String → Event
  active : Option Bool → Event
  vt_number : Option ℕ → Event
  inhibit_asked : String → String → InhibitFlags → InhibitMode → Event
  inhibit_answered : Option ℕ → Event
  uninhibit_asked : ℕ → Event
  lock_asked unlock_asked control_asked control_released : Event
  control_answered : Bool → Event
  device_taken : Option (ℕ × ℕ) → Option ℕ → Event
  device_released : Option (ℕ × ℕ) → Event
  device_paused : ℕ → ℕ → Event
  switch_asked : ℕ → Event

unfoldable pub handle : Event → Logind → Logind
unfolding service_registered properties_changed session_replied service_unregistered names_replied
    active_replied vt_replied inhibit inhibit_replied uninhibit lock_session unlock_session
    take_session_control control_replied release_session_control take_device_of release_device_of
handle (registered id) s = service_registered id s
handle (names id reply) s = names_replied id reply s
handle unregistered s = service_unregistered s
handle changed s = properties_changed s
handle (session reply) s = session_replied reply s
handle (active reply) s = active_replied reply s
handle (vt_number reply) s = vt_replied reply s
handle (inhibit_asked who why flags mode) s = inhibit who why flags mode s
handle (inhibit_answered reply) s = inhibit_replied reply s
handle (uninhibit_asked fd) s = uninhibit fd s
handle lock_asked s = lock_session s
handle unlock_asked s = unlock_session s
handle control_asked s = take_session_control s
handle control_released s = release_session_control s
handle (control_answered taken) s = control_replied taken s
handle (device_taken numbers reply) s = (take_device_of numbers reply s).1
handle (device_released numbers) s = release_device_of numbers s
handle (device_paused a b) s = call (pause_device_complete s.session_path a b) s
handle (switch_asked n) s = call (switch_to n) s

unfoldable pub handle_all : List Event → Logind → Logind
unfolding handle
handle_all [] s = s
handle_all (e ∷ es) s = handle_all es (handle e s)
