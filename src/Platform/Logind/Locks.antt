-- ===== src/Platform/Logind/Locks.antt =====
-- The inhibition locks that are held, and what a lost connection leaves behind.
use greenisland.Common.{
  ℕ, ◌+◌, String, ◌≡◌, refl, inl, inr, Bool, true, false, Option, none, some, List, [], ◌∷◌, ◌++◌,
  arith, ◌==◌, if◌then◌else◌, ==_iff, Bool-cases, contains, remove_one, pos, negsuc, wrap32,
}
use greenisland.Platform.Logind.{
  what, mode_string, inhibited_changed, has_session_control_changed, connected_changed,
  session_active_changed, vt_number_changed, registered, names, unregistered, changed, session,
  active, vt_number, inhibit_asked, inhibit_answered, uninhibit_asked, lock_asked, unlock_asked,
  control_asked, control_released, control_answered, device_taken, device_released, device_paused,
  switch_asked, get_session_by_pid, get_session, listen_to_session, listen_to_manager,
  unlisten_manager, listen_to_devices, activate, get_active, get_vt, inhibit_sleep, lock, unlock,
  take_control, release_control, take_device, release_device, pause_device_complete, switch_to,
  handle_all, handle, Call, close_fd, Signal, inhibited, Logind, call, emit, service_unregistered,
  properties_changed, session_replied, active_replied, vt_replied, inhibit_replied, uninhibit,
  control_replied, release_session_control, service_registered, Event, init, uninhibited,
  names_replied, take_session_control, inhibit, lock_session, unlock_session, take_device_of,
  release_device_of,
}

-- The descriptor that a signal says was acquired, and the one that a call closes.
abbrev acquires : ℕ → Signal → ℕ
acquires fd (inhibited x) = if x == fd then 1 else 0
acquires fd _ = 0

abbrev closes : ℕ → Call → ℕ
closes fd (close_fd x) = if x == fd then 1 else 0
closes fd _ = 0

-- The sum over a list.
abbrev total {ℓ} : {A : Type ℓ} → (A → ℕ) → List A → ℕ
total f [] = 0
total f (x ∷ xs) = f x + total f xs

total-append {ℓ} :
    {A : Type ℓ} (f : A → ℕ) (xs : List A) (x : A) → total f (xs ++ x ∷ []) ≡ total f xs + f x
total-append f [] x = omega arith
total-append f (y ∷ ys) x = omega (arith, total-append f ys x)

abbrev is_it : ℕ → ℕ → ℕ
is_it fd x = if x == fd then 1 else 0

total-remove_one :
    (fd a : ℕ) (l : List ℕ)
    → contains l a ≡ true
    → total (is_it fd) (remove_one l a) + is_it fd a ≡ total (is_it fd) l
total-remove_one fd a [] h = cc
total-remove_one fd a (x ∷ xs) h = elim (Bool-cases (x == a)) [
  | inl same ↦ ground (arith, same, ==_iff x a)
  | inr other ↦ ground (arith, other, h, total-remove_one fd a xs)
]

-- How often a descriptor was acquired, was closed and is held.
abbrev pub acquired : ℕ → Logind → ℕ
acquired fd s = total (acquires fd) s.signals

abbrev pub closed : ℕ → Logind → ℕ
closed fd s = total (closes fd) s.calls

abbrev pub held : ℕ → Logind → ℕ
held fd s = total (is_it fd) s.inhibit_fds

-- What is acquired has been closed or is held.
abbrev AreBalanced : ℕ → List Signal → List Call → List ℕ → Type 0
AreBalanced fd signals calls fds =
    total (acquires fd) signals ≡ total (closes fd) calls + total (is_it fd) fds

abbrev IsBalanced : ℕ → Logind → Type 0
IsBalanced fd s = AreBalanced fd s.signals s.calls s.inhibit_fds

module _ (fd : ℕ) where
  call-IsBalanced :
      (c : Call) (s : Logind) → closes fd c ≡ 0 → IsBalanced fd s → IsBalanced fd (call c s)
  call-IsBalanced c s other b = omega (arith, total-append (closes fd) s.calls c, other, b)

  emit-IsBalanced :
      (e : Signal) (s : Logind) → acquires fd e ≡ 0 → IsBalanced fd s → IsBalanced fd (emit e s)
  emit-IsBalanced e s other b = omega (arith, total-append (acquires fd) s.signals e, other, b)

  service_unregistered-IsBalanced :
      (s : Logind) → IsBalanced fd s → IsBalanced fd (service_unregistered s)
  unfolding service_unregistered
  service_unregistered-IsBalanced s b =
      let e1 = connected_changed false in
      let t = record (call unlisten_manager s) { is_connected = false } in
      let b1 = emit-IsBalanced e1 t refl (call-IsBalanced unlisten_manager s refl b) in
      let e2 = session_active_changed false in
      let e3 = vt_number_changed (negsuc 0) in
      let s1 = emit e1 t in
      let b2 = emit-IsBalanced e2 s1 refl b1 in
      let b3 = emit-IsBalanced e3 s1 refl b1 in
      let b4 = emit-IsBalanced e3 (emit e2 s1) refl b2 in ground (arith, b1, b2, b3, b4)

  properties_changed-IsBalanced :
      (s : Logind) → IsBalanced fd s → IsBalanced fd (properties_changed s)
  unfolding properties_changed
  properties_changed-IsBalanced s b =
      let first = call (get_active s.session_path) s in
      let b1 = call-IsBalanced (get_active s.session_path) s refl b in
      let b2 = call-IsBalanced (get_vt s.session_path) first refl b1 in ground (arith, b, b2)

  session_replied-IsBalanced :
      (reply : Option String) (s : Logind)
      → IsBalanced fd s
      → IsBalanced fd (session_replied reply s)
  unfolding session_replied
  session_replied-IsBalanced none s b = ground (arith, b)
  session_replied-IsBalanced (some path) s b =
      let t = record s { session_path = path; is_connected = true } in
      let t1 = call listen_to_session t in
      let t2 = call listen_to_manager t1 in
      let t3 = call (activate path) t2 in
      let b1 = call-IsBalanced listen_to_session t refl b in
      let b2 = call-IsBalanced listen_to_manager t1 refl b1 in
      let b3 = call-IsBalanced (activate path) t2 refl b2 in
      let b4 = properties_changed-IsBalanced t3 b3 in
      let b5 = emit-IsBalanced (connected_changed true) (properties_changed t3) refl b4 in
      ground (arith, b, b5)

  active_replied-IsBalanced :
      (reply : Option Bool) (s : Logind) → IsBalanced fd s → IsBalanced fd (active_replied reply s)
  unfolding active_replied
  active_replied-IsBalanced none s b = b
  active_replied-IsBalanced (some v) s b =
      let b1 = emit-IsBalanced (session_active_changed v) s refl b in ground (arith, b, b1)

  vt_replied-IsBalanced :
      (reply : Option ℕ) (s : Logind) → IsBalanced fd s → IsBalanced fd (vt_replied reply s)
  unfolding vt_replied
  vt_replied-IsBalanced none s b = b
  vt_replied-IsBalanced (some n) s b =
      let b1 = emit-IsBalanced (vt_number_changed (wrap32 (pos n))) s refl b in
      ground (arith, b, b1)

  inhibit_replied-IsBalanced :
      (reply : Option ℕ) (s : Logind) → IsBalanced fd s → IsBalanced fd (inhibit_replied reply s)
  unfolding inhibit_replied
  inhibit_replied-IsBalanced none s b = b
  inhibit_replied-IsBalanced (some x) s b =
      let more = total-append (is_it fd) s.inhibit_fds x in
      let told = s.signals ++ inhibited_changed true ∷ [] in
      ground (
        arith,
        b,
        more,
        total-append (acquires fd) s.signals (inhibited_changed true),
        total-append (acquires fd) told (inhibited x),
        total-append (acquires fd) s.signals (inhibited x),
      )

  uninhibit-IsBalanced : (x : ℕ) (s : Logind) → IsBalanced fd s → IsBalanced fd (uninhibit x s)
  unfolding uninhibit
  uninhibit-IsBalanced x s b =
      let told = s.signals ++ inhibited_changed false ∷ [] in
      ground (
        arith,
        b,
        total-remove_one fd x s.inhibit_fds,
        total-append (closes fd) s.calls (close_fd x),
        total-append (acquires fd) s.signals (inhibited_changed false),
        total-append (acquires fd) told (uninhibited x),
        total-append (acquires fd) s.signals (uninhibited x),
      )

  control_replied-IsBalanced :
      (taken : Bool) (s : Logind) → IsBalanced fd s → IsBalanced fd (control_replied taken s)
  unfolding control_replied
  control_replied-IsBalanced taken s b =
      let t = record s { has_session_control = taken } in
      let b1 = emit-IsBalanced (has_session_control_changed taken) t refl b in
      let b2 =
        call-IsBalanced listen_to_devices (emit (has_session_control_changed taken) t) refl b1 in
      ground (arith, b1, b2)

  release_session_control-IsBalanced :
      (s : Logind) → IsBalanced fd s → IsBalanced fd (release_session_control s)
  unfolding release_session_control
  release_session_control-IsBalanced s b =
      let c = release_control s.session_path in
      let b1 = call-IsBalanced c s refl b in
      let b2 =
        emit-IsBalanced (has_session_control_changed false)
          (record (call c s) { has_session_control = false }) refl b1 in
      ground (arith, b, b2)

  handle-IsBalanced : (e : Event) (s : Logind) → IsBalanced fd s → IsBalanced fd (handle e s)
  unfolding handle service_registered names_replied inhibit lock_session unlock_session
      take_session_control take_device_of release_device_of
  handle-IsBalanced (registered id) s b =
      let b1 = call-IsBalanced get_session_by_pid s refl b in
      let b2 = call-IsBalanced (get_session id) s refl b in ground (arith, b1, b2)
  handle-IsBalanced (names id none) s b = b
  handle-IsBalanced (names id (some listed)) s b =
      let b1 = call-IsBalanced get_session_by_pid s refl b in
      let b2 = call-IsBalanced (get_session id) s refl b in ground (arith, b, b1, b2)
  handle-IsBalanced unregistered s b = service_unregistered-IsBalanced s b
  handle-IsBalanced changed s b = properties_changed-IsBalanced s b
  handle-IsBalanced (session reply) s b = session_replied-IsBalanced reply s b
  handle-IsBalanced (active reply) s b = active_replied-IsBalanced reply s b
  handle-IsBalanced (vt_number reply) s b = vt_replied-IsBalanced reply s b
  handle-IsBalanced (inhibit_asked who why flags mode) s b =
      let c = inhibit_sleep (what flags) who why (mode_string mode) in
      ground (arith, b, call-IsBalanced c s refl b)
  handle-IsBalanced (inhibit_answered reply) s b = inhibit_replied-IsBalanced reply s b
  handle-IsBalanced (uninhibit_asked x) s b = uninhibit-IsBalanced x s b
  handle-IsBalanced lock_asked s b =
      ground (arith, b, call-IsBalanced (lock s.session_path) s refl b)
  handle-IsBalanced unlock_asked s b =
      ground (arith, b, call-IsBalanced (unlock s.session_path) s refl b)
  handle-IsBalanced control_asked s b =
      ground (arith, b, call-IsBalanced (take_control s.session_path) s refl b)
  handle-IsBalanced control_released s b = release_session_control-IsBalanced s b
  handle-IsBalanced (control_answered taken) s b = control_replied-IsBalanced taken s b
  handle-IsBalanced (device_taken none reply) s b = b
  handle-IsBalanced (device_taken (some (x, y)) reply) s b =
      call-IsBalanced (take_device s.session_path x y) s refl b
  handle-IsBalanced (device_released none) s b = b
  handle-IsBalanced (device_released (some (x, y))) s b =
      call-IsBalanced (release_device s.session_path x y) s refl b
  handle-IsBalanced (device_paused x y) s b =
      call-IsBalanced (pause_device_complete s.session_path x y) s refl b
  handle-IsBalanced (switch_asked n) s b = call-IsBalanced (switch_to n) s refl b

  handle_all-IsBalanced :
      (es : List Event) (s : Logind) → IsBalanced fd s → IsBalanced fd (handle_all es s)
  unfolding handle_all
  handle_all-IsBalanced [] s b = b
  handle_all-IsBalanced (e ∷ es) s b =
      handle_all-IsBalanced es (handle e s) (handle-IsBalanced e s b)

-- Whatever logind answers and the program asks: every descriptor of an inhibition was acquired as
-- often as it was closed and is held, so that none is closed that is not held, and none is lost.
pub locks_balanced :
    (fd : ℕ) (es : List Event)
    → let s = handle_all es init in acquired fd s ≡ closed fd s + held fd s
unfolding init
locks_balanced fd es = handle_all-IsBalanced fd es init refl

-- When the connection to logind is lost and comes back, a program that had the control of the
-- session still believes so, and does not ask for it again; and a reply that was under way when
-- the connection was lost makes the session active although there is no connection.
reconnect_keeps_control :
    (s : Logind) (path : String)
    → s.has_session_control ≡ true
    → let t = handle_all (unregistered ∷ session (some path) ∷ []) s in
      let u = handle_all (unregistered ∷ active (some true) ∷ []) s in
      (t.is_connected ≡ true)
      × (t.has_session_control ≡ true)
      × (handle control_asked t ≡ t)
      × (u.is_connected ≡ false)
      × (u.session_active ≡ true)
unfolding handle_all handle service_unregistered session_replied properties_changed
    take_session_control active_replied
reconnect_keeps_control s path h =
    (ground (arith, h), ground (arith, h), ground (arith, h), ground (arith, h), ground (arith, h))
