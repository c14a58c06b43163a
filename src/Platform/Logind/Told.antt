-- ===== src/Platform/Logind/Told.antt =====
-- What those who listen to the signals know.
use greenisland.Common.{
  ℕ, String, ◌≡◌, refl, ◌⊎◌, inl, inr, Bool, true, false, not, Option, none, some, List, [], ◌∷◌,
  ◌++◌, arith, ◌==◌, length, contains, remove_one, ℤ, pos, negsuc, eq_ℤ_iff, wrap32,
}
use greenisland.Platform.Logind.{
  registered, names, unregistered, changed, session, active, vt_number, inhibit_asked,
  inhibit_answered, uninhibit_asked, lock_asked, unlock_asked, control_asked, control_released,
  control_answered, device_taken, device_released, device_paused, switch_asked, inhibited,
  uninhibited, inhibited_changed, has_session_control_changed, Signal, connected_changed,
  session_active_changed, vt_number_changed, Logind, service_unregistered, active_replied,
  vt_replied, session_replied, control_replied, release_session_control, inhibit_replied, uninhibit,
  handle, handle_all, init, properties_changed, service_registered, Event, names_replied, inhibit,
  lock_session, unlock_session, take_session_control, take_device_of, release_device_of,
}

-- The properties of the session, as `isConnected` and the other methods give them.
pub record Properties : Type 0 where
  pub connected : Bool
  pub control : Bool
  pub session_active : Bool
  pub number : ℤ
  pub is_inhibited : Bool

abbrev is_nonempty : List ℕ → Bool
is_nonempty [] = false
is_nonempty (_ ∷ _) = true

abbrev pub properties : Logind → Properties
properties s = record {
  connected = s.is_connected;
  control = s.has_session_control;
  session_active = s.session_active;
  number = s.vt;
  is_inhibited = is_nonempty s.inhibit_fds;
}

-- A listener that keeps the last value of each signal.
abbrev pub hear : Signal → Properties → Properties
hear (connected_changed v) p = record p { connected = v }
hear (has_session_control_changed v) p = record p { control = v }
hear (session_active_changed v) p = record p { session_active = v }
hear (vt_number_changed v) p = record p { number = v }
hear (inhibited_changed v) p = record p { is_inhibited = v }
hear _ p = p

abbrev pub hear_all : List Signal → Properties → Properties
hear_all [] p = p
hear_all (e ∷ es) p = hear_all es (hear e p)

hear_all-append :
    (es : List Signal) (e : Signal) (p : Properties)
    → hear_all (es ++ e ∷ []) p ≡ hear e (hear_all es p)
hear_all-append [] e p = refl
hear_all-append (x ∷ xs) e p = hear_all-append xs e (hear x p)

abbrev nothing_heard : Properties
nothing_heard = record {
  connected = false;
  control = false;
  session_active = false;
  number = negsuc 0;
  is_inhibited = false;
}

abbrev pub Knows : List Signal → Properties → Type 0
Knows es p = hear_all es nothing_heard ≡ p

Knows-append :
    (es : List Signal) (e : Signal) (p q : Properties)
    → Knows es p
    → hear e p ≡ q
    → Knows (es ++ e ∷ []) q
Knows-append es e p q h next = rw (hear_all-append es e nothing_heard, h) next

service_unregistered-Knows :
    (s : Logind)
    → Knows s.signals (properties s)
    → Knows (service_unregistered s).signals (properties (service_unregistered s))
unfolding service_unregistered
service_unregistered-Knows s h =
    let e1 = connected_changed false in
    let p = properties s in
    let p1 = record p { connected = false } in
    let p2 = record p1 { session_active = false } in
    let s1 = s.signals ++ e1 ∷ [] in
    let k1 = Knows-append s.signals e1 p p1 h refl in
    let k2 = Knows-append s1 (session_active_changed false) p1 p2 k1 refl in
    let k3 =
      Knows-append s1 (vt_number_changed (negsuc 0)) p1 (record p1 { number = negsuc 0 }) k1 refl in
    let k4 =
      Knows-append (s1 ++ session_active_changed false ∷ []) (vt_number_changed (negsuc 0)) p2
        (record p2 { number = negsuc 0 }) k2 refl in
    ground (arith, k1, k2, k3, k4, eq_ℤ_iff s.vt (negsuc 0))

active_replied-Knows :
    (reply : Option Bool) (s : Logind)
    → Knows s.signals (properties s)
    → Knows (active_replied reply s).signals (properties (active_replied reply s))
unfolding active_replied
active_replied-Knows none s h = h
active_replied-Knows (some v) s h =
    let told =
      Knows-append s.signals (session_active_changed v) (properties s)
        (record (properties s) { session_active = v }) h refl in
    ground (arith, h, told)

vt_replied-Knows :
    (reply : Option ℕ) (s : Logind)
    → Knows s.signals (properties s)
    → Knows (vt_replied reply s).signals (properties (vt_replied reply s))
unfolding vt_replied
vt_replied-Knows none s h = h
vt_replied-Knows (some n) s h =
    let v = wrap32 (pos n) in
    let told =
      Knows-append s.signals (vt_number_changed v) (properties s)
        (record (properties s) { number = v }) h refl in
    ground (arith, h, told)

session_replied-Knows :
    (reply : Option String) (s : Logind)
    → Knows s.signals (properties s)
    → Knows (session_replied reply s).signals (properties (session_replied reply s))
unfolding session_replied properties_changed
session_replied-Knows none s h = ground (arith, h)
session_replied-Knows (some path) s h =
    let told =
      Knows-append s.signals (connected_changed true) (properties s)
        (record (properties s) { connected = true }) h refl in
    ground (arith, h, told)

control_replied-Knows :
    (taken : Bool) (s : Logind)
    → Knows s.signals (properties s)
    → Knows (control_replied taken s).signals (properties (control_replied taken s))
unfolding control_replied
control_replied-Knows taken s h =
    let told =
      Knows-append s.signals (has_session_control_changed taken) (properties s)
        (record (properties s) { control = taken }) h refl in
    ground (arith, told)

release_session_control-Knows :
    (s : Logind)
    → Knows s.signals (properties s)
    → Knows (release_session_control s).signals (properties (release_session_control s))
unfolding release_session_control
release_session_control-Knows s h =
    let told =
      Knows-append s.signals (has_session_control_changed false) (properties s)
        (record (properties s) { control = false }) h refl in
    ground (arith, h, told)

-- A list with an item at its end has one item if it had none, and is not empty either way.
nonempty-append : (l : List ℕ) (a : ℕ) → is_nonempty (l ++ a ∷ []) ≡ true
nonempty-append [] a = refl
nonempty-append (x ∷ xs) a = refl

nonempty_before :
    (l : List ℕ) (a : ℕ) → ((length (l ++ a ∷ []) == 1) ≡ true) ⊎ (is_nonempty l ≡ true)
nonempty_before [] a = inl refl
nonempty_before (x ∷ xs) a = inr refl

nonempty_iff : (l : List ℕ) → is_nonempty l ≡ not (length l == 0)
nonempty_iff [] = refl
nonempty_iff (x ∷ xs) = ground arith

inhibit_replied-Knows :
    (reply : Option ℕ) (s : Logind)
    → Knows s.signals (properties s)
    → Knows (inhibit_replied reply s).signals (properties (inhibit_replied reply s))
unfolding inhibit_replied
inhibit_replied-Knows none s h = h
inhibit_replied-Knows (some fd) s h =
    let p = record (properties s) { is_inhibited = true } in
    let k1 = Knows-append s.signals (inhibited_changed true) (properties s) p h refl in
    let k2 = Knows-append (s.signals ++ inhibited_changed true ∷ []) (inhibited fd) p p k1 refl in
    let k3 = Knows-append s.signals (inhibited fd) (properties s) (properties s) h refl in
    ground (arith, h, k2, k3, nonempty-append s.inhibit_fds fd, nonempty_before s.inhibit_fds fd)

nonempty_of_contains : (l : List ℕ) (a : ℕ) → contains l a ≡ true → is_nonempty l ≡ true
nonempty_of_contains [] a h = cc
nonempty_of_contains (x ∷ xs) a h = refl

uninhibit-Knows :
    (fd : ℕ) (s : Logind)
    → Knows s.signals (properties s)
    → Knows (uninhibit fd s).signals (properties (uninhibit fd s))
unfolding uninhibit
uninhibit-Knows fd s h =
    let p = record (properties s) { is_inhibited = false } in
    let k1 = Knows-append s.signals (inhibited_changed false) (properties s) p h refl in
    let k2 =
      Knows-append (s.signals ++ inhibited_changed false ∷ []) (uninhibited fd) p p k1 refl in
    let k3 = Knows-append s.signals (uninhibited fd) (properties s) (properties s) h refl in
    ground (
      arith,
      h,
      k2,
      k3,
      nonempty_iff (remove_one s.inhibit_fds fd),
      nonempty_of_contains s.inhibit_fds fd,
    )

handle-Knows :
    (e : Event) (s : Logind)
    → Knows s.signals (properties s)
    → Knows (handle e s).signals (properties (handle e s))
unfolding handle service_registered properties_changed names_replied inhibit lock_session
    unlock_session take_session_control take_device_of release_device_of
handle-Knows (registered id) s h = ground (arith, h)
handle-Knows (names id reply) s h = ground (arith, h)
handle-Knows unregistered s h = service_unregistered-Knows s h
handle-Knows changed s h = ground (arith, h)
handle-Knows (session reply) s h = session_replied-Knows reply s h
handle-Knows (active reply) s h = active_replied-Knows reply s h
handle-Knows (vt_number reply) s h = vt_replied-Knows reply s h
handle-Knows (inhibit_asked who why flags mode) s h = ground (arith, h)
handle-Knows (inhibit_answered reply) s h = inhibit_replied-Knows reply s h
handle-Knows (uninhibit_asked fd) s h = uninhibit-Knows fd s h
handle-Knows lock_asked s h = ground (arith, h)
handle-Knows unlock_asked s h = ground (arith, h)
handle-Knows control_asked s h = ground (arith, h)
handle-Knows control_released s h = release_session_control-Knows s h
handle-Knows (control_answered taken) s h = control_replied-Knows taken s h
handle-Knows (device_taken none reply) s h = h
handle-Knows (device_taken (some (a, b)) reply) s h = h
handle-Knows (device_released none) s h = h
handle-Knows (device_released (some (a, b))) s h = h
handle-Knows (device_paused a b) s h = h
handle-Knows (switch_asked n) s h = h

handle_all-Knows_from :
    (es : List Event) (s : Logind)
    → Knows s.signals (properties s)
    → Knows (handle_all es s).signals (properties (handle_all es s))
unfolding handle_all
handle_all-Knows_from [] s h = h
handle_all-Knows_from (e ∷ es) s h = handle_all-Knows_from es (handle e s) (handle-Knows e s h)

-- Whatever logind answers and the program asks, in whatever order: a listener that started with a
-- new object and keeps the last value of each signal knows the connection, the control of the
-- session, its activity, its terminal and whether there is an inhibition, as the methods give them.
pub handle_all-Knows :
    (es : List Event) → Knows (handle_all es init).signals (properties (handle_all es init))
unfolding init
handle_all-Knows es = handle_all-Knows_from es init refl
