-- ===== src/Server/Window/Roles.antt =====
-- The kind, the parent and the states of a window under the requests of wl_shell.
use mathlib.Core.Path.{subst}
use greenisland.Common.{
  ℕ, String, ◌≡◌, refl, sym, ap, ◌∙◌, ◌≢◌, ◌↔◌, ◌⊎◌, inl, inr, Bool, true, false, Option, none,
  List, [], ◌∷◌, arith, str_eq_iff,
}
use greenisland.Server.Applications.{Kind, top_level, popup, transient}
use greenisland.Server.Window.{
  ClientWindow, new_window, eq_option, WlEvent, title, class_name, default_toplevel, full_screen,
  maximize, make_transient, make_popup, wl_event, set_type, set_parent_window, set_title,
  set_maximized, set_fullscreen,
}

eq_option_iff : (a b : Option ℕ) → (eq_option a b ≡ true) ↔ (a ≡ b)
eq_option_iff a b = ground arith

-- What the requests of wl_shell decide about a window.
pub record Role : Type 0 where
  pub kind : Kind
  pub parent : Option ℕ
  pub maximized : Bool
  pub fullscreen : Bool

abbrev pub role : ClientWindow → Role
role w = record {
  kind = w.kind;
  parent = w.parent;
  maximized = w.maximized;
  fullscreen = w.fullscreen;
}

-- The meaning of each request, with no test of the old value.
abbrev pub role_after : WlEvent → Role → Role
role_after (title t) r = r
role_after (class_name a) r = r
role_after default_toplevel r = record {
  kind = top_level;
  parent = none;
  maximized = false;
  fullscreen = false;
}
role_after (make_transient p) r = record {
  kind = transient;
  parent = p;
  maximized = false;
  fullscreen = false;
}
role_after full_screen r = record r { fullscreen = true }
role_after (make_popup p) r = record r { kind = popup; parent = p; maximized = false }
role_after maximize r = record r { maximized = true; fullscreen = false }

role-set_type : (k : Kind) (w : ClientWindow) → role (set_type k w) ≡ record (role w) { kind = k }
unfolding set_type
role-set_type k w = ground arith

role-set_parent_window :
    (p : Option ℕ) (w : ClientWindow)
    → role (set_parent_window p w) ≡ record (role w) { parent = p }
unfolding set_parent_window
role-set_parent_window p w = ground (arith, eq_option_iff w.parent p)

role-set_maximized :
    (b : Bool) (w : ClientWindow) → role (set_maximized b w) ≡ record (role w) { maximized = b }
unfolding set_maximized
role-set_maximized b w = ground arith

role-set_fullscreen :
    (b : Bool) (w : ClientWindow) → role (set_fullscreen b w) ≡ record (role w) { fullscreen = b }
unfolding set_fullscreen
role-set_fullscreen b w = ground arith

role-set_title : (t : String) (w : ClientWindow) → role (set_title t w) ≡ role w
unfolding set_title
role-set_title t w = ground arith

role-wl_event : (e : WlEvent) (w : ClientWindow) → role (wl_event e w) ≡ role_after e (role w)
unfolding wl_event
role-wl_event (title t) w = role-set_title t w
role-wl_event (class_name a) w = refl
role-wl_event default_toplevel w = cc (
  role-set_parent_window none w,
  role-set_maximized false (set_parent_window none w),
  role-set_fullscreen false (set_maximized false (set_parent_window none w)),
  role-set_type top_level (set_fullscreen false (set_maximized false (set_parent_window none w))),
)
role-wl_event (make_transient p) w = cc (
  role-set_parent_window p w,
  role-set_maximized false (set_parent_window p w),
  role-set_fullscreen false (set_maximized false (set_parent_window p w)),
  role-set_type transient (set_fullscreen false (set_maximized false (set_parent_window p w))),
)
role-wl_event full_screen w = role-set_fullscreen true w
role-wl_event (make_popup p) w = cc (
  role-set_parent_window p w,
  role-set_maximized false (set_parent_window p w),
  role-set_type popup (set_maximized false (set_parent_window p w)),
)
role-wl_event maximize w =
    cc (role-set_maximized true w, role-set_fullscreen false (set_maximized true w))

pub wl_events : List WlEvent → ClientWindow → ClientWindow
wl_events [] w = w
wl_events (e ∷ es) w = wl_events es (wl_event e w)

pub roles_after : List WlEvent → Role → Role
roles_after [] r = r
roles_after (e ∷ es) r = roles_after es (role_after e r)

-- After any requests of wl_shell the kind, the parent and the maximized and fullscreen states are
-- what the requests mean one after the other.
pub role-wl_events :
    (es : List WlEvent) (w : ClientWindow) → role (wl_events es w) ≡ roles_after es (role w)
unfolding wl_events roles_after
role-wl_events [] w = refl
role-wl_events (e ∷ es) w =
    role-wl_events es (wl_event e w) ∙ ap (roles_after es) (role-wl_event e w)

-- A window that is no transient and no popup has no parent.
abbrev pub IsRooted : Role → Type 0
IsRooted r = (r.kind ≡ transient) ⊎ (r.kind ≡ popup) ⊎ (r.parent ≡ none)

role_after-IsRooted : (e : WlEvent) (r : Role) → IsRooted r → IsRooted (role_after e r)
role_after-IsRooted (title t) r h = h
role_after-IsRooted (class_name a) r h = h
role_after-IsRooted default_toplevel r h = inr (inr refl)
role_after-IsRooted (make_transient p) r h = inl refl
role_after-IsRooted full_screen r h = h
role_after-IsRooted (make_popup p) r h = inr (inl refl)
role_after-IsRooted maximize r h = h

roles_after-IsRooted : (es : List WlEvent) (r : Role) → IsRooted r → IsRooted (roles_after es r)
unfolding roles_after
roles_after-IsRooted [] r h = h
roles_after-IsRooted (e ∷ es) r h =
    roles_after-IsRooted es (role_after e r) (role_after-IsRooted e r h)

-- After any requests of wl_shell to a new window, it has a parent only as a transient or a popup.
wl_events-IsRooted : (id : ℕ) (es : List WlEvent) → IsRooted (role (wl_events es (new_window id)))
unfolding new_window
wl_events-IsRooted id es =
    subst IsRooted (sym (role-wl_events es (new_window id)))
      (roles_after-IsRooted es (role (new_window id)) (inr (inr refl)))

-- A setter does nothing where the value is there.
module _ (w : ClientWindow) where
  set_type_same : (k : Kind) → w.kind ≡ k → set_type k w ≡ w
  unfolding set_type
  set_type_same k h = ground arith

  set_parent_window_same : (p : Option ℕ) → w.parent ≡ p → set_parent_window p w ≡ w
  unfolding set_parent_window
  set_parent_window_same p h = ground (arith, eq_option_iff w.parent p)

  set_maximized_same : (b : Bool) → w.maximized ≡ b → set_maximized b w ≡ w
  unfolding set_maximized
  set_maximized_same b h = ground arith

  set_fullscreen_same : (b : Bool) → w.fullscreen ≡ b → set_fullscreen b w ≡ w
  unfolding set_fullscreen
  set_fullscreen_same b h = ground arith

set_title_twice : (t : String) (w : ClientWindow) → set_title t (set_title t w) ≡ set_title t w
unfolding set_title
set_title_twice t w = ground (arith, str_eq_iff t t)

-- A request of wl_shell that asks for the role that a window has leaves it alone.
settled :
    (e : WlEvent) (w : ClientWindow)
    → ((a : String) → e ≢ class_name a)
    → ((t : String) → e ≢ title t)
    → role w ≡ role_after e (role w)
    → wl_event e w ≡ w
unfolding wl_event
settled (title t) w h k r = absurd (k t refl)
settled (class_name a) w h k r = absurd (h a refl)
settled default_toplevel w h k r = cc (
  set_parent_window_same w none (ap (λ x. x.parent) r),
  set_maximized_same w false (ap (λ x. x.maximized) r),
  set_fullscreen_same w false (ap (λ x. x.fullscreen) r),
  set_type_same w top_level (ap (λ x. x.kind) r),
)
settled (make_transient p) w h k r = cc (
  set_parent_window_same w p (ap (λ x. x.parent) r),
  set_maximized_same w false (ap (λ x. x.maximized) r),
  set_fullscreen_same w false (ap (λ x. x.fullscreen) r),
  set_type_same w transient (ap (λ x. x.kind) r),
)
settled full_screen w h k r = set_fullscreen_same w true (ap (λ x. x.fullscreen) r)
settled (make_popup p) w h k r = cc (
  set_parent_window_same w p (ap (λ x. x.parent) r),
  set_maximized_same w false (ap (λ x. x.maximized) r),
  set_type_same w popup (ap (λ x. x.kind) r),
)
settled maximize w h k r = cc (
  set_maximized_same w true (ap (λ x. x.maximized) r),
  set_fullscreen_same w false (ap (λ x. x.fullscreen) r),
)

role_after_twice : (e : WlEvent) (r : Role) → role_after e (role_after e r) ≡ role_after e r
role_after_twice (title t) r = refl
role_after_twice _ r = refl

settled_again :
    (e : WlEvent) (w : ClientWindow) → role (wl_event e w) ≡ role_after e (role (wl_event e w))
settled_again e w =
    role-wl_event e w
    ∙ sym (role_after_twice e (role w))
    ∙ ap (role_after e) (sym (role-wl_event e w))

-- Once more the same request of wl_shell, but for the class name, changes nothing and tells
-- nobody.
wl_event_again :
    (e : WlEvent) (w : ClientWindow)
    → ((a : String) → e ≢ class_name a)
    → wl_event e (wl_event e w) ≡ wl_event e w
unfolding wl_event
wl_event_again (title t) w h = set_title_twice t w
wl_event_again (class_name a) w h = absurd (h a refl)
wl_event_again default_toplevel w h =
    settled default_toplevel _ h (λ t. λ e. cc) (settled_again default_toplevel w)
wl_event_again (make_transient p) w h =
    settled (make_transient p) _ h (λ t. λ e. cc) (settled_again (make_transient p) w)
wl_event_again full_screen w h =
    settled full_screen _ h (λ t. λ e. cc) (settled_again full_screen w)
wl_event_again (make_popup p) w h =
    settled (make_popup p) _ h (λ t. λ e. cc) (settled_again (make_popup p) w)
wl_event_again maximize w h = settled maximize _ h (λ t. λ e. cc) (settled_again maximize w)
