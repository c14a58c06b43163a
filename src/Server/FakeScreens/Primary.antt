-- ===== src/Server/FakeScreens/Primary.antt =====
-- Which screens the fake backend makes, and which one becomes the primary one.
use mathlib.Core.List.{append-nil, append_assoc}
use mathlib.Core.Path.{ap₂}
use greenisland.Common.{
  ℕ, suc, ◌≡◌, refl, sym, ◌∙◌, Bool, true, false, ◌||◌, Option, none, some, List, [], ◌∷◌, ◌++◌,
  map, arith, if◌then◌else◌, length, set, length-append,
}
use greenisland.Server.Screen.{RealOps}
use greenisland.Server.FakeScreens.{
  Settings, outputs, Event, screen_added, primary_screen_changed, Backend, finished, crashed,
  make_screen, add_screen, add_screens, promote_first, acquire_configuration, primary_screen,
}

primary_screen-append :
    (es fs : List Event) (p : Option ℕ)
    → primary_screen (es ++ fs) p ≡ primary_screen fs (primary_screen es p)
unfolding primary_screen
primary_screen-append [] fs p = refl
primary_screen-append (screen_added i ∷ es) fs p = primary_screen-append es fs p
primary_screen-append (primary_screen_changed i ∷ es) fs p = primary_screen-append es fs (some i)

abbrev pub any_primary : List Settings → Bool
any_primary [] = false
any_primary (o ∷ os) = o.primary || any_primary os

-- The position of the last entry that is marked primary, counted from `i`.
abbrev pub last_primary : ℕ → List Settings → Option ℕ → Option ℕ
last_primary i [] p = p
last_primary i (o ∷ os) p = last_primary (suc i) os (if o.primary then some i else p)

-- A backend with no screen, and no event so far.
abbrev pub empty_backend : {R : Type 0} → Backend R
empty_backend = record { screens = []; events = [] }

module _ {R : Type 0} (ops : RealOps R) where
  add_screens-screens :
      (os : List Settings) (set : Bool) (b : Backend R)
      → (add_screens ops os set b).0.screens ≡ b.screens ++ map (make_screen ops) os
  unfolding add_screens add_screen
  add_screens-screens [] set b = sym (append-nil b.screens)
  add_screens-screens (o ∷ os) set b =
      add_screens-screens os (o.primary || set) (add_screen ops o b)
      ∙ append_assoc b.screens (make_screen ops o ∷ []) (map (make_screen ops) os)

  add_screens-flag :
      (os : List Settings) (set : Bool) (b : Backend R)
      → (add_screens ops os set b).1 ≡ (any_primary os || set)
  unfolding add_screens
  add_screens-flag [] set b = refl
  add_screens-flag (o ∷ os) set b =
      ground (arith, add_screens-flag os (o.primary || set) (add_screen ops o b))

  add_screen-primary :
      (o : Settings) (b : Backend R) (p : Option ℕ)
      → primary_screen (add_screen ops o b).events p
        ≡ (if o.primary then some (length b.screens) else primary_screen b.events p)
  unfolding add_screen primary_screen
  add_screen-primary o b p = ground (
    arith,
    primary_screen-append b.events
        (screen_added (length b.screens)
          ∷ (if o.primary then primary_screen_changed (length b.screens) ∷ [] else []))
        p,
  )

  length-add_screen :
      (o : Settings) (b : Backend R) → length (add_screen ops o b).screens ≡ suc (length b.screens)
  unfolding add_screen
  length-add_screen o b = omega (arith, length-append {0} b.screens (make_screen ops o ∷ []))

  add_screens-primary :
      (os : List Settings) (set : Bool) (b : Backend R) (p : Option ℕ)
      → primary_screen (add_screens ops os set b).0.events p
        ≡ last_primary (length b.screens) os (primary_screen b.events p)
  unfolding add_screens
  add_screens-primary [] set b p = refl
  add_screens-primary (o ∷ os) set b p =
      add_screens-primary os (o.primary || set) (add_screen ops o b) p
      ∙ ap₂ (λ n q. last_primary n os q) (length-add_screen o b) (add_screen-primary o b p)

  promoted :
      (r : Backend R × Bool) (o : Settings) (os : List Settings)
      → r.0.screens ≡ map (make_screen ops) (o ∷ os)
      → primary_screen r.0.events none ≡ last_primary 0 (o ∷ os) none
      → r.1 ≡ (any_primary (o ∷ os) || false)
      → (b : Backend R) × (promote_first r ≡ finished b)
        × (b.screens ≡ map (make_screen ops) (o ∷ os))
        × (primary_screen b.events none
            ≡ (if any_primary (o ∷ os) then last_primary 0 (o ∷ os) none else some 0))
  unfolding promote_first primary_screen
  promoted (b, true) o os screens primary flag = (b, refl, screens, ground (arith, primary, flag))
  promoted (b, false) o os screens primary flag = (
    record b { events = b.events ++ primary_screen_changed 0 ∷ [] },
    ground arith,
    screens,
    ground (arith, flag, primary_screen-append b.events (primary_screen_changed 0 ∷ []) none),
  )

  -- A configuration with at least one output gives one screen for each, in order, and makes the
  -- last output that is marked primary the primary screen, or the first one if none is marked.
  acquire_configuration_screens :
      (o : Settings) (os : List Settings)
      → (b : Backend R) × (acquire_configuration ops (outputs (o ∷ os)) empty_backend ≡ finished b)
        × (b.screens ≡ map (make_screen ops) (o ∷ os))
        × (primary_screen b.events none
            ≡ (if any_primary (o ∷ os) then last_primary 0 (o ∷ os) none else some 0))
  unfolding acquire_configuration primary_screen
  acquire_configuration_screens o os =
      let r = add_screens ops (o ∷ os) false empty_backend in
      let screens = add_screens-screens (o ∷ os) false empty_backend in
      let primary = add_screens-primary (o ∷ os) false empty_backend none in
      let flag = add_screens-flag (o ∷ os) false empty_backend in
      promoted r o os screens primary flag

  -- A configuration with no output ends in the access to the first of no screens.
  acquire_configuration_crashes :
      (b : Backend R) → b.screens ≡ [] → acquire_configuration ops (outputs []) b ≡ crashed
  unfolding acquire_configuration
  acquire_configuration_crashes b h = ground arith
