-- ===== src/Server/Tests/Outputs.antt =====
-- The theorems about the outputs of the compositor at concrete inputs.
use greenisland.Common.{
  ℕ, ◌≡◌, refl, ap, ◌∙◌, ◌≢◌, inl, inr, Bool, true, false, ◌&&◌, some, List, [], ◌∷◌, ◌++◌, arith,
  ◌==◌, if◌then◌else◌, ==_iff, Bool-cases, length, get_elem?, All, pos, eq_size, eq_size_iff, Rect,
}
use greenisland.Server.Screen.{Mode, Screen, new_screen}
use greenisland.Server.QuickOutput.{QuickOutput, new_output, initialize}
use greenisland.Server.QuickOutput.HotSpots.{Moves, moves, IsSpacedBetween, moves-AreSpaced}
use greenisland.Server.QuickOutput.Modes.{DoesAppend, initialize_lem}

abbrev monitor : Rect
monitor = record { left = pos 0; top = pos 0; right = pos 1919; bottom = pos 1079 }

-- Into the corner, on in it, out of it, and back in it.
abbrev pushes : Moves
pushes =
    (2000, record { x = pos 2; y = pos 2 })
    ∷ (2020, record { x = pos 1; y = pos 1 })
    ∷ (2500, record { x = pos 300; y = pos 300 })
    ∷ (4000, record { x = pos 1; y = pos 1 })
    ∷ []

abbrev plain_output : QuickOutput ℕ
plain_output = new_output monitor

moves-AreSpaced_example : IsSpacedBetween 1000 0 [] (moves pushes plain_output).signals
unfolding new_output
moves-AreSpaced_example = moves-AreSpaced pushes 2000 plain_output (omega arith) (
  omega arith,
  omega arith,
  (omega arith, omega arith, (omega arith, omega arith, (omega arith, omega arith, tt))),
)

abbrev entered : QuickOutput ℕ
entered = record plain_output { hot_spot_entered = 2000 }

abbrev small_mode : Mode ℕ
small_mode = record { size = record { width = pos 800; height = pos 600 }; refresh_rate = 60 }

abbrev large_mode : Mode ℕ
large_mode = record { size = record { width = pos 1920; height = pos 1080 }; refresh_rate = 60 }

abbrev two_modes : Screen ℕ
two_modes = record (new_screen (0, 0)) {
  modes = small_mode ∷ large_mode ∷ [];
  current_mode = pos 0;
  preferred_mode = pos 1;
}

abbrev eq_mode : Mode ℕ → Mode ℕ → Bool
eq_mode a b = eq_size a.size b.size && (a.refresh_rate == b.refresh_rate)

-- `addMode` on modes that are numbers: no other mode is preferred any more, and a mode that is there
-- gets the flag.
abbrev clear_preferred : List (Mode ℕ × Bool) → List (Mode ℕ × Bool)
clear_preferred [] = []
clear_preferred (p ∷ ps) = (p.0, false) ∷ clear_preferred ps

abbrev put_mode : Mode ℕ → Bool → List (Mode ℕ × Bool) → List (Mode ℕ × Bool)
put_mode m f [] = (m, f) ∷ []
put_mode m f (p ∷ ps) =
    let rest = put_mode m f ps in if eq_mode p.0 m then (p.0, f) ∷ ps else p ∷ rest

abbrev add_mode : Mode ℕ → Bool → List (Mode ℕ × Bool) → List (Mode ℕ × Bool)
add_mode m f l = put_mode m f (if f then clear_preferred l else l)

clear_preferred_same : (l : List (Mode ℕ × Bool)) → All (λ p. p.1 ≡ false) l → clear_preferred l ≡ l
clear_preferred_same [] h = refl
clear_preferred_same (p ∷ ps) h = ground (arith, h.0, clear_preferred_same ps h.1)

eq_mode_sound : (a b : Mode ℕ) → eq_mode a b ≡ true → a ≡ b
eq_mode_sound a b h =
    ground (arith, h, eq_size_iff a.size b.size, ==_iff a.refresh_rate b.refresh_rate)

put_mode_new :
    (m : Mode ℕ) (f : Bool) (l : List (Mode ℕ × Bool))
    → All (λ p. p.0 ≢ m) l
    → put_mode m f l ≡ l ++ (m, f) ∷ []
put_mode_new m f [] h = refl
put_mode_new m f (p ∷ ps) h = elim (Bool-cases (eq_mode p.0 m)) [
  | inl same ↦ absurd (h.0 (eq_mode_sound p.0 m same))
  | inr other ↦ ground (arith, other, put_mode_new m f ps h.1)
]

add_mode-DoesAppend : DoesAppend add_mode
add_mode-DoesAppend m false l fresh flags = put_mode_new m false l fresh
add_mode-DoesAppend m true l fresh (inl e) = cc
add_mode-DoesAppend m true l fresh (inr none_yet) =
    ap (put_mode m true) (clear_preferred_same l none_yet) ∙ put_mode_new m true l fresh

initialize_lem_example :
    (t : QuickOutput ℕ) × ((initialize add_mode true false
          (record plain_output { native_screen = some two_modes })
        ≡ some t)
      × (t.is_initialized ≡ true)
      × (t.current_mode ≡ some small_mode)
      × (length t.modes ≡ 2)
      × (get_elem? t.modes 1 ≡ some (large_mode, true)))
unfolding new_output new_screen
initialize_lem_example =
    initialize_lem add_mode (record plain_output { native_screen = some two_modes }) two_modes
      small_mode large_mode 1 add_mode-DoesAppend refl refl ((λ e. ground (arith, e), tt), (tt, tt))
      refl refl
