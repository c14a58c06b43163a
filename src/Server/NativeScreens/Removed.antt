-- ===== src/Server/NativeScreens/Removed.antt =====
-- The removal of a screen.
use greenisland.Common.{
  ℕ, zero, suc, ◌<◌, ◌≡◌, refl, ◌⊎◌, inl, inr, true, false, none, some, List, [], ◌∷◌, arith,
  Bool-cases, length, All, ◌++◌,
}
use greenisland.Server.Screen.{Screen}
use greenisland.Server.NativeScreens.{
  screen_removed, Event, Backend, stands_for, remove_loop, handle_screen_removed,
}

-- Some screen of a list stands for another screen of Qt.
abbrev pub HasOther : {R : Type 0} → ℕ → List (Screen R) → Type 0
HasOther q [] = ⊥
HasOther q (s ∷ ss) = (stands_for q s ≡ false) ⊎ HasOther q ss

remove_loop_stuck :
    {R : Type 0} (fuel q i : ℕ) (ss : List (Screen R)) (es : List Event)
    → HasOther q ss
    → remove_loop fuel q i ss es ≡ none
unfolding remove_loop
remove_loop_stuck zero q i ss es h = refl
remove_loop_stuck (suc fuel) q i [] es h = absurd h
remove_loop_stuck (suc fuel) q i (s ∷ ss) es h = elim (Bool-cases (stands_for q s)) [
  | inl hit ↦ elim h [
    | inl miss ↦ absurd (ground arith)
    | inr later ↦ rw hit (remove_loop_stuck fuel q (suc i) ss (es ++ screen_removed i ∷ []) later)
  ]
  | inr miss ↦ rw miss (remove_loop_stuck fuel q i (s ∷ ss) es h)
]

remove_loop_done :
    {R : Type 0} (fuel q i : ℕ) (ss : List (Screen R)) (es : List Event)
    → All (λ s. stands_for q s ≡ true) ss
    → length ss < fuel
    → (fs : List Event) × (remove_loop fuel q i ss es ≡ some fs)
unfolding remove_loop
remove_loop_done zero q i ss es h room = absurd (omega arith)
remove_loop_done (suc fuel) q i [] es h room = (es, refl)
remove_loop_done (suc fuel) q i (s ∷ ss) es h room =
    let (fs, e) =
      remove_loop_done fuel q (suc i) ss (es ++ screen_removed i ∷ []) h.1 (omega arith) in
    (fs, rw h.0 e)

-- If any screen of the backend stands for another screen of Qt, the loop that handles a removal
-- never ends, whatever the number of rounds.
handle_screen_removed_loops :
    {R : Type 0} (fuel q : ℕ) (b : Backend R)
    → HasOther q b.screens
    → handle_screen_removed fuel q b ≡ none
unfolding handle_screen_removed
handle_screen_removed_loops fuel q b h =
    rw (remove_loop_stuck fuel q 0 b.screens b.events h, handle_screen_removed)

-- If all screens stand for the removed one, the loop ends after at most one round more than there
-- are screens; but the list of the backend still holds every one of them.
handle_screen_removed_keeps :
    {R : Type 0} (q : ℕ) (b : Backend R)
    → All (λ s. stands_for q s ≡ true) b.screens
    → (b' : Backend R) × (handle_screen_removed (suc (length b.screens)) q b ≡ some b')
      × (b'.screens ≡ b.screens)
unfolding handle_screen_removed
handle_screen_removed_keeps q b h =
    let (fs, e) =
      remove_loop_done (suc (length b.screens)) q 0 b.screens b.events h (omega arith) in
    (record b { events = fs }, rw (e, handle_screen_removed), refl)
