-- ===== src/Server/QuickOutput/Modes.antt =====
-- The modes that an output takes from its screen.
use mathlib.Core.Path.{subst}
use greenisland.Common.{
  ℕ, zero, suc, ◌+◌, ◌≤◌, ◌<◌, ◌≡◌, refl, sym, ap, ◌∙◌, ◌≢◌, ◌⊎◌, inl, inr, Bool, true, false,
  Option, some, List, [], ◌∷◌, ◌++◌, arith, Bool-cases, length, get_elem?, All, ℤ, pos, negsuc,
  eq_ℤ,
}
use greenisland.Server.Screen.{Mode, Screen}
use greenisland.Server.QuickOutput.{QuickOutput, add_modes, initialize, index_of, is_nonempty}

beyond :
    (i j : ℕ) (preferred : ℤ)
    → eq_ℤ (pos i) preferred ≡ true
    → i < j
    → eq_ℤ (pos j) preferred ≡ false
beyond i j (pos n) h later = ground (arith, h, later)
beyond i j (negsuc n) h later = ground (arith, h)

module _ {R : Type 0} where
  -- The modes with their flags, from an index on.
  abbrev flag_modes : ℕ → ℤ → List (Mode R) → List (Mode R × Bool)
  flag_modes i preferred [] = []
  flag_modes i preferred (m ∷ ms) = (m, eq_ℤ (pos i) preferred) ∷ flag_modes (i + 1) preferred ms

  -- The mode at each index, and whether that is the index of the preferred mode.
  flag_modes-get :
      (ms : List (Mode R)) (i k n : ℕ) (preferred : ℤ) (m : Mode R)
      → i + k ≡ n
      → get_elem? ms k ≡ some m
      → get_elem? (flag_modes i preferred ms) k ≡ some (m, eq_ℤ (pos n) preferred)
  flag_modes-get [] i k n preferred m e h = cc
  flag_modes-get (x ∷ xs) i zero n preferred m e h =
      let here : i ≡ n = omega (arith, e) in
      let flagged : ℕ → Mode R → Option (Mode R × Bool) = λ j y. some (y, eq_ℤ (pos j) preferred) in
      let first : flagged i x ≡ flagged i m = ground (arith, h) in
      subst (λ j. flagged i x ≡ flagged j m) here first
  flag_modes-get (x ∷ xs) i (suc k) n preferred m e h =
      flag_modes-get xs (i + 1) k n preferred m (omega (arith, e)) h

  flag_modes-length :
      (ms : List (Mode R)) (i : ℕ) (preferred : ℤ) → length (flag_modes i preferred ms) ≡ length ms
  flag_modes-length [] i preferred = refl
  flag_modes-length (x ∷ xs) i preferred = omega (arith, flag_modes-length xs (i + 1) preferred)

  nonempty_of_get :
      (ms : List (Mode R)) (k : ℕ) (m : Mode R) → get_elem? ms k ≡ some m → is_nonempty ms ≡ true
  nonempty_of_get [] k m h = cc
  nonempty_of_get (x ∷ xs) k m h = refl

  -- No mode is there twice.
  abbrev pub AreDistinct : List (Mode R) → Type 0
  AreDistinct [] = Unit
  AreDistinct (m ∷ ms) = All (λ x. x ≢ m) ms × AreDistinct ms

  -- What is relied on of `addMode`: a mode that is not there is appended, and no flag changes if it
  -- is not preferred, or no mode was.
  abbrev pub DoesAppend : (Mode R → Bool → List (Mode R × Bool) → List (Mode R × Bool)) → Type 0
  DoesAppend add_mode =
      (m : Mode R) (f : Bool) (l : List (Mode R × Bool))
      → All (λ p. p.0 ≢ m) l
      → (f ≡ false) ⊎ All (λ p. p.1 ≡ false) l
      → add_mode m f l ≡ l ++ (m, f) ∷ []

  append-All :
      (P : Mode R × Bool → Type 0) (l : List (Mode R × Bool)) (p : Mode R × Bool)
      → All P l
      → P p
      → All P (l ++ p ∷ [])
  append-All P [] p h q = (q, tt)
  append-All P (x ∷ xs) p h q = (h.0, append-All P xs p h.1 q)

  append-others :
      (l : List (Mode R × Bool)) (m : Mode R) (f : Bool) (ms : List (Mode R))
      → All (λ x. All (λ p. p.0 ≢ x) l) ms
      → All (λ x. x ≢ m) ms
      → All (λ x. All (λ p. p.0 ≢ x) (l ++ (m, f) ∷ [])) ms
  append-others l m f [] h d = tt
  append-others l m f (x ∷ xs) h d =
      (append-All (λ p. p.0 ≢ x) l (m, f) h.0 (λ e. d.0 (sym e)), append-others l m f xs h.1 d.1)

  append_nil : (l : List (Mode R × Bool)) → l ++ [] ≡ l
  append_nil [] = refl
  append_nil (x ∷ xs) = ap (λ k. x ∷ k) (append_nil xs)

  append_assoc :
      (l : List (Mode R × Bool)) (p : Mode R × Bool) (r : List (Mode R × Bool))
      → (l ++ p ∷ []) ++ r ≡ l ++ p ∷ r
  append_assoc [] p r = refl
  append_assoc (x ∷ xs) p r = ap (λ k. x ∷ k) (append_assoc xs p r)

  add_modes_lem :
      (add_mode : Mode R → Bool → List (Mode R × Bool) → List (Mode R × Bool)) (i : ℕ)
      (preferred : ℤ) (ms : List (Mode R)) (l : List (Mode R × Bool))
      → DoesAppend add_mode
      → AreDistinct ms
      → All (λ x. All (λ p. p.0 ≢ x) l) ms
      → ((j : ℕ) → i ≤ j → eq_ℤ (pos j) preferred ≡ false) ⊎ All (λ p. p.1 ≡ false) l
      → add_modes add_mode i preferred ms l ≡ l ++ flag_modes i preferred ms
  unfolding add_modes
  add_modes_lem add_mode i preferred [] l does d fresh flags = sym (append_nil l)
  add_modes_lem add_mode i preferred (m ∷ ms) l does d fresh flags =
      let f = eq_ℤ (pos i) preferred in
      let may : (f ≡ false) ⊎ All (λ p. p.1 ≡ false) l = elim flags [
        | inl past ↦ inl (past i (omega arith))
        | inr none_yet ↦ inr none_yet
      ] in
      let added = does m f l fresh.0 may in
      let next : ((j : ℕ) → i + 1 ≤ j → eq_ℤ (pos j) preferred ≡ false)
          ⊎ All (λ p. p.1 ≡ false) (l ++ (m, f) ∷ []) =
        elim (Bool-cases f) [
          | inl here ↦ inl (λ j later. beyond i j preferred here (omega (arith, later)))
          | inr other ↦ elim flags [
            | inl past ↦ inl (λ j later. past j (omega (arith, later)))
            | inr none_yet ↦ inr (append-All (λ p. p.1 ≡ false) l (m, f) none_yet other)
          ]
        ] in
      let rest =
        add_modes_lem add_mode (i + 1) preferred ms (l ++ (m, f) ∷ []) does d.1
          (append-others l m f ms fresh.1 d.0) next in
      ap (add_modes add_mode (i + 1) preferred ms) added
      ∙ (rest ∙ append_assoc l (m, f) (flag_modes (i + 1) preferred ms))

  nothing_there : (ms : List (Mode R)) → All (λ x. All (λ (p : Mode R × Bool). p.0 ≢ x) []) ms
  nothing_there [] = tt
  nothing_there (m ∷ ms) = (tt, nothing_there ms)

  -- An output with a window, which has no modes yet and does not follow the window's size, is
  -- initialized from a screen whose modes are all different and whose current mode, the first one
  -- for a negative number, is one of them; a mode that is not there is added at the end, and changes
  -- no other unless both are preferred. Then that current mode is the output's, the output has the
  -- modes of the screen in their order, and a mode is preferred if and only if its index is that of
  -- the screen's preferred one.
  pub initialize_lem :
      (add_mode : Mode R → Bool → List (Mode R × Bool) → List (Mode R × Bool)) (s : QuickOutput R)
      (screen : Screen R) (current m : Mode R) (k : ℕ)
      → DoesAppend add_mode
      → s.native_screen ≡ some screen
      → s.modes ≡ []
      → AreDistinct screen.modes
      → get_elem? screen.modes (index_of screen.current_mode) ≡ some current
      → get_elem? screen.modes k ≡ some m
      → (t : QuickOutput R) × ((initialize add_mode true false s ≡ some t)
          × (t.is_initialized ≡ true)
          × (t.current_mode ≡ some current)
          × (length t.modes ≡ length screen.modes)
          × (get_elem? t.modes k ≡ some (m, eq_ℤ (pos k) screen.preferred_mode)))
  unfolding initialize
  initialize_lem add_mode s screen current m k does there none_yet d now at =
      let preferred = screen.preferred_mode in
      let added = add_modes add_mode 0 preferred screen.modes s.modes in
      let t = record s { modes = added; current_mode = some current; is_initialized = true } in
      let all : added ≡ flag_modes 0 preferred screen.modes =
        ap (add_modes add_mode 0 preferred screen.modes) none_yet
        ∙ add_modes_lem add_mode 0 preferred screen.modes [] does d (nothing_there screen.modes)
            (inr tt) in
      let some_mode = nonempty_of_get screen.modes k m at in
      (
        t,
        (
          ground (arith, there, now, some_mode),
          refl,
          refl,
          ap length all ∙ flag_modes-length screen.modes 0 preferred,
          ap (λ l. get_elem? l k) all
              ∙ flag_modes-get screen.modes 0 k k preferred m (omega arith) at,
        ),
      )
