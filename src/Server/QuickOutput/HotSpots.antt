-- ===== src/Server/QuickOutput/HotSpots.antt =====
-- When hot spots are triggered.
use mathlib.Core.List.{append-nil}
use mathlib.Core.Path.{subst}
use greenisland.Common.{
  ℕ, ◌+◌, ◌-◌, ◌≤◌, ◌<◌, ◌≡◌, refl, sym, ap, ◌∙◌, ◌⊎◌, inl, inr, not, ◌&&◌, List, [], ◌∷◌, ◌++◌,
  arith, ltb, ◌==◌, Bool-cases, Option-cases, Point, All, ◌≢◌, none,
}
use greenisland.Server.QuickOutput.{
  HotSpot, Signal, hot_spot_triggered, QuickOutput, sub64, corner, enter_hot_spot, mouse_moved,
}

-- A move of the mouse at a time.
abbrev pub Moves : Type 0
Moves = List (ℕ × Point)

-- The times at which hot spots are triggered.
abbrev pub trigger_times : List Signal → List ℕ
trigger_times [] = []
trigger_times (hot_spot_triggered t h ∷ es) = t ∷ trigger_times es
trigger_times (_ ∷ es) = trigger_times es

-- Each time comes at least `gap` after the one before it, the first one after `last`.
abbrev pub AreSpaced : ℕ → ℕ → List ℕ → Type 0
AreSpaced gap last [] = Unit
AreSpaced gap last (t ∷ ts) = (last + gap ≤ t) × AreSpaced gap t ts

-- Times that do not go back, and do not reach the end of 64 bits.
abbrev pub AreOrdered : ℕ → Moves → Type 0
AreOrdered now [] = Unit
AreOrdered now (m ∷ ms) = (now ≤ m.0) × (m.0 < 18446744073709551616) × AreOrdered m.0 ms

sub64-exact : (a b : ℕ) → b ≤ a → a < 18446744073709551616 → sub64 a b ≡ a - b
sub64-exact a b h small = omega arith

append_signals :
    (xs : List Signal) (a : Signal) (ys : List Signal) → (xs ++ a ∷ []) ++ ys ≡ xs ++ (a ∷ ys)
append_signals [] a ys = refl
append_signals (x ∷ xs) a ys = ap (λ l. x ∷ l) (append_signals xs a ys)

-- What is signalled between two lists of signals is spaced.
abbrev pub IsSpacedBetween : ℕ → ℕ → List Signal → List Signal → Type 0
IsSpacedBetween gap last before after =
    (new : List Signal) × ((after ≡ before ++ new) × AreSpaced gap last (trigger_times new))

keep-IsSpacedBetween :
    (gap last gap' last' : ℕ) (before before' after : List Signal)
    → gap' ≡ gap
    → last' ≡ last
    → before' ≡ before
    → IsSpacedBetween gap' last' before' after
    → IsSpacedBetween gap last before after
keep-IsSpacedBetween gap last gap' last' before before' after eg el eb (new, (told, spaced)) = (
  new,
  (
    told ∙ ap (λ l. l ++ new) eb,
    subst (λ g. AreSpaced g last (trigger_times new)) eg
        (subst (λ l. AreSpaced gap' l (trigger_times new)) el spaced),
  ),
)

add-IsSpacedBetween :
    (gap last gap' last' time : ℕ) (h : HotSpot) (before before' after : List Signal)
    → gap' ≡ gap
    → last' ≡ time
    → before' ≡ before ++ hot_spot_triggered time h ∷ []
    → last + gap ≤ time
    → IsSpacedBetween gap' last' before' after
    → IsSpacedBetween gap last before after
add-IsSpacedBetween gap last gap' last' time h before before' after eg el eb late
      (new, (told, spaced)) =
    (
      hot_spot_triggered time h ∷ new,
      (
        told ∙ (ap (λ l. l ++ new) eb ∙ append_signals before (hot_spot_triggered time h) new),
        (
          late,
          subst (λ g. AreSpaced g time (trigger_times new)) eg
              (subst (λ l. AreSpaced gap' l (trigger_times new)) el spaced),
        ),
      ),
    )

module _ {R : Type 0} where
  pub moves : Moves → QuickOutput R → QuickOutput R
  moves [] s = s
  moves (m ∷ ms) s = moves ms (mouse_moved m.0 m.1 s)

  -- What a move does: it triggers a hot spot at its time, or leaves the signals.
  abbrev Moved : ℕ → QuickOutput R → QuickOutput R → Type 0
  Moved time s t =
      (t.hot_spot_threshold ≡ s.hot_spot_threshold)
      × (((t.signals ≡ s.signals) × (t.hot_spot_last_time ≡ s.hot_spot_last_time))
          ⊎ ((h : HotSpot) × ((t.signals ≡ s.signals ++ hot_spot_triggered time h ∷ [])
                × (t.hot_spot_last_time ≡ time)
                × (s.hot_spot_last_time + s.hot_spot_threshold ≤ time))))

  mouse_moved-Moved :
      (time : ℕ) (pt : Point) (s : QuickOutput R)
      → s.hot_spot_last_time ≤ time
      → time < 18446744073709551616
      → Moved time s (mouse_moved time pt s)
  unfolding mouse_moved enter_hot_spot
  mouse_moved-Moved time pt s late small =
      let exact = sub64-exact time s.hot_spot_last_time late small in
      elim (Option-cases (corner s.geometry s.hot_spot_size pt)) [
        | inl outside ↦ ground (arith, outside)
        | inr (h, inside) ↦
            let fires =
              not (ltb (sub64 time s.hot_spot_last_time) s.hot_spot_threshold)
              && (not (s.hot_spot_entered == 0)
                  && ltb (sub64 time s.hot_spot_entered) s.hot_spot_push_time) in
            elim (Bool-cases fires) [
              | inl fired ↦ (
                ground (arith, inside, fired),
                inr (
                  h,
                  (
                    ground (arith, inside, fired),
                    ground (arith, inside, fired),
                    ground (arith, exact, fired),
                  ),
                ),
              )
              | inr still ↦ (
                ground (arith, inside, still),
                inl (ground (arith, inside, still), ground (arith, inside, still)),
              )
            ]
      ]

  -- The mouse moves, at times that do not go back: what is signalled are hot spots, each one at
  -- least the threshold after the one before it.
  pub moves-AreSpaced :
      (ms : Moves) (now : ℕ) (s : QuickOutput R)
      → s.hot_spot_last_time ≤ now
      → AreOrdered now ms
      → IsSpacedBetween s.hot_spot_threshold s.hot_spot_last_time s.signals (moves ms s).signals
  unfolding moves
  moves-AreSpaced [] now s late ordered = ([], (sym (append-nil s.signals), tt))
  moves-AreSpaced (m ∷ ms) now s late (now_le, small, later) =
      let t = mouse_moved m.0 m.1 s in
      let (gap, what) = mouse_moved-Moved m.0 m.1 s (omega (arith, late, now_le)) small in
      elim what [
        | inl (same, last) ↦
            keep-IsSpacedBetween s.hot_spot_threshold s.hot_spot_last_time t.hot_spot_threshold
              t.hot_spot_last_time s.signals t.signals (moves ms t).signals gap last same
              (moves-AreSpaced ms m.0 t (omega (arith, late, now_le, last)) later)
        | inr (h, (signalled, last, after)) ↦
            add-IsSpacedBetween s.hot_spot_threshold s.hot_spot_last_time t.hot_spot_threshold
              t.hot_spot_last_time m.0 h s.signals t.signals (moves ms t).signals gap last signalled
              after (moves-AreSpaced ms m.0 t (omega (arith, last)) later)
      ]

  -- The points of moves that stay in corners.
  abbrev pub StayInCorners : QuickOutput R → Moves → Type 0
  StayInCorners s = All (λ m. corner s.geometry s.hot_spot_size m.1 ≢ none)

  -- The mouse has been in a corner for the push time or longer, and stays in corners, at times that
  -- do not go back: nothing is triggered, however long it stays.
  pushed_too_long :
      (ms : Moves) (now : ℕ) (s : QuickOutput R)
      → s.hot_spot_entered ≢ 0
      → s.hot_spot_entered + s.hot_spot_push_time ≤ now
      → AreOrdered now ms
      → StayInCorners s ms
      → moves ms s ≡ s
  unfolding moves mouse_moved enter_hot_spot
  pushed_too_long [] now s entered long ordered stay = refl
  pushed_too_long (m ∷ ms) now s entered long (now_le, small, later) stay =
      let exact = sub64-exact m.0 s.hot_spot_entered (omega (arith, long, now_le)) small in
      let rest = pushed_too_long ms m.0 s entered (omega (arith, long, now_le)) later stay.1 in
      elim (Option-cases (corner s.geometry s.hot_spot_size m.1)) [
        | inl outside ↦ absurd (stay.0 outside)
        | inr (h, inside) ↦
            let same : mouse_moved m.0 m.1 s ≡ s =
              ground (arith, inside, exact, entered, long, now_le) in
            ap (moves ms) same ∙ rest
      ]
