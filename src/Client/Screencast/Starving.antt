-- ===== src/Client/Screencast/Starving.antt =====
-- What happens when no buffer is free, and what a cancelled buffer comes to.
use greenisland.Common.{
  ℕ, zero, suc, ◌≡◌, refl, ap, ◌≢◌, ◌⊎◌, inl, inr, true, false, none, some, List, [], ◌∷◌, ◌++◌,
  arith, Bool-cases, Option-cases, get_elem?, set,
}
use greenisland.Client.Screencast.{
  Slot, Screencast, FrameEvent, first_free, record_frame, free_cancelled, cancelled, frame_event,
  Step, recorded, released, occupy, free_buffer, frame_recorded,
}

first_free-set :
    (ks : List Slot) (i : ℕ) (k : Slot) (b : ℕ)
    → get_elem? ks i ≡ some k
    → k.buffer ≡ some b
    → first_free (set ks i (record k { busy = false })) ≢ none
first_free-set [] i k b h buffered = λ e. cc
first_free-set (x ∷ xs) zero k b h buffered = λ e. ground (arith, h, buffered, e)
first_free-set (x ∷ xs) (suc i) k b h buffered =
    let rest = first_free-set xs i k b h buffered in λ e. ground (arith, rest, e)

free_cancelled_same : (b : ℕ) (ks : List Slot) → free_cancelled b ks ≡ ks
free_cancelled_same b [] = refl
free_cancelled_same b (k ∷ ks) = ground (arith, free_cancelled_same b ks)

-- The slot that the next recording takes: it was free, and is busy afterwards.
first_free-at :
    (ks : List Slot) (b : ℕ)
    → first_free ks ≡ some b
    → (j : ℕ) × ((get_elem? ks j ≡ some (record { buffer = some b; busy = false }))
        × (get_elem? (occupy ks) j ≡ some (record { buffer = some b; busy = true })))
first_free-at [] b e = cc
first_free-at (k ∷ ks) b e = elim (Option-cases (free_buffer k)) [
  | inl taken ↦
      let (j, (free, busy)) = first_free-at ks b (ground (arith, taken, e)) in
      (suc j, (free, ground (arith, taken, busy)))
  | inr (c, free) ↦ (0, (ground (arith, free, e), ground (arith, free, e)))
]

get-set :
    (ks : List Slot) (i : ℕ) (k v : Slot)
    → get_elem? ks i ≡ some k
    → get_elem? (set ks i v) i ≡ some v
get-set [] i k v h = cc
get-set (x ∷ xs) zero k v h = refl
get-set (x ∷ xs) (suc i) k v h = get-set xs i k v h

append_two : (xs : List Step) (a b : Step) → (xs ++ a ∷ []) ++ b ∷ [] ≡ xs ++ a ∷ b ∷ []
append_two [] a b = refl
append_two (x ∷ xs) a b = ap (λ l. x ∷ l) (append_two xs a b)

-- What a frame event of a slot with a buffer comes to. If the client was not starving, the buffer is
-- given back, and its slot is free.
abbrev pub IsGivenBack : FrameEvent → Slot → ℕ → Screencast → Screencast → Type 0
IsGivenBack e k b s t =
    (t.steps ≡ s.steps ++ released b ∷ [])
    × (get_elem? t.slots e.slot ≡ some (record k { busy = false }))

-- If it was starving, the buffer is given back, and then one that is free in some slot, perhaps the
-- same, is recorded into, and that slot is busy.
abbrev pub IsRecordedAgain : FrameEvent → Slot → ℕ → Screencast → Screencast → Type 0
IsRecordedAgain e k b s t =
    (c : ℕ) × (j : ℕ) × ((t.steps ≡ s.steps ++ released b ∷ recorded c ∷ [])
      × (get_elem? (set s.slots e.slot (record k { busy = false })) j
          ≡ some (record { buffer = some c; busy = false }))
      × (get_elem? t.slots j ≡ some (record { buffer = some c; busy = true })))

-- A frame event of a slot with a buffer is told, and the client is not starving afterwards. If it
-- was not starving before, the buffer is given back and its slot is free; if it was, the buffer is
-- given back, and then a buffer of a slot that is free is recorded into, and that slot is busy.
pub frame_event-feeds :
    (e : FrameEvent) (s : Screencast) (k : Slot) (b : ℕ)
    → get_elem? s.slots e.slot ≡ some k
    → k.buffer ≡ some b
    → let t = frame_event e s in
      (t.starving ≡ false)
      × (t.signals ≡ s.signals ++ frame_recorded b e.time e.transform ∷ [])
      × (((s.starving ≡ false) × IsGivenBack e k b s t)
          ⊎ ((s.starving ≡ true) × IsRecordedAgain e k b s t))
unfolding frame_event record_frame
frame_event-feeds e s k b there buffered =
    let again = set s.slots e.slot (record k { busy = false }) in
    elim (Bool-cases s.starving) [
      | inr fed ↦
          let at = get-set s.slots e.slot k (record k { busy = false }) there in
          (
            ground (arith, there, buffered, fed),
            ground (arith, there, buffered, fed),
            inl (
              fed,
              (ground (arith, there, buffered, fed), ground (arith, there, buffered, fed, at)),
            ),
          )
      | inl starving ↦ elim (Option-cases (first_free again)) [
        | inl starved ↦ absurd (first_free-set s.slots e.slot k b there buffered starved)
        | inr (c, free) ↦
            let (j, (was_free, busy)) = first_free-at again c free in
            let two = append_two s.steps (released b) (recorded c) in
            (
              ground (arith, there, buffered, starving, free),
              ground (arith, there, buffered, starving, free),
              inr (
                starving,
                (
                  c,
                  j,
                  (
                    ground (arith, there, buffered, starving, free, two),
                    was_free,
                    ground (arith, there, buffered, starving, free, busy),
                  ),
                ),
              ),
            )
      ]
    ]

-- A buffer whose recording the compositor cancels stays busy: no slot changes.
cancelled-slots : (b : ℕ) (s : Screencast) → (cancelled b s).slots ≡ s.slots
unfolding cancelled
cancelled-slots b s = free_cancelled_same b s.slots
