-- ===== src/Server/Screencasts/Stays.antt =====
-- The screencasts that exist.
use greenisland.Common.{
  ℕ, ◌≡◌, ◌≢◌, inl, inr, true, Option, none, some, List, [], ◌∷◌, arith, ◌==◌, ==_iff, Bool-cases,
  Option-cases, ℤ, Size, ◌∙◌, ap, All, sym,
}
use mathlib.Core.Path.{subst}
use mathlib.Core.Option.{some-injective}
use greenisland.Server.Screencasts.{
  Screencast, Screencaster, ShmBuffer, write, capture, record_buffer, record_request,
  frame_recording, record_each, deliver, deliver_next, without, destroy_cast, delete_event, Event,
  captured, recorded, rendered, delivered, resource_destroyed, destroyed, deleted, remove_pair,
  record_frame, handle, handle_all, values,
}

-- The screencasts that are asked for on an output that is there.
abbrev pub captures : List Event → List ℕ
captures [] = []
captures (captured c (some _) ∷ es) = c ∷ captures es
captures (captured c none ∷ es) = captures es
captures (recorded c r b ∷ es) = captures es
captures (rendered w time bytes ∷ es) = captures es
captures (delivered ∷ es) = captures es
captures (resource_destroyed r ∷ es) = captures es
captures (destroyed c ∷ es) = captures es
captures (deleted c ∷ es) = captures es

abbrev pub Exists : ℕ → Screencaster → Type 0
Exists c s = s.casts c ≢ none

write-stays :
    (c d : ℕ) (k : Screencast) (casts : ℕ → Option Screencast)
    → casts c ≢ none
    → write d (some k) casts c ≢ none
write-stays c d k casts h = elim (Bool-cases (c == d)) [
  | inl same ↦ λ e. ground (arith, same, e)
  | inr other ↦ λ e. h (ground (arith, other, e))
]

capture-stays :
    (c d : ℕ) (o : Option (ℕ × Size × Size)) (s : Screencaster)
    → Exists c s
    → Exists c (capture d o s)
unfolding capture
capture-stays c d none s h = h
capture-stays c d (some (w, size, output)) s h = elim (Option-cases (s.casts d)) [
  | inl fresh ↦ λ e.
      write-stays c d
        (record {
          valid = true;
          window = w;
          output = output;
          buffer_resource = none;
          buffer = none;
        })
        s.casts h (ground (arith, fresh, e))
  | inr (k, there) ↦ λ e. h (ground (arith, there, e))
]

capture-Exists : (c w : ℕ) (x y : Size) (s : Screencaster) → Exists c (capture c (some (w, x, y)) s)
unfolding capture
capture-Exists c w x y s = λ e. ground (arith, e, ==_iff c c)

record_request-stays :
    (c d r : ℕ) (b : Option ShmBuffer) (s : Screencaster)
    → Exists c s
    → Exists c (record_request d r b s)
unfolding record_request record_buffer
record_request-stays c d r b s h = λ e. h (ground (arith, e))

destroy_cast-stays : (c d : ℕ) (s : Screencaster) → Exists c s → Exists c (destroy_cast d s)
unfolding destroy_cast
destroy_cast-stays c d s h = λ e. h (ground (arith, e))

delete_event-stays : (c d : ℕ) (s : Screencaster) → Exists c s → Exists c (delete_event d s)
unfolding delete_event
delete_event-stays c d s h = λ e. h (ground (arith, e))

without-stays : (r : ℕ) (o : Option Screencast) → o ≢ none → without r o ≢ none
without-stays r none h = h
without-stays r (some k) h = λ e. ground (arith, e)

deliver_next-stays : (c : ℕ) (s : Screencaster) → Exists c s → Exists c (deliver_next s)
unfolding deliver_next deliver
deliver_next-stays c s h = λ e. h (ground (arith, e))

record_each-casts :
    (w time : ℕ) (bytes : ℤ) (cs : List ℕ) (s t : Screencaster)
    → record_each w time bytes cs s ≡ some t
    → t.casts ≡ s.casts
unfolding record_each frame_recording
record_each-casts w time bytes [] s t e = ground (arith, e)
record_each-casts w time bytes (c ∷ cs) s t e =
    let u = record s { requests = remove_pair w c s.requests } in
    elim (Option-cases (s.casts c)) [
      | inl gone ↦ ground (arith, gone, e)
      | inr (k, there) ↦ elim (Option-cases k.buffer) [
        | inl idle ↦ record_each-casts w time bytes cs u t (ground (arith, there, idle, e))
        | inr (b, busy) ↦
            let v = frame_recording c time bytes k b u in
            let same : v.casts ≡ s.casts = unfold frame_recording in ground arith in
            record_each-casts w time bytes cs v t (ground (arith, there, busy, e)) ∙ same
      ]
    ]

record_frame-stays :
    (c w time : ℕ) (bytes : ℤ) (s t : Screencaster)
    → record_frame w time bytes s ≡ some t
    → Exists c s
    → Exists c t
unfolding record_frame
record_frame-stays c w time bytes s t e h = λ gone.
    h (ap (λ f. f c) (sym (record_each-casts w time bytes (values w s.requests) s t e)) ∙ gone)

handle-stays :
    (c : ℕ) (e : Event) (s t : Screencaster) → handle e s ≡ some t → Exists c s → Exists c t
unfolding handle
handle-stays c (captured d o) s t e h =
    subst (Exists c) (some-injective _ _ e) (capture-stays c d o s h)
handle-stays c (recorded d r b) s t e h =
    subst (Exists c) (some-injective _ _ e) (record_request-stays c d r b s h)
handle-stays c (rendered w time bytes) s t e h = record_frame-stays c w time bytes s t e h
handle-stays c delivered s t e h =
    subst (Exists c) (some-injective _ _ e) (deliver_next-stays c s h)
handle-stays c (resource_destroyed r) s t e h =
    subst (Exists c) (some-injective _ _ e) (without-stays r (s.casts c) h)
handle-stays c (destroyed d) s t e h =
    subst (Exists c) (some-injective _ _ e) (destroy_cast-stays c d s h)
handle-stays c (deleted d) s t e h =
    subst (Exists c) (some-injective _ _ e) (delete_event-stays c d s h)

handle_all-stays :
    (c : ℕ) (es : List Event) (s t : Screencaster)
    → handle_all es s ≡ some t
    → Exists c s
    → Exists c t
unfolding handle_all
handle_all-stays c [] s t e h = subst (Exists c) (some-injective _ _ e) h
handle_all-stays c (x ∷ es) s t e h = elim (Option-cases (handle x s)) [
  | inl gone ↦ ground (arith, gone, e)
  | inr (u, first) ↦
      handle_all-stays c es u t (ground (arith, first, e)) (handle-stays c x s u first h)
]

rest_stays :
    (x : Event) (es : List Event) (s t : Screencaster)
    → handle_all (x ∷ es) s ≡ some t
    → (u : Screencaster) × ((handle x s ≡ some u) × (handle_all es u ≡ some t))
unfolding handle_all
rest_stays x es s t e = elim (Option-cases (handle x s)) [
  | inl gone ↦ ground (arith, gone, e)
  | inr (u, first) ↦ (u, (first, ground (arith, first, e)))
]

captured_lem :
    (c : ℕ) (o : Option (ℕ × Size × Size)) (s u : Screencaster)
    → handle (captured c o) s ≡ some u
    → capture c o s ≡ u
unfolding handle
captured_lem c o s u e = some-injective _ _ e

-- A screencast that was asked for stays.
pub captures-Exists :
    (es : List Event) (s t : Screencaster)
    → handle_all es s ≡ some t
    → All (λ c. Exists c t) (captures es)
captures-Exists [] s t e = tt
captures-Exists (captured c (some (w, x, y)) ∷ es) s t e =
    let (u, (first, rest)) = rest_stays (captured c (some (w, x, y))) es s t e in
    let start : capture c (some (w, x, y)) s ≡ u = captured_lem c (some (w, x, y)) s u first in
    let there : Exists c u = subst (Exists c) start (capture-Exists c w x y s) in
    (handle_all-stays c es u t rest there, captures-Exists es u t rest)
captures-Exists (captured c none ∷ es) s t e =
    let (u, (first, rest)) = rest_stays (captured c none) es s t e in captures-Exists es u t rest
captures-Exists (recorded c r b ∷ es) s t e =
    let (u, (first, rest)) = rest_stays (recorded c r b) es s t e in captures-Exists es u t rest
captures-Exists (rendered w time bytes ∷ es) s t e =
    let (u, (first, rest)) = rest_stays (rendered w time bytes) es s t e in
    captures-Exists es u t rest
captures-Exists (delivered ∷ es) s t e =
    let (u, (first, rest)) = rest_stays delivered es s t e in captures-Exists es u t rest
captures-Exists (resource_destroyed r ∷ es) s t e =
    let (u, (first, rest)) = rest_stays (resource_destroyed r) es s t e in
    captures-Exists es u t rest
captures-Exists (destroyed c ∷ es) s t e =
    let (u, (first, rest)) = rest_stays (destroyed c) es s t e in captures-Exists es u t rest
captures-Exists (deleted c ∷ es) s t e =
    let (u, (first, rest)) = rest_stays (deleted c) es s t e in captures-Exists es u t rest
