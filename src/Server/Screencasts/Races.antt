-- ===== src/Server/Screencasts/Races.antt =====
-- A second record request between a frame and the delivery of its event.
use greenisland.Common.{
  ℕ, ◌≡◌, refl, true, none, some, [], ◌∷◌, ◌++◌, arith, ==_iff, ℤ, ◌*ℤ◌, eq_ℤ_iff, wrap32, ap, List,
  ◌∙◌,
}
use greenisland.Server.Screencasts.{
  ShmBuffer, Screencast, Screencaster, write, is_acceptable, record_buffer, frame_recording,
  record_each, record_frame, record_request, filled, success_event, cancelled, frame_sent,
  deliver_next, handle_all, deliver, handle, recorded, rendered, delivered, Event,
}

-- A screencast that waits for nothing, alone.
abbrev pub IsIdle : ℕ → Screencast → Screencaster → Type 0
IsIdle c k s =
    (s.casts c ≡ some k)
    × (k.valid ≡ true)
    × (k.buffer_resource ≡ none)
    × (s.requests ≡ [])
    × (s.posted ≡ [])

abbrev recording : ℕ → ℕ → Screencast → ShmBuffer → Screencaster → Screencaster
recording c r k b s = record s {
  casts = write c (some (record k { buffer_resource = some r; buffer = some b })) s.casts;
  requests = (k.window, c) ∷ [];
}

record_first :
    (c r : ℕ) (k : Screencast) (b : ShmBuffer) (s : Screencaster)
    → IsIdle c k s
    → is_acceptable k.output b ≡ true
    → record_request c r (some b) s ≡ recording c r k b s
unfolding record_request record_buffer
record_first c r k b s idle good = ground (arith, idle, good)

-- The frame, and the event that waits.
abbrev filled_with : ℕ → ℕ → ℕ → ℤ → Screencast → ShmBuffer → Screencaster → Screencaster
filled_with c r time bytes k b s = record s {
  casts = write c (some (record k { buffer_resource = some r; buffer = some b })) s.casts;
  requests = [];
  posted = (c, success_event time) ∷ [];
  sent = s.sent ++ filled c (some r) bytes ∷ [];
}

render_first :
    (c r time : ℕ) (bytes : ℤ) (k : Screencast) (b : ShmBuffer) (s : Screencaster)
    → IsIdle c k s
    → bytes ≡ wrap32 (b.stride *ℤ b.height)
    → record_frame k.window time bytes (recording c r k b s)
      ≡ some (filled_with c r time bytes k b s)
unfolding record_frame record_each frame_recording
render_first c r time bytes k b s idle size =
    let same = (==_iff c c).1 refl in
    let window = (==_iff k.window k.window).1 refl in
    let fits = (eq_ℤ_iff bytes (wrap32 (b.stride *ℤ b.height))).1 size in
    ground (arith, idle, size, same, window, fits)

-- The second request: the first is cancelled, and its event still waits.
abbrev asked_again :
    ℕ → ℕ → ℕ → ℕ → ℤ → Screencast → ShmBuffer → ShmBuffer → Screencaster → Screencaster
asked_again c r r' time bytes k b b' s =
    let t = filled_with c r time bytes k b s in
    record t {
      casts = write c (some (record k { buffer_resource = some r'; buffer = some b' })) t.casts;
      requests = (k.window, c) ∷ [];
      sent = t.sent ++ cancelled c r ∷ [];
    }

record_again :
    (c r r' time : ℕ) (bytes : ℤ) (k : Screencast) (b b' : ShmBuffer) (s : Screencaster)
    → k.valid ≡ true
    → is_acceptable k.output b' ≡ true
    → record_request c r' (some b') (filled_with c r time bytes k b s)
      ≡ asked_again c r r' time bytes k b b' s
unfolding record_request record_buffer
record_again c r r' time bytes k b b' s valid good =
    let same = (==_iff c c).1 refl in ground (arith, valid, good, same)

-- The delivery of the first event.
abbrev told : ℕ → ℕ → ℕ → ℕ → ℤ → Screencast → ShmBuffer → ShmBuffer → Screencaster → Screencaster
told c r r' time bytes k b b' s =
    let t = asked_again c r r' time bytes k b b' s in
    record t {
      casts = write c (some (record k { buffer_resource = none; buffer = none })) t.casts;
      posted = [];
      sent = t.sent ++ frame_sent c (some r') time ∷ [];
    }

deliver_first :
    (c r r' time : ℕ) (bytes : ℤ) (k : Screencast) (b b' : ShmBuffer) (s : Screencaster)
    → k.valid ≡ true
    → deliver_next (asked_again c r r' time bytes k b b' s) ≡ told c r r' time bytes k b b' s
unfolding deliver_next deliver
deliver_first c r r' time bytes k b b' s valid =
    let same = (==_iff c c).1 refl in ground (arith, valid, same)

render_none :
    (c r r' time later : ℕ) (bytes more : ℤ) (k : Screencast) (b b' : ShmBuffer) (s : Screencaster)
    → record_frame k.window later more (told c r r' time bytes k b b' s)
      ≡ some (record (told c r r' time bytes k b b' s) { requests = [] })
unfolding record_frame record_each
render_none c r r' time later bytes more k b b' s =
    let same = (==_iff c c).1 refl in
    let window = (==_iff k.window k.window).1 refl in ground (arith, same, window)

handle_all-step :
    (e : Event) (es : List Event) (s t : Screencaster)
    → handle e s ≡ some t
    → handle_all (e ∷ es) s ≡ handle_all es t
unfolding handle_all
handle_all-step e es s t h = rw (h, handle_all) refl

-- A screencast records a first buffer, the frame is rendered into it, and the client records a
-- second buffer before the event is delivered; both buffers pass the checks, and the image fits
-- the first. Then the first buffer is filled and cancelled, the second is announced as a frame
-- with nothing written into it, and the next frame of the window writes and posts nothing.
unfilled_frame :
    (c r r' time later : ℕ) (bytes more : ℤ) (k : Screencast) (b b' : ShmBuffer) (s : Screencaster)
    → IsIdle c k s
    → is_acceptable k.output b ≡ true
    → is_acceptable k.output b' ≡ true
    → bytes ≡ wrap32 (b.stride *ℤ b.height)
    → (t : Screencaster) × ((handle_all
            (recorded c r (some b)
              ∷ rendered k.window time bytes
              ∷ recorded c r' (some b')
              ∷ delivered
              ∷ rendered k.window later more
              ∷ [])
            s
          ≡ some t)
        × (t.sent
            ≡ ((s.sent ++ filled c (some r) bytes ∷ []) ++ cancelled c r ∷ [])
              ++ frame_sent c (some r') time ∷ [])
        × (t.posted ≡ [])
        × (t.requests ≡ []))
unfolding handle_all handle
unfilled_frame c r r' time later bytes more k b b' s idle good good' size =
    let s1 = recording c r k b s in
    let s2 = filled_with c r time bytes k b s in
    let s3 = asked_again c r r' time bytes k b b' s in
    let s4 = told c r r' time bytes k b b' s in
    let e1 = recorded c r (some b) in
    let e2 = rendered k.window time bytes in
    let e3 = recorded c r' (some b') in
    let e4 = rendered k.window later more in
    let one =
      handle_all-step e1 (e2 ∷ e3 ∷ delivered ∷ e4 ∷ []) s s1
        (ap some (record_first c r k b s idle good)) in
    let two =
      handle_all-step e2 (e3 ∷ delivered ∷ e4 ∷ []) s1 s2
        (render_first c r time bytes k b s idle size) in
    let three =
      handle_all-step e3 (delivered ∷ e4 ∷ []) s2 s3
        (ap some (record_again c r r' time bytes k b b' s idle.1 good')) in
    let four =
      handle_all-step delivered (e4 ∷ []) s3 s4
        (ap some (deliver_first c r r' time bytes k b b' s idle.1)) in
    let five =
      handle_all-step e4 [] s4 (record s4 { requests = [] })
        (render_none c r r' time later bytes more k b b' s) in
    (record s4 { requests = [] }, ((one ∙ two ∙ three ∙ four ∙ five), refl, refl, refl))
