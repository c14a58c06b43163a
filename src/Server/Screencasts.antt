-- ===== src/Server/Screencasts.antt =====
-- src/server/extensions/screencaster.cpp: the frames that clients record. A screencast, a window
-- and the resource of a buffer are known by numbers. The rendering thread calls `recordFrame`, and
-- tells the other thread by events; a step of either thread is one step here. `none` in place of a
-- new state stands for an access to a screencast that is not there.
pub mod Requests
pub mod Stays
pub mod Live
pub mod Races
use greenisland.Common.{
  ℕ, refl, Bool, true, false, not, ◌&&◌, ◌||◌, Option, none, some, List, [], ◌∷◌, ◌++◌, arith, ◌==◌,
  if◌then◌else◌, ℤ, pos, ◌*ℤ◌, ltb_ℤ, eq_ℤ, Size, wrap32,
}

pub record ShmBuffer : Type 0 where
  pub width : ℤ
  pub height : ℤ
  pub stride : ℤ
  pub is_xrgb8888 : Bool

-- `ScreencastPrivate`; `output` is the size of the output's geometry.
pub record Screencast : Type 0 where
  pub valid : Bool
  pub window : ℕ
  pub output : Size
  pub buffer_resource : Option ℕ
  pub buffer : Option ShmBuffer

pub data Posted : Type 0 where
  success_event : ℕ → Posted
  failed_event : Posted

-- What is sent to a screencast's client, and the bytes that are written into its buffer.
pub data Sent : Type 0 where
  setup_sent : ℕ → Size → Sent
  cancelled : ℕ → ℕ → Sent
  failed : ℕ → Option ℕ → Sent
  frame_sent : ℕ → Option ℕ → ℕ → Sent
  filled : ℕ → Option ℕ → ℤ → Sent

-- `ScreencasterPrivate` with the screencasts that exist: `requests` are pairs of a window and a
-- screencast, and `posted` are the events that wait to be delivered.
pub record Screencaster : Type 0 where
  pub casts : ℕ → Option Screencast
  pub requests : List (ℕ × ℕ)
  pub posted : List (ℕ × Posted)
  pub sent : List Sent

unfoldable pub init : Screencaster
init = record { casts = λ c. none; requests = []; posted = []; sent = [] }

abbrev pub send : Sent → Screencaster → Screencaster
send e s = record s { sent = s.sent ++ e ∷ [] }

abbrev pub write : ℕ → Option Screencast → (ℕ → Option Screencast) → ℕ → Option Screencast
write c k casts x = if x == c then k else casts x

abbrev pub put : ℕ → Screencast → Screencaster → Screencaster
put c k s = record s { casts = write c (some k) s.casts }

-- `requests.remove`, with a window and for every window, and `requests.values`.
abbrev pub remove_pair : ℕ → ℕ → List (ℕ × ℕ) → List (ℕ × ℕ)
remove_pair w c [] = []
remove_pair w c (p ∷ ps) =
    let rest = remove_pair w c ps in if p.0 == w && p.1 == c then rest else p ∷ rest

abbrev pub remove_cast : ℕ → List (ℕ × ℕ) → List (ℕ × ℕ)
remove_cast c [] = []
remove_cast c (p ∷ ps) = let rest = remove_cast c ps in if p.1 == c then rest else p ∷ rest

abbrev pub values : ℕ → List (ℕ × ℕ) → List ℕ
values w [] = []
values w (p ∷ ps) = let rest = values w ps in if p.0 == w then p.1 ∷ rest else rest

-- `capture`, with the window of the output, its size and the size of the output's geometry, where
-- both are there. A new screencast has an address of its own.
unfoldable pub capture : ℕ → Option (ℕ × Size × Size) → Screencaster → Screencaster
capture c none s = s
capture c (some (w, size, output)) s = elim (s.casts c) [
  | some _ ↦ s
  | none ↦ send (setup_sent c size) (
      put c
        (record {
          valid = true;
          window = w;
          output = output;
          buffer_resource = none;
          buffer = none;
        })
        s)
]

abbrev pub is_acceptable : Size → ShmBuffer → Bool
is_acceptable output b =
    not (ltb_ℤ b.width output.width || ltb_ℤ b.height output.height)
    && (eq_ℤ b.stride (wrap32 (b.width *ℤ pos 4)) && b.is_xrgb8888)

-- The buffer after the checks, `none` for a resource that is not of shared memory.
abbrev pub verified : Size → Option ShmBuffer → Option ShmBuffer
verified output none = none
verified output (some b) = if is_acceptable output b then some b else none

abbrev cancel : ℕ → Option ℕ → Screencaster → Screencaster
cancel c none s = s
cancel c (some r) s = send (cancelled c r) s

-- `screencast_record` of an existing screencast; the client of one that it destroyed asks nothing.
unfoldable pub record_buffer : ℕ → Screencast → ℕ → Option ShmBuffer → Screencaster → Screencaster
record_buffer c k r b s =
    let t = cancel c k.buffer_resource s in
    elim (verified k.output b) [
      | none ↦
          send (failed c (some r)) (put c (record k { buffer_resource = none; buffer = none }) t)
      | some v ↦
          let u = put c (record k { buffer_resource = some r; buffer = some v }) t in
          record u { requests = (k.window, c) ∷ u.requests }
    ]

-- `frameRecording`, with the bytes of the grabbed image.
unfoldable pub frame_recording : ℕ → ℕ → ℤ → Screencast → ShmBuffer → Screencaster → Screencaster
frame_recording c time bytes k b s =
    let size = wrap32 (b.stride *ℤ b.height) in
    if not k.valid
    then s
    else if not (eq_ℤ bytes size)
    then record s { posted = s.posted ++ (c, failed_event) ∷ [] }
    else record (send (filled c k.buffer_resource size) s) {
      posted = s.posted ++ (c, success_event time) ∷ [];
    }

-- The loop of `recordFrame` over the screencasts that were asked for the window.
unfoldable pub record_each : ℕ → ℕ → ℤ → List ℕ → Screencaster → Option Screencaster
unfolding frame_recording
record_each w time bytes [] s = some s
record_each w time bytes (c ∷ cs) s =
    let t = record s { requests = remove_pair w c s.requests } in
    elim (t.casts c) [
      | none ↦ none
      | some k ↦ elim k.buffer [
        | none ↦ record_each w time bytes cs t
        | some b ↦ record_each w time bytes cs (frame_recording c time bytes k b t)
      ]
    ]

unfoldable pub record_frame : ℕ → ℕ → ℤ → Screencaster → Option Screencaster
unfolding record_each
record_frame w time bytes s = record_each w time bytes (values w s.requests) s

abbrev answer : ℕ → Option ℕ → Posted → Sent
answer c r (success_event time) = frame_sent c r time
answer c r failed_event = failed c r

-- `event` of a screencast that is there.
unfoldable pub deliver : ℕ → Posted → Screencaster → Screencaster
deliver c e s = elim (s.casts c) [
  | none ↦ s
  | some k ↦
      let t = if k.valid then send (answer c k.buffer_resource e) s else s in
      put c (record k { buffer_resource = none; buffer = none }) t
]

unfoldable pub deliver_next : Screencaster → Screencaster
unfolding deliver
deliver_next s = elim s.posted [ [] ↦ s | p ∷ ps ↦ deliver p.0 p.1 (record s { posted = ps }) ]

-- A screencast whose buffer's resource goes away.
abbrev pub without : ℕ → Option Screencast → Option Screencast
without r none = none
without r (some k) = elim k.buffer_resource [
  | none ↦ some k
  | some x ↦ some (if x == r then record k { buffer_resource = none; buffer = none } else k)
]

unfoldable pub destroy_cast : ℕ → Screencaster → Screencaster
destroy_cast c s = elim (s.casts c) [
  | none ↦ s
  | some k ↦ record (put c (record k { valid = false }) s) { requests = remove_cast c s.requests }
]

-- The event of the deletion that `destroy` asked for: `event` of a screencast that is not valid any
-- more passes nothing on, so that the screencast stays, without a buffer.
unfoldable pub delete_event : ℕ → Screencaster → Screencaster
delete_event c s = elim (s.casts c) [
  | none ↦ s
  | some k ↦ if k.valid then s else put c (record k { buffer_resource = none; buffer = none }) s
]

unfoldable pub record_request : ℕ → ℕ → Option ShmBuffer → Screencaster → Screencaster
unfolding record_buffer
record_request c r b s = elim (s.casts c) [
  | none ↦ s
  | some k ↦ if k.valid then record_buffer c k r b s else s
]

-- What clients ask, what the rendering and the event loop do, and the end of a buffer's resource.
pub data Event : Type 0 where
  captured : ℕ → Option (ℕ × Size × Size) → Event
  recorded : ℕ → ℕ → Option ShmBuffer → Event
  rendered : ℕ → ℕ → ℤ → Event
  delivered : Event
  resource_destroyed : ℕ → Event
  destroyed deleted : ℕ → Event

unfoldable pub handle : Event → Screencaster → Option Screencaster
unfolding capture record_request record_frame deliver_next destroy_cast delete_event
handle (captured c output) s = some (capture c output s)
handle (recorded c r b) s = some (record_request c r b s)
handle (rendered w time bytes) s = record_frame w time bytes s
handle delivered s = some (deliver_next s)
handle (resource_destroyed r) s = some (record s { casts = λ c. without r (s.casts c) })
handle (destroyed c) s = some (destroy_cast c s)
handle (deleted c) s = some (delete_event c s)

unfoldable pub handle_all : List Event → Screencaster → Option Screencaster
unfolding handle
handle_all [] s = some s
handle_all (e ∷ es) s = elim (handle e s) [ none ↦ none | some t ↦ handle_all es t ]
