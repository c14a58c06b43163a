-- ===== src/Client/Screencast.antt =====
-- src/client/screencaster.cpp: a client that records an output, with several buffers in turn. What
-- the pool (Client/ShmPool.antt) returned for its buffers is an argument, a buffer being known by a
-- number; a slot is known by its place in the list. A frame is handled by an event in another
-- thread: `deliver` is what that thread does, and the other operations are what the thread of the
-- compositor's messages does. How the steps of the two interleave is not modelled. `none` in place of a new state stands for an
-- access through a null pointer.
pub mod Starving
use greenisland.Common.{
  ℕ, ◌+◌, refl, Bool, true, false, not, ◌||◌, Option, none, some, List, [], ◌∷◌, ◌++◌, arith, ◌==◌,
  if◌then◌else◌, get_elem?, set, ℤ, Size,
}

-- `ScreencastBuffer`.
pub record Slot : Type 0 where
  pub buffer : Option ℕ
  pub busy : Bool

pub data Signal : Type 0 where
  setup_failed canceled failed : Signal
  setup_done : Size → ℤ → Signal
  frame_recorded : ℕ → ℕ → ℕ → Signal

-- The requests to the compositor, and the buffers that a frame event gives back.
pub data Step : Type 0 where
  recorded released : ℕ → Step

-- A frame event that waits: the place of its slot, the time and the transform.
pub record FrameEvent : Type 0 where
  pub slot : ℕ
  pub time : ℕ
  pub transform : ℕ

-- `ScreencastPrivate`; `steps` is what was done with the buffers.
pub record Screencast : Type 0 where
  pub has_pool : Bool
  pub slots : List Slot
  pub starving : Bool
  pub posted : List FrameEvent
  pub steps : List Step
  pub signals : List Signal

unfoldable pub init : Screencast
init = record {
  has_pool = false;
  slots = [];
  starving = false;
  posted = [];
  steps = [];
  signals = [];
}

abbrev pub emit : Signal → Screencast → Screencast
emit e s = record s { signals = s.signals ++ e ∷ [] }

-- The buffer of a slot that may be recorded into.
abbrev pub free_buffer : Slot → Option ℕ
free_buffer k = if k.busy then none else k.buffer

-- The first free buffer, and the slots with that one busy.
abbrev pub first_free : List Slot → Option ℕ
first_free [] = none
first_free (k ∷ ks) = elim (free_buffer k) [ none ↦ first_free ks | some b ↦ some b ]

abbrev pub occupy : List Slot → List Slot
occupy [] = []
occupy (k ∷ ks) = elim (free_buffer k) [
  | none ↦ k ∷ occupy ks
  | some _ ↦ record k { busy = true } ∷ ks
]

unfoldable pub record_frame : Screencast → Screencast
record_frame s = elim (first_free s.slots) [
  | none ↦ record s { starving = true }
  | some b ↦ record s {
    slots = occupy s.slots;
    steps = s.steps ++ recorded b ∷ [];
    starving = false;
  }
]

abbrev pub slots_of : List (Option ℕ) → List Slot
slots_of [] = []
slots_of (b ∷ bs) = record { buffer = b; busy = false } ∷ slots_of bs

-- `screencast_setup`: whether the format is supported, whether the pool is created, and the buffers
-- that it returns.
unfoldable pub setup : Bool → Bool → List (Option ℕ) → Size → ℤ → Screencast → Option Screencast
unfolding record_frame
setup supported creates buffers size stride s =
    if not supported
    then some (emit setup_failed s)
    else (let t = record s { has_pool = s.has_pool || creates } in
        if not t.has_pool
        then none
        else some (
            emit (setup_done size stride)
              (record_frame (record t { slots = t.slots ++ slots_of buffers }))))

abbrev pub is_buffer : ℕ → Slot → Bool
is_buffer b k = elim k.buffer [ none ↦ false | some x ↦ x == b ]

abbrev pub find_slot : ℕ → ℕ → List Slot → Option ℕ
find_slot b i [] = none
find_slot b i (k ∷ ks) = if is_buffer b k then some i else find_slot b (i + 1) ks

-- `screencast_frame`: another frame is recorded first, and then the event is posted.
unfoldable pub frame : ℕ → ℕ → ℕ → Screencast → Screencast
unfolding record_frame
frame b time transform s =
    let t = record_frame s in
    elim (find_slot b 0 t.slots) [
      | none ↦ t
      | some i ↦
          let e : FrameEvent = record { slot = i; time = time; transform = transform } in
          record t { posted = t.posted ++ e ∷ [] }
    ]

-- `screencast_cancelled`, which looks for a slot without a buffer that has this buffer.
abbrev pub free_cancelled : ℕ → List Slot → List Slot
free_cancelled b [] = []
free_cancelled b (k ∷ ks) = elim k.buffer [
  | none ↦ if is_buffer b k then record k { busy = false } ∷ ks else k ∷ free_cancelled b ks
  | some _ ↦ k ∷ free_cancelled b ks
]

unfoldable pub cancelled : ℕ → Screencast → Screencast
cancelled b s = emit canceled (record s { slots = free_cancelled b s.slots })

-- The handler of a frame event; the buffer of its slot is not null.
unfoldable pub frame_event : FrameEvent → Screencast → Screencast
unfolding record_frame
frame_event e s = elim (get_elem? s.slots e.slot) [
  | none ↦ s
  | some k ↦ elim k.buffer [
    | none ↦ s
    | some b ↦
        let t = record s {
          slots = set s.slots e.slot (record k { busy = false });
          steps = s.steps ++ released b ∷ [];
        } in
        emit (frame_recorded b e.time e.transform) (if t.starving then record_frame t else t)
  ]
]

unfoldable pub deliver : Screencast → Screencast
unfolding frame_event
deliver s = elim s.posted [ [] ↦ s | e ∷ es ↦ frame_event e (record s { posted = es }) ]
