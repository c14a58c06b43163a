-- ===== src/Client/Tests.antt =====
-- The theorems about the client's pools, buffers and formats at concrete inputs.
use greenisland.Common.{
  ℕ, ◌≤◌, ◌≡◌, refl, ◌≢◌, ◌⊎◌, true, false, none, some, List, [], ◌∷◌, ◌++◌, arith, length,
  get_elem?, pos, ◌+ℤ◌, ◌*ℤ◌, ◌≤ℤ◌, Size, wrap32, All,
}
use greenisland.Client.Screencast.{
  Screencast, Slot, FrameEvent, frame_recorded, frame_event, init as new_screencast,
}
use greenisland.Client.Screencast.Starving.{IsGivenBack, IsRecordedAgain, frame_event-feeds}
use greenisland.Client.Registry.{
  Event as RegistryEvent, global_announce, global_remove, global_sync, Registry, InterfaceInfo,
  create, bind, output_interface, handle_announce, handle_remove, name_to_interface,
  handle_all as registry_after,
}
use greenisland.Client.Registry.Present.{present, handle_all-present}
use greenisland.Client.Registry.Removal.{
  removal_signals, IsWithout, handle_remove_lem, bind-handle_announce,
}
use greenisland.Client.Buffer.{Buffer, bytes, new_buffer}
use greenisland.Client.ShmPool.{
  Answers, Pool, init, at, reuse_buffer, is_free, first_free, ftruncate, mmap, request_pool,
  shm_create_pool, allocate,
}
use greenisland.Client.ShmPool.Layout.{IsValid, first, last, reuse_buffer-IsValid}
use greenisland.Client.ShmPool.Reachable.{created, requested, reached_disjoint}
use greenisland.Client.ShmPool.Reuse.{IsFor, reuse_buffer_existing, reuse_buffer-IsFor}

-- Every call succeeds.
abbrev willing : Answers
willing = record {
  opens = true;
  unlinks = true;
  truncates = true;
  maps = some 4096;
  creates_pool = true;
  creates_buffer = true;
  null_is_end = false;
}

abbrev square : Size
square = record { width = pos 10; height = pos 10 }

-- A pool with room for two buffers of 400 bytes, and a released first one.
abbrev first_buffer : Buffer
first_buffer = record {
  format = 0;
  size = square;
  stride = pos 40;
  offset = pos 0;
  released = true;
  used = false;
}

abbrev second_buffer : Buffer
second_buffer = record first_buffer { offset = pos 400; released = false }

abbrev two_buffers : Pool
two_buffers = record init {
  memory = some 4096;
  size = pos 1024;
  offset = pos 800;
  buffers = first_buffer ∷ second_buffer ∷ [];
}

valid_pool : IsValid two_buffers
unfolding init bytes wrap32 ◌*ℤ◌
valid_pool = record {
  used = 800;
  capacity = 1024;
  offset_used = refl;
  size_capacity = refl;
  tiles = (refl, refl, (refl, refl, refl));
  within = omega arith;
  fits = omega arith;
}

reuse_buffer-IsValid_example : IsValid (reuse_buffer willing square (pos 20) 0 two_buffers).0
unfolding wrap32 ◌*ℤ◌ init valid_pool
reuse_buffer-IsValid_example =
    reuse_buffer-IsValid willing square (pos 20) 0 200 two_buffers valid_pool refl (omega arith)

reuse_buffer_existing_example :
    let r = reuse_buffer willing square (pos 40) 0 two_buffers in
    (i : ℕ) × (b : Buffer) × (r.1 ≡ at i)
    × (get_elem? two_buffers.buffers i ≡ some b)
    × (is_free square (pos 40) 0 b ≡ true)
    × (get_elem? r.0.buffers i ≡ some (record b { released = false }))
    × (r.0.calls ≡ two_buffers.calls)
    × (r.0.size ≡ two_buffers.size)
    × (r.0.offset ≡ two_buffers.offset)
    × (length r.0.buffers ≡ length two_buffers.buffers)
unfolding is_free init
reuse_buffer_existing_example =
    reuse_buffer_existing willing square (pos 40) 0 two_buffers (0, first_buffer, refl, refl)

reuse_buffer-IsFor_example :
    (b : Buffer) × (get_elem? (reuse_buffer willing square (pos 40) 0 two_buffers).0.buffers 0
      ≡ some b)
    × IsFor square (pos 40) 0 b
unfolding reuse_buffer first_free is_free init
reuse_buffer-IsFor_example = reuse_buffer-IsFor willing square (pos 40) 0 two_buffers 0 refl

-- A pool of 1024 bytes, and what two requests for buffers of 400 bytes make of it.
abbrev empty_pool : Pool
empty_pool = record {
  memory = some 4096;
  size = pos 1024;
  offset = pos 0;
  buffers = [];
  calls = ftruncate 1024 ∷ mmap 1024 ∷ request_pool 1024 ∷ [];
}

abbrev filled_pool : Pool
filled_pool =
    (reuse_buffer willing square (pos 40) 0 (reuse_buffer willing square (pos 40) 0 empty_pool).0).0

reached_disjoint_example :
    (last (record first_buffer { released = false }) ≤ first second_buffer)
    × (pos (last second_buffer) ≤ℤ filled_pool.size)
unfolding shm_create_pool reuse_buffer first_free allocate new_buffer wrap32 ◌*ℤ◌ ◌+ℤ◌ is_free
reached_disjoint_example =
    reached_disjoint filled_pool 0 1 (record first_buffer { released = false }) second_buffer
      (requested willing square (pos 40) 0 400 1024
        (requested willing square (pos 40) 0 400 1024 (created willing 1024 (omega arith) refl) refl
          refl (omega arith))
        refl refl (omega arith))
      (omega arith) refl refl

-- Two outputs and the shared memory are announced, and the first output goes away.
abbrev globals : List RegistryEvent
globals =
    global_announce 1 "wl_output" 2
    ∷ global_announce 2 "wl_output" 2
    ∷ global_announce 3 "wl_shm" 1
    ∷ global_sync
    ∷ global_remove 1
    ∷ []

handle_all-present_example : (registry_after globals create).interfaces ≡ present globals
unfolding name_to_interface
handle_all-present_example = handle_all-present globals (refl, (refl, (refl, tt)))

abbrev one_output : Registry
one_output = record {
  interfaces = record { interface = output_interface; name = 1; version = 2 } ∷ [];
  callback = false;
  signals = [];
}

handle_remove_lem_example :
    let t = handle_remove 1 one_output in
    (All (λ j. j.name ≢ 1) one_output.interfaces
      × (t.interfaces ≡ one_output.interfaces)
      × (t.signals ≡ [] ++ removal_signals none 1 t.interfaces))
    ⊎ ((i : InterfaceInfo) × (IsWithout 1 i one_output.interfaces t.interfaces
          × (t.signals ≡ [] ++ removal_signals (some i) 1 t.interfaces)))
handle_remove_lem_example = handle_remove_lem 1 one_output

bind-handle_announce_example :
    bind (name_to_interface "wl_shm") (handle_announce "wl_shm" 3 1 one_output).interfaces
    ≡ some (3, some "wl_shm", 1)
unfolding name_to_interface
bind-handle_announce_example = bind-handle_announce "wl_shm" 3 1 one_output refl refl

-- The only buffer is the compositor's.
abbrev starved : Screencast
starved = record new_screencast {
  has_pool = true;
  slots = record { buffer = some 7; busy = true } ∷ [];
  starving = true;
}

frame_event-feeds_example :
    let e : FrameEvent = record { slot = 0; time = 100; transform = 0 } in
    let k : Slot = record { buffer = some 7; busy = true } in
    let t = frame_event e starved in
    (t.starving ≡ false)
    × (t.signals ≡ starved.signals ++ frame_recorded 7 100 0 ∷ [])
    × (((starved.starving ≡ false) × IsGivenBack e k 7 starved t)
        ⊎ ((starved.starving ≡ true) × IsRecordedAgain e k 7 starved t))
unfolding new_screencast
frame_event-feeds_example =
    frame_event-feeds (record { slot = 0; time = 100; transform = 0 }) starved
      (record { buffer = some 7; busy = true }) 7 refl refl
