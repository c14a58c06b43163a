-- ===== src/Server/Tests/Recordings.antt =====
-- The theorems about screenshots and screencasts at concrete inputs.
use greenisland.Common.{true, false, none, some, List, [], ◌∷◌, pos, Size, Option, ℕ}
use greenisland.Server.Screenshots.{capture_output, capture_window, Screenshot, ShmBuffer}
use greenisland.Server.Screencasts.{
  Event, captured, rendered, delivered, resource_destroyed, destroyed, deleted,
  recorded as frame_recorded, handle_all as screencaster_after, ShmBuffer as FrameBuffer,
}

abbrev small : Size
small = record { width = pos 4; height = pos 3 }

abbrev buffer : ShmBuffer
buffer = record {
  width = pos 4;
  height = pos 3;
  stride = pos 16;
  is_argb8888 = true;
  has_data = true;
}

abbrev window_shot : Screenshot
window_shot = record {
  capture_type = capture_window;
  effects = λ i. false;
  output = none;
  selected_surface = none;
  selected_area = none;
  sent = [];
}

abbrev shot : Screenshot
shot = record window_shot { capture_type = capture_output; output = some small }

-- The bytes of the image of the output.
abbrev grabbed : Option ℕ
grabbed = some 48

abbrev bigger : ShmBuffer
bigger = record buffer { height = pos 5 }

abbrev frame_buffer : FrameBuffer
frame_buffer = record { width = pos 4; height = pos 3; stride = pos 16; is_xrgb8888 = true }

-- A client leaves while a frame waits to be told.
abbrev leaving : List Event
leaving =
    captured 7 (some (1, small, small))
    ∷ frame_recorded 7 20 (some frame_buffer)
    ∷ rendered 1 1000 (pos 48)
    ∷ frame_recorded 7 21 (some frame_buffer)
    ∷ resource_destroyed 21
    ∷ destroyed 7
    ∷ delivered
    ∷ deleted 7
    ∷ rendered 1 1016 (pos 48)
    ∷ []
