-- ===== src/Server/Screenshots.antt =====
-- src/server/extensions/screenshooter.cpp: screenshots that clients ask for. `none` in place of a
-- new state stands for an access through a null pointer. What is read of a surface or an item is
-- its size, and a grabbed image is the number of its bytes, `none` if it is null.
pub mod Selection
pub mod Recording
use mathlib.Core.Option
use greenisland.Common.{
  ℕ, ◌-◌, ◌*◌, ◌/◌, ◌%◌, refl, Bool, true, false, not, ◌&&◌, ◌||◌, Option, none, some, List, [],
  ◌∷◌, ◌++◌, map, arith, ◌==◌, if◌then◌else◌, ℤ, pos, negsuc, ◌*ℤ◌, ltb_ℤ, eq_ℤ, Size, wrap32, ◌^◌,
}

pub data CaptureType : Type 0 where
  capture_output capture_active_window capture_window capture_area : CaptureType

-- A set of flags, by the number of the bit.
abbrev pub Effects : Type 0
Effects = ℕ → Bool

abbrev pub bit : ℕ → Effects
bit v i = (v / 2 ^ i) % 2 == 1

pub data Sent : Type 0 where
  setup_sent : ℕ → ℕ → ℕ → Sent
  copied : ℤ → Sent
  failed_sent done_sent : Sent

-- `ScreenshotPrivate`: `output` is the geometry's size of the output, and `sent` is what was sent
-- to the client and what was copied to its buffer.
pub record Screenshot : Type 0 where
  pub capture_type : CaptureType
  pub effects : Effects
  pub output : Option Size
  pub selected_surface : Option Size
  pub selected_area : Option Size
  pub sent : List Sent

-- The loop over the flags of a request, `&=` from no flag on.
unfoldable pub collect_effects : List ℕ → Effects → Effects
collect_effects [] e = e
collect_effects (v ∷ vs) e = collect_effects vs (λ i. e i && bit v i)

-- The four requests of the screenshooter; the resource of the output may be none.
unfoldable pub capture : CaptureType → Option Size → List ℕ → Screenshot
unfolding collect_effects
capture type output flags = record {
  capture_type = type;
  effects = collect_effects flags (λ i. false);
  output = output;
  selected_surface = none;
  selected_area = none;
  sent = [];
}

abbrev pub send : Sent → Screenshot → Screenshot
send e s = record s { sent = s.sent ++ e ∷ [] }

abbrev pub eq_type : CaptureType → CaptureType → Bool
eq_type capture_output capture_output = true
eq_type capture_active_window capture_active_window = true
eq_type capture_window capture_window = true
eq_type capture_area capture_area = true
eq_type _ _ = false

unfoldable pub select_surface : Size → Screenshot → Screenshot
select_surface surface s =
    if not (eq_type s.capture_type capture_active_window)
      || not (eq_type s.capture_type capture_window)
    then s
    else record s { selected_surface = some surface }

unfoldable pub select_area : Size → Screenshot → Screenshot
select_area area s =
    if not (eq_type s.capture_type capture_area) then s else record s { selected_area = some area }

-- The conversion of an `int` to `uint32_t`.
abbrev pub to_u32 : ℤ → ℕ
to_u32 (pos n) = n % 4294967296
to_u32 (negsuc n) = 4294967295 - n % 4294967296

unfoldable pub send_setup : Size → Screenshot → Screenshot
send_setup size s =
    let width = to_u32 size.width in
    send (setup_sent width (to_u32 size.height) (width * 4 % 4294967296)) s

-- `setup` looks at the surface for an area too.
unfoldable pub setup : Screenshot → Option Screenshot
unfolding send_setup
setup s = elim s.capture_type [
  | capture_output ↦ Option.map (λ size. send_setup size s) s.output
  | capture_area ↦ elim s.selected_surface [
    | none ↦ some s
    | some _ ↦ Option.map (λ size. send_setup size s) s.selected_area
  ]
  | _ ↦ elim s.selected_surface [ none ↦ some s | some size ↦ some (send_setup size s) ]
]

-- A buffer of shared memory; `has_data` says whether its memory is not null.
pub record ShmBuffer : Type 0 where
  pub width : ℤ
  pub height : ℤ
  pub stride : ℤ
  pub is_argb8888 : Bool
  pub has_data : Bool

abbrev pub matches : ShmBuffer → Bool
matches b = b.has_data && (eq_ℤ b.stride (wrap32 (b.width *ℤ pos 4)) && b.is_argb8888)

-- The check of the size for an output.
abbrev pub is_smaller : ShmBuffer → Size → Bool
is_smaller b size = ltb_ℤ b.width size.width || ltb_ℤ b.height size.height

-- The end of `record`, behind the capture.
unfoldable pub dump : ShmBuffer → Option ℕ → Screenshot → Screenshot
dump b none s = send failed_sent s
dump b (some bytes) s = send done_sent (send (copied (b.height *ℤ b.stride)) s)

-- The capture: of the window of the output, of the first view of the surface, or of the item. The
-- image is what is grabbed of it.
unfoldable pub capture_into : ShmBuffer → Option ℕ → Screenshot → Option Screenshot
unfolding dump
capture_into b image s = elim s.capture_type [
  | capture_output ↦ elim s.output [
    | none ↦ none
    | some size ↦ some (if is_smaller b size then send failed_sent s else dump b image s)
  ]
  | capture_area ↦ Option.map (λ _. dump b image s) s.selected_area
  | _ ↦ Option.map (λ _. dump b image s) s.selected_surface
]

-- A client records into a buffer; `none` for a buffer that is not of shared memory.
unfoldable pub record_into : Option ShmBuffer → Option ℕ → Screenshot → Option Screenshot
unfolding capture_into
record_into none image s = some (send failed_sent s)
record_into (some b) image s =
    if matches b then capture_into b image s else some (send failed_sent s)

-- What the compositor and the client ask of a screenshot.
pub data Request : Type 0 where
  surface_selected area_selected : Size → Request
  set_up : Request
  recorded : Option ShmBuffer → Option ℕ → Request

unfoldable pub handle : Request → Screenshot → Option Screenshot
unfolding select_surface select_area setup record_into
handle (surface_selected surface) s = some (select_surface surface s)
handle (area_selected area) s = some (select_area area s)
handle set_up s = setup s
handle (recorded b image) s = record_into b image s

unfoldable pub handle_all : List Request → Screenshot → Option Screenshot
unfolding handle
handle_all [] s = some s
handle_all (r ∷ rs) s = elim (handle r s) [ none ↦ none | some t ↦ handle_all rs t ]
