-- ===== src/Client/Shm.antt =====
-- The pixel formats of src/client/shm.h and shm.cpp: the enumeration `Shm::Format` with its wire
-- values, `Shm::formatToString`, the list that `shm_format` events fill, and `Shm::createPool`'s
-- caller side in Client.ShmPool.
use greenisland.Common.{
  ℕ, String, ◌≡◌, refl, sym, ap, ◌∙◌, List, [], ◌∷◌, ◌++◌, Option, none, some, ◌==◌, str_eq,
  if◌then◌else◌,
}

pub data Format : Type 0 where
  argb32 rgb32 c8 rgb332 bgr233 xrgb4444 xbgr4444 rgbx4444 bgrx4444 argb4444 abgr4444 : Format
  rgba4444 bgra4444 xrgb1555 xbgr1555 rgbx5551 bgrx5551 argb1555 abgr1555 rgba5551 : Format
  bgra5551 rgb565 bgr565 rgb888 bgr888 xbgr8888 rgbx8888 bgrx8888 abgr8888 rgba8888 : Format
  bgra8888 xrgb2101010 xbgr2101010 rgbx1010102 bgrx1010102 argb2101010 abgr2101010 : Format
  rgba1010102 bgra1010102 yuyv yvyu uyvy vyuy ayuv nv12 nv21 nv16 nv61 yuv410 yvu410 : Format
  yuv411 yvu411 yuv420 yvu420 yuv422 yvu422 yuv444 yvu444 : Format

-- The value of the enumerator.
pub wire : Format → ℕ
wire argb32 = 0
wire rgb32 = 1
wire c8 = 0x20203843
wire rgb332 = 0x38424752
wire bgr233 = 0x38524742
wire xrgb4444 = 0x32315258
wire xbgr4444 = 0x32314258
wire rgbx4444 = 0x32315852
wire bgrx4444 = 0x32315842
wire argb4444 = 0x32315241
wire abgr4444 = 0x32314241
wire rgba4444 = 0x32314152
wire bgra4444 = 0x32314142
wire xrgb1555 = 0x35315258
wire xbgr1555 = 0x35314258
wire rgbx5551 = 0x35315852
wire bgrx5551 = 0x35315842
wire argb1555 = 0x35315241
wire abgr1555 = 0x35314241
wire rgba5551 = 0x35314152
wire bgra5551 = 0x35314142
wire rgb565 = 0x36314752
wire bgr565 = 0x36314742
wire rgb888 = 0x34324752
wire bgr888 = 0x34324742
wire xbgr8888 = 0x34324258
wire rgbx8888 = 0x34325852
wire bgrx8888 = 0x34325842
wire abgr8888 = 0x34324241
wire rgba8888 = 0x34324152
wire bgra8888 = 0x34324142
wire xrgb2101010 = 0x30335258
wire xbgr2101010 = 0x30334258
wire rgbx1010102 = 0x30335852
wire bgrx1010102 = 0x30335842
wire argb2101010 = 0x30335241
wire abgr2101010 = 0x30334241
wire rgba1010102 = 0x30334152
wire bgra1010102 = 0x30334142
wire yuyv = 0x56595559
wire yvyu = 0x55595659
wire uyvy = 0x59565955
wire vyuy = 0x59555956
wire ayuv = 0x56555941
wire nv12 = 0x3231564e
wire nv21 = 0x3132564e
wire nv16 = 0x3631564e
wire nv61 = 0x3136564e
wire yuv410 = 0x39565559
wire yvu410 = 0x39555659
wire yuv411 = 0x31315559
wire yvu411 = 0x31315659
wire yuv420 = 0x32315559
wire yvu420 = 0x32315659
wire yuv422 = 0x36315559
wire yvu422 = 0x36315659
wire yuv444 = 0x34325559
wire yvu444 = 0x34325659

unfoldable pub format_to_string : Format → String
format_to_string argb32 = "ARGB32"
format_to_string rgb32 = "RGB32"
format_to_string c8 = "C8"
format_to_string rgb332 = "RGB332"
format_to_string bgr233 = "BGR233"
format_to_string xrgb4444 = "XRGB4444"
format_to_string xbgr4444 = "XBGR4444"
format_to_string rgbx4444 = "RGBX4444"
format_to_string bgrx4444 = "BGRX4444"
format_to_string argb4444 = "ARGB4444"
format_to_string abgr4444 = "ABGR4444"
format_to_string rgba4444 = "RGBA4444"
format_to_string bgra4444 = "BGRA4444"
format_to_string xrgb1555 = "XRGB15555"
format_to_string xbgr1555 = "XBGR1555"
format_to_string rgbx5551 = "RGBX5551"
format_to_string bgrx5551 = "BGRX5551"
format_to_string argb1555 = "ARGB1555"
format_to_string abgr1555 = "ABGR1555"
format_to_string rgba5551 = "RGBA5551"
format_to_string bgra5551 = "BGRA5551"
format_to_string rgb565 = "RGB565"
format_to_string bgr565 = "BGR565"
format_to_string rgb888 = "RGB888"
format_to_string bgr888 = "BGR888"
format_to_string xbgr8888 = "XBGR8888"
format_to_string rgbx8888 = "RGBX8888"
format_to_string bgrx8888 = "BGRX8888"
format_to_string abgr8888 = "ABGR8888"
format_to_string rgba8888 = "RGBA8888"
format_to_string bgra8888 = "BGRA8888"
format_to_string xrgb2101010 = "XRGB2101010"
format_to_string xbgr2101010 = "XGBGR2101010"
format_to_string rgbx1010102 = "RGBX1010102"
format_to_string bgrx1010102 = "BGRX1010102"
format_to_string argb2101010 = "ARGB2101010"
format_to_string abgr2101010 = "ABGR2101010"
format_to_string rgba1010102 = "RGBA1010102"
format_to_string bgra1010102 = "BGRA1010102"
format_to_string yuyv = "YUYV"
format_to_string yvyu = "YVYU"
format_to_string uyvy = "UYVY"
format_to_string vyuy = "VYUY"
format_to_string ayuv = "AYUV"
format_to_string nv12 = "NV12"
format_to_string nv21 = "NV21"
format_to_string nv16 = "NV16"
format_to_string nv61 = "NV61"
format_to_string yuv410 = "YUV410"
format_to_string yvu410 = "YVU410"
format_to_string yuv411 = "YUV411"
format_to_string yvu411 = "YVU411"
format_to_string yuv420 = "YUV420"
format_to_string yvu420 = "YVU420"
format_to_string yuv422 = "YUV422"
format_to_string yvu422 = "YVU422"
format_to_string yuv444 = "YUV444"
format_to_string yvu444 = "YVU444"

-- Every enumerator, in the order of the declaration.
abbrev all_formats : List Format
all_formats =
    argb32 ∷ rgb32 ∷ c8 ∷ rgb332 ∷ bgr233 ∷ xrgb4444 ∷ xbgr4444 ∷ rgbx4444 ∷ bgrx4444 ∷ argb4444
    ∷ abgr4444 ∷ rgba4444 ∷ bgra4444 ∷ xrgb1555 ∷ xbgr1555 ∷ rgbx5551 ∷ bgrx5551 ∷ argb1555
    ∷ abgr1555 ∷ rgba5551 ∷ bgra5551 ∷ rgb565 ∷ bgr565 ∷ rgb888 ∷ bgr888 ∷ xbgr8888 ∷ rgbx8888
    ∷ bgrx8888 ∷ abgr8888 ∷ rgba8888 ∷ bgra8888 ∷ xrgb2101010 ∷ xbgr2101010 ∷ rgbx1010102
    ∷ bgrx1010102 ∷ argb2101010 ∷ abgr2101010 ∷ rgba1010102 ∷ bgra1010102 ∷ yuyv ∷ yvyu ∷ uyvy
    ∷ vyuy ∷ ayuv ∷ nv12 ∷ nv21 ∷ nv16 ∷ nv61 ∷ yuv410 ∷ yvu410 ∷ yuv411 ∷ yvu411 ∷ yuv420 ∷ yvu420
    ∷ yuv422 ∷ yvu422 ∷ yuv444 ∷ yvu444 ∷ []

-- The first format with a name, and the first with a wire value.
find_name : String → List Format → Option Format
find_name s [] = none
find_name s (f ∷ fs) = if str_eq (format_to_string f) s then some f else find_name s fs

find_wire : ℕ → List Format → Option Format
find_wire w [] = none
find_wire w (f ∷ fs) = if wire f == w then some f else find_wire w fs

find_name-format_to_string : (f : Format) → find_name (format_to_string f) all_formats ≡ some f
unfolding find_name format_to_string
find_name-format_to_string argb32 = refl
find_name-format_to_string rgb32 = refl
find_name-format_to_string c8 = refl
find_name-format_to_string rgb332 = refl
find_name-format_to_string bgr233 = refl
find_name-format_to_string xrgb4444 = refl
find_name-format_to_string xbgr4444 = refl
find_name-format_to_string rgbx4444 = refl
find_name-format_to_string bgrx4444 = refl
find_name-format_to_string argb4444 = refl
find_name-format_to_string abgr4444 = refl
find_name-format_to_string rgba4444 = refl
find_name-format_to_string bgra4444 = refl
find_name-format_to_string xrgb1555 = refl
find_name-format_to_string xbgr1555 = refl
find_name-format_to_string rgbx5551 = refl
find_name-format_to_string bgrx5551 = refl
find_name-format_to_string argb1555 = refl
find_name-format_to_string abgr1555 = refl
find_name-format_to_string rgba5551 = refl
find_name-format_to_string bgra5551 = refl
find_name-format_to_string rgb565 = refl
find_name-format_to_string bgr565 = refl
find_name-format_to_string rgb888 = refl
find_name-format_to_string bgr888 = refl
find_name-format_to_string xbgr8888 = refl
find_name-format_to_string rgbx8888 = refl
find_name-format_to_string bgrx8888 = refl
find_name-format_to_string abgr8888 = refl
find_name-format_to_string rgba8888 = refl
find_name-format_to_string bgra8888 = refl
find_name-format_to_string xrgb2101010 = refl
find_name-format_to_string xbgr2101010 = refl
find_name-format_to_string rgbx1010102 = refl
find_name-format_to_string bgrx1010102 = refl
find_name-format_to_string argb2101010 = refl
find_name-format_to_string abgr2101010 = refl
find_name-format_to_string rgba1010102 = refl
find_name-format_to_string bgra1010102 = refl
find_name-format_to_string yuyv = refl
find_name-format_to_string yvyu = refl
find_name-format_to_string uyvy = refl
find_name-format_to_string vyuy = refl
find_name-format_to_string ayuv = refl
find_name-format_to_string nv12 = refl
find_name-format_to_string nv21 = refl
find_name-format_to_string nv16 = refl
find_name-format_to_string nv61 = refl
find_name-format_to_string yuv410 = refl
find_name-format_to_string yvu410 = refl
find_name-format_to_string yuv411 = refl
find_name-format_to_string yvu411 = refl
find_name-format_to_string yuv420 = refl
find_name-format_to_string yvu420 = refl
find_name-format_to_string yuv422 = refl
find_name-format_to_string yvu422 = refl
find_name-format_to_string yuv444 = refl
find_name-format_to_string yvu444 = refl

find_wire-wire : (f : Format) → find_wire (wire f) all_formats ≡ some f
unfolding find_wire wire
find_wire-wire argb32 = refl
find_wire-wire rgb32 = refl
find_wire-wire c8 = refl
find_wire-wire rgb332 = refl
find_wire-wire bgr233 = refl
find_wire-wire xrgb4444 = refl
find_wire-wire xbgr4444 = refl
find_wire-wire rgbx4444 = refl
find_wire-wire bgrx4444 = refl
find_wire-wire argb4444 = refl
find_wire-wire abgr4444 = refl
find_wire-wire rgba4444 = refl
find_wire-wire bgra4444 = refl
find_wire-wire xrgb1555 = refl
find_wire-wire xbgr1555 = refl
find_wire-wire rgbx5551 = refl
find_wire-wire bgrx5551 = refl
find_wire-wire argb1555 = refl
find_wire-wire abgr1555 = refl
find_wire-wire rgba5551 = refl
find_wire-wire bgra5551 = refl
find_wire-wire rgb565 = refl
find_wire-wire bgr565 = refl
find_wire-wire rgb888 = refl
find_wire-wire bgr888 = refl
find_wire-wire xbgr8888 = refl
find_wire-wire rgbx8888 = refl
find_wire-wire bgrx8888 = refl
find_wire-wire abgr8888 = refl
find_wire-wire rgba8888 = refl
find_wire-wire bgra8888 = refl
find_wire-wire xrgb2101010 = refl
find_wire-wire xbgr2101010 = refl
find_wire-wire rgbx1010102 = refl
find_wire-wire bgrx1010102 = refl
find_wire-wire argb2101010 = refl
find_wire-wire abgr2101010 = refl
find_wire-wire rgba1010102 = refl
find_wire-wire bgra1010102 = refl
find_wire-wire yuyv = refl
find_wire-wire yvyu = refl
find_wire-wire uyvy = refl
find_wire-wire vyuy = refl
find_wire-wire ayuv = refl
find_wire-wire nv12 = refl
find_wire-wire nv21 = refl
find_wire-wire nv16 = refl
find_wire-wire nv61 = refl
find_wire-wire yuv410 = refl
find_wire-wire yvu410 = refl
find_wire-wire yuv411 = refl
find_wire-wire yvu411 = refl
find_wire-wire yuv420 = refl
find_wire-wire yvu420 = refl
find_wire-wire yuv422 = refl
find_wire-wire yvu422 = refl
find_wire-wire yuv444 = refl
find_wire-wire yvu444 = refl

some_injective : {f g : Format} → some f ≡ some g → f ≡ g
some_injective h = cc

-- Two formats with the same name are the same format.
format_to_string_injective : (f g : Format) → format_to_string f ≡ format_to_string g → f ≡ g
format_to_string_injective f g h = some_injective (
    sym (find_name-format_to_string f)
    ∙ ap (λ s. find_name s all_formats) h
    ∙ find_name-format_to_string g)

-- Two formats with the same wire value are the same format.
wire_injective : (f g : Format) → wire f ≡ wire g → f ≡ g
wire_injective f g h =
    some_injective (sym (find_wire-wire f) ∙ ap (λ w. find_wire w all_formats) h ∙ find_wire-wire g)

-- `ShmPrivate::shm_format`: the announced value is appended to `formats`, and reported.
unfoldable pub shm_format : ℕ → List ℕ → List ℕ × ℕ
shm_format format formats = (formats ++ format ∷ [], format)
