-- ===== src/Server/Screenshots/Recording.antt =====
-- What a recording into a buffer comes to.
use native.Mathlib.Nat.{
  mul-le-mul_left, mul-le-mul_right, mul-lt-mul_of_pos_left, mul-lt-mul_of_pos_right,
}
use greenisland.Common.{
  ℕ, ◌*◌, ◌≤◌, ◌<◌, ◌≡◌, ◌≢◌, ◌⊎◌, inl, inr, true, Option, none, some, arith, pos, ◌*ℤ◌, ◌≤ℤ◌,
  eq_ℤ_iff, Size, wrap32, wrap32_pos,
}
use greenisland.Server.Screenshots.{
  capture_output, copied, done_sent, Screenshot, send, ShmBuffer, matches, dump, capture_into,
  record_into,
}

-- A buffer that a recording of an output of a size may use, and an image that was grabbed.
abbrev pub IsUsable : Size → ShmBuffer → Option ℕ → Type 0
IsUsable size c image =
    (c.has_data ≡ true)
    × (c.stride ≡ wrap32 (c.width *ℤ pos 4))
    × (c.is_argb8888 ≡ true)
    × (size.width ≤ℤ c.width)
    × (size.height ≤ℤ c.height)
    × (image ≢ none)

*ℤ_pos : (a b : ℕ) → pos a *ℤ pos b ≡ pos (a * b)
unfolding ◌*ℤ◌
*ℤ_pos a b = ground arith

mul_lt : (a b c d : ℕ) → a ≤ c → b ≤ d → 0 < a → 0 < b → (a < c) ⊎ (b < d) → a * b < c * d
mul_lt a b c d p q x y (inl h) =
    let low = mul-le-mul_left a q in
    let high = mul-lt-mul_of_pos_right {k = d} h (omega arith) in omega (arith, low, high)
mul_lt a b c d p q x y (inr h) =
    let low = mul-lt-mul_of_pos_left {k = a} h x in
    let high = mul-le-mul_right d p in omega (arith, low, high)

-- A buffer that matches, and is bigger on a side than the output and not smaller on the other: the
-- bytes that are copied into it are more than the four for each pixel that the image has.
copies_beyond :
    (w h : ℕ) (width height : ℕ) (b : ShmBuffer) (s : Screenshot)
    → s.capture_type ≡ capture_output
    → s.output ≡ some (record { width = pos w; height = pos h })
    → b.width ≡ pos width
    → b.height ≡ pos height
    → width ≤ 536870911
    → matches b ≡ true
    → 0 < w
    → 0 < h
    → w ≤ width
    → h ≤ height
    → (h < height) ⊎ (w < width)
    → (record_into (some b) (some (h * (w * 4))) s
        ≡ some (send done_sent (send (copied (pos (height * (width * 4)))) s)))
      × (h * (w * 4) < height * (width * 4))
unfolding record_into capture_into dump
copies_beyond w h width height b s type there ew eh small good w0 h0 wl hl bigger =
    let stride : wrap32 (pos width *ℤ pos 4) ≡ pos (width * 4) =
      rw (*ℤ_pos width 4) (wrap32_pos (width * 4) (omega arith)) in
    let bytes = *ℤ_pos height (width * 4) in
    (
      ground (
        arith,
        type,
        there,
        ew,
        eh,
        good,
        wl,
        hl,
        stride,
        bytes,
        eq_ℤ_iff b.stride (wrap32 (b.width *ℤ pos 4)),
      ),
      mul_lt h (w * 4) height (width * 4) hl (omega arith) h0 (omega arith)
          (ground (arith, bigger)),
    )
