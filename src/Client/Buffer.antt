-- ===== src/Client/Buffer.antt =====
-- src/client/buffer.cpp: a buffer of a shared memory pool. A setter returns the new buffer and
-- whether it emits its change signal.
use greenisland.Common.{
  eq_bool, ℕ, Bool, true, false, Option, if◌then◌else◌, ℤ, ◌*ℤ◌, wrap32, to_size_t, Size,
}

-- `BufferPrivate`; the format is the number behind `Shm::Format`.
pub record Buffer : Type 0 where
  pub format : ℕ
  pub size : Size
  pub stride : ℤ
  pub offset : ℤ
  pub released : Bool
  pub used : Bool

-- The two constructors, of `BufferPrivate` and of `Buffer`.
unfoldable pub new_buffer : Size → ℤ → ℤ → ℕ → Buffer
new_buffer size stride offset format = record {
  format = format;
  size = size;
  stride = stride;
  offset = offset;
  released = false;
  used = false;
}

unfoldable pub set_released : Bool → Buffer → Buffer × Bool
set_released released b =
    if eq_bool b.released released then (b, false) else (record b { released = released }, true)

unfoldable pub set_used : Bool → Buffer → Buffer × Bool
set_used used b = if eq_bool b.used used then (b, false) else (record b { used = used }, true)

-- The bytes that a buffer covers, `height * stride` of two 32-bit integers.
unfoldable pub bytes : Buffer → ℤ
bytes b = wrap32 (b.size.height *ℤ b.stride)

-- A `memcpy` into the pool's memory: its base (`none` is the null pointer), the offset from it,
-- and the length as a `size_t`.
pub record Copy : Type 0 where
  pub base : Option ℕ
  pub offset : ℤ
  pub len : ℕ

-- `Buffer::copy` through `Buffer::address`.
unfoldable pub copy : Option ℕ → Buffer → Copy
copy address b = record { base = address; offset = b.offset; len = to_size_t (bytes b) }
