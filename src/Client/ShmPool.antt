-- ===== src/Client/ShmPool.antt =====
-- src/client/shmpool.cpp (and `Shm::createPool` of shm.cpp): a shared memory pool that hands out
-- buffers, reuses released ones, and grows when it is full. What the operating system and the
-- Wayland connection answer is the argument `Answers` of each call. 32-bit sums and products wrap.
pub mod Memory
pub mod Layout
pub mod Reuse
pub mod Failure
pub mod Reachable
use greenisland.Common.{
  Size, is_empty, eq_size, ℕ, zero, suc, Bool, true, false, not, ◌&&◌, List, [], ◌∷◌, ◌++◌, Option,
  none, some, arith, ◌==◌, if◌then◌else◌, length, get_elem?, ℤ, pos, ◌+ℤ◌, ◌*ℤ◌, wrap32, to_i32,
  to_size_t, ltb_ℤ, eq_ℤ,
}
use greenisland.Client.Buffer.{Buffer, new_buffer, set_released, Copy, copy}
use greenisland.Client.ShmFormats.{from_qt}

-- The calls to the operating system and the requests to the compositor, in order. An address of
-- `none` is the null pointer.
pub data Call : Type 0 where
  ftruncate mmap : ℕ → Call
  munmap : Option ℕ → ℕ → Call
  request_pool : ℕ → Call
  request_resize : ℤ → Call
  request_buffer : ℤ → Size → ℤ → ℕ → Call
  memcpy : Copy → Call
  resized : Call

-- What the calls of one operation answer. `maps` is the mapped address, `none` is `MAP_FAILED`.
-- `null_is_end` says whether the end iterator of the vector of buffers is the null pointer.
pub record Answers : Type 0 where
  pub opens : Bool
  pub unlinks : Bool
  pub truncates : Bool
  pub maps : Option ℕ
  pub creates_pool : Bool
  pub creates_buffer : Bool
  pub null_is_end : Bool

-- `ShmPoolPrivate`, with the calls that it made.
pub record Pool : Type 0 where
  pub memory : Option ℕ
  pub size : ℤ
  pub offset : ℤ
  pub buffers : List Buffer
  pub calls : List Call

unfoldable pub init : Pool
init = record { memory = none; size = pos 1024; offset = pos 0; buffers = []; calls = [] }

abbrev pub note : Call → Pool → Pool
note c p = record p { calls = p.calls ++ c ∷ [] }

-- The last part of `createPool`: the request to the compositor, on a fresh mapping.
request : Answers → ℕ → Pool → Pool × Bool
request a create_size p =
    let p1 = note (request_pool create_size) p in
    if a.creates_pool
    then (record p1 { size = wrap32 (pos create_size) }, true)
    else (record (note (munmap p.memory (to_size_t p.size)) p1) { memory = none }, false)

map_pool : Answers → Option ℕ → ℕ → Pool → Pool × Bool
unfolding request
map_pool a none create_size p = (record p { memory = none }, false)
map_pool a (some address) create_size p = request a create_size (record p { memory = some address })

unfoldable pub create_pool : Answers → ℕ → Pool → Pool × Bool
unfolding map_pool
create_pool a create_size p =
    if not a.opens
    then (p, false)
    else if not a.unlinks
    then (p, false)
    else if not a.truncates
    then (note (ftruncate create_size) p, false)
    else map_pool a a.maps create_size (note (mmap create_size) (note (ftruncate create_size) p))

-- `Shm::createPool`: no pool unless all of the steps succeed.
unfoldable pub shm_create_pool : Answers → ℕ → Option Pool
unfolding create_pool init
shm_create_pool a size = let (p, done) = create_pool a size init in if done then some p else none

remap : Option ℕ → ℕ → Pool → Pool × Bool
remap none new_size p = (record p { memory = none }, false)
remap (some address) new_size p =
    (note resized (record p { memory = some address; size = wrap32 (pos new_size) }), true)

unfoldable pub resize_pool : Answers → ℕ → Pool → Pool × Bool
unfolding remap
resize_pool a new_size p =
    let p1 = note (ftruncate new_size) p in
    if not a.truncates
    then (p1, false)
    else remap a.maps new_size (
        note (mmap new_size) (
          note (munmap p.memory (to_size_t p.size))
            (note (request_resize (wrap32 (pos new_size))) p1)))

-- An iterator of the vector of buffers: the null pointer, or a position (its length is the end).
pub data Iterator : Type 0 where
  null : Iterator
  at : ℕ → Iterator

-- A buffer that the loop of `reuseBuffer` does not skip.
unfoldable pub is_free : Size → ℤ → ℕ → Buffer → Bool
is_free s stride format b =
    b.released && not b.used && eq_size b.size s && eq_ℤ b.stride stride && (b.format == format)

unfoldable pub first_free : Size → ℤ → ℕ → List Buffer → Option ℕ
first_free s stride format [] = none
first_free s stride format (b ∷ bs) =
    let rest = first_free s stride format bs in
    if is_free s stride format b then some 0 else elim rest [ none ↦ none | some i ↦ some (suc i) ]

-- `setReleased(false)` on the buffer at a position.
unfoldable pub take_at : ℕ → List Buffer → List Buffer
take_at i [] = []
take_at zero (b ∷ bs) = (set_released false b).0 ∷ bs
take_at (suc i) (b ∷ bs) = b ∷ take_at i bs

-- The end of `reuseBuffer`: a new buffer at the offset.
append_buffer : Answers → Size → ℤ → ℕ → ℤ → Pool → Pool × Iterator
append_buffer a s stride format bytes_count p =
    let p1 = note (request_buffer p.offset s stride format) p in
    if a.creates_buffer
    then (
      record p1 {
        buffers = p.buffers ++ new_buffer s stride p.offset format ∷ [];
        offset = wrap32 (p.offset +ℤ bytes_count);
      },
      at (length p.buffers),
    )
    else (p1, null)

after_resize : Answers → Size → ℤ → ℕ → ℤ → Pool × Bool → Pool × Iterator
unfolding append_buffer
after_resize a s stride format bytes_count (p, true) = append_buffer a s stride format bytes_count p
after_resize a s stride format bytes_count (p, false) = (p, null)

unfoldable pub allocate : Answers → Size → ℤ → ℕ → Pool → Pool × Iterator
unfolding after_resize
allocate a s stride format p =
    let bytes_count = wrap32 (s.height *ℤ stride) in
    after_resize a s stride format bytes_count (
      if ltb_ℤ p.size (wrap32 (p.offset +ℤ bytes_count))
      then resize_pool a (to_size_t (wrap32 (bytes_count +ℤ p.size))) p
      else (p, true))

unfoldable pub reuse_buffer : Answers → Size → ℤ → ℕ → Pool → Pool × Iterator
reuse_buffer a s stride format p = elim (first_free s stride format p.buffers) [
  | some i ↦ (record p { buffers = take_at i p.buffers }, at i)
  | none ↦ allocate a s stride format p
]

-- What a caller of `createBuffer` or `findBuffer` gets: a pointer to the buffer at a position or
-- the null pointer; `crashed` stands for the access through a null iterator.
pub data Result : Type 0 where
  returned : Option ℕ → Result
  crashed : Result

-- The code behind `reuseBuffer` in its three callers: the test against the end, the copy of the
-- pixels if there is a source, and the pointer.
unfoldable pub deliver : Answers → Bool → Pool × Iterator → Pool × Result
deliver a source (p, null) = if a.null_is_end then (p, returned none) else (p, crashed)
deliver a source (p, at i) = elim (get_elem? p.buffers i) [
  | none ↦ (p, returned none)
  | some b ↦ (if source then note (memcpy (copy p.memory b)) p else p, returned (some i))
]

-- `createBuffer(const QSize &, quint32, const void *, Shm::Format)`.
unfoldable pub create_buffer : Answers → Size → ℕ → Bool → ℕ → Pool → Pool × Result
create_buffer a size stride source format p =
    if is_empty size
    then (p, returned none)
    else deliver a source (reuse_buffer a size (to_i32 stride) format p)

-- What `createBuffer(const QImage &)` reads of an image.
pub record Image : Type 0 where
  pub is_null : Bool
  pub size : Size
  pub bytes_per_line : ℤ
  pub format : ℕ

unfoldable pub create_image_buffer : Answers → Image → Pool → Pool × Result
create_image_buffer a image p =
    if image.is_null
    then (p, returned none)
    else deliver a true (reuse_buffer a image.size image.bytes_per_line (from_qt image.format) p)

-- `findBuffer`: no test of the size, and no copy.
unfoldable pub find_buffer : Answers → Size → ℕ → ℕ → Pool → Pool × Result
find_buffer a size stride format p = deliver a false (reuse_buffer a size (to_i32 stride) format p)
