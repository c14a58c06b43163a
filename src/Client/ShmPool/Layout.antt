-- ===== src/Client/ShmPool/Layout.antt =====
-- Where the buffers of a pool lie: they tile the pool from its start to its offset.
use greenisland.Common.{
  Size, ℕ, zero, suc, ◌+◌, ◌≤◌, ◌<◌, ◌≡◌, refl, Bool, true, false, List, [], ◌∷◌, ◌++◌, Option,
  some, arith, get_elem?, ℤ, pos, pos_part, ◌*ℤ◌, ◌≤ℤ◌, wrap32, wrap32_pos, +ℤ_pos, Bool-cases,
  Option-cases, inl, inr, ltb,
}
use greenisland.Client.Buffer.{Buffer, new_buffer, set_released, bytes}
use greenisland.Client.ShmPool.{
  Answers, Call, Pool, resize_pool, first_free, take_at, allocate, append_buffer, after_resize,
  reuse_buffer, init,
}

-- Each buffer starts where the one before it ends, from `start` up to `end`.
abbrev pub Tiles : ℕ → List Buffer → ℕ → Type 0
Tiles start [] end = start ≡ end
Tiles start (b ∷ bs) end =
    (b.offset ≡ pos start)
    × (bytes b ≡ pos (pos_part (bytes b)))
    × Tiles (start + pos_part (bytes b)) bs end

-- The buffers tile the part of the pool below the offset, and the offset is within the size.
pub record IsValid (p : Pool) : Type 0 where
  pub used : ℕ
  pub capacity : ℕ
  pub offset_used : p.offset ≡ pos used
  pub size_capacity : p.size ≡ pos capacity
  pub tiles : Tiles 0 p.buffers used
  pub within : used ≤ capacity
  pub fits : capacity ≤ 2147483647

init-IsValid : IsValid init
unfolding init
init-IsValid = record {
  used = 0;
  capacity = 1024;
  offset_used = refl;
  size_capacity = refl;
  tiles = refl;
  within = omega arith;
  fits = omega arith;
}

Tiles-append :
    (start end n : ℕ) (bs : List Buffer) (b : Buffer)
    → Tiles start bs end
    → b.offset ≡ pos end
    → bytes b ≡ pos n
    → Tiles start (bs ++ b ∷ []) (end + n)
Tiles-append start end n [] b h o e = (ground arith, ground arith, ground arith)
Tiles-append start end n (x ∷ bs) b h o e =
    (h.0, h.1, Tiles-append (start + pos_part (bytes x)) end n bs b h.2 o e)

Tiles-take_at :
    (start end i : ℕ) (bs : List Buffer) → Tiles start bs end → Tiles start (take_at i bs) end
unfolding take_at set_released bytes
Tiles-take_at start end i [] h = h
Tiles-take_at start end zero (b ∷ bs) h = ground arith
Tiles-take_at start end (suc i) (b ∷ bs) h =
    (h.0, h.1, Tiles-take_at (start + pos_part (bytes b)) end i bs h.2)

Tiles-le : (start end : ℕ) (bs : List Buffer) → Tiles start bs end → start ≤ end
Tiles-le start end [] h = omega arith
Tiles-le start end (b ∷ bs) h = omega (arith, Tiles-le (start + pos_part (bytes b)) end bs h.2)

-- A buffer's first byte, and the byte behind its last.
abbrev pub first : Buffer → ℕ
first b = pos_part b.offset

abbrev pub last : Buffer → ℕ
last b = pos_part b.offset + pos_part (bytes b)

Tiles-member :
    (start end i : ℕ) (bs : List Buffer) (b : Buffer)
    → Tiles start bs end
    → get_elem? bs i ≡ some b
    → (start ≤ first b) × (last b ≤ end)
Tiles-member start end i [] b h e = absurd (ground arith)
Tiles-member start end zero (x ∷ bs) b h e =
    ground (arith, Tiles-le (start + pos_part (bytes x)) end bs h.2)
Tiles-member start end (suc i) (x ∷ bs) b h e =
    let (lo, hi) = Tiles-member (start + pos_part (bytes x)) end i bs b h.2 e in (omega arith, hi)

Tiles-disjoint :
    (start end i j : ℕ) (bs : List Buffer) (b c : Buffer)
    → Tiles start bs end
    → i < j
    → get_elem? bs i ≡ some b
    → get_elem? bs j ≡ some c
    → last b ≤ first c
Tiles-disjoint start end i j [] b c h lt eb ec = absurd (ground arith)
Tiles-disjoint start end i zero (x ∷ bs) b c h lt eb ec = absurd (omega arith)
Tiles-disjoint start end zero (suc j) (x ∷ bs) b c h lt eb ec =
    let (lo, hi) = Tiles-member (start + pos_part (bytes x)) end j bs c h.2 ec in ground arith
Tiles-disjoint start end (suc i) (suc j) (x ∷ bs) b c h lt eb ec =
    Tiles-disjoint (start + pos_part (bytes x)) end i j bs b c h.2 (omega arith) eb ec

-- In a valid pool the bytes of an earlier buffer end before those of a later one begin, and the
-- later one ends within the pool.
pub buffers_disjoint :
    (p : Pool) (i j : ℕ) (b c : Buffer)
    → IsValid p
    → i < j
    → get_elem? p.buffers i ≡ some b
    → get_elem? p.buffers j ≡ some c
    → (last b ≤ first c) × (pos (last c) ≤ℤ p.size)
buffers_disjoint p i j b c v lt eb ec =
    let (lo, hi) = Tiles-member 0 v.used j p.buffers c v.tiles ec in
    (Tiles-disjoint 0 v.used i j p.buffers b c v.tiles lt eb ec, ground arith)

-- `append_buffer` keeps the invariant where the new buffer fits behind the offset.
append_buffer-IsValid :
    (a : Answers) (s : Size) (stride : ℤ) (format n : ℕ) (p : Pool) (v : IsValid p)
    → wrap32 (s.height *ℤ stride) ≡ pos n
    → v.used + n ≤ v.capacity
    → IsValid (append_buffer a s stride format (pos n) p).0
unfolding append_buffer new_buffer
append_buffer-IsValid a s stride format n p v e room = elim (Bool-cases a.creates_buffer) [
  | inr no_buffer ↦
      rw (no_buffer, append_buffer)
        (record {
          used = v.used;
          capacity = v.capacity;
          offset_used = v.offset_used;
          size_capacity = v.size_capacity;
          tiles = v.tiles;
          within = v.within;
          fits = v.fits;
        })
  | inl buffer ↦
      rw (buffer, append_buffer)
        (record {
          used = v.used + n;
          capacity = v.capacity;
          offset_used =
              rw (v.offset_used, +ℤ_pos v.used n) (wrap32_pos (v.used + n) (omega (arith, v.fits)));
          size_capacity = v.size_capacity;
          tiles =
              Tiles-append 0 v.used n p.buffers (new_buffer s stride p.offset format) v.tiles
                (unfold new_buffer in v.offset_used) (unfold new_buffer bytes in e);
          within = room;
          fits = v.fits;
        })
]

-- After growing by `n` bytes the size is the sum; after a failure it is the old size.
resize_pool-IsValid :
    (a : Answers) (m : ℕ) (p : Pool) (v : IsValid p)
    → v.capacity ≤ m
    → m ≤ 2147483647
    → (w : IsValid (resize_pool a m p).0) × (w.used ≡ v.used)
      × ((resize_pool a m p).1 ≡ true → w.capacity ≡ m)
unfolding resize_pool
resize_pool-IsValid a m p v le fits = elim (Bool-cases a.truncates) [
  | inr refused ↦ rw (refused, resize_pool) (v', refl, λ e. cc)
  | inl truncated ↦ elim (Option-cases a.maps) [
    | inl failed ↦ rw (truncated, failed, resize_pool) (v', refl, λ e. cc)
    | inr (address, mapped) ↦
        rw (truncated, mapped, resize_pool)
          (
            record {
              used = v.used;
              capacity = m;
              offset_used = v.offset_used;
              size_capacity = wrap32_pos m fits;
              tiles = v.tiles;
              within = omega (arith, v.within);
              fits = fits;
            },
            refl,
            λ e. refl,
          )
  ]
]
  where
    v' :
        {calls : List Call} {memory : Option ℕ}
        → IsValid (record p { calls = calls; memory = memory })
    v' = record {
      used = v.used;
      capacity = v.capacity;
      offset_used = v.offset_used;
      size_capacity = v.size_capacity;
      tiles = v.tiles;
      within = v.within;
      fits = v.fits;
    }

after_resize-IsValid :
    (a : Answers) (s : Size) (stride : ℤ) (format n : ℕ) (r : Pool × Bool) (v : IsValid r.0)
    → wrap32 (s.height *ℤ stride) ≡ pos n
    → (r.1 ≡ true → v.used + n ≤ v.capacity)
    → IsValid (after_resize a s stride format (pos n) r).0
unfolding after_resize
after_resize-IsValid a s stride format n (p, true) v e room =
    append_buffer-IsValid a s stride format n p v e (room refl)
after_resize-IsValid a s stride format n (p, false) v e room = v

allocate-IsValid :
    (a : Answers) (s : Size) (stride : ℤ) (format n : ℕ) (p : Pool) (v : IsValid p)
    → wrap32 (s.height *ℤ stride) ≡ pos n
    → n + v.capacity ≤ 2147483647
    → IsValid (allocate a s stride format p).0
unfolding allocate
allocate-IsValid a s stride format n p v e fits =
    rw
      (
        e,
        v.offset_used,
        v.size_capacity,
        +ℤ_pos v.used n,
        +ℤ_pos n v.capacity,
        wrap32_pos (v.used + n) (omega (arith, v.within)),
        wrap32_pos (n + v.capacity) fits,
      )
      (elim (Bool-cases (ltb (v.capacity + 0) (v.used + n + 0))) [
        | inl full ↦ rw full (grown full)
        | inr room ↦
            rw room (after_resize-IsValid a s stride format n (q, true) w e (λ _. ground arith))
      ])
  where
    q : Pool
    q = record p { size = pos v.capacity; offset = pos v.used }

    w : IsValid q
    w = record {
      used = v.used;
      capacity = v.capacity;
      offset_used = refl;
      size_capacity = refl;
      tiles = v.tiles;
      within = v.within;
      fits = v.fits;
    }

    grown :
        ltb (v.capacity + 0) (v.used + n + 0) ≡ true
        → IsValid (after_resize a s stride format (pos n) (resize_pool a (n + v.capacity) q)).0
    grown full =
        let (u, same, size) = resize_pool-IsValid a (n + v.capacity) q w (omega arith) fits in
        after_resize-IsValid a s stride format n (resize_pool a (n + v.capacity) q) u e
          (λ done. omega (arith, same, size done, v.within))

-- Handing out a buffer of `n` bytes keeps the pool valid, whether a released buffer is reused, the
-- pool has room, it grows, or a step fails, as long as the grown size is within an `int`.
pub reuse_buffer-IsValid :
    (a : Answers) (s : Size) (stride : ℤ) (format n : ℕ) (p : Pool) (v : IsValid p)
    → wrap32 (s.height *ℤ stride) ≡ pos n
    → n + v.capacity ≤ 2147483647
    → IsValid (reuse_buffer a s stride format p).0
unfolding reuse_buffer
reuse_buffer-IsValid a s stride format n p v e fits =
    elim (Option-cases (first_free s stride format p.buffers)) [
      | inl missing ↦ rw (missing, reuse_buffer) (allocate-IsValid a s stride format n p v e fits)
      | inr (i, found) ↦
          rw (found, reuse_buffer)
            (record {
              used = v.used;
              capacity = v.capacity;
              offset_used = v.offset_used;
              size_capacity = v.size_capacity;
              tiles = Tiles-take_at 0 v.used i p.buffers v.tiles;
              within = v.within;
              fits = v.fits;
            })
    ]
