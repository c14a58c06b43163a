-- ===== src/Client/ShmPool/Reuse.antt =====
-- What `reuseBuffer` hands out: a buffer that fits the request, an old one where there is one.
use greenisland.Common.{
  Size, ℕ, List, [], zero, suc, some, ◌≡◌, inl, inr, ◌∷◌, ℤ, arith, ap, refl, true, Bool-cases,
  Option-cases, eq_ℤ_iff, get_elem?-append_length,
}
use greenisland.Client.Buffer.{new_buffer, Buffer, set_released}
use greenisland.Client.ShmPool.{
  append_buffer, after_resize, allocate, Pool, first_free, is_free, take_at, reuse_buffer, Answers,
  at, get_elem?, length, false, Bool,
}

first_free_sound :
    (s : Size) (stride : ℤ) (format i : ℕ) (bs : List Buffer)
    → first_free s stride format bs ≡ some i
    → (b : Buffer) × (get_elem? bs i ≡ some b)
      × (is_free s stride format b ≡ true)
      × (get_elem? (take_at i bs) i ≡ some (record b { released = false }))
unfolding first_free take_at set_released
first_free_sound s stride format i [] h = absurd (ground arith)
first_free_sound s stride format i (b ∷ bs) h = elim (Bool-cases (is_free s stride format b)) [
  | inl free ↦ let e : i ≡ 0 = ground arith in (b, rw e, free, rw e (ground arith))
  | inr skip ↦ elim (Option-cases (first_free s stride format bs)) [
    | inl no_more ↦ absurd (ground arith)
    | inr (j, more) ↦
        let e : i ≡ suc j = ground arith in
        let (c, there, free, taken) = first_free_sound s stride format j bs more in
        (c, rw e there, free, rw e taken)
  ]
]

length-take_at : (i : ℕ) (bs : List Buffer) → length (take_at i bs) ≡ length bs
unfolding take_at
length-take_at i [] = refl
length-take_at zero (b ∷ bs) = refl
length-take_at (suc i) (b ∷ bs) = ap suc (length-take_at i bs)

-- Some buffer of a list that the loop would not skip.
abbrev pub HasFree : Size → ℤ → ℕ → List Buffer → Type 0
HasFree s stride format bs =
    (i : ℕ) × (b : Buffer) × (get_elem? bs i ≡ some b) × (is_free s stride format b ≡ true)

first_free_complete :
    (s : Size) (stride : ℤ) (format : ℕ) (bs : List Buffer)
    → HasFree s stride format bs
    → (i : ℕ) × (first_free s stride format bs ≡ some i)
unfolding first_free
first_free_complete s stride format [] (i, b, e, f) = absurd (ground arith)
first_free_complete s stride format (x ∷ bs) (zero, b, e, f) = (0, ground arith)
first_free_complete s stride format (x ∷ bs) (suc i, b, e, f) =
    let (j, found) = first_free_complete s stride format bs (i, b, e, f) in
    elim (Bool-cases (is_free s stride format x)) [
      | inl free ↦ (0, rw free)
      | inr skip ↦ (suc j, rw (skip, found))
    ]

-- Where a released, unused buffer of the size, stride and format exists, one is handed out: it is
-- now marked as not released, and the pool does not grow, asks for nothing and has as many buffers.
pub reuse_buffer_existing :
    (a : Answers) (s : Size) (stride : ℤ) (format : ℕ) (p : Pool)
    → HasFree s stride format p.buffers
    → let r = reuse_buffer a s stride format p in
      (i : ℕ) × (b : Buffer) × (r.1 ≡ at i)
      × (get_elem? p.buffers i ≡ some b)
      × (is_free s stride format b ≡ true)
      × (get_elem? r.0.buffers i ≡ some (record b { released = false }))
      × (r.0.calls ≡ p.calls)
      × (r.0.size ≡ p.size)
      × (r.0.offset ≡ p.offset)
      × (length r.0.buffers ≡ length p.buffers)
unfolding reuse_buffer
reuse_buffer_existing a s stride format p h =
    let (i, found) = first_free_complete s stride format p.buffers h in
    let (b, there, free, taken) = first_free_sound s stride format i p.buffers found in
    (
      i,
      b,
      rw (found, reuse_buffer),
      there,
      free,
      rw (found, reuse_buffer) taken,
      rw (found, reuse_buffer),
      rw (found, reuse_buffer),
      rw (found, reuse_buffer),
      rw (found, reuse_buffer) (length-take_at i p.buffers),
    )

-- A buffer that a caller asked for.
pub record IsFor (s : Size) (stride : ℤ) (format : ℕ) (b : Buffer) : Type 0 where
  pub width : b.size.width ≡ s.width
  pub height : b.size.height ≡ s.height
  pub strides : b.stride ≡ stride
  pub formats : b.format ≡ format
  pub unreleased : b.released ≡ false
  pub unused : b.used ≡ false

is_free-IsFor :
    (s : Size) (stride : ℤ) (format : ℕ) (b : Buffer)
    → is_free s stride format b ≡ true
    → IsFor s stride format (record b { released = false })
unfolding is_free
is_free-IsFor s stride format b h = ground (
  arith,
  eq_ℤ_iff b.size.width s.width,
  eq_ℤ_iff b.size.height s.height,
  eq_ℤ_iff b.stride stride,
)

append_buffer-IsFor :
    (a : Answers) (s : Size) (stride : ℤ) (format : ℕ) (n : ℤ) (p : Pool) (i : ℕ)
    → (append_buffer a s stride format n p).1 ≡ at i
    → (b : Buffer) × (get_elem? (append_buffer a s stride format n p).0.buffers i ≡ some b)
      × IsFor s stride format b
unfolding append_buffer new_buffer
append_buffer-IsFor a s stride format n p i h = elim (Bool-cases a.creates_buffer) [
  | inl buffer ↦
      let e : i ≡ length p.buffers = ground arith in
      rw (e, buffer, append_buffer)
        (
          new_buffer s stride p.offset format,
          unfold new_buffer in
              get_elem?-append_length p.buffers (new_buffer s stride p.offset format),
          unfold new_buffer in
              record {
                width = refl;
                height = refl;
                strides = refl;
                formats = refl;
                unreleased = refl;
                unused = refl;
              },
        )
  | inr failed ↦ absurd (ground arith)
]

after_resize-IsFor :
    (a : Answers) (s : Size) (stride : ℤ) (format : ℕ) (n : ℤ) (r : Pool × Bool) (i : ℕ)
    → (after_resize a s stride format n r).1 ≡ at i
    → (b : Buffer) × (get_elem? (after_resize a s stride format n r).0.buffers i ≡ some b)
      × IsFor s stride format b
unfolding after_resize
after_resize-IsFor a s stride format n (p, true) i h = append_buffer-IsFor a s stride format n p i h
after_resize-IsFor a s stride format n (p, false) i h = absurd (ground arith)

-- Whenever `reuseBuffer` gives a position, the buffer there has exactly the size, the stride and
-- the format that were asked for, and it is neither released nor in use.
pub reuse_buffer-IsFor :
    (a : Answers) (s : Size) (stride : ℤ) (format : ℕ) (p : Pool) (i : ℕ)
    → (reuse_buffer a s stride format p).1 ≡ at i
    → (b : Buffer) × (get_elem? (reuse_buffer a s stride format p).0.buffers i ≡ some b)
      × IsFor s stride format b
unfolding reuse_buffer allocate
reuse_buffer-IsFor a s stride format p i h =
    elim (Option-cases (first_free s stride format p.buffers)) [
      | inl missing ↦
          rw (missing, reuse_buffer)
            (after_resize-IsFor a s stride format _ _ i (rw (missing, reuse_buffer) at h))
      | inr (j, found) ↦
          let e : i ≡ j = ground arith in
          let (b, there, free, taken) = first_free_sound s stride format j p.buffers found in
          rw (e, found, reuse_buffer)
            (record b { released = false }, taken, is_free-IsFor s stride format b free)
    ]
