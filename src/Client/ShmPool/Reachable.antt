-- ===== src/Client/ShmPool/Reachable.antt =====
-- The pools that a client reaches, by creating one, asking for buffers, and releasing or using them.
use greenisland.Common.{
  ℕ, zero, suc, ◌+◌, ◌≤◌, ◌<◌, ◌≡◌, refl, sym, ap, ◌∙◌, Bool, some, List, [], ◌∷◌, arith, get_elem?,
  set, ℤ, pos, pos_part, ◌*ℤ◌, ◌≤ℤ◌, Size, wrap32, wrap32_pos,
}
use mathlib.Core.Path.{subst}
use greenisland.Client.Buffer.{Buffer, set_released, set_used, bytes}
use greenisland.Client.ShmPool.{Answers, Pool, shm_create_pool, reuse_buffer}
use greenisland.Client.ShmPool.Layout.{
  IsValid, Tiles, first, last, buffers_disjoint, reuse_buffer-IsValid,
}
use greenisland.Client.ShmPool.Memory.{shm_create_pool_iff}

-- A buffer whose flags were set.
abbrev pub flagged : Bool → Bool → Buffer → Buffer
flagged released used b = (set_used used (set_released released b).0).0

-- A pool is created with a size that fits an `int`; a request for `n` bytes keeps the size within
-- an `int`; the flags of a buffer change at any time.
pub data Reached : Pool → Type 0 where
  created :
      {p : Pool} (a : Answers) (size : ℕ)
      → size ≤ 2147483647
      → shm_create_pool a size ≡ some p
      → Reached p
  requested :
      {p : Pool} (a : Answers) (s : Size) (stride : ℤ) (format n c : ℕ)
      → Reached p
      → wrap32 (s.height *ℤ stride) ≡ pos n
      → p.size ≡ pos c
      → n + c ≤ 2147483647
      → Reached (reuse_buffer a s stride format p).0
  changed :
      {p : Pool} (i : ℕ) (b : Buffer) (released used : Bool)
      → Reached p
      → get_elem? p.buffers i ≡ some b
      → Reached (record p { buffers = set p.buffers i (flagged released used b) })

flagged_lem :
    (released used : Bool) (b : Buffer)
    → ((flagged released used b).offset ≡ b.offset) × (bytes (flagged released used b) ≡ bytes b)
unfolding set_released set_used bytes
flagged_lem released used b = (ground arith, ground arith)

Tiles-set :
    (start end i : ℕ) (bs : List Buffer) (b c : Buffer)
    → Tiles start bs end
    → get_elem? bs i ≡ some b
    → c.offset ≡ b.offset
    → bytes c ≡ bytes b
    → Tiles start (set bs i c) end
Tiles-set start end i [] b c t e o n = t
Tiles-set start end zero (x ∷ bs) b c t e o n =
    let here : x ≡ b = cc e in
    let same : bytes c ≡ bytes x = n ∙ ap bytes (sym here) in
    (o ∙ ap (λ y. y.offset) (sym here) ∙ t.0, rw same t.1, rw same t.2)
Tiles-set start end (suc i) (x ∷ bs) b c t e o n =
    (t.0, t.1, Tiles-set (start + pos_part (bytes x)) end i bs b c t.2 e o n)

shm_create_pool-IsValid :
    (a : Answers) (size : ℕ) (p : Pool)
    → size ≤ 2147483647
    → shm_create_pool a size ≡ some p
    → IsValid p
shm_create_pool-IsValid a size p small e =
    let (_, _, _, _, address, _, q) = (shm_create_pool_iff a size p).0 e in
    subst IsValid (sym q) (record {
      used = 0;
      capacity = size;
      offset_used = refl;
      size_capacity = wrap32_pos size small;
      tiles = refl;
      within = omega arith;
      fits = small;
    })

reached-IsValid : {p : Pool} → Reached p → IsValid p
reached-IsValid {p} (created a size small e) = shm_create_pool-IsValid a size p small e
reached-IsValid (requested {p} a s stride format n c r e size room) =
    let v = reached-IsValid r in
    reuse_buffer-IsValid a s stride format n p v e (ground (arith, v.size_capacity))
reached-IsValid (changed {p} i b released used r e) =
    let v = reached-IsValid r in
    let (o, n) = flagged_lem released used b in
    record {
      used = v.used;
      capacity = v.capacity;
      offset_used = v.offset_used;
      size_capacity = v.size_capacity;
      tiles = Tiles-set 0 v.used i p.buffers b (flagged released used b) v.tiles e o n;
      within = v.within;
      fits = v.fits;
    }

-- In every pool that a client reaches while the sizes stay within an `int`, the bytes of an earlier
-- buffer end before those of a later one begin, and the later one ends within the pool.
pub reached_disjoint :
    (p : Pool) (i j : ℕ) (b c : Buffer)
    → Reached p
    → i < j
    → get_elem? p.buffers i ≡ some b
    → get_elem? p.buffers j ≡ some c
    → (last b ≤ first c) × (pos (last c) ≤ℤ p.size)
reached_disjoint p i j b c r lt eb ec = buffers_disjoint p i j b c (reached-IsValid r) lt eb ec
