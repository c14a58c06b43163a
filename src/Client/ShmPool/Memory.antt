-- ===== src/Client/ShmPool/Memory.antt =====
-- Creating a pool: the memory that it maps and unmaps.
use greenisland.Common.{ℕ, ◌≡◌, inl, inr, true, false, some, arith, ◌↔◌, ◌∷◌, Option-cases}
use greenisland.Client.ShmPool.{
  ftruncate, mmap, munmap, request_pool, Answers, Pool, init, create_pool, shm_create_pool, wrap32,
  [], pos,
}

-- `Shm::createPool` gives a pool exactly when every step succeeds: the pool is mapped where the
-- system says, has the requested size as a 32-bit integer, no buffer, and the offset 0.
pub shm_create_pool_iff :
    (a : Answers) (size : ℕ) (p : Pool)
    → (shm_create_pool a size ≡ some p) ↔ (
        (a.opens ≡ true)
        × (a.unlinks ≡ true)
        × (a.truncates ≡ true)
        × (a.creates_pool ≡ true)
        × (address : ℕ) × (a.maps ≡ some address)
        × (p ≡ record {
          memory = some address;
          size = wrap32 (pos size);
          offset = pos 0;
          buffers = [];
          calls = ftruncate size ∷ mmap size ∷ request_pool size ∷ [];
        }))
unfolding shm_create_pool
shm_create_pool_iff a size p = (
  λ h. elim (Option-cases a.maps) [
    | inl failed ↦ absurd (ground arith)
    | inr (address, mapped) ↦
        (ground arith, ground arith, ground arith, ground arith, address, mapped, ground arith)
  ],
  λ (o, u, t, c, address, m, e). ground arith,
)

-- When the compositor refuses the pool, the code unmaps 1024 bytes at the new mapping, the size
-- that the object had before, whatever size it has just mapped there.
create_pool_unmaps :
    (a : Answers) (size address : ℕ)
    → a.opens ≡ true
    → a.unlinks ≡ true
    → a.truncates ≡ true
    → a.maps ≡ some address
    → a.creates_pool ≡ false
    → (create_pool a size init).0.calls
      ≡ ftruncate size ∷ mmap size ∷ request_pool size ∷ munmap (some address) 1024 ∷ []
unfolding create_pool init
create_pool_unmaps a size address o u t m c = ground arith
