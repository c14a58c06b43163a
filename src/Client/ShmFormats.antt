-- ===== src/Client/ShmFormats.antt =====
-- src/client/shmformats_p.cpp: the table from `QImage::Format` to `wl_shm_format`, and the search
-- of the table the other way. A `QImage::Format` is its number; `QImage::Format_Invalid` is 0.
use greenisland.Common.{
  ℕ, zero, suc, ◌+◌, ◌≤◌, ◌<◌, ◌≡◌, refl, ◌≢◌, List, [], ◌∷◌, arith, ◌==◌, leb, if◌then◌else◌,
  length, Bool, true, false,
}

-- `wl_shm_format(INT_MIN)`, the value for "no such format".
abbrev pub int_min : ℕ
int_min = 2147483648

-- The values of `WL_SHM_FORMAT_…` are those of the Wayland protocol.
abbrev pub formats : List ℕ
formats =
    int_min ∷ int_min ∷ int_min ∷ int_min ∷ 1 ∷ 0 ∷ 0 ∷ 0x36314752 ∷ int_min ∷ int_min ∷ int_min
    ∷ 0x35315258 ∷ int_min ∷ 0x34324752 ∷ 0x32315258 ∷ 0x32315241 ∷ 0x34324258 ∷ 0x34324241
    ∷ 0x34324241 ∷ 0x30334258 ∷ 0x30335241 ∷ 0x30335258 ∷ 0x30335241 ∷ 0x20203843 ∷ 0x20203843 ∷ []

-- `formats[i]` of a table.
entry : List ℕ → ℕ → ℕ
entry [] i = int_min
entry (w ∷ ws) zero = w
entry (w ∷ ws) (suc i) = entry ws i

-- The loop of `fromWayland`, at index `i` of the table.
search_from : List ℕ → ℕ → ℕ → ℕ
search_from [] i w = 0
search_from (x ∷ xs) i w = if x == w then i else search_from xs (suc i) w

unfoldable pub from_qt : ℕ → ℕ
unfolding entry
from_qt format = if leb (length formats) format then int_min else entry formats format

unfoldable pub from_wayland : ℕ → ℕ
unfolding search_from
from_wayland format = search_from formats 0 format

search_from_hit :
    (xs : List ℕ) (i w k : ℕ)
    → k < length xs
    → entry xs k ≡ w
    → (j : ℕ) × (search_from xs i w ≡ i + j) × (j < length xs) × (entry xs j ≡ w) × (j ≤ k)
unfolding search_from entry
search_from_hit [] i w k h e = absurd (omega arith)
search_from_hit (x ∷ xs) i w zero h e = (0, ground arith, omega arith, e, omega arith)
search_from_hit (x ∷ xs) i w (suc k) h e =
    go (x == w) refl (search_from_hit xs (suc i) w k (omega arith) e)
  where
    go :
        (b : Bool)
        → (x == w) ≡ b
        → (j : ℕ) × (search_from xs (suc i) w ≡ suc i + j)
          × (j < length xs)
          × (entry xs j ≡ w)
          × (j ≤ k)
        → (j : ℕ) × (search_from (x ∷ xs) i w ≡ i + j)
          × (j < length (x ∷ xs))
          × (entry (x ∷ xs) j ≡ w)
          × (j ≤ suc k)
    go true t r = (0, ground arith, omega arith, ground arith, omega arith)
    go false t (j, found, below, at, le) = (suc j, ground arith, omega arith, at, omega arith)

search_from_miss :
    (xs : List ℕ) (i w : ℕ) → ((k : ℕ) → k < length xs → entry xs k ≢ w) → search_from xs i w ≡ 0
unfolding search_from entry
search_from_miss [] i w h = refl
search_from_miss (x ∷ xs) i w h =
    ground
      (arith, h 0 (omega arith), search_from_miss xs (suc i) w (λ k hk. h (suc k) (omega arith)))

-- For a Qt format of the table, the way to Wayland and back gives a Qt format of the table that
-- has the same Wayland format, and it is the first such format.
from_wayland-from_qt :
    (format : ℕ)
    → format < length formats
    → (from_qt (from_wayland (from_qt format)) ≡ from_qt format)
      × (from_wayland (from_qt format) ≤ format)
unfolding from_qt from_wayland
from_wayland-from_qt format h =
    ground (arith, search_from_hit formats 0 (entry formats format) format)

-- A Wayland format that no Qt format of the table maps to is turned into `Format_Invalid`.
from_wayland_unknown : (format : ℕ) → ((qt : ℕ) → from_qt qt ≢ format) → from_wayland format ≡ 0
unfolding from_qt from_wayland
from_wayland_unknown format h = search_from_miss formats 0 format (λ k hk e. h k (ground arith))
