-- ===== src/Client/ShmPool/Failure.antt =====
-- The error paths of a pool: what its callers see when a step fails.
use greenisland.Common.{
  Size, is_empty, ℕ, ◌≡◌, refl, true, false, none, arith, Bool, if◌then◌else◌, ◌∙◌,
}
use greenisland.Client.ShmPool.{
  Answers, Pool, null, at, returned, crashed, first_free, append_buffer, after_resize, allocate,
  reuse_buffer, deliver, create_buffer, find_buffer, ℤ, Iterator, to_i32,
}

-- No buffer of the pool can be reused, and the compositor creates none.
abbrev pub NoBuffer : Answers → Size → ℤ → ℕ → Pool → Type 0
NoBuffer a s stride format p =
    (first_free s stride format p.buffers ≡ none) × (a.creates_buffer ≡ false)

append_buffer_refused :
    (a : Answers) (s : Size) (stride : ℤ) (format : ℕ) (n : ℤ) (r : Pool × Bool)
    → a.creates_buffer ≡ false
    → (after_resize a s stride format n r).1 ≡ null
unfolding after_resize append_buffer
append_buffer_refused a s stride format n (p, true) h = ground arith
append_buffer_refused a s stride format n (p, false) h = refl

reuse_buffer_refused :
    (a : Answers) (s : Size) (stride : ℤ) (format : ℕ) (p : Pool)
    → NoBuffer a s stride format p
    → (reuse_buffer a s stride format p).1 ≡ null
unfolding reuse_buffer allocate
reuse_buffer_refused a s stride format p (missing, refused) =
    rw (missing, reuse_buffer) (append_buffer_refused a s stride format _ _ refused)

deliver_null :
    (a : Answers) (source : Bool) (r : Pool × Iterator)
    → r.1 ≡ null
    → (deliver a source r).1 ≡ (if a.null_is_end then returned none else crashed)
unfolding deliver
deliver_null a source (p, null) h = ground arith
deliver_null a source (p, at i) h = absurd (ground arith)

-- Where the end of the vector of buffers is not the null pointer, both `createBuffer` of a
-- non-empty size and `findBuffer` of any size access a buffer through a null iterator when no
-- buffer can be reused and the compositor creates none: they do not return a null pointer.
refused_crashes :
    (a : Answers) (size : Size) (stride : ℕ) (source : Bool) (format : ℕ) (p : Pool)
    → a.null_is_end ≡ false
    → is_empty size ≡ false
    → NoBuffer a size (to_i32 stride) format p
    → ((create_buffer a size stride source format p).1 ≡ crashed)
      × ((find_buffer a size stride format p).1 ≡ crashed)
unfolding create_buffer find_buffer
refused_crashes a size stride source format p end full h =
    let e = reuse_buffer_refused a size (to_i32 stride) format p h in
    (rw full (deliver_null a source _ e ∙ rw end), deliver_null a false _ e ∙ rw end)
