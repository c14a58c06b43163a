-- ===== src/Xwayland/Server/Setup.antt =====
-- The search for a free display in `setup`: when it ends, and what it holds then.
use mathlib.Core.Path.{subst}
use greenisland.Common.{
  ℕ, zero, suc, ◌+◌, ◌≤◌, ◌<◌, ◌≡◌, refl, sym, ◌≢◌, ◌⊎◌, inl, inr, Bool, true, false, not, ◌&&◌,
  ◌||◌, Option, none, some, arith, if◌then◌else◌,
}
use greenisland.Xwayland.Server.{
  SocketAnswers, Attempt, XwaylandServer, Lock, try_again, existing_lock, create_lock_file,
  bind_to_abstract_socket, bind_to_unix_socket, Outcome, same, next, refused, done, is_none,
  bind_sockets, attempt, search_display, setup, LockAnswers,
}

abbrev pub is_bound : SocketAnswers → Bool
is_bound a = not (is_none a.fd) && (a.binds && a.listens)

abbrev after_lock : Lock → Outcome
after_lock try_again = same
after_lock _ = next

-- What a round comes to, by its answers alone.
abbrev pub outcome : Attempt → Outcome
outcome a =
    if a.lock.opens && a.lock.writes
    then if not (is_bound a.abstract_socket) && a.abstract_socket.in_use
      then next
      else if is_bound a.unix_socket
      then done
      else refused
    else if a.lock.opens || not a.lock.exists
    then refused
    else after_lock (existing_lock a.lock)

attempt-outcome : (a : Attempt) (d : ℕ) (s : XwaylandServer) → (attempt a d s).0 ≡ outcome a
unfolding attempt create_lock_file existing_lock bind_sockets bind_to_abstract_socket
    bind_to_unix_socket
attempt-outcome a d s = ground arith

abbrev pub goes_on : Outcome → Bool
goes_on same = true
goes_on next = true
goes_on _ = false

abbrev pub step_display : Outcome → ℕ
step_display next = 1
step_display _ = 0

-- How many of `n` rounds, from round `k` on, pass to the next display.
abbrev pub passed : (ℕ → Attempt) → ℕ → ℕ → ℕ
passed w k zero = 0
passed w k (suc n) = step_display (outcome (w k)) + passed w (suc k) n

-- The two ways in which the loop ends: with display `d`, or not at all well.
abbrev pub IsResult : Option (Bool × XwaylandServer) → Outcome → ℕ → Type 0
IsResult r o d =
    (t : XwaylandServer) × (((o ≡ done) × (r ≡ some (true, t)) × (t.display_name ≡ some d))
      ⊎ ((o ≡ refused) × (r ≡ some (false, t))))

pub Outcome-cases : (o : Outcome) → ((o ≡ same) ⊎ (o ≡ next)) ⊎ ((o ≡ refused) ⊎ (o ≡ done))
Outcome-cases same = inl (inl refl)
Outcome-cases next = inl (inr refl)
Outcome-cases refused = inr (inl refl)
Outcome-cases done = inr (inr refl)

search_stops :
    (w : ℕ → Attempt) (fuel k d : ℕ) (s : XwaylandServer)
    → goes_on (outcome (w k)) ≡ false
    → IsResult (search_display (suc fuel) w k d s) (outcome (w k)) d
unfolding search_display
search_stops w fuel k d s stops =
    let at = attempt-outcome (w k) d s in
    let t = (attempt (w k) d s).1 in
    elim (Outcome-cases (outcome (w k))) [
      | inl (inl e) ↦ ground (arith, e, stops)
      | inl (inr e) ↦ ground (arith, e, stops)
      | inr (inl e) ↦ (t, inr (e, ground (arith, at, e)))
      | inr (inr e) ↦ (record t { display_name = some d }, inl (e, ground (arith, at, e), refl))
    ]

search_goes_on :
    (w : ℕ → Attempt) (fuel k d : ℕ) (s : XwaylandServer)
    → goes_on (outcome (w k)) ≡ true
    → search_display (suc fuel) w k d s
      ≡ search_display fuel w (suc k) (step_display (outcome (w k)) + d) (attempt (w k) d s).1
unfolding search_display
search_goes_on w fuel k d s goes =
    let at = attempt-outcome (w k) d s in
    elim (Outcome-cases (outcome (w k))) [
      | inl (inl e) ↦ ground (arith, at, e)
      | inl (inr e) ↦ ground (arith, at, e)
      | inr (inl e) ↦ ground (arith, e, goes)
      | inr (inr e) ↦ ground (arith, e, goes)
    ]

search_ends :
    (w : ℕ → Attempt) (n m fuel k d : ℕ) (s : XwaylandServer)
    → n + k ≡ m
    → ((j : ℕ) → k ≤ j → j < m → goes_on (outcome (w j)) ≡ true)
    → goes_on (outcome (w m)) ≡ false
    → n < fuel
    → IsResult (search_display fuel w k d s) (outcome (w m)) (passed w k n + d)
search_ends w n m zero k d s e goes stops enough = absurd (omega arith)
search_ends w zero m (suc fuel) k d s e goes stops enough =
    let here : k ≡ m = omega arith in
    let plain : d ≡ 0 + d = omega arith in
    subst (IsResult (search_display (suc fuel) w k d s) (outcome (w m))) plain (
      subst (λ j. IsResult (search_display (suc fuel) w k d s) (outcome (w j)) d) here
        (search_stops w fuel k d s (subst (λ j. goes_on (outcome (w j)) ≡ false) (sym here) stops)))
search_ends w (suc n) m (suc fuel) k d s e goes stops enough =
    let o = outcome (w k) in
    let first = goes k (omega arith) (omega arith) in
    let rest =
      search_ends w n m fuel (suc k) (step_display o + d) (attempt (w k) d s).1 (omega arith)
        (λ j h. goes j (omega arith)) stops (omega arith) in
    let same_display : passed w (suc k) n + (step_display o + d) ≡ passed w k (suc n) + d =
      omega arith in
    rw (search_goes_on w fuel k d s first) (
      subst
        (λ x.
          IsResult (search_display fuel w (suc k) (step_display o + d) (attempt (w k) d s).1)
            (outcome (w m)) x)
        same_display rest)

-- If each of the first `n` rounds finds the display taken, or a lock file to try again, and round
-- `n` does not, then the loop ends in round `n`, with any fuel above `n`: either it has a display,
-- the one that the rounds before it passed to, or it gives up.
pub setup_ends :
    (w : ℕ → Attempt) (n fuel : ℕ) (s : XwaylandServer)
    → ((j : ℕ) → j < n → goes_on (outcome (w j)) ≡ true)
    → goes_on (outcome (w n)) ≡ false
    → n < fuel
    → IsResult (setup fuel w s) (outcome (w n)) (passed w 0 n)
unfolding setup
setup_ends w n fuel s goes stops enough =
    let all : passed w 0 n + 0 ≡ passed w 0 n = omega arith in
    subst (IsResult (setup fuel w s) (outcome (w n))) all
      (search_ends w n n fuel 0 0 s (omega arith) (λ j low. goes j) stops enough)

-- A lock file of a process that is not there any more, which cannot be removed.
abbrev pub IsStuck : LockAnswers → Type 0
IsStuck a =
    (a.opens ≡ false)
    × (a.exists ≡ true)
    × (a.reads ≡ some 11)
    × (a.pid ≢ none)
    × (a.is_gone ≡ true)
    × (a.removes ≡ false)

stuck-outcome : (a : Attempt) → IsStuck a.lock → outcome a ≡ same
unfolding existing_lock
stuck-outcome a h = ground (arith, h)

search_loops :
    (w : ℕ → Attempt) (fuel k d : ℕ) (s : XwaylandServer)
    → ((j : ℕ) → IsStuck (w j).lock)
    → search_display fuel w k d s ≡ none
unfolding search_display
search_loops w zero k d s stuck = refl
search_loops w (suc fuel) k d s stuck =
    let e = stuck-outcome (w k) (stuck k) in
    let at = attempt-outcome (w k) d s in
    ground (arith, e, at, search_loops w fuel (suc k) d (attempt (w k) d s).1 stuck)

-- If the lock file of the first display is stale and cannot be removed, the loop does not end,
-- however many rounds it is given.
pub stale_loops :
    (w : ℕ → Attempt) (fuel : ℕ) (s : XwaylandServer)
    → ((k : ℕ) → IsStuck (w k).lock)
    → setup fuel w s ≡ none
unfolding setup
stale_loops w fuel s stuck = search_loops w fuel 0 0 s stuck
