-- ===== src/Xwayland/Server/Process.antt =====
-- How often the X server is started.
use greenisland.Common.{
  ℕ, zero, suc, ◌+◌, ◌≤◌, ◌<◌, ◌≡◌, ◌⊎◌, true, some, List, [], ◌∷◌, arith, length, contains,
  remove_one,
}
use greenisland.Xwayland.Server.{
  Attempt, XwaylandServer, init, create_lock_file, bind_to_abstract_socket, bind_to_unix_socket,
  bind_sockets, attempt, search_display, setup, spawn, process_events, Event, activated, started,
  finished, handle, handle_all, existing_lock, Outcome, refused, done,
}

length-remove_one :
    (l : List ℕ) (a : ℕ) → contains l a ≡ true → length (remove_one l a) + 1 ≡ length l
length-remove_one [] a h = cc
length-remove_one (x ∷ xs) a h = ground (arith, length-remove_one xs a)

-- Each start uses up a notifier.
handle-starts :
    (e : Event) (s : XwaylandServer)
    → ((handle e s).starts + length (handle e s).notifiers ≤ s.starts + length s.notifiers)
      × (s.starts ≤ (handle e s).starts)
unfolding handle process_events spawn
handle-starts (activated a fd) s = ground (arith, length-remove_one s.notifiers fd)
handle-starts (started fd) s = ground arith
handle-starts finished s = ground arith

handle_all-starts :
    (es : List Event) (s : XwaylandServer)
    → ((handle_all es s).starts + length (handle_all es s).notifiers
        ≤ s.starts + length s.notifiers)
      × (s.starts ≤ (handle_all es s).starts)
unfolding handle_all
handle_all-starts [] s = (omega arith, omega arith)
handle_all-starts (e ∷ es) s =
    let first = handle-starts e s in
    let rest = handle_all-starts es (handle e s) in
    (omega (arith, first.0, rest.0), omega (arith, first.1, rest.1))

-- The notifiers and the starts after a round: those that pass to another round leave no notifier.
abbrev AtMost : Outcome → XwaylandServer → XwaylandServer → Type 0
AtMost done s t = (t.starts ≡ s.starts) × (length t.notifiers ≤ length s.notifiers + 2)
AtMost refused s t = Unit
AtMost _ s t = (t.starts ≡ s.starts) × (t.notifiers ≡ s.notifiers)

attempt-AtMost :
    (a : Attempt) (d : ℕ) (s : XwaylandServer) → AtMost (attempt a d s).0 s (attempt a d s).1
unfolding attempt create_lock_file existing_lock bind_sockets bind_to_abstract_socket
    bind_to_unix_socket
attempt-AtMost a d s = ground arith

search-notifiers :
    (w : ℕ → Attempt) (fuel k d : ℕ) (s t : XwaylandServer)
    → search_display fuel w k d s ≡ some (true, t)
    → (t.starts ≡ s.starts) × (length t.notifiers ≤ length s.notifiers + 2)
unfolding search_display
search-notifiers w zero k d s t e = cc
search-notifiers w (suc fuel) k d s t e =
    let u = (attempt (w k) d s).1 in
    ground (
      arith,
      e,
      attempt-AtMost (w k) d s,
      search-notifiers w fuel (suc k) d u t,
      search-notifiers w fuel (suc k) (suc d) u t,
    )

-- After a successful `setup` of a new server, whatever connections and ends of the process follow,
-- the X server is started at most twice; and once no notifier is left, it is never started again.
pub starts_bounded :
    (w : ℕ → Attempt) (fuel : ℕ) (s : XwaylandServer) (es later : List Event)
    → setup fuel w init ≡ some (true, s)
    → ((handle_all es s).starts ≤ 2)
      × ((0 < length (handle_all es s).notifiers)
          ⊎ ((handle_all later (handle_all es s)).starts ≡ (handle_all es s).starts))
unfolding setup init
starts_bounded w fuel s es later e =
    let found = search-notifiers w fuel 0 0 init s e in
    let run = handle_all-starts es s in
    let on = handle_all-starts later (handle_all es s) in
    (omega (arith, found, run), ground (arith, found, run, on))
