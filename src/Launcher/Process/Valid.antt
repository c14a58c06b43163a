-- ===== src/Launcher/Process/Valid.antt =====
-- The states of a child process that is watched and started again.
use mathlib.Core.Path.{subst}
use mathlib.Core.Option.{some-injective}
use greenisland.Common.{
  ℕ, suc, ◌+◌, ◌-◌, String, ◌≡◌, refl, ap, ◌∙◌, ◌≢◌, ◌⊎◌, inl, inr, Bool, true, false, not, ◌||◌,
  none, some, List, [], ◌∷◌, ◌++◌, arith, ltb, str_eq, Bool-cases, Option-cases, ℤ, pos, eq_ℤ,
}
use greenisland.Launcher.Process.{
  handle, directory_changed, socket_available, started, Call, Process, schedule_start, new_process,
  start, respawn, process_error, process_finished, deliver, deliver_all, stop, forget, end_stop,
  Signal, error, exited, launch, note, quit_application, finished, terminate, stopped, kill,
}

-- How often the timer was set.
pub scheduled : List Call → ℕ
scheduled [] = 0
scheduled (schedule_start ∷ cs) = suc (scheduled cs)
scheduled (_ ∷ cs) = scheduled cs

pub scheduled-append :
    (cs : List Call) (c : Call) → scheduled (cs ++ c ∷ []) ≡ scheduled cs + scheduled (c ∷ [])
unfolding scheduled
scheduled-append [] c = omega arith
scheduled-append (schedule_start ∷ cs) c = omega (arith, scheduled-append cs c)
scheduled-append (_ ∷ cs) c = scheduled-append cs c

-- A running child is watched, only a watcher that is there is listened to, and the restarts that
-- the timer was set for and the retries that are left are five.
pub record IsValid (s : Process) : Type 0 where
  pub watched : (s.process ≡ none) ⊎ (s.watcher ≡ true)
  pub listens : (s.listening ≡ false) ⊎ (s.watcher ≡ true)
  pub budget : scheduled s.calls + s.retries ≡ 5

pub new_process-IsValid : (name : String) → IsValid (new_process name)
unfolding new_process scheduled
new_process-IsValid name = record { watched = inl refl; listens = inl refl; budget = refl }

pub start-IsValid : (s : Process) → IsValid s → IsValid (start s)
unfolding start scheduled
start-IsValid s v = elim (Option-cases s.process) [
  | inr (p, running) ↦ rw (running, start) v
  | inl idle ↦
      rw (idle, start)
        (record {
          watched = inr refl;
          listens = inr refl;
          budget = omega (arith, v.budget, scheduled-append s.calls (launch s.next));
        })
]

process_error-IsValid :
    (s : Process) (p : ℕ)
    → IsValid s
    → s.process ≡ some p
    → (t : Process) × (process_error s ≡ some t) × IsValid t
unfolding process_error respawn scheduled
process_error-IsValid s p v running =
    let w : s.watcher ≡ true = ground (arith, v.watched) in
    elim (Bool-cases (ltb s.retries 1)) [
      | inl used_up ↦ (
        note quit_application s,
        ground (arith, running, used_up),
        record {
          watched = inr w;
          listens = inr w;
          budget = omega (arith, v.budget, scheduled-append s.calls quit_application);
        },
      )
      | inr left ↦ (
        record s {
          retries = s.retries - 1;
          process = none;
          reports = false;
          watcher = false;
          listening = false;
          calls = s.calls ++ schedule_start ∷ [];
        },
        ground (arith, running, w, left),
        record {
          watched = inl refl;
          listens = inl refl;
          budget = ground (arith, v.budget, scheduled-append s.calls schedule_start);
        },
      )
    ]

forgotten :
    (s : Process) (c : Call)
    → IsValid s
    → scheduled (s.calls ++ c ∷ []) ≡ scheduled s.calls
    → IsValid (record (note c s) { process = none; reports = false })
forgotten s c v same = record {
  watched = inl refl;
  listens = v.listens;
  budget = ap (λ n. n + s.retries) same ∙ v.budget;
}

process_finished-IsValid :
    (s : Process) (p : ℕ) (c : ℤ) (n : Bool)
    → IsValid s
    → s.process ≡ some p
    → (t : Process) × (process_finished c n s ≡ some t) × IsValid t
unfolding process_finished forget scheduled
process_finished-IsValid s p c n v running = elim (Bool-cases (eq_ℤ c (pos 0))) [
  | inl success ↦ (
    record (note finished s) { process = none; reports = false },
    rw (success, process_finished) (rw (running, forget) refl),
    forgotten s finished v (omega (arith, scheduled-append s.calls finished)),
  )
  | inr failure ↦ elim (Bool-cases n) [
    | inl normal ↦ (
      record (note stopped s) { process = none; reports = false },
      rw (failure, normal, process_finished) (rw (running, forget) refl),
      forgotten s stopped v (omega (arith, scheduled-append s.calls stopped)),
    )
    | inr crash ↦ (s, rw (failure, crash, process_finished) refl, v)
  ]
]

pub deliver-IsValid :
    (g : Signal) (s : Process) (p : ℕ)
    → IsValid s
    → s.process ≡ some p
    → (t : Process) × (deliver g s ≡ some t) × IsValid t
unfolding deliver
deliver-IsValid error s p v running = process_error-IsValid s p v running
deliver-IsValid (exited c n) s p v running = elim (Bool-cases s.reports) [
  | inl connected ↦
      let (t, done, w) = process_finished-IsValid s p c n v running in
      (t, ground (arith, connected, done), w)
  | inr silent ↦ (s, ground (arith, silent), v)
]

-- While `stop` waits, nobody listens to the watcher, which is not there.
IsStopping : Process → Type 0
IsStopping s = (s.watcher ≡ false) × (s.listening ≡ false) × (scheduled s.calls + s.retries ≡ 5)

deliver-IsStopping :
    (g : Signal) (s t : Process) → deliver g s ≡ some t → IsStopping s → IsStopping t
unfolding deliver process_error respawn process_finished forget scheduled IsStopping
deliver-IsStopping error s t e h = ground (arith, e, h, scheduled-append s.calls quit_application)
deliver-IsStopping (exited c n) s t e h =
    ground (arith, e, h, scheduled-append s.calls finished, scheduled-append s.calls stopped)

deliver_all-IsStopping :
    (gs : List Signal) (s t : Process) → deliver_all gs s ≡ some t → IsStopping s → IsStopping t
unfolding deliver_all
deliver_all-IsStopping [] s t e h = subst IsStopping (some-injective _ _ e) h
deliver_all-IsStopping (g ∷ gs) s t e h = elim (Option-cases (deliver g s)) [
  | inl gone ↦ ground (arith, gone, e)
  | inr (u, first) ↦
      deliver_all-IsStopping gs u t (ground (arith, first, e)) (deliver-IsStopping g s u first h)
]

end_stop-IsValid :
    (p : ℕ) (ended : Bool) (s t : Process) → end_stop p ended s ≡ some t → IsStopping s → IsValid t
unfolding end_stop scheduled IsStopping
end_stop-IsValid p ended s t e h =
    let killed = scheduled-append s.calls (kill p) in
    let both = scheduled-append (s.calls ++ kill p ∷ []) stopped in
    let only = scheduled-append s.calls stopped in
    record {
      watched = ground (arith, e);
      listens = ground (arith, e, h);
      budget = ground (arith, e, h, killed, both, only);
    }

terminated-IsStopping :
    (s : Process) (p : ℕ)
    → IsValid s
    → IsStopping (note (terminate p) (record s { watcher = false; listening = false }))
unfolding scheduled IsStopping
terminated-IsStopping s p v =
    (refl, refl, omega (arith, v.budget, scheduled-append s.calls (terminate p)))

pub stop-IsValid :
    (gs : List Signal) (ended : Bool) (s t : Process)
    → stop gs ended s ≡ some t
    → IsValid s
    → IsValid t
unfolding stop
stop-IsValid gs ended s t e v = elim (Option-cases s.process) [
  | inl idle ↦ subst IsValid (ground (arith, idle, e)) v
  | inr (p, running) ↦
      let w : s.watcher ≡ true = ground (arith, v.watched) in
      let waits = note (terminate p) (record s { watcher = false; listening = false }) in
      elim (Option-cases (deliver_all gs waits)) [
        | inl gone ↦ ground (arith, running, w, gone, e)
        | inr (u, waited) ↦
            end_stop-IsValid p ended u t (ground (arith, running, w, waited, e))
              (deliver_all-IsStopping gs waits u waited (terminated-IsStopping s p v))
      ]
]

-- A stop that hears nothing of the child comes to its end.
pub quiet_stop : (ended : Bool) (s : Process) → IsValid s → stop [] ended s ≢ none
unfolding stop end_stop deliver_all
quiet_stop ended s v = elim (Option-cases s.process) [
  | inl idle ↦ λ e. ground (arith, idle, e)
  | inr (p, running) ↦
      let w : s.watcher ≡ true = ground (arith, v.watched) in λ e. ground (arith, running, w, e)
]

pub socket_available-IsValid :
    (exists : Bool) (s : Process)
    → IsValid s
    → (t : Process) × (handle (directory_changed exists) s ≡ some t) × IsValid t
unfolding handle socket_available scheduled
socket_available-IsValid exists s v = elim (Bool-cases s.listening) [
  | inr deaf ↦ (s, ground (arith, deaf), v)
  | inl hears ↦ elim (Bool-cases (str_eq s.socket_name "" || not exists)) [
    | inl nothing ↦ (s, ground (arith, hears, nothing), v)
    | inr found ↦
        let w : s.watcher ≡ true = ground (arith, v.listens) in
        (
          note started (record s { listening = false }),
          ground (arith, hears, found, w),
          record {
            watched = v.watched;
            listens = inl refl;
            budget = omega (arith, v.budget, scheduled-append s.calls started);
          },
        )
  ]
]
