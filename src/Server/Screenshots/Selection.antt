-- ===== src/Server/Screenshots/Selection.antt =====
-- What is selected for a screenshot, and when its size is sent.
use greenisland.Common.{
  ℕ, ◌+◌, ◌≡◌, refl, ◌≢◌, inl, inr, false, ◌&&◌, Option, none, some, List, [], ◌∷◌, ◌++◌, arith,
  Option-cases, ◌*ℤ◌, Size,
}
use greenisland.Server.Screenshots.{
  CaptureType, capture_output, Effects, bit, Sent, setup_sent, copied, failed_sent, done_sent,
  Screenshot, collect_effects, capture, send, select_surface, select_area, setup, ShmBuffer, dump,
  capture_into, record_into, Request, surface_selected, area_selected, set_up, recorded, handle,
  handle_all,
}

collect_effects-none :
    (flags : List ℕ) (e : Effects)
    → ((i : ℕ) → e i ≡ false)
    → (i : ℕ) → collect_effects flags e i ≡ false
unfolding collect_effects
collect_effects-none [] e h i = h i
collect_effects-none (v ∷ vs) e h i =
    collect_effects-none vs (λ j. e j && bit v j) (λ j. ground (arith, h j)) i

-- How often the size was sent.
abbrev pub setups : List Sent → ℕ
setups [] = 0
setups (setup_sent w h stride ∷ es) = setups es + 1
setups (_ ∷ es) = setups es

setups-append : (xs ys : List Sent) → setups (xs ++ ys) ≡ setups xs + setups ys
setups-append [] ys = omega arith
setups-append (setup_sent w h s ∷ xs) ys = omega (arith, setups-append xs ys)
setups-append (copied n ∷ xs) ys = setups-append xs ys
setups-append (failed_sent ∷ xs) ys = setups-append xs ys
setups-append (done_sent ∷ xs) ys = setups-append xs ys

abbrev IsUnselected : CaptureType → Screenshot → Type 0
IsUnselected type s = (s.capture_type ≡ type) × (s.selected_surface ≡ none) × (setups s.sent ≡ 0)

failed-IsUnselected :
    (type : CaptureType) (s : Screenshot)
    → IsUnselected type s
    → IsUnselected type (send failed_sent s)
failed-IsUnselected type s u = ground (arith, u, setups-append s.sent (failed_sent ∷ []))

dump-IsUnselected :
    (b : ShmBuffer) (image : Option ℕ) (type : CaptureType) (s : Screenshot)
    → IsUnselected type s
    → IsUnselected type (dump b image s)
unfolding dump
dump-IsUnselected b none type s u = failed-IsUnselected type s u
dump-IsUnselected b (some bytes) type s u =
    let n = b.height *ℤ b.stride in
    ground (
      arith,
      u,
      setups-append s.sent (copied n ∷ []),
      setups-append (s.sent ++ copied n ∷ []) (done_sent ∷ []),
    )

handle-IsUnselected :
    (r : Request) (type : CaptureType) (s t : Screenshot)
    → type ≢ capture_output
    → IsUnselected type s
    → handle r s ≡ some t
    → IsUnselected type t
unfolding handle select_surface select_area setup record_into capture_into
handle-IsUnselected (surface_selected x) type s t other u e = ground (arith, u, e)
handle-IsUnselected (area_selected x) type s t other u e = ground (arith, u, e)
handle-IsUnselected set_up type s t other u e = ground (arith, u, e, other)
handle-IsUnselected (recorded none image) type s t other u e =
    ground (arith, e, failed-IsUnselected type s u)
handle-IsUnselected (recorded (some b) image) type s t other u e =
    ground (arith, u, e, other, failed-IsUnselected type s u, dump-IsUnselected b image type s u)

handle_all-IsUnselected :
    (rs : List Request) (type : CaptureType) (s t : Screenshot)
    → type ≢ capture_output
    → IsUnselected type s
    → handle_all rs s ≡ some t
    → IsUnselected type t
unfolding handle_all
handle_all-IsUnselected [] type s t other u e = ground (arith, u, e)
handle_all-IsUnselected (r ∷ rs) type s t other u e = elim (Option-cases (handle r s)) [
  | inl crashed ↦ ground (arith, crashed, e)
  | inr (m, next) ↦
      handle_all-IsUnselected rs type m t other (handle-IsUnselected r type s m other u next)
        (ground (arith, next, e))
]

-- A screenshot that is not one of an output, whatever is selected, asked and recorded: it never
-- has a surface, and its size is never sent to the client.
never_set_up :
    (type : CaptureType) (output : Option Size) (flags : List ℕ) (rs : List Request)
    (t : Screenshot)
    → type ≢ capture_output
    → handle_all rs (capture type output flags) ≡ some t
    → (t.selected_surface ≡ none) × (setups t.sent ≡ 0)
unfolding capture
never_set_up type output flags rs t other e =
    let u =
      handle_all-IsUnselected rs type (capture type output flags) t other (refl, refl, refl) e in
    (u.1, u.2)

-- Whatever flags a client asks for, the screenshot has no effect.
capture-effects :
    (type : CaptureType) (output : Option Size) (flags : List ℕ) (i : ℕ)
    → (capture type output flags).effects i ≡ false
unfolding capture
capture-effects type output flags i = collect_effects-none flags (λ j. false) (λ j. refl) i
