-- ===== src/Server/Window/Outputs.antt =====
-- `findOutputs` of src/server/shell/clientwindow.cpp: the outputs that a window is in. What QRect
-- computes of two rectangles is a parameter, `contains_rect` and `intersected`.
use mathlib.Core.List.{append-nil, append_assoc}
use greenisland.Common.{
  ◌++◌, sym, ℕ, ◌≡◌, refl, ◌∙◌, ◌⊎◌, inl, inr, Bool, true, false, ◌&&◌, Option, none, some, List,
  [], ◌∷◌, ◌++◌, arith, ◌==◌, if◌then◌else◌, ℤ, pos, ◌+ℤ◌, ◌-ℤ◌, ◌*ℤ◌, ◌≤ℤ◌, leb_ℤ, Point, Size,
  Rect, rect_width, rect_height, is_valid, wrap32,
}
use greenisland.Server.Window.{
  ClientWindow, emit, eq_option, outputs_changed, designed_output_changed,
}

-- `QRect(topLeft, size)`.
abbrev pub window_rect : Point → Size → Rect
window_rect p s = record {
  left = p.x;
  top = p.y;
  right = p.x +ℤ s.width -ℤ pos 1;
  bottom = p.y +ℤ s.height -ℤ pos 1;
}

-- The variables of the loop.
pub record Search : Type 0 where
  pub found : List ℕ
  pub main : Option ℕ
  pub max_area : ℤ

eq_list : List ℕ → List ℕ → Bool
eq_list [] [] = true
eq_list (x ∷ xs) (y ∷ ys) = x == y && eq_list xs ys
eq_list _ _ = false

eq_list_sound : (xs ys : List ℕ) → eq_list xs ys ≡ true → xs ≡ ys
unfolding eq_list
eq_list_sound [] [] h = refl
eq_list_sound [] (y ∷ ys) h = cc
eq_list_sound (x ∷ xs) [] h = cc
eq_list_sound (x ∷ xs) (y ∷ ys) h = ground (arith, eq_list_sound xs ys)

eq_option_sound : (a b : Option ℕ) → eq_option a b ≡ true → a ≡ b
eq_option_sound a b h = ground arith

-- The area of a rectangle, of two 32-bit integers.
unfoldable pub area : Rect → ℤ
area r = wrap32 (rect_width r *ℤ rect_height r)

module _ (contains_rect : Rect → Rect → Bool) (intersected : Rect → Rect → Rect) where
  -- One round, for an output and its geometry.
  visit : Rect → ℕ × Rect → Search → Search
  visit window (o, r) s =
      let t = if contains_rect r window then record s { found = s.found ++ o ∷ [] } else s in
      if is_valid (intersected r window) && leb_ℤ t.max_area (area (intersected r window))
      then record t { main = some o; max_area = area (intersected r window) }
      else t

  search_outputs : Rect → List (ℕ × Rect) → Search → Search
  unfolding visit
  search_outputs window [] s = s
  search_outputs window (o ∷ os) s = search_outputs window os (visit window o s)

  set_outputs : List ℕ → ClientWindow → ClientWindow
  unfolding eq_list
  set_outputs os w =
      if eq_list os w.outputs_list then w else emit outputs_changed (record w { outputs_list = os })

  set_designed : Option ℕ → ClientWindow → ClientWindow
  set_designed o w =
      if eq_option o w.designed_output
      then w
      else emit designed_output_changed (record w { designed_output = o })

  -- `size` is the size of the surface.
  unfoldable pub find_outputs : Size → List (ℕ × Rect) → ClientWindow → ClientWindow
  unfolding search_outputs set_outputs set_designed
  find_outputs size os w = elim w.surface [
    | none ↦ w
    | some _ ↦
        let s =
          search_outputs (window_rect w.position size) os
            (record { found = []; main = w.designed_output; max_area = pos 0 }) in
        set_designed s.main (set_outputs s.found w)
  ]

  -- The area that an output has in common with a window, if it has any.
  abbrev pub common : Rect → ℕ × Rect → Rect
  common window o = intersected o.1 window

  abbrev pub Bounded : Rect → ℤ → List (ℕ × Rect) → Type 0
  Bounded window m [] = Unit
  Bounded window m (o ∷ os) =
      (is_valid (common window o) ≡ true → area (common window o) ≤ℤ m) × Bounded window m os

  -- An output of the list whose common part is valid, with that area.
  abbrev pub Attained : Rect → ℤ → Option ℕ → List (ℕ × Rect) → Type 0
  Attained window m main [] = ⊥
  Attained window m main (o ∷ os) =
      ((main ≡ some o.0) × (is_valid (common window o) ≡ true) × (m ≡ area (common window o)))
      ⊎ Attained window m main os

  visit_lem :
      (window : Rect) (o : ℕ × Rect) (s : Search)
      → let t = visit window o s in
        (s.max_area ≤ℤ t.max_area)
        × (is_valid (common window o) ≡ true → area (common window o) ≤ℤ t.max_area)
        × (((t.main ≡ s.main) × (t.max_area ≡ s.max_area))
            ⊎ ((t.main ≡ some o.0)
                × (is_valid (common window o) ≡ true)
                × (t.max_area ≡ area (common window o))))
        × (t.found ≡ (if contains_rect o.1 window then s.found ++ o.0 ∷ [] else s.found))
  unfolding visit
  visit_lem window (o, r) s = ground arith

  search_outputs_lem :
      (window : Rect) (os : List (ℕ × Rect)) (s : Search)
      → let t = search_outputs window os s in
        (s.max_area ≤ℤ t.max_area)
        × Bounded window t.max_area os
        × (((t.main ≡ s.main) × (t.max_area ≡ s.max_area)) ⊎ Attained window t.max_area t.main os)
  unfolding search_outputs
  search_outputs_lem window [] s = (omega arith, tt, inl (refl, refl))
  search_outputs_lem window (o ∷ os) s =
      let t = visit window o s in
      let (grows, covers, kept, _) = visit_lem window o s in
      let (grows', bounded, result) = search_outputs_lem window os t in
      (
        omega arith,
        (λ valid. omega (arith, covers valid), bounded),
        elim result [
          | inr later ↦ inr (inr later)
          | inl (same, area_same) ↦ elim kept [
            | inl (old, area_old) ↦ inl (same ∙ old, area_same ∙ area_old)
            | inr (here, valid, is_area) ↦ inr (inl (same ∙ here, valid, area_same ∙ is_area))
          ]
        ],
      )

  -- The outputs that contain the window, in order.
  abbrev pub inside : Rect → List (ℕ × Rect) → List ℕ
  inside window [] = []
  inside window (o ∷ os) =
      let rest = inside window os in if contains_rect o.1 window then o.0 ∷ rest else rest

  search_outputs-found :
      (window : Rect) (os : List (ℕ × Rect)) (s : Search)
      → (search_outputs window os s).found ≡ s.found ++ inside window os
  unfolding search_outputs
  search_outputs-found window [] s = sym (append-nil s.found)
  search_outputs-found window (o ∷ os) s =
      search_outputs-found window os (visit window o s)
      ∙ ground (arith, visit_lem window o s, append_assoc s.found (o.0 ∷ []) (inside window os))

  set_outputs_lem :
      (os : List ℕ) (w : ClientWindow)
      → ((set_outputs os w).outputs_list ≡ os)
        × ((set_outputs os w).designed_output ≡ w.designed_output)
  unfolding set_outputs
  set_outputs_lem os w = ground (arith, eq_list_sound os w.outputs_list)

  set_designed_lem :
      (o : Option ℕ) (w : ClientWindow)
      → ((set_designed o w).designed_output ≡ o)
        × ((set_designed o w).outputs_list ≡ w.outputs_list)
  unfolding set_designed
  set_designed_lem o w = ground (arith, eq_option_sound o w.designed_output)

  find_outputs_set :
      (size : Size) (os : List (ℕ × Rect)) (w : ClientWindow) (surface : ℕ)
      → w.surface ≡ some surface
      → let s =
          search_outputs
            (window_rect w.position size)
            os
            (record { found = []; main = w.designed_output; max_area = pos 0 }) in
        find_outputs size os w ≡ set_designed s.main (set_outputs s.found w)
  unfolding find_outputs
  find_outputs_set size os w surface e = ground arith

  -- A window with a surface is afterwards listed on the outputs that contain it. No
  -- output has a valid part in common with it whose area is above some `m` that is at least 0; its
  -- designed output is either the old one, with `m` being 0, or an output whose common part is
  -- valid and has the area `m`.
  pub find_outputs_lem :
      (size : Size) (os : List (ℕ × Rect)) (w : ClientWindow) (surface : ℕ)
      → w.surface ≡ some surface
      → let window = window_rect w.position size in
        let v = find_outputs size os w in
        (v.outputs_list ≡ inside window os)
        × (m : ℤ) × (pos 0 ≤ℤ m)
        × Bounded window m os
        × (((v.designed_output ≡ w.designed_output) × (m ≡ pos 0))
            ⊎ Attained window m v.designed_output os)
  find_outputs_lem size os w surface e =
      let window = window_rect w.position size in
      let start : Search = record { found = []; main = w.designed_output; max_area = pos 0 } in
      let s = search_outputs window os start in
      let (grows, bounded, result) = search_outputs_lem window os start in
      let (listed, kept) = set_outputs_lem s.found w in
      let (designed, still) = set_designed_lem s.main (set_outputs s.found w) in
      rw (find_outputs_set size os w surface e) (
        still ∙ listed ∙ search_outputs-found window os start,
        s.max_area,
        grows,
        bounded,
        rw designed result,
      )
