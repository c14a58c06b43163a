-- ===== src/Server/NativeScreens/Changed.antt =====
-- What a screen shows after a change of its screen of Qt.
use greenisland.Common.{
  ◌≡◌, refl, ap, ◌∙◌, ◌↔◌, inl, inr, Bool, true, none, some, List, [], ◌∷◌, arith, Option-cases, ℤ,
  pos, eq_ℤ_iff, Point, eq_point_iff, Size, eq_size_iff,
}
use greenisland.Server.Screen.{
  Screen, Signal, Mode, RealOps, Orientation, primary_orientation, portrait, landscape,
  inverted_portrait, inverted_landscape, orient, Transform, Subpixel, rotate_90, rotate_180,
  rotate_270, eq_subpixel, eq_transform, set_transform, set_position, set_size, set_refresh_rate,
  set_physical_size, set_scale_factor, set_modes, set_current_mode, set_preferred_mode,
  set_subpixel,
}
use greenisland.Server.NativeScreens.{
  Source, SubpixelHint, hint_other, hint_subpixel, update_modes, handle_screen_changed,
}

eq_transform_iff : (s t : Transform) → (eq_transform s t ≡ true) ↔ (s ≡ t)
eq_transform_iff s t = ground arith

eq_subpixel_iff : (s t : Subpixel) → (eq_subpixel s t ≡ true) ↔ (s ≡ t)
eq_subpixel_iff s t = ground arith

-- Each setter gives its field the value, and touches nothing else but the signals.
module _ {R : Type 0} (s : Screen R) where
  set_position_lem :
      (v : Point) → (g : List Signal) × (set_position v s ≡ record s { position = v; signals = g })
  unfolding set_position
  set_position_lem v = ((set_position v s).signals, ground (arith, eq_point_iff s.position v))

  set_size_lem :
      (v : Size) → (g : List Signal) × (set_size v s ≡ record s { size = v; signals = g })
  unfolding set_size
  set_size_lem v = ((set_size v s).signals, ground (arith, eq_size_iff s.size v))

  set_refresh_rate_lem :
      (v : ℤ)
      → (g : List Signal) × (set_refresh_rate v s ≡ record s { refresh_rate = v; signals = g })
  unfolding set_refresh_rate
  set_refresh_rate_lem v =
      ((set_refresh_rate v s).signals, ground (arith, eq_ℤ_iff s.refresh_rate v))

  set_subpixel_lem :
      (v : Subpixel)
      → (g : List Signal) × (set_subpixel v s ≡ record s { subpixel = v; signals = g })
  unfolding set_subpixel
  set_subpixel_lem v = ((set_subpixel v s).signals, ground (arith, eq_subpixel_iff s.subpixel v))

  set_transform_lem :
      (v : Transform)
      → (g : List Signal) × (set_transform v s ≡ record s { transform = v; signals = g })
  unfolding set_transform
  set_transform_lem v =
      ((set_transform v s).signals, ground (arith, eq_transform_iff s.transform v))

  set_scale_factor_lem :
      (v : ℤ)
      → (g : List Signal) × (set_scale_factor v s ≡ record s { scale_factor = v; signals = g })
  unfolding set_scale_factor
  set_scale_factor_lem v =
      ((set_scale_factor v s).signals, ground (arith, eq_ℤ_iff s.scale_factor v))

  set_current_mode_lem :
      (v : ℤ)
      → (g : List Signal) × (set_current_mode v s ≡ record s { current_mode = v; signals = g })
  unfolding set_current_mode
  set_current_mode_lem v =
      ((set_current_mode v s).signals, ground (arith, eq_ℤ_iff s.current_mode v))

  set_preferred_mode_lem :
      (v : ℤ)
      → (g : List Signal) × (set_preferred_mode v s ≡ record s { preferred_mode = v; signals = g })
  unfolding set_preferred_mode
  set_preferred_mode_lem v =
      ((set_preferred_mode v s).signals, ground (arith, eq_ℤ_iff s.preferred_mode v))

  set_physical_size_lem :
      (eq_real : R × R → R × R → Bool) (v : R × R)
      → (p : R × R) × (g : List Signal) × (set_physical_size eq_real v s
          ≡ record s { physical_size = p; signals = g })
  unfolding set_physical_size
  set_physical_size_lem eq_real v = (
    (set_physical_size eq_real v s).physical_size,
    (set_physical_size eq_real v s).signals,
    ground arith,
  )

  set_modes_lem :
      (v : List (Mode R))
      → (g : List Signal) × (set_modes v s ≡ record s { modes = v; signals = g })
  unfolding set_modes
  set_modes_lem v = ((set_modes v s).signals, refl)

  hint_subpixel_lem :
      (h : SubpixelHint)
      → (x : Subpixel) × (g : List Signal) × (hint_subpixel h s
          ≡ record s { subpixel = x; signals = g })
  unfolding hint_subpixel
  hint_subpixel_lem hint_other = (s.subpixel, s.signals, refl)
  hint_subpixel_lem _ = let (g, e) = set_subpixel_lem _ in (_, g, e)

-- The transform that an orientation asks for.
abbrev pub oriented : Orientation → Transform → Transform
oriented portrait t = rotate_90
oriented inverted_landscape t = rotate_180
oriented inverted_portrait t = rotate_270
oriented _ t = t

orient_lem :
    {R : Type 0} (s : Screen R) (o : Orientation)
    → (g : List Signal) × (orient o s
        ≡ record s { transform = oriented o s.transform; signals = g })
unfolding orient
orient_lem s portrait = set_transform_lem s rotate_90
orient_lem s inverted_landscape = set_transform_lem s rotate_180
orient_lem s inverted_portrait = set_transform_lem s rotate_270
orient_lem s primary_orientation = (s.signals, refl)
orient_lem s landscape = (s.signals, refl)

-- The modes that a screen shows: the platform's, or one of its own size and refresh rate.
abbrev pub shown_modes : {R : Type 0} → RealOps R → Source R → List (Mode R)
shown_modes ops q = elim q.native [
  | some e ↦ e.modes
  | none ↦ record { size = q.size; refresh_rate = ops.per_mille q.refresh_rate } ∷ []
]

abbrev pub shown_current : {R : Type 0} → Source R → ℤ
shown_current q = elim q.native [ some e ↦ e.current_mode | none ↦ pos 0 ]

abbrev pub shown_preferred : {R : Type 0} → Source R → ℤ
shown_preferred q = elim q.native [ some e ↦ e.preferred_mode | none ↦ pos 0 ]

module _ {R : Type 0} (ops : RealOps R) where
  update_modes_lem :
      (q : Source R) (s : Screen R)
      → s.size ≡ q.size
      → s.refresh_rate ≡ q.refresh_rate
      → (g : List Signal) × (update_modes ops q.native s ≡ record s {
        modes = shown_modes ops q;
        current_mode = shown_current q;
        preferred_mode = shown_preferred q;
        signals = g;
      })
  unfolding update_modes set_modes set_current_mode set_preferred_mode
  update_modes_lem q s size rate = (
    (update_modes ops q.native s).signals,
    elim (Option-cases q.native) [
      | inl foreign ↦
          ground (arith, eq_ℤ_iff s.current_mode (pos 0), eq_ℤ_iff s.preferred_mode (pos 0))
      | inr (e, native) ↦ ground (
        arith,
        eq_ℤ_iff s.current_mode e.current_mode,
        eq_ℤ_iff s.preferred_mode e.preferred_mode,
      )
    ],
  )

  -- After a change the screen has the position, the size, the refresh rate, the scale, the modes
  -- and the current and preferred mode of the screen of Qt; its transform follows the orientation,
  -- but for the primary and the landscape orientation it stays what it was.
  handle_screen_changed_fields :
      (q : Source R) (s : Screen R)
      → let t = handle_screen_changed ops q s in
        (t.position ≡ q.top_left)
        × (t.size ≡ q.size)
        × (t.refresh_rate ≡ q.refresh_rate)
        × (t.scale_factor ≡ q.scale)
        × (t.modes ≡ shown_modes ops q)
        × (t.current_mode ≡ shown_current q)
        × (t.preferred_mode ≡ shown_preferred q)
        × (t.transform ≡ oriented q.orientation s.transform)
        × (t.screen ≡ s.screen)
        × (t.manufacturer ≡ s.manufacturer)
        × (t.model ≡ s.model)
  unfolding handle_screen_changed
  handle_screen_changed_fields q s =
      let (g1, e1) = set_position_lem s q.top_left in
      let s1 = record s { position = q.top_left; signals = g1 } in
      let (g2, e2) = set_size_lem s1 q.size in
      let s2 = record s1 { size = q.size; signals = g2 } in
      let (g3, e3) = set_refresh_rate_lem s2 q.refresh_rate in
      let s3 = record s2 { refresh_rate = q.refresh_rate; signals = g3 } in
      let (p, g4, e4) = set_physical_size_lem s3 ops.eq_real q.physical_size in
      let s4 = record s3 { physical_size = p; signals = g4 } in
      let (g5, e5) = set_scale_factor_lem s4 q.scale in
      let s5 = record s4 { scale_factor = q.scale; signals = g5 } in
      let (g6, e6) = update_modes_lem q s5 refl refl in
      let s6 = record s5 {
        modes = shown_modes ops q;
        current_mode = shown_current q;
        preferred_mode = shown_preferred q;
        signals = g6;
      } in
      let (g7, e7) = orient_lem s6 q.orientation in
      let s7 = record s6 { transform = oriented q.orientation s6.transform; signals = g7 } in
      let (x, g8, e8) = hint_subpixel_lem s7 q.subpixel in
      let e : handle_screen_changed ops q s ≡ record s7 { subpixel = x; signals = g8 } =
        cc (e1, e2, e3, e4, e5, e6, e7, e8) in
      rw e (refl, refl, refl, refl, refl, refl, refl, refl, refl, refl, refl)

  -- A screen that is turned to portrait and back to landscape stays rotated by 90 degrees.
  handle_screen_changed_back :
      (q r : Source R) (s : Screen R)
      → q.orientation ≡ portrait
      → r.orientation ≡ landscape
      → (handle_screen_changed ops r (handle_screen_changed ops q s)).transform ≡ rotate_90
  handle_screen_changed_back q r s turned back =
      (handle_screen_changed_fields r (handle_screen_changed ops q s)).7
      ∙ ap (λ o. oriented o (handle_screen_changed ops q s).transform) back
      ∙ (handle_screen_changed_fields q s).7
      ∙ ap (λ o. oriented o s.transform) turned
