-- ===== src/Client/Registry/Removal.antt =====
-- What the removal of a global and a binding come to.
use mathlib.Core.Path.{subst}
use greenisland.Common.{
  ℕ, String, ◌≡◌, refl, ap, ◌≢◌, ◌⊎◌, inl, inr, Bool, true, false, ◌||◌, Option, none, some, List,
  [], ◌∷◌, ◌++◌, arith, ◌==◌, if◌then◌else◌, str_eq_iff, Option-cases, All, Bool-cases, ==_iff, sym,
}
use greenisland.Client.Registry.{
  Interface, is_known, wl_interface, value, bind, InterfaceInfo, Signal, Registry, find_info,
  erase_info, remove_first, handle_remove, removed, interface_removed, interfaces_removed,
  is_empty_list, handle_announce, name_to_interface,
}

-- The signals of a removal: the one of the interface, if it is known, that of the name, and that of
-- all interfaces if none is left.
abbrev pub removal_signals : Option InterfaceInfo → ℕ → List InterfaceInfo → List Signal
removal_signals found n left =
    let all : List Signal = if is_empty_list left then interfaces_removed ∷ [] else [] in
    let rest = interface_removed n ∷ all in
    elim found [
      | none ↦ rest
      | some i ↦ if is_known i.interface then removed i.interface n ∷ rest else rest
    ]

append_one :
    (xs : List Signal) (a : Signal) (ys : List Signal) → (xs ++ a ∷ []) ++ ys ≡ xs ++ a ∷ ys
append_one [] a ys = refl
append_one (x ∷ xs) a ys = ap (λ l. x ∷ l) (append_one xs a ys)

-- A list with a global of a name, and the same list without it: no global before it has that name.
abbrev pub IsWithout : ℕ → InterfaceInfo → List InterfaceInfo → List InterfaceInfo → Type 0
IsWithout n i xs ys =
    (before : List InterfaceInfo) × (after : List InterfaceInfo) × ((xs ≡ before ++ i ∷ after)
      × (ys ≡ before ++ after)
      × (i.name ≡ n)
      × All (λ j. j.name ≢ n) before)

erase_info-IsWithout :
    (n : ℕ) (xs : List InterfaceInfo)
    → ((find_info n xs ≡ none) × All (λ j. j.name ≢ n) xs)
      ⊎ ((i : InterfaceInfo) × ((find_info n xs ≡ some i) × IsWithout n i xs (erase_info n xs)))
erase_info-IsWithout n [] = inl (refl, tt)
erase_info-IsWithout n (x ∷ xs) = elim (Bool-cases (x.name == n)) [
  | inl same ↦ inr (
    x,
    (ground (arith, same), ([], xs, (refl, ground (arith, same), (==_iff x.name n).0 same, tt))),
  )
  | inr other ↦
      let differs : x.name ≢ n = λ e. ground (arith, other, e, ==_iff x.name n) in
      elim (erase_info-IsWithout n xs) [
        | inl (missing, others) ↦ inl (ground (arith, other, missing), (differs, others))
        | inr (i, (there, (before, after, (split, left, name, others)))) ↦ inr (
          i,
          (
            ground (arith, other, there),
            (
              x ∷ before,
              after,
              (ap (λ l. x ∷ l) split, ground (arith, other, left), name, (differs, others)),
            ),
          ),
        )
      ]
]

handle_remove-interfaces :
    (n : ℕ) (s : Registry)
    → ((find_info n s.interfaces ≡ none)
        ⊎ ((handle_remove n s).interfaces ≡ erase_info n s.interfaces))
      × ((find_info n s.interfaces ≢ none) ⊎ ((handle_remove n s).interfaces ≡ s.interfaces))
unfolding handle_remove remove_first
handle_remove-interfaces n s = elim (Option-cases (find_info n s.interfaces)) [
  | inl missing ↦ (inl missing, inr (ground (arith, missing)))
  | inr (i, there) ↦ (inr (ground (arith, there)), inl (λ e. cc))
]

handle_remove-signals :
    (n : ℕ) (s : Registry)
    → let t = handle_remove n s in
      t.signals ≡ s.signals ++ removal_signals (find_info n s.interfaces) n t.interfaces
unfolding handle_remove remove_first
handle_remove-signals n s =
    let all = interfaces_removed ∷ [] in
    let name = interface_removed n in
    let one = append_one s.signals name all in
    elim (Option-cases (find_info n s.interfaces)) [
      | inl missing ↦ ground (arith, missing, one)
      | inr (i, there) ↦
          let known = removed i.interface n in
          let two = append_one s.signals known (name ∷ []) in
          let three = append_one s.signals known (name ∷ all) in
          let four = append_one (s.signals ++ known ∷ []) name all in
          ground (arith, there, one, two, three, four)
    ]

-- The removal of a name. Either no global has it: then the globals stay, and the signals are that of
-- the name and, if there is no global, the last one. Or the first global that has it goes away, and
-- the others stay in their order: then the signals are that of its interface, if it is known, that
-- of the name, and the last one if no global is left.
pub handle_remove_lem :
    (n : ℕ) (s : Registry)
    → let t = handle_remove n s in
      (All (λ j. j.name ≢ n) s.interfaces
        × (t.interfaces ≡ s.interfaces)
        × (t.signals ≡ s.signals ++ removal_signals none n t.interfaces))
      ⊎ ((i : InterfaceInfo) × (IsWithout n i s.interfaces t.interfaces
            × (t.signals ≡ s.signals ++ removal_signals (some i) n t.interfaces)))
handle_remove_lem n s =
    let t = handle_remove n s in
    let (erased, kept) = handle_remove-interfaces n s in
    let told = handle_remove-signals n s in
    let signals : Option InterfaceInfo → Type 0 =
      λ f. t.signals ≡ s.signals ++ removal_signals f n t.interfaces in
    elim (erase_info-IsWithout n s.interfaces) [
      | inl (missing, others) ↦
          inl (others, ground (arith, kept, missing), subst signals missing told)
      | inr (i, (there, without)) ↦
          let same : t.interfaces ≡ erase_info n s.interfaces = ground (arith, erased, there) in
          inr (i, (subst (IsWithout n i s.interfaces) (sym same) without, subst signals there told))
    ]

-- The interfaces of the registry are distinct values.
value-injective : (i j : Interface) → value i ≡ value j → i ≡ j
value-injective i j e = ground (arith, e)

abbrev pub has_interface : Interface → List InterfaceInfo → Bool
has_interface i [] = false
has_interface i (x ∷ xs) = value x.interface == value i || has_interface i xs

bind_missing :
    (i : Interface) (xs : List InterfaceInfo) (x : InterfaceInfo)
    → has_interface i xs ≡ false
    → x.interface ≡ i
    → bind i (xs ++ x ∷ []) ≡ some (x.name, wl_interface i, x.version)
unfolding bind
bind_missing i [] x h e = ground (arith, e)
bind_missing i (y ∷ ys) x h e = ground (arith, h, bind_missing i ys x, e)

name_to_interface-wl_interface :
    (s : String)
    → is_known (name_to_interface s) ≡ true
    → wl_interface (name_to_interface s) ≡ some s
unfolding name_to_interface wl_interface
name_to_interface-wl_interface s known = ground (
  arith,
  known,
  str_eq_iff s "wl_compositor",
  str_eq_iff s "zwp_fullscreen_shell_v1",
  str_eq_iff s "wl_output",
  str_eq_iff s "greenisland_outputmanagement",
  str_eq_iff s "greenisland_screencaster",
  str_eq_iff s "greenisland_screenshooter",
  str_eq_iff s "wl_seat",
  str_eq_iff s "wl_shm",
)

-- A global of an interface that the registry does not have yet is announced: a binding of that
-- interface asks for its name, under the name of the interface that was announced, and with its version.
pub bind-handle_announce :
    (interface : String) (n v : ℕ) (s : Registry)
    → is_known (name_to_interface interface) ≡ true
    → has_interface (name_to_interface interface) s.interfaces ≡ false
    → bind (name_to_interface interface) (handle_announce interface n v s).interfaces
      ≡ some (n, some interface, v)
unfolding handle_announce
bind-handle_announce interface n v s known fresh =
    let i = name_to_interface interface in
    let info : InterfaceInfo = record { interface = i; name = n; version = v } in
    let found = bind_missing i s.interfaces info fresh refl in
    ground (arith, found, name_to_interface-wl_interface interface known)
