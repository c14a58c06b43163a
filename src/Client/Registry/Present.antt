-- ===== src/Client/Registry/Present.antt =====
-- Which globals a registry knows.
use mathlib.Core.List.{append-nil}
use greenisland.Common.{
  ℕ, String, ◌≡◌, refl, ap, inl, inr, Bool, true, false, ◌||◌, none, List, [], ◌∷◌, ◌++◌, arith,
  ◌==◌, if◌then◌else◌, ==_iff, Bool-cases, Option-cases,
}
use greenisland.Client.Registry.{
  create, handle_announce, find_info, erase_info, remove_first, handle_remove, handle_sync,
  global_announce, global_remove, global_sync, handle, handle_all, Registry, name_to_interface,
  InterfaceInfo, Event,
}

abbrev pub announced_info : ℕ → String → ℕ → InterfaceInfo
announced_info name interface version = record {
  interface = name_to_interface interface;
  name = name;
  version = version;
}

-- Whether a name is removed by some event of a list.
abbrev pub removes : List Event → ℕ → Bool
removes [] n = false
removes (global_remove m ∷ es) n = n == m || removes es n
removes (global_announce _ _ _ ∷ es) n = removes es n
removes (global_sync ∷ es) n = removes es n

-- The globals that are announced and not removed later, in the order of the announcements.
pub present : List Event → List InterfaceInfo
present [] = []
present (global_announce n i v ∷ es) =
    let rest = present es in if removes es n then rest else announced_info n i v ∷ rest
present (global_remove m ∷ es) = present es
present (global_sync ∷ es) = present es

-- The globals of a list that no event removes.
survivors : List Event → List InterfaceInfo → List InterfaceInfo
survivors es [] = []
survivors es (i ∷ is) = let rest = survivors es is in if removes es i.name then rest else i ∷ rest

abbrev AreDistinct : List InterfaceInfo → Type 0
AreDistinct [] = Unit
AreDistinct (i ∷ is) = (find_info i.name is ≡ none) × AreDistinct is

-- A compositor announces no name while a global that it announced has it.
abbrev pub AreFresh : List Event → List InterfaceInfo → Type 0
AreFresh [] l = Unit
AreFresh (global_announce n i v ∷ es) l =
    (find_info n l ≡ none) × AreFresh es (l ++ announced_info n i v ∷ [])
AreFresh (global_remove m ∷ es) l = AreFresh es (erase_info m l)
AreFresh (global_sync ∷ es) l = AreFresh es l

survivors-append :
    (es : List Event) (l : List InterfaceInfo) (i : InterfaceInfo)
    → survivors es (l ++ i ∷ []) ≡ survivors es l ++ (if removes es i.name then [] else i ∷ [])
unfolding survivors
survivors-append es [] i = refl
survivors-append es (x ∷ xs) i = elim (Bool-cases (removes es x.name)) [
  | inl gone ↦ ground (arith, gone, survivors-append es xs i)
  | inr there ↦ ground (arith, there, survivors-append es xs i)
]

survivors_missing :
    (es : List Event) (m : ℕ) (l : List InterfaceInfo)
    → find_info m l ≡ none
    → survivors (global_remove m ∷ es) l ≡ survivors es l
unfolding survivors
survivors_missing es m [] h = refl
survivors_missing es m (x ∷ xs) h = ground (arith, h, survivors_missing es m xs)

find_renamed : (m n : ℕ) (l : List InterfaceInfo) → (n == m) ≡ true → find_info n l ≡ find_info m l
find_renamed m n l e = ap (λ k. find_info k l) ((==_iff n m).0 e)

survivors-erase :
    (es : List Event) (m : ℕ) (l : List InterfaceInfo)
    → AreDistinct l
    → survivors (global_remove m ∷ es) l ≡ survivors es (erase_info m l)
unfolding survivors
survivors-erase es m [] d = refl
survivors-erase es m (x ∷ xs) d = elim (Bool-cases (x.name == m)) [
  | inl same ↦ ground (arith, same, survivors_missing es m xs, d.0, find_renamed m x.name xs same)
  | inr other ↦ ground (arith, other, survivors-erase es m xs d.1)
]

survivors_same :
    (es fs : List Event) (l : List InterfaceInfo)
    → ((n : ℕ) → removes es n ≡ removes fs n)
    → survivors es l ≡ survivors fs l
unfolding survivors
survivors_same es fs [] h = refl
survivors_same es fs (x ∷ xs) h = ground (arith, h x.name, survivors_same es fs xs h)

find-erase :
    (n m : ℕ) (l : List InterfaceInfo) → find_info n l ≡ none → find_info n (erase_info m l) ≡ none
find-erase n m [] h = refl
find-erase n m (x ∷ xs) h = ground (arith, h, find-erase n m xs)

find-append :
    (n : ℕ) (l : List InterfaceInfo) (i : InterfaceInfo)
    → find_info n l ≡ none
    → (i.name == n) ≡ false
    → find_info n (l ++ i ∷ []) ≡ none
find-append n [] i h other = ground (arith, other)
find-append n (x ∷ xs) i h other = ground (arith, h, find-append n xs i, other)

erase-AreDistinct : (m : ℕ) (l : List InterfaceInfo) → AreDistinct l → AreDistinct (erase_info m l)
erase-AreDistinct m [] d = tt
erase-AreDistinct m (x ∷ xs) d =
    let kept = find-erase x.name m xs d.0 in ground (arith, d, kept, erase-AreDistinct m xs d.1)

append-AreDistinct :
    (i : InterfaceInfo) (l : List InterfaceInfo)
    → find_info i.name l ≡ none
    → AreDistinct l
    → AreDistinct (l ++ i ∷ [])
append-AreDistinct i [] fresh d = (refl, tt)
append-AreDistinct i (x ∷ xs) fresh d =
    let rest : find_info i.name xs ≡ none = ground (arith, fresh) in
    let other : (i.name == x.name) ≡ false = ground (arith, fresh) in
    (find-append x.name xs i d.0 other, append-AreDistinct i xs rest d.1)

erase_missing : (n : ℕ) (l : List InterfaceInfo) → find_info n l ≡ none → erase_info n l ≡ l
erase_missing n [] h = refl
erase_missing n (x ∷ xs) h = ground (arith, h, erase_missing n xs)

handle_announce-interfaces :
    (i : String) (n v : ℕ) (s : Registry)
    → (handle_announce i n v s).interfaces ≡ s.interfaces ++ announced_info n i v ∷ []
unfolding handle_announce
handle_announce-interfaces i n v s = ground arith

handle_remove-interfaces :
    (n : ℕ) (s : Registry) → (handle_remove n s).interfaces ≡ erase_info n s.interfaces
unfolding handle_remove remove_first
handle_remove-interfaces n s = elim (Option-cases (find_info n s.interfaces)) [
  | inl missing ↦ ground (arith, missing, erase_missing n s.interfaces missing)
  | inr (i, there) ↦ ground (arith, there)
]

append_assoc : (xs ys zs : List InterfaceInfo) → (xs ++ ys) ++ zs ≡ xs ++ (ys ++ zs)
append_assoc [] ys zs = refl
append_assoc (x ∷ xs) ys zs = ap (λ l. x ∷ l) (append_assoc xs ys zs)

survivors_nil : (l : List InterfaceInfo) → survivors [] l ≡ l
unfolding survivors
survivors_nil [] = refl
survivors_nil (x ∷ xs) = ap (λ l. x ∷ l) (survivors_nil xs)

handle_all-survivors :
    (es : List Event) (l : List InterfaceInfo) (s : Registry)
    → s.interfaces ≡ l
    → AreDistinct l
    → AreFresh es l
    → (handle_all es s).interfaces ≡ survivors es l ++ present es
unfolding handle_all handle handle_sync present
handle_all-survivors [] l s here d f = ground (arith, here, survivors_nil l, append-nil l)
handle_all-survivors (global_announce n i v ∷ es) l s here d f =
    let info = announced_info n i v in
    let t = handle_announce i n v s in
    let at : t.interfaces ≡ l ++ info ∷ [] =
      ground (arith, handle_announce-interfaces i n v s, here) in
    let rest =
      handle_all-survivors es (l ++ info ∷ []) t at (append-AreDistinct info l f.0 d) f.1 in
    let more = survivors-append es l info in
    let same = survivors_same (global_announce n i v ∷ es) es l (λ k. refl) in
    let assoc = append_assoc (survivors es l) (info ∷ []) (present es) in
    let nil = append-nil (survivors es l) in
    elim (Bool-cases (removes es n)) [
      | inl gone ↦ ground (arith, gone, rest, more, same, nil)
      | inr there ↦ ground (arith, there, rest, more, same, assoc)
    ]
handle_all-survivors (global_remove m ∷ es) l s here d f =
    let t = handle_remove m s in
    let at : t.interfaces ≡ erase_info m l = ground (arith, handle_remove-interfaces m s, here) in
    let rest = handle_all-survivors es (erase_info m l) t at (erase-AreDistinct m l d) f in
    let same = survivors-erase es m l d in ground (arith, rest, same)
handle_all-survivors (global_sync ∷ es) l s here d f =
    let same = survivors_same (global_sync ∷ es) es l (λ k. refl) in
    let rest = handle_all-survivors es l (handle_sync s) here d f in ground (arith, rest, same)

-- Whatever a compositor announces and removes, as long as it announces no name that one of its
-- globals has: the globals that a new registry knows are those that were announced and were not
-- removed later, in the order of the announcements.
pub handle_all-present :
    (es : List Event) → AreFresh es [] → (handle_all es create).interfaces ≡ present es
unfolding create survivors
handle_all-present es f = handle_all-survivors es [] create refl tt f
