-- ===== src/Server/Window/Stacking.antt =====
-- `lower` and `raise` of src/server/shell/clientwindow.cpp, over the items of the scene. A view is
-- a number; each has a parent item, and an item has its children from bottom to top.
use mathlib.Core.Path.{subst}
use greenisland.Common.{
  ◌≢◌, sym, ◌∙◌, ℕ, ◌≡◌, refl, sym, ◌∙◌, ◌≢◌, true, Option, none, some, List, [], ◌∷◌, ◌++◌, arith,
  ◌==◌, if◌then◌else◌, contains, remove_one,
}

pub record Scene : Type 0 where
  pub parent : ℕ → ℕ
  pub children : ℕ → List ℕ

abbrev pub last? : List ℕ → Option ℕ
last? [] = none
last? (x ∷ []) = some x
last? (x ∷ y ∷ ys) = last? (y ∷ ys)

abbrev pub first? : List ℕ → Option ℕ
first? [] = none
first? (x ∷ xs) = some x

-- The children of one item are replaced.
abbrev put : ℕ → List ℕ → Scene → Scene
put p cs s = record s { children = λ q. if p == q then cs else s.children q }

-- `stackAfter` the top child, and `stackBefore` the bottom one; a view is a child of its parent,
-- so that there is a top and a bottom.
raise_view : ℕ → Scene → Scene
raise_view v s =
    let cs = s.children (s.parent v) in
    elim (last? cs) [
      | none ↦ s
      | some top ↦ if top == v then s else put (s.parent v) (remove_one cs v ++ v ∷ []) s
    ]

lower_view : ℕ → Scene → Scene
lower_view v s =
    let cs = s.children (s.parent v) in
    elim (first? cs) [
      | none ↦ s
      | some bottom ↦ if bottom == v then s else put (s.parent v) (v ∷ remove_one cs v) s
    ]

unfoldable pub raise : List ℕ → Scene → Scene
unfolding raise_view
raise [] s = s
raise (v ∷ vs) s = raise vs (raise_view v s)

unfoldable pub lower : List ℕ → Scene → Scene
unfolding lower_view
lower [] s = s
lower (v ∷ vs) s = lower vs (lower_view v s)

last?-append : (xs : List ℕ) (v : ℕ) → last? (xs ++ v ∷ []) ≡ some v
last?-append [] v = refl
last?-append (x ∷ []) v = refl
last?-append (x ∷ y ∷ ys) v = last?-append (y ∷ ys) v

nonempty-last? : (y : ℕ) (ys : List ℕ) → (t : ℕ) × (last? (y ∷ ys) ≡ some t)
nonempty-last? y [] = (y, refl)
nonempty-last? y (z ∷ zs) = nonempty-last? z zs

contains-last? : (xs : List ℕ) (v : ℕ) → contains xs v ≡ true → (t : ℕ) × (last? xs ≡ some t)
contains-last? [] v h = absurd (ground arith)
contains-last? (x ∷ []) v h = (x, refl)
contains-last? (x ∷ y ∷ ys) v h = nonempty-last? y ys

raise_view-top :
    (v : ℕ) (s : Scene)
    → contains (s.children (s.parent v)) v ≡ true
    → last? ((raise_view v s).children (s.parent v)) ≡ some v
unfolding raise_view
raise_view-top v s h =
    let (t, e) = contains-last? (s.children (s.parent v)) v h in
    ground (arith, e, last?-append (remove_one (s.children (s.parent v)) v) v)

raise_view-other :
    (v q : ℕ) (s : Scene) → s.parent v ≢ q → (raise_view v s).children q ≡ s.children q
unfolding raise_view
raise_view-other v q s h = ground arith

raise_view-parent : (v : ℕ) (s : Scene) → (raise_view v s).parent ≡ s.parent
unfolding raise_view
raise_view-parent v s = ground arith

-- No view of a list has an item as its parent.
abbrev pub Elsewhere : (ℕ → ℕ) → ℕ → List ℕ → Type 0
Elsewhere parent q [] = Unit
Elsewhere parent q (v ∷ vs) = (parent v ≢ q) × Elsewhere parent q vs

-- The views of a window: children of different parents.
abbrev pub AreViews : (ℕ → ℕ) → (ℕ → List ℕ) → List ℕ → Type 0
AreViews parent children [] = Unit
AreViews parent children (v ∷ vs) =
    (contains (children (parent v)) v ≡ true)
    × Elsewhere parent (parent v) vs
    × AreViews parent children vs

-- Every view of a list is the top child of its parent.
abbrev pub OnTop : (ℕ → ℕ) → (ℕ → List ℕ) → List ℕ → Type 0
OnTop parent children [] = Unit
OnTop parent children (v ∷ vs) = (last? (children (parent v)) ≡ some v) × OnTop parent children vs

raise-parent : (vs : List ℕ) (s : Scene) → (raise vs s).parent ≡ s.parent
unfolding raise
raise-parent [] s = refl
raise-parent (v ∷ vs) s = raise-parent vs (raise_view v s) ∙ raise_view-parent v s

-- Raising leaves the children of an item that is the parent of no raised view.
raise-other :
    (vs : List ℕ) (q : ℕ) (s : Scene)
    → Elsewhere s.parent q vs
    → (raise vs s).children q ≡ s.children q
unfolding raise
raise-other [] q s h = refl
raise-other (v ∷ vs) q s h =
    raise-other vs q (raise_view v s)
      (subst (λ parent. Elsewhere parent q vs) (sym (raise_view-parent v s)) h.1)
    ∙ raise_view-other v q s h.0

AreViews-raise_view :
    (v : ℕ) (vs : List ℕ) (s : Scene)
    → Elsewhere s.parent (s.parent v) vs
    → AreViews s.parent s.children vs
    → AreViews s.parent (raise_view v s).children vs
AreViews-raise_view v [] s e h = tt
AreViews-raise_view v (w ∷ vs) s e h = (
  rw (raise_view-other v (s.parent w) s (λ p. e.0 (sym p))) h.0,
  h.1,
  AreViews-raise_view v vs s e.1 h.2,
)

raise-OnTop_from :
    (vs : List ℕ) (s : Scene)
    → AreViews s.parent s.children vs
    → OnTop s.parent (raise vs s).children vs
unfolding raise
raise-OnTop_from [] s h = tt
raise-OnTop_from (v ∷ vs) s h =
    let same = raise_view-parent v s in
    (
      rw
          (raise-other vs (s.parent v) (raise_view v s)
            (subst (λ parent. Elsewhere parent (s.parent v) vs) (sym same) h.1))
          (raise_view-top v s h.0),
      subst (λ parent. OnTop parent (raise vs (raise_view v s)).children vs) same
          (raise-OnTop_from vs (raise_view v s) (
            subst (λ parent. AreViews parent (raise_view v s).children vs) (sym same)
              (AreViews-raise_view v vs s h.1 h.2))),
    )

-- After `raise` each view of the window is the top child of its parent, where the views are
-- children of different parents; the parents stay.
pub raise-OnTop :
    (vs : List ℕ) (s : Scene)
    → AreViews s.parent s.children vs
    → OnTop s.parent (raise vs s).children vs × ((raise vs s).parent ≡ s.parent)
raise-OnTop vs s h = (raise-OnTop_from vs s h, raise-parent vs s)
