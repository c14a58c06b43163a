-- ===== src/Server/Screencasts/Requests.antt =====
-- The requests for frames, with the screencasts that they are of.
use mathlib.Core.Path.{subst}
use greenisland.Common.{
  ℕ, ◌≡◌, ◌≢◌, ◌⊎◌, inl, inr, Bool, true, false, Option, none, some, List, [], ◌∷◌, arith, ◌==◌,
  ==_iff, Bool-cases, All,
}
use greenisland.Server.Screencasts.{
  Screencast, Screencaster, write, remove_pair, remove_cast, values,
}

abbrev pub is_live : Option Screencast → Bool
is_live none = false
is_live (some k) = k.valid

abbrev pub AreLive : (ℕ → Option Screencast) → List (ℕ × ℕ) → Type 0
AreLive casts ps = All (λ p. is_live (casts p.1) ≡ true) ps

-- Every request is one of a screencast that exists and that its client has not destroyed.
abbrev pub HasLiveRequests : Screencaster → Type 0
HasLiveRequests s = AreLive s.casts s.requests

pub All-imp {ℓ} :
    {A : Type ℓ} (P Q : A → Type 0) (l : List A) → ((a : A) → P a → Q a) → All P l → All Q l
All-imp P Q [] f h = tt
All-imp P Q (x ∷ xs) f h = (f x h.0, All-imp P Q xs f h.1)

module _ (P : ℕ × ℕ → Type 0) (c : ℕ) where
  pub All-remove_pair : (w : ℕ) (ps : List (ℕ × ℕ)) → All P ps → All P (remove_pair w c ps)
  All-remove_pair w [] h = tt
  All-remove_pair w (p ∷ ps) h = ground (arith, h.0, All-remove_pair w ps h.1)

  -- What is left is not of the screencast.
  pub All-remove_cast :
      (ps : List (ℕ × ℕ)) → All P ps → All (λ p. P p × (p.1 ≢ c)) (remove_cast c ps)
  All-remove_cast [] h = tt
  All-remove_cast (p ∷ ps) h =
      let rest = All-remove_cast ps h.1 in
      elim (Bool-cases (p.1 == c)) [
        | inl same ↦ ground (arith, same, rest)
        | inr other ↦ ground (arith, other, h.0, rest)
      ]

pub All-values :
    (P : ℕ → Type 0) (w : ℕ) (ps : List (ℕ × ℕ)) → All (λ p. P p.1) ps → All P (values w ps)
All-values P w [] h = tt
All-values P w (p ∷ ps) h = ground (arith, h.0, All-values P w ps h.1)

-- A screencast is written again, alive if it was.
pub AreLive-write :
    (casts : ℕ → Option Screencast) (c : ℕ) (k : Screencast) (ps : List (ℕ × ℕ))
    → (is_live (casts c) ≡ true → k.valid ≡ true)
    → AreLive casts ps
    → AreLive (write c (some k) casts) ps
AreLive-write casts c k ps alive h =
    All-imp (λ p. is_live (casts p.1) ≡ true) (λ p. is_live (write c (some k) casts p.1) ≡ true) ps
      (λ p live. one p live (Bool-cases (p.1 == c))) h
  where
    one :
        (p : ℕ × ℕ)
        → is_live (casts p.1) ≡ true
        → ((p.1 == c) ≡ true) ⊎ ((p.1 == c) ≡ false)
        → is_live (write c (some k) casts p.1) ≡ true
    one p live (inl same) =
        let here = subst (λ x. is_live (casts x) ≡ true) ((==_iff p.1 c).0 same) live in
        ground (arith, same, alive here)
    one p live (inr other) = ground (arith, other, live)
