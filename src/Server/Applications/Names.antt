-- ===== src/Server/Applications/Names.antt =====
-- Lists of application identifiers without repetition.
use greenisland.Common.{
  String, ◌≡◌, refl, false, not, ◌&&◌, ◌||◌, List, [], ◌∷◌, ◌++◌, arith, str_eq, str_eq_iff,
}
use greenisland.Server.Applications.{contains_id, remove_id}

-- No text stands in the list twice.
abbrev pub Distinct : List String → Type 0
Distinct [] = Unit
Distinct (x ∷ xs) = (contains_id x xs ≡ false) × Distinct xs

pub contains_id-append :
    (a b : String) (xs : List String)
    → contains_id a (xs ++ b ∷ []) ≡ (contains_id a xs || str_eq b a)
unfolding contains_id
contains_id-append a b [] = ground arith
contains_id-append a b (x ∷ xs) = ground (arith, contains_id-append a b xs)

pub contains_id-remove :
    (a b : String) (xs : List String)
    → Distinct xs
    → contains_id a (remove_id b xs) ≡ (contains_id a xs && not (str_eq a b))
unfolding contains_id remove_id
contains_id-remove a b [] d = refl
contains_id-remove a b (x ∷ xs) d =
    ground (arith, contains_id-remove a b xs d.1, str_eq_iff x a, str_eq_iff x b, str_eq_iff a b)

pub remove_id-Distinct : (b : String) (xs : List String) → Distinct xs → Distinct (remove_id b xs)
unfolding remove_id
remove_id-Distinct b [] d = tt
remove_id-Distinct b (x ∷ xs) d =
    ground (arith, remove_id-Distinct b xs d.1, contains_id-remove x b xs d.1)

pub append-Distinct :
    (b : String) (xs : List String)
    → Distinct xs
    → contains_id b xs ≡ false
    → Distinct (xs ++ b ∷ [])
unfolding contains_id
append-Distinct b [] d h = (refl, tt)
append-Distinct b (x ∷ xs) d h = (
  ground (arith, contains_id-append x b xs, str_eq_iff x b, str_eq_iff b x),
  append-Distinct b xs d.1 (ground arith),
)
