-- ===== src/Base/Lists.antt =====
-- Lists under Boolean tests and native numbers.
use Prim.Native.Nat.{ℕ, suc, ◌+◌}
use mathlib.Core.Path.{◌≡◌}
use mathlib.Core.Bool.{Bool, false, ◌||◌}
use mathlib.Core.List.{List, [], ◌∷◌, ◌++◌}
use native.Mathlib.Omega.{arith}
use hacpp.Base.Conditions.{if◌then◌else◌}

module _ {ℓ} {A : Type ℓ} where
  abbrev pub length : List A → ℕ
  length [] = 0
  length (x ∷ xs) = suc (length xs)

  -- `std::ranges::any_of`.
  abbrev pub any_of : (A → Bool) → List A → Bool
  any_of p [] = false
  any_of p (x ∷ xs) = p x || any_of p xs

  -- `std::erase_if`.
  abbrev pub erase_if : (A → Bool) → List A → List A
  erase_if p [] = []
  erase_if p (x ∷ xs) = let rest = erase_if p xs in if p x then rest else x ∷ rest

  abbrev pub All {κ} : (A → Type κ) → List A → Type κ
  All P [] = Unit
  All P (x ∷ xs) = P x × All P xs

  pub length-append : (xs ys : List A) → length (xs ++ ys) ≡ length xs + length ys
  length-append [] ys = omega arith
  length-append (x ∷ xs) ys = omega (arith, length-append xs ys)

module _ {ℓ κ} {A : Type ℓ} (P : A → Type κ) where
  -- Replacing one element among others.
  pub All_at : (xs ys : List A) (x : A) → All P (xs ++ x ∷ ys) → P x
  All_at [] ys x h = h.0
  All_at (z ∷ xs) ys x h = All_at xs ys x h.1

  pub All-replace : (xs ys : List A) (x y : A) → All P (xs ++ x ∷ ys) → P y → All P (xs ++ y ∷ ys)
  All-replace [] ys x y h p = (p, h.1)
  All-replace (z ∷ xs) ys x y h p = (h.0, All-replace xs ys x y h.1 p)
