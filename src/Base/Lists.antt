-- ===== src/Base/Lists.antt =====
-- Lists measured and indexed by native numbers, and predicates on all their items.
use Prim.Native.Nat.{ℕ, zero, suc, ◌+◌}
use mathlib.Core.Path.{◌≡◌}
use mathlib.Core.Bool.{Bool, true}
use mathlib.Core.List.{List, [], ◌∷◌, ◌++◌}
use native.Mathlib.Omega.{arith}

module _ {ℓ} {A : Type ℓ} where
  abbrev pub length : List A → ℕ
  length [] = 0
  length (x ∷ xs) = suc (length xs)

  pub length-append : (xs ys : List A) → length (xs ++ ys) ≡ length xs + length ys
  length-append [] ys = omega arith
  length-append (x ∷ xs) ys = omega (arith, length-append xs ys)

  abbrev pub All {κ} : (A → Type κ) → List A → Type κ
  All P [] = Unit
  All P (x ∷ xs) = P x × All P xs

  pub All-concat {κ} :
      (P : A → Type κ) (xs : List A) (y : A) → All P xs → P y → All P (xs ++ y ∷ [])
  All-concat P [] y h p = (p, tt)
  All-concat P (x ∷ xs) y h p = (h.0, All-concat P xs y h.1 p)

  pub All-map {κ κ'} :
      {P : A → Type κ} {Q : A → Type κ'} (xs : List A) → ((x : A) → P x → Q x) → All P xs → All Q xs
  All-map [] k h = tt
  All-map (x ∷ xs) k h = (k x h.0, All-map xs k h.1)

  -- The sum of a measure over a list.
  abbrev pub weight : (A → ℕ) → List A → ℕ
  weight w [] = 0
  weight w (x ∷ xs) = w x + weight w xs

  pub weight-concat :
      (w : A → ℕ) (xs : List A) (y : A) → weight w (xs ++ y ∷ []) ≡ weight w xs + w y
  weight-concat w [] y = omega arith
  weight-concat w (x ∷ xs) y = omega (arith, weight-concat w xs y)

  abbrev pub take : ℕ → List A → List A
  take zero xs = []
  take (suc n) [] = []
  take (suc n) (x ∷ xs) = x ∷ take n xs

-- All characters of the text pass the test.
abbrev pub Only : (ℕ → Bool) → List ℕ → Type 0
Only test s = All (λ c. test c ≡ true) s

-- The text is at its end, or its first character passes the test.
abbrev pub Meets : (ℕ → Bool) → List ℕ → Type 0
Meets test [] = Unit
Meets test (c ∷ s) = test c ≡ true
