-- ===== src/Base/Outcome.antt =====
-- How a call ends: with a value, with `exit`, with a fault of the C program, with a wait that has no end, or
-- with the model's fuel running out.
use Prim.Native.Nat.{ℕ}
use mathlib.Core.Path.{◌≡◌, refl}
use mathlib.Core.Bool.{Bool, true, false}
use vdeplug_wirefilter.Base.Tests.{if◌then◌else◌}

pub data Fault : Type 0 where
  null_pointer out_of_bounds : Fault

-- `exited` has the status that the code passes on.
pub data Run {ℓ} (A : Type ℓ) : Type ℓ where
  out_of_fuel : Run A
  fault : Fault → Run A
  exited : ℕ → Run A
  blocked : Run A
  ok : A → Run A

-- What comes next runs only on a value.
abbrev pub ◌>>=◌ {ℓ ℓ'} : {A : Type ℓ} → {B : Type ℓ'} → Run A → (A → Run B) → Run B
out_of_fuel >>= next = out_of_fuel
fault x >>= next = fault x
exited status >>= next = exited status
blocked >>= next = blocked
ok value >>= next = next value

infixl 5 ◌>>=◌
-- The run returns, with a value that satisfies `P`.
pub data Returns {ℓ κ} {A : Type ℓ} (P : A → Type κ) : Run A → Type (ℓ ⊔ κ) where
  returns : {a : A} → P a → Returns P (ok a)

pub Returns-of {ℓ κ} : {A : Type ℓ} {P : A → Type κ} {a : A} → Returns P (ok a) → P a
Returns-of (returns p) = p

pub Returns-value {ℓ κ} :
    {A : Type ℓ} {P : A → Type κ} {r : Run A} → Returns P r → (a : A) × (r ≡ ok a) × P a
Returns-value (returns p) = (_, refl, p)

pub Returns-split {ℓ κ} :
    {A : Type ℓ} {P : A → Type κ} {yes_run no_run : Run A} (test : Bool)
    → (test ≡ true → Returns P yes_run)
    → (test ≡ false → Returns P no_run)
    → Returns P (if test then yes_run else no_run)
Returns-split false yes_case no_case = no_case refl
Returns-split true yes_case no_case = yes_case refl

-- What comes next needs only the property of the value.
pub Returns-weaken {ℓ κ κ'} :
    {A : Type ℓ} {P : A → Type κ} {Q : A → Type κ'} {r : Run A}
    → Returns P r
    → ((value : A) → P value → Q value)
    → Returns Q r
Returns-weaken (returns good) weaker = returns (weaker _ good)

pub Returns-bind {ℓ ℓ' κ κ'} :
    {A : Type ℓ} {B : Type ℓ'} {P : A → Type κ} {Q : B → Type κ'} {first : Run A}
    {then_run : A → Run B}
    → Returns P first
    → ((value : A) → P value → Returns Q (then_run value))
    → Returns Q (first >>= then_run)
Returns-bind (returns good) rest = rest _ good
