-- ===== src/Double.antt =====
-- What the code does with a `double`. The checker has no floating point: the type and its operations
-- are a parameter, and laws that not every double obeys are named where a theorem needs them.
pub mod Exact
pub mod Whole
use vdeplug_wirefilter.Base.{
  ℕ, Bool, ◌&&◌, ◌||◌, leb, ◌==◌, ◌≡◌, List, ◌∷◌, ◌++◌, Only, Meets, Option, some,
}

-- `truncate` is the conversion to an unsigned integer type of a value that the type can hold, and
-- `of_ℕ` that from an integer type.
pub record Double {ℓ} (D : Type ℓ) : Type ℓ where
  pub of_ℕ : ℕ → D
  pub add : D → D → D
  pub sub : D → D → D
  pub mul : D → D → D
  pub div : D → D → D
  pub lt : D → D → Bool
  pub le : D → D → Bool
  pub eq : D → D → Bool
  pub sqrt : D → D
  pub log : D → D
  pub truncate : D → ℕ

-- What the code does with the text of a `double`: `%lf` of `sscanf`, which gives the number and the rest of
-- the string if a number comes first, and `%g` and `%lg` of `printf`.
pub record DoubleText (D : Type 0) : Type 0 where
  pub scan : List ℕ → Option (D × List ℕ)
  pub show : D → List ℕ

-- A character that may follow a number in the code's strings.
abbrev pub ends_number : ℕ → Bool
ends_number c =
    c == b' '
    || c == b'+'
    || c == b'k'
    || c == b'K'
    || c == b'm'
    || c == b'M'
    || c == b'g'
    || c == b'G'

-- A character of a number that is written without an exponent.
abbrev pub is_figure : ℕ → Bool
is_figure c = leb b'0' c && leb c b'9' || c == b'.' || c == b'-'

-- `s` is a number without an exponent, which `scan` reads as `v` if the string ends there or goes on with a
-- character of the above.
pub record IsNumber {D : Type 0} ⦃text : DoubleText D⦄ (s : List ℕ) (v : D) : Type 0 where
  pub first : ℕ
  pub others : List ℕ
  pub cons : s ≡ first ∷ others
  pub figures : Only is_figure s
  pub reads : (t : List ℕ) → Meets ends_number t → text.scan (s ++ t) ≡ some (v, t)
