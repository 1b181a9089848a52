-- ===== src/Double/Exact.antt =====
-- Laws of exact arithmetic, which doubles obey as long as no result is rounded (sums of integers below
-- 2^53, say), and the integers as numbers that obey them.
use vdeplug_wirefilter.Base.{◌≡◌, true, false, refl, arith}
use vdeplug_wirefilter.Base.Int.{
  ℤ, pos, pos_part, ◌+ℤ◌, ◌-ℤ◌, ◌*ℤ◌, quot, ltb_ℤ, leb_ℤ, eq_ℤ, +ℤ_comm, +ℤ_assoc, sub-add_cancel,
  zero-+ℤ, -ℤ_parts,
}
use vdeplug_wirefilter.Double.{Double}

pub record IsExact {ℓ} (D : Type ℓ) ⦃double : Double D⦄ : Type ℓ where
  pub add_comm : (a b : D) → double.add a b ≡ double.add b a
  pub add_assoc : (a b c : D) → double.add (double.add a b) c ≡ double.add a (double.add b c)
  pub zero_add : (a : D) → double.add (double.of_ℕ 0) a ≡ a
  pub sub_add : (a b : D) → double.add (double.sub a b) b ≡ a

-- Subtraction keeps the order.
pub record IsMonotone {ℓ} (D : Type ℓ) ⦃double : Double D⦄ : Type ℓ where
  pub sub_mono :
      (a b c : D) → double.le a b ≡ true → double.le (double.sub a c) (double.sub b c) ≡ true

-- `sqrt` and `log` are not used where the integers stand for doubles.
instance abbrev pub ℤ_double : Double ℤ
ℤ_double = record {
  of_ℕ = pos;
  add = ◌+ℤ◌;
  sub = ◌-ℤ◌;
  mul = ◌*ℤ◌;
  div = quot;
  lt = ltb_ℤ;
  le = leb_ℤ;
  eq = eq_ℤ;
  sqrt = λ a. a;
  log = λ a. a;
  truncate = pos_part;
}

pub ℤ-IsExact : IsExact ℤ
ℤ-IsExact = record {
  add_comm = +ℤ_comm;
  add_assoc = +ℤ_assoc;
  zero_add = zero-+ℤ;
  sub_add = sub-add_cancel;
}

pub ℤ-IsMonotone : IsMonotone ℤ
unfolding ◌-ℤ◌
ℤ-IsMonotone = record { sub_mono = λ a b c h. ground (arith, -ℤ_parts a c, -ℤ_parts b c) }

-- Laws of 0 that every double obeys.
pub record HasZero {ℓ} (D : Type ℓ) ⦃double : Double D⦄ : Type ℓ where
  pub add_zero : double.add (double.of_ℕ 0) (double.of_ℕ 0) ≡ double.of_ℕ 0
  pub sub_zero : double.sub (double.of_ℕ 0) (double.of_ℕ 0) ≡ double.of_ℕ 0
  pub lt_zero : double.lt (double.of_ℕ 0) (double.of_ℕ 0) ≡ false
  pub eq_zero : double.eq (double.of_ℕ 0) (double.of_ℕ 0) ≡ true
  pub le_hundred : double.le (double.of_ℕ 100) (double.of_ℕ 0) ≡ false
  pub div_hundred : double.div (double.of_ℕ 0) (double.of_ℕ 100) ≡ double.of_ℕ 0

pub ℤ-HasZero : HasZero ℤ
unfolding ◌+ℤ◌ ◌-ℤ◌ quot
ℤ-HasZero = record {
  add_zero = refl;
  sub_zero = refl;
  lt_zero = refl;
  eq_zero = refl;
  le_hundred = refl;
  div_hundred = refl;
}
