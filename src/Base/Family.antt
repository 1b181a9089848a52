-- ===== src/Base/Family.antt =====
-- C arrays as families `ℕ → A`: a write at one index, and the sum of a measure over the entries
-- 1, ..., n, which is how the heap of the packet queue is numbered.
use Prim.Native.Nat.{ℕ, zero, suc, ◌+◌, ◌≤◌, ◌<◌}
use mathlib.Core.Path.{◌≡◌, refl}
use mathlib.Core.Logic.{◌≢◌}
use mathlib.Core.Bool.{true, false}
use native.Mathlib.Omega.{arith}
use native.Mathlib.Decide.{dec_lt}
use vdeplug_wirefilter.Base.Tests.{◌==◌, if◌then◌else◌}

module _ {ℓ} {A : Type ℓ} where
  abbrev pub write : (ℕ → A) → ℕ → A → ℕ → A
  write c i a j = if i == j then a else c j

  pub write_self : (c : ℕ → A) (i : ℕ) (a : A) → write c i a i ≡ a
  write_self c i a = let here : (i == i) ≡ true = ground arith in rw here refl

  pub write-other : (c : ℕ → A) (i : ℕ) (a : A) (j : ℕ) → i ≢ j → write c i a j ≡ c j
  write-other c i a j h = let elsewhere : (i == j) ≡ false = ground arith in rw elsewhere refl

  unfoldable pub sum_to : (A → ℕ) → ℕ → (ℕ → A) → ℕ
  sum_to w zero c = 0
  sum_to w (suc n) c = sum_to w n c + w (c (suc n))

  pub sum_to-suc :
      (w : A → ℕ) (n : ℕ) (c : ℕ → A) → sum_to w (suc n) c ≡ sum_to w n c + w (c (suc n))
  unfolding sum_to
  sum_to-suc w n c = refl

  pub sum_to-zero : (w : A → ℕ) (c : ℕ → A) → sum_to w 0 c ≡ 0
  unfolding sum_to
  sum_to-zero w c = refl

  -- Entry 0 does not count.
  pub sum_to-write_bottom :
      (w : A → ℕ) (n : ℕ) (c : ℕ → A) (a : A) → sum_to w n (write c 0 a) ≡ sum_to w n c
  unfolding sum_to
  sum_to-write_bottom w zero c a = refl
  sum_to-write_bottom w (suc n) c a = ground (arith, sum_to-write_bottom w n c a)

  -- A write above the range does not count.
  pub sum_to-write_above :
      (w : A → ℕ) (n : ℕ) (c : ℕ → A) (i : ℕ) (a : A)
      → n < i
      → sum_to w n (write c i a) ≡ sum_to w n c
  unfolding sum_to
  sum_to-write_above w zero c i a h = refl
  sum_to-write_above w (suc n) c i a h = ground (arith, sum_to-write_above w n c i a)

  -- A write inside the range trades the old entry for the new one.
  pub sum_to-write :
      (w : A → ℕ) (n : ℕ) (c : ℕ → A) (i : ℕ) (a : A)
      → 0 < i
      → i ≤ n
      → sum_to w n (write c i a) + w (c i) ≡ sum_to w n c + w a
  unfolding sum_to
  sum_to-write w zero c i a p h = absurd (omega arith)
  sum_to-write w (suc n) c i a p h =
      ground (arith, sum_to-write w n c i a, sum_to-write_above w n c i a)

  pub le-sum_to : (w : A → ℕ) (n : ℕ) (c : ℕ → A) (i : ℕ) → 0 < i → i ≤ n → w (c i) ≤ sum_to w n c
  unfolding sum_to
  le-sum_to w zero c i p h = absurd (omega arith)
  le-sum_to w (suc n) c i p h = ground (arith, le-sum_to w n c i)

  -- A sum that is not 0 has an entry that is not 0.
  pub sum_to-found :
      (w : A → ℕ) (n : ℕ) (c : ℕ → A)
      → 0 < sum_to w n c
      → (i : ℕ) × (0 < i) × (i ≤ n) × (0 < w (c i))
  unfolding sum_to
  sum_to-found w zero c h = absurd (omega arith)
  sum_to-found w (suc n) c h = elim (dec_lt 0 (w (c (suc n)))) [
    | yes p ↦ (suc n, omega arith, omega arith, p)
    | no p ↦
        let (i, pos, le, found) = sum_to-found w n c (omega arith) in (i, pos, omega arith, found)
  ]

  pub sum_to-ones : (n : ℕ) (c : ℕ → A) → sum_to (λ _. 1) n c ≡ n
  unfolding sum_to
  sum_to-ones zero c = refl
  sum_to-ones (suc n) c = omega (arith, sum_to-ones n c)
