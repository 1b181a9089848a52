-- ===== src/Markov/Sum.antt =====
-- Sums of doubles over a range of indices, under the laws of exact arithmetic.
use native.Mathlib.Nat.{mod-eq_of_lt, add_comm as add_comm'}
use vdeplug_wirefilter.Base.{
  ℕ, zero, suc, ◌+◌, ◌-◌, ◌%◌, ◌≤◌, ◌<◌, ◌≡◌, refl, sym, ap, ap₂, ◌∙◌, arith,
}
use vdeplug_wirefilter.Double.{Double}
use vdeplug_wirefilter.Double.Exact.{IsExact}

pub mod_wrap : (a n : ℕ) → n ≤ a → a < n + n → a % n ≡ a - n
mod_wrap a n h k = grind arith

module _ {D : Type 0} ⦃double : Double D⦄ where
  open double use {of_ℕ, add, sub}

  -- f i + f (i + 1) + ..., of n terms.
  unfoldable pub sum_from : (ℕ → D) → ℕ → ℕ → D
  sum_from f i zero = of_ℕ 0
  sum_from f i (suc n) = add (f i) (sum_from f (i + 1) n)

  pub sum_from-suc : (f : ℕ → D) (i n : ℕ) → sum_from f i (suc n) ≡ add (f i) (sum_from f (i + 1) n)
  unfolding sum_from
  sum_from-suc f i n = refl

  pub sum_from-congr :
      (f g : ℕ → D) (i n : ℕ)
      → ((k : ℕ) → i ≤ k → k < i + n → f k ≡ g k)
      → sum_from f i n ≡ sum_from g i n
  unfolding sum_from
  sum_from-congr f g i zero h = refl
  sum_from-congr f g i (suc n) h =
      ap₂ add (h i (omega arith) (omega arith))
        (sum_from-congr f g (i + 1) n (λ k p q. h k (omega arith) (omega arith)))

  pub sum_from-shift :
      (f : ℕ → D) (c i j n : ℕ) → i + c ≡ j → sum_from (λ k. f (k + c)) i n ≡ sum_from f j n
  unfolding sum_from
  sum_from-shift f c i j zero e = refl
  sum_from-shift f c i j (suc n) e =
      ap₂ add (ap f e) (sum_from-shift f c (i + 1) (j + 1) n (omega arith))

  module _ (exact : IsExact D) where
    open exact use {add_comm, add_assoc, zero_add, sub_add}

    pub sum_from-split :
        (f : ℕ → D) (i a b c n : ℕ)
        → a + b ≡ n
        → i + a ≡ c
        → sum_from f i n ≡ add (sum_from f i a) (sum_from f c b)
    sum_from-split f i zero b c n e e' =
        let same : b ≡ n = omega arith in
        let start : i ≡ c = omega arith in
        rw (← same, ← start) (sym (unfold sum_from in zero_add (sum_from f i b)))
    sum_from-split f i (suc a) b c n e e' =
        let more : n ≡ suc (n - 1) = omega arith in
        rw (more, sum_from-suc f i (n - 1), sum_from-suc f i a)
          (ap (add (f i)) (sum_from-split f (i + 1) a b c (n - 1) (omega arith) (omega arith))
            ∙ sym (add_assoc (f i) (sum_from f (i + 1) a) (sum_from f c b)))

    pub add_zero : (a : D) → add a (of_ℕ 0) ≡ a
    add_zero a = add_comm a (of_ℕ 0) ∙ zero_add a

    pub sub-add_self : (w s : D) → sub (add w s) w ≡ s
    sub-add_self w s =
        let x = sub (add w s) w in
        let neg = sub (of_ℕ 0) w in
        let none_left : add w neg ≡ of_ℕ 0 = add_comm w neg ∙ sub_add (of_ℕ 0) w in
        sym (add_zero x)
        ∙ ap (add x) (sym none_left)
        ∙ sym (add_assoc x w neg)
        ∙ ap (λ y. add y neg) (sub_add (add w s) w ∙ add_comm w s)
        ∙ add_assoc s w neg
        ∙ ap (add s) none_left
        ∙ add_zero s

    -- What is taken off one term is given to the other.
    pub add-sub-add : (a b e : D) → add (sub a e) (add b e) ≡ add a b
    add-sub-add a b e =
        ap (add (sub a e)) (add_comm b e)
        ∙ sym (add_assoc (sub a e) e b)
        ∙ ap (λ x. add x b) (sub_add a e)

    pub sum_from-last :
        (f : ℕ → D) (i n j : ℕ) → i + n ≡ j → sum_from f i (suc n) ≡ add (sum_from f i n) (f j)
    sum_from-last f i n j e =
        sum_from-split f i n 1 j (suc n) (omega arith) e
        ∙ ap (add (sum_from f i n)) (unfold sum_from in add_zero (f j))

    -- A sum over all indices may start anywhere.
    pub sum_from-rotate :
        (f : ℕ → D) (n s : ℕ) → s < n → sum_from (λ k. f ((s + k) % n)) 0 n ≡ sum_from f 0 n
    sum_from-rotate f n s h =
        let g = λ (k : ℕ). f ((s + k) % n) in
        let high : sum_from g 0 (n - s) ≡ sum_from f s (n - s) =
          sum_from-congr g (λ k. f (k + s)) 0 (n - s)
            (λ k p q. ap f (mod-eq_of_lt (omega arith) ∙ add_comm' s k))
          ∙ sum_from-shift f s 0 s (n - s) (omega arith) in
        let low : sum_from g (n - s) s ≡ sum_from f 0 s =
          sym (sum_from-shift g (n - s) 0 (n - s) s (omega arith))
          ∙ sum_from-congr (λ k. g (k + (n - s))) f 0 s
              (λ k p q.
                ap f (mod_wrap (s + (k + (n - s))) n (omega arith) (omega arith) ∙ omega arith)) in
        sum_from-split g 0 (n - s) s (n - s) n (omega arith) (omega arith)
        ∙ ap₂ add high low
        ∙ add_comm (sum_from f s (n - s)) (sum_from f 0 s)
        ∙ sym (sum_from-split f 0 s (n - s) s n (omega arith) (omega arith))
