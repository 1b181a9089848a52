-- ===== src/Markov/Copy.antt =====
-- `copyAdjacency`: the map of a chain that is resized.
use native.Mathlib.Decide.{dec_lt}
use native.Mathlib.Nat.{mod-lt}
use vdeplug_wirefilter.Base.{
  ℕ, zero, suc, ◌+◌, ◌%◌, ◌≤◌, ◌<◌, ◌≡◌, ◌≢◌, refl, sym, ap, subst, ◌∙◌, arith, ◌&&◌, ltb,
  if◌then◌else◌, write, Bool-cases, inl, inr,
}
use vdeplug_wirefilter.Double.{Double}
use vdeplug_wirefilter.Double.Exact.{IsExact}
use vdeplug_wirefilter.Markov.{cell, copy_row_loop}
use vdeplug_wirefilter.Markov.Row.{
  after-ne, after-ne_after, spoke, row_sum, Balanced, Balanced-step, Balanced-skip,
  Balanced-row_sum,
}

module _ {D : Type 0} ⦃double : Double D⦄ (old_n n : ℕ) (old : ℕ → D) where
  open double use {of_ℕ, add, sub}

  -- The weight that the edge from i to another node j has in the new map.
  abbrev pub kept : ℕ → ℕ → D
  kept i j = if ltb i old_n && ltb j old_n then old (cell old_n i j) else of_ℕ 0

  -- One round of the inner loop: the map behind it.
  abbrev copy_step : ℕ → ℕ → (ℕ → D) → ℕ → D
  copy_step i j map =
      let real_j = (i + j) % n in
      let copied = write map (cell n i real_j) (old (cell old_n i real_j)) in
      let next = write copied (cell n i i) (sub (copied (cell n i i)) (copied (cell n i real_j))) in
      if ltb i old_n && ltb real_j old_n then next else map

  copy_row_loop-suc :
      (i left j : ℕ) (map : ℕ → D)
      → copy_row_loop old_n n i (suc left) j old map
        ≡ copy_row_loop old_n n i left (j + 1) old (copy_step i j map)
  unfolding copy_row_loop
  copy_row_loop-suc i left j map = refl

  copy_row_loop-zero : (i j : ℕ) (map : ℕ → D) → copy_row_loop old_n n i zero j old map ≡ map
  unfolding copy_row_loop
  copy_row_loop-zero i j map = refl

  module _ (i : ℕ) (h : i < n) where
    -- A round writes the j-th edge and the loopback edge, and nothing else.
    copy_step-elsewhere :
        (j : ℕ) (map : ℕ → D) (x : ℕ)
        → x ≢ cell n i i
        → x ≢ cell n i ((i + j) % n)
        → copy_step i j map x ≡ map x
    copy_step-elsewhere j map x p q = ground arith

    copy_step-spoke :
        (j : ℕ) (map : ℕ → D)
        → 0 < j
        → j < n
        → spoke n i map j ≡ of_ℕ 0
        → spoke n i (copy_step i j map) j ≡ kept i ((i + j) % n)
    copy_step-spoke j map p q e = ground (arith, after-ne n i j h p q)

    pub copy_row_loop-elsewhere :
        (left j : ℕ) (map : ℕ → D) (x : ℕ)
        → ((k : ℕ) → k < n → x ≢ cell n i k)
        → copy_row_loop old_n n i left j old map x ≡ map x
    copy_row_loop-elsewhere zero j map x ne = ap (λ (m : ℕ → D). m x) (copy_row_loop-zero i j map)
    copy_row_loop-elsewhere (suc left) j map x ne =
        ap (λ (m : ℕ → D). m x) (copy_row_loop-suc i left j map)
        ∙ copy_row_loop-elsewhere left (j + 1) (copy_step i j map) x ne
        ∙ copy_step-elsewhere j map x (ne i h) (ne ((i + j) % n) (mod-lt (i + j) (omega arith)))

    copy_step-other :
        (j k : ℕ) (map : ℕ → D)
        → 0 < k
        → k < n
        → j < n
        → k ≢ j
        → spoke n i (copy_step i j map) k ≡ spoke n i map k
    copy_step-other j k map p q r ne =
        copy_step-elsewhere j map (cell n i ((i + k) % n)) (omega (arith, after-ne n i k h p q))
          (omega (arith, after-ne_after n i k j h q r ne))

    -- Edges behind the loop stay.
    copy_row_loop-behind :
        (left j k : ℕ) (map : ℕ → D)
        → j + left ≡ n
        → 0 < k
        → k < j
        → spoke n i (copy_row_loop old_n n i left j old map) k ≡ spoke n i map k
    copy_row_loop-behind zero j k map e p q =
        ap (λ (m : ℕ → D). spoke n i m k) (copy_row_loop-zero i j map)
    copy_row_loop-behind (suc left) j k map e p q =
        ap (λ (m : ℕ → D). spoke n i m k) (copy_row_loop-suc i left j map)
        ∙ copy_row_loop-behind left (j + 1) k (copy_step i j map) (omega arith) p (omega arith)
        ∙ copy_step-other j k map p (omega arith) (omega arith) (omega arith)

    abbrev pub NoneAhead : ℕ → (ℕ → D) → Type 0
    NoneAhead j map = (k : ℕ) → j ≤ k → k < n → spoke n i map k ≡ of_ℕ 0

    NoneAhead-step :
        (j : ℕ) (map : ℕ → D)
        → 0 < j
        → j < n
        → NoneAhead j map
        → NoneAhead (j + 1) (copy_step i j map)
    NoneAhead-step j map p q z k a b =
        copy_step-other j k map (omega arith) b q (omega arith) ∙ z k (omega arith) b

    -- Each edge ahead of the loop gets its old weight, or none.
    pub copy_row_loop-ahead :
        (left j k : ℕ) (map : ℕ → D)
        → j + left ≡ n
        → 0 < j
        → j ≤ k
        → k < n
        → NoneAhead j map
        → spoke n i (copy_row_loop old_n n i left j old map) k ≡ kept i ((i + k) % n)
    copy_row_loop-ahead zero j k map e p q r z = absurd (omega arith)
    copy_row_loop-ahead (suc left) j k map e p q r z = elim (dec_lt j k) [
      | yes l ↦
          ap (λ (m : ℕ → D). spoke n i m k) (copy_row_loop-suc i left j map)
          ∙ copy_row_loop-ahead left (j + 1) k (copy_step i j map) (omega arith) (omega arith)
              (omega arith) r (NoneAhead-step j map p (omega arith) z)
      | no l ↦
          let same : k ≡ j = omega arith in
          subst
            (λ m. spoke n i (copy_row_loop old_n n i (suc left) j old map) m ≡ kept i ((i + m) % n))
            (sym same)
            (ap (λ (m : ℕ → D). spoke n i m j) (copy_row_loop-suc i left j map)
              ∙ copy_row_loop-behind left (j + 1) j (copy_step i j map) (omega arith) p
                  (omega arith)
              ∙ copy_step-spoke j map p (omega arith) (z j (omega arith) (omega arith)))
    ]

    module _ (exact : IsExact D) where
      copy_step-Balanced :
          (j : ℕ) (map : ℕ → D)
          → 0 < j
          → j < n
          → spoke n i map j ≡ of_ℕ 0
          → Balanced exact n i j map
          → Balanced exact n i (j + 1) (copy_step i j map)
      copy_step-Balanced j map p q z b =
          elim (Bool-cases (ltb i old_n && ltb ((i + j) % n) old_n)) [
            | inl e ↦
                Balanced-step exact n i j map (copy_step i j map) p b
                  (ground (arith, after-ne n i j h p q))
                  (λ k a c. copy_step-other j k map a (omega arith) q (omega arith))
            | inr e ↦
                let idle : copy_step i j map ≡ map = rw e refl in
                subst (Balanced exact n i (j + 1)) (sym idle) (Balanced-skip exact n i j map p b z)
          ]

      pub copy_row_loop-sum :
          (left j : ℕ) (map : ℕ → D)
          → j + left ≡ n
          → 0 < j
          → NoneAhead j map
          → Balanced exact n i j map
          → row_sum n i (copy_row_loop old_n n i left j old map) ≡ of_ℕ 100
      copy_row_loop-sum zero j map e p z b =
          let all : j ≡ n = omega arith in
          ap (row_sum n i) (copy_row_loop-zero i j map)
          ∙ Balanced-row_sum exact n i map h (subst (λ m. Balanced exact n i m map) all b)
      copy_row_loop-sum (suc left) j map e p z b =
          ap (row_sum n i) (copy_row_loop-suc i left j map)
          ∙ copy_row_loop-sum left (j + 1) (copy_step i j map) (omega arith) (omega arith)
              (NoneAhead-step j map p (omega arith) z)
              (copy_step-Balanced j map p (omega arith) (z j (omega arith) (omega arith)) b)
