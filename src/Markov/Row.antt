-- ===== src/Markov/Row.antt =====
-- The row of a node in the adjacency map: `markovRebalanceNode` makes its weights add up to 100.
use native.Mathlib.Decide.{dec_lt}
use native.Mathlib.Nat.{mod-eq_of_lt}
use vdeplug_wirefilter.Base.{
  ℕ, zero, suc, ◌+◌, ◌-◌, ◌*◌, ◌%◌, ◌<◌, ◌≡◌, ◌≢◌, refl, sym, ap, ap₂, subst, ◌∙◌, arith, write,
}
use vdeplug_wirefilter.Double.{Double}
use vdeplug_wirefilter.Double.Exact.{IsExact}
use vdeplug_wirefilter.Markov.{cell, rebalance_loop, rebalance_node}
use vdeplug_wirefilter.Markov.Sum.{
  sum_from, sum_from-suc, sum_from-congr, sum_from-last, sum_from-rotate, add_zero, add-sub-add,
  mod_wrap,
}

-- The k-th node after i, in a circle of n, is not i.
pub after-ne : (n i k : ℕ) → i < n → 0 < k → k < n → (i + k) % n ≢ i
after-ne n i k h p q = grind arith

pub after-ne_after : (n i j k : ℕ) → i < n → j < n → k < n → j ≢ k → (i + j) % n ≢ (i + k) % n
after-ne_after n i j k h p q r = grind arith

pub cell-lt_row : (n i j i' j' : ℕ) → i < i' → j < n → cell n i j < cell n i' j'
cell-lt_row n i j i' j' h p =
    let above : i' ≡ i + 1 + (i' - i - 1) = omega arith in
    omega (arith, ap (λ (t : ℕ). t * n) above)

pub cell-ne_row : (n i j i' j' : ℕ) → i ≢ i' → j < n → j' < n → cell n i j ≢ cell n i' j'
cell-ne_row n i j i' j' h p q = elim (dec_lt i i') [
  | yes l ↦ omega (arith, cell-lt_row n i j i' j' l p)
  | no l ↦ omega (arith, cell-lt_row n i' j' i j (omega arith) q)
]

-- The node in k steps from i is k' for some k.
pub after-onto :
    (n i j : ℕ) → i < n → j < n → j ≢ i → (k : ℕ) × (0 < k) × (k < n) × ((i + k) % n ≡ j)
after-onto n i j h p q = elim (dec_lt i j) [
  | yes l ↦ (j - i, omega arith, omega arith, mod-eq_of_lt (omega arith) ∙ omega arith)
  | no l ↦ (
    j + n - i,
    omega arith,
    omega arith,
    mod_wrap (i + (j + n - i)) n (omega arith) (omega arith) ∙ omega arith,
  )
]

module _ {D : Type 0} ⦃double : Double D⦄ where
  open double use {of_ℕ, add, sub}

  -- The weight of the edge from i to the k-th node after it.
  abbrev pub spoke : ℕ → ℕ → (ℕ → D) → ℕ → D
  spoke n i map k = map (cell n i ((i + k) % n))

  -- The sum of the weights of all the edges from node i.
  abbrev pub row_sum : ℕ → ℕ → (ℕ → D) → D
  row_sum n i map = sum_from (λ j. map (cell n i j)) 0 n

  module _ (exact : IsExact D) where
    -- The loopback edge and the edges to the next j - 1 nodes add up to 100.
    abbrev pub Balanced : ℕ → ℕ → ℕ → (ℕ → D) → Type 0
    Balanced n i j map = add (map (cell n i i)) (sum_from (spoke n i map) 1 (j - 1)) ≡ of_ℕ 100

    -- Once all nodes are counted, that is the whole row.
    pub Balanced-row_sum :
        (n i : ℕ) (map : ℕ → D) → i < n → Balanced n i n map → row_sum n i map ≡ of_ℕ 100
    Balanced-row_sum n i map h b =
        let more : n ≡ suc (n - 1) = omega arith in
        let here : spoke n i map 0 ≡ map (cell n i i) =
          ap (λ j. map (cell n i j)) (mod-eq_of_lt (omega arith) ∙ omega arith) in
        sym (sum_from-rotate exact (λ j. map (cell n i j)) n i h)
        ∙ ap (sum_from (spoke n i map) 0) more
        ∙ sum_from-suc (spoke n i map) 0 (n - 1)
        ∙ ap₂ add here (ap (λ j. sum_from (spoke n i map) j (n - 1)) (omega arith))
        ∙ b

    pub Balanced-start : (n i : ℕ) (map : ℕ → D) → map (cell n i i) ≡ of_ℕ 100 → Balanced n i 1 map
    unfolding sum_from
    Balanced-start n i map e = add_zero exact (map (cell n i i)) ∙ e

    -- Taking the weight of the j-th edge off the loopback edge brings that edge into the balance.
    pub Balanced-step :
        (n i j : ℕ) (map map' : ℕ → D)
        → 0 < j
        → Balanced n i j map
        → map' (cell n i i) ≡ sub (map (cell n i i)) (spoke n i map' j)
        → ((k : ℕ) → 0 < k → k < j → spoke n i map' k ≡ spoke n i map k)
        → Balanced n i (j + 1) map'
    Balanced-step n i j map map' h b loopback kept =
        let count : j + 1 - 1 ≡ suc (j - 1) = omega arith in
        ap (λ m. add (map' (cell n i i)) (sum_from (spoke n i map') 1 m)) count
        ∙ ap (add (map' (cell n i i)))
            (sum_from-last exact (spoke n i map') 1 (j - 1) j (omega arith))
        ∙ ap₂ (λ a b. add a (add b (spoke n i map' j))) loopback
            (sum_from-congr (spoke n i map') (spoke n i map) 1 (j - 1)
              (λ k p q. kept k (omega arith) (omega arith)))
        ∙ add-sub-add exact (map (cell n i i)) (sum_from (spoke n i map) 1 (j - 1))
            (spoke n i map' j)
        ∙ b

    -- An edge of weight 0 is in the balance at once.
    pub Balanced-skip :
        (n i j : ℕ) (map : ℕ → D)
        → 0 < j
        → Balanced n i j map
        → spoke n i map j ≡ of_ℕ 0
        → Balanced n i (j + 1) map
    Balanced-skip n i j map h b z =
        let count : j + 1 - 1 ≡ suc (j - 1) = omega arith in
        ap (λ m. add (map (cell n i i)) (sum_from (spoke n i map) 1 m)) count
        ∙ ap (add (map (cell n i i))) (
            sum_from-last exact (spoke n i map) 1 (j - 1) j (omega arith)
            ∙ ap (add (sum_from (spoke n i map) 1 (j - 1))) z
            ∙ add_zero exact (sum_from (spoke n i map) 1 (j - 1)))
        ∙ b

    rebalance_loop_balances :
        (n i left j : ℕ) (map : ℕ → D)
        → i < n
        → j + left ≡ n
        → 0 < j
        → Balanced n i j map
        → row_sum n i (rebalance_loop n i left j map) ≡ of_ℕ 100
    unfolding rebalance_loop
    rebalance_loop_balances n i zero j map h e p b =
        let all : j ≡ n = omega arith in
        Balanced-row_sum n i map h (subst (λ m. Balanced n i m map) all b)
    rebalance_loop_balances n i (suc left) j map h e p b =
        let next = write map (cell n i i) (sub (map (cell n i i)) (spoke n i map j)) in
        rebalance_loop_balances n i left (j + 1) next h (omega arith) (omega arith) (
          Balanced-step n i j map next p b (ground (arith, after-ne n i j h p (omega arith)))
            (λ k q r. ground (arith, after-ne n i k h q (omega arith))))

    rebalance_loop_keeps :
        (n i left j : ℕ) (map : ℕ → D) (x : ℕ)
        → x ≢ cell n i i
        → rebalance_loop n i left j map x ≡ map x
    unfolding rebalance_loop
    rebalance_loop_keeps n i zero j map x h = refl
    rebalance_loop_keeps n i (suc left) j map x h =
        let next = write map (cell n i i) (sub (map (cell n i i)) (spoke n i map j)) in
        rebalance_loop_keeps n i left (j + 1) next x h ∙ ground arith

    -- After `markovRebalanceNode` the weights of the edges from a node of the chain add up to 100, in exact
    -- arithmetic, and only its loopback edge has changed.
    pub rebalance_node_sum :
        (n i : ℕ) (map : ℕ → D)
        → i < n
        → (row_sum n i (rebalance_node n i map) ≡ of_ℕ 100)
          × ((x : ℕ) → x ≢ cell n i i → rebalance_node n i map x ≡ map x)
    unfolding rebalance_node
    rebalance_node_sum n i map h =
        let start = write map (cell n i i) (of_ℕ 100) in
        (
          rebalance_loop_balances n i (n - 1) 1 start h (omega arith) (omega arith)
              (Balanced-start n i start (ground arith)),
          λ x ne. rebalance_loop_keeps n i (n - 1) 1 start x ne ∙ ground arith,
        )
