-- ===== src/Markov/Edges/Balance.antt =====
-- The weights from each node of the chain add up to 100: `markovSetEdges` of includes/wf_markov.c keeps this.
use vdeplug_wirefilter.Base.{
  ℕ, ◌*◌, ◌<◌, ◌≡◌, refl, sym, subst, ◌∙◌, arith, true, ◌==◌, Bool-cases, inl, inr, ltb, suc, ◌+◌,
  ap, write, write_self, write-other, All, List, [], ◌∷◌, Returns, returns, Returns-bind, All-map,
}
use vdeplug_wirefilter.Base.Int.{pos, ◌*ℤ◌, ◌+ℤ◌}
use vdeplug_wirefilter.Double.{Double, DoubleText}
use vdeplug_wirefilter.Double.Exact.{IsExact}
use vdeplug_wirefilter.Markov.{Markov, cell, rebalance_node}
use vdeplug_wirefilter.Markov.Edge.{set_edge, set_entry, rebalance, edge_index, cell_inside}
use vdeplug_wirefilter.Markov.Edges.{EdgeVars, set_edges}
use vdeplug_wirefilter.Markov.Edges.Printed.{
  Edge, IsPrinted, edges_text, set_all, set_edges-printed,
}
use vdeplug_wirefilter.Markov.Row.{row_sum, cell-ne_row, rebalance_node_sum}
use vdeplug_wirefilter.Markov.Sum.{sum_from-congr}

same : (k i : ℕ) → (k == i) ≡ true → i ≡ k
same k i e = ground arith

module _ {D : Type 0} ⦃double : Double D⦄ where
  open double use {of_ℕ}

  -- In a chain of n nodes, the weights from each node add up to 100.
  pub record IsBalanced (n : ℕ) (m : Markov D) : Type 0 where
    pub nodes_count : m.nodes_count ≡ n
    pub rows : (i : ℕ) → i < n → row_sum n i m.adjacency ≡ of_ℕ 100

  rebalanced_row :
      (exact : IsExact D) (n i j : ℕ) (w : D) (map : ℕ → D)
      → i < n
      → j < n
      → ((k : ℕ) → k < n → row_sum n k map ≡ of_ℕ 100)
      → (k : ℕ) → k < n
      → row_sum n k (rebalance_node n i (write map (cell n i j) w)) ≡ of_ℕ 100
  rebalanced_row exact n i j w map h p rows k q =
      let (total, kept) = rebalance_node_sum exact n i (write map (cell n i j) w) h in
      elim (Bool-cases (k == i)) [
        | inl e ↦
            subst (λ x. row_sum n x (rebalance_node n i (write map (cell n i j) w)) ≡ of_ℕ 100)
              (same k i e) total
        | inr ne ↦
            sum_from-congr _ _ 0 n (λ c l r.
              kept (cell n k c) (cell-ne_row n k c i i (ground arith) (omega arith) h)
              ∙ write-other map (cell n i j) w (cell n k c)
                  (λ e. cell-ne_row n k c i j (ground arith) (omega arith) p (sym e)))
            ∙ rows k q
      ]

  set_edge-IsBalanced :
      (exact : IsExact D) (n : ℕ) (m : Markov D) (i j : ℕ) (w : D)
      → i < n
      → j < n
      → IsBalanced n m
      → Returns (IsBalanced n) (set_edge m (pos i) (pos j) w)
  unfolding set_edge set_entry rebalance
  set_edge-IsBalanced exact n m i j w h p b =
      let index : pos i *ℤ pos n +ℤ pos j ≡ pos (cell n i j) = edge_index n i j in
      let inside : ltb (cell n i j) (n * n) ≡ true = ground (arith, cell_inside n i j h p) in
      let start : ltb i n ≡ true = ground arith in
      rw (b.nodes_count, index, inside, start)
        (returns (record {
          nodes_count = refl;
          rows = rebalanced_row exact n i j w m.adjacency h p b.rows;
        }))

  -- In a chain of n nodes an end from n to 2 n - 1 is not refused when the start is a node before the last one: the
  -- edge to node (end - n) of the node after the start gets the weight, in exact arithmetic.
  pub set_edge-astray :
      (exact : IsExact D) (m : Markov D) (i j : ℕ) (w : D)
      → suc i < m.nodes_count
      → j < m.nodes_count
      → Returns
          (λ m'. m'.adjacency (cell m.nodes_count (suc i) j) ≡ w)
          (set_edge m (pos i) (pos (m.nodes_count + j)) w)
  unfolding set_edge set_entry rebalance
  set_edge-astray exact m i j w h p =
      let n = m.nodes_count in
      let index : pos i *ℤ pos n +ℤ pos (n + j) ≡ pos (cell n (suc i) j) =
        edge_index n i (n + j) ∙ ap pos (ground arith) in
      let inside : ltb (cell n (suc i) j) (n * n) ≡ true =
        ground (arith, cell_inside n (suc i) j h p) in
      let start : ltb i n ≡ true = ground arith in
      let kept =
        (rebalance_node_sum exact n i (write m.adjacency (cell n (suc i) j) w) (omega arith)).1 in
      rw (index, inside, start)
        (returns (
          kept (cell n (suc i) j) (cell-ne_row n (suc i) j i i (omega arith) p (omega arith))
          ∙ write_self m.adjacency (cell n (suc i) j) w))

module _ {D : Type 0} ⦃double : Double D⦄ ⦃text : DoubleText D⦄ where
  -- The nodes of the edge are nodes of a chain of n, and its text is that of the edge.
  pub record IsInside (n : ℕ) (e : Edge D) : Type 0 where
    pub start_node : e.start_node < n
    pub end_node : e.end_node < n
    pub printed : IsPrinted e

  set_all-IsBalanced :
      (exact : IsExact D) (n : ℕ) (m : Markov D) (es : List (Edge D))
      → All (IsInside n) es
      → IsBalanced n m
      → Returns (IsBalanced n) (set_all m es)
  unfolding set_all
  set_all-IsBalanced exact n m [] p b = returns b
  set_all-IsBalanced exact n m (e ∷ es) p b =
      Returns-bind
        (set_edge-IsBalanced exact n m e.start_node e.end_node e.weight p.0.start_node p.0.end_node
          b)
        (λ m' b'. set_all-IsBalanced exact n m' es p.1 b')

  -- If the weights from each node add up to 100, and the text names edges between nodes of the chain, then the
  -- parser returns, and the weights from each node of the chain that it leaves still add up to 100, in exact arithmetic.
  pub set_edges-IsBalanced :
      (exact : IsExact D) (n : ℕ) (m : Markov D) (vars : EdgeVars D) (es : List (Edge D))
      → All (IsInside n) es
      → IsBalanced n m
      → Returns (IsBalanced n) (set_edges m vars (edges_text es))
  set_edges-IsBalanced exact n m vars es p b =
      subst (Returns (IsBalanced n))
        (sym (set_edges-printed m vars es (All-map es (λ e q. q.printed) p)))
        (set_all-IsBalanced exact n m es p b)
