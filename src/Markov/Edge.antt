-- ===== src/Markov/Edge.antt =====
-- One edge of `markovSetEdges` in includes/wf_markov.c, once `sscanf` has read its two nodes and its weight.
use vdeplug_wirefilter.Base.{
  ℕ, ◌*◌, ◌<◌, ◌≡◌, ◌≢◌, refl, ◌∙◌, arith, true, if◌then◌else◌, ltb, write, write_self, write-other,
  Run, ok, fault, out_of_bounds, Returns, returns,
}
use vdeplug_wirefilter.Base.Int.{ℤ, pos, negsuc, ◌*ℤ◌, ◌+ℤ◌}
use vdeplug_wirefilter.Double.{Double}
use vdeplug_wirefilter.Double.Exact.{IsExact}
use vdeplug_wirefilter.Markov.{Markov, cell, rebalance_node}
use vdeplug_wirefilter.Markov.Row.{row_sum, cell-lt_row, rebalance_node_sum}

pub edge_index : (n i j : ℕ) → pos i *ℤ pos n +ℤ pos j ≡ pos (cell n i j)
unfolding ◌*ℤ◌ ◌+ℤ◌
edge_index n i j = ground arith

pub cell_inside : (n i j : ℕ) → i < n → j < n → cell n i j < n * n
cell_inside n i j h p = omega (arith, cell-lt_row n i j n 0 h p)

module _ {D : Type 0} ⦃double : Double D⦄ where
  open double use {of_ℕ}

  -- `markovRebalanceNode` of any `int`.
  unfoldable pub rebalance : Markov D → ℤ → Run (Markov D)
  rebalance m (negsuc i) = fault out_of_bounds
  rebalance m (pos i) =
      if ltb i m.nodes_count
      then ok (record m { adjacency = rebalance_node m.nodes_count i m.adjacency })
      else fault out_of_bounds

  -- The write to the entry that the two nodes give, and the rebalancing.
  unfoldable pub set_entry : Markov D → (start_node index : ℤ) → D → Run (Markov D)
  unfolding rebalance
  set_entry m start_node (negsuc k) weight = fault out_of_bounds
  set_entry m start_node (pos k) weight =
      if ltb k (m.nodes_count * m.nodes_count)
      then rebalance (record m { adjacency = write m.adjacency k weight }) start_node
      else fault out_of_bounds

  unfoldable pub set_edge : Markov D → (start_node end_node : ℤ) → D → Run (Markov D)
  unfolding set_entry
  set_edge m start_node end_node weight =
      set_entry m start_node (start_node *ℤ pos m.nodes_count +ℤ end_node) weight

  -- What setting the edge from i to j makes of a chain: its weight is the one given, the weights from i add
  -- up to 100, and of all other edges only the loopback edge of i has changed.
  pub record EdgeSet (m : Markov D) (i j : ℕ) (weight : D) (m' : Markov D) : Type 0 where
    pub edge : m'.adjacency (cell m.nodes_count i j) ≡ weight
    pub total : row_sum m.nodes_count i m'.adjacency ≡ of_ℕ 100
    pub others :
        (x : ℕ)
        → x ≢ cell m.nodes_count i j
        → x ≢ cell m.nodes_count i i
        → m'.adjacency x ≡ m.adjacency x
    pub nodes_count : m'.nodes_count ≡ m.nodes_count

  -- Setting the edge between two different nodes of the chain gives it the weight, makes the weights from
  -- its start add up to 100 again, in exact arithmetic, and changes no other edge but the loopback edge of
  -- the start.
  pub set_edge-EdgeSet :
      (exact : IsExact D) (m : Markov D) (i j : ℕ) (weight : D)
      → i < m.nodes_count
      → j < m.nodes_count
      → i ≢ j
      → Returns (EdgeSet m i j weight) (set_edge m (pos i) (pos j) weight)
  unfolding set_edge
  set_edge-EdgeSet exact m i j weight h p ne =
      let n = m.nodes_count in
      let index : pos i *ℤ pos n +ℤ pos j ≡ pos (cell n i j) = edge_index n i j in
      let inside : ltb (cell n i j) (n * n) ≡ true = ground (arith, cell_inside n i j h p) in
      let start : ltb i n ≡ true = ground arith in
      let written = write m.adjacency (cell n i j) weight in
      let (total, kept) = rebalance_node_sum exact n i written h in
      rw (index, inside, start)
        (returns (record {
          edge = kept (cell n i j) (omega arith) ∙ write_self m.adjacency (cell n i j) weight;
          total = total;
          others = λ x q r. kept x r ∙ write-other m.adjacency (cell n i j) weight x (omega arith);
          nodes_count = refl;
        }))
