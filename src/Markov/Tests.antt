-- ===== src/Markov/Tests.antt =====
-- Each theorem on the chain at an input where its hypotheses hold. Integers stand for doubles.
use vdeplug_wirefilter.Base.{ℕ, ◌+◌, ◌%◌, ◌*◌, ◌≡◌, refl, arith, true, Returns}
use vdeplug_wirefilter.Base.Int.{ℤ, pos, ◌+ℤ◌, ◌*ℤ◌, leb_ℤ}
use vdeplug_wirefilter.Conn.Sample.{chain}
use vdeplug_wirefilter.Double.Exact.{ℤ_double, ℤ-IsExact, ℤ-IsMonotone}
use vdeplug_wirefilter.Markov.{markov_resize, next_node}
use vdeplug_wirefilter.Markov.Edge.{EdgeSet, set_edge, set_edge-EdgeSet}
use vdeplug_wirefilter.Markov.Resize.{IsChain, Resized, markov_resize_lem}
use vdeplug_wirefilter.Markov.Row.{spoke}
use vdeplug_wirefilter.Markov.Sum.{sum_from}
use vdeplug_wirefilter.Markov.Select.{rest, IsChosen, next_node-reached}

-- Weights of 3 nodes that do not add up to 100.
abbrev weights : ℕ → ℤ
weights i = pos (10 * i)

chain-IsChain : IsChain chain
chain-IsChain = record { allocated = refl; capacity = refl; within = refl }

markov_resize_lem_example :
    Returns
      (λ (done, m'). (done ≡ true) × Resized ℤ-IsExact chain 4 m')
      (markov_resize true (λ _. true) true chain (pos 4))
markov_resize_lem_example = markov_resize_lem ℤ-IsExact chain 4 chain-IsChain (omega arith)

set_edge-EdgeSet_example :
    Returns (EdgeSet chain 0 1 (pos 30)) (set_edge chain (pos 0) (pos 1) (pos 30))
set_edge-EdgeSet_example =
    set_edge-EdgeSet ℤ-IsExact chain 0 1 (pos 30) (omega arith) (omega arith) (omega arith)

-- The number 0 moves along the first edge.
next_node-reached_example :
    (k : ℕ) × (next_node chain 0 (pos 0) ≡ (0 + k) % 2)
    × IsChosen 2 0 chain.adjacency (pos 0) k
    × (leb_ℤ (rest 2 0 chain.adjacency (pos 0) k) (spoke 2 0 chain.adjacency k) ≡ true)
unfolding ◌+ℤ◌ ◌*ℤ◌ sum_from
next_node-reached_example =
    next_node-reached ℤ-IsExact ℤ-IsMonotone chain 0 (pos 0) (omega arith) refl refl
