-- ===== src/Markov/Resize.antt =====
-- `markovResize`: the outer loop of `copyAdjacency`, and what becomes of the chain.
use native.Mathlib.Decide.{dec_lt}
use vdeplug_wirefilter.Base.{
  ℕ, zero, suc, ◌+◌, ◌-◌, ◌%◌, ◌≤◌, ◌<◌, ◌≡◌, ◌≢◌, inl, inr, refl, sym, subst, subst₂, ◌∙◌, arith,
  true, false, ltb, ◌==◌, if◌then◌else◌, write, ok, Returns, returns, Bool-cases,
}
use vdeplug_wirefilter.Base.Int.{pos, leb_ℤ}
use vdeplug_wirefilter.Double.{Double}
use vdeplug_wirefilter.Double.Exact.{IsExact}
use vdeplug_wirefilter.Markov.{
  Markov, MarkovNode, cell, copy_row_loop, copy_adjacency_loop, copy_adjacency, fresh_nodes,
  resize_nodes, resize_adjacency, markov_resize, zero_node,
}
use vdeplug_wirefilter.Markov.Copy.{
  kept, NoneAhead, copy_row_loop-elsewhere, copy_row_loop-ahead, copy_row_loop-sum,
}
use vdeplug_wirefilter.Markov.Row.{after-ne, after-onto, cell-ne_row, row_sum, Balanced-start}
use vdeplug_wirefilter.Markov.Sum.{sum_from-congr}

module _ {D : Type 0} ⦃double : Double D⦄ (exact : IsExact D) (old_n n : ℕ) (old : ℕ → D) where
  open double use {of_ℕ, add, sub}

  -- Row i of the new map: all its weights add up to 100, edges between old nodes keep their weights, and
  -- there are no other edges but the loopback edge.
  pub record IsCopied (i : ℕ) (map : ℕ → D) : Type 0 where
    pub total : row_sum n i map ≡ of_ℕ 100
    pub edges : (j : ℕ) → j < n → j ≢ i → map (cell n i j) ≡ kept old_n n old i j

  IsCopied-congr :
      (i : ℕ) (map map' : ℕ → D)
      → ((j : ℕ) → j < n → map' (cell n i j) ≡ map (cell n i j))
      → IsCopied i map
      → IsCopied i map'
  IsCopied-congr i map map' same c = record {
    total =
        sum_from-congr (λ j. map' (cell n i j)) (λ j. map (cell n i j)) 0 n
          (λ k p q. same k (omega arith))
        ∙ c.total;
    edges = λ j p q. same j p ∙ c.edges j p q;
  }

  abbrev IsEmptyRow : ℕ → (ℕ → D) → Type 0
  IsEmptyRow i map = (j : ℕ) → j < n → map (cell n i j) ≡ of_ℕ 0

  -- The map behind one round of the outer loop.
  abbrev copy_row : ℕ → (ℕ → D) → ℕ → D
  copy_row i map = copy_row_loop old_n n i (n - 1) 1 old (write map (cell n i i) (of_ℕ 100))

  copy_row-IsCopied : (i : ℕ) (map : ℕ → D) → i < n → IsEmptyRow i map → IsCopied i (copy_row i map)
  copy_row-IsCopied i map h z =
      let start = write map (cell n i i) (of_ℕ 100) in
      let ahead : NoneAhead old_n n old i h 1 start =
        λ k p q. ground (arith, after-ne n i k h p q, z ((i + k) % n)) in
      record {
        total =
            copy_row_loop-sum old_n n old i h exact (n - 1) 1 start (omega arith) (omega arith)
              ahead (Balanced-start exact n i start (ground arith));
        edges = λ j p q.
            let (k, a, b, e) = after-onto n i j h p q in
            subst (λ m. copy_row i map (cell n i m) ≡ kept old_n n old i m) e
              (copy_row_loop-ahead old_n n old i h (n - 1) 1 k start (omega arith) (omega arith) a b
                ahead);
      }

  copy_row-elsewhere :
      (i r j : ℕ) (map : ℕ → D)
      → i < n
      → j < n
      → r ≢ i
      → copy_row i map (cell n r j) ≡ map (cell n r j)
  copy_row-elsewhere i r j map h p ne =
      copy_row_loop-elsewhere old_n n old i h (n - 1) 1 (write map (cell n i i) (of_ℕ 100))
        (cell n r j) (λ k q. cell-ne_row n r j i k ne p q)
      ∙ ground (arith, cell-ne_row n r j i i ne p h)

  copy_adjacency_loop-IsCopied :
      (left i : ℕ) (map : ℕ → D)
      → i + left ≡ n
      → ((r : ℕ) → r < i → IsCopied r map)
      → ((r : ℕ) → i ≤ r → r < n → IsEmptyRow r map)
      → (r : ℕ) → r < n
      → IsCopied r (copy_adjacency_loop old_n n left i old map)
  unfolding copy_adjacency_loop
  copy_adjacency_loop-IsCopied zero i map e done empty r h = done r (omega arith)
  copy_adjacency_loop-IsCopied (suc left) i map e done empty r h =
      copy_adjacency_loop-IsCopied left (i + 1) (copy_row i map) (omega arith)
        (λ r' p. elim (dec_lt r' i) [
          | yes l ↦
              IsCopied-congr r' map (copy_row i map)
                (λ j q. copy_row-elsewhere i r' j map (omega arith) q (omega arith)) (done r' l)
          | no l ↦
              let same : i ≡ r' = omega arith in
              subst (λ m. IsCopied m (copy_row i map)) same
                (copy_row-IsCopied i map (omega arith) (empty i (omega arith) (omega arith)))
        ])
        (λ r' p q j s.
          copy_row-elsewhere i r' j map (omega arith) s (omega arith)
          ∙ empty r' (omega arith) q j s)
        r h

  -- Every row of the map that `copyAdjacency` makes, in memory from `calloc`, is a copy.
  pub copy_adjacency-IsCopied :
      (r : ℕ) → r < n → IsCopied r (copy_adjacency old_n n old (λ _. of_ℕ 0))
  unfolding copy_adjacency
  copy_adjacency-IsCopied r h =
      copy_adjacency_loop-IsCopied n 0 (λ _. of_ℕ 0) (omega arith) (λ r' p. absurd (omega arith))
        (λ r' p q j s. refl) r h

-- A chain between the calls of wf_markov.c: its arrays have the sizes that it counts.
pub record IsChain {D : Type 0} (m : Markov D) : Type 0 where
  pub allocated : m.allocated ≡ true
  pub capacity : m.capacity ≡ m.nodes_count
  pub within : leb_ℤ (pos m.nodes_count) m.current_node ≡ false

module _ {D : Type 0} ⦃double : Double D⦄ where
  open double use {of_ℕ, add, sub}

  fresh_nodes_lem :
      (left i : ℕ) (nodes : ℕ → MarkovNode D) (k : ℕ)
      → ((fresh_nodes (λ _. true) left i nodes).0 ≡ true)
        × ((fresh_nodes (λ _. true) left i nodes).1 k
            ≡ (if ltb k i then nodes k else if ltb k (i + left) then zero_node else nodes k))
  unfolding fresh_nodes
  fresh_nodes_lem zero i nodes k = (refl, ground arith)
  fresh_nodes_lem (suc left) i nodes k =
      let (done, at_k) = fresh_nodes_lem left (i + 1) (write nodes i zero_node) k in
      (done, at_k ∙ ground arith)

  -- The first half: the pointer array and the current node.
  record NodesResized (m : Markov D) (n : ℕ) (m' : Markov D) : Type 0 where
    allocated : m'.allocated ≡ true
    capacity : m'.capacity ≡ n
    current_node :
        m'.current_node ≡ (if leb_ℤ (pos n) m.current_node then pos 0 else m.current_node)
    old_nodes : (i : ℕ) → i < m.nodes_count → i < n → m'.nodes i ≡ m.nodes i
    new_nodes : (i : ℕ) → m.nodes_count ≤ i → i < n → m'.nodes i ≡ zero_node
    nodes_count : m'.nodes_count ≡ m.nodes_count
    adjacency : m'.adjacency ≡ m.adjacency

  resize_nodes_lem :
      (m : Markov D) (n : ℕ)
      → IsChain m
      → ((resize_nodes true (λ _. true) m n).0 ≡ true)
        × NodesResized m n (resize_nodes true (λ _. true) m n).1
  unfolding resize_nodes
  resize_nodes_lem m n v = elim (Bool-cases (ltb m.nodes_count n)) [
    | inl e ↦ rw e (
      (fresh_nodes_lem (n - m.nodes_count) m.nodes_count m.nodes 0).0,
      record {
        allocated = refl;
        capacity = refl;
        current_node = ground (arith, v.within);
        old_nodes =
            λ i p q. (fresh_nodes_lem (n - m.nodes_count) m.nodes_count m.nodes i).1 ∙ ground arith;
        new_nodes =
            λ i p q. (fresh_nodes_lem (n - m.nodes_count) m.nodes_count m.nodes i).1 ∙ ground arith;
        nodes_count = refl;
        adjacency = refl;
      },
    )
    | inr e ↦ rw e (
      refl,
      record {
        allocated = refl;
        capacity = refl;
        current_node = refl;
        old_nodes = λ i p q. refl;
        new_nodes = λ i p q. absurd (ground arith);
        nodes_count = refl;
        adjacency = refl;
      },
    )
  ]

  -- What a resize of chain m to n nodes makes of it: the current node stays, or becomes node 0 if it is
  -- deleted; nodes that stay keep their values, and new ones are zero.
  pub record Resized (exact : IsExact D) (m : Markov D) (n : ℕ) (m' : Markov D) : Type 0 where
    pub allocated : m'.allocated ≡ true
    pub capacity : m'.capacity ≡ n
    pub nodes_count : m'.nodes_count ≡ n
    pub current_node :
        m'.current_node ≡ (if leb_ℤ (pos n) m.current_node then pos 0 else m.current_node)
    pub old_nodes : (i : ℕ) → i < m.nodes_count → i < n → m'.nodes i ≡ m.nodes i
    pub new_nodes : (i : ℕ) → m.nodes_count ≤ i → i < n → m'.nodes i ≡ zero_node
    pub rows : (i : ℕ) → i < n → IsCopied exact m.nodes_count n m.adjacency i m'.adjacency

  resize_adjacency_lem :
      (exact : IsExact D) (m : Markov D) (n : ℕ) (m' : Markov D)
      → NodesResized m n m'
      → Returns
          (λ (done, m''). (done ≡ true) × Resized exact m n m'')
          (ok (resize_adjacency true m' n))
  unfolding resize_adjacency
  resize_adjacency_lem exact m n m' r = returns (
    refl,
    record {
      allocated = r.allocated;
      capacity = r.capacity;
      nodes_count = refl;
      current_node = r.current_node;
      old_nodes = r.old_nodes;
      new_nodes = r.new_nodes;
      rows = λ i h.
          subst₂
            (λ k old.
              IsCopied exact k n old i (copy_adjacency m'.nodes_count n m'.adjacency (λ _. of_ℕ 0)))
            r.nodes_count r.adjacency
            (copy_adjacency-IsCopied exact m'.nodes_count n m'.adjacency i h);
    },
  )

  -- With all memory granted `markovResize` to another number of nodes succeeds, and makes of the chain
  -- what `Resized` says.
  -- With all memory granted and exact arithmetic, `markovResize` to another number of nodes returns 0. The
  -- current node stays, or becomes node 0 if it is deleted; nodes that stay keep their values, new ones
  -- are zero; in the new map the weights from each node add up to 100, and edges between nodes that stay
  -- keep their weights.
  pub markov_resize_lem :
      (exact : IsExact D) (m : Markov D) (n : ℕ)
      → IsChain m
      → n ≢ m.nodes_count
      → Returns
          (λ (done, m'). (done ≡ true) × Resized exact m n m')
          (markov_resize true (λ _. true) true m (pos n))
  unfolding markov_resize
  markov_resize_lem exact m n v ne =
      let (done, r) = resize_nodes_lem m n v in
      let m' = (resize_nodes true (λ _. true) m n).1 in
      let other : (m.nodes_count == n) ≡ false = ground arith in
      rw (other, done) (resize_adjacency_lem exact m n m' r)

  pub Resized-IsChain :
      (exact : IsExact D) (m : Markov D) (n : ℕ) (m' : Markov D)
      → 0 < n
      → Resized exact m n m'
      → IsChain m'
  Resized-IsChain exact m n m' h r = record {
    allocated = r.allocated;
    capacity = r.capacity ∙ sym r.nodes_count;
    within = ground (arith, r.current_node, r.nodes_count);
  }
