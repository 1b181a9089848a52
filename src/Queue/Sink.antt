-- ===== src/Queue/Sink.antt =====
-- The loop of `dequeue`: the last node sinks from the root to its place.
use vdeplug_wirefilter.Base.{
  ℕ, zero, suc, ◌+◌, ◌*◌, ◌/◌, ◌≤◌, ◌<◌, ◌≡◌, ◌≢◌, ◌⊎◌, true, false, ltb, leb, arith, write, sum_to,
  sum_to-write, Returns, returns, Returns-bind, Returns-split, ◌∙◌, u32_mod, ◌%◌, Bool-cases, inl,
  inr,
}
use vdeplug_wirefilter.Queue.{QueueNode, sentinel_node, min_child, sink, compare_node, is_lt, is_gt}
use vdeplug_wirefilter.Queue.Heap.{IsHeap, Weighs, IsHeapOf, load-ok, store-ok}
use vdeplug_wirefilter.Queue.Order.{
  node_le, node_le_refl, node_le_of_lt, node_le_of_not_lt, node_le_of_gt, node_le_of_not_gt,
  node_le_trans,
}

-- Entry k is a hole for `old`, which may stand below the parent of the hole; all other edges are in
-- order, also those past the hole.
pub record SinkInv (n : ℕ) (c : ℕ → QueueNode) (old : QueueNode) (k : ℕ) : Type 0 where
  pub bottom : c 0 ≡ sentinel_node
  pub positive : 0 < k
  pub edges : (i : ℕ) → 0 < i → i ≤ n → i ≢ k → i / 2 ≢ k → node_le (c (i / 2)) (c i) ≡ true
  pub bridged : (i : ℕ) → 0 < i → i ≤ n → i / 2 ≡ k → node_le (c (k / 2)) (c i) ≡ true
  pub above : node_le (c (k / 2)) old ≡ true

-- `j` is a child of `k`, and the other child does not come before it.
pub record IsMinChild (n : ℕ) (c : ℕ → QueueNode) (k j : ℕ) : Type 0 where
  pub child : j / 2 ≡ k
  pub positive : 0 < j
  pub inside : j ≤ n
  pub least : (i : ℕ) → 0 < i → i ≤ n → i / 2 ≡ k → node_le (c j) (c i) ≡ true

two_children : (i k : ℕ) → i / 2 ≡ k → (i ≡ 2 * k) ⊎ (i ≡ 2 * k + 1)
two_children i k h = grind arith

pub min_child-IsMinChild :
    (max_size n : ℕ) (c : ℕ → QueueNode) (k : ℕ)
    → n < max_size
    → max_size < u32_mod
    → 0 < k
    → k ≤ n / 2
    → Returns (IsMinChild n c k) (min_child max_size n c k)
unfolding min_child
min_child-IsMinChild max_size n c k room word pos inner =
    let index : 2 * k % u32_mod ≡ 2 * k = omega arith in
    rw index (
      Returns-split (ltb (2 * k) n)
        (λ two.
          rw
            (
              load-ok max_size c (2 * k) (ground arith),
              load-ok max_size c (2 * k + 1) (ground arith),
            )
            (elim (Bool-cases (is_gt (compare_node (c (2 * k)) (c (2 * k + 1))))) [
              | inl e ↦ rw e (
                  returns (record {
                    child = omega arith;
                    positive = omega arith;
                    inside = ground arith;
                    least = λ i p q r. ground (
                      arith,
                      node_le_of_gt _ _ e,
                      node_le_refl (c (2 * k + 1)),
                      two_children i k r,
                    );
                  }))
              | inr e ↦ rw e (
                  returns (record {
                    child = omega arith;
                    positive = omega arith;
                    inside = omega arith;
                    least = λ i p q r. ground (
                      arith,
                      node_le_of_not_gt _ _ e,
                      node_le_refl (c (2 * k)),
                      two_children i k r,
                    );
                  }))
            ]))
        (λ one. returns (record {
          child = omega arith;
          positive = omega arith;
          inside = omega arith;
          least = λ i p q r. ground (arith, node_le_refl (c (2 * k)), two_children i k r);
        })))

module _ (n : ℕ) (c : ℕ → QueueNode) (old : QueueNode) (k : ℕ) (v : SinkInv n c old k) where
  sink_settles :
      ((i : ℕ) → 0 < i → i ≤ n → i / 2 ≡ k → node_le old (c i) ≡ true) → IsHeap n (write c k old)
  sink_settles s = record {
    bottom = ground (arith, v.bottom, v.positive);
    edges = λ i p q. ground (arith, v.positive, v.edges i p q, s i p q, v.above);
  }

  module _ (j : ℕ) (m : IsMinChild n c k j) (s : is_lt (compare_node old (c j)) ≡ false) where
    sink_step : SinkInv n (write c k (c j)) old j
    sink_step = record {
      bottom = ground (arith, v.bottom, v.positive);
      positive = m.positive;
      edges = λ i p q r t. ground (
        arith,
        m.child,
        v.positive,
        v.edges i p q,
        m.least i p q,
        v.bridged j m.positive m.inside m.child,
      );
      bridged = λ i p q r. ground (arith, m.child, v.positive, v.edges i p q);
      above = ground (arith, m.child, node_le_of_not_lt old (c j) s);
    }

    sink_weighs :
        k ≤ n
        → (w : QueueNode → ℕ)
        → sum_to w n (write (write c k (c j)) j old) ≡ sum_to w n (write c k old)
    sink_weighs h w = ground (
      arith,
      m.child,
      m.positive,
      m.inside,
      v.positive,
      sum_to-write w n c k old,
      sum_to-write w n c k (c j),
      sum_to-write w n (write c k (c j)) j old,
    )

-- With the array large enough the loop ends, in bounds, with a heap that holds the last node too.
pub sink_restores :
    (f max_size n : ℕ) (c : ℕ → QueueNode) (old : QueueNode) (k : ℕ) (total : (QueueNode → ℕ) → ℕ)
    → n + 1 < k + f
    → k ≤ n + 1
    → k < max_size
    → n < max_size
    → max_size < u32_mod
    → SinkInv n c old k
    → Weighs n (write c k old) total
    → Returns (IsHeapOf n total) (sink f max_size n c old k)
unfolding sink
sink_restores zero max_size n c old k total lt low hole room word v bag = absurd (omega arith)
sink_restores (suc f) max_size n c old k total lt low hole room word v bag =
    Returns-split (leb k (n / 2))
      (λ inner.
        Returns-bind (min_child-IsMinChild max_size n c k room word v.positive (ground arith))
          λ j m. rw (load-ok max_size c j (omega (arith, m.inside))) (
            Returns-split (is_lt (compare_node old (c j)))
              (λ s. rw (store-ok max_size c k hole old) (
                returns (
                  sink_settles n c old k v (λ i p q r.
                      node_le_trans old (c j) (c i) (node_le_of_lt old (c j) s) (m.least i p q r)),
                  bag,
                )))
              (λ s. rw (store-ok max_size c k hole (c j)) (
                sink_restores f max_size n (write c k (c j)) old j total
                  (omega (arith, m.child, v.positive)) (omega (arith, m.inside))
                  (omega (arith, m.inside)) room word (sink_step n c old k v j m s)
                  (λ w. sink_weighs n c old k v j m s (ground arith) w ∙ bag w)))))
      (λ leaf.
        rw (store-ok max_size c k hole old)
          (returns (sink_settles n c old k v (λ i p q r. absurd (ground arith)), bag)))
