-- ===== src/Queue/Rise.antt =====
-- The loop of `enqueue`: a node rises from the new leaf to its place.
use vdeplug_wirefilter.Base.{
  ℕ, zero, suc, ◌/◌, ◌≤◌, ◌<◌, ◌≡◌, ◌≢◌, true, false, arith, write, sum_to, sum_to-write, Returns,
  returns, Returns-split, ◌∙◌,
}
use vdeplug_wirefilter.Queue.{QueueNode, sentinel_node, rise, compare_node, is_lt}
use vdeplug_wirefilter.Queue.Heap.{IsHeap, Weighs, IsHeapOf, load-ok, store-ok}
use vdeplug_wirefilter.Queue.Order.{
  node_le, node_le_trans, node_le_of_lt, node_le_of_not_lt, sentinel-not-above,
}

-- Entry k is a hole for `new`: all other edges are in order, also those past the hole, and `new` may
-- stand above the children of the hole.
pub record RiseInv (n : ℕ) (c : ℕ → QueueNode) (new : QueueNode) (k : ℕ) : Type 0 where
  pub bottom : c 0 ≡ sentinel_node
  pub positive : 0 < k
  pub inside : k ≤ n
  pub edges : (i : ℕ) → 0 < i → i ≤ n → i ≢ k → i / 2 ≢ k → node_le (c (i / 2)) (c i) ≡ true
  pub bridged : (i : ℕ) → 0 < i → i ≤ n → i / 2 ≡ k → node_le (c (k / 2)) (c i) ≡ true
  pub below : (i : ℕ) → 0 < i → i ≤ n → i / 2 ≡ k → node_le new (c i) ≡ true

module _ (n : ℕ) (c : ℕ → QueueNode) (new : QueueNode) (k : ℕ) (v : RiseInv n c new k) where
  rise_settles : is_lt (compare_node new (c (k / 2))) ≡ false → IsHeap n (write c k new)
  rise_settles s = record {
    bottom = ground (arith, v.bottom, v.positive);
    edges = λ i p q.
        ground
          (arith, v.positive, v.edges i p q, v.below i p q, node_le_of_not_lt new (c (k / 2)) s);
  }

  module _ (s : is_lt (compare_node new (c (k / 2))) ≡ true) where
    not_at_root : 0 < k / 2
    not_at_root = ground (arith, v.bottom, v.positive, sentinel-not-above new)

    rise_step : RiseInv n (write c k (c (k / 2))) new (k / 2)
    rise_step = record {
      bottom = ground (arith, v.bottom, v.positive);
      positive = not_at_root;
      inside = omega (arith, v.inside);
      edges = λ i p q r t. ground (arith, v.edges i p q, v.bridged i p q);
      bridged = λ i p q r. ground (
        arith,
        not_at_root,
        v.inside,
        v.edges i p q,
        v.edges (k / 2),
        node_le_trans (c (k / 2 / 2)) (c (k / 2)) (c i),
      );
      below = λ i p q r. ground (
        arith,
        not_at_root,
        v.edges i p q,
        node_le_of_lt new (c (k / 2)) s,
        node_le_trans new (c (k / 2)) (c i),
      );
    }

    -- Moving the hole changes nothing in the bag of the entries with the node in the hole.
    rise_weighs :
        (w : QueueNode → ℕ)
        → sum_to w n (write (write c k (c (k / 2))) (k / 2) new) ≡ sum_to w n (write c k new)
    rise_weighs w = ground (
      arith,
      not_at_root,
      v.positive,
      v.inside,
      sum_to-write w n c k new,
      sum_to-write w n c k (c (k / 2)),
      sum_to-write w n (write c k (c (k / 2))) (k / 2) new,
    )

-- With the array large enough the loop ends, in bounds, with a heap that holds the new node too.
pub rise_restores :
    (f max_size n : ℕ) (c : ℕ → QueueNode) (new : QueueNode) (k : ℕ) (total : (QueueNode → ℕ) → ℕ)
    → k < f
    → n < max_size
    → RiseInv n c new k
    → Weighs n (write c k new) total
    → Returns (IsHeapOf n total) (rise f max_size c new k)
unfolding rise
rise_restores zero max_size n c new k total lt room v bag = absurd (omega arith)
rise_restores (suc f) max_size n c new k total lt room v bag =
    let within : k < max_size = omega (arith, v.inside) in
    rw (load-ok max_size c (k / 2) (omega arith)) (
      Returns-split (is_lt (compare_node new (c (k / 2))))
        (λ s. rw (store-ok max_size c k within (c (k / 2))) (
          rise_restores f max_size n (write c k (c (k / 2))) new (k / 2) total
            (omega (arith, v.positive)) room (rise_step n c new k v s)
            (λ w. rise_weighs n c new k v s w ∙ bag w)))
        (λ s. rw (store-ok max_size c k within new) (returns (rise_settles n c new k v s, bag))))
