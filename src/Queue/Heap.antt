-- ===== src/Queue/Heap.antt =====
-- The heap in the array of the packet queue: the parent of entry i is entry i / 2, and the sentinel
-- is entry 0.
use vdeplug_wirefilter.Base.{ℕ, zero, suc, ◌/◌, ◌≤◌, ◌<◌, ◌≡◌, true, arith, sum_to, ok, write}
use vdeplug_wirefilter.Queue.{QueueNode, sentinel_node, load, store}
use vdeplug_wirefilter.Queue.Order.{node_le, node_le_refl, node_le_trans}

-- Entries 1 to n are in heap order below the sentinel.
pub record IsHeap (n : ℕ) (c : ℕ → QueueNode) : Type 0 where
  pub bottom : c 0 ≡ sentinel_node
  pub edges : (i : ℕ) → 0 < i → i ≤ n → node_le (c (i / 2)) (c i) ≡ true

-- The entries 1 to n weigh `total w`, whatever the measure: as a bag, they are the nodes that `total`
-- was taken from.
abbrev pub Weighs : ℕ → (ℕ → QueueNode) → ((QueueNode → ℕ) → ℕ) → Type 0
Weighs n c total = (w : QueueNode → ℕ) → sum_to w n c ≡ total w

abbrev pub IsHeapOf : ℕ → ((QueueNode → ℕ) → ℕ) → (ℕ → QueueNode) → Type 0
IsHeapOf n total c = IsHeap n c × Weighs n c total

root_least_below :
    (f n : ℕ) (c : ℕ → QueueNode) (i : ℕ)
    → IsHeap n c
    → i < f
    → 0 < i
    → i ≤ n
    → node_le (c 1) (c i) ≡ true
root_least_below zero n c i h lt p q = absurd (omega arith)
root_least_below (suc f) n c i h lt p q = ground (
  arith,
  h.edges i p q,
  node_le_refl (c 1),
  root_least_below f n c (i / 2) h,
  node_le_trans (c 1) (c (i / 2)) (c i),
)

-- No entry comes before the root.
pub root_least :
    (n : ℕ) (c : ℕ → QueueNode) (i : ℕ) → IsHeap n c → 0 < i → i ≤ n → node_le (c 1) (c i) ≡ true
root_least n c i h p q = root_least_below (suc i) n c i h (omega arith) p q

-- Accesses below `max_size` are in bounds.
module _ (max_size : ℕ) (c : ℕ → QueueNode) (i : ℕ) (h : i < max_size) where
  pub load-ok : load max_size c i ≡ ok (c i)
  load-ok = ground arith

  pub store-ok : (a : QueueNode) → store max_size c i a ≡ ok (write c i a)
  store-ok a = ground arith
