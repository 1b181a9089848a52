-- ===== src/Queue/Fifo.antt =====
-- In FIFO mode the queue refines a list: packets leave in the order in which they came, whatever
-- forward times they came with.
use mathlib.Core.Logic.{ite, if_pos, if_neg}
use native.Mathlib.Decide.{ℕ_discrete, dec_lt}
use vdeplug_wirefilter.Base.{
  ℕ, ◌+◌, ◌≤◌, ◌<◌, ◌≡◌, ◌≢◌, ok, ◌⊎◌, inl, inr, ap, ◌∙◌, true, none, some, refl, arith, List, [],
  ◌∷◌, ◌++◌, All, All-concat, All-map, weight, weight-concat, sum_to, le-sum_to, sum_to-found,
  sum_to-ones, length, Returns, Returns-weaken, Returns-value, Option-cases, sym, u32_mod,
}
use vdeplug_wirefilter.Packet.{Packet}
use vdeplug_wirefilter.Queue.{
  QueueNode, Queue, compare_node, is_lt, fifo, all_granted, stamp, enqueue, dequeue,
  next_queue_time,
}
use vdeplug_wirefilter.Queue.Dequeue.{Removed, present, dequeue_least}
use vdeplug_wirefilter.Queue.Enqueue.{CanTake, Enqueued, stamped_node, enqueue_adds}
use vdeplug_wirefilter.Queue.Heap.{load-ok, root_least}
use vdeplug_wirefilter.Queue.Inv.{IsValid}
use vdeplug_wirefilter.Queue.Order.{node_le, lt_not_le}

-- `a` leaves before `b`.
abbrev pub Before : QueueNode → QueueNode → Type 0
Before a b = is_lt (compare_node a b) ≡ true

-- Each node leaves before all that follow it in the list.
abbrev pub IsOrdered : List QueueNode → Type 0
IsOrdered [] = Unit
IsOrdered (x ∷ xs) = All (Before x) xs × IsOrdered xs

-- The node is not later than the last stamp of the queue.
abbrev pub IsStamped : Queue → QueueNode → Type 0
IsStamped q n =
    (n.forward_time < q.max_forward_time)
    ⊎ ((n.forward_time ≡ q.max_forward_time) × (n.counter ≤ q.counter))

-- The queue holds exactly the nodes of the list, in FIFO mode, and the list is in leaving order.
pub record Represents (q : Queue) (xs : List QueueNode) : Type 0 where
  pub valid : IsValid q
  pub mode : q.fifoness ≡ fifo
  pub same : (w : QueueNode → ℕ) → sum_to w q.size q.cells ≡ weight w xs
  pub ordered : IsOrdered xs
  pub stamped : All (IsStamped q) xs

IsOrdered-concat :
    (xs : List QueueNode) (y : QueueNode)
    → IsOrdered xs
    → All (λ x. Before x y) xs
    → IsOrdered (xs ++ y ∷ [])
IsOrdered-concat [] y o h = (tt, tt)
IsOrdered-concat (x ∷ xs) y o h =
    (All-concat (Before x) xs y o.0 h.0, IsOrdered-concat xs y o.1 h.1)

-- Unless the counter wraps, the stamp of a new node is later than all stamps before it.
stamped_node-Before :
    (q : Queue) (packet : Packet) (t : ℕ) (x : QueueNode)
    → q.fifoness ≡ fifo
    → q.counter + 1 < u32_mod
    → IsStamped q x
    → Before x (stamped_node q packet t)
unfolding stamp compare_node
stamped_node-Before q packet t x mode small h = ground arith

stamp-IsStamped :
    (q q' : Queue) (packet : Packet) (t : ℕ) (x : QueueNode)
    → q.fifoness ≡ fifo
    → q.counter + 1 < u32_mod
    → q'.max_forward_time ≡ (stamp q t).0.max_forward_time
    → q'.counter ≡ (stamp q t).0.counter
    → IsStamped q x
    → IsStamped q' x
unfolding stamp
stamp-IsStamped q q' packet t x mode small m k h = ground arith

stamped_node-IsStamped :
    (q q' : Queue) (packet : Packet) (t : ℕ)
    → q.fifoness ≡ fifo
    → q'.max_forward_time ≡ (stamp q t).0.max_forward_time
    → q'.counter ≡ (stamp q t).0.counter
    → IsStamped q' (stamped_node q packet t)
unfolding stamp
stamped_node-IsStamped q q' packet t mode m k = ground arith

-- In FIFO mode `enqueue` appends the packet to the list, whatever its forward time, when all memory is
-- granted, not exactly one entry of the array is left, and the counter does not wrap.
pub enqueue-Represents :
    (q : Queue) (xs : List QueueNode) (packet : Packet) (t : ℕ)
    → Represents q xs
    → CanTake q
    → q.counter + 1 < u32_mod
    → Returns
        (λ q'. Represents q' (xs ++ stamped_node q packet t ∷ []) × Enqueued q packet t q')
        (enqueue all_granted q packet t)
enqueue-Represents q xs packet t r can small =
    Returns-weaken (enqueue_adds q packet t r.valid can) λ q' e. (
      record {
        valid = e.valid;
        mode = ground (arith, e.fifoness, r.mode);
        same = λ w.
            omega (arith, e.contents w, r.same w, weight-concat w xs (stamped_node q packet t));
        ordered =
            IsOrdered-concat xs (stamped_node q packet t) r.ordered
              (All-map xs (λ x. stamped_node-Before q packet t x r.mode small) r.stamped);
        stamped =
            All-concat (IsStamped q') xs (stamped_node q packet t)
              (All-map xs
                (λ x. stamp-IsStamped q q' packet t x r.mode small e.max_forward_time e.counter)
                r.stamped)
              (stamped_node-IsStamped q q' packet t r.mode e.max_forward_time e.counter);
      },
      e,
    )

QueueNode-discrete : Discrete QueueNode
QueueNode-discrete = hlevel ℕ_discrete

-- 1 at the node `a`, and 0 at all others.
is_node : QueueNode → QueueNode → ℕ
is_node a n = ite (QueueNode-discrete a n) 1 0

is_node_self : (a : QueueNode) → is_node a a ≡ 1
unfolding is_node
is_node_self a = if_pos (QueueNode-discrete a a) refl 1 0

is_node-eq : (a n : QueueNode) → 0 < is_node a n → a ≡ n
unfolding is_node
is_node-eq a n h = elim (QueueNode-discrete a n) [
  | yes e ↦ e
  | no e ↦
      let zero_here : is_node a n ≡ 0 = if_neg (QueueNode-discrete a n) e 1 0 in
      absurd (omega arith)
]

-- What all nodes of a list satisfy holds of a node that the list weighs.
All-weight :
    (P : QueueNode → Type 0) (a : QueueNode) (xs : List QueueNode)
    → All P xs
    → 0 < weight (is_node a) xs
    → P a
All-weight P a [] h p = absurd (omega arith)
All-weight P a (x ∷ xs) h p = elim (dec_lt 0 (is_node a x)) [
  | yes here ↦ rw (is_node-eq a x here) h.0
  | no later ↦ All-weight P a xs h.1 (omega arith)
]

weight-ones : (xs : List QueueNode) → weight (λ _. 1) xs ≡ length xs
weight-ones [] = refl
weight-ones (x ∷ xs) = omega (arith, weight-ones xs)

pub size-represented : (q : Queue) (xs : List QueueNode) → Represents q xs → q.size ≡ length xs
size-represented q xs r = omega (arith, sum_to-ones q.size q.cells, r.same (λ _. 1), weight-ones xs)

module _ (q : Queue) (x : QueueNode) (xs : List QueueNode) (r : Represents q (x ∷ xs)) where
  -- The root is the oldest node: it is in the list, and nothing in the heap comes before it.
  root-oldest :
      ((i : ℕ) → 0 < i → i ≤ q.size → node_le (q.cells 1) (q.cells i) ≡ true) → q.cells 1 ≡ x
  root-oldest least = elim (dec_lt 0 (is_node (q.cells 1) x)) [
    | yes here ↦ is_node-eq (q.cells 1) x here
    | no later ↦
        let listed : 0 < weight (is_node (q.cells 1)) xs = omega (
          arith,
          is_node_self (q.cells 1),
          le-sum_to (is_node (q.cells 1)) q.size q.cells 1,
          size-represented q (x ∷ xs) r,
          r.same (is_node (q.cells 1)),
        ) in
        let behind = All-weight (Before x) (q.cells 1) xs r.ordered.0 listed in
        let (i, pos, le, found) =
          sum_to-found (is_node x) q.size q.cells
            (omega (arith, is_node_self x, r.same (is_node x))) in
        let same : x ≡ q.cells i = is_node-eq x (q.cells i) found in
        absurd (lt_not_le x (q.cells 1) behind (rw same (least i pos le)))
  ]

-- `nextQueueTime` is the forward time of the packet that came first.
pub next_queue_time-Represents :
    (q : Queue) (x : QueueNode) (xs : List QueueNode)
    → Represents q (x ∷ xs)
    → next_queue_time q ≡ ok x.forward_time
unfolding next_queue_time
next_queue_time-Represents q x xs r =
    let busy : 0 < q.size = omega (arith, size-represented q (x ∷ xs) r) in
    let here = present q r.valid busy in
    let oldest =
      root-oldest q x xs r (λ i p h. root_least q.size q.cells i (r.valid.heap here) p h) in
    rw (here, load-ok q.max_size q.cells 1 (omega (arith, r.valid.room here)), oldest)

-- In FIFO mode `dequeue` returns the packet that came first of those that wait, and the list loses it.
pub dequeue-Represents :
    (q : Queue) (x : QueueNode) (xs : List QueueNode)
    → Represents q (x ∷ xs)
    → Returns
        (λ (out, q'). (out ≡ x.packet) × (out ≢ none) × Represents q' xs × Removed q q')
        (dequeue q)
dequeue-Represents q x xs r =
    Returns-weaken (dequeue_least q r.valid (omega (arith, size-represented q (x ∷ xs) r)))
      λ (out, q') d.
        let oldest = root-oldest q x xs r d.least in
        (
          d.packet ∙ ap (λ (n : QueueNode). n.packet) oldest,
          d.real,
          record {
            valid = d.removed.valid;
            mode = ground (arith, d.removed.fifoness, r.mode);
            same = λ w. omega (arith, d.removed.contents w, r.same w, ap w oldest);
            ordered = r.ordered.1;
            stamped =
                All-map xs (λ n h. ground (arith, d.removed.max_forward_time, d.removed.counter))
                  r.stamped.1;
          },
          d.removed,
        )

-- The same with the packet named.
pub dequeue-oldest :
    (q : Queue) (x : QueueNode) (xs : List QueueNode)
    → Represents q (x ∷ xs)
    → (p : Packet) × (q' : Queue) × (dequeue q ≡ ok (some p, q'))
      × (x.packet ≡ some p)
      × Represents q' xs
      × (q'.max_size ≡ q.max_size)
dequeue-oldest q x xs r =
    let ((out, q'), e, (first, real, r', d)) = Returns-value (dequeue-Represents q x xs r) in
    elim (Option-cases out) [
      | inl missing ↦ absurd (real missing)
      | inr (p, is_p) ↦ (p, q', e ∙ ap (λ o. ok (o, q')) is_p, sym first ∙ is_p, r', d.max_size)
    ]
