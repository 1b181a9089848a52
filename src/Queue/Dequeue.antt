-- ===== src/Queue/Dequeue.antt =====
-- `dequeue`: it takes out the root, before which no node comes, and keeps the queue valid.
use vdeplug_wirefilter.Base.{
  ℕ, suc, ◌+◌, ◌-◌, ◌≤◌, ◌<◌, ◌≡◌, ◌≢◌, true, false, Option, some, none, refl, arith, write, sum_to,
  sum_to-suc, sum_to-zero, sum_to-write, le-sum_to, ok, Returns, returns, Returns-bind, sub32,
  Bool-cases, Option-cases, inl, inr, if◌then◌else◌, ◌==◌, zero, ap, sym,
}
use vdeplug_wirefilter.Packet.{Direction, Packet, at, at-put, same_direction}
use vdeplug_wirefilter.Queue.{QueueNode, Queue, take_out, dequeue}
use vdeplug_wirefilter.Queue.Heap.{load-ok, root_least}
use vdeplug_wirefilter.Queue.Inv.{IsValid, lacks_packet, node_bytes}
use vdeplug_wirefilter.Queue.Order.{node_le, sentinel-least}
use vdeplug_wirefilter.Queue.Sink.{SinkInv, sink_restores}

-- `q'` is `q` without its root.
pub record Removed (q : Queue) (q' : Queue) : Type 0 where
  pub valid : IsValid q'
  pub size : q'.size + 1 ≡ q.size
  pub contents :
      (w : QueueNode → ℕ) → sum_to w q'.size q'.cells + w (q.cells 1) ≡ sum_to w q.size q.cells
  pub max_size : q'.max_size ≡ q.max_size
  pub fifoness : q'.fifoness ≡ q.fifoness
  pub max_forward_time : q'.max_forward_time ≡ q.max_forward_time
  pub counter : q'.counter ≡ q.counter

-- Putting the last of suc n entries in the place of the first takes the first one away.
sum_to-shrink :
    (w : QueueNode → ℕ) (n : ℕ) (c : ℕ → QueueNode)
    → sum_to w n (write c 1 (c (suc n))) + w (c 1) ≡ sum_to w (suc n) c
sum_to-shrink w zero c =
    omega (arith, sum_to-zero w c, sum_to-zero w (write c 1 (c 1)), sum_to-suc w 0 c)
sum_to-shrink w (suc n) c = omega (
  arith,
  sum_to-suc w (suc n) c,
  sum_to-write w (suc n) c 1 (c (suc (suc n))) (omega arith) (omega arith),
)

module _ (q : Queue) (v : IsValid q) (some_left : 0 < q.size) where
  pub present : q.allocated ≡ true
  present = elim (Bool-cases q.allocated) [
    | inl e ↦ e
    | inr e ↦ absurd (omega (arith, (v.empty e).0))
  ]

  -- All but the root weighs as much as the entries with the last node in the root's place.
  without_root : (w : QueueNode → ℕ) → ℕ
  without_root w = sum_to w (q.size - 1) (write q.cells 1 (q.cells q.size))

  without_root_lem : (w : QueueNode → ℕ) → without_root w + w (q.cells 1) ≡ sum_to w q.size q.cells
  unfolding without_root
  without_root_lem w =
      let pred : q.size ≡ suc (q.size - 1) = omega arith in
      ground (
        arith,
        sum_to-shrink w (q.size - 1) q.cells,
        ap (λ k. sum_to w k q.cells) pred,
        ap q.cells pred,
      )

  start : SinkInv (q.size - 1) q.cells (q.cells q.size) 1
  start = record {
    bottom = (v.heap present).bottom;
    positive = omega arith;
    edges = λ i p h n t. (v.heap present).edges i p (omega arith);
    bridged = λ i p h t. ground (arith, (v.heap present).bottom, sentinel-least (q.cells i));
    above = ground (arith, (v.heap present).bottom, sentinel-least (q.cells q.size));
  }

  root_packet : (out : Packet) × ((q.cells 1).packet ≡ some out)
  root_packet = elim (Option-cases (q.cells 1).packet) [
    | inl e ↦
        let lacks : lacks_packet (q.cells 1) ≡ 1 = rw e in
        absurd (
          omega (
            arith,
            lacks,
            v.packets,
            le-sum_to lacks_packet q.size q.cells 1 (omega arith) some_left,
          ))
    | inr o ↦ o
  ]

  take_out_lem :
      (out : Packet) → (q.cells 1).packet ≡ some out → Returns (Removed q) (take_out q out)
  unfolding take_out without_root
  take_out_lem out e =
      let last : q.size - 1 + 1 ≡ q.size = omega arith in
      rw (last, load-ok q.max_size q.cells q.size (v.room present))
        (Returns-bind
          (sink_restores q.size q.max_size (q.size - 1) q.cells (q.cells q.size) 1 without_root
            (omega arith) (omega arith) (omega (arith, v.room present))
            (omega (arith, v.room present)) v.word start (λ w. refl))
          λ c h. returns (record {
            valid = record {
              heap = λ a. h.0;
              room = λ a. omega (arith, v.room present);
              empty = λ a. absurd (ground (arith, present));
              word = v.word;
              packets = omega (arith, h.1 lacks_packet, without_root_lem lacks_packet, v.packets);
              bytes = λ d. ground (
                arith,
                h.1 (node_bytes d),
                without_root_lem (node_bytes d),
                v.bytes d,
                at-put d out.direction (sub32 (at out.direction q.byte_size) out.len) q.byte_size,
                counted d,
              );
            };
            size = last;
            contents = λ w. omega (arith, h.1 w, without_root_lem w);
            max_size = refl;
            fifoness = refl;
            max_forward_time = refl;
            counter = refl;
          }))
    where
      counted :
          (d : Direction)
          → node_bytes d (q.cells 1) ≡ (if same_direction d out.direction then out.len else 0)
      counted d = rw e

-- What `dequeue` returns of a queue that is not empty.
pub record Dequeued (q : Queue) (r : Option Packet × Queue) : Type 0 where
  pub packet : r.0 ≡ (q.cells 1).packet
  pub real : r.0 ≢ none
  pub least : (i : ℕ) → 0 < i → i ≤ q.size → node_le (q.cells 1) (q.cells i) ≡ true
  pub removed : Removed q r.1

-- `dequeue` on a valid queue that is not empty returns the packet of a node that no waiting node comes
-- before, and leaves a valid queue of all the other nodes.
pub dequeue_least : (q : Queue) → IsValid q → 0 < q.size → Returns (Dequeued q) (dequeue q)
unfolding dequeue
dequeue_least q v some_left =
    let (out, e) = root_packet q v some_left in
    let busy : (q.size == 0) ≡ false = ground arith in
    rw (busy, load-ok q.max_size q.cells 1 (omega (arith, v.room (present q v some_left))), e)
      (Returns-bind (take_out_lem q v some_left out e) λ q' r. returns (record {
        packet = sym e;
        real = λ x. cc;
        least = λ i p h. root_least q.size q.cells i (v.heap (present q v some_left)) p h;
        removed = r;
      }))

-- An empty queue gives NULL and stays as it is.
pub dequeue-empty : (q : Queue) → q.size ≡ 0 → dequeue q ≡ ok (none, q)
unfolding dequeue
dequeue-empty q e = ground arith
