-- ===== src/Queue/Enqueue.antt =====
-- `enqueue`: it adds one node, keeps the queue valid, and overruns the array when the queue has just
-- one entry left.
use native.Mathlib.Numerals.{add-one}
use vdeplug_wirefilter.Base.{
  ℕ, suc, ◌+◌, ◌%◌, ◌<◌, ◌≡◌, ◌≢◌, true, false, some, refl, arith, leb, ltb, write, sum_to,
  sum_to-suc, sum_to-zero, sum_to-write_bottom, sum_to-write_above, ok, fault, out_of_bounds,
  Returns, returns, Returns-bind, Returns-weaken, u32_mod, add32, Bool-cases, inl, inr,
  if◌then◌else◌, ◌==◌, ◌∙◌, ap,
}
use vdeplug_wirefilter.Packet.{at-put, same_direction, Direction, Packet, at}
use vdeplug_wirefilter.Queue.{
  QueueNode, Queue, sentinel_node, all_granted, queue_chunk, resize_queue, grow, insert_node, stamp,
  enqueue_stamped, enqueue, fifo, rise,
}
use vdeplug_wirefilter.Queue.Heap.{IsHeap, Weighs}
use vdeplug_wirefilter.Queue.Inv.{IsValid, lacks_packet, node_bytes, waiting_bytes}
use vdeplug_wirefilter.Queue.Rise.{RiseInv, rise_restores}

-- The queue has room for one more node: it is what `grow` ensures unless one entry is left.
pub record IsRoomy (q : Queue) : Type 0 where
  pub present : q.allocated ≡ true
  pub heap : IsHeap q.size q.cells
  pub room : q.size + 1 < q.max_size
  pub word : q.max_size < u32_mod
  pub packets : sum_to lacks_packet q.size q.cells ≡ 0
  pub bytes : (d : Direction) → at d q.byte_size ≡ waiting_bytes d q % u32_mod

-- `q'` is `q` with one more node; the fields that `enqueue` does not insert into are the same.
pub record Inserted (q : Queue) (new : QueueNode) (q' : Queue) : Type 0 where
  pub valid : IsValid q'
  pub size : q'.size ≡ q.size + 1
  pub max_size : q'.max_size ≡ q.max_size
  pub contents : (w : QueueNode → ℕ) → sum_to w q'.size q'.cells ≡ sum_to w q.size q.cells + w new
  pub fifoness : q'.fifoness ≡ q.fifoness
  pub max_forward_time : q'.max_forward_time ≡ q.max_forward_time
  pub counter : q'.counter ≡ q.counter

module _ (q : Queue) (packet : Packet) (new : QueueNode) (r : IsRoomy q)
    (e : new.packet ≡ some packet) where
  start : RiseInv (q.size + 1) q.cells new (q.size + 1)
  start = record {
    bottom = r.heap.bottom;
    positive = omega arith;
    inside = omega arith;
    edges = λ i p h n t. r.heap.edges i p (omega arith);
    bridged = λ i p h t. absurd (omega arith);
    below = λ i p h t. absurd (omega arith);
  }

  start-Weighs :
      Weighs (q.size + 1) (write q.cells (q.size + 1) new) (λ w. sum_to w q.size q.cells + w new)
  start-Weighs w = rw (add-one q.size) (
      ground (
        arith,
        sum_to-suc w q.size (write q.cells (suc q.size) new),
        sum_to-write_above w q.size q.cells (suc q.size) new,
      ))

  pub insert_node_lem : Returns (Inserted q new) (insert_node q packet new)
  unfolding insert_node
  insert_node_lem =
      let size : add32 q.size 1 ≡ q.size + 1 = omega (arith, r.room, r.word) in
      rw size (
        Returns-bind
          (rise_restores (q.size + 1 + 1) q.max_size (q.size + 1) q.cells new (q.size + 1) _
            (omega arith) r.room start start-Weighs)
          λ c h. returns (record {
            valid = record {
              heap = λ a. h.0;
              room = λ a. r.room;
              empty = λ a. absurd (ground (arith, r.present));
              word = r.word;
              packets = omega (arith, h.1 lacks_packet, r.packets, has);
              bytes = λ d. ground (
                arith,
                h.1 (node_bytes d),
                r.bytes d,
                at-put d packet.direction (add32 (at packet.direction q.byte_size) packet.len)
                    q.byte_size,
                counted d,
              );
            };
            size = refl;
            max_size = refl;
            contents = h.1;
            fifoness = refl;
            max_forward_time = refl;
            counter = refl;
          }))
    where
      has : lacks_packet new ≡ 0
      has = rw e

      counted :
          (d : Direction)
          → node_bytes d new ≡ (if same_direction d packet.direction then packet.len else 0)
      counted d = rw e

-- The entries of the array, which the first call allocates.
abbrev pub grown_size : ℕ → ℕ
grown_size n = if n == 0 then queue_chunk else n

-- `q'` holds the nodes of `q` with room for one more.
record Grown (q q' : Queue) : Type 0 where
  roomy : IsRoomy q'
  size : q'.size ≡ q.size
  max_size : q'.max_size ≡ grown_size q.max_size
  contents : (w : QueueNode → ℕ) → sum_to w q'.size q'.cells ≡ sum_to w q.size q.cells
  fifoness : q'.fifoness ≡ q.fifoness
  max_forward_time : q'.max_forward_time ≡ q.max_forward_time
  counter : q'.counter ≡ q.counter

-- The queue can take a node: not exactly one entry of the array is left.
abbrev pub CanTake : Queue → Type 0
CanTake q = q.size + 1 ≢ q.max_size

grow_lem : (q : Queue) → IsValid q → CanTake q → Returns (Grown q) (grow all_granted q)
unfolding grow resize_queue
grow_lem q v can = elim (Bool-cases q.allocated) [
  | inl e ↦
      let room = v.room e in
      let fits : leb q.max_size q.size ≡ false = ground arith in
      rw fits (
        returns (record {
          roomy = record {
            present = e;
            heap = v.heap e;
            room = omega arith;
            word = v.word;
            packets = v.packets;
            bytes = v.bytes;
          };
          size = refl;
          max_size = ground arith;
          contents = λ w. refl;
          fifoness = refl;
          max_forward_time = refl;
          counter = refl;
        }))
  | inr e ↦
      let (none_waiting, no_room) = v.empty e in
      rw (none_waiting, no_room, e)
        (returns (record {
          roomy = record {
            present = refl;
            heap = record { bottom = refl; edges = λ i p h. absurd (omega arith) };
            room = omega arith;
            word = omega arith;
            packets = sum_to-zero _ _;
            bytes = λ d. ground (
              arith,
              v.bytes d,
              sum_to-zero (node_bytes d) q.cells,
              sum_to-zero (node_bytes d) (write q.cells 0 sentinel_node),
            );
          };
          size = refl;
          max_size = refl;
          contents = λ w. sum_to-write_bottom w 0 q.cells sentinel_node;
          fifoness = refl;
          max_forward_time = refl;
          counter = refl;
        }))
]

-- The node that `enqueue` makes of a packet.
abbrev pub stamped_node : Queue → Packet → ℕ → QueueNode
stamped_node q packet t = record {
  packet = some packet;
  forward_time = (stamp q t).1;
  counter = (stamp q t).0.counter;
}

-- What a successful `enqueue` does: one node more, all other nodes as before.
pub record Enqueued (q : Queue) (packet : Packet) (t : ℕ) (q' : Queue) : Type 0 where
  pub valid : IsValid q'
  pub size : q'.size ≡ q.size + 1
  pub max_size : q'.max_size ≡ grown_size q.max_size
  pub contents :
      (w : QueueNode → ℕ)
      → sum_to w q'.size q'.cells ≡ sum_to w q.size q.cells + w (stamped_node q packet t)
  pub fifoness : q'.fifoness ≡ q.fifoness
  pub max_forward_time : q'.max_forward_time ≡ (stamp q t).0.max_forward_time
  pub counter : q'.counter ≡ (stamp q t).0.counter

-- The fifoness fields have no part in the heap.
IsValid-relabel :
    (q : Queue) (m k : ℕ) → IsValid q → IsValid (record q { max_forward_time = m; counter = k })
IsValid-relabel q m k v = record {
  heap = v.heap;
  room = v.room;
  empty = v.empty;
  word = v.word;
  packets = v.packets;
  bytes = v.bytes;
}

-- `stamp` touches nothing that the heap depends on.
record SameHeap (q q' : Queue) : Type 0 where
  valid : IsValid q → IsValid q'
  size : q'.size ≡ q.size
  max_size : q'.max_size ≡ q.max_size
  allocated : q'.allocated ≡ q.allocated
  contents : (w : QueueNode → ℕ) → sum_to w q'.size q'.cells ≡ sum_to w q.size q.cells
  fifoness : q'.fifoness ≡ q.fifoness

relabel-SameHeap :
    (q : Queue) (m k : ℕ) → SameHeap q (record q { max_forward_time = m; counter = k })
relabel-SameHeap q m k = record {
  valid = IsValid-relabel q m k;
  size = refl;
  max_size = refl;
  allocated = refl;
  contents = λ w. refl;
  fifoness = refl;
}

stamp-SameHeap : (q : Queue) (t : ℕ) → SameHeap q (stamp q t).0
unfolding stamp
stamp-SameHeap q t = elim (Bool-cases (q.fifoness == fifo)) [
  | inl e ↦ elim (Bool-cases (ltb q.max_forward_time t)) [
    | inl l ↦ rw (e, l) (relabel-SameHeap q t 0)
    | inr l ↦ rw (e, l) (relabel-SameHeap q q.max_forward_time (add32 q.counter 1))
  ]
  | inr e ↦ rw e (relabel-SameHeap q q.max_forward_time q.counter)
]

-- `enqueue` on a valid queue with all memory granted returns a valid queue with just the one node
-- added, unless exactly one entry of the array is left.
pub enqueue_adds :
    (q : Queue) (packet : Packet) (t : ℕ)
    → IsValid q
    → CanTake q
    → Returns (Enqueued q packet t) (enqueue all_granted q packet t)
unfolding enqueue enqueue_stamped
enqueue_adds q packet t v can =
    let same = stamp-SameHeap q t in
    Returns-bind
      (grow_lem (stamp q t).0 (same.valid v) (λ e. can (omega (arith, same.size, same.max_size))))
      λ q' g.
        Returns-weaken (insert_node_lem q' packet (stamped_node q packet t) g.roomy refl) λ q'' i.
          record {
            valid = i.valid;
            size = omega (arith, i.size, g.size, same.size);
            max_size = i.max_size ∙ g.max_size ∙ ap grown_size same.max_size;
            contents = λ w. omega (arith, i.contents w, g.contents w, same.contents w);
            fifoness = i.fifoness ∙ g.fifoness ∙ same.fifoness;
            max_forward_time = i.max_forward_time ∙ g.max_forward_time;
            counter = i.counter ∙ g.counter;
          }

rise_overruns :
    (f max_size k : ℕ) (c : ℕ → QueueNode) (new : QueueNode)
    → k ≡ max_size
    → 0 < k
    → rise (suc f) max_size c new k ≡ fault out_of_bounds
unfolding rise
rise_overruns f max_size k c new e h = ground arith

insert_node_overruns :
    (q : Queue) (packet : Packet) (new : QueueNode)
    → q.size + 1 ≡ q.max_size
    → q.max_size < u32_mod
    → insert_node q packet new ≡ fault out_of_bounds
unfolding insert_node
insert_node_overruns q packet new last word =
    let size : add32 q.size 1 ≡ q.size + 1 = omega arith in
    rw (
      size,
      add-one (q.size + 1),
      rise_overruns (q.size + 1) q.max_size (q.size + 1) q.cells new last (omega arith),
    )

grow_idle : (q : Queue) → q.size + 1 ≡ q.max_size → grow all_granted q ≡ ok q
unfolding grow
grow_idle q last = ground arith

-- With exactly one entry of the array of a valid queue left, `enqueue` writes past the end of the array:
-- the new size is the index of the new node, and the array has entries 0, ..., max_size - 1 only.
pub enqueue_overruns :
    (q : Queue) (packet : Packet) (t : ℕ)
    → IsValid q
    → q.size + 1 ≡ q.max_size
    → enqueue all_granted q packet t ≡ fault out_of_bounds
unfolding enqueue enqueue_stamped
enqueue_overruns q packet t v last =
    let same = stamp-SameHeap q t in
    let full : (stamp q t).0.size + 1 ≡ (stamp q t).0.max_size =
      omega (arith, same.size, same.max_size) in
    rw (grow_idle (stamp q t).0 full) (
      insert_node_overruns (stamp q t).0 packet (stamped_node q packet t) full
        (omega (arith, same.max_size, v.word)))
