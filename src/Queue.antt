-- ===== src/Queue.antt =====
-- includes/wf_queue.c and includes/wf_queue.h: the packet queue, a binary heap ordered by the time at
-- which a packet has to be forwarded, and by a counter that keeps packets of one time in order.
pub mod Order
pub mod Heap
pub mod Rise
pub mod Sink
pub mod Inv
pub mod Enqueue
pub mod Dequeue
pub mod Fifo
pub mod Session
mod Tests
use Prim.Native.Nat.{Ordering}
use vdeplug_wirefilter.Base.{
  ℕ, zero, suc, ◌+◌, ◌*◌, ◌/◌, ◌%◌, Bool, true, false, ◌&&◌, ◌||◌, Option, none, some, ltb, leb,
  ◌==◌, if◌then◌else◌, write, Run, ok, exited, fault, null_pointer, out_of_bounds, out_of_fuel,
  ◌>>=◌, u32_mod, add32, sub32, ◌-◌, ◌^◌,
}
use vdeplug_wirefilter.Packet.{Direction, Packet, PerDirection, at, put, both}

abbrev pub queue_chunk : ℕ
queue_chunk = 100

abbrev pub no_fifo : ℕ
no_fifo = 0

abbrev pub fifo : ℕ
fifo = 1

-- `struct queuenode_t`; only the sentinel has no packet.
pub record QueueNode : Type 0 where
  pub packet : Option Packet
  pub forward_time : ℕ
  pub counter : ℕ

-- The `queue` member of `struct vde_wirefilter_conn`. `cells` is the memory of the array `queue`, of
-- which the entries below `max_size` are allocated; `allocated` says that the pointer is not NULL.
pub record Queue : Type 0 where
  pub cells : ℕ → QueueNode
  pub allocated : Bool
  pub size : ℕ
  pub max_size : ℕ
  pub byte_size : PerDirection ℕ
  pub timerfd : ℕ
  pub fifoness : ℕ
  pub max_forward_time : ℕ
  pub counter : ℕ

-- Which of the allocations of one call of `enqueue` succeed.
pub record Allocations : Type 0 where
  pub node : Bool
  pub array : Bool
  pub sentinel : Bool

abbrev pub all_granted : Allocations
all_granted = record { node = true; array = true; sentinel = true }

abbrev pub sentinel_node : QueueNode
sentinel_node = record { packet = none; forward_time = 0; counter = 0 }

-- What `initQueue` writes; the memory that it does not own is left open.
abbrev pub fresh_queue : (ℕ → QueueNode) → ℕ → ℕ → Queue
fresh_queue memory fifoness timerfd = record {
  cells = memory;
  allocated = false;
  size = 0;
  max_size = 0;
  byte_size = both 0;
  timerfd = timerfd;
  fifoness = fifoness;
  max_forward_time = 0;
  counter = 0;
}

-- `none` is the error return -1, when the timer could not be created.
unfoldable pub init_queue : (ℕ → QueueNode) → ℕ → Option ℕ → Option Queue
init_queue memory fifoness none = none
init_queue memory fifoness (some timerfd) = some (fresh_queue memory fifoness timerfd)

unfoldable pub resize_queue : Allocations → Queue → ℕ → Run Queue
resize_queue given q new_size =
    if given.array
    then if q.allocated
      then ok (record q { max_size = new_size })
      else if ltb 0 new_size
      then if given.sentinel
        then ok (record q {
          cells = write q.cells 0 sentinel_node;
          allocated = true;
          max_size = new_size;
        })
        else exited 1
      else ok (record q { allocated = true; max_size = new_size })
    else exited 1

-- `lt`, `eq` and `gt` stand for the results -1, 0 and 1.
unfoldable pub compare_node : QueueNode → QueueNode → Ordering
compare_node a b =
    if a.forward_time == b.forward_time && a.counter == b.counter
    then Ordering.eq
    else if ltb a.forward_time b.forward_time
        || (a.forward_time == b.forward_time && ltb a.counter b.counter)
    then Ordering.lt
    else Ordering.gt

abbrev pub is_lt : Ordering → Bool
is_lt Ordering.lt = true
is_lt _ = false

abbrev pub is_gt : Ordering → Bool
is_gt Ordering.gt = true
is_gt _ = false

-- `queue[i]`, read and written.
abbrev pub load : ℕ → (ℕ → QueueNode) → ℕ → Run QueueNode
load max_size c i = if ltb i max_size then ok (c i) else fault out_of_bounds

abbrev pub store : ℕ → (ℕ → QueueNode) → ℕ → QueueNode → Run (ℕ → QueueNode)
store max_size c i n = if ltb i max_size then ok (write c i n) else fault out_of_bounds

-- The handling of fifoness in `enqueue`: the queue, and the forward time of the new node.
unfoldable pub stamp : Queue → ℕ → Queue × ℕ
stamp q forward_time =
    if q.fifoness == fifo
    then if ltb q.max_forward_time forward_time
      then (record q { max_forward_time = forward_time; counter = 0 }, forward_time)
      else (record q { counter = add32 q.counter 1 }, q.max_forward_time)
    else (q, forward_time)

-- The `while` of `enqueue`, and the write behind it.
unfoldable pub rise : ℕ → ℕ → (ℕ → QueueNode) → QueueNode → ℕ → Run (ℕ → QueueNode)
rise zero max_size c new k = out_of_fuel
rise (suc f) max_size c new k =
    let up =
      λ (parent : QueueNode). store max_size c k parent >>= λ c'. rise f max_size c' new (k / 2) in
    load max_size c (k / 2) >>= λ parent.
    if is_lt (compare_node new parent) then up parent else store max_size c k new

-- The queue with room for one more node, as far as `enqueue` provides it.
unfoldable pub grow : Allocations → Queue → Run Queue
unfolding resize_queue
grow given q =
    if leb q.max_size q.size then resize_queue given q (add32 q.max_size queue_chunk) else ok q

-- The new node is counted, and put into the heap.
unfoldable pub insert_node : Queue → Packet → QueueNode → Run Queue
unfolding rise
insert_node q packet new =
    let size = add32 q.size 1 in
    let bytes = add32 (at packet.direction q.byte_size) packet.len in
    rise (size + 1) q.max_size q.cells new size >>= λ c.
    ok (record q { cells = c; size = size; byte_size = put packet.direction bytes q.byte_size })

-- The rest of `enqueue` for a node that has its forward time.
unfoldable pub enqueue_stamped : Allocations → Queue × ℕ → Packet → Run Queue
unfolding grow insert_node
enqueue_stamped given (q, time) packet = do
  q' ← grow given q
  insert_node q' packet (record { packet = some packet; forward_time = time; counter = q.counter })

unfoldable pub enqueue : Allocations → Queue → Packet → ℕ → Run Queue
unfolding stamp enqueue_stamped
enqueue given q packet forward_time =
    if given.node then enqueue_stamped given (stamp q forward_time) packet else exited 1

-- The smaller child of `k`: the index `j` of the loop of `dequeue`.
unfoldable pub min_child : ℕ → ℕ → (ℕ → QueueNode) → ℕ → Run ℕ
min_child max_size size c k =
    let j = 2 * k % u32_mod in
    if ltb j size
    then (do
      left ← load max_size c j
      right ← load max_size c (j + 1)
      ok (if is_gt (compare_node left right) then j + 1 else j))
    else ok j

-- The `while` of `dequeue`, and the write behind it; `size` is the size after the removal.
unfoldable pub sink : ℕ → ℕ → ℕ → (ℕ → QueueNode) → QueueNode → ℕ → Run (ℕ → QueueNode)
unfolding min_child
sink zero max_size size c old k = out_of_fuel
sink (suc f) max_size size c old k =
    let down = λ (child : QueueNode) (j : ℕ).
      store max_size c k child >>= λ c'. sink f max_size size c' old j in
    let settle = store max_size c k old in
    if leb k (size / 2)
    then (do
      j ← min_child max_size size c k
      child ← load max_size c j
      if is_lt (compare_node old child) then settle else down child j)
    else settle

unfoldable pub take_out : Queue → Packet → Run Queue
unfolding sink
take_out q out =
    let size = q.size - 1 in
    let bytes = sub32 (at out.direction q.byte_size) out.len in
    load q.max_size q.cells (size + 1) >>= λ old.
    sink (size + 1) q.max_size size q.cells old 1 >>= λ c.
    ok (record q { cells = c; size = size; byte_size = put out.direction bytes q.byte_size })

-- `none` is the NULL that an empty queue gives.
unfoldable pub dequeue : Queue → Run (Option Packet × Queue)
unfolding take_out
dequeue q =
    if q.size == 0
    then ok (none, q)
    else load q.max_size q.cells 1 >>= λ root. elim root.packet [
      | none ↦ fault null_pointer
      | some out ↦ take_out q out >>= λ q'. ok (some out, q')
    ]

unfoldable pub next_queue_time : Queue → Run ℕ
next_queue_time q =
    if q.allocated
    then (do root ← load q.max_size q.cells 1; ok root.forward_time)
    else fault null_pointer

-- The delay that `setQueueTimer` programs: an `int64_t` that is at least 1.
unfoldable pub queue_timer_delay : ℕ → ℕ → ℕ
queue_timer_delay next now =
    let step = (next + 2 ^ 64 - now % 2 ^ 64) % 2 ^ 64 in
    if ltb 0 step && ltb step (2 ^ 63) then step else 1
