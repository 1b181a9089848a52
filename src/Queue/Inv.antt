-- ===== src/Queue/Inv.antt =====
-- What holds of the packet queue between the calls of wf_queue.c.
use vdeplug_wirefilter.Base.{
  ℕ, ◌%◌, ◌<◌, ◌≡◌, true, false, Option, none, some, refl, arith, if◌then◌else◌, sum_to,
  sum_to-zero, u32_mod,
}
use vdeplug_wirefilter.Packet.{Direction, Packet, at, same_direction}
use vdeplug_wirefilter.Queue.{QueueNode, Queue, fresh_queue}
use vdeplug_wirefilter.Queue.Heap.{IsHeap}

abbrev pub lacking : Option Packet → ℕ
lacking none = 1
lacking (some p) = 0

abbrev pub lacks_packet : QueueNode → ℕ
lacks_packet n = lacking n.packet

-- The bytes that a node holds for a direction.
abbrev pub packet_bytes : Direction → Option Packet → ℕ
packet_bytes d none = 0
packet_bytes d (some p) = if same_direction d p.direction then p.len else 0

abbrev pub node_bytes : Direction → QueueNode → ℕ
node_bytes d n = packet_bytes d n.packet

-- The bytes that wait in a direction.
abbrev pub waiting_bytes : Direction → Queue → ℕ
waiting_bytes d q = sum_to (node_bytes d) q.size q.cells

pub record IsValid (q : Queue) : Type 0 where
  pub heap : q.allocated ≡ true → IsHeap q.size q.cells
  pub room : q.allocated ≡ true → q.size < q.max_size
  pub empty : q.allocated ≡ false → (q.size ≡ 0) × (q.max_size ≡ 0)
  pub word : q.max_size < u32_mod
  pub packets : sum_to lacks_packet q.size q.cells ≡ 0
  pub bytes : (d : Direction) → at d q.byte_size ≡ waiting_bytes d q % u32_mod

-- A new queue is valid.
pub fresh_queue-IsValid :
    (memory : ℕ → QueueNode) (fifoness timerfd : ℕ) → IsValid (fresh_queue memory fifoness timerfd)
fresh_queue-IsValid memory fifoness timerfd = record {
  heap = λ e. cc;
  room = λ e. cc;
  empty = λ e. (refl, refl);
  word = omega arith;
  packets = sum_to-zero lacks_packet memory;
  bytes = λ d. ground (arith, sum_to-zero (node_bytes d) memory);
}
