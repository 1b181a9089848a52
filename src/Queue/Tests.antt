-- ===== src/Queue/Tests.antt =====
-- Runs of the packet queue, and each theorem at an input where its hypotheses hold.
use vdeplug_wirefilter.Base.{
  ℕ, ◌≡◌, inr, true, none, some, refl, arith, List, [], ◌∷◌, ok, fault, sum_to, write,
  out_of_bounds, Returns,
}
use vdeplug_wirefilter.Packet.{left_to_right, right_to_left, Packet}
use vdeplug_wirefilter.Queue.{
  QueueNode, Queue, sentinel_node, fresh_queue, fifo, no_fifo, all_granted, enqueue, dequeue,
  compare_node,
}
use vdeplug_wirefilter.Queue.Dequeue.{Dequeued, dequeue_least}
use vdeplug_wirefilter.Queue.Enqueue.{stamped_node, Enqueued, enqueue_adds, enqueue_overruns}
use vdeplug_wirefilter.Queue.Fifo.{Represents, enqueue-Represents}
use vdeplug_wirefilter.Queue.Heap.{IsHeap}
use vdeplug_wirefilter.Queue.Order.{node_le_refl, sentinel-least}
use vdeplug_wirefilter.Queue.Inv.{IsValid, fresh_queue-IsValid}
use vdeplug_wirefilter.Queue.Session.{put, get, Call, run, run-fifo}

abbrev packet : ℕ → Packet
packet n = record { buf = n ∷ []; len = 1; flags = 0; direction = left_to_right }

abbrev memory : ℕ → QueueNode
memory _ = sentinel_node

-- The second packet wants to leave before the first.
abbrev calls : List Call
calls = put (packet 1) 50 ∷ put (packet 2) 20 ∷ put (packet 3) 70 ∷ get ∷ get ∷ get ∷ get ∷ []

run-calls :
    run (fresh_queue memory fifo 3) calls
    ≡ ok (some (packet 1) ∷ some (packet 2) ∷ some (packet 3) ∷ none ∷ [])
unfolding run enqueue dequeue compare_node
run-calls = refl

-- Without FIFO mode packets leave by their forward times.
run-no_fifo :
    run (fresh_queue memory no_fifo 3) calls
    ≡ ok (some (packet 2) ∷ some (packet 1) ∷ some (packet 3) ∷ none ∷ [])
unfolding run enqueue dequeue compare_node
run-no_fifo = refl

run-fifo_example :
    run (fresh_queue memory fifo 3) calls
    ≡ ok (some (packet 1) ∷ some (packet 2) ∷ some (packet 3) ∷ none ∷ [])
run-fifo_example = run-fifo calls memory 3 (omega arith) (omega arith)

enqueue_adds_example :
    Returns
      (Enqueued (fresh_queue memory fifo 3) (packet 1) 50)
      (enqueue all_granted (fresh_queue memory fifo 3) (packet 1) 50)
enqueue_adds_example =
    enqueue_adds (fresh_queue memory fifo 3) (packet 1) 50 (fresh_queue-IsValid memory fifo 3)
      (omega arith)

-- 99 waiting packets in an array of 100 entries.
abbrev waiting : QueueNode
waiting = record { packet = some (packet 7); forward_time = 5; counter = 0 }

abbrev nearly_full : Queue
nearly_full = record {
  cells = write (λ _. waiting) 0 sentinel_node;
  allocated = true;
  size = 99;
  max_size = 100;
  byte_size = record { lr = 99; rl = 0 };
  timerfd = 3;
  fifoness = fifo;
  max_forward_time = 5;
  counter = 98;
}

nearly_full-IsHeap : IsHeap 99 (write (λ _. waiting) 0 sentinel_node)
nearly_full-IsHeap = record {
  bottom = refl;
  edges = λ i p h. ground (arith, sentinel-least waiting, node_le_refl waiting);
}

nearly_full-IsValid : IsValid nearly_full
unfolding sum_to
nearly_full-IsValid = record {
  heap = λ _. nearly_full-IsHeap;
  room = λ _. omega arith;
  empty = λ e. cc;
  word = omega arith;
  packets = refl;
  bytes = elim [ left_to_right ↦ refl | right_to_left ↦ refl ];
}

enqueue_overruns_example : enqueue all_granted nearly_full (packet 1) 9 ≡ fault out_of_bounds
enqueue_overruns_example = enqueue_overruns nearly_full (packet 1) 9 nearly_full-IsValid refl

dequeue_least_example : Returns (Dequeued nearly_full) (dequeue nearly_full)
dequeue_least_example = dequeue_least nearly_full nearly_full-IsValid (omega arith)

-- A queue in FIFO mode in which one packet waits.
abbrev one_packet : Queue
one_packet = record {
  cells = write memory 1 waiting;
  allocated = true;
  size = 1;
  max_size = 100;
  byte_size = record { lr = 1; rl = 0 };
  timerfd = 3;
  fifoness = fifo;
  max_forward_time = 5;
  counter = 0;
}

one_packet-IsHeap : IsHeap 1 (write memory 1 waiting)
one_packet-IsHeap = record {
  bottom = refl;
  edges = λ i p h. ground (arith, sentinel-least waiting);
}

one_packet-Represents : Represents one_packet (waiting ∷ [])
unfolding sum_to
one_packet-Represents = record {
  valid = record {
    heap = λ _. one_packet-IsHeap;
    room = λ _. omega arith;
    empty = λ e. cc;
    word = omega arith;
    packets = refl;
    bytes = elim [ left_to_right ↦ refl | right_to_left ↦ refl ];
  };
  mode = refl;
  same = λ w. omega arith;
  ordered = (tt, tt);
  stamped = (inr (refl, omega arith), tt);
}

enqueue-Represents_example :
    Returns
      (λ q'.
        Represents q' (waiting ∷ stamped_node one_packet (packet 2) 3 ∷ [])
        × Enqueued one_packet (packet 2) 3 q')
      (enqueue all_granted one_packet (packet 2) 3)
enqueue-Represents_example =
    enqueue-Represents one_packet (waiting ∷ []) (packet 2) 3 one_packet-Represents (omega arith)
      (omega arith)
