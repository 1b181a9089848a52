-- ===== src/Loop/Tests.antt =====
-- Runs of the loop, and each theorem on it at an input where its hypotheses hold. Integers stand for
-- doubles.
use vdeplug_wirefilter.Base.{
  ℕ, ◌+◌, ◌≤◌, ◌<◌, ◌≡◌, inl, inr, refl, arith, true, false, List, [], ◌∷◌, ok, Returns, sum_to,
  sum_to-zero, write, some, ◌-◌, ◌%◌,
}
use vdeplug_wirefilter.Base.Int.{ℤ, pos, ◌*ℤ◌, ◌+ℤ◌, quot}
use vdeplug_wirefilter.Conn.Sample.{packet, memory, calm}
use vdeplug_wirefilter.Conn.{Sys}
use vdeplug_wirefilter.Double.Exact.{ℤ_double}
use vdeplug_wirefilter.Loop.InOrder.{
  Act, arrive, fire, perform, Steps, done, step, Follows, perform_lem, Steps-in_order,
}
use vdeplug_wirefilter.Loop.Line.{delivered, Steady, line}
use vdeplug_wirefilter.Loop.{go_on, on_pipe_rl, on_queue_timer, on_markov_timer}
use vdeplug_wirefilter.Loop.Drain.{Drained, on_queue_timer-Drained}
use vdeplug_wirefilter.Loop.Rearm.{Served, on_queue_timer_lem, queue_timer_delay_lem}
use vdeplug_wirefilter.Loop.Pacing.{free_from, held_back, on_pipe_rl-paced}
use vdeplug_wirefilter.Conn.Monad.{◌>>=◌}
use vdeplug_wirefilter.Wire.Handlers.{pace_speed}
use vdeplug_wirefilter.Loop.Step.{moved, armed, on_markov_timer_lem}
use vdeplug_wirefilter.Time.{set_timer, is_armed}
use vdeplug_wirefilter.Markov.Select.{IsChosen}
use vdeplug_wirefilter.Queue.Heap.{IsHeap}
use vdeplug_wirefilter.Queue.Order.{sentinel-least}
use vdeplug_wirefilter.Wire.Forward.{dispatch, enqueue_packet, set_queue_timer, send_packet}
use vdeplug_wirefilter.Packet.{Packet, left_to_right, right_to_left}
use vdeplug_wirefilter.Queue.{
  QueueNode, queue_timer_delay, fresh_queue, fifo, enqueue, dequeue, compare_node,
}
use vdeplug_wirefilter.Queue.Fifo.{Represents}
use vdeplug_wirefilter.Queue.Inv.{fresh_queue-IsValid}

empty-Represents : Represents (fresh_queue memory fifo 3) []
empty-Represents = record {
  valid = fresh_queue-IsValid memory fifo 3;
  mode = refl;
  same = λ w. sum_to-zero w memory;
  ordered = tt;
  stamped = tt;
}

calm-Steady : Steady calm []
calm-Steady = record {
  queue = empty-Represents;
  quiet = refl;
  memory = λ i. refl;
  chunk = inl refl;
}

-- The state after a block that returns.
abbrev result : Sys ℤ → Act ℤ → Sys ℤ
result s act = elim (perform act s) [ ok r ↦ r.1 | other ↦ s ]

-- A packet with a delay of 1.5 s, one without a delay behind it, and the timer after 3 s.
abbrev one_waits : Sys ℤ
one_waits = result calm (arrive (packet 1) (pos 1500))

abbrev two_wait : Sys ℤ
two_wait = result one_waits (arrive (packet 2) (pos 0))

abbrev both_sent : Sys ℤ
both_sent = result two_wait fire

abbrev acts : List (Act ℤ)
acts = arrive (packet 1) (pos 1500) ∷ arrive (packet 2) (pos 0) ∷ fire ∷ []

calm-Steps : Steps calm acts both_sent
unfolding perform dispatch enqueue_packet enqueue set_queue_timer on_queue_timer dequeue
    compare_node send_packet ◌+ℤ◌ ◌*ℤ◌
calm-Steps =
    step calm one_waits both_sent (arrive (packet 1) (pos 1500))
      (arrive (packet 2) (pos 0) ∷ fire ∷ []) (omega arith, omega arith) refl
      (step one_waits two_wait both_sent (arrive (packet 2) (pos 0)) (fire ∷ [])
        (omega arith, omega arith) refl
        (step two_wait both_sent both_sent fire [] (omega arith, omega arith) refl
          (done both_sent)))

delivered_both : delivered both_sent.world.events ≡ packet 1 ∷ packet 2 ∷ []
unfolding perform dispatch enqueue_packet enqueue set_queue_timer on_queue_timer dequeue
    compare_node send_packet ◌+ℤ◌ ◌*ℤ◌
delivered_both = refl

Steps-in_order_example :
    (xs : List QueueNode) × Steady both_sent xs × (line both_sent xs ≡ packet 1 ∷ packet 2 ∷ [])
Steps-in_order_example = Steps-in_order calm both_sent acts [] calm-Steady refl calm-Steps

perform_lem_example :
    Returns
      (λ (_, s'). Follows calm [] (arrive (packet 1) (pos 1500)) s')
      (perform (arrive (packet 1) (pos 1500)) calm)
perform_lem_example =
    perform_lem (arrive (packet 1) (pos 1500)) calm [] calm-Steady refl (omega arith, omega arith)

-- One packet waits, and is due after 2 s.
abbrev node : QueueNode
node = record { packet = some (packet 1); forward_time = 1_500_000_000; counter = 0 }

abbrev busy : Sys ℤ
busy = record calm {
  conn = record calm.conn {
    queue = record {
      cells = write memory 1 node;
      allocated = true;
      size = 1;
      max_size = 100;
      byte_size = record { lr = 1; rl = 0 };
      timerfd = 3;
      fifoness = fifo;
      max_forward_time = 1_500_000_000;
      counter = 0;
    };
  };
  world = record calm.world { ticks = 2 };
}

busy-IsHeap : IsHeap 1 (write memory 1 node)
busy-IsHeap = record { bottom = refl; edges = λ i p h. ground (arith, sentinel-least node) }

busy-Represents : Represents busy.conn.queue (node ∷ [])
unfolding sum_to
busy-Represents = record {
  valid = record {
    heap = λ _. busy-IsHeap;
    room = λ _. omega arith;
    empty = λ e. cc;
    word = omega arith;
    packets = refl;
    bytes = elim [ left_to_right ↦ refl | right_to_left ↦ refl ];
  };
  mode = refl;
  same = λ w. omega arith;
  ordered = (tt, tt);
  stamped = (inr (refl, omega arith), tt);
}

on_queue_timer_lem_example : Returns (λ (_, s'). Served busy (node ∷ []) s') (on_queue_timer busy)
on_queue_timer_lem_example = on_queue_timer_lem busy (node ∷ []) refl refl busy-Represents

on_queue_timer-Drained_example :
    Returns (λ (_, s'). Drained busy (node ∷ []) s') (on_queue_timer busy)
on_queue_timer-Drained_example =
    on_queue_timer-Drained busy (node ∷ []) refl refl busy-Represents (λ k h. omega arith, tt)

queue_timer_delay_lem_example :
    (is_armed (set_timer (queue_timer_delay 1_500 1_000)) ≡ true)
    × (1_000 < 1_500 → queue_timer_delay 1_500 1_000 ≡ 1_500 - 1_000)
    × (1_500 ≤ 1_000 → queue_timer_delay 1_500 1_000 ≡ 1)
queue_timer_delay_lem_example = queue_timer_delay_lem 1_500 1_000 (omega arith) (omega arith)

on_markov_timer_lem_example :
    (k : ℕ) × IsChosen 2 0 (λ _. pos 50) (pos 1 *ℤ pos 100) k
    × ((0 + k) % 2 < 2)
    × (on_markov_timer calm ≡ ok (tt, moved (armed calm) 0 ((0 + k) % 2)))
on_markov_timer_lem_example = on_markov_timer_lem calm 0 refl (omega arith)

-- A packet that takes 3 s at 1 byte in a second.
abbrev slow : Packet
slow = record { buf = 1 ∷ 2 ∷ 3 ∷ []; len = 3; flags = 0; direction = right_to_left }

on_pipe_rl-paced_example :
    ((pace_speed slow (pos 1) >>= λ _. on_pipe_rl (some (7 ∷ 7 ∷ []))) calm
      ≡ ok ((false, go_on), held_back calm slow (pos 1)))
    × (is_armed (set_timer (free_from calm slow (pos 1) - 1_000_000_000)) ≡ true)
unfolding ◌+ℤ◌ ◌*ℤ◌ quot
on_pipe_rl-paced_example = on_pipe_rl-paced calm slow (pos 1) (some (7 ∷ 7 ∷ [])) refl (omega arith)
