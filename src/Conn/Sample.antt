-- ===== src/Conn/Sample.antt =====
-- A small state for the runs of the model: a wire with two nodes whose values are 0.
use vdeplug_wirefilter.Base.{ℕ, ◌*◌, true, [], ◌∷◌}
use vdeplug_wirefilter.Base.Int.{ℤ, pos}
use vdeplug_wirefilter.Conn.{Sys}
use vdeplug_wirefilter.Double.Exact.{ℤ_double}
use vdeplug_wirefilter.Markov.{Markov, zero_node}
use vdeplug_wirefilter.Packet.{Packet, left_to_right, both}
use vdeplug_wirefilter.Queue.{QueueNode, sentinel_node, fresh_queue, fifo}

abbrev pub packet : ℕ → Packet
packet n = record { buf = n ∷ []; len = 1; flags = 0; direction = left_to_right }

abbrev pub memory : ℕ → QueueNode
memory _ = sentinel_node

abbrev pub chain : Markov ℤ
chain = record {
  nodes = λ _. zero_node;
  allocated = true;
  capacity = 2;
  current_node = pos 0;
  nodes_count = 2;
  adjacency = λ _. pos 50;
  change_frequency = 100;
  timerfd = 5;
}

-- A state with nothing in the queue, one client that wants debug lines, and a clock that ticks in
-- seconds.
abbrev pub calm : Sys ℤ
calm = record {
  conn = record {
    queue = fresh_queue memory fifo 3;
    markov = chain;
    blink = record { socket_fd = 0; message = []; id_len = 0 };
    bursty_loss_status = both 0;
    bandwidth_next = both 0;
    speed_next = both 0;
    speed_timer = 4;
    management = record {
      mode = 448;
      connections_count = 1;
      connections = λ _. 9;
      debug_level = λ _. 1;
    };
  };
  world = record {
    randoms = λ _. pos 1;
    drawn = 0;
    clock = λ i. i * 1_000_000_000;
    ticks = 0;
    memory = λ _. true;
    asked = 0;
    events = [];
    patience = 10;
    reader = true;
  };
}
