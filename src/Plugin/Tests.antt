-- ===== src/Plugin/Tests.antt =====
-- A URL with two values, at which a connection is opened. Integers stand for doubles.
use vdeplug_wirefilter.Base.{
  ℕ, ◌≡◌, refl, arith, Bool, false, Option, none, some, inl, sum_to-zero, List, [], ◌∷◌, ◌++◌, ok,
  Returns,
}
use vdeplug_wirefilter.Base.Int.{ℤ, pos, negsuc, ◌+ℤ◌, ◌*ℤ◌}
use vdeplug_wirefilter.Conn.{Sys}
use vdeplug_wirefilter.Conn.Sample.{calm, chain, packet, memory}
use vdeplug_wirefilter.Console.{Slot, Console}
use vdeplug_wirefilter.Console.Accept.{greeting}
use vdeplug_wirefilter.Console.Clients.{IsSynced}
use vdeplug_wirefilter.Console.Round.{on_management}
use vdeplug_wirefilter.Console.Round.Rounds.{console_of, Rounds, begun, round, Rounds-IsSynced}
use vdeplug_wirefilter.Console.Execute.{Host}
use vdeplug_wirefilter.Double.Exact.{ℤ_double}
use vdeplug_wirefilter.Double.Whole.{ℤ_text}
use vdeplug_wirefilter.Loop.{on_queue_timer}
use vdeplug_wirefilter.Loop.InOrder.{Act, arrive, fire, perform, Steps, step, done}
use vdeplug_wirefilter.Loop.Line.{Steady, delivered, waiting}
use vdeplug_wirefilter.Markov.{zero_node, markov_resize, resize_nodes, resize_adjacency}
use vdeplug_wirefilter.Packet.{Packet, right_to_left}
use vdeplug_wirefilter.Plugin.{Parameters, Unowned, opened, open_wirefilter}
use vdeplug_wirefilter.Plugin.Opened.{
  granted, IsNew, open_wirefilter-IsNew, open_wirefilter-in_order,
}
use vdeplug_wirefilter.Queue.{QueueNode, fifo, enqueue, dequeue, compare_node}
use vdeplug_wirefilter.Queue.Inv.{fresh_queue-IsValid}
use vdeplug_wirefilter.Text.{codes}
use vdeplug_wirefilter.Wire.Forward.{dispatch, enqueue_packet, set_queue_timer, send_packet}

abbrev url : Parameters
url = record {
  rc = none;
  delay = some (codes "LR100+10N");
  dup = none;
  loss = some (codes "5[");
  lostburst = none;
  mtu = none;
  nofifo = none;
  bufsize = none;
  bandwidth = none;
  speed = none;
  noise = none;
  blink = none;
  blinkid = none;
  mgmt = some (codes "/tmp/wf");
  mgmtmode = some (codes "660");
  pidfile = none;
}

abbrev host : Host ℤ
host = record {
  strerror = λ _. [];
  files = λ _. none;
  sun_path = [];
  edge_vars = record { start_node = pos 0; end_node = pos 0; weight = pos 0 };
}

abbrev unowned : Unowned ℤ
unowned = record {
  cells = memory;
  nodes = λ _. zero_node;
  adjacency = λ _. pos 0;
  connections = λ _. 0;
  debug_level = λ _. 0;
}

open_wirefilter-IsNew_example :
    Returns (IsNew calm.world) (open_wirefilter (granted 3 4 5) url host 8 calm.world unowned)
open_wirefilter-IsNew_example =
    open_wirefilter-IsNew url host 8 calm.world unowned 3 4 5
      (record { rc = refl; blink = refl; nofifo = refl }) (λ i. refl)

-- A connection on which nothing has happened.
abbrev start : Sys ℤ
start = record calm {
  conn = record calm.conn {
    markov = record chain { nodes_count = 1; capacity = 1 };
    management = record calm.conn.management { connections_count = 0 };
  };
}

abbrev start_new : IsNew calm.world (opened start)
start_new = record {
  state = start;
  success = refl;
  steady = record {
    queue = record {
      valid = fresh_queue-IsValid memory fifo 3;
      mode = refl;
      same = λ w. sum_to-zero w memory;
      ordered = tt;
      stamped = tt;
    };
    quiet = refl;
    memory = λ i. refl;
    chunk = inl refl;
  };
  chain = record { allocated = refl; capacity = refl; within = refl };
  one_node = refl;
  current_node = refl;
  unconnected = refl;
  unpaced = (refl, refl);
  same_world = refl;
}

-- The connection that is opened.
abbrev new_state : Sys ℤ
new_state = elim (open_wirefilter (granted 3 4 5) url host 8 calm.world unowned) [
  | ok o ↦ elim o [ opened s ↦ s | other ↦ start ]
  | other ↦ start
]

-- The state after a block that returns.
abbrev next : Sys ℤ → Act ℤ → Sys ℤ
next s act = elim (perform act s) [ ok r ↦ r.1 | other ↦ s ]

abbrev incoming : Packet
incoming = record (packet 1) { direction = right_to_left }

abbrev one_waits : Sys ℤ
one_waits = next new_state (arrive incoming (pos 1500))

abbrev two_wait : Sys ℤ
two_wait = next one_waits (arrive incoming (pos 0))

abbrev all_sent : Sys ℤ
all_sent = next two_wait fire

-- Two packets to the program, the first with a delay of 1.5 s, and the timer after 3 s.
new_state-Steps :
    Steps new_state (arrive incoming (pos 1500) ∷ arrive incoming (pos 0) ∷ fire ∷ []) all_sent
unfolding open_wirefilter markov_resize resize_nodes resize_adjacency perform dispatch
    enqueue_packet enqueue set_queue_timer on_queue_timer dequeue compare_node send_packet ◌+ℤ◌ ◌*ℤ◌
new_state-Steps =
    step new_state one_waits all_sent (arrive incoming (pos 1500))
      (arrive incoming (pos 0) ∷ fire ∷ []) (omega arith, omega arith) refl
      (step one_waits two_wait all_sent (arrive incoming (pos 0)) (fire ∷ [])
        (omega arith, omega arith) refl
        (step two_wait all_sent all_sent fire [] (omega arith, omega arith) refl (done all_sent)))

new_state-opened :
    open_wirefilter (granted 3 4 5) url host 8 calm.world unowned ≡ ok (opened new_state)
unfolding open_wirefilter markov_resize resize_nodes resize_adjacency
new_state-opened = refl

open_wirefilter-in_order_example :
    (xs : List QueueNode) × Steady all_sent xs
    × (delivered all_sent.world.events ++ waiting xs ≡ incoming ∷ incoming ∷ [])
open_wirefilter-in_order_example =
    open_wirefilter-in_order url host 8 calm.world unowned 3 4 5 new_state all_sent
      (arrive incoming (pos 1500) ∷ arrive incoming (pos 0) ∷ fire ∷ [])
      (record { rc = refl; blink = refl; nofifo = refl }) (λ i. refl) refl refl new_state-opened
      new_state-Steps

-- No poll descriptor of a client is in use, and nothing is ready.
abbrev idle : ℕ → Slot
idle = λ i. record { fd = negsuc 0; readable = false; hang_up = false }

abbrev silent : ℕ → Option (List ℕ) × Bool
silent = λ i. (none, false)

-- The state and the poll descriptors after a round in which somebody comes in.
abbrev visited : Console × Sys ℤ
visited = elim (on_management host 8 (some (greeting 30)) silent idle start) [
  | ok r ↦ r
  | other ↦ (console_of start idle, start)
]

start-Rounds : Rounds host 8 start idle visited.1 visited.0.slots
unfolding on_management
start-Rounds =
    round start start visited.1 idle idle visited.0 (some (greeting 30)) silent begun
      (record { management = refl; fd = λ i. refl })
      (record {
        positive = λ fd e. grind arith;
        apart = λ fd e i p. absurd (omega arith);
        calm = refl;
      })
      refl

Rounds-IsSynced_example : IsSynced (console_of visited.1 visited.0.slots)
Rounds-IsSynced_example =
    Rounds-IsSynced host 8 calm.world (opened start) start_new visited.1 idle visited.0.slots
      start-Rounds
