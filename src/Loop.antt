-- ===== src/Loop.antt =====
-- The blocks of the loop of `packetHandlerThread` in libvdeplug_wirefilter.c that move packets and
-- states, and the two ends of the plugin that it serves.
pub mod Release
pub mod Rearm
pub mod Drain
pub mod Line
pub mod Step
pub mod Pacing
mod Tests
pub mod InOrder
use vdeplug_wirefilter.Base.{
  ℕ, zero, suc, ◌+◌, ◌-◌, ◌/◌, Bool, true, false, not, ◌&&◌, ◌||◌, if◌then◌else◌, ltb, leb, ◌==◌,
  List, [], ◌∷◌, ◌++◌, Option, none, some, length, Run, ok, fault, null_pointer, out_of_bounds,
  out_of_fuel,
}
use vdeplug_wirefilter.Base.Int.{ℤ, pos, negsuc, eq_ℤ}
use vdeplug_wirefilter.Conn.{Conn, Management, Event, timer, trace}
use vdeplug_wirefilter.Conn.Monad.{
  M, ◌>>=◌, ◌>>◌, pure, lift, get_conn, set_conn, now, malloc, drand48, emit,
}
use vdeplug_wirefilter.Double.{Double}
use vdeplug_wirefilter.Markov.{Markov, get_node, next_node, cell}
use vdeplug_wirefilter.Packet.{Direction, left_to_right, right_to_left, Packet, at}
use vdeplug_wirefilter.Queue.{Queue, dequeue, next_queue_time}
use vdeplug_wirefilter.Time.{set_timer, disarm_timer}
use vdeplug_wirefilter.Wire.Forward.{send_packet, set_queue_timer, handle_packet}

-- A node whose row of an adjacency map of n nodes is read; with no node no row is read.
abbrev pub row_within : ℕ → ℤ → Run ℕ
row_within n (pos i) = if ltb i n || n == 0 then ok i else fault out_of_bounds
row_within n (negsuc i) = if n == 0 then ok 0 else fault out_of_bounds

abbrev pub row_of : {D : Type 0} → Markov D → Run ℕ
row_of m = row_within m.nodes_count m.current_node

-- The `while` that forwards the packets that are due.
module _ {D : Type 0} where
  unfoldable pub release_loop : ℕ → M D (Unit {0})
  release_loop zero = lift out_of_fuel
  release_loop (suc f) = do
    c ← get_conn
    let again = release_loop f
    if c.queue.size == 0 then pure tt else (do
      next ← lift (next_queue_time c.queue)
      t ← now
      if ltb next t
          then (do
            (out, q) ← lift (dequeue c.queue)
            packet ← lift (elim out [ none ↦ fault null_pointer | some p ↦ ok p ])
            set_conn (record c { queue = q })
            send_packet packet
            again)
          else pure tt)

  -- The debug lines of `markovStep`, with `left` clients to go.
  unfoldable pub trace_loop : (left i : ℕ) → Management → ℤ → ℕ → M D (Unit {0})
  trace_loop zero i m old_node new_node = pure tt
  trace_loop (suc left) i m old_node new_node = do
    (if ltb 0 (m.debug_level i) then emit (trace (m.connections i) old_node new_node) else pure tt)
    trace_loop left (i + 1) m old_node new_node

  -- The end of POLL_QUEUE_TIMER.
  unfoldable pub rearm_if_waiting : M D (Unit {0})
  rearm_if_waiting = do c ← get_conn; if ltb 0 c.queue.size then set_queue_timer else pure tt

  -- The debug lines of a move, if it is one.
  unfoldable pub report_move : Management → ℤ → ℕ → M D (Unit {0})
  unfolding trace_loop
  report_move m old_node new_node =
      if eq_ℤ old_node (pos new_node)
      then pure tt
      else trace_loop m.connections_count 0 m old_node new_node

  -- POLL_QUEUE_TIMER
  unfoldable pub on_queue_timer : M D (Unit {0})
  unfolding release_loop rearm_if_waiting
  on_queue_timer = do
    c ← get_conn
    emit (timer c.queue.timerfd disarm_timer)
    release_loop (c.queue.size + 1)
    rearm_if_waiting

  -- POLL_SPEED_TIMER; the result is the POLLIN flag of the nested plugin's descriptor.
  unfoldable pub on_speed_timer : M D Bool
  on_speed_timer = do c ← get_conn; emit (timer c.speed_timer disarm_timer); pure true

  -- The part of POLL_PIPE_RL that looks at the speed: `false` stops the receiving, until the timer.
  unfoldable pub speed_gate : M D Bool
  unfolding set_timer
  speed_gate = do
    t ← now
    c ← get_conn
    let next = at right_to_left c.speed_next
    if ltb t next
        then (do emit (timer c.speed_timer (set_timer (next - t))); pure false)
        else pure true

-- How the block of POLL_PIPE_RL ends: `skip_rest` is the `continue` of an error.
pub data Outcome : Type 0 where
  go_on skip_rest : Outcome

module _ {D : Type 0} ⦃double : Double D⦄ where
  open double use {of_ℕ}

  -- POLL_PIPE_LR
  unfoldable pub on_pipe_lr : Packet → M D (Unit {0})
  on_pipe_lr = handle_packet

  -- What `vde_recv` gave: `none` is an error, and a single byte is a packet that was discarded.
  unfoldable pub receive : Option (List ℕ) → M D Outcome
  receive none = pure skip_rest
  receive (some bytes) =
      if ltb 1 (length bytes)
      then (do
        header ← malloc
        if header
            then (do
              payload ← malloc
              if payload
                  then (do
                    handle_packet (record {
                      buf = bytes;
                      len = length bytes;
                      flags = 0;
                      direction = right_to_left;
                    })
                    pure go_on)
                  else pure skip_rest)
            else pure skip_rest)
      else pure go_on

  -- POLL_PIPE_RL: the POLLIN flag, and the outcome.
  unfoldable pub on_pipe_rl : Option (List ℕ) → M D (Bool × Outcome)
  unfolding speed_gate receive
  on_pipe_rl received = do
    listening ← speed_gate
    if listening then (do outcome ← receive received; pure (true, outcome)) else pure (false, go_on)

  -- `markovStep`
  unfoldable pub markov_step : M D (Unit {0})
  unfolding report_move
  markov_step = do
    r ← drand48
    c ← get_conn
    start ← lift (row_of c.markov)
    let new_node = next_node c.markov start r
    report_move c.management c.markov.current_node new_node
    set_conn (record c { markov = record c.markov { current_node = pos new_node } })

  -- POLL_MARKOV_TIMER
  unfoldable pub on_markov_timer : M D (Unit {0})
  unfolding set_timer
  on_markov_timer = do
    c ← get_conn
    emit (timer c.markov.timerfd (set_timer c.markov.change_frequency))
    markov_step
