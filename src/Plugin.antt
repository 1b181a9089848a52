-- ===== src/Plugin.antt =====
-- `vde_wirefilter_open`, `vde_wirefilter_send` and `vde_wirefilter_recv` of libvdeplug_wirefilter.c.
pub mod Opened
mod Tests
use vdeplug_wirefilter.Base.{
  ℕ, zero, suc, ◌-◌, ◌*◌, ◌/◌, Bool, true, false, not, ◌&&◌, if◌then◌else◌, ltb, length, Option,
  none, some, List, [], ◌∷◌, Run, ok, ◌>>=◌ as run_bind,
}
use vdeplug_wirefilter.Base.Int.{ℤ, pos, negsuc}
use vdeplug_wirefilter.Conn.{Conn, Blink, Management, Sys, World, usleep}
use vdeplug_wirefilter.Conn.Monad.{M, pure, get_conn, now, malloc, emit, ◌>>=◌, ◌>>◌}
use vdeplug_wirefilter.Console.Init.{init_management}
use vdeplug_wirefilter.Console.Execute.{Host, load_config}
use vdeplug_wirefilter.Double.{Double, DoubleText}
use vdeplug_wirefilter.Markov.{
  Markov, MarkovNode, loss, bursty_loss, delay, dup, bandwidth, speed, noise, mtu, chan_buf_size,
}
use vdeplug_wirefilter.Markov.Init.{unset_markov, init_markov}
use vdeplug_wirefilter.Markov.Parse.{set_wire_value}
use vdeplug_wirefilter.Packet.{Packet, PerDirection, left_to_right, at, both}
use vdeplug_wirefilter.Queue.{Queue, QueueNode, init_queue, fifo, no_fifo}
use vdeplug_wirefilter.Time.{ns_per_ms}
use vdeplug_wirefilter.Wire.Message.{set_blink_id}

-- The parameters of the plugin's URL; `none` is NULL.
pub record Parameters : Type 0 where
  pub rc : Option (List ℕ)
  pub delay : Option (List ℕ)
  pub dup : Option (List ℕ)
  pub loss : Option (List ℕ)
  pub lostburst : Option (List ℕ)
  pub mtu : Option (List ℕ)
  pub nofifo : Option (List ℕ)
  pub bufsize : Option (List ℕ)
  pub bandwidth : Option (List ℕ)
  pub speed : Option (List ℕ)
  pub noise : Option (List ℕ)
  pub blink : Option (List ℕ)
  pub blinkid : Option (List ℕ)
  pub mgmt : Option (List ℕ)
  pub mgmtmode : Option (List ℕ)
  pub pidfile : Option (List ℕ)

-- What the calls of one `vde_wirefilter_open` answer: `true` and `some` are success.
pub record Answers : Type 0 where
  pub parsed : Bool
  pub nested : Bool
  pub memory : Bool
  pub send_pipe : Bool
  pub receive_pipe : Bool
  pub queue_timer : Option ℕ
  pub array : Bool
  pub adjacency : Bool
  pub node : ℕ → Bool
  pub markov_timer : Option ℕ
  pub speed_timer : Option ℕ
  pub blink_socket : Option ℕ
  pub blink_message : Bool
  pub management : Bool
  pub pid_file : Bool
  pub mutex : Bool
  pub thread : Bool
  pub pid : List ℕ

-- The memory that a new connection does not own.
pub record Unowned (D : Type 0) : Type 0 where
  pub cells : ℕ → QueueNode
  pub nodes : ℕ → MarkovNode D
  pub adjacency : ℕ → D
  pub connections : ℕ → ℕ
  pub debug_level : ℕ → ℕ

-- How opening ends: NULL with no nested connection, NULL with the nested connection closed again, or a connection.
pub data Opening (D : Type 0) : Type 0 where
  refused closed_again : Opening D
  opened : Sys D → Opening D

abbrev pub unset_blink : Blink
unset_blink = record { socket_fd = 0; message = []; id_len = 0 }

abbrev pub fifo_mode : Option (List ℕ) → ℕ
fifo_mode none = fifo
fifo_mode (some text) = no_fifo

-- `openBlinkSocket` and `setBlinkId`, if there is a path.
unfoldable pub open_blink : Answers → Parameters → Option (List ℕ) → Option ℕ → Option Blink
unfolding set_blink_id
open_blink a p none socket = some unset_blink
open_blink a p (some path) none = none
open_blink a p (some path) (some fd) =
    if a.blink_message
    then some (set_blink_id a.pid p.blinkid (record { socket_fd = fd; message = []; id_len = 0 }))
    else none

-- A step that is only taken when its parameter is given, and whether it succeeds.
abbrev pub if_given : Option (List ℕ) → Bool → Bool
if_given none success = true
if_given (some text) success = success

-- The management socket is opened if there is a path for it; `mode_str` is its mode.
unfoldable pub with_socket : (mode_str path : Option (List ℕ)) → Management → Management
unfolding init_management
with_socket mode_str none m = m
with_socket mode_str (some path) m = init_management mode_str m

module _ {D : Type 0} ⦃double : Double D⦄ ⦃text : DoubleText D⦄ where
  -- The values that the URL gives.
  unfoldable pub set_values : Parameters → Markov D → Run (Markov D)
  unfolding set_wire_value
  set_values p m = run_bind (set_wire_value m delay p.delay false) λ m.
      run_bind (set_wire_value m dup p.dup false) λ m.
        run_bind (set_wire_value m loss p.loss false) λ m.
          run_bind (set_wire_value m bursty_loss p.lostburst false) λ m.
            run_bind (set_wire_value m mtu p.mtu true) λ m.
              run_bind (set_wire_value m chan_buf_size p.bufsize true) λ m.
                run_bind (set_wire_value m bandwidth p.bandwidth false) λ m.
                  run_bind (set_wire_value m speed p.speed false)
                    λ m. set_wire_value m noise p.noise false

  -- The new connection, when the blink socket is open.
  abbrev pub new_conn : Answers → Unowned D → Queue → Markov D → ℕ → Blink → Conn D
  new_conn a u queue markov speed_timer blink = record {
    queue = queue;
    markov = markov;
    blink = blink;
    bursty_loss_status = both 0;
    bandwidth_next = both 0;
    speed_next = both 0;
    speed_timer = speed_timer;
    management = record {
      mode = 0;
      connections_count = 0;
      connections = u.connections;
      debug_level = u.debug_level;
    };
  }

  -- The end of the function, once the configuration file is loaded: a result of 0 is needed.
  unfoldable pub start_thread : Answers → Parameters → ℤ × Sys D → Opening D
  start_thread a p (negsuc n, s) = closed_again
  start_thread a p (pos n, s) =
      if if_given p.pidfile a.pid_file && a.mutex && a.thread then opened s else closed_again

  unfoldable pub load_rc : Host D → ℕ → Option (List ℕ) → M D ℤ
  unfolding load_config
  load_rc host depth none = pure (pos 0)
  load_rc host depth (some path) = load_config host depth (negsuc 0) path

  -- From the management socket on.
  unfoldable pub configure : Answers → Parameters → Host D → ℕ → Conn D → World D → Run (Opening D)
  unfolding load_rc start_thread with_socket
  configure a p host depth conn world =
      if if_given p.mgmt a.management
      then run_bind
          (load_rc host depth p.rc (record {
            conn = record conn { management = with_socket p.mgmtmode p.mgmt conn.management };
            world = world;
          }))
          (λ r. ok (start_thread a p r))
      else ok closed_again

  unfoldable pub with_blink :
      Answers
      → Parameters
      → Host D
      → ℕ
      → World D
      → Unowned D
      → Queue
      → Markov D
      → ℕ
      → Option Blink
      → Run (Opening D)
  unfolding configure
  with_blink a p host depth world u queue markov speed_timer none = ok closed_again
  with_blink a p host depth world u queue markov speed_timer (some blink) =
      configure a p host depth (new_conn a u queue markov speed_timer blink) world

  unfoldable pub with_timer :
      Answers
      → Parameters
      → Host D
      → ℕ
      → World D
      → Unowned D
      → Queue
      → Markov D
      → Option ℕ
      → Run (Opening D)
  unfolding with_blink open_blink
  with_timer a p host depth world u queue markov none = ok closed_again
  with_timer a p host depth world u queue markov (some speed_timer) =
      with_blink a p host depth world u queue markov speed_timer
        (open_blink a p p.blink a.blink_socket)

  unfoldable pub with_markov :
      Answers
      → Parameters
      → Host D
      → ℕ
      → World D
      → Unowned D
      → Queue
      → Option (Markov D)
      → Run (Opening D)
  unfolding with_timer set_values
  with_markov a p host depth world u queue none = ok closed_again
  with_markov a p host depth world u queue (some markov) =
      run_bind (set_values p markov)
        λ markov'. with_timer a p host depth world u queue markov' a.speed_timer

  unfoldable pub with_queue :
      Answers → Parameters → Host D → ℕ → World D → Unowned D → Option Queue → Run (Opening D)
  unfolding with_markov init_markov
  with_queue a p host depth world u none = ok closed_again
  with_queue a p host depth world u (some queue) =
      run_bind
        (init_markov a.array a.node a.adjacency a.markov_timer (unset_markov u.nodes u.adjacency)
          (pos 1) (pos 0) (100 * ns_per_ms))
        (with_markov a p host depth world u queue)

  -- `vde_wirefilter_open`; the log and the random seed are left out.
  unfoldable pub open_wirefilter :
      Answers → Parameters → Host D → (depth : ℕ) → World D → Unowned D → Run (Opening D)
  unfolding with_queue init_queue
  open_wirefilter a p host depth world u =
      if not (a.parsed && a.nested)
      then ok refused
      else if a.memory && a.send_pipe && a.receive_pipe
      then with_queue a p host depth world u (init_queue u.cells (fifo_mode p.nofifo) a.queue_timer)
      else ok closed_again

-- `vde_wirefilter_send`: the packet that goes to the thread, if the write to the pipe succeeds; `none` is the
-- return of -1.
unfoldable pub make_packet : (bytes : List ℕ) (flags : ℕ) → Packet
make_packet bytes flags = record {
  buf = bytes;
  len = length bytes;
  flags = flags;
  direction = left_to_right;
}

module _ {D : Type 0} where
  -- The wait for the end of the last packet's sending time.
  unfoldable pub await_speed : M D (Unit {0})
  await_speed = do
    t ← now
    c ← get_conn
    let next = at left_to_right c.speed_next
    if ltb t next then emit (usleep ((next - t) / 1_000)) else pure tt

  unfoldable pub wirefilter_send : (written : Bool) → List ℕ → ℕ → M D (Option Packet)
  unfolding await_speed make_packet
  wirefilter_send written bytes flags = do
    await_speed
    header ← malloc
    if header
        then (do
          payload ← malloc
          pure (if payload && written then some (make_packet bytes flags) else none))
        else pure none

-- `vde_wirefilter_recv`: the number of bytes that it returns, for what `poll` and `read` answer; 1 byte is a
-- packet to discard.
unfoldable pub wirefilter_recv : (ready : Bool) → (read_len : Option ℕ) → ℕ
wirefilter_recv true (some len) = len
wirefilter_recv true none = 1
wirefilter_recv false read_len = 1
