-- ===== src/Plugin/Opened.antt =====
-- `vde_wirefilter_open` of libvdeplug_wirefilter.c when its calls succeed: what the thread starts with.
use vdeplug_wirefilter.Base.{
  ℕ, ◌*◌, ◌≡◌, refl, ap, ◌∙◌, inl, Bool, true, false, Option, none, some, List, [], ◌++◌, Returns,
  returns, Returns-of, subst, ok, Returns-bind, Returns-weaken, sum_to-zero,
}
use vdeplug_wirefilter.Base.Int.{pos}
use vdeplug_wirefilter.Conn.{Management, Sys, World}
use vdeplug_wirefilter.Console.Init.{init_management}
use vdeplug_wirefilter.Console.Execute.{Host}
use vdeplug_wirefilter.Double.{Double, DoubleText}
use vdeplug_wirefilter.Loop.InOrder.{Act, Steps, arrivals, Steps-in_order}
use vdeplug_wirefilter.Loop.Line.{Steady, delivered, waiting}
use vdeplug_wirefilter.Markov.{
  Markov, loss, bursty_loss, delay, dup, bandwidth, speed, noise, mtu, chan_buf_size,
}
use vdeplug_wirefilter.Markov.Init.{init_markov-Fresh}
use vdeplug_wirefilter.Markov.Parse.{set_wire_value}
use vdeplug_wirefilter.Markov.Parse.Total.{set_wire_value-OnlyTag}
use vdeplug_wirefilter.Markov.Resize.{IsChain}
use vdeplug_wirefilter.Packet.{both}
use vdeplug_wirefilter.Plugin.{
  Parameters, Answers, Unowned, Opening, refused, closed_again, opened, if_given, unset_blink,
  open_blink, set_values, new_conn, with_socket, start_thread, load_rc, configure, with_blink,
  with_timer, with_markov, with_queue, open_wirefilter,
}
use vdeplug_wirefilter.Queue.{QueueNode, fresh_queue, init_queue, fifo}
use vdeplug_wirefilter.Queue.Fifo.{Represents}
use vdeplug_wirefilter.Queue.Inv.{fresh_queue-IsValid}
use vdeplug_wirefilter.Time.{ns_per_ms}

-- All calls succeed, with these descriptors for the timers.
abbrev pub granted : (queue_timer markov_timer speed_timer : ℕ) → Answers
granted queue_timer markov_timer speed_timer = record {
  parsed = true;
  nested = true;
  memory = true;
  send_pipe = true;
  receive_pipe = true;
  queue_timer = some queue_timer;
  array = true;
  adjacency = true;
  node = λ _. true;
  markov_timer = some markov_timer;
  speed_timer = some speed_timer;
  blink_socket = some 1;
  blink_message = true;
  management = true;
  pid_file = true;
  mutex = true;
  thread = true;
  pid = [];
}

-- A URL without a configuration file, a blink socket, and `nofifo`.
pub record IsSimple (p : Parameters) : Type 0 where
  pub rc : p.rc ≡ none
  pub blink : p.blink ≡ none
  pub nofifo : p.nofifo ≡ none

if_given-true : (o : Option (List ℕ)) → if_given o true ≡ true
if_given-true none = refl
if_given-true (some s) = refl

with_socket-unconnected :
    (mode_str path : Option (List ℕ)) (m : Management)
    → m.connections_count ≡ 0
    → (with_socket mode_str path m).connections_count ≡ 0
unfolding with_socket init_management
with_socket-unconnected mode_str none m h = h
with_socket-unconnected mode_str (some path) m h = refl

fresh_queue-Represents :
    (cells : ℕ → QueueNode) (timerfd : ℕ) → Represents (fresh_queue cells fifo timerfd) []
fresh_queue-Represents cells timerfd = record {
  valid = fresh_queue-IsValid cells fifo timerfd;
  mode = refl;
  same = λ w. sum_to-zero w cells;
  ordered = tt;
  stamped = tt;
}

module _ {D : Type 0} ⦃double : Double D⦄ ⦃text : DoubleText D⦄ where
  -- A connection on which nothing has happened: no packet waits, no client is connected, and the chain has one node.
  pub record IsNew (world : World D) (o : Opening D) : Type 0 where
    pub state : Sys D
    pub success : o ≡ opened state
    pub steady : Steady state []
    pub chain : IsChain state.conn.markov
    pub one_node : state.conn.markov.nodes_count ≡ 1
    pub current_node : state.conn.markov.current_node ≡ pos 0
    pub unconnected : state.conn.management.connections_count ≡ 0
    pub unpaced : (state.conn.speed_next ≡ both 0) × (state.conn.bandwidth_next ≡ both 0)
    pub same_world : state.world ≡ world

  -- A chain with the node 0 alone.
  abbrev IsSingle : Markov D → Type 0
  IsSingle m = IsChain m × (m.nodes_count ≡ 1) × (m.current_node ≡ pos 0)

  set_value-IsSingle :
      (m : Markov D) (tag : ℕ) (s : Option (List ℕ)) (b : Bool)
      → IsSingle m
      → Returns IsSingle (set_wire_value m tag s b)
  set_value-IsSingle m tag s b (v, one, start) =
      Returns-weaken (set_wire_value-OnlyTag m tag b s v)
        λ m' q. (q.chain, q.nodes_count ∙ one, q.current_node ∙ start)

  set_values-IsSingle :
      (p : Parameters) (m : Markov D) → IsSingle m → Returns IsSingle (set_values p m)
  unfolding set_values
  set_values-IsSingle p m v = Returns-bind (set_value-IsSingle m delay p.delay false v) λ m v.
      Returns-bind (set_value-IsSingle m dup p.dup false v) λ m v.
        Returns-bind (set_value-IsSingle m loss p.loss false v) λ m v.
          Returns-bind (set_value-IsSingle m bursty_loss p.lostburst false v) λ m v.
            Returns-bind (set_value-IsSingle m mtu p.mtu true v) λ m v.
              Returns-bind (set_value-IsSingle m chan_buf_size p.bufsize true v) λ m v.
                Returns-bind (set_value-IsSingle m bandwidth p.bandwidth false v) λ m v.
                  Returns-bind (set_value-IsSingle m speed p.speed false v)
                    λ m v. set_value-IsSingle m noise p.noise false v

  -- From the queue on, for a chain with one node.
  with_markov-IsNew :
      (p : Parameters) (host : Host D) (depth : ℕ) (world : World D) (u : Unowned D) (tq tm ts : ℕ)
      (m : Markov D)
      → IsSimple p
      → ((i : ℕ) → world.memory i ≡ true)
      → IsSingle m
      → Returns (IsNew world) (
          with_markov
            (granted tq tm ts)
            p
            host
            depth
            world
            u
            (fresh_queue u.cells fifo tq)
            (some m))
  unfolding with_markov with_timer with_blink open_blink configure load_rc start_thread
  with_markov-IsNew p host depth world u tq tm ts m simple memory v =
      Returns-bind (set_values-IsSingle p m v) λ m' (chain, one, start).
        rw (simple.blink, simple.rc, if_given-true p.mgmt, if_given-true p.pidfile)
          (returns (record {
            state = record {
              conn =
                  record (new_conn (granted tq tm ts) u (fresh_queue u.cells fifo tq) m' ts
                    unset_blink) {
                      management = with_socket p.mgmtmode p.mgmt (record {
                        mode = 0;
                        connections_count = 0;
                        connections = u.connections;
                        debug_level = u.debug_level;
                      });
                    };
              world = world;
            };
            success = refl;
            steady = record {
              queue = fresh_queue-Represents u.cells tq;
              quiet = refl;
              memory = memory;
              chunk = inl refl;
            };
            chain = chain;
            one_node = one;
            current_node = start;
            unconnected = with_socket-unconnected p.mgmtmode p.mgmt _ refl;
            unpaced = (refl, refl);
            same_world = refl;
          }))

  -- When all calls succeed, opening a URL without a configuration file, a blink socket and `nofifo`, and with any
  -- strings for the values, returns a connection in FIFO mode on which nothing waits and nothing has happened, with
  -- a chain of one node, without a client, and without a wait for the first packets.
  pub open_wirefilter-IsNew :
      (p : Parameters) (host : Host D) (depth : ℕ) (world : World D) (u : Unowned D) (tq tm ts : ℕ)
      → IsSimple p
      → ((i : ℕ) → world.memory i ≡ true)
      → Returns (IsNew world) (open_wirefilter (granted tq tm ts) p host depth world u)
  unfolding open_wirefilter with_queue init_queue
  open_wirefilter-IsNew p host depth world u tq tm ts simple memory =
      let (m, e, fresh) = init_markov-Fresh u.nodes u.adjacency tm (100 * ns_per_ms) in
      let plain : IsSimple (record p { nofifo = none }) = record {
        rc = simple.rc;
        blink = simple.blink;
        nofifo = refl;
      } in
      rw (simple.nofifo, e)
        (with_markov-IsNew (record p { nofifo = none }) host depth world u tq tm ts m plain memory
          (fresh.chain, fresh.one_node, fresh.start_node))

  -- The state of an opened connection.
  abbrev state_of : Sys D → Opening D → Sys D
  state_of other refused = other
  state_of other closed_again = other
  state_of other (opened s) = s

  -- When all calls of `vde_wirefilter_open` succeed, for a URL without a configuration file, a blink socket and
  -- `nofifo`, and nothing has happened before: in every run of the end of `handlePacket` and of the block of the
  -- queue's timer that starts with the connection that is opened, the packets delivered so far, followed by those
  -- that wait, are the packets that have come in, each exactly once and in their order. Each block finds at most
  -- 98 packets waiting and a counter that does not wrap, all memory is granted, and the program reads the packets
  -- that come in for it.
  pub open_wirefilter-in_order :
      (p : Parameters) (host : Host D) (depth : ℕ) (world : World D) (u : Unowned D) (tq tm ts : ℕ)
      (s s' : Sys D) (acts : List (Act D))
      → IsSimple p
      → ((i : ℕ) → world.memory i ≡ true)
      → world.reader ≡ true
      → world.events ≡ []
      → open_wirefilter (granted tq tm ts) p host depth world u ≡ ok (opened s)
      → Steps s acts s'
      → (xs' : List QueueNode) × Steady s' xs'
        × (delivered s'.world.events ++ waiting xs' ≡ arrivals acts)
  open_wirefilter-in_order p host depth world u tq tm ts s s' acts simple memory read silent e
        steps =
      let new = Returns-of (
        subst (Returns (IsNew world)) e
          (open_wirefilter-IsNew p host depth world u tq tm ts simple memory)) in
      let same : s ≡ new.state = ap (state_of s) new.success in
      let (xs', steady, order) =
        Steps-in_order new.state s' acts [] new.steady
          (ap (λ (w : World D). w.reader) new.same_world ∙ read)
          (subst (λ (x : Sys D). Steps x acts s') same steps) in
      let empty : new.state.world.events ≡ [] =
        ap (λ (w : World D). w.events) new.same_world ∙ silent in
      (xs', steady, order ∙ ap (λ es. (delivered es ++ []) ++ arrivals acts) empty)
