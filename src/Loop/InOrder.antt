-- ===== src/Loop/InOrder.antt =====
-- The two blocks of the loop of `packetHandlerThread` that use the queue, in any order: copies of packets
-- come to the end of `handlePacket`, and the timer of the queue fires. In FIFO mode the wire keeps the
-- order of the packets.
use mathlib.Core.List.{append_assoc, append-nil}
use vdeplug_wirefilter.Base.{
  ℕ, suc, ◌≡◌, inl, inr, refl, sym, ap, ◌∙◌, arith, true, false, ◌&&◌, ◌||◌, ltb, ◌==◌, Bool-cases,
  List, [], ◌∷◌, ◌++◌, ok, Returns, returns, Returns-weaken, Returns-value, Returns-of,
}
use vdeplug_wirefilter.Conn.{Sys}
use vdeplug_wirefilter.Conn.Monad.{M}
use vdeplug_wirefilter.Double.{Double}
use vdeplug_wirefilter.Loop.{on_queue_timer}
use vdeplug_wirefilter.Loop.Rearm.{Served, on_queue_timer_lem, set_queue_timer-waiting}
use vdeplug_wirefilter.Loop.Release.{deliveries}
use vdeplug_wirefilter.Packet.{Packet}
use vdeplug_wirefilter.Queue.{QueueNode, fifo}
use vdeplug_wirefilter.Queue.Enqueue.{CanTake, stamped_node}
use vdeplug_wirefilter.Queue.Fifo.{size-represented, enqueue-Represents}
use vdeplug_wirefilter.Wire.Send.{reader-IsRead, send_packet-quiet}
use vdeplug_wirefilter.Wire.Forward.{dispatch, enqueue_packet, set_queue_timer}
use vdeplug_wirefilter.Wire.Handlers.{later}
use vdeplug_wirefilter.Loop.Line.{
  delivered, waiting, delivered-append, waiting-append, delivered-delivery, delivered-deliveries,
  delivered-rearm, waiting-new_node, Steady, line, HasRoom,
}

module _ {D : Type 0} where
  -- After POLL_QUEUE_TIMER the same packets are in line.
  timer-line :
      (s s' : Sys D) (xs : List QueueNode)
      → Steady s xs
      → (v : Served s xs s') → Steady s' v.kept × (line s' v.kept ≡ line s xs)
  timer-line s s' xs st v = (
    record {
      queue = v.queue;
      quiet = rw v.same.blink st.quiet;
      memory = λ i. rw v.same.memory (st.memory i);
      chunk = rw v.max_size st.chunk;
    },
    rw
        (
          v.events,
          delivered-append s.world.events,
          delivered-append (deliveries v.sent),
          delivered-deliveries v.sent,
          delivered-rearm s'.conn.queue.timerfd (s.world.clock v.reading) v.kept,
          append-nil (waiting v.sent),
          append_assoc (delivered s.world.events) (waiting v.sent) (waiting v.kept),
        )
        (ap (◌++◌ (delivered s.world.events))
          (sym (waiting-append v.sent v.kept) ∙ ap waiting (sym v.split))),
  )

  -- The node that `enqueue` makes of a packet.
  abbrev new_node : Sys D → Packet → ℕ → QueueNode
  new_node s packet t = stamped_node s.conn.queue packet t

  -- `enqueue` puts the packet at the end of the line, and writes nothing but the queue.
  record Queued (s : Sys D) (xs : List QueueNode) (packet : Packet) (t : ℕ) (s' : Sys D)
      : Type 0 where
    pub steady : Steady s' (xs ++ new_node s packet t ∷ [])
    pub events : s'.world.events ≡ s.world.events
    pub reader : s'.world.reader ≡ s.world.reader

  enqueue_packet-Queued :
      (s : Sys D) (xs : List QueueNode) (packet : Packet) (t : ℕ)
      → Steady s xs
      → HasRoom s
      → Returns (λ (_, s'). Queued s xs packet t s') (enqueue_packet packet t s)
  unfolding enqueue_packet
  enqueue_packet-Queued s xs packet t st (room, small) =
      let can : CanTake s.conn.queue = ground (arith, st.chunk) in
      let (q', e, (r, d)) =
        Returns-value (enqueue-Represents s.conn.queue xs packet t st.queue can small) in
      rw
        (
          st.memory s.world.asked,
          st.memory (suc s.world.asked),
          st.memory (suc (suc s.world.asked)),
          e,
        )
        (returns (record {
          steady = record {
            queue = r;
            quiet = st.quiet;
            memory = st.memory;
            chunk = inr (ground (arith, d.max_size, st.chunk));
          };
          events = refl;
          reader = refl;
        }))

-- A copy of a packet at the end of `handlePacket`, with its delay, or the timer of the queue.
pub data Act (D : Type 0) : Type 0 where
  arrive : Packet → D → Act D
  fire : Act D

module _ {D : Type 0} ⦃double : Double D⦄ where
  open double use {of_ℕ, lt}

  unfoldable pub perform : Act D → M D (Unit {0})
  perform (arrive packet delay_ms) = dispatch packet delay_ms
  perform fire = on_queue_timer

  abbrev pub arrival : Act D → List Packet
  arrival (arrive packet delay_ms) = packet ∷ []
  arrival fire = []

  -- The packets in line are those of before, and the new one behind them.
  abbrev pub Follows : Sys D → List QueueNode → Act D → Sys D → Type 0
  Follows s xs act s' =
      (xs' : List QueueNode) × Steady s' xs'
      × (s'.world.reader ≡ s.world.reader)
      × (line s' xs' ≡ line s xs ++ arrival act)

  ticked : Sys D → Sys D
  ticked s = record s { world = record s.world { ticks = suc s.world.ticks } }

  rearmed-Follows :
      (s s' : Sys D) (xs : List QueueNode) (packet : Packet) (delay_ms : D) (t : ℕ)
      → Queued s xs packet t s'
      → Returns (λ (_, s''). Follows s xs (arrive packet delay_ms) s'') (set_queue_timer s')
  rearmed-Follows s s' xs packet delay_ms t q =
      let ys = xs ++ new_node s packet t ∷ [] in
      rw (set_queue_timer-waiting s' xs (new_node s packet t) q.steady.queue) (
        returns (
          ys,
          record {
            queue = q.steady.queue;
            quiet = q.steady.quiet;
            memory = q.steady.memory;
            chunk = q.steady.chunk;
          },
          q.reader,
          rw
              (
                q.events,
                delivered-append s.world.events,
                delivered-rearm s'.conn.queue.timerfd (s'.world.clock s'.world.ticks) ys,
                append-nil (delivered s.world.events),
                waiting-new_node xs s.conn.queue packet t,
              )
              (sym (append_assoc (delivered s.world.events) (waiting xs) (packet ∷ []))),
        ))

  dispatch-waits :
      (s : Sys D) (xs : List QueueNode) (packet : Packet) (delay_ms : D)
      → Steady s xs
      → HasRoom s
      → (lt (of_ℕ 0) delay_ms || (s.conn.queue.fifoness == fifo && ltb 0 s.conn.queue.size)) ≡ true
      → Returns (λ (_, s'). Follows s xs (arrive packet delay_ms) s') (dispatch packet delay_ms s)
  unfolding dispatch ticked
  dispatch-waits s xs packet delay_ms st room waits =
      let ((_, s'), e, q) = Returns-value (
        enqueue_packet-Queued (ticked s) xs packet (later (s.world.clock s.world.ticks) delay_ms)
          (record { queue = st.queue; quiet = st.quiet; memory = st.memory; chunk = st.chunk })
          room) in
      rw (waits, e)
        (rearmed-Follows (ticked s) s' xs packet delay_ms
          (later (s.world.clock s.world.ticks) delay_ms) q)

  -- A packet that need not wait is delivered at once; in FIFO mode the line is empty then.
  dispatch-sends :
      (s : Sys D) (xs : List QueueNode) (packet : Packet) (delay_ms : D)
      → Steady s xs
      → s.world.reader ≡ true
      → (lt (of_ℕ 0) delay_ms || (s.conn.queue.fifoness == fifo && ltb 0 s.conn.queue.size)) ≡ false
      → Returns (λ (_, s'). Follows s xs (arrive packet delay_ms) s') (dispatch packet delay_ms s)
  unfolding dispatch
  dispatch-sends s [] packet delay_ms st read sends =
      rw
        (
          sends,
          send_packet-quiet packet s st.quiet (reader-IsRead packet.direction s.world.reader read),
        )
        (returns (
          [],
          record { queue = st.queue; quiet = st.quiet; memory = st.memory; chunk = st.chunk },
          refl,
          rw
              (
                delivered-append s.world.events,
                delivered-delivery packet,
                append-nil (delivered s.world.events),
              )
              (append-nil (delivered s.world.events ++ packet ∷ [])),
        ))
  dispatch-sends s (x ∷ xs) packet delay_ms st read sends =
      absurd (ground (arith, size-represented s.conn.queue (x ∷ xs) st.queue, st.queue.mode))

  -- Each of the two blocks returns, and keeps the packets in line: a new one comes last. The queue is in
  -- FIFO mode with room and a counter that does not wrap, there is no blink socket, all memory is
  -- granted, and the program reads the packets that come in for it.
  pub perform_lem :
      (act : Act D) (s : Sys D) (xs : List QueueNode)
      → Steady s xs
      → s.world.reader ≡ true
      → HasRoom s
      → Returns (λ (_, s'). Follows s xs act s') (perform act s)
  unfolding perform
  perform_lem (arrive packet delay_ms) s xs st read room =
      elim (Bool-cases
        (lt (of_ℕ 0) delay_ms || (s.conn.queue.fifoness == fifo && ltb 0 s.conn.queue.size))) [
          | inl waits ↦ dispatch-waits s xs packet delay_ms st room waits
          | inr sends ↦ dispatch-sends s xs packet delay_ms st read sends
        ]
  perform_lem fire s xs st read room =
      Returns-weaken (on_queue_timer_lem s xs st.quiet read st.queue) λ (_, s') v.
        let (steady, same) = timer-line s s' xs st v in
        (v.kept, steady, v.same.reader, same ∙ sym (append-nil (line s xs)))

  -- A run of the loop: each block starts in the state that the one before it has left.
  pub data Steps : Sys D → List (Act D) → Sys D → Type 0 where
    done : (s : Sys D) → Steps s [] s
    step :
        (s s₁ s₂ : Sys D) (act : Act D) (acts : List (Act D))
        → HasRoom s
        → perform act s ≡ ok (tt, s₁)
        → Steps s₁ acts s₂
        → Steps s (act ∷ acts) s₂

  abbrev pub arrivals : List (Act D) → List Packet
  arrivals [] = []
  arrivals (act ∷ acts) = arrival act ++ arrivals acts

  Returns-at :
      (s₁ : Sys D) (s : Sys D) (xs : List QueueNode) (act : Act D)
      → perform act s ≡ ok (tt, s₁)
      → Returns (λ (_, s'). Follows s xs act s') (perform act s)
      → Follows s xs act s₁
  Returns-at s₁ s xs act e r = Returns-of (rw e at r)

  -- In FIFO mode the wire keeps the order of the packets: in every run of the two blocks, in any order
  -- and with any delays, the packets delivered so far, followed by those that wait, are the packets that
  -- had been delivered or had waited at first, followed by the ones that have come in, each exactly once.
  -- Each block finds at most 98 packets waiting and a counter that does not wrap; there is no blink
  -- socket, all memory is granted, and the program reads the packets that come in for it.
  pub Steps-in_order :
      (s s' : Sys D) (acts : List (Act D)) (xs : List QueueNode)
      → Steady s xs
      → s.world.reader ≡ true
      → Steps s acts s'
      → (xs' : List QueueNode) × Steady s' xs' × (line s' xs' ≡ line s xs ++ arrivals acts)
  Steps-in_order s s' acts xs st read (done _) = (xs, st, sym (append-nil (line s xs)))
  Steps-in_order s s' acts xs st read (step _ s₁ _ act acts' room e steps) =
      let (xs₁, st₁, same, l₁) = Returns-at s₁ s xs act e (perform_lem act s xs st read room) in
      let (xs₂, st₂, l₂) = Steps-in_order s₁ s' acts' xs₁ st₁ (same ∙ read) steps in
      (
        xs₂,
        st₂,
        l₂
            ∙ ap (λ ps. ps ++ arrivals acts') l₁
            ∙ append_assoc (line s xs) (arrival act) (arrivals acts'),
      )
