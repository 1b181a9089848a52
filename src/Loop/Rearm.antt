-- ===== src/Loop/Rearm.antt =====
-- POLL_QUEUE_TIMER as a whole, and the timer that `setQueueTimer` programs.
use mathlib.Core.List.{append_assoc, append-nil}
use vdeplug_wirefilter.Base.{
  ℕ, suc, ◌+◌, ◌-◌, ◌^◌, ◌≤◌, ◌<◌, ◌≡◌, refl, sym, ap, ap₂, ◌∙◌, arith, true, false, ltb, List, [],
  ◌∷◌, ◌++◌, length, ok, All, Returns, returns, Returns-bind, Returns-weaken,
}
use vdeplug_wirefilter.Conn.{Conn, Sys, Event, timer}
use vdeplug_wirefilter.Loop.{rearm_if_waiting, on_queue_timer}
use vdeplug_wirefilter.Loop.Release.{
  Released, IsDue, NoneDue, SameRest, deliveries, release_loop_lem,
}
use vdeplug_wirefilter.Queue.{QueueNode, queue_timer_delay}
use vdeplug_wirefilter.Queue.Fifo.{Represents, size-represented, next_queue_time-Represents}
use vdeplug_wirefilter.Time.{set_timer, disarm_timer, is_armed, set_timer_lem}
use vdeplug_wirefilter.Wire.Forward.{set_queue_timer}

-- `setQueueTimer` always arms the timer. It does so for the time that is left until the first packet is
-- due, and for 1 ns if that packet is already due; both times have to be below 2^63.
pub queue_timer_delay_lem :
    (next now : ℕ)
    → next < 2 ^ 63
    → now < 2 ^ 63
    → (is_armed (set_timer (queue_timer_delay next now)) ≡ true)
      × (now < next → queue_timer_delay next now ≡ next - now)
      × (next ≤ now → queue_timer_delay next now ≡ 1)
unfolding queue_timer_delay
queue_timer_delay_lem next now h h' = (
  (set_timer_lem (queue_timer_delay next now)).2.1 (ground arith),
  λ p. ground arith,
  λ p. ground arith,
)

-- The programming of the timer for the packets that wait, if any.
abbrev pub rearm : ℕ → ℕ → List QueueNode → List Event
rearm timerfd now [] = []
rearm timerfd now (x ∷ xs) = timer timerfd (set_timer (queue_timer_delay x.forward_time now)) ∷ []

module _ {D : Type 0} where
  -- The state after `setQueueTimer`.
  abbrev pub rearmed : Sys D → List QueueNode → Sys D
  rearmed s xs = record s {
    world = record s.world {
      ticks = suc s.world.ticks;
      events = s.world.events ++ rearm s.conn.queue.timerfd (s.world.clock s.world.ticks) xs;
    };
  }

  pub set_queue_timer-Represents :
      (s : Sys D) (x : QueueNode) (xs : List QueueNode)
      → Represents s.conn.queue (x ∷ xs)
      → set_queue_timer s ≡ ok (tt, rearmed s (x ∷ xs))
  unfolding set_queue_timer
  set_queue_timer-Represents s x xs r = rw (next_queue_time-Represents s.conn.queue x xs r)

  pub set_queue_timer-waiting :
      (s : Sys D) (xs : List QueueNode) (n : QueueNode)
      → Represents s.conn.queue (xs ++ n ∷ [])
      → set_queue_timer s ≡ ok (tt, rearmed s (xs ++ n ∷ []))
  set_queue_timer-waiting s [] n r = set_queue_timer-Represents s n [] r
  set_queue_timer-waiting s (x ∷ xs) n r = set_queue_timer-Represents s x (xs ++ n ∷ []) r

  -- What POLL_QUEUE_TIMER makes of a queue of the nodes `xs`.
  pub record Served (s : Sys D) (xs : List QueueNode) (s' : Sys D) : Type 0 where
    pub sent : List QueueNode
    pub kept : List QueueNode
    pub split : xs ≡ sent ++ kept
    pub queue : Represents s'.conn.queue kept
    pub reading : ℕ
    pub later : s.world.ticks ≤ reading
    pub due : All (IsDue s.world.clock s.world.ticks reading) sent
    pub none_due : NoneDue s.world.clock s.world.ticks reading kept
    pub events :
        s'.world.events
        ≡ s.world.events
          ++ (timer s.conn.queue.timerfd disarm_timer ∷ []
              ++ (deliveries sent ++ rearm s'.conn.queue.timerfd (s.world.clock reading) kept))
    pub same : SameRest s s'
    pub max_size : s'.conn.queue.max_size ≡ s.conn.queue.max_size

  abbrev pub disarmed : Sys D → Sys D
  disarmed s = record s {
    world = record s.world {
      events = s.world.events ++ timer s.conn.queue.timerfd disarm_timer ∷ [];
    };
  }

  -- The end of POLL_QUEUE_TIMER.
  abbrev pub Ends : Sys D → List QueueNode → Sys D → Type 0
  Ends s xs s' =
      (s'.conn ≡ s.conn)
      × (s'.world.memory ≡ s.world.memory)
      × (s'.world.reader ≡ s.world.reader)
      × (s'.world.events
          ≡ s.world.events ++ rearm s.conn.queue.timerfd (s.world.clock s.world.ticks) xs)

  pub rearm_lem :
      (s : Sys D) (xs : List QueueNode)
      → Represents s.conn.queue xs
      → Returns (λ (_, s'). Ends s xs s') (rearm_if_waiting s)
  unfolding rearm_if_waiting
  rearm_lem s [] r =
      let idle : ltb 0 s.conn.queue.size ≡ false =
        ground (arith, size-represented s.conn.queue [] r) in
      rw idle (returns (refl, refl, refl, sym (append-nil s.world.events)))
  rearm_lem s (x ∷ xs) r =
      let busy : ltb 0 s.conn.queue.size ≡ true =
        ground (arith, size-represented s.conn.queue (x ∷ xs) r) in
      rw (busy, set_queue_timer-Represents s x xs r) (returns (refl, refl, refl, refl))

  Served-Ends :
      (s s' s'' : Sys D) (xs : List QueueNode) (l : Released (disarmed s) xs s')
      → Ends s' l.kept s''
      → Served s xs s''
  Served-Ends s s' s'' xs l (conn, memory, reader, events) =
      let timerfd = ap (λ (c : Conn D). c.queue.timerfd) conn in
      record {
        sent = l.sent;
        kept = l.kept;
        split = l.split;
        queue = rw conn l.queue;
        reading = s'.world.ticks;
        later = l.ticks;
        due = l.due;
        none_due = l.none_due;
        events =
            events
            ∙ ap₂ (λ es c. es ++ rearm s'.conn.queue.timerfd (c s'.world.ticks) l.kept) l.events
                l.clock
            ∙ append_assoc (disarmed s).world.events (deliveries l.sent)
                (rearm s'.conn.queue.timerfd (s.world.clock s'.world.ticks) l.kept)
            ∙ append_assoc s.world.events (timer s.conn.queue.timerfd disarm_timer ∷ []) (
                deliveries l.sent
                ++ rearm s'.conn.queue.timerfd (s.world.clock s'.world.ticks) l.kept)
            ∙ rw timerfd refl;
        same = record {
          blink = rw conn l.same.blink;
          memory = memory ∙ l.same.memory;
          reader = reader ∙ l.same.reader;
        };
        max_size = rw conn l.max_size;
      }

  -- POLL_QUEUE_TIMER on a queue in FIFO mode, without a blink socket and with a program that reads what comes
  -- in for it, returns. It disarms the timer and delivers the first waiting packets in order: each of them was due at a
  -- reading of the clock, and the first one that stays was not due at the last reading. It programs the timer again
  -- exactly if packets stay, for the time until the first of them is due.
  pub on_queue_timer_lem :
      (s : Sys D) (xs : List QueueNode)
      → s.conn.blink.socket_fd ≡ 0
      → s.world.reader ≡ true
      → Represents s.conn.queue xs
      → Returns (λ (_, s'). Served s xs s') (on_queue_timer s)
  unfolding on_queue_timer
  on_queue_timer_lem s xs quiet read r =
      let enough : length xs < s.conn.queue.size + 1 =
        omega (arith, size-represented s.conn.queue xs r) in
      Returns-bind (release_loop_lem (s.conn.queue.size + 1) (disarmed s) xs enough quiet read r)
        λ (_, s') l.
          Returns-weaken (rearm_lem s' l.kept l.queue)
            λ (_, s'') ends. Served-Ends s s' s'' xs l ends
