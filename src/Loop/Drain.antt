-- ===== src/Loop/Drain.antt =====
-- POLL_QUEUE_TIMER in libvdeplug_wirefilter.c, once the time of all waiting packets is over.
use mathlib.Core.List.{append_assoc, append-nil}
use vdeplug_wirefilter.Base.{
  ℕ, ◌+◌, ◌-◌, ◌≤◌, ◌<◌, ◌≡◌, refl, sym, ap, subst, ◌∙◌, arith, true, All, List, [], ◌∷◌, ◌++◌,
  length, Returns, Returns-bind, Returns-weaken,
}
use vdeplug_wirefilter.Conn.{Sys, timer}
use vdeplug_wirefilter.Loop.{on_queue_timer}
use vdeplug_wirefilter.Loop.Rearm.{disarmed, rearm_lem, Ends}
use vdeplug_wirefilter.Loop.Release.{Released, NoneDue, deliveries, release_loop_lem}
use vdeplug_wirefilter.Queue.{QueueNode}
use vdeplug_wirefilter.Queue.Fifo.{Represents, size-represented}
use vdeplug_wirefilter.Time.{disarm_timer}

-- The node's time is over at all of the clock's readings from the i-th on.
abbrev pub IsOver : (ℕ → ℕ) → ℕ → QueueNode → Type 0
IsOver clock i n = (k : ℕ) → i ≤ k → n.forward_time < clock k

All-after : (P : QueueNode → Type 0) (xs ys : List QueueNode) → All P (xs ++ ys) → All P ys
All-after P [] ys h = h
All-after P (x ∷ xs) ys h = All-after P xs ys h.1

none_kept :
    (clock : ℕ → ℕ) (i j : ℕ) (kept : List QueueNode)
    → All (IsOver clock i) kept
    → NoneDue clock i j kept
    → kept ≡ []
none_kept clock i j [] h d = refl
none_kept clock i j (n ∷ ns) h (p, q) = let over = h.0 (j - 1) (omega arith) in absurd (omega arith)

module _ {D : Type 0} where
  -- Nothing waits any more, and all packets have been delivered, in their order.
  pub record Drained (s : Sys D) (xs : List QueueNode) (s' : Sys D) : Type 0 where
    pub queue : Represents s'.conn.queue []
    pub events :
        s'.world.events
        ≡ s.world.events ++ (timer s.conn.queue.timerfd disarm_timer ∷ deliveries xs)

  Drained-Ends :
      (s s' s'' : Sys D) (xs : List QueueNode) (l : Released (disarmed s) xs s')
      → All (IsOver s.world.clock s.world.ticks) xs
      → Ends s' l.kept s''
      → Drained s xs s''
  Drained-Ends s s' s'' xs l over ends =
      let empty : l.kept ≡ [] =
        none_kept s.world.clock s.world.ticks s'.world.ticks l.kept
          (All-after (IsOver s.world.clock s.world.ticks) l.sent l.kept
            (subst (All (IsOver s.world.clock s.world.ticks)) l.split over))
          l.none_due in
      let (conn, memory, reader, events) = subst (λ kept. Ends s' kept s'') empty ends in
      let all : l.sent ≡ xs =
        sym (append-nil l.sent) ∙ ap (λ kept. l.sent ++ kept) (sym empty) ∙ sym l.split in
      record {
        queue = rw conn (subst (Represents s'.conn.queue) empty l.queue);
        events =
            events
            ∙ append-nil s'.world.events
            ∙ l.events
            ∙ ap (λ sent. (disarmed s).world.events ++ deliveries sent) all
            ∙ append_assoc s.world.events (timer s.conn.queue.timerfd disarm_timer ∷ [])
                (deliveries xs);
      }

  -- If at every reading of the clock from now on the time of each waiting packet is over, then POLL_QUEUE_TIMER
  -- returns, it delivers all packets in the order in which they came, and none waits any more. The queue is in
  -- FIFO mode, there is no blink socket, and the program reads the packets that come in for it.
  pub on_queue_timer-Drained :
      (s : Sys D) (xs : List QueueNode)
      → s.conn.blink.socket_fd ≡ 0
      → s.world.reader ≡ true
      → Represents s.conn.queue xs
      → All (IsOver s.world.clock s.world.ticks) xs
      → Returns (λ (_, s'). Drained s xs s') (on_queue_timer s)
  unfolding on_queue_timer
  on_queue_timer-Drained s xs quiet read r over =
      let enough : length xs < s.conn.queue.size + 1 =
        omega (arith, size-represented s.conn.queue xs r) in
      Returns-bind (release_loop_lem (s.conn.queue.size + 1) (disarmed s) xs enough quiet read r)
        λ (_, s') l.
          Returns-weaken (rearm_lem s' l.kept l.queue)
            λ (_, s'') ends. Drained-Ends s s' s'' xs l over ends
