-- ===== src/Loop/Release.antt =====
-- The forwarding of the packets that are due, when the timer of the queue has fired.
use mathlib.Core.List.{append_assoc, append-nil}
use vdeplug_wirefilter.Base.{
  ℕ, zero, suc, ◌≤◌, ◌<◌, ◌≡◌, ◌-◌, All, All-map, inl, inr, refl, sym, ap, ◌∙◌, arith, true, false,
  ltb, ◌==◌, List, [], ◌∷◌, ◌++◌, Option, none, some, length, Returns, returns, Returns-weaken,
  Bool-cases,
}
use vdeplug_wirefilter.Conn.{Sys, Event}
use vdeplug_wirefilter.Loop.{release_loop}
use vdeplug_wirefilter.Packet.{Packet}
use vdeplug_wirefilter.Queue.{QueueNode, Queue}
use vdeplug_wirefilter.Queue.Fifo.{
  Represents, size-represented, dequeue-oldest, next_queue_time-Represents,
}
use vdeplug_wirefilter.Wire.Send.{reader-IsRead, send_packet-quiet}
use vdeplug_wirefilter.Wire.Forward.{delivery}

abbrev pub node_delivery : Option Packet → List Event
node_delivery none = []
node_delivery (some p) = delivery p ∷ []

-- The deliveries of the packets of a list of nodes, in its order.
abbrev pub deliveries : List QueueNode → List Event
deliveries [] = []
deliveries (n ∷ ns) = node_delivery n.packet ++ deliveries ns

-- A node whose time was over at one of the clock's readings from `i` on, before `j`.
abbrev pub IsDue : (ℕ → ℕ) → ℕ → ℕ → QueueNode → Type 0
IsDue clock i j n = (k : ℕ) × (i ≤ k) × (k < j) × (n.forward_time < clock k)

-- The first of the nodes that stay, if any, was not due at the last of the clock's readings from `i` on,
-- before `j`.
abbrev pub NoneDue : (ℕ → ℕ) → (i j : ℕ) → List QueueNode → Type 0
NoneDue clock i j [] = Unit {0}
NoneDue clock i j (n ∷ ns) = (i < j) × (clock (j - 1) ≤ n.forward_time)

NoneDue-weaken :
    (clock : ℕ → ℕ) (i i' j : ℕ) (ns : List QueueNode)
    → i ≤ i'
    → NoneDue clock i' j ns
    → NoneDue clock i j ns
NoneDue-weaken clock i i' j [] h d = tt
NoneDue-weaken clock i i' j (n ∷ ns) h (p, q) = (omega arith, q)

sub-one-suc : (n : ℕ) → suc n - 1 ≡ n
sub-one-suc n = omega arith

IsDue-weaken :
    (clock : ℕ → ℕ) (i i' j : ℕ) (n : QueueNode) → i ≤ i' → IsDue clock i' j n → IsDue clock i j n
IsDue-weaken clock i i' j n h (k, p, q, r) = (k, omega arith, q, r)

module _ {D : Type 0} where
  -- What neither `enqueue` nor `dequeue` in the world changes.
  pub record SameRest (s s' : Sys D) : Type 0 where
    pub blink : s'.conn.blink ≡ s.conn.blink
    pub memory : s'.world.memory ≡ s.world.memory
    pub reader : s'.world.reader ≡ s.world.reader

  -- What the loop makes of a FIFO queue of the nodes `xs`: the first ones are delivered, in order, all of
  -- them due, and the first of those that stay is not.
  pub record Released (s : Sys D) (xs : List QueueNode) (s' : Sys D) : Type 0 where
    pub sent : List QueueNode
    pub kept : List QueueNode
    pub split : xs ≡ sent ++ kept
    pub queue : Represents s'.conn.queue kept
    pub events : s'.world.events ≡ s.world.events ++ deliveries sent
    pub clock : s'.world.clock ≡ s.world.clock
    pub ticks : s.world.ticks ≤ s'.world.ticks
    pub due : All (IsDue s.world.clock s.world.ticks s'.world.ticks) sent
    pub none_due : NoneDue s.world.clock s.world.ticks s'.world.ticks kept
    pub same : SameRest s s'
    pub max_size : s'.conn.queue.max_size ≡ s.conn.queue.max_size

  -- The state when the packet is out of the queue, and when it is delivered.
  abbrev unsent : Sys D → Queue → Sys D
  unsent s q' = record s {
    conn = record s.conn { queue = q' };
    world = record s.world { ticks = suc s.world.ticks };
  }

  abbrev after : Sys D → Queue → Packet → Sys D
  after s q' p = record s {
    conn = record s.conn { queue = q' };
    world = record s.world {
      ticks = suc s.world.ticks;
      events = s.world.events ++ delivery p ∷ [];
    };
  }

  Released-cons :
      (s : Sys D) (x : QueueNode) (xs : List QueueNode) (q' : Queue) (p : Packet) (s' : Sys D)
      → x.packet ≡ some p
      → x.forward_time < s.world.clock s.world.ticks
      → q'.max_size ≡ s.conn.queue.max_size
      → Released (after s q' p) xs s'
      → Released s (x ∷ xs) s'
  Released-cons s x xs q' p s' is_p due room l = record {
    sent = x ∷ l.sent;
    kept = l.kept;
    split = ap (◌∷◌ x) l.split;
    queue = l.queue;
    events =
        l.events
        ∙ append_assoc s.world.events (delivery p ∷ []) (deliveries l.sent)
        ∙ ap (λ o. s.world.events ++ (node_delivery o ++ deliveries l.sent)) (sym is_p);
    clock = l.clock;
    ticks = omega (arith, l.ticks);
    due = (
      (s.world.ticks, omega arith, omega (arith, l.ticks), due),
      All-map l.sent
          (λ n.
            IsDue-weaken s.world.clock s.world.ticks (suc s.world.ticks) s'.world.ticks n
              (omega arith))
          l.due,
    );
    none_due =
        NoneDue-weaken s.world.clock s.world.ticks (suc s.world.ticks) s'.world.ticks l.kept
          (omega arith) l.none_due;
    same = record { blink = l.same.blink; memory = l.same.memory; reader = l.same.reader };
    max_size = l.max_size ∙ room;
  }

  -- The loop ends after at most one round more than packets wait, without a fault. It delivers the first
  -- packets in the order in which they came, each of them due, and the first of those that stay is not
  -- due. The queue is in FIFO mode, there is no blink socket, and the program reads the
  -- packets that come in for it.
  pub release_loop_lem :
      (f : ℕ) (s : Sys D) (xs : List QueueNode)
      → length xs < f
      → s.conn.blink.socket_fd ≡ 0
      → s.world.reader ≡ true
      → Represents s.conn.queue xs
      → Returns (λ (_, s'). Released s xs s') (release_loop f s)
  unfolding release_loop
  release_loop_lem zero s xs enough quiet read r = absurd (omega arith)
  release_loop_lem (suc f) s [] enough quiet read r =
      let idle : (s.conn.queue.size == 0) ≡ true =
        ground (arith, size-represented s.conn.queue [] r) in
      rw idle (
        returns (record {
          sent = [];
          kept = [];
          split = refl;
          queue = r;
          events = sym (append-nil s.world.events);
          clock = refl;
          ticks = omega arith;
          due = tt;
          none_due = tt;
          same = record { blink = refl; memory = refl; reader = refl };
          max_size = refl;
        }))
  release_loop_lem (suc f) s (x ∷ xs) enough quiet read r =
      let busy : (s.conn.queue.size == 0) ≡ false =
        ground (arith, size-represented s.conn.queue (x ∷ xs) r) in
      rw (busy, next_queue_time-Represents s.conn.queue x xs r)
        (elim (Bool-cases (ltb x.forward_time (s.world.clock s.world.ticks))) [
          | inl due ↦
              let (p, q', e, is_p, r', room) = dequeue-oldest s.conn.queue x xs r in
              rw
                (
                  due,
                  e,
                  send_packet-quiet p (unsent s q') quiet
                      (reader-IsRead p.direction s.world.reader read),
                )
                (Returns-weaken (release_loop_lem f (after s q' p) xs (omega arith) quiet read r')
                  λ (_, s') later. Released-cons s x xs q' p s' is_p (ground arith) room later)
          | inr not_due ↦ rw not_due (
              returns (record {
                sent = [];
                kept = x ∷ xs;
                split = refl;
                queue = r;
                events = sym (append-nil s.world.events);
                clock = refl;
                ticks = omega arith;
                due = tt;
                none_due = (omega arith, ground (arith, sub-one-suc s.world.ticks));
                same = record { blink = refl; memory = refl; reader = refl };
                max_size = refl;
              }))
        ])
