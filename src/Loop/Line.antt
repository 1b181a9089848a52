-- ===== src/Loop/Line.antt =====
-- The packets in line: those that the wire has delivered, and those that wait.
use mathlib.Core.List.{append_assoc}
use vdeplug_wirefilter.Base.{
  ℕ, ◌+◌, ◌≤◌, ◌<◌, ◌≡◌, ◌⊎◌, refl, sym, ap, ap₂, ◌∙◌, true, List, [], ◌∷◌, ◌++◌, Option, none,
  some, u32_mod,
}
use vdeplug_wirefilter.Conn.{
  Sys, Event, nested_send, receive_write, blink_send, timer, trace, reply, usleep,
}
use vdeplug_wirefilter.Loop.Rearm.{rearm}
use vdeplug_wirefilter.Loop.Release.{deliveries, node_delivery}
use vdeplug_wirefilter.Packet.{Direction, Packet, left_to_right, right_to_left}
use vdeplug_wirefilter.Queue.{QueueNode, Queue, queue_chunk}
use vdeplug_wirefilter.Queue.Enqueue.{stamped_node}
use vdeplug_wirefilter.Queue.Fifo.{Represents}
use vdeplug_wirefilter.Wire.Forward.{deliver, delivery}

-- The packets that were delivered, at either end.
abbrev pub delivered : List Event → List Packet
delivered [] = []
delivered (nested_send p ∷ es) = p ∷ delivered es
delivered (receive_write p ∷ es) = p ∷ delivered es
delivered (blink_send m ∷ es) = delivered es
delivered (timer fd t ∷ es) = delivered es
delivered (trace fd i j ∷ es) = delivered es
delivered (reply fd s ∷ es) = delivered es
delivered (usleep us ∷ es) = delivered es

abbrev pub carried : Option Packet → List Packet
carried none = []
carried (some p) = p ∷ []

abbrev pub waiting : List QueueNode → List Packet
waiting [] = []
waiting (n ∷ ns) = carried n.packet ++ waiting ns

pub delivered-append : (es fs : List Event) → delivered (es ++ fs) ≡ delivered es ++ delivered fs
delivered-append [] fs = refl
delivered-append (nested_send p ∷ es) fs = ap (◌∷◌ p) (delivered-append es fs)
delivered-append (receive_write p ∷ es) fs = ap (◌∷◌ p) (delivered-append es fs)
delivered-append (blink_send m ∷ es) fs = delivered-append es fs
delivered-append (timer fd t ∷ es) fs = delivered-append es fs
delivered-append (trace fd i j ∷ es) fs = delivered-append es fs
delivered-append (reply fd s ∷ es) fs = delivered-append es fs
delivered-append (usleep us ∷ es) fs = delivered-append es fs

pub waiting-append : (xs ys : List QueueNode) → waiting (xs ++ ys) ≡ waiting xs ++ waiting ys
waiting-append [] ys = refl
waiting-append (x ∷ xs) ys =
    ap (◌++◌ (carried x.packet)) (waiting-append xs ys)
    ∙ sym (append_assoc (carried x.packet) (waiting xs) (waiting ys))

delivered-deliver : (d : Direction) (p : Packet) → delivered (deliver d p ∷ []) ≡ p ∷ []
delivered-deliver left_to_right p = refl
delivered-deliver right_to_left p = refl

pub delivered-delivery : (p : Packet) → delivered (delivery p ∷ []) ≡ p ∷ []
delivered-delivery p = delivered-deliver p.direction p

delivered-node : (o : Option Packet) → delivered (node_delivery o) ≡ carried o
delivered-node none = refl
delivered-node (some p) = delivered-delivery p

pub delivered-deliveries : (ns : List QueueNode) → delivered (deliveries ns) ≡ waiting ns
delivered-deliveries [] = refl
delivered-deliveries (n ∷ ns) =
    delivered-append (node_delivery n.packet) (deliveries ns)
    ∙ ap₂ ◌++◌ (delivered-node n.packet) (delivered-deliveries ns)

pub delivered-rearm : (fd t : ℕ) (xs : List QueueNode) → delivered (rearm fd t xs) ≡ []
delivered-rearm fd t [] = refl
delivered-rearm fd t (x ∷ xs) = refl

pub waiting-new_node :
    (xs : List QueueNode) (q : Queue) (packet : Packet) (t : ℕ)
    → waiting (xs ++ stamped_node q packet t ∷ []) ≡ waiting xs ++ packet ∷ []
waiting-new_node xs q packet t = waiting-append xs (stamped_node q packet t ∷ [])

module _ {D : Type 0} where
  -- A state in FIFO mode with the nodes `xs` waiting, without a blink socket, that gets all the memory it
  -- asks for.
  pub record Steady (s : Sys D) (xs : List QueueNode) : Type 0 where
    pub queue : Represents s.conn.queue xs
    pub quiet : s.conn.blink.socket_fd ≡ 0
    pub memory : (i : ℕ) → s.world.memory i ≡ true
    pub chunk : (s.conn.queue.max_size ≡ 0) ⊎ (s.conn.queue.max_size ≡ queue_chunk)

  -- The packets of the past and of the future, in order.
  abbrev pub line : Sys D → List QueueNode → List Packet
  line s xs = delivered s.world.events ++ waiting xs

  -- The queue has room, and its counter does not wrap.
  abbrev pub HasRoom : Sys D → Type 0
  HasRoom s = (s.conn.queue.size ≤ 98) × (s.conn.queue.counter + 1 < u32_mod)
