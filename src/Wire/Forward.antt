-- ===== src/Wire/Forward.antt =====
-- `handlePacket`, `sendPacket` and the timer of the queue in libvdeplug_wirefilter.c: what becomes of a
-- packet once it has come in.
use vdeplug_wirefilter.Base.{
  ℕ, zero, suc, ◌+◌, ◌-◌, ◌/◌, ◌%◌, Bool, true, false, ◌&&◌, ◌||◌, not, if◌then◌else◌, ltb, ◌==◌,
  List, [], ◌∷◌, ◌++◌, take, Option, none, some, ok, fault, null_pointer, blocked,
}
use vdeplug_wirefilter.Conn.{
  Blink, Event, nested_send, receive_write, blink_send, timer, blink_message_content_size,
}
use vdeplug_wirefilter.Conn.Monad.{
  M, ◌>>=◌, ◌>>◌, pure, lift, get_conn, set_conn, now, malloc, emit,
}
use vdeplug_wirefilter.Double.{Double}
use vdeplug_wirefilter.Packet.{Direction, left_to_right, right_to_left, Packet}
use vdeplug_wirefilter.Queue.{fifo, enqueue, next_queue_time, queue_timer_delay}
use vdeplug_wirefilter.Time.{set_timer}
use vdeplug_wirefilter.Wire.Handlers.{
  drop, forward, later, mtu_handler, loss_handler, duplicates_handler, buffer_size_handler,
  bandwidth_handler, speed_handler, delay_handler, noise_handler,
}

-- `%ld` of a length: at most 20 digits.
unfoldable pub decimal_loop : ℕ → ℕ → List ℕ → List ℕ
decimal_loop zero n acc = acc
decimal_loop (suc f) n acc =
    let digits = (b'0' + n % 10) ∷ acc in
    let more = decimal_loop f (n / 10) digits in if n / 10 == 0 then digits else more

abbrev pub decimal : ℕ → List ℕ
decimal n = decimal_loop 20 n []

abbrev pub direction_name : Direction → List ℕ
direction_name left_to_right = b'L' ∷ b'R' ∷ []
direction_name right_to_left = b'R' ∷ b'L' ∷ []

-- The message for a packet: the identifier and the blank stay, and the rest is written anew.
unfoldable pub blink_message : Blink → Packet → List ℕ
unfolding decimal_loop
blink_message b packet =
    let content =
      direction_name packet.direction ++ (b' ' ∷ (decimal packet.len ++ (b'\n' ∷ []))) in
    take (b.id_len + 1) b.message ++ take (blink_message_content_size - 1) content

-- Where `sendPacket` delivers a packet: `vde_send`, or the pipe that `vde_recv` reads.
abbrev pub deliver : Direction → Packet → Event
deliver left_to_right = nested_send
deliver right_to_left = receive_write

abbrev pub delivery : Packet → Event
delivery packet = deliver packet.direction packet

-- Whether a packet has been written to the program before.
unfoldable pub is_locked : List Event → Bool
is_locked [] = false
is_locked (e ∷ es) = elim e [ receive_write p ↦ true | other ↦ is_locked es ]

module _ {D : Type 0} where
  unfoldable pub blink : Packet → M D (Unit {0})
  unfolding blink_message
  blink packet = do
    c ← get_conn
    let message = blink_message c.blink packet
    if c.blink.socket_fd == 0 then pure tt else (do
      set_conn (record c { blink = record c.blink { message = message } })
      emit (blink_send message))

  -- `receive_lock`: `vde_recv` unlocks it when it has read a packet. Without a reader the first packet gets it
  -- and the next one waits without end.
  unfoldable pub lock_receive : M D (Unit {0})
  unfolding is_locked
  lock_receive s =
      if s.world.reader || not (is_locked s.world.events) then pure tt s else lift blocked s

  -- Only packets to the program need the lock.
  unfoldable pub lock_for : Direction → M D (Unit {0})
  unfolding lock_receive
  lock_for left_to_right = pure tt
  lock_for right_to_left = lock_receive

  unfoldable pub send_packet : Packet → M D (Unit {0})
  unfolding blink lock_for
  send_packet packet = do blink packet; lock_for packet.direction; emit (delivery packet)

  -- `setQueueTimer`
  unfoldable pub set_queue_timer : M D (Unit {0})
  unfolding next_queue_time queue_timer_delay set_timer
  set_queue_timer = do
    c ← get_conn
    next ← lift (next_queue_time c.queue)
    t ← now
    emit (timer c.queue.timerfd (set_timer (queue_timer_delay next t)))

  -- `packetCopy`; `none` is NULL.
  unfoldable pub packet_copy : Packet → M D (Option Packet)
  packet_copy packet = do
    header ← malloc
    if header
        then (do payload ← malloc; pure (if payload then some packet else none))
        else pure none

  -- `enqueue` in the world; an answer of `malloc` that the call does not need is not used.
  unfoldable pub enqueue_packet : Packet → ℕ → M D (Unit {0})
  enqueue_packet packet time = do
    node ← malloc
    array ← malloc
    sentinel ← malloc
    c ← get_conn
    q ←
        lift
          (enqueue (record { node = node; array = array; sentinel = sentinel }) c.queue packet time)
    set_conn (record c { queue = q })

module _ {D : Type 0} ⦃double : Double D⦄ where
  open double use {of_ℕ, add, lt}

  -- The end of a round of `handlePacket`, for a copy with its delay.
  unfoldable pub dispatch : Packet → D → M D (Unit {0})
  dispatch packet delay_ms = do
    c ← get_conn
    if lt (of_ℕ 0) delay_ms || (c.queue.fifoness == fifo && ltb 0 c.queue.size)
        then (do t ← now; enqueue_packet packet (later t delay_ms); set_queue_timer)
        else send_packet packet

  -- One round of `handlePacket`; the result says whether the loop goes on.
  unfoldable pub handle_copy : Packet → M D Bool
  unfolding packet_copy
  handle_copy packet = do
    copy ← packet_copy packet
    to_send ← lift (elim copy [ none ↦ fault null_pointer | some p ↦ ok p ])
    verdict ← buffer_size_handler to_send
    elim verdict [
      | drop ↦ pure false
      | forward ↦ do
        a ← speed_handler to_send
        b ← bandwidth_handler to_send
        c ← delay_handler to_send
        noisy ← noise_handler to_send
        dispatch noisy (add (add (add (of_ℕ 0) a) b) c)
        pure true
    ]

  -- The loop of `handlePacket`, with `left` rounds to go.
  unfoldable pub handle_copies : ℕ → Packet → M D (Unit {0})
  handle_copies zero packet = pure tt
  handle_copies (suc left) packet = do
    more ← handle_copy packet
    let next = handle_copies left packet
    if more then next else pure tt

  unfoldable pub handle_packet : Packet → M D (Unit {0})
  handle_packet packet = do
    small ← mtu_handler packet
    elim small [
      | drop ↦ pure tt
      | forward ↦ do
        kept ← loss_handler packet
        elim kept [
          | drop ↦ pure tt
          | forward ↦ do
            duplicates ← duplicates_handler packet
            handle_copies (1 + duplicates) packet
        ]
    ]
