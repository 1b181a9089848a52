-- ===== src/Wire/Plain.antt =====
-- A packet on a wire whose values are all 0.
use vdeplug_wirefilter.Base.{
  ℕ, suc, ◌≡◌, ◌≢◌, refl, arith, ap₂, ◌∙◌, true, false, ◌&&◌, ltb, ◌==◌, [], ◌∷◌, ◌++◌, ok,
}
use vdeplug_wirefilter.Conn.{Sys, ok_burst}
use vdeplug_wirefilter.Double.{Double}
use vdeplug_wirefilter.Double.Exact.{HasZero}
use vdeplug_wirefilter.Markov.{
  MarkovNode, wire_value, current, max_wire_value, min_wire_value, mtu, loss, delay, dup,
  bursty_loss, chan_buf_size, bandwidth, speed, noise,
}
use vdeplug_wirefilter.Packet.{Packet, Direction, put}
use vdeplug_wirefilter.Queue.{fifo}
use vdeplug_wirefilter.Wire.Send.{IsRead, send_packet-quiet}
use vdeplug_wirefilter.Wire.Forward.{delivery, handle_copy, dispatch, packet_copy}
use vdeplug_wirefilter.Wire.Handlers.{
  forward, standard_loss, mtu_handler, loss_handler, buffer_size_handler, bandwidth_handler,
  speed_handler, delay_handler, noise_handler,
}
use vdeplug_wirefilter.Wire.Value.{compute_wire_value}

module _ {D : Type 0} ⦃double : Double D⦄ where
  open double use {of_ℕ, add, sub, lt, le}

  -- The value of a tag is 0, with no spread, in the packet's direction.
  abbrev pub IsZero : MarkovNode D → Direction → ℕ → Type 0
  IsZero node d tag =
      ((wire_value node tag d).value ≡ of_ℕ 0) × ((wire_value node tag d).plus ≡ of_ℕ 0)

  module _ (laws : HasZero D) (node : MarkovNode D) (d : Direction) where
    max-IsZero : (tag : ℕ) → IsZero node d tag → max_wire_value node tag d ≡ of_ℕ 0
    unfolding max_wire_value
    max-IsZero tag (v, p) = ap₂ add v p ∙ laws.add_zero

    min-IsZero : (tag : ℕ) → IsZero node d tag → min_wire_value node tag d ≡ of_ℕ 0
    unfolding min_wire_value
    min-IsZero tag (v, p) = ap₂ sub v p ∙ laws.sub_zero

  -- A node whose wire values are all 0 in a direction, but for the chance of duplicates.
  abbrev pub IsPlain : MarkovNode D → Direction → Type 0
  IsPlain node d = (tag : ℕ) → tag ≢ dup → IsZero node d tag

  module _ (laws : HasZero D) (packet : Packet) (node : MarkovNode D)
      (plain : IsPlain node packet.direction) where
    abbrev maximum : (tag : ℕ) → tag ≢ dup → max_wire_value node tag packet.direction ≡ of_ℕ 0
    maximum tag other = max-IsZero laws node packet.direction tag (plain tag other)

    abbrev minimum : (tag : ℕ) → tag ≢ dup → min_wire_value node tag packet.direction ≡ of_ℕ 0
    minimum tag other = min-IsZero laws node packet.direction tag (plain tag other)

    pub mtu_handler-plain :
        (s : Sys D) → current s.conn.markov ≡ ok node → mtu_handler packet s ≡ ok (forward, s)
    unfolding mtu_handler
    mtu_handler-plain s here = rw (here, minimum mtu (omega arith), laws.lt_zero) refl

    noise_handler-plain :
        (s : Sys D) → current s.conn.markov ≡ ok node → noise_handler packet s ≡ ok (packet, s)
    unfolding noise_handler
    noise_handler-plain s here = rw (here, maximum noise (omega arith), laws.lt_zero) refl

    delay_handler-plain :
        (s : Sys D) → current s.conn.markov ≡ ok node → delay_handler packet s ≡ ok (of_ℕ 0, s)
    unfolding delay_handler
    delay_handler-plain s here = rw (here, maximum delay (omega arith), laws.lt_zero) refl

    speed_handler-plain :
        (s : Sys D) → current s.conn.markov ≡ ok node → speed_handler packet s ≡ ok (of_ℕ 0, s)
    unfolding speed_handler
    speed_handler-plain s here = rw (here, maximum speed (omega arith), laws.lt_zero) refl

    bandwidth_handler-plain :
        (s : Sys D) → current s.conn.markov ≡ ok node → bandwidth_handler packet s ≡ ok (of_ℕ 0, s)
    unfolding bandwidth_handler
    bandwidth_handler-plain s here = rw (here, maximum bandwidth (omega arith), laws.lt_zero) refl

    buffer_size_handler-plain :
        (s : Sys D)
        → current s.conn.markov ≡ ok node
        → buffer_size_handler packet s ≡ ok (forward, s)
    unfolding buffer_size_handler
    buffer_size_handler-plain s here =
        rw (here, maximum chan_buf_size (omega arith), laws.eq_zero) refl

    -- One number is drawn, and it is not below 0.
    abbrev pub undrawn : Sys D → Sys D
    undrawn s = record s {
      conn = record s.conn {
        bursty_loss_status = put packet.direction ok_burst s.conn.bursty_loss_status;
      };
      world = record s.world { drawn = suc s.world.drawn };
    }

    pub loss_handler-plain :
        (s : Sys D)
        → current s.conn.markov ≡ ok node
        → lt (s.world.randoms s.world.drawn) (of_ℕ 0) ≡ false
        → loss_handler packet s ≡ ok (forward, undrawn s)
    unfolding loss_handler standard_loss compute_wire_value
    loss_handler-plain s here random =
        rw
          (
            here,
            minimum loss (omega arith),
            laws.le_hundred,
            maximum bursty_loss (omega arith),
            laws.lt_zero,
            (plain loss (omega arith)).1,
            laws.eq_zero,
            (plain loss (omega arith)).0,
            laws.div_hundred,
            random,
          )
          refl

    dispatch-plain :
        (s : Sys D)
        → s.conn.blink.socket_fd ≡ 0
        → IsRead packet.direction s.world.reader
        → (s.conn.queue.fifoness == fifo && ltb 0 s.conn.queue.size) ≡ false
        → dispatch packet (of_ℕ 0) s
          ≡ ok (
            tt,
            record s { world = record s.world { events = s.world.events ++ delivery packet ∷ [] } },
          )
    unfolding dispatch
    dispatch-plain s quiet read free =
        rw (laws.lt_zero, free, send_packet-quiet packet s quiet read) refl

    -- With the two blocks of memory granted, the copy is delivered.
    abbrev pub copied : Sys D → Sys D
    copied s = record s { world = record s.world { asked = suc (suc s.world.asked) } }

    pub handle_copy-plain :
        (s : Sys D)
        → current s.conn.markov ≡ ok node
        → s.conn.blink.socket_fd ≡ 0
        → IsRead packet.direction s.world.reader
        → (s.conn.queue.fifoness == fifo && ltb 0 s.conn.queue.size) ≡ false
        → s.world.memory s.world.asked ≡ true
        → s.world.memory (suc s.world.asked) ≡ true
        → handle_copy packet s
          ≡ ok (
            true,
            record (copied s) {
              world = record (copied s).world { events = s.world.events ++ delivery packet ∷ [] };
            },
          )
    unfolding handle_copy packet_copy
    handle_copy-plain s here quiet read free header payload =
        rw
          (
            header,
            payload,
            buffer_size_handler-plain (copied s) here,
            speed_handler-plain (copied s) here,
            bandwidth_handler-plain (copied s) here,
            delay_handler-plain (copied s) here,
            noise_handler-plain (copied s) here,
            laws.add_zero,
            laws.add_zero,
            laws.add_zero,
            dispatch-plain (copied s) quiet read free,
          )
          refl
