-- ===== src/Wire/Tests.antt =====
-- Each theorem on the wire at an input where its hypotheses hold. Integers stand for doubles.
use vdeplug_wirefilter.Base.{
  ℕ, List, some, ◌+◌, ◌==◌, if◌then◌else◌, ◌≡◌, refl, arith, [], ◌∷◌, ok, false, blocked, Returns,
}
use vdeplug_wirefilter.Base.Int.{ℤ, pos, negsuc, ◌*ℤ◌, ◌+ℤ◌, ◌-ℤ◌, quot}
use vdeplug_wirefilter.Conn.{Blink, Sys}
use vdeplug_wirefilter.Conn.Monad.{◌>>◌}
use vdeplug_wirefilter.Conn.Sample.{packet, chain, calm}
use vdeplug_wirefilter.Double.Exact.{ℤ_double, ℤ-HasZero}
use vdeplug_wirefilter.Markov.{
  MarkovNode, zero_node, set_node_value, dup, loss, bursty_loss, max_wire_value, min_wire_value,
}
use vdeplug_wirefilter.Packet.{Packet, left_to_right, right_to_left, both}
use vdeplug_wirefilter.Wire.Bursts.{
  good, move, verdicts, last_health, handle_losses, IsBursty, tossed_all, handle_losses-verdicts,
}
use vdeplug_wirefilter.Wire.Duplicates.{
  handle_packet-plain, handle_packet-duplicates, copies_sent, drawn_on,
}
use vdeplug_wirefilter.Wire.Forward.{decimal_loop, blink_message, handle_packet, send_packet}
use vdeplug_wirefilter.Wire.Handlers.{break_bits, drop, forward}
use vdeplug_wirefilter.Wire.Message.{set_blink_id, digits_value, blink_message-content}
use vdeplug_wirefilter.Wire.Noise.{Broken, break_bits-Broken}
use vdeplug_wirefilter.Wire.Plain.{IsPlain, undrawn}

abbrev plain : MarkovNode ℤ
plain = zero_node

plain-IsPlain : IsPlain plain left_to_right
plain-IsPlain tag other = (refl, refl)

handle_packet-plain_example :
    handle_packet (packet 1) calm
    ≡ ok (
      tt,
      copies_sent plain
          (packet 1)
          ℤ-HasZero
          plain-IsPlain
          (undrawn ℤ-HasZero (packet 1) plain plain-IsPlain calm)
          1,
    )
unfolding max_wire_value ◌+ℤ◌
handle_packet-plain_example =
    handle_packet-plain plain (packet 1) ℤ-HasZero plain-IsPlain calm refl refl tt refl (λ i. refl)
      refl refl

abbrev with_node : MarkovNode ℤ → Sys ℤ
with_node node = record calm {
  conn = record calm.conn { markov = record chain { nodes = λ _. node } };
}

-- A node that doubles a packet when the number drawn is 0.
abbrev doubling : MarkovNode ℤ
unfolding set_node_value
doubling = set_node_value zero_node dup left_to_right (pos 100) (pos 0) 0

doubling-IsPlain : IsPlain doubling left_to_right
unfolding doubling set_node_value
doubling-IsPlain tag other = ground arith

-- The second number that is drawn is 0, and all others are 1.
abbrev lucky : Sys ℤ
lucky = record (with_node doubling) {
  world = record calm.world { randoms = λ i. if i == 1 then pos 0 else pos 1 };
}

handle_packet-duplicates_example :
    handle_packet (packet 1) lucky
    ≡ ok (
      tt,
      copies_sent doubling
          (packet 1)
          ℤ-HasZero
          doubling-IsPlain
          (drawn_on (undrawn ℤ-HasZero (packet 1) doubling doubling-IsPlain lucky) 2)
          2,
    )
unfolding max_wire_value ◌+ℤ◌ doubling set_node_value quot
handle_packet-duplicates_example =
    handle_packet-duplicates doubling (packet 1) ℤ-HasZero doubling-IsPlain 1 lucky refl refl tt
      refl (λ i. refl) refl refl refl (refl, refl) (omega arith)

abbrev ten_bytes : Packet
ten_bytes = record {
  buf = 0 ∷ 0 ∷ 0 ∷ 0 ∷ 0 ∷ 0 ∷ 0 ∷ 0 ∷ 0 ∷ 0 ∷ [];
  len = 10;
  flags = 0;
  direction = left_to_right;
}

-- The number 0 chooses the first bit behind the first two bytes.
abbrev low : Sys ℤ
low = record calm { world = record calm.world { randoms = λ _. pos 0 } }

break_bits-Broken_example :
    Returns
      (λ (packet', s'). Broken ten_bytes packet' × (s'.world.drawn ≡ 0 + 1) × (s'.conn ≡ low.conn))
      (break_bits 1 ten_bytes low)
unfolding ◌*ℤ◌
break_bits-Broken_example = break_bits-Broken 1 ten_bytes low (λ k h. ground arith)

-- The message of the manual's example: "6768 LR 44".
abbrev id : List ℕ
id = b'6' ∷ b'7' ∷ b'6' ∷ b'8' ∷ []

abbrev no_blink : Blink
no_blink = record { socket_fd = 0; message = []; id_len = 0 }

blink_message-content_example :
    (blink_message (set_blink_id [] (some id) no_blink) (record ten_bytes { len = 44 })
      ≡ b'6' ∷ b'7' ∷ b'6' ∷ b'8' ∷ b' ' ∷ b'L' ∷ b'R' ∷ b' ' ∷ b'4' ∷ b'4' ∷ b'\n' ∷ [])
    × (digits_value 0 (b'4' ∷ b'4' ∷ []) ≡ 44)
unfolding decimal_loop
blink_message-content_example =
    blink_message-content [] id no_blink (record ten_bytes { len = 44 }) (omega arith)

-- Losses of 20 % in bursts of 4, and numbers below every threshold: the wire turns bad, and good again.
abbrev bursty : MarkovNode ℤ
bursty = record zero_node {
  values = λ tag. both (record {
    value = if tag == loss then pos 20 else if tag == bursty_loss then pos 4 else pos 0;
    plus = pos 0;
    algorithm = 0;
  });
}

abbrev bursty_state : Sys ℤ
bursty_state = record calm {
  conn = record calm.conn { markov = record chain { nodes = λ _. bursty } };
  world = record calm.world { randoms = λ _. negsuc 0 };
}

bursty-IsBursty : IsBursty bursty left_to_right
unfolding max_wire_value min_wire_value ◌+ℤ◌ ◌-ℤ◌
bursty-IsBursty = record { loss_plus = refl; burst_plus = refl; below = refl; bursts = refl }

handle_losses-verdicts_example :
    handle_losses (packet 1 ∷ packet 2 ∷ []) bursty_state
    ≡ ok (
      verdicts bursty left_to_right (λ _. negsuc 0) 0 2 good,
      tossed_all bursty_state left_to_right 2
          (last_health bursty left_to_right (λ _. negsuc 0) 0 2 good),
    )
handle_losses-verdicts_example =
    handle_losses-verdicts bursty left_to_right (packet 1 ∷ packet 2 ∷ []) good bursty_state
      bursty-IsBursty (refl, (refl, tt)) refl refl

verdicts-bursty : verdicts bursty left_to_right (λ _. negsuc 0) 0 2 good ≡ drop ∷ forward ∷ []
unfolding verdicts move quot ◌*ℤ◌ ◌-ℤ◌
verdicts-bursty = refl

-- Without a reader the second packet to the program waits without end.
abbrev to_program : Packet
to_program = record (packet 1) { direction = right_to_left }

abbrev unread : Sys ℤ
unread = record calm { world = record calm.world { reader = false } }

unread_waits : (send_packet to_program >> send_packet to_program) unread ≡ blocked
unfolding send_packet
unread_waits = refl
