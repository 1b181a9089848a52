-- ===== src/Wire/Handlers.antt =====
-- The handlers of libvdeplug_wirefilter.c, one for each property of the wire.
use Prim.Native.Nat.{bit_xor}
use vdeplug_wirefilter.Base.{
  ℕ, zero, suc, ◌+◌, ◌-◌, ◌*◌, ◌/◌, ◌%◌, ◌^◌, ◌&&◌, if◌then◌else◌, ltb, ◌==◌, List, [], ◌∷◌, Run,
  ok, fault, out_of_bounds, out_of_fuel, add64, u64_mod,
}
use vdeplug_wirefilter.Conn.{ok_burst, faulty_burst}
use vdeplug_wirefilter.Conn.Monad.{
  M, ◌>>=◌, ◌>>◌, pure, lift, get_conn, set_conn, patience, drand48, now, current_node,
}
use vdeplug_wirefilter.Double.{Double}
use vdeplug_wirefilter.Markov.{
  MarkovNode, max_wire_value, min_wire_value, delay, dup, loss, bursty_loss, mtu, chan_buf_size,
  bandwidth, speed, noise,
}
use vdeplug_wirefilter.Packet.{Direction, Packet, at, put}
use vdeplug_wirefilter.Time.{ns_per_ms}
use vdeplug_wirefilter.Wire.Value.{compute_wire_value}

-- DROP and FORWARD
pub data Verdict : Type 0 where
  drop forward : Verdict

abbrev pub mega : ℕ
mega = 1_048_576

-- `buf[i] ^= bit`, in a payload of which the list holds all the allocated bytes.
unfoldable pub flip : List ℕ → ℕ → ℕ → Run (List ℕ)
flip [] i bit = fault out_of_bounds
flip (b ∷ buf) zero bit = ok (bit_xor b bit ∷ buf)
flip (b ∷ buf) (suc i) bit = elim (flip buf i bit) [
  | ok rest ↦ ok (b ∷ rest)
  | fault x ↦ fault x
  | other ↦ other
]

module _ {D : Type 0} ⦃double : Double D⦄ where
  open double use {of_ℕ, add, sub, mul, div, lt, le, eq, truncate}

  -- The value of DROP where a handler returns it as a delay.
  abbrev pub minus_one : D
  minus_one = sub (of_ℕ 0) (of_ℕ 1)

  -- MS_TO_NS on a `double`, and its sum with a `uint64_t`, stored in a `uint64_t`.
  abbrev pub later : ℕ → D → ℕ
  later t ms = truncate (add (of_ℕ t) (mul ms (of_ℕ ns_per_ms)))

  unfoldable pub mtu_handler : Packet → M D Verdict
  mtu_handler packet = do
    node ← current_node
    let limit = min_wire_value node mtu packet.direction
    pure (if lt (of_ℕ 0) limit && lt limit (of_ℕ packet.len) then drop else forward)

  -- The status after the `switch` of `lossHandler`.
  unfoldable pub burst_status : ℕ → D → D → M D ℕ
  burst_status status loss_val burst_len =
      if status == ok_burst
      then (do
        r ← drand48
        let enter = div loss_val (mul burst_len (sub (of_ℕ 1) loss_val))
        pure (if lt r enter then faulty_burst else status))
      else if status == faulty_burst
      then (do r ← drand48; pure (if lt r (div (of_ℕ 1) burst_len) then ok_burst else status))
      else pure status

  abbrev pub set_burst : Direction → ℕ → M D (Unit {0})
  set_burst d status = do
    c ← get_conn
    set_conn (record c { bursty_loss_status = put d status c.bursty_loss_status })

  unfoldable pub gilbert_loss : MarkovNode D → Packet → M D Verdict
  unfolding compute_wire_value burst_status
  gilbert_loss node packet = do
    percent ← compute_wire_value node loss packet.direction
    burst_len ← compute_wire_value node bursty_loss packet.direction
    c ← get_conn
    status ←
        burst_status (at packet.direction c.bursty_loss_status) (div percent (of_ℕ 100)) burst_len
    set_burst packet.direction status
    pure (if status == ok_burst then forward else drop)

  -- C leaves open which operand of the comparison is computed first; here it is the left one.
  unfoldable pub standard_loss : MarkovNode D → Packet → M D Verdict
  unfolding compute_wire_value
  standard_loss node packet = do
    set_burst packet.direction ok_burst
    r ← drand48
    percent ← compute_wire_value node loss packet.direction
    pure (if lt r (div percent (of_ℕ 100)) then drop else forward)

  unfoldable pub loss_handler : Packet → M D Verdict
  loss_handler packet = do
    node ← current_node
    if le (of_ℕ 100) (min_wire_value node loss packet.direction)
        then pure drop
        else if lt (of_ℕ 0) (max_wire_value node bursty_loss packet.direction)
        then gilbert_loss node packet
        else standard_loss node packet

  unfoldable pub duplicates_loop : ℕ → MarkovNode D → Packet → ℕ → M D ℕ
  duplicates_loop zero node packet times = lift out_of_fuel
  duplicates_loop (suc f) node packet times = do
    r ← drand48
    percent ← compute_wire_value node dup packet.direction
    let again = duplicates_loop f node packet (times + 1)
    if lt r (div percent (of_ℕ 100)) then again else pure times

  unfoldable pub duplicates_handler : Packet → M D ℕ
  unfolding duplicates_loop
  duplicates_handler packet = do
    node ← current_node
    rounds ← patience
    if lt (of_ℕ 0) (max_wire_value node dup packet.direction)
        then duplicates_loop rounds node packet 0
        else pure 0

  unfoldable pub buffer_size_handler : Packet → M D Verdict
  buffer_size_handler packet = do
    node ← current_node
    if eq (max_wire_value node chan_buf_size packet.direction) (of_ℕ 0) then pure forward else (do
      limit ← compute_wire_value node chan_buf_size packet.direction
      c ← get_conn
      let bytes = add64 (at packet.direction c.queue.byte_size) packet.len
      pure (if lt limit (of_ℕ bytes) then drop else forward))

  -- The time in milliseconds that the packet takes at a rate in bytes per second.
  abbrev pub send_time : Packet → D → D
  send_time packet rate = div (of_ℕ (packet.len * 1000 % u64_mod)) rate

  unfoldable pub pace_bandwidth : Packet → D → M D D
  pace_bandwidth packet rate = do
    t ← now
    c ← get_conn
    let d = packet.direction
    let next = at d c.bandwidth_next
    let time = send_time packet rate
    let base = if ltb next t then t else next
    set_conn (record c { bandwidth_next = put d (later base time) c.bandwidth_next })
    pure (if ltb next t then time else add (of_ℕ ((next - t) / ns_per_ms)) time)

  unfoldable pub bandwidth_handler : Packet → M D D
  unfolding pace_bandwidth
  bandwidth_handler packet = do
    node ← current_node
    if lt (of_ℕ 0) (max_wire_value node bandwidth packet.direction)
        then (do
          rate ← compute_wire_value node bandwidth packet.direction
          if le rate (of_ℕ 0) then pure minus_one else pace_bandwidth packet rate)
        else pure (of_ℕ 0)

  unfoldable pub pace_speed : Packet → D → M D D
  pace_speed packet rate = do
    t ← now
    c ← get_conn
    let d = packet.direction
    let next = at d c.speed_next
    let time = send_time packet rate
    let base = if ltb next t then t else next
    set_conn (record c { speed_next = put d (later base time) c.speed_next })
    pure time

  unfoldable pub speed_handler : Packet → M D D
  unfolding pace_speed
  speed_handler packet = do
    node ← current_node
    if lt (of_ℕ 0) (max_wire_value node speed packet.direction)
        then (do
          rate ← compute_wire_value node speed packet.direction
          if le rate (of_ℕ 0) then pure minus_one else pace_speed packet rate)
        else pure (of_ℕ 0)

  unfoldable pub delay_handler : Packet → M D D
  delay_handler packet = do
    node ← current_node
    if lt (of_ℕ 0) (max_wire_value node delay packet.direction)
        then (do
          value ← compute_wire_value node delay packet.direction
          pure (if lt (of_ℕ 0) value then value else of_ℕ 0))
        else pure (of_ℕ 0)

  -- The number of broken bits; `len - 2` is computed in 64 bits.
  unfoldable pub broken_bits : ℕ → Packet → D → ℕ → M D ℕ
  broken_bits zero packet factor bits = lift out_of_fuel
  broken_bits (suc f) packet factor bits = do
    r ← drand48
    let bound = mul (of_ℕ ((packet.len + u64_mod - 2) % u64_mod * 8 % u64_mod)) factor
    let again = broken_bits f packet factor (bits + 1)
    if lt (mul (mul r (of_ℕ 8)) (of_ℕ mega)) bound then again else pure bits

  unfoldable pub break_bits : ℕ → Packet → M D Packet
  unfolding flip
  break_bits zero packet = pure packet
  break_bits (suc n) packet = do
    r ← drand48
    let bit = truncate (mul (mul r (of_ℕ packet.len)) (of_ℕ 8))
    buf ← lift (flip packet.buf (bit / 8 + 2) (2 ^ (bit % 8)))
    break_bits n (record packet { buf = buf })

  unfoldable pub noise_handler : Packet → M D Packet
  unfolding broken_bits break_bits
  noise_handler packet = do
    node ← current_node
    if lt (of_ℕ 0) (max_wire_value node noise packet.direction)
        then (do
          factor ← compute_wire_value node noise packet.direction
          rounds ← patience
          bits ← broken_bits rounds packet factor 0
          break_bits bits packet)
        else pure packet
