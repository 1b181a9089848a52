-- ===== src/Wire/Bursts.antt =====
-- `lossHandler` of libvdeplug_wirefilter.c with bursts of losses, on one packet after the other: the Gilbert
-- model, an automaton with a good and a bad state.
use vdeplug_wirefilter.Base.{
  ℕ, zero, suc, ◌+◌, ◌≡◌, refl, sym, ap, ap₂, arith, true, false, Bool-cases, inl, inr,
  if◌then◌else◌, ◌==◌, All, List, [], ◌∷◌, length, ok,
}
use vdeplug_wirefilter.Conn.{Sys, ok_burst, faulty_burst}
use vdeplug_wirefilter.Conn.Monad.{M, pure, ◌>>=◌}
use vdeplug_wirefilter.Double.{Double}
use vdeplug_wirefilter.Markov.{
  MarkovNode, current, wire_value, min_wire_value, max_wire_value, loss, bursty_loss,
}
use vdeplug_wirefilter.Packet.{
  Packet, Direction, PerDirection, left_to_right, right_to_left, at, put,
}
use vdeplug_wirefilter.Wire.Handlers.{
  Verdict, drop, forward, burst_status, gilbert_loss, loss_handler,
}
use vdeplug_wirefilter.Wire.Value.{compute_wire_value}

-- The states of the wire in one direction, with their codes and what they do to a packet.
pub data Health : Type 0 where
  good bad : Health

abbrev pub status_of : Health → ℕ
status_of good = ok_burst
status_of bad = faulty_burst

abbrev pub verdict_of : Health → Verdict
verdict_of good = forward
verdict_of bad = drop

verdict-status : (h : Health) → (if status_of h == ok_burst then forward else drop) ≡ verdict_of h
verdict-status good = refl
verdict-status bad = refl

at-put_self : (d : Direction) (x : ℕ) (p : PerDirection ℕ) → at d (put d x p) ≡ x
at-put_self left_to_right x p = refl
at-put_self right_to_left x p = refl

put-put : (d : Direction) (x y : ℕ) (p : PerDirection ℕ) → put d x (put d y p) ≡ put d x p
put-put left_to_right x y p = refl
put-put right_to_left x y p = refl

module _ {D : Type 0} ⦃double : Double D⦄ where
  open double use {of_ℕ, sub, mul, div, lt, le, eq}

  -- The thresholds for a number drawn: to turn bad, and to turn good again.
  abbrev pub to_bad : MarkovNode D → Direction → D
  to_bad node d =
      let p = div (wire_value node loss d).value (of_ℕ 100) in
      div p (mul (wire_value node bursty_loss d).value (sub (of_ℕ 1) p))

  abbrev pub to_good : MarkovNode D → Direction → D
  to_good node d = div (of_ℕ 1) (wire_value node bursty_loss d).value

  -- The automaton moves once for each packet, before the packet.
  unfoldable pub move : MarkovNode D → Direction → Health → D → Health
  move node d good r = if lt r (to_bad node d) then bad else good
  move node d bad r = if lt r (to_good node d) then good else bad

  -- The state after n packets, with the numbers drawn from the i-th on, and what happens to them.
  unfoldable pub last_health : MarkovNode D → Direction → (ℕ → D) → (i n : ℕ) → Health → Health
  unfolding move
  last_health node d randoms i zero h = h
  last_health node d randoms i (suc n) h =
      last_health node d randoms (suc i) n (move node d h (randoms i))

  unfoldable pub verdicts : MarkovNode D → Direction → (ℕ → D) → (i n : ℕ) → Health → List Verdict
  unfolding move
  verdicts node d randoms i zero h = []
  verdicts node d randoms i (suc n) h =
      let h' = move node d h (randoms i) in verdict_of h' ∷ verdicts node d randoms (suc i) n h'

  -- `lossHandler` on a list of packets.
  unfoldable pub handle_losses : List Packet → M D (List Verdict)
  handle_losses [] = pure []
  handle_losses (packet ∷ packets) = do
    v ← loss_handler packet
    vs ← handle_losses packets
    pure (v ∷ vs)

  -- Losses come in bursts of a mean length, both values have no variation, and fewer than all packets are lost.
  pub record IsBursty (node : MarkovNode D) (d : Direction) : Type 0 where
    pub loss_plus : eq (wire_value node loss d).plus (of_ℕ 0) ≡ true
    pub burst_plus : eq (wire_value node bursty_loss d).plus (of_ℕ 0) ≡ true
    pub below : le (of_ℕ 100) (min_wire_value node loss d) ≡ false
    pub bursts : lt (of_ℕ 0) (max_wire_value node bursty_loss d) ≡ true

  -- The state after a packet has been looked at: one number is drawn, and the status is h.
  abbrev pub tossed : Sys D → Direction → Health → Sys D
  tossed s d h = record s {
    conn = record s.conn { bursty_loss_status = put d (status_of h) s.conn.bursty_loss_status };
    world = record s.world { drawn = suc s.world.drawn };
  }

  burst_status-move :
      (node : MarkovNode D) (d : Direction) (h : Health) (s : Sys D)
      → burst_status
          (status_of h)
          (div (wire_value node loss d).value (of_ℕ 100))
          (wire_value node bursty_loss d).value
          s
        ≡ ok (
          status_of (move node d h (s.world.randoms s.world.drawn)),
          record s { world = record s.world { drawn = suc s.world.drawn } },
        )
  unfolding burst_status move
  burst_status-move node d good s =
      elim (Bool-cases (lt (s.world.randoms s.world.drawn) (to_bad node d))) [
        | inl e ↦ rw e refl
        | inr e ↦ rw e refl
      ]
  burst_status-move node d bad s =
      elim (Bool-cases (lt (s.world.randoms s.world.drawn) (to_good node d))) [
        | inl e ↦ rw e refl
        | inr e ↦ rw e refl
      ]

  loss_handler-move :
      (node : MarkovNode D) (d : Direction) (h : Health) (packet : Packet) (s : Sys D)
      → IsBursty node d
      → packet.direction ≡ d
      → current s.conn.markov ≡ ok node
      → at d s.conn.bursty_loss_status ≡ status_of h
      → loss_handler packet s
        ≡ ok (
          verdict_of (move node d h (s.world.randoms s.world.drawn)),
          tossed s d (move node d h (s.world.randoms s.world.drawn)),
        )
  unfolding loss_handler gilbert_loss compute_wire_value
  loss_handler-move node d h packet s b same here status =
      let h' = move node d h (s.world.randoms s.world.drawn) in
      rw
        (
          same,
          here,
          b.below,
          b.bursts,
          b.loss_plus,
          b.burst_plus,
          status,
          burst_status-move node d h s,
        )
        (ap (λ v. ok (v, tossed s d h')) (verdict-status h'))

  -- The state after n packets.
  abbrev pub tossed_all : Sys D → Direction → (n : ℕ) → Health → Sys D
  tossed_all s d zero h = s
  tossed_all s d (suc n) h = record s {
    conn = record s.conn { bursty_loss_status = put d (status_of h) s.conn.bursty_loss_status };
    world = record s.world { drawn = s.world.drawn + suc n };
  }

  last_health-none :
      (node : MarkovNode D) (d : Direction) (randoms : ℕ → D) (i n : ℕ) (h : Health)
      → n ≡ 0
      → last_health node d randoms i n h ≡ h
  unfolding last_health
  last_health-none node d randoms i zero h e = refl
  last_health-none node d randoms i (suc n) h e = absurd (omega arith)

  -- One packet, and then n more.
  tossed_all-tossed :
      (s : Sys D) (d : Direction) (h : Health) (n : ℕ) (h' : Health)
      → (n ≡ 0 → h' ≡ h)
      → tossed_all (tossed s d h) d n h' ≡ tossed_all s d (suc n) h'
  tossed_all-tossed s d h zero h' last =
      ap₂
        (λ x k. record s {
          conn = record s.conn {
            bursty_loss_status = put d (status_of x) s.conn.bursty_loss_status;
          };
          world = record s.world { drawn = k };
        })
        (sym (last refl)) (omega arith)
  tossed_all-tossed s d h (suc n) h' last =
      ap₂
        (λ x k. record s {
          conn = record s.conn { bursty_loss_status = x };
          world = record s.world { drawn = k };
        })
        (put-put d (status_of h') (status_of h) s.conn.bursty_loss_status) (omega arith)

  -- On packets of one direction, `lossHandler` does what the Gilbert automaton does on the numbers drawn: it drops
  -- exactly the packets that find the wire in the bad state.
  pub handle_losses-verdicts :
      (node : MarkovNode D) (d : Direction) (packets : List Packet) (h : Health) (s : Sys D)
      → IsBursty node d
      → All (λ p. p.direction ≡ d) packets
      → current s.conn.markov ≡ ok node
      → at d s.conn.bursty_loss_status ≡ status_of h
      → handle_losses packets s
        ≡ ok (
          verdicts node d s.world.randoms s.world.drawn (length packets) h,
          tossed_all s d
              (length packets)
              (last_health node d s.world.randoms s.world.drawn (length packets) h),
        )
  unfolding handle_losses verdicts last_health
  handle_losses-verdicts node d [] h s b same here status = refl
  handle_losses-verdicts node d (packet ∷ packets) h s b same here status =
      let h' = move node d h (s.world.randoms s.world.drawn) in
      let first : loss_handler packet s ≡ ok (verdict_of h', tossed s d h') =
        loss_handler-move node d h packet s b same.0 here status in
      rw
        (
          first,
          handle_losses-verdicts node d packets h' (tossed s d h') b same.1 here
              (at-put_self d (status_of h') s.conn.bursty_loss_status),
        )
        (ap
          (λ s'. ok (
            verdict_of h' ∷ verdicts node d s.world.randoms (suc s.world.drawn) (length packets) h',
            s',
          ))
          (tossed_all-tossed s d h' (length packets)
            (last_health node d s.world.randoms (suc s.world.drawn) (length packets) h')
            (λ e.
              last_health-none node d s.world.randoms (suc s.world.drawn) (length packets) h' e)))
