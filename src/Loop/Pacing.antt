-- ===== src/Loop/Pacing.antt =====
-- The speed of the interface from right to left: what `speedHandler` notes for a packet, and how
-- POLL_PIPE_RL and POLL_SPEED_TIMER hold back the next one.
use vdeplug_wirefilter.Base.{
  ℕ, suc, ◌-◌, ◌<◌, ◌≡◌, refl, arith, true, false, if◌then◌else◌, ltb, Option, List, [], ◌∷◌, ◌++◌,
  ok,
}
use vdeplug_wirefilter.Conn.{Sys, timer}
use vdeplug_wirefilter.Conn.Monad.{◌>>=◌}
use vdeplug_wirefilter.Double.{Double}
use vdeplug_wirefilter.Loop.{go_on, on_pipe_rl}
use vdeplug_wirefilter.Packet.{Packet, right_to_left, put}
use vdeplug_wirefilter.Time.{set_timer, is_armed, set_timer_lem}
use vdeplug_wirefilter.Wire.Handlers.{later, send_time, pace_speed}

module _ {D : Type 0} ⦃double : Double D⦄ where
  -- The time from which on the next packet may come, after one at time `t`.
  abbrev pub free_from : Sys D → Packet → D → ℕ
  free_from s packet rate =
      let t = s.world.clock s.world.ticks in
      let next = s.conn.speed_next.rl in
      later (if ltb next t then t else next) (send_time packet rate)

  -- The state behind `speedHandler`.
  abbrev pub paced : Sys D → Packet → D → Sys D
  paced s packet rate = record s {
    conn = record s.conn {
      speed_next = put right_to_left (free_from s packet rate) s.conn.speed_next;
    };
    world = record s.world { ticks = suc s.world.ticks };
  }

  -- The state when a packet is held back: the timer runs for the time that is left.
  abbrev pub held_back : Sys D → Packet → D → Sys D
  held_back s packet rate = record (paced s packet rate) {
    world = record s.world {
      ticks = suc (suc s.world.ticks);
      events =
          s.world.events
          ++ timer s.conn.speed_timer
              (set_timer (free_from s packet rate - s.world.clock (suc s.world.ticks)))
            ∷ [];
    };
  }

  pace_speed-paced :
      (s : Sys D) (packet : Packet) (rate : D)
      → packet.direction ≡ right_to_left
      → pace_speed packet rate s ≡ ok (send_time packet rate, paced s packet rate)
  unfolding pace_speed
  pace_speed-paced s packet rate d = rw d refl

  -- After a packet from right to left at some speed, the next one is held back as long as the clock
  -- has not reached the end of its sending time, counted from its arrival or from the end of the one
  -- before. Nothing is received then, the descriptor is not listened to, and the speed timer is armed
  -- for exactly the time that is left.
  pub on_pipe_rl-paced :
      (s : Sys D) (packet : Packet) (rate : D) (received : Option (List ℕ))
      → packet.direction ≡ right_to_left
      → s.world.clock (suc s.world.ticks) < free_from s packet rate
      → ((pace_speed packet rate >>= λ _. on_pipe_rl received) s
          ≡ ok ((false, go_on), held_back s packet rate))
        × (is_armed (set_timer (free_from s packet rate - s.world.clock (suc s.world.ticks)))
            ≡ true)
  unfolding on_pipe_rl
  on_pipe_rl-paced s packet rate received d early =
      let closed : ltb (s.world.clock (suc s.world.ticks)) (free_from s packet rate) ≡ true =
        ground arith in
      (
        rw (pace_speed-paced s packet rate d, closed) refl,
        (set_timer_lem (free_from s packet rate - s.world.clock (suc s.world.ticks))).2.1
            (ground arith),
      )
