-- ===== src/Time.antt =====
-- includes/wf_time.c and includes/wf_time.h: the clock and the timers.
use vdeplug_wirefilter.Base.{
  ℕ, ◌+◌, ◌*◌, ◌/◌, ◌%◌, ◌^◌, ◌<◌, ◌≡◌, ◌↔◌, Bool, true, not, ◌&&◌, arith, ◌==◌, u64_mod,
}

abbrev pub ns_per_s : ℕ
ns_per_s = 1_000_000_000

-- The factor of MS_TO_NS and NS_TO_MS.
abbrev pub ns_per_ms : ℕ
ns_per_ms = 1_000_000

-- `now_ns` of a `struct timeval`.
unfoldable pub now_ns : ℕ → ℕ → ℕ
now_ns tv_sec tv_usec = (tv_sec * ns_per_s + tv_usec * 1000) % u64_mod

-- The `it_value` of a `struct itimerspec`; the interval is always zero.
pub record TimerSpec : Type 0 where
  pub seconds : ℕ
  pub nseconds : ℕ

unfoldable pub set_timer : ℕ → TimerSpec
set_timer ns_time = record { seconds = ns_time / ns_per_s; nseconds = ns_time % ns_per_s }

abbrev pub disarm_timer : TimerSpec
disarm_timer = record { seconds = 0; nseconds = 0 }

-- `timerfd_settime` arms a timer unless both members are zero.
abbrev pub is_armed : TimerSpec → Bool
is_armed t = not (t.seconds == 0 && t.nseconds == 0)

-- `setTimer` hands over the whole time, in a form that `timerfd_settime` accepts (less than a second of
-- nanoseconds), and arms the timer exactly when the time is not 0.
pub set_timer_lem :
    (t : ℕ)
    → ((set_timer t).seconds * ns_per_s + (set_timer t).nseconds ≡ t)
      × ((set_timer t).nseconds < ns_per_s)
      × ((is_armed (set_timer t) ≡ true) ↔ (0 < t))
unfolding set_timer
set_timer_lem t = (omega arith, omega arith, ground arith)

-- `now_ns` orders two times as the pairs of their seconds and microseconds, as long as 64 bits hold them.
now_ns-lt :
    (s u s' u' : ℕ)
    → u < 1_000_000
    → u' < 1_000_000
    → s < 2 ^ 34
    → s' < 2 ^ 34
    → (now_ns s u < now_ns s' u') ↔ (s * 1_000_000 + u < s' * 1_000_000 + u')
unfolding now_ns
now_ns-lt s u s' u' h h' k k' = (λ p. omega arith, λ p. omega arith)
