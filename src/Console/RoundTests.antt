-- ===== src/Console/RoundTests.antt =====
-- A round of the blocks for the management socket, in which a third client comes in, the second one sends a command
-- and the first one hangs up. Integers stand for doubles.
use vdeplug_wirefilter.Base.{
  ℕ, ◌+◌, ◌≡◌, refl, ap, arith, some, List, [], ◌∷◌, ◌++◌, true, ◌==◌, Bool, Option, Returns,
  returns,
}
use vdeplug_wirefilter.Base.Int.{ℤ, pos}
use vdeplug_wirefilter.Conn.{Management, Sys}
use vdeplug_wirefilter.Conn.Sample.{calm}
use vdeplug_wirefilter.Console.{Slot}
use vdeplug_wirefilter.Console.Accept.{greeting, new_client}
use vdeplug_wirefilter.Console.Clients.{clients, staying, IsSynced}
use vdeplug_wirefilter.Console.CommandTests.{host}
use vdeplug_wirefilter.Console.Keeps.{Whenever}
use vdeplug_wirefilter.Console.Round.{on_management}
use vdeplug_wirefilter.Console.Round.Clients.{fds, on_management_lem}
use vdeplug_wirefilter.Double.Exact.{ℤ_double}
use vdeplug_wirefilter.Double.Whole.{ℤ_text}
use vdeplug_wirefilter.Text.{codes}

-- Client i has descriptor 10 + i.
abbrev two : Management
two = record { mode = 448; connections_count = 2; connections = λ i. 10 + i; debug_level = λ i. 0 }

abbrev slots : ℕ → Slot
slots = λ i. record { fd = pos (9 + i); readable = i == 2; hang_up = i == 1 }

abbrev inputs : ℕ → Option (List ℕ) × Bool
inputs = λ i. (some (codes "setfifo 1"), true)

abbrev start : Sys ℤ
start = record calm { conn = record calm.conn { management = two } }

on_management_lem_example :
    Whenever
      (λ (c', s').
        (s'.conn.management ≡ c'.management)
        × (IsSynced c'
            × (fds (clients c')
                ≡ fds (
                    staying (
                      clients (record { management = two; slots = slots })
                      ++ new_client 30 ∷ [])))))
      (on_management host 3 (some (greeting 30)) inputs slots start)
on_management_lem_example =
    on_management_lem host 3 (some (greeting 30)) inputs slots start
      (record {
        room = omega arith;
        slots = λ i p. ap pos (omega arith);
        apart = λ i j p q. omega arith;
      })
      (record { positive = λ fd e. grind arith; apart = λ fd e i p. grind arith; calm = refl })

-- The clients that are left.
left :
    Returns
      (λ (c', s'). fds (clients c') ≡ 11 ∷ 30 ∷ [])
      (on_management host 3 (some (greeting 30)) inputs slots start)
unfolding on_management
left = returns refl
