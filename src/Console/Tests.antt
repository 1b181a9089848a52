-- ===== src/Console/Tests.antt =====
-- Three clients, of which the first and the last hang up.
use vdeplug_wirefilter.Base.{ℕ, ◌+◌, ◌≤◌, ap, ◌≡◌, refl, arith, false, ◌==◌, ◌||◌, [], ◌∷◌, Returns}
use vdeplug_wirefilter.Base.Int.{pos}
use vdeplug_wirefilter.Console.{Console, on_hang_up}
use vdeplug_wirefilter.Console.Clients.{Client, clients, staying, IsSynced}
use vdeplug_wirefilter.Console.HangUp.{on_hang_up_lem}

-- Client i has descriptor 10 + i and debug level i.
abbrev console : ℕ → Console
console count = record {
  management = record {
    mode = 448;
    connections_count = count;
    connections = λ i. 10 + i;
    debug_level = λ i. i;
  };
  slots = λ i. record { fd = pos (9 + i); readable = false; hang_up = i == 1 || i == 3 };
}

console-IsSynced : (count : ℕ) → count ≤ 3 → IsSynced (console count)
console-IsSynced count h = record {
  room = h;
  slots = λ i p. ap pos (omega arith);
  apart = λ i j p q. omega arith;
}

abbrev second : Client
second = record { fd = 11; debug_level = 1; hang_up = false }

staying_second : staying (clients (console 3)) ≡ second ∷ []
staying_second = refl

on_hang_up_lem_example :
    Returns (λ c'. IsSynced c' × (clients c' ≡ second ∷ [])) (on_hang_up (console 3))
on_hang_up_lem_example = on_hang_up_lem (console 3) (console-IsSynced 3 (omega arith))
