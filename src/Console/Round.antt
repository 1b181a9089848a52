-- ===== src/Console/Round.antt =====
-- The three blocks of `packetHandlerThread` in libvdeplug_wirefilter.c that serve the management socket, one after
-- the other as in a round of its loop.
pub mod Clients
pub mod Rounds
use vdeplug_wirefilter.Base.{ℕ, Bool, Option, none, some, List, Run, ok, ◌>>=◌}
use vdeplug_wirefilter.Conn.{Conn, Management, Sys}
use vdeplug_wirefilter.Console.{Slot, Console, Greeting, on_connection, on_hang_up}
use vdeplug_wirefilter.Console.Execute.{Host, on_commands}
use vdeplug_wirefilter.Double.{Double, DoubleText}

-- POLL_MNGM, if a connection can be accepted.
unfoldable pub admit : Option Greeting → Console → Console
unfolding on_connection
admit none c = c
admit (some g) c = on_connection g c

unfoldable pub with_management : {D : Type 0} → Sys D → Management → Sys D
with_management s m = record s { conn = record s.conn { management = m } }

module _ {D : Type 0} ⦃double : Double D⦄ ⦃text : DoubleText D⦄ where
  -- The blocks for connections, commands and hang-ups. The number of clients at its start bounds the second one;
  -- the code reads it again in each round.
  unfoldable pub on_management :
      Host D
      → (depth : ℕ) → Option Greeting
      → (ℕ → Option (List ℕ) × Bool)
      → (ℕ → Slot)
      → Sys D
      → Run (Console × Sys D)
  unfolding admit on_commands on_hang_up with_management
  on_management host depth incoming inputs slots s =
      let c = admit incoming (record { management = s.conn.management; slots = slots }) in
      on_commands host depth inputs c.slots c.management.connections_count 1
        (with_management s c.management)
      >>= λ (_, s').
          on_hang_up (record { management = s'.conn.management; slots = c.slots }) >>= λ c'.
          ok (c', with_management s' c'.management)
