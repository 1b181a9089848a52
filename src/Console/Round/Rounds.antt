-- ===== src/Console/Round/Rounds.antt =====
-- The rounds of `packetHandlerThread` of libvdeplug_wirefilter.c, as far as the management socket sees them: `poll`
-- finds something, the blocks for packets and timers run, and then those for the management socket.
use vdeplug_wirefilter.Base.{ℕ, ◌+◌, ◌<◌, ◌≡◌, sym, ap, subst, ◌∙◌, arith, Bool, Option, List, ok}
use vdeplug_wirefilter.Base.Int.{pos}
use vdeplug_wirefilter.Conn.{Management, Sys, World}
use vdeplug_wirefilter.Console.{Slot, Console, Greeting}
use vdeplug_wirefilter.Console.Clients.{IsSynced}
use vdeplug_wirefilter.Console.Execute.{Host}
use vdeplug_wirefilter.Console.Keeps.{Whenever, whenever}
use vdeplug_wirefilter.Console.Round.{on_management}
use vdeplug_wirefilter.Console.Round.Clients.{IsFresh, on_management_lem}
use vdeplug_wirefilter.Double.{Double, DoubleText}
use vdeplug_wirefilter.Plugin.{Opening}
use vdeplug_wirefilter.Plugin.Opened.{IsNew}

Whenever-ok {ℓ κ} : {A : Type ℓ} {P : A → Type κ} {a : A} → Whenever P (ok a) → P a
Whenever-ok (whenever p) = p

abbrev pub console_of : {D : Type 0} → Sys D → (ℕ → Slot) → Console
console_of s slots = record { management = s.conn.management; slots = slots }

-- What the first part of a round may do to the two: `poll` changes what is ready, and the blocks before those for
-- the management socket do not touch the clients.
pub record IsPolled (c c' : Console) : Type 0 where
  pub management : c'.management ≡ c.management
  pub fd : (i : ℕ) → (c'.slots i).fd ≡ (c.slots i).fd

IsPolled-IsSynced : (c c' : Console) → IsPolled c c' → IsSynced c → IsSynced c'
IsPolled-IsSynced c c' p s = record {
  room = rw p.management s.room;
  slots = λ i h.
      p.fd (i + 1)
      ∙ s.slots i (subst (λ (m : Management). i < m.connections_count) p.management h)
      ∙ ap (λ (m : Management). pos (m.connections i)) (sym p.management);
  apart = rw p.management s.apart;
}

module _ {D : Type 0} ⦃double : Double D⦄ ⦃text : DoubleText D⦄ where
  -- The rounds from a state to one of the next, each of which returns.
  pub data Rounds (host : Host D) (depth : ℕ) (s₀ : Sys D) (slots₀ : ℕ → Slot)
      : Sys D → (ℕ → Slot) → Type 0 where
    begun : Rounds host depth s₀ slots₀ s₀ slots₀
    round :
        (s s' s'' : Sys D) (slots slots' : ℕ → Slot) (c : Console) (incoming : Option Greeting)
        (inputs : ℕ → Option (List ℕ) × Bool)
        → Rounds host depth s₀ slots₀ s slots
        → IsPolled (console_of s slots) (console_of s' slots')
        → IsFresh incoming (console_of s' slots')
        → on_management host depth incoming inputs slots' s' ≡ ok (c, s'')
        → Rounds host depth s₀ slots₀ s'' c.slots

  rounds_lem :
      (host : Host D) (depth : ℕ) (s₀ : Sys D) (slots₀ : ℕ → Slot) (s : Sys D) (slots : ℕ → Slot)
      → IsSynced (console_of s₀ slots₀)
      → Rounds host depth s₀ slots₀ s slots
      → IsSynced (console_of s slots)
  rounds_lem host depth s₀ slots₀ s slots synced begun = synced
  rounds_lem host depth s₀ slots₀ s slots synced
        (round s1 s2 s3 slots1 slots2 c incoming inputs before polled fresh e) =
      let was = rounds_lem host depth s₀ slots₀ s1 slots1 synced before in
      let now = Whenever-ok (
        subst (Whenever _) e (
          on_management_lem host depth incoming inputs slots2 s2
            (IsPolled-IsSynced (console_of s1 slots1) (console_of s2 slots2) polled was) fresh)) in
      subst (λ (m : Management). IsSynced (record { management = m; slots = c.slots })) (sym now.0)
        now.1.0

  -- From a connection as it is opened, after any number of rounds of the event loop that return, with whatever the
  -- clients send: there are at most 3 clients, no descriptor serves two of them, and each poll descriptor belongs
  -- to its client. In each round a descriptor that comes in is above 0 and new, `poll` finds no hang-up at the entry
  -- behind the last client, and the blocks for packets and timers do not touch the clients.
  pub Rounds-IsSynced :
      (host : Host D) (depth : ℕ) (world : World D) (o : Opening D) (new : IsNew world o)
      (s : Sys D) (slots₀ slots : ℕ → Slot)
      → Rounds host depth new.state slots₀ s slots
      → IsSynced (console_of s slots)
  Rounds-IsSynced host depth world o new s slots₀ slots rounds =
      rounds_lem host depth new.state slots₀ s slots
        (record {
          room = omega (arith, new.unconnected);
          slots = λ i h. absurd (omega (arith, h, new.unconnected));
          apart = λ i j h k. absurd (omega (arith, h, new.unconnected));
        })
        rounds
