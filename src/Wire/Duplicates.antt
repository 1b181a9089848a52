-- ===== src/Wire/Duplicates.antt =====
-- The duplicates of a packet on a wire whose other values are 0.
use mathlib.Core.List.{append_assoc, append-nil}
use vdeplug_wirefilter.Base.{
  ℕ, zero, suc, ◌+◌, ◌*◌, ◌<◌, ◌≡◌, refl, sym, ap₂, ◌∙◌, arith, true, false, ◌&&◌, ltb, ◌==◌, List,
  [], ◌∷◌, ◌++◌, Run, ok,
}
use vdeplug_wirefilter.Conn.{Sys, Event}
use vdeplug_wirefilter.Double.{Double}
use vdeplug_wirefilter.Double.Exact.{HasZero}
use vdeplug_wirefilter.Markov.{MarkovNode, wire_value, current, max_wire_value, dup}
use vdeplug_wirefilter.Packet.{Packet}
use vdeplug_wirefilter.Queue.{fifo}
use vdeplug_wirefilter.Wire.Forward.{delivery, handle_packet, handle_copies}
use vdeplug_wirefilter.Wire.Handlers.{duplicates_loop, duplicates_handler}
use vdeplug_wirefilter.Wire.Plain.{
  IsPlain, undrawn, mtu_handler-plain, loss_handler-plain, handle_copy-plain,
}
use vdeplug_wirefilter.Wire.Send.{IsRead}
use vdeplug_wirefilter.Wire.Value.{compute_wire_value}

-- `n` times the same.
abbrev pub replicate {ℓ} : {A : Type ℓ} → ℕ → A → List A
replicate zero a = []
replicate (suc n) a = a ∷ replicate n a

module _ {D : Type 0} ⦃double : Double D⦄ where
  open double use {of_ℕ, div, lt, eq}

  -- The first `k` numbers from the i-th on are below the chance, and the next one is not.
  abbrev pub RunOf : (ℕ → D) → D → ℕ → ℕ → Type 0
  RunOf randoms chance i zero = lt (randoms i) chance ≡ false
  RunOf randoms chance i (suc k) = (lt (randoms i) chance ≡ true) × RunOf randoms chance (suc i) k

  abbrev with_drawn : Sys D → ℕ → Sys D
  with_drawn s n = record s { world = record s.world { drawn = n } }

  -- `k` more numbers drawn.
  abbrev pub drawn_on : Sys D → ℕ → Sys D
  drawn_on s k = with_drawn s (s.world.drawn + k)

  counted :
      (s : Sys D) {t t' n n' : ℕ}
      → t ≡ t'
      → n ≡ n'
      → Path (Run (ℕ × Sys D)) (ok (t, with_drawn s n)) (ok (t', with_drawn s n'))
  counted s = ap₂ (λ t n. ok (t, with_drawn s n))

  module _ (node : MarkovNode D) (packet : Packet) where
    -- The chance of a duplicate.
    abbrev pub dup_chance : D
    dup_chance = div (wire_value node dup packet.direction).value (of_ℕ 100)

    -- `duplicatesHandler` counts the numbers that are below the chance, up to the first one that is not.
    duplicates_loop_lem :
        (k f times : ℕ) (s : Sys D)
        → k < f
        → eq (wire_value node dup packet.direction).plus (of_ℕ 0) ≡ true
        → RunOf s.world.randoms dup_chance s.world.drawn k
        → duplicates_loop f node packet times s ≡ ok (times + k, drawn_on s (k + 1))
    unfolding duplicates_loop compute_wire_value
    duplicates_loop_lem k zero times s enough fixed run = absurd (omega arith)
    duplicates_loop_lem zero (suc f) times s enough fixed run =
        rw (fixed, run) (counted s (omega arith) (omega arith))
    duplicates_loop_lem (suc k) (suc f) times s enough fixed (below, run) =
        rw (fixed, below)
          (duplicates_loop_lem k f (times + 1) (with_drawn s (suc s.world.drawn)) (omega arith)
              fixed run
            ∙ counted s (omega arith) (omega arith))

    duplicates_handler_lem :
        (k : ℕ) (s : Sys D)
        → k < s.world.patience
        → current s.conn.markov ≡ ok node
        → lt (of_ℕ 0) (max_wire_value node dup packet.direction) ≡ true
        → eq (wire_value node dup packet.direction).plus (of_ℕ 0) ≡ true
        → RunOf s.world.randoms dup_chance s.world.drawn k
        → duplicates_handler packet s ≡ ok (k, drawn_on s (k + 1))
    unfolding duplicates_handler
    duplicates_handler_lem k s enough here some_dup fixed run =
        rw (here, some_dup)
          (duplicates_loop_lem k s.world.patience 0 s enough fixed run
            ∙ counted s (omega arith) refl)

    module _ (laws : HasZero D) (plain : IsPlain node packet.direction) where
      abbrev advanced : Sys D → ℕ → List Event → Sys D
      advanced s asked events = record s {
        world = record s.world { asked = asked; events = events };
      }

      -- The state after `n` copies of the packet.
      abbrev pub copies_sent : Sys D → ℕ → Sys D
      copies_sent s n =
          advanced s (s.world.asked + 2 * n) (s.world.events ++ replicate n (delivery packet))

      advanced_path :
          (s : Sys D) {a a' : ℕ} {es es' : List Event}
          → a ≡ a'
          → es ≡ es'
          → Path (Run (Unit {0} × Sys D)) (ok (tt, advanced s a es)) (ok (tt, advanced s a' es'))
      advanced_path s = ap₂ (λ a es. ok (tt, advanced s a es))

      handle_copies-plain :
          (n : ℕ) (s : Sys D)
          → current s.conn.markov ≡ ok node
          → s.conn.blink.socket_fd ≡ 0
          → IsRead packet.direction s.world.reader
          → (s.conn.queue.fifoness == fifo && ltb 0 s.conn.queue.size) ≡ false
          → ((i : ℕ) → s.world.memory i ≡ true)
          → handle_copies n packet s ≡ ok (tt, copies_sent s n)
      unfolding handle_copies
      handle_copies-plain zero s here quiet read free memory =
          advanced_path s (omega arith) (sym (append-nil s.world.events))
      handle_copies-plain (suc n) s here quiet read free memory =
          let s' = advanced s (suc (suc s.world.asked)) (s.world.events ++ delivery packet ∷ []) in
          rw
            (handle_copy-plain laws packet node plain s here quiet read free (memory s.world.asked)
              (memory (suc s.world.asked)))
            (handle_copies-plain n s' here quiet read free memory
              ∙ advanced_path s (omega arith) (
                  append_assoc s.world.events (delivery packet ∷ [])
                    (replicate n (delivery packet))))

      no_duplicates :
          (s : Sys D)
          → current s.conn.markov ≡ ok node
          → lt (of_ℕ 0) (max_wire_value node dup packet.direction) ≡ false
          → duplicates_handler packet s ≡ ok (0, s)
      unfolding duplicates_handler
      no_duplicates s here none_wanted = rw (here, none_wanted) refl

      -- A wire whose values are all 0 in the packet's direction delivers the packet unchanged, exactly once and
      -- at once, unless packets wait in a queue in FIFO mode. It draws one number, for the loss, which is
      -- not below 0, asks for two blocks of memory, which are granted, and ends any burst of losses. There
      -- is no blink socket, and a packet to the program is read.
      pub handle_packet-plain :
          (s : Sys D)
          → current s.conn.markov ≡ ok node
          → s.conn.blink.socket_fd ≡ 0
          → IsRead packet.direction s.world.reader
          → (s.conn.queue.fifoness == fifo && ltb 0 s.conn.queue.size) ≡ false
          → ((i : ℕ) → s.world.memory i ≡ true)
          → lt (s.world.randoms s.world.drawn) (of_ℕ 0) ≡ false
          → lt (of_ℕ 0) (max_wire_value node dup packet.direction) ≡ false
          → handle_packet packet s ≡ ok (tt, copies_sent (undrawn laws packet node plain s) 1)
      unfolding handle_packet
      handle_packet-plain s here quiet read free memory random none_wanted =
          let s' = undrawn laws packet node plain s in
          rw
            (
              mtu_handler-plain laws packet node plain s here,
              loss_handler-plain laws packet node plain s here random,
              no_duplicates s' here none_wanted,
              handle_copies-plain 1 s' here quiet read free memory,
            )
            refl

      -- With a chance of duplicates, and all other values 0, the wire delivers the packet once and then
      -- once more for each number drawn that is below the chance, up to the first one that is not: k + 1
      -- equal copies when k of them are. There is no blink socket, the program reads packets that come in for it, no packet waits in FIFO mode, all memory is
      -- granted, the number for the loss is not below 0, and the loop is granted more than k rounds.
      pub handle_packet-duplicates :
          (k : ℕ) (s : Sys D)
          → current s.conn.markov ≡ ok node
          → s.conn.blink.socket_fd ≡ 0
          → IsRead packet.direction s.world.reader
          → (s.conn.queue.fifoness == fifo && ltb 0 s.conn.queue.size) ≡ false
          → ((i : ℕ) → s.world.memory i ≡ true)
          → lt (s.world.randoms s.world.drawn) (of_ℕ 0) ≡ false
          → lt (of_ℕ 0) (max_wire_value node dup packet.direction) ≡ true
          → eq (wire_value node dup packet.direction).plus (of_ℕ 0) ≡ true
          → RunOf s.world.randoms dup_chance (suc s.world.drawn) k
          → k < s.world.patience
          → handle_packet packet s
            ≡ ok (tt, copies_sent (drawn_on (undrawn laws packet node plain s) (k + 1)) (1 + k))
      unfolding handle_packet
      handle_packet-duplicates k s here quiet read free memory random wanted fixed run enough =
          let s' = undrawn laws packet node plain s in
          rw
            (
              mtu_handler-plain laws packet node plain s here,
              loss_handler-plain laws packet node plain s here random,
              duplicates_handler_lem k s' enough here wanted fixed run,
              handle_copies-plain (1 + k) (drawn_on s' (k + 1)) here quiet read free memory,
            )
            refl
