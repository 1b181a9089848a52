-- ===== src/Conn/Monad.antt =====
-- Functions on a connection and its world, and the calls that the code makes of the world.
use vdeplug_wirefilter.Base.{ℕ, suc, Bool, [], ◌∷◌, ◌++◌, Run, ok, ◌>>=◌ as run_bind}
use vdeplug_wirefilter.Conn.{Conn, Sys, Event}
use vdeplug_wirefilter.Markov.{MarkovNode, current}

abbrev pub M : Type 0 → Type 0 → Type 0
M D A = Sys D → Run (A × Sys D)

module _ {D : Type 0} where
  infixl 5 ◌>>=◌ ◌>>◌
  abbrev pub ◌>>=◌ : {A B : Type 0} → M D A → (A → M D B) → M D B
  ◌>>=◌ m f s = run_bind (m s) (λ (a, s'). f a s')

  abbrev pub ◌>>◌ : {B : Type 0} → M D (Unit {0}) → M D B → M D B
  m >> k = m >>= λ _. k

  abbrev pub pure : {A : Type 0} → A → M D A
  pure a s = ok (a, s)

  -- A call that neither reads nor writes the state.
  abbrev pub lift : {A : Type 0} → Run A → M D A
  lift r s = run_bind r (λ a. ok (a, s))

  abbrev pub get_conn : M D (Conn D)
  get_conn s = ok (s.conn, s)

  abbrev pub set_conn : Conn D → M D (Unit {0})
  set_conn c s = ok (tt, record s { conn = c })

  abbrev pub patience : M D ℕ
  patience s = ok (s.world.patience, s)

  abbrev pub drand48 : M D D
  drand48 s = ok (
    s.world.randoms s.world.drawn,
    record s { world = record s.world { drawn = suc s.world.drawn } },
  )

  abbrev pub now : M D ℕ
  now s = ok (
    s.world.clock s.world.ticks,
    record s { world = record s.world { ticks = suc s.world.ticks } },
  )

  abbrev pub malloc : M D Bool
  malloc s = ok (
    s.world.memory s.world.asked,
    record s { world = record s.world { asked = suc s.world.asked } },
  )

  abbrev pub emit : Event → M D (Unit {0})
  emit e s = ok (tt, record s { world = record s.world { events = s.world.events ++ e ∷ [] } })

  -- MARKOV_CURRENT
  abbrev pub current_node : M D (MarkovNode D)
  current_node = do c ← get_conn; lift (current c.markov)
