-- ===== src/Console/Debug.antt =====
-- `markovSetDebugLevel` of includes/wf_management.c: a client sets its own debug level.
use vdeplug_wirefilter.Base.{
  ℕ, zero, suc, ◌+◌, ◌<◌, ◌≡◌, ◌≢◌, refl, sym, ap, subst, ◌∙◌, arith, true, false, ◌==◌, write,
  Option, none, some,
}
use vdeplug_wirefilter.Base.Int.{ℤ, pos, negsuc, eq_ℤ-pos}
use vdeplug_wirefilter.Conn.{Management}
use vdeplug_wirefilter.Console.Setters.{einval, debug_level_loop, debug_level_of}

module _ (m : Management) (fd level : ℕ) where
  debug_level_loop-found :
      (left i k : ℕ)
      → k < left
      → m.connections (i + k) ≡ fd
      → ((j : ℕ) → j < k → m.connections (i + j) ≢ fd)
      → debug_level_loop left i fd level m
        ≡ (pos 0, record m { debug_level = write m.debug_level (i + k) level })
  unfolding debug_level_loop
  debug_level_loop-found zero i k h e first = absurd (omega arith)
  debug_level_loop-found (suc left) i zero h e first =
      let here : (m.connections i == fd) ≡ true = ground (arith, e) in
      rw (eq_ℤ-pos (m.connections i) fd, here)
        (ap (λ k. (pos 0, record m { debug_level = write m.debug_level k level })) (omega arith))
  debug_level_loop-found (suc left) i (suc k) h e first =
      let start = first 0 (omega arith) in
      let other : (m.connections i == fd) ≡ false = ground (arith, start) in
      let next : i + suc k ≡ i + 1 + k = omega arith in
      rw (eq_ℤ-pos (m.connections i) fd, other)
        (debug_level_loop-found left (i + 1) k (omega arith) (ap m.connections (sym next) ∙ e)
            (λ j l. subst (λ x. m.connections x ≢ fd) (omega arith) (first (suc j) (omega arith)))
          ∙ ap (λ x. (pos 0, record m { debug_level = write m.debug_level x level })) (sym next))

  debug_level_loop-missing :
      (left i : ℕ)
      → ((j : ℕ) → j < left → m.connections (i + j) ≢ fd)
      → debug_level_loop left i fd level m ≡ (pos einval, m)
  unfolding debug_level_loop
  debug_level_loop-missing zero i other = refl
  debug_level_loop-missing (suc left) i strange =
      let start = strange 0 (omega arith) in
      let other : (m.connections i == fd) ≡ false = ground (arith, start) in
      rw (eq_ℤ-pos (m.connections i) fd, other)
        (debug_level_loop-missing left (i + 1)
          (λ j l. subst (λ x. m.connections x ≢ fd) (omega arith) (strange (suc j) (omega arith))))

debug_level_of-missing :
    (m : Management) (fd : ℕ) (level : ℤ)
    → ((j : ℕ) → j < m.connections_count → m.connections j ≢ fd)
    → debug_level_of (pos fd) level m ≡ (pos einval, m)
unfolding debug_level_of
debug_level_of-missing m fd (negsuc n) strange = refl
debug_level_of-missing m fd (pos level) strange =
    debug_level_loop-missing m fd level m.connections_count 0
      (λ j l. subst (λ x. m.connections x ≢ fd) (omega arith) (strange j l))

-- The first client with a descriptor, if there is one.
unfoldable pub IsFirst : Management → ℕ → Option ℕ → Type 0
IsFirst m fd none = (j : ℕ) → j < m.connections_count → m.connections j ≢ fd
IsFirst m fd (some k) =
    (k < m.connections_count) × (m.connections k ≡ fd) × ((j : ℕ) → j < k → m.connections j ≢ fd)

-- EINVAL without such a client or with a level below 0; else the level of that client is set.
abbrev pub level_answer : Management → Option ℕ → ℤ → ℤ × Management
level_answer m none level = (pos einval, m)
level_answer m (some k) (negsuc n) = (pos einval, m)
level_answer m (some k) (pos level) =
    (pos 0, record m { debug_level = write m.debug_level k level })

-- A client that asks for a debug level gets it: the level of the first client with its descriptor is set and
-- nothing else of the clients changes. For a descriptor of no client, and for a level below 0, the result is
-- EINVAL and nothing changes.
pub debug_level_of_lem :
    (m : Management) (fd : ℕ) (level : ℤ) (who : Option ℕ)
    → IsFirst m fd who
    → debug_level_of (pos fd) level m ≡ level_answer m who level
unfolding debug_level_of IsFirst
debug_level_of_lem m fd level none h = debug_level_of-missing m fd level h
debug_level_of_lem m fd (negsuc n) (some k) h = refl
debug_level_of_lem m fd (pos level) (some k) (h, e, first) =
    debug_level_loop-found m fd level m.connections_count 0 k h (ap m.connections (omega arith) ∙ e)
      (λ j l. subst (λ x. m.connections x ≢ fd) (omega arith) (first j l))
    ∙ ap (λ x. (pos 0, record m { debug_level = write m.debug_level x level })) (omega arith)
