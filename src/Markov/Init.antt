-- ===== src/Markov/Init.antt =====
-- `initMarkov` of includes/wf_markov.c, on the memory that `vde_wirefilter_open` has from `calloc`.
use vdeplug_wirefilter.Base.{
  ℕ, ◌≡◌, refl, Bool, true, false, if◌then◌else◌, Option, none, some, Run, ok, ◌>>=◌,
}
use vdeplug_wirefilter.Base.Int.{ℤ, pos, leb_ℤ}
use vdeplug_wirefilter.Double.{Double}
use vdeplug_wirefilter.Markov.{
  Markov, MarkovNode, zero_node, current, markov_resize, resize_nodes, resize_adjacency,
  copy_adjacency,
}
use vdeplug_wirefilter.Markov.Resize.{IsChain}

module _ {D : Type 0} ⦃double : Double D⦄ where
  open double use {of_ℕ}

  -- The `markov` member of a new connection: all pointers are NULL and all numbers 0; what the memory
  -- holds to which there is no pointer is left open.
  abbrev pub unset_markov : (ℕ → MarkovNode D) → (ℕ → D) → Markov D
  unset_markov nodes adjacency = record {
    nodes = nodes;
    allocated = false;
    capacity = 0;
    current_node = pos 0;
    nodes_count = 0;
    adjacency = adjacency;
    change_frequency = 0;
    timerfd = 0;
  }

  -- The rest of `initMarkov`; `none` is the return of -1.
  unfoldable pub start_markov : Option ℕ → ℤ → ℕ → Bool × Markov D → Option (Markov D)
  start_markov timerfd start_node change_frequency (false, m) = none
  start_markov none start_node change_frequency (true, m) = none
  start_markov (some timerfd) start_node change_frequency (true, m) = some (record m {
    current_node = start_node;
    timerfd = timerfd;
    change_frequency = change_frequency;
  })

  unfoldable pub init_markov :
      (array : Bool)
      → (ℕ → Bool)
      → (adjacency : Bool) → Option ℕ
      → Markov D
      → ℤ
      → ℤ
      → ℕ
      → Run (Option (Markov D))
  unfolding start_markov
  init_markov array node adjacency timerfd m size start_node change_frequency =
      let n = if leb_ℤ size (pos 0) then pos 1 else size in
      markov_resize array node adjacency m n >>= λ resized.
      ok (start_markov timerfd start_node change_frequency resized)

  -- A chain with one node, whose values are all 0, and whose one edge has the weight 100.
  pub record Fresh (change_frequency : ℕ) (m : Markov D) : Type 0 where
    pub chain : IsChain m
    pub node : current m ≡ ok zero_node
    pub edge : m.adjacency 0 ≡ of_ℕ 100
    pub period : m.change_frequency ≡ change_frequency
    pub one_node : m.nodes_count ≡ 1
    pub start_node : m.current_node ≡ pos 0

  -- As `vde_wirefilter_open` calls it, with all memory granted, `initMarkov` succeeds, and the wire starts
  -- at the one node of a well-formed chain. All the values of that node are 0.
  pub init_markov-Fresh :
      (nodes : ℕ → MarkovNode D) (adjacency : ℕ → D) (timerfd change_frequency : ℕ)
      → (m : Markov D) × (init_markov true
            (λ _. true)
            true
            (some timerfd)
            (unset_markov nodes adjacency)
            (pos 1)
            (pos 0)
            change_frequency
          ≡ ok (some m))
        × Fresh change_frequency m
  unfolding init_markov markov_resize resize_nodes resize_adjacency copy_adjacency
  init_markov-Fresh nodes adjacency timerfd change_frequency = (
    _,
    refl,
    record {
      chain = record { allocated = refl; capacity = refl; within = refl };
      node = refl;
      edge = refl;
      period = refl;
      one_node = refl;
      start_node = refl;
    },
  )
