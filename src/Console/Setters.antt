-- ===== src/Console/Setters.antt =====
-- The commands of includes/wf_management.c that change the state. The result of a command is what its
-- function returns.
use vdeplug_wirefilter.Base.{
  ℕ, zero, suc, ◌+◌, ◌-◌, ◌*◌, ◌%◌, Bool, if◌then◌else◌, write, u64_mod, some, List, Run, ok,
  exited, ◌>>=◌ as run_bind,
}
use vdeplug_wirefilter.Base.Int.{ℤ, pos, negsuc, pos_part, eq_ℤ}
use vdeplug_wirefilter.Conn.{Management, timer}
use vdeplug_wirefilter.Conn.Monad.{M, pure, lift, get_conn, set_conn, emit, ◌>>=◌, ◌>>◌}
use vdeplug_wirefilter.Double.{Double, DoubleText}
use vdeplug_wirefilter.Markov.{Markov, markov_resize}
use vdeplug_wirefilter.Markov.Edges.{EdgeVars, set_edges}
use vdeplug_wirefilter.Markov.Names.{set_names}
use vdeplug_wirefilter.Markov.Parse.{set_wire_value}
use vdeplug_wirefilter.Text.{atoi}
use vdeplug_wirefilter.Time.{ns_per_ms, set_timer}

abbrev pub einval : ℕ
einval = 22

abbrev pub enosys : ℕ
enosys = 38

-- The conversion of an `int` to a `char` and of a `long long` to a `uint64_t`.
abbrev pub byte_of : ℤ → ℕ
byte_of (pos n) = n % 256
byte_of (negsuc n) = 255 - n % 256

abbrev pub u64_of : ℤ → ℕ
u64_of (pos n) = n % u64_mod
u64_of (negsuc n) = u64_mod - 1 - n % u64_mod

-- MS_TO_NS of a `long long`, stored as a `uint64_t`.
abbrev pub ms_to_ns : ℤ → ℕ
ms_to_ns ms = u64_of ms * ns_per_ms % u64_mod

-- The loop of `markovSetDebugLevel`, with `left` clients to look at from the i-th on.
unfoldable pub debug_level_loop : (left i : ℕ) → ℕ → ℕ → Management → ℤ × Management
debug_level_loop zero i fd level m = (pos einval, m)
debug_level_loop (suc left) i fd level m =
    let more = debug_level_loop left (i + 1) fd level m in
    if eq_ℤ (pos (m.connections i)) (pos fd)
    then (pos 0, record m { debug_level = write m.debug_level i level })
    else more

unfoldable pub debug_level_of : ℤ → ℤ → Management → ℤ × Management
unfolding debug_level_loop
debug_level_of (negsuc fd) level m = (pos einval, m)
debug_level_of (pos fd) (negsuc level) m = (pos einval, m)
debug_level_of (pos fd) (pos level) m = debug_level_loop m.connections_count 0 fd level m

module _ {D : Type 0} where
  -- The chain is replaced by what a function makes of it.
  unfoldable pub update_markov : (Markov D → Run (Markov D)) → M D ℤ
  update_markov f = do
    c ← get_conn
    markov ← lift (f c.markov)
    set_conn (record c { markov = markov })
    pure (pos 0)

  unfoldable pub set_fifo : List ℕ → M D ℤ
  unfolding atoi
  set_fifo arg = do
    c ← get_conn
    set_conn (record c { queue = record c.queue { fifoness = byte_of (atoi arg) } })
    pure (pos 0)

  unfoldable pub set_current_node : List ℕ → M D ℤ
  unfolding update_markov atoi
  set_current_node arg = update_markov (λ m. ok (record m { current_node = atoi arg }))

  unfoldable pub set_node_name : List ℕ → M D ℤ
  unfolding update_markov set_names
  set_node_name arg = update_markov (λ m. set_names m arg)

  unfoldable pub set_time : List ℕ → M D ℤ
  unfolding atoi set_timer
  set_time arg = do
    c ← get_conn
    let ns = ms_to_ns (atoi arg)
    set_conn (record c { markov = record c.markov { change_frequency = ns } })
    emit (timer c.markov.timerfd (set_timer ns))
    pure (pos 0)

  unfoldable pub set_debug_level : ℤ → List ℕ → M D ℤ
  unfolding debug_level_of atoi
  set_debug_level fd arg = do
    c ← get_conn
    let (ret, management) = debug_level_of fd (atoi arg) c.management
    set_conn (record c { management = management })
    pure ret

  unfoldable pub shutdown : M D ℤ
  shutdown = lift (exited 0)

module _ {D : Type 0} ⦃double : Double D⦄ where
  -- Each allocation of the call (at most one for each new node, and two) has an answer of its own; the result of `markovResize` is not looked at.
  unfoldable pub set_node_number : List ℕ → M D ℤ
  unfolding markov_resize atoi
  set_node_number arg s =
      let given = λ (k : ℕ). s.world.memory (s.world.asked + k) in
      run_bind (markov_resize (given 0) (λ i. given (2 + i)) (given 1) s.conn.markov (atoi arg))
        λ (done, markov). ok (
          pos 0,
          record s {
            conn = record s.conn { markov = markov };
            world = record s.world { asked = s.world.asked + 2 + pos_part (atoi arg) };
          },
        )

module _ {D : Type 0} ⦃double : Double D⦄ ⦃text : DoubleText D⦄ where
  -- `setLoss` and the eight functions like it, with their tag and their flag WIRE_BIDIRECTIONAL.
  unfoldable pub set_value : ℕ → Bool → List ℕ → M D ℤ
  unfolding update_markov set_wire_value
  set_value tag bidirectional arg =
      update_markov (λ m. set_wire_value m tag (some arg) bidirectional)

  -- With what the variables of `markovSetEdges` hold at first.
  unfoldable pub set_edge_command : EdgeVars D → List ℕ → M D ℤ
  unfolding update_markov set_edges
  set_edge_command vars arg = update_markov (λ m. set_edges m vars arg)
