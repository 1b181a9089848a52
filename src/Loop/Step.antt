-- ===== src/Loop/Step.antt =====
-- POLL_MARKOV_TIMER: the wire moves to its next state, and tells the clients that want to know.
use mathlib.Core.List.{append_assoc, append-nil}
use vdeplug_wirefilter.Base.{
  ℕ, zero, suc, ◌+◌, ◌%◌, ◌<◌, ◌≡◌, refl, sym, ap, ◌∙◌, arith, true, ltb, ◌==◌, if◌then◌else◌,
  Bool-cases, inl, inr, List, [], ◌∷◌, ◌++◌, Run, ok,
}
use vdeplug_wirefilter.Base.Int.{ℤ, pos, eq_ℤ-pos}
use vdeplug_wirefilter.Conn.{Management, Sys, Event, trace, timer}
use vdeplug_wirefilter.Double.{Double}
use vdeplug_wirefilter.Loop.{row_of, report_move, trace_loop, markov_step, on_markov_timer}
use vdeplug_wirefilter.Markov.{Markov, next_node}
use vdeplug_wirefilter.Markov.Select.{IsChosen, next_node_lem}
use vdeplug_wirefilter.Time.{set_timer}

-- The debug lines to the clients from the i-th on, `left` of them.
abbrev pub trace_lines : (left i : ℕ) → Management → ℤ → ℕ → List Event
trace_lines zero i m old_node new_node = []
trace_lines (suc left) i m old_node new_node =
    (if ltb 0 (m.debug_level i) then trace (m.connections i) old_node new_node ∷ [] else [])
    ++ trace_lines left (i + 1) m old_node new_node

module _ {D : Type 0} where
  abbrev with_events : Sys D → List Event → Sys D
  with_events s es = record s { world = record s.world { events = es } }

  with_events_path :
      (s : Sys D) {es es' : List Event}
      → es ≡ es'
      → Path (Run (Unit {0} × Sys D)) (ok (tt, with_events s es)) (ok (tt, with_events s es'))
  with_events_path s = ap (λ es. ok (tt, with_events s es))

  abbrev pub noted : Sys D → List Event → Sys D
  noted s es = with_events s (s.world.events ++ es)

  trace_loop_lem :
      (left i : ℕ) (m : Management) (old_node : ℤ) (new_node : ℕ) (s : Sys D)
      → trace_loop left i m old_node new_node s
        ≡ ok (tt, noted s (trace_lines left i m old_node new_node))
  unfolding trace_loop
  trace_loop_lem zero i m old_node new_node s = with_events_path s (sym (append-nil s.world.events))
  trace_loop_lem (suc left) i m old_node new_node s = elim (Bool-cases (ltb 0 (m.debug_level i))) [
    | inl told ↦ rw told (
        trace_loop_lem left (i + 1) m old_node new_node
          (noted s (trace (m.connections i) old_node new_node ∷ []))
        ∙ with_events_path s (
            append_assoc s.world.events (trace (m.connections i) old_node new_node ∷ [])
              (trace_lines left (i + 1) m old_node new_node)))
    | inr quiet ↦ rw quiet (trace_loop_lem left (i + 1) m old_node new_node s)
  ]

-- The debug lines of a move: none if the node stays the same.
abbrev pub move_lines : Management → ℕ → ℕ → List Event
move_lines m start new_node =
    if start == new_node then [] else trace_lines m.connections_count 0 m (pos start) new_node

report_move_lem :
    {D : Type 0} (m : Management) (old_node : ℤ) (start new_node : ℕ) (s : Sys D)
    → old_node ≡ pos start
    → report_move m old_node new_node s ≡ ok (tt, noted s (move_lines m start new_node))
unfolding report_move
report_move_lem m old_node start new_node s here =
    rw (here, eq_ℤ-pos start new_node)
      (elim (Bool-cases (start == new_node)) [
        | inl same ↦ rw same (with_events_path s (sym (append-nil s.world.events)))
        | inr other ↦ rw other (trace_loop_lem m.connections_count 0 m (pos start) new_node s)
      ])

module _ {D : Type 0} ⦃double : Double D⦄ where
  open double use {of_ℕ, mul}

  -- The state after a move.
  abbrev pub moved : Sys D → ℕ → ℕ → Sys D
  moved s start new_node = record s {
    conn = record s.conn { markov = record s.conn.markov { current_node = pos new_node } };
    world = record s.world {
      drawn = suc s.world.drawn;
      events = s.world.events ++ move_lines s.conn.management start new_node;
    };
  }

  row_of_lem :
      (m : Markov D) (start : ℕ)
      → m.current_node ≡ pos start
      → start < m.nodes_count
      → row_of m ≡ ok start
  row_of_lem m start here inside =
      let fits : ltb start m.nodes_count ≡ true = ground arith in rw (here, fits) refl

  drawn_one : Sys D → Sys D
  drawn_one s = record s { world = record s.world { drawn = suc s.world.drawn } }

  pub markov_step_lem :
      (s : Sys D) (start : ℕ)
      → s.conn.markov.current_node ≡ pos start
      → start < s.conn.markov.nodes_count
      → markov_step s
        ≡ ok (tt, moved s start (next_node s.conn.markov start (s.world.randoms s.world.drawn)))
  unfolding markov_step drawn_one
  markov_step_lem s start here inside =
      let new_node = next_node s.conn.markov start (s.world.randoms s.world.drawn) in
      rw
        (
          row_of_lem s.conn.markov start here inside,
          report_move_lem s.conn.management s.conn.markov.current_node start new_node (drawn_one s)
              here,
        )
        refl

  -- The state when the timer is programmed again.
  abbrev pub armed : Sys D → Sys D
  armed s = noted s (timer s.conn.markov.timerfd (set_timer s.conn.markov.change_frequency) ∷ [])

  -- POLL_MARKOV_TIMER programs its timer again and moves to the node that the number drawn chooses: the
  -- first one, in the circle from the current node on, whose edge has a weight of at least what is
  -- left of the number, or the last one. It is a node of the chain again. The clients with a debug level
  -- above 0 get a line, in order, exactly if the node changes. The current node is one of the chain.
  pub on_markov_timer_lem :
      (s : Sys D) (start : ℕ)
      → s.conn.markov.current_node ≡ pos start
      → start < s.conn.markov.nodes_count
      → (k : ℕ) × IsChosen s.conn.markov.nodes_count start s.conn.markov.adjacency
          (mul (s.world.randoms s.world.drawn) (of_ℕ 100))
          k
        × ((start + k) % s.conn.markov.nodes_count < s.conn.markov.nodes_count)
        × (on_markov_timer s
            ≡ ok (tt, moved (armed s) start ((start + k) % s.conn.markov.nodes_count)))
  unfolding on_markov_timer
  on_markov_timer_lem s start here inside =
      let (k, chosen, at_k, small) =
        next_node_lem s.conn.markov start (s.world.randoms s.world.drawn) (omega arith) in
      (
        k,
        chosen,
        rw at_k at small,
        markov_step_lem (armed s) start here inside
            ∙ ap (λ n. ok (tt, moved (armed s) start n)) at_k,
      )
