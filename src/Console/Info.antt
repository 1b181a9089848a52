-- ===== src/Console/Info.antt =====
-- The commands of includes/wf_management.c that show the state: `help`, `markovShowEdges`, `markovShowCurrent`
-- and `showInfo`. %d of an unsigned number is right for the numbers that an `int` holds.
pub mod ReadOnly
use vdeplug_wirefilter.Base.{
  ℕ, zero, suc, ◌+◌, ◌/◌, Bool, true, false, not, ◌==◌, if◌then◌else◌, ltb, take, Option, none,
  some, List, [], ◌∷◌, ◌++◌,
}
use vdeplug_wirefilter.Base.Int.{ℤ, pos, negsuc, ◌-ℤ◌}
use vdeplug_wirefilter.Conn.{Conn, Blink, Sys}
use vdeplug_wirefilter.Conn.Monad.{M, pure, lift, get_conn, set_conn, current_node, ◌>>=◌, ◌>>◌}
use vdeplug_wirefilter.Console.Print.{show_int, show_left, name_text, print, print_all, help_lines}
use vdeplug_wirefilter.Console.Setters.{einval}
use vdeplug_wirefilter.Double.{Double, DoubleText}
use vdeplug_wirefilter.Markov.{
  Markov, MarkovNode, WireValue, get_node, cell, wire_value, min_wire_value, algo_uniform, loss,
  bursty_loss, delay, dup, bandwidth, speed, noise, mtu, chan_buf_size,
}
use vdeplug_wirefilter.Packet.{Direction, left_to_right, right_to_left, at}
use vdeplug_wirefilter.Queue.{Queue, fifo}
use vdeplug_wirefilter.Text.{codes, atoi}
use vdeplug_wirefilter.Time.{ns_per_ms}
use vdeplug_wirefilter.Wire.Forward.{decimal}

abbrev pub quoted : Option (List ℕ) → List ℕ
quoted name = b'"' ∷ (name_text name ++ (b'"' ∷ []))

-- The string from the n-th character on.
abbrev pub drop : ℕ → List ℕ → List ℕ
drop zero s = s
drop (suc n) [] = []
drop (suc n) (c ∷ s) = drop n s

-- What `showInfo` leaves of the message that it cuts off at the identifier for a while.
abbrev pub blink_restored : Blink → Blink
blink_restored b = record b {
  message = take b.id_len b.message ++ (b' ' ∷ drop (b.id_len + 1) b.message);
}

abbrev pub truth : Bool → List ℕ
truth true = codes "TRUE"
truth false = codes "FALSE"

-- The lines on the queue and the blink socket, whose path is `sun_path`.
unfoldable pub state_lines : List ℕ → Queue → Blink → List (List ℕ)
state_lines sun_path q b =
    ((codes "Current Delay Queue size:   L->R "
        ++ decimal (at left_to_right q.byte_size)
        ++ codes "      R->L "
        ++ decimal (at right_to_left q.byte_size)
        ++ codes "   ")
      ∷ (codes "Fifoness " ++ truth (q.fifoness == fifo))
      ∷ (codes "Waiting packets in delay queues " ++ decimal q.size)
      ∷ [])
    ++ (if ltb 0 b.socket_fd
        then (codes "Blink socket: " ++ sun_path)
          ∷ (codes "Blink id:     " ++ take b.id_len b.message)
          ∷ []
        else [])

module _ {D : Type 0} where
  unfoldable pub help : ℤ → M D ℤ
  unfolding print_all
  help fd = do print_all fd help_lines; pure (pos 0)

  -- The node that an argument names, or the current one without an argument.
  abbrev pub node_or_current : Markov D → List ℕ → ℤ
  unfolding atoi
  node_or_current m [] = m.current_node
  node_or_current m (c ∷ s) = atoi (c ∷ s)

  -- The number of a node of the chain.
  abbrev pub node_within : Markov D → ℤ → Option ℕ
  node_within m (negsuc i) = none
  node_within m (pos i) = if ltb i m.nodes_count then some i else none

  -- The line on the current node.
  unfoldable pub current_line : Markov D → MarkovNode D → List ℕ
  unfolding ◌-ℤ◌
  current_line m node =
      codes "Current Markov Node "
      ++ show_int m.current_node
      ++ codes " "
      ++ quoted node.name
      ++ codes " (0,..,"
      ++ show_int (pos m.nodes_count -ℤ pos 1)
      ++ codes ")"

  unfoldable pub show_current : ℤ → M D ℤ
  unfolding print current_line
  show_current fd = do
    c ← get_conn
    node ← current_node
    print fd (current_line c.markov node)
    pure (pos 0)

module _ {D : Type 0} ⦃double : Double D⦄ ⦃text : DoubleText D⦄ where
  open double use {of_ℕ, eq}
  open text use {show}

  -- The line of the edge from i to j, with the two nodes.
  abbrev pub edge_line : Markov D → (i j : ℕ) → MarkovNode D → MarkovNode D → List ℕ
  edge_line m i j start_node end_node =
      codes "Edge ("
      ++ show_left (pos i)
      ++ codes ")->("
      ++ show_left (pos j)
      ++ codes ") "
      ++ quoted start_node.name
      ++ codes "->"
      ++ quoted end_node.name
      ++ codes " weight "
      ++ show (m.adjacency (cell m.nodes_count i j))

  unfoldable pub show_edge : ℤ → Markov D → (i j : ℕ) → M D (Unit {0})
  unfolding print
  show_edge fd m i j = do
    start_node ← lift (get_node m (pos i))
    end_node ← lift (get_node m (pos j))
    print fd (edge_line m i j start_node end_node)

  -- The lines of the edges from node i whose weight is not 0, with `left` nodes to look at from the j-th on.
  unfoldable pub show_edges_loop : ℤ → Markov D → (i left j : ℕ) → M D (Unit {0})
  unfolding show_edge
  show_edges_loop fd m i zero j = pure tt
  show_edges_loop fd m i (suc left) j =
      let rest = show_edges_loop fd m i left (j + 1) in
      if eq (m.adjacency (cell m.nodes_count i j)) (of_ℕ 0)
      then rest
      else show_edge fd m i j >> rest

  unfoldable pub show_edges_of : ℤ → Markov D → Option ℕ → M D ℤ
  unfolding show_edges_loop
  show_edges_of fd m none = pure (pos einval)
  show_edges_of fd m (some i) = do show_edges_loop fd m i m.nodes_count 0; pure (pos 0)

  unfoldable pub show_edges : ℤ → List ℕ → M D ℤ
  unfolding show_edges_of node_or_current
  show_edges fd arg = do
    c ← get_conn
    show_edges_of fd c.markov (node_within c.markov (node_or_current c.markov arg))

  -- WIRE_FIELDS, with the format "%g+%g%c"
  abbrev pub wire_fields : WireValue D → List ℕ
  wire_fields v =
      show v.value
      ++ (b'+' ∷ (show v.plus ++ ((if v.algorithm == algo_uniform then b'U' else b'N') ∷ [])))

  abbrev pub value_line : List ℕ → MarkovNode D → ℕ → List ℕ
  value_line name node tag =
      name
      ++ codes "L->R "
      ++ wire_fields (wire_value node tag left_to_right)
      ++ codes "   R->L "
      ++ wire_fields (wire_value node tag right_to_left)

  -- The first lines, with the node's number and the node.
  unfoldable pub info_lines : Markov D → ℕ → MarkovNode D → List (List ℕ)
  unfolding min_wire_value
  info_lines m i node =
      (codes "WireFilter" ∷ [])
      ++ (if ltb 1 m.nodes_count
          then (codes "Node "
              ++ decimal i
              ++ codes " "
              ++ quoted node.name
              ++ codes " (0,..,"
              ++ decimal m.nodes_count
              ++ codes ") Markov-time "
              ++ decimal (m.change_frequency / ns_per_ms)
              ++ codes "ms")
            ∷ []
          else [])
      ++ (value_line (codes "Loss   ") node loss
          ∷ value_line (codes "Lburst ") node bursty_loss
          ∷ value_line (codes "Delay  ") node delay
          ∷ value_line (codes "Dup    ") node dup
          ∷ value_line (codes "Bandw  ") node bandwidth
          ∷ value_line (codes "Speed  ") node speed
          ∷ value_line (codes "Noise  ") node noise
          ∷ (codes "MTU    L->R "
              ++ show (min_wire_value node mtu left_to_right)
              ++ codes "      R->L "
              ++ show (min_wire_value node mtu right_to_left)
              ++ codes "   ")
          ∷ value_line (codes "Cap.   ") node chan_buf_size
          ∷ [])

  unfoldable pub show_info_of : List ℕ → ℤ → Option ℕ → M D ℤ
  unfolding print_all info_lines state_lines
  show_info_of sun_path fd none = pure (pos einval)
  show_info_of sun_path fd (some i) = do
    c ← get_conn
    node ← lift (get_node c.markov (pos i))
    print_all fd (info_lines c.markov i node ++ state_lines sun_path c.queue c.blink)
    set_conn
        (record c { blink = if ltb 0 c.blink.socket_fd then blink_restored c.blink else c.blink })
    pure (pos 0)

  unfoldable pub show_info : List ℕ → ℤ → List ℕ → M D ℤ
  unfolding show_info_of node_or_current
  show_info sun_path fd arg = do
    c ← get_conn
    show_info_of sun_path fd (node_within c.markov (node_or_current c.markov arg))
