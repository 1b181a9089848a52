-- ===== src/Markov.antt =====
-- includes/wf_markov.c and includes/wf_markov.h: the states of the wire, each with its own values, and
-- the chain that moves between them.
pub mod Sum
pub mod Row
pub mod Copy
pub mod Resize
pub mod Select
pub mod Init
pub mod Edge
pub mod Parse
pub mod Edges
pub mod Names
mod Tests
mod ParseTests
use vdeplug_wirefilter.Base.{
  ℕ, zero, suc, ◌+◌, ◌-◌, ◌*◌, ◌%◌, ◌^◌, Bool, true, false, not, ◌&&◌, Option, none, some, List,
  ltb, leb, ◌==◌, if◌then◌else◌, write, Run, ok, exited, fault, null_pointer, out_of_bounds,
  out_of_fuel, ◌>>=◌,
}
use vdeplug_wirefilter.Base.Int.{ℤ, pos, negsuc, leb_ℤ}
use vdeplug_wirefilter.Double.{Double}
use vdeplug_wirefilter.Packet.{Direction, PerDirection, at, put, both}

-- The tags of a node's values.
abbrev pub delay : ℕ
delay = 0

abbrev pub dup : ℕ
dup = 1

abbrev pub loss : ℕ
loss = 2

abbrev pub bursty_loss : ℕ
bursty_loss = 3

abbrev pub mtu : ℕ
mtu = 4

abbrev pub chan_buf_size : ℕ
chan_buf_size = 5

abbrev pub bandwidth : ℕ
bandwidth = 6

abbrev pub speed : ℕ
speed = 7

abbrev pub noise : ℕ
noise = 8

abbrev pub algo_uniform : ℕ
algo_uniform = 0

abbrev pub algo_gauss_normal : ℕ
algo_gauss_normal = 1

pub record WireValue (D : Type 0) : Type 0 where
  pub value : D
  pub plus : D
  pub algorithm : ℕ

-- `values` is the member `value[MARKOV_NODE_VALUES][2]`.
pub record MarkovNode (D : Type 0) : Type 0 where
  pub name : Option (List ℕ)
  pub values : ℕ → PerDirection (WireValue D)

-- The `markov` member of `struct vde_wirefilter_conn`. `nodes` is the memory behind the pointer array,
-- which is not NULL if `allocated` and has `capacity` entries; `adjacency` has the square of
-- `nodes_count`.
pub record Markov (D : Type 0) : Type 0 where
  pub nodes : ℕ → MarkovNode D
  pub allocated : Bool
  pub capacity : ℕ
  pub current_node : ℤ
  pub nodes_count : ℕ
  pub adjacency : ℕ → D
  pub change_frequency : ℕ
  pub timerfd : ℕ

-- ADJMAPN: the entry of an edge in a map of n nodes.
abbrev pub cell : ℕ → ℕ → ℕ → ℕ
cell n i j = i * n + j

module _ {D : Type 0} where
  -- MARKOV_GET_NODE
  abbrev pub get_node : Markov D → ℤ → Run (MarkovNode D)
  get_node m (negsuc i) = fault out_of_bounds
  get_node m (pos i) =
      if m.allocated
      then if ltb i m.capacity then ok (m.nodes i) else fault out_of_bounds
      else fault null_pointer

  -- MARKOV_CURRENT
  abbrev pub current : Markov D → Run (MarkovNode D)
  current m = get_node m m.current_node

module _ {D : Type 0} ⦃double : Double D⦄ where
  open double use {of_ℕ, add, sub, mul, div, lt, le, eq, sqrt, log}

  -- A node from `calloc`.
  abbrev pub zero_node : MarkovNode D
  zero_node = record {
    name = none;
    values = λ _. both (record { value = of_ℕ 0; plus = of_ℕ 0; algorithm = algo_uniform });
  }

  abbrev pub wire_value : MarkovNode D → ℕ → Direction → WireValue D
  wire_value node tag d = at d (node.values tag)

  unfoldable pub set_node_value : MarkovNode D → ℕ → Direction → D → D → ℕ → MarkovNode D
  set_node_value node tag d value plus algorithm = record node {
    values =
        write node.values tag
          (put d (record { value = value; plus = plus; algorithm = algorithm }) (node.values tag));
  }

  unfoldable pub max_wire_value : MarkovNode D → ℕ → Direction → D
  max_wire_value node tag d = add (wire_value node tag d).value (wire_value node tag d).plus

  unfoldable pub min_wire_value : MarkovNode D → ℕ → Direction → D
  min_wire_value node tag d = sub (wire_value node tag d).value (wire_value node tag d).plus

  -- The loop of `markovRebalanceNode`, with `left` rounds to go: the edges to the other nodes, one after
  -- the other, are taken off the loopback edge.
  unfoldable pub rebalance_loop : (n node left i : ℕ) → (ℕ → D) → ℕ → D
  rebalance_loop n node zero i map = map
  rebalance_loop n node (suc left) i map =
      let loopback = cell n node node in
      let edge = map (cell n node ((node + i) % n)) in
      rebalance_loop n node left (i + 1) (write map loopback (sub (map loopback) edge))

  unfoldable pub rebalance_node : ℕ → ℕ → (ℕ → D) → ℕ → D
  unfolding rebalance_loop
  rebalance_node n node map =
      rebalance_loop n node (n - 1) 1 (write map (cell n node node) (of_ℕ 100))

  -- The inner loop of `copyAdjacency`, with `left` rounds to go.
  unfoldable pub copy_row_loop : (old_n n i left j : ℕ) → (ℕ → D) → (ℕ → D) → ℕ → D
  copy_row_loop old_n n i zero j old map = map
  copy_row_loop old_n n i (suc left) j old map =
      let real_j = (i + j) % n in
      let copied = write map (cell n i real_j) (old (cell old_n i real_j)) in
      let loopback = cell n i i in
      let next = write copied loopback (sub (copied loopback) (copied (cell n i real_j))) in
      copy_row_loop old_n n i left (j + 1) old
        (if ltb i old_n && ltb real_j old_n then next else map)

  -- The outer loop, with `left` rounds to go.
  unfoldable pub copy_adjacency_loop : (old_n n left i : ℕ) → (ℕ → D) → (ℕ → D) → ℕ → D
  unfolding copy_row_loop
  copy_adjacency_loop old_n n zero i old map = map
  copy_adjacency_loop old_n n (suc left) i old map =
      copy_adjacency_loop old_n n left (i + 1) old
        (copy_row_loop old_n n i (n - 1) 1 old (write map (cell n i i) (of_ℕ 100)))

  unfoldable pub copy_adjacency : ℕ → ℕ → (ℕ → D) → (ℕ → D) → ℕ → D
  unfolding copy_adjacency_loop
  copy_adjacency old_n n old map = copy_adjacency_loop old_n n n 0 old map

  -- The nodes from i on, from `calloc`; `false` when it fails.
  unfoldable pub fresh_nodes :
      (ℕ → Bool) → (left i : ℕ) → (ℕ → MarkovNode D) → Bool × (ℕ → MarkovNode D)
  fresh_nodes given zero i nodes = (true, nodes)
  fresh_nodes given (suc left) i nodes =
      let rest = fresh_nodes given left (i + 1) (write nodes i zero_node) in
      if given i then rest else (false, nodes)

  -- Which allocations of one call of `markovResize` succeed: of the pointer array, of each new node, and
  -- of the adjacency map.
  unfoldable pub resize_nodes : Bool → (ℕ → Bool) → Markov D → ℕ → Bool × Markov D
  unfolding fresh_nodes
  resize_nodes array node m n =
      if not array
      then (false, record m { allocated = false })
      else if ltb m.nodes_count n
      then (let (done, nodes) = fresh_nodes node (n - m.nodes_count) m.nodes_count m.nodes in
          (done, record m { allocated = true; capacity = n; nodes = nodes }))
      else (
        true,
        record m {
          allocated = true;
          capacity = n;
          current_node = if leb_ℤ (pos n) m.current_node then pos 0 else m.current_node;
        },
      )

  -- The end of `markovResize`: the new adjacency map, in memory from `calloc`.
  unfoldable pub resize_adjacency : Bool → Markov D → ℕ → Bool × Markov D
  unfolding copy_adjacency
  resize_adjacency given m n =
      if given
      then (
        true,
        record m {
          adjacency = copy_adjacency m.nodes_count n m.adjacency (λ _. of_ℕ 0);
          nodes_count = n;
        },
      )
      else (false, m)

  -- `true` is the return of 0, `false` that of -1.
  unfoldable pub markov_resize : Bool → (ℕ → Bool) → Bool → Markov D → ℤ → Run (Bool × Markov D)
  markov_resize array node adjacency m (negsuc n) = fault out_of_bounds
  markov_resize array node adjacency m (pos n) =
      if m.nodes_count == n
      then ok (true, m)
      else let (done, m') = resize_nodes array node m n in
        ok (if done then resize_adjacency adjacency m' n else (false, m'))

  -- The loop of `markovStep`, with `left` rounds to go and the node of the last round.
  unfoldable pub select_node : (n left j start : ℕ) → (ℕ → D) → D → ℕ → ℕ
  select_node n zero j start map probability new_node = new_node
  select_node n (suc left) j start map probability new_node =
      let candidate = (start + j) % n in
      let change = map (cell n start candidate) in
      let next = select_node n left (j + 1) start map (sub probability change) candidate in
      if le probability change then candidate else next

  -- The node that `markovStep` moves to, for a number drawn by `drand48`.
  unfoldable pub next_node : Markov D → ℕ → D → ℕ
  unfolding select_node
  next_node m start drawn =
      select_node m.nodes_count m.nodes_count 0 start m.adjacency (mul drawn (of_ℕ 100)) 0
