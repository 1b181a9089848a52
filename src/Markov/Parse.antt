-- ===== src/Markov/Parse.antt =====
-- `parseWireValueString` and `setWireValue` of includes/wf_markov.c: the values of a string are set.
pub mod Argument
pub mod Printed
pub mod Total
pub mod Plain
use vdeplug_wirefilter.Base.{
  ℕ, zero, suc, ◌+◌, ◌^◌, Bool, true, false, ◌&&◌, ◌||◌, not, if◌then◌else◌, ltb, ◌==◌, write,
  length, Option, none, some, List, [], ◌∷◌, Run, ok, fault, out_of_bounds, out_of_fuel, ◌>>=◌,
}
use mathlib.Core.List.{reverse}
use vdeplug_wirefilter.Base.Int.{ℤ, pos, negsuc}
use vdeplug_wirefilter.Double.{Double, DoubleText}
use vdeplug_wirefilter.Markov.{
  Markov, MarkovNode, get_node, set_node_value, algo_uniform, algo_gauss_normal,
}
use vdeplug_wirefilter.Packet.{Direction, left_to_right, right_to_left}
use vdeplug_wirefilter.Wire.Handlers.{mega}
use vdeplug_wirefilter.Text.{is_blank, drop_while, split_at, scan_int, scanned}

abbrev pub kilo : ℕ
kilo = 1_024

abbrev pub giga : ℕ
giga = 1_073_741_824

-- The parser reads a string from its end on: these functions take its characters in reverse order.

-- The blanks at the end go, but for the first character of the string.
unfoldable pub trim_end : List ℕ → List ℕ
trim_end [] = []
trim_end (c ∷ []) = c ∷ []
trim_end (c ∷ d ∷ s) = let rest = trim_end (d ∷ s) in if is_blank c then rest else c ∷ d ∷ s

-- The string up to the last '[', less that character, and what stands behind it; `after` is what has been
-- passed so far.
unfoldable pub find_bracket : (after : List ℕ) → List ℕ → Option (List ℕ × List ℕ)
find_bracket after [] = none
find_bracket after (c ∷ s) =
    let more = find_bracket (c ∷ after) s in if c == b'[' then some (s, after) else more

-- The node that stands in the brackets, 0 when `sscanf` reads none, and the string before them.
abbrev pub bracketed : Option (List ℕ × List ℕ) → Option (ℤ × List ℕ)
bracketed none = none
bracketed (some (rest, text)) = some (scanned (scan_int text), rest)

-- The node of the value, and the string without it.
unfoldable pub parse_node : List ℕ → Option (ℤ × List ℕ)
unfolding find_bracket scan_int
parse_node [] = some (pos 0, [])
parse_node (c ∷ s) = if c == b']' then bracketed (find_bracket [] s) else some (pos 0, c ∷ s)

unfoldable pub parse_algorithm : List ℕ → ℕ × List ℕ
parse_algorithm [] = (algo_uniform, [])
parse_algorithm (c ∷ s) =
    if c == b'u' || c == b'U'
    then (algo_uniform, s)
    else if c == b'n' || c == b'N'
    then (algo_gauss_normal, s)
    else (algo_uniform, c ∷ s)

unfoldable pub parse_multiplier : List ℕ → ℕ
parse_multiplier [] = 1
parse_multiplier (c ∷ s) =
    if c == b'k' || c == b'K'
    then kilo
    else if c == b'm' || c == b'M'
    then mega
    else if c == b'g' || c == b'G'
    then giga
    else 1

-- What `parseWireValueString` writes when it returns 0.
pub record Parsed (D : Type 0) : Type 0 where
  pub value : D
  pub plus : D
  pub algorithm : ℕ
  pub to_set_node : ℤ

-- The direction that the string starts with, and the string behind it; `none` is BIDIRECTIONAL.
unfoldable pub parse_direction : List ℕ → Option Direction × List ℕ
parse_direction [] = (none, [])
parse_direction (c ∷ []) = (none, c ∷ [])
parse_direction (c ∷ d ∷ s) =
    if (c == b'L' || c == b'l') && (d == b'R' || d == b'r')
    then (some left_to_right, s)
    else if (c == b'R' || c == b'r') && (d == b'L' || d == b'l')
    then (some right_to_left, s)
    else (none, c ∷ d ∷ s)

-- The direction that is set, with WIRE_BIDIRECTIONAL or without.
abbrev pub directed : Bool → Option Direction → Option Direction
directed bidirectional direction = if bidirectional then none else direction

module _ {D : Type 0} ⦃double : Double D⦄ ⦃text : DoubleText D⦄ where
  open double use {of_ℕ, mul}
  open text use {scan}

  -- The second number of "%lf+%lf"; the variable is 0 when it is not read.
  abbrev pub scanned_plus : Option (D × List ℕ) → D
  scanned_plus none = of_ℕ 0
  scanned_plus (some (p, rest)) = p

  abbrev pub scan_plus : List ℕ → D
  scan_plus [] = of_ℕ 0
  scan_plus (c ∷ s) = if c == b'+' then scanned_plus (scan s) else of_ℕ 0

  abbrev pub scanned_value : ℤ → ℕ → ℕ → Option (D × List ℕ) → Option (Parsed D)
  scanned_value to_set_node algorithm multiplier none = none
  scanned_value to_set_node algorithm multiplier (some (value, rest)) = some (record {
    value = mul value (of_ℕ multiplier);
    plus = scan_plus rest;
    algorithm = algorithm;
    to_set_node = to_set_node;
  })

  -- The last part, for the string that is left: `none` is the return of -1.
  unfoldable pub parse_numbers : ℤ → ℕ × List ℕ → Option (Parsed D)
  unfolding parse_multiplier
  parse_numbers to_set_node (algorithm, s) =
      scanned_value to_set_node algorithm (parse_multiplier s) (scan (reverse s))

  unfoldable pub parse_rest : Option (ℤ × List ℕ) → Option (Parsed D)
  unfolding parse_algorithm parse_numbers
  parse_rest none = none
  parse_rest (some (to_set_node, s)) = parse_numbers to_set_node (parse_algorithm s)

  unfoldable pub parse_wire_value : List ℕ → Option (Parsed D)
  unfolding trim_end parse_node parse_rest
  parse_wire_value string = parse_rest (parse_node (trim_end (reverse string)))

  abbrev pub set_direction : Option Direction → ℕ → Parsed D → MarkovNode D → MarkovNode D
  unfolding set_node_value
  set_direction (some d) tag p node = set_node_value node tag d p.value p.plus p.algorithm
  set_direction none tag p node =
      set_node_value (set_node_value node tag left_to_right p.value p.plus p.algorithm) tag
        right_to_left p.value p.plus p.algorithm

  -- The values of a node are written; `false` is the `return` for a node that the chain does not have.
  unfoldable pub set_parsed : Markov D → ℕ → Option Direction → Parsed D → ℤ → Run (Bool × Markov D)
  unfolding set_direction
  set_parsed m tag direction p (negsuc i) = ok (false, m)
  set_parsed m tag direction p (pos i) =
      if ltb i m.nodes_count
      then (do
        node ← get_node m (pos i)
        ok (true, record m { nodes = write m.nodes i (set_direction direction tag p node) }))
      else ok (false, m)

  -- What has been parsed is set, in its direction.
  unfoldable pub set_argument :
      Markov D → ℕ → Option Direction → Option (Parsed D) → Run (Bool × Markov D)
  unfolding set_parsed
  set_argument m tag direction none = ok (true, m)
  set_argument m tag direction (some p) = set_parsed m tag direction p p.to_set_node

  -- The rest of a round, with the argument and the string behind it, and with what comes after the round.
  unfoldable pub value_round_rest :
      (Markov D → List ℕ → Run (Markov D))
      → Markov D
      → ℕ
      → Option Direction
      → List ℕ × List ℕ
      → Run (Markov D)
  unfolding parse_wire_value set_argument
  value_round_rest again m tag direction (argument, rest) =
      set_argument m tag direction (parse_wire_value argument) >>= λ (go_on, m').
      (let more = again m' rest in if go_on then more else ok m')

  -- A round from the end of the direction on.
  unfoldable pub value_round_from :
      (Markov D → List ℕ → Run (Markov D))
      → Markov D
      → ℕ
      → Bool
      → Option Direction × List ℕ
      → Run (Markov D)
  unfolding split_at value_round_rest
  value_round_from again m tag bidirectional (direction, s) =
      value_round_rest again m tag (directed bidirectional direction) (split_at (λ d. d == b' ') s)

  -- A round on a string without blanks at its start.
  unfoldable pub value_round :
      (Markov D → List ℕ → Run (Markov D)) → Markov D → ℕ → Bool → List ℕ → Run (Markov D)
  unfolding parse_direction value_round_from
  value_round again m tag bidirectional [] = ok m
  value_round again m tag bidirectional (c ∷ t) =
      value_round_from again m tag bidirectional (parse_direction (c ∷ t))

  -- The loop of `setWireValue`, on fuel.
  unfoldable pub set_wire_loop : ℕ → Markov D → ℕ → Bool → List ℕ → Run (Markov D)
  unfolding drop_while value_round
  set_wire_loop zero m tag bidirectional s = out_of_fuel
  set_wire_loop (suc f) m tag bidirectional s =
      value_round (λ m'. set_wire_loop f m' tag bidirectional) m tag bidirectional
        (drop_while is_blank s)

  -- A NULL string sets nothing.
  unfoldable pub set_wire_value : Markov D → ℕ → Option (List ℕ) → Bool → Run (Markov D)
  unfolding set_wire_loop
  set_wire_value m tag none bidirectional = ok m
  set_wire_value m tag (some s) bidirectional = set_wire_loop (length s + 1) m tag bidirectional s
