-- ===== src/Markov/Edges.antt =====
-- `markovSetEdges` of includes/wf_markov.c: the edges that a string names are set one after the other.
pub mod Printed
pub mod Balance
use vdeplug_wirefilter.Base.{
  ℕ, zero, suc, ◌+◌, not, ◌==◌, length, Option, none, some, List, [], ◌∷◌, if◌then◌else◌, Run, ok,
  out_of_fuel, ◌>>=◌,
}
use vdeplug_wirefilter.Base.Int.{ℤ, pos}
use vdeplug_wirefilter.Double.{Double, DoubleText}
use vdeplug_wirefilter.Markov.{Markov}
use vdeplug_wirefilter.Markov.Edge.{set_edge}
use vdeplug_wirefilter.Text.{is_blank, drop_while, scan_int}

-- The variables that `sscanf` writes to. They have no value at first, and keep the one they have when a
-- number is not read.
pub record EdgeVars (D : Type 0) : Type 0 where
  pub start_node : ℤ
  pub end_node : ℤ
  pub weight : D

-- The string after a comma, if that comes first.
abbrev pub after_comma : List ℕ → Option (List ℕ)
after_comma [] = none
after_comma (c ∷ s) = if c == b',' then some s else none

module _ {D : Type 0} ⦃double : Double D⦄ ⦃text : DoubleText D⦄ where
  open text use {scan}

  unfoldable pub put_weight : EdgeVars D → Option (D × List ℕ) → EdgeVars D
  put_weight vars none = vars
  put_weight vars (some (w, rest)) = record vars { weight = w }

  unfoldable pub read_weight : EdgeVars D → Option (List ℕ) → EdgeVars D
  unfolding put_weight
  read_weight vars none = vars
  read_weight vars (some s) = put_weight vars (scan s)

  unfoldable pub put_end : EdgeVars D → Option (ℤ × List ℕ) → EdgeVars D
  unfolding read_weight
  put_end vars none = vars
  put_end vars (some (j, rest)) = read_weight (record vars { end_node = j }) (after_comma rest)

  unfoldable pub read_end : EdgeVars D → Option (List ℕ) → EdgeVars D
  unfolding put_end
  read_end vars none = vars
  read_end vars (some s) = put_end vars (scan_int s)

  unfoldable pub put_start : EdgeVars D → Option (ℤ × List ℕ) → EdgeVars D
  unfolding read_end
  put_start vars none = vars
  put_start vars (some (i, rest)) = read_end (record vars { start_node = i }) (after_comma rest)

  -- `sscanf` with "%d,%d,%lf"
  abbrev pub scan_edge : EdgeVars D → List ℕ → EdgeVars D
  scan_edge vars s = put_start vars (scan_int s)

  -- A round of the loop on a string without blanks at its start, with what comes after the round.
  unfoldable pub edges_round :
      (Markov D → EdgeVars D → List ℕ → Run (Markov D))
      → Markov D
      → EdgeVars D
      → List ℕ
      → Run (Markov D)
  unfolding drop_while put_start
  edges_round again m vars [] = ok m
  edges_round again m vars (c ∷ t) =
      let vars' = scan_edge vars (c ∷ t) in
      set_edge m vars'.start_node vars'.end_node vars'.weight >>= λ m'.
      again m' vars' (drop_while (λ d. not (d == b' ')) (c ∷ t))

  -- The loop, on fuel.
  unfoldable pub set_edges_loop : ℕ → Markov D → EdgeVars D → List ℕ → Run (Markov D)
  unfolding edges_round
  set_edges_loop zero m vars s = out_of_fuel
  set_edges_loop (suc f) m vars s =
      edges_round (λ m'. set_edges_loop f m') m vars (drop_while is_blank s)

  -- With what the variables hold at the start.
  unfoldable pub set_edges : Markov D → EdgeVars D → List ℕ → Run (Markov D)
  unfolding set_edges_loop
  set_edges m vars s = set_edges_loop (length s + 1) m vars s
