-- ===== src/Markov/Names.antt =====
-- `markovSetNames` of includes/wf_markov.c: the nodes that a string names get their names.
pub mod Printed
use vdeplug_wirefilter.Base.{
  ℕ, zero, suc, ◌+◌, not, ◌==◌, if◌then◌else◌, ltb, write, length, some, List, [], ◌∷◌, Run, ok,
  fault, out_of_bounds, out_of_fuel, ◌>>=◌,
}
use vdeplug_wirefilter.Base.Int.{ℤ, pos, negsuc}
use vdeplug_wirefilter.Markov.{Markov, MarkovNode, get_node}
use vdeplug_wirefilter.Text.{is_blank, drop_while, split_at, atoi}

module _ {D : Type 0} where
  -- A node that the chain does not have keeps its name, and one below 0 is outside of the array. The memory
  -- for the name is taken to be there.
  unfoldable pub set_name : Markov D → ℤ → List ℕ → Run (Markov D)
  set_name m (negsuc i) name = fault out_of_bounds
  set_name m (pos i) name =
      if ltb i m.nodes_count
      then (do
        node ← get_node m (pos i)
        ok (record m { nodes = write m.nodes i (record node { name = some name }) }))
      else ok m

  -- The end of a round, with the string from the end of the name on.
  unfoldable pub next_name :
      (Markov D → List ℕ → Run (Markov D)) → Markov D → List ℕ → Run (Markov D)
  next_name again m [] = ok m
  next_name again m (c ∷ rest) = again m rest

  -- The name, when the string goes on with the comma before it.
  unfoldable pub read_name :
      (Markov D → List ℕ → Run (Markov D)) → Markov D → ℤ → List ℕ → Run (Markov D)
  unfolding split_at set_name next_name
  read_name again m node [] = ok m
  read_name again m node (c ∷ t) =
      let (name, rest) = split_at (λ d. d == b' ') t in
      set_name m node name >>= λ m'. next_name again m' rest

  -- A round of the loop on a string without blanks at its start, with what comes after the round.
  unfoldable pub names_round :
      (Markov D → List ℕ → Run (Markov D)) → Markov D → List ℕ → Run (Markov D)
  unfolding drop_while read_name atoi
  names_round again m [] = ok m
  names_round again m (c ∷ t) =
      read_name again m (atoi (c ∷ t)) (drop_while (λ d. not (d == b',')) (c ∷ t))

  -- The loop, on fuel.
  unfoldable pub set_names_loop : ℕ → Markov D → List ℕ → Run (Markov D)
  unfolding names_round
  set_names_loop zero m s = out_of_fuel
  set_names_loop (suc f) m s = names_round (λ m'. set_names_loop f m') m (drop_while is_blank s)

  unfoldable pub set_names : Markov D → List ℕ → Run (Markov D)
  unfolding set_names_loop
  set_names m s = set_names_loop (length s + 1) m s
