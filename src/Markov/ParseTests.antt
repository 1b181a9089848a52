-- ===== src/Markov/ParseTests.antt =====
-- Each theorem on the parsers of the chain at a string. Integers stand for doubles.
use vdeplug_wirefilter.Base.{
  ◌≡◌, write, refl, arith, true, false, some, none, All, List, [], ◌∷◌, ok, Returns,
}
use vdeplug_wirefilter.Base.Int.{ℤ, pos, ◌+ℤ◌}
use vdeplug_wirefilter.Conn.Sample.{chain}
use vdeplug_wirefilter.Double.Exact.{ℤ_double, ℤ-IsExact}
use vdeplug_wirefilter.Double.Whole.{ℤ_text, decimal-IsNumber}
use vdeplug_wirefilter.Markov.{loss, delay, cell}
use vdeplug_wirefilter.Markov.Edge.{set_edge}
use vdeplug_wirefilter.Markov.Edges.{EdgeVars, set_edges}
use vdeplug_wirefilter.Markov.Edges.Printed.{Edge, edges_text, set_all, set_edges-printed}
use vdeplug_wirefilter.Markov.Edges.Balance.{
  set_edge-astray, IsBalanced, IsInside, set_edges-IsBalanced,
}
use vdeplug_wirefilter.Markov.Names.{set_names}
use vdeplug_wirefilter.Markov.Names.Printed.{Naming, Named, names_text, set_names-Named}
use vdeplug_wirefilter.Markov.Parse.{set_wire_value}
use vdeplug_wirefilter.Markov.Parse.Argument.{Argument, kilo_letter, no_multiplier}
use vdeplug_wirefilter.Markov.Parse.Plain.{plainly_given, set_wire_value-plain}
use vdeplug_wirefilter.Markov.Parse.Printed.{arguments_text, with_arguments, set_wire_value-printed}
use vdeplug_wirefilter.Markov.Parse.Total.{OnlyTag, set_wire_value-OnlyTag}
use vdeplug_wirefilter.Markov.Resize.{IsChain}
use vdeplug_wirefilter.Markov.Sum.{sum_from}
use vdeplug_wirefilter.Packet.{left_to_right}
use vdeplug_wirefilter.Wire.Forward.{decimal}

sample-IsChain : IsChain chain
sample-IsChain = record { allocated = refl; capacity = refl; within = refl }

-- "0,1,30 1,0,20"
abbrev two_edges : List (Edge ℤ)
two_edges =
    record { start_node = 0; end_node = 1; weight = pos 30; number = decimal 30 }
    ∷ record { start_node = 1; end_node = 0; weight = pos 20; number = decimal 20 }
    ∷ []

abbrev no_vars : EdgeVars ℤ
no_vars = record { start_node = pos 7; end_node = pos 7; weight = pos 7 }

two_edges-IsInside : All (IsInside 2) two_edges
two_edges-IsInside = (
  record {
    start_node = omega arith;
    end_node = omega arith;
    printed = record {
      start_node = omega arith;
      end_node = omega arith;
      number = decimal-IsNumber 30 (omega arith);
    };
  },
  (
    record {
      start_node = omega arith;
      end_node = omega arith;
      printed = record {
        start_node = omega arith;
        end_node = omega arith;
        number = decimal-IsNumber 20 (omega arith);
      };
    },
    tt,
  ),
)

set_edges-printed_example : set_edges chain no_vars (edges_text two_edges) ≡ set_all chain two_edges
set_edges-printed_example =
    set_edges-printed chain no_vars two_edges
      (two_edges-IsInside.0.printed, (two_edges-IsInside.1.0.printed, tt))

-- Two edges of weight 50 from each node.
chain-IsBalanced : IsBalanced 2 chain
unfolding ◌+ℤ◌ sum_from
chain-IsBalanced = record { nodes_count = refl; rows = λ i h. refl }

set_edges-IsBalanced_example :
    Returns (IsBalanced 2) (set_edges chain no_vars (edges_text two_edges))
set_edges-IsBalanced_example =
    set_edges-IsBalanced ℤ-IsExact 2 chain no_vars two_edges two_edges-IsInside chain-IsBalanced

set_edge-astray_example :
    Returns (λ m'. m'.adjacency (cell 2 1 1) ≡ pos 30) (set_edge chain (pos 0) (pos 3) (pos 30))
set_edge-astray_example = set_edge-astray ℤ-IsExact chain 0 1 (pos 30) (omega arith) (omega arith)

-- "1,wet"
abbrev one_name : List Naming
one_name = record { node = 1; name = b'w' ∷ b'e' ∷ b't' ∷ [] } ∷ []

set_names-Named_example : Returns (Named chain one_name) (set_names chain (names_text one_name))
set_names-Named_example =
    set_names-Named chain one_name sample-IsChain
      (record { node = omega arith; name = (refl, (refl, (refl, tt))) }, tt) (omega arith, tt)

-- "LR5+2KN[1] 7+0U[0]"
abbrev two_arguments : List (Argument ℤ)
two_arguments =
    record {
      direction = some left_to_right;
      value = pos 5;
      number = decimal 5;
      plus = pos 2;
      plus_number = decimal 2;
      multiplier = kilo_letter;
      gauss = true;
      node = 1;
    }
    ∷ record {
      direction = none;
      value = pos 7;
      number = decimal 7;
      plus = pos 0;
      plus_number = decimal 0;
      multiplier = no_multiplier;
      gauss = false;
      node = 0;
    }
    ∷ []

set_wire_value-printed_example :
    set_wire_value chain loss (some (arguments_text two_arguments)) false
    ≡ ok (record chain { nodes = with_arguments loss false two_arguments chain.nodes })
set_wire_value-printed_example =
    set_wire_value-printed chain loss false two_arguments sample-IsChain
      (
        record {
          number = decimal-IsNumber 5 (omega arith);
          plus_number = decimal-IsNumber 2 (omega arith);
          node = omega arith;
        },
        (
          record {
            number = decimal-IsNumber 7 (omega arith);
            plus_number = decimal-IsNumber 0 (omega arith);
            node = omega arith;
          },
          tt,
        ),
      )
      (omega arith, (omega arith, tt))

set_wire_value-OnlyTag_example :
    Returns
      (OnlyTag loss chain)
      (set_wire_value chain loss (some (b'5' ∷ b'[' ∷ b' ' ∷ b'+' ∷ [])) false)
set_wire_value-OnlyTag_example =
    set_wire_value-OnlyTag chain loss false (some (b'5' ∷ b'[' ∷ b' ' ∷ b'+' ∷ [])) sample-IsChain

-- The line "delay 100".
set_wire_value-plain_example :
    set_wire_value chain delay (some (decimal 100)) false
    ≡ ok (record chain {
      nodes = write chain.nodes 0 (plainly_given delay (pos 100) (chain.nodes 0));
    })
set_wire_value-plain_example =
    set_wire_value-plain chain delay false (decimal 100) (pos 100)
      (decimal-IsNumber 100 (omega arith)) sample-IsChain (omega arith)
