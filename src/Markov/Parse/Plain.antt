-- ===== src/Markov/Parse/Plain.antt =====
-- `setWireValue` of includes/wf_markov.c on a number alone.
use mathlib.Core.List.{reverse, reverse-reverse, append-nil}
use native.Mathlib.Numerals.{add-one}
use vdeplug_wirefilter.Base.{
  ℕ, zero, suc, ◌<◌, ◌≡◌, refl, sym, ap, ap₂, subst, ◌∙◌, arith, Bool, true, false, ◌==◌,
  if◌then◌else◌, write, length, Only, none, some, List, [], ◌∷◌, Run, ok, ◌>>=◌,
}
use vdeplug_wirefilter.Base.Int.{pos}
use vdeplug_wirefilter.Double.{Double, DoubleText, IsNumber, is_figure}
use vdeplug_wirefilter.Markov.{Markov, MarkovNode, algo_uniform}
use vdeplug_wirefilter.Markov.Parse.{
  Parsed, trim_end, parse_node, parse_algorithm, parse_numbers, parse_rest, parse_wire_value,
  scanned_value, directed, set_direction, set_argument, value_round_rest, value_round_from,
  value_round, set_wire_loop, set_wire_value,
}
use vdeplug_wirefilter.Markov.Parse.Argument.{
  trim_end-ink, parse_multiplier-figure, reverse_aux-first,
}
use vdeplug_wirefilter.Markov.Parse.Printed.{
  figure-no_blank, parse_direction-figure, directed-sides, sides, set_direction-given,
  set_parsed_lem,
}
use vdeplug_wirefilter.Markov.Resize.{IsChain}
use vdeplug_wirefilter.Text.{is_blank, drop_while, split_at}
use vdeplug_wirefilter.Text.Scan.{
  figure-InWord, Only-weaken, in_word, drop_while-past, split_at-past,
}

parse_node-figure :
    (c : ℕ) (s : List ℕ) → is_figure c ≡ true → parse_node (c ∷ s) ≡ some (pos 0, c ∷ s)
unfolding parse_node
parse_node-figure c s h = ground arith

parse_algorithm-figure :
    (c : ℕ) (s : List ℕ) → is_figure c ≡ true → parse_algorithm (c ∷ s) ≡ (algo_uniform, c ∷ s)
unfolding parse_algorithm
parse_algorithm-figure c s h = ground arith

sides-none : (b : Bool) → sides b none ≡ none
sides-none true = refl
sides-none false = refl

figure-ink : (c : ℕ) → is_figure c ≡ true → is_blank c ≡ false
figure-ink c h = ground arith

module _ {D : Type 0} ⦃double : Double D⦄ ⦃text : DoubleText D⦄ where
  open double use {of_ℕ, mul}
  open text use {scan}

  -- The number as it is, without variation, uniform, for node 0.
  abbrev plain_value : D → Parsed D
  plain_value v = record {
    value = mul v (of_ℕ 1);
    plus = of_ℕ 0;
    algorithm = algo_uniform;
    to_set_node = pos 0;
  }

  parse_wire_value-plain :
      (s : List ℕ) (v : D) → IsNumber s v → parse_wire_value s ≡ some (plain_value v)
  unfolding parse_wire_value parse_rest parse_numbers
  parse_wire_value-plain s v n =
      let figures = subst (Only is_figure) n.cons n.figures in
      let (d, u, e, figure) = reverse_aux-first is_figure n.others n.first [] figures.1 figures.0 in
      let back : reverse s ≡ d ∷ u = ap reverse n.cons ∙ e in
      ap (λ x. parse_rest (parse_node (trim_end x))) back
      ∙ ap (λ x. parse_rest (parse_node x)) (trim_end-ink d u (figure-ink d figure))
      ∙ ap parse_rest (parse_node-figure d u figure)
      ∙ ap (parse_numbers (pos 0)) (parse_algorithm-figure d u figure)
      ∙ ap₂ (scanned_value (pos 0) algo_uniform) (parse_multiplier-figure d u figure)
          (ap scan (ap reverse (sym back) ∙ reverse-reverse s ∙ sym (append-nil s)) ∙ n.reads [] tt)

  -- The values of a node whose tag has been given a plain number.
  abbrev pub plainly_given : ℕ → D → MarkovNode D → MarkovNode D
  plainly_given tag v node = record node {
    values = write node.values tag (record {
      lr = record { value = mul v (of_ℕ 1); plus = of_ℕ 0; algorithm = algo_uniform };
      rl = record { value = mul v (of_ℕ 1); plus = of_ℕ 0; algorithm = algo_uniform };
    });
  }

  round-plain :
      (again : Markov D → List ℕ → Run (Markov D)) (m : Markov D) (tag : ℕ) (b : Bool) (s : List ℕ)
      (v : D)
      → IsNumber s v
      → IsChain m
      → 0 < m.nodes_count
      → value_round_from again m tag b (none, s)
        ≡ again (record m { nodes = write m.nodes 0 (plainly_given tag v (m.nodes 0)) }) []
  unfolding value_round_from value_round_rest set_argument
  round-plain again m tag b s v n c h =
      let d = directed b none in
      let next : Run (Bool × Markov D) → Run (Markov D) =
        λ r. r >>= λ (go_on, m'). (let more = again m' [] in if go_on then more else ok m') in
      ap (value_round_rest again m tag d) (
        ap (λ x. split_at (λ c. c == b' ') x) (sym (append-nil s))
        ∙ split_at-past (λ c. c == b' ') s []
            (Only-weaken is_figure in_word s figure-InWord n.figures) tt)
      ∙ ap (λ r. next (set_argument m tag d r)) (parse_wire_value-plain s v n)
      ∙ ap next (set_parsed_lem m tag d (plain_value v) 0 c h)
      ∙ ap (λ node. again (record m { nodes = write m.nodes 0 node }) [])
          (ap (λ x. set_direction x tag (plain_value v) (m.nodes 0))
              (directed-sides b none ∙ sides-none b)
            ∙ set_direction-given tag none (plain_value v) (m.nodes 0))

  loop-plain :
      (f : ℕ) (m : Markov D) (tag : ℕ) (b : Bool) (s : List ℕ) (v : D)
      → 0 < f
      → IsNumber s v
      → IsChain m
      → 0 < m.nodes_count
      → set_wire_loop (suc f) m tag b s
        ≡ ok (record m { nodes = write m.nodes 0 (plainly_given tag v (m.nodes 0)) })
  unfolding set_wire_loop value_round drop_while
  loop-plain zero m tag b s v k n c h = absurd (omega arith)
  loop-plain (suc f) m tag b s v k n c h =
      let figure = (subst (Only is_figure) n.cons n.figures).0 in
      let again = λ (m' : Markov D). set_wire_loop (suc f) m' tag b in
      ap (λ x. value_round again m tag b (drop_while is_blank x)) n.cons
      ∙ ap (value_round again m tag b)
          (drop_while-past is_blank [] (n.first ∷ n.others) tt (figure-no_blank n.first figure))
      ∙ ap (value_round_from again m tag b)
          (parse_direction-figure n.first n.others figure ∙ ap (λ x. (none, x)) (sym n.cons))
      ∙ round-plain again m tag b s v n c h

  -- A number alone, as in the line "delay 100", sets the tag's value of node 0 for both directions: to that number,
  -- without variation and uniform. The parser comes to its end, and nothing else of the chain changes.
  pub set_wire_value-plain :
      (m : Markov D) (tag : ℕ) (b : Bool) (s : List ℕ) (v : D)
      → IsNumber s v
      → IsChain m
      → 0 < m.nodes_count
      → set_wire_value m tag (some s) b
        ≡ ok (record m { nodes = write m.nodes 0 (plainly_given tag v (m.nodes 0)) })
  unfolding set_wire_value
  set_wire_value-plain m tag b s v n c h =
      let some_text : 0 < length s = omega (arith, ap length n.cons) in
      ap (λ f. set_wire_loop f m tag b s) (add-one (length s))
      ∙ loop-plain (length s) m tag b s v some_text n c h
