-- ===== src/Markov/Parse/Printed.antt =====
-- What `setWireValue` of includes/wf_markov.c makes of a string of arguments with all their parts.
use std.Path.{fun_ext}
use vdeplug_wirefilter.Base.{
  ℕ, zero, suc, ◌+◌, ◌<◌, ◌≤◌, ◌≡◌, refl, sym, ap, subst, ◌∙◌, arith, Bool, true, false, not, ◌==◌,
  ltb, Bool-cases, inl, inr, write_self, if◌then◌else◌, write, length, length-append, Only, Meets,
  All, Option, none, some, List, [], ◌∷◌, ◌++◌, Run, ok, ◌>>=◌,
}
use vdeplug_wirefilter.Base.Int.{pos}
use vdeplug_wirefilter.Double.{Double, DoubleText, is_figure}
use vdeplug_wirefilter.Markov.{Markov, MarkovNode, WireValue, set_node_value}
use vdeplug_wirefilter.Markov.Parse.{
  Parsed, parse_direction, directed, set_direction, set_parsed, set_argument, value_round_rest,
  value_round_from, value_round, set_wire_loop, set_wire_value,
}
use vdeplug_wirefilter.Markov.Parse.Argument.{
  Argument, IsPrinted, Multiplier, no_multiplier, kilo_letter, mega_letter, giga_letter,
  multiplier_text, algorithm_letter, numbers_text, node_text, argument_text, argument_value,
  parse_wire_value-printed,
}
use vdeplug_wirefilter.Markov.Resize.{IsChain}
use vdeplug_wirefilter.Packet.{Direction, PerDirection, left_to_right, right_to_left}
use vdeplug_wirefilter.Text.{is_blank, is_digit, drop_while}
use vdeplug_wirefilter.Text.Scan.{
  in_word, digit-InWord, figure-InWord, Only-append, Only-weaken, drop_while-past, split_at-past,
  decimal-Only,
}
use vdeplug_wirefilter.Wire.Forward.{decimal, direction_name}

abbrev direction_text : Option Direction → List ℕ
direction_text none = []
direction_text (some d) = direction_name d

pub figure-no_blank : (c : ℕ) → is_figure c ≡ true → not (is_blank c) ≡ true
figure-no_blank c h = ground arith

pub parse_direction-figure :
    (c : ℕ) (s : List ℕ) → is_figure c ≡ true → parse_direction (c ∷ s) ≡ (none, c ∷ s)
unfolding parse_direction
parse_direction-figure c [] h = refl
parse_direction-figure c (d ∷ s) h = ground arith

multiplier_text-InWord : (m : Multiplier) → Only in_word (multiplier_text m)
multiplier_text-InWord no_multiplier = tt
multiplier_text-InWord kilo_letter = (refl, tt)
multiplier_text-InWord mega_letter = (refl, tt)
multiplier_text-InWord giga_letter = (refl, tt)

algorithm_letter-InWord : (gauss : Bool) → in_word (algorithm_letter gauss) ≡ true
algorithm_letter-InWord true = refl
algorithm_letter-InWord false = refl

-- The direction before a figure is read.
parse_direction-printed :
    (d : Option Direction) (s : List ℕ) (c : ℕ) (t : List ℕ)
    → s ≡ c ∷ t
    → is_figure c ≡ true
    → parse_direction (direction_text d ++ s) ≡ (d, s)
parse_direction-printed none s c t e h =
    ap parse_direction e ∙ parse_direction-figure c t h ∙ ap (λ x. (none, x)) (sym e)
parse_direction-printed (some left_to_right) s c t e h = unfold parse_direction in refl
parse_direction-printed (some right_to_left) s c t e h = unfold parse_direction in refl

direction_text-cons :
    (d : Option Direction) (s : List ℕ) (c : ℕ) (t : List ℕ)
    → s ≡ c ∷ t
    → is_figure c ≡ true
    → (c' : ℕ) × (t' : List ℕ) × (direction_text d ++ s ≡ c' ∷ t') × (not (is_blank c') ≡ true)
direction_text-cons none s c t e h = (c, t, e, figure-no_blank c h)
direction_text-cons (some left_to_right) s c t e h = (b'L', b'R' ∷ s, refl, refl)
direction_text-cons (some right_to_left) s c t e h = (b'R', b'L' ∷ s, refl, refl)

-- A value that both directions share is given to both.
abbrev pub sides : Bool → Option Direction → Option Direction
sides true d = none
sides false d = d

pub directed-sides : (b : Bool) (d : Option Direction) → directed b d ≡ sides b d
directed-sides true d = refl
directed-sides false d = refl

write-twice_at {ℓ} :
    {A : Type ℓ} (f : ℕ → A) (i : ℕ) (x y : A) (j : ℕ) → write (write f i x) i y j ≡ write f i y j
write-twice_at f i x y j = elim (Bool-cases (i == j)) [ inl e ↦ rw e refl | inr e ↦ rw e refl ]

write-twice {ℓ} : {A : Type ℓ} (f : ℕ → A) (i : ℕ) (x y : A) → write (write f i x) i y ≡ write f i y
write-twice f i x y = fun_ext (write-twice_at f i x y)

module _ {D : Type 0} ⦃double : Double D⦄ ⦃text : DoubleText D⦄ where
  -- The arguments that follow one, each with a blank before it.
  abbrev pub arguments_behind : List (Argument D) → List ℕ
  arguments_behind [] = []
  arguments_behind (a ∷ rest) =
      b' ' ∷ (direction_text a.direction ++ (argument_text a ++ arguments_behind rest))

  -- The text of the arguments, with a blank between two of them and none at the end.
  abbrev pub arguments_text : List (Argument D) → List ℕ
  arguments_text [] = []
  arguments_text (a ∷ rest) =
      direction_text a.direction ++ (argument_text a ++ arguments_behind rest)

  -- What an argument gives one direction or both.
  abbrev pub given :
      Option Direction → WireValue D → PerDirection (WireValue D) → PerDirection (WireValue D)
  given none v old = record { lr = v; rl = v }
  given (some left_to_right) v old = record { lr = v; rl = old.rl }
  given (some right_to_left) v old = record { lr = old.lr; rl = v }

  -- The values of the argument's node after it has been set.
  abbrev pub argument_given : ℕ → Bool → Argument D → MarkovNode D → MarkovNode D
  argument_given tag bidirectional a node =
      let v = argument_value a in
      record node {
        values = write node.values tag (
            given (sides bidirectional a.direction)
              (record { value = v.value; plus = v.plus; algorithm = v.algorithm })
              (node.values tag));
      }

  -- The nodes, with the values of the arguments set one after the other.
  unfoldable pub with_arguments :
      ℕ → Bool → List (Argument D) → (ℕ → MarkovNode D) → ℕ → MarkovNode D
  with_arguments tag bidirectional [] nodes = nodes
  with_arguments tag bidirectional (a ∷ rest) nodes =
      with_arguments tag bidirectional rest
        (write nodes a.node (argument_given tag bidirectional a (nodes a.node)))

  pub set_direction-given :
      (tag : ℕ) (d : Option Direction) (p : Parsed D) (node : MarkovNode D)
      → set_direction d tag p node ≡ record node {
        values = write node.values tag (
            given d
              (record { value = p.value; plus = p.plus; algorithm = p.algorithm })
              (node.values tag));
      }
  unfolding set_node_value
  set_direction-given tag none p node =
      let v : WireValue D = record { value = p.value; plus = p.plus; algorithm = p.algorithm } in
      let first : PerDirection (WireValue D) = record (node.values tag) { lr = v } in
      ap
        (λ (w : PerDirection (WireValue D)). record node {
          values = write (write node.values tag first) tag (record w { rl = v });
        })
        (write_self node.values tag first)
      ∙ ap (λ (vs : ℕ → PerDirection (WireValue D)). record node { values = vs })
          (write-twice node.values tag first (record { lr = v; rl = v }))
  set_direction-given tag (some left_to_right) p node = refl
  set_direction-given tag (some right_to_left) p node = refl

  argument_text-InWord : (a : Argument D) → IsPrinted a → Only in_word (argument_text a)
  argument_text-InWord a p =
      let figures = λ (s : List ℕ). Only-weaken is_figure in_word s figure-InWord in
      Only-append in_word (numbers_text a) _
        (Only-append in_word a.number _ (figures a.number p.number.figures) (
          refl,
          Only-append in_word a.plus_number _ (figures a.plus_number p.plus_number.figures)
              (multiplier_text-InWord a.multiplier),
        ))
        (
          algorithm_letter-InWord a.gauss,
          (
            refl,
            Only-append in_word (decimal a.node) _
                (Only-weaken is_digit in_word (decimal a.node) digit-InWord (decimal-Only a.node))
                (refl, tt),
          ),
        )

  pub set_parsed_lem :
      (m : Markov D) (tag : ℕ) (d : Option Direction) (p : Parsed D) (i : ℕ)
      → IsChain m
      → i < m.nodes_count
      → set_parsed m tag d p (pos i)
        ≡ ok (true, record m { nodes = write m.nodes i (set_direction d tag p (m.nodes i)) })
  unfolding set_parsed
  set_parsed_lem m tag d p i v h =
      let inside : ltb i m.nodes_count ≡ true = ground arith in
      rw (inside, v.allocated, v.capacity, inside) refl

  pub value_round-cons :
      (again : Markov D → List ℕ → Run (Markov D)) (m : Markov D) (tag : ℕ) (b : Bool) (s : List ℕ)
      (c : ℕ) (t : List ℕ)
      → s ≡ c ∷ t
      → value_round again m tag b s ≡ value_round_from again m tag b (parse_direction s)
  unfolding value_round
  value_round-cons again m tag b s c t e =
      ap (value_round again m tag b) e
      ∙ ap (λ x. value_round_from again m tag b (parse_direction x)) (sym e)

  value_round_from-printed :
      (again : Markov D → List ℕ → Run (Markov D)) (m : Markov D) (tag : ℕ) (b : Bool)
      (a : Argument D) (t : List ℕ)
      → Meets (λ c. c == b' ') t
      → IsPrinted a
      → IsChain m
      → a.node < m.nodes_count
      → value_round_from again m tag b (a.direction, argument_text a ++ t)
        ≡ again (record m { nodes = with_arguments tag b (a ∷ []) m.nodes }) t
  unfolding value_round_from value_round_rest set_argument with_arguments
  value_round_from-printed again m tag b a t ends p v h =
      let d = directed b a.direction in
      let next : Run (Bool × Markov D) → Run (Markov D) =
        λ r. r >>= λ (go_on, m'). (let more = again m' t in if go_on then more else ok m') in
      ap (value_round_rest again m tag d)
        (split_at-past (λ c. c == b' ') (argument_text a) t (argument_text-InWord a p) ends)
      ∙ ap (λ r. next (set_argument m tag d r)) (parse_wire_value-printed a p)
      ∙ ap next (set_parsed_lem m tag d (argument_value a) a.node v h)
      ∙ ap (λ node. again (record m { nodes = write m.nodes a.node node }) t)
          (ap (λ x. set_direction x tag (argument_value a) (m.nodes a.node))
              (directed-sides b a.direction)
            ∙ set_direction-given tag (sides b a.direction) (argument_value a) (m.nodes a.node))

  arguments_behind-Meets :
      (rest : List (Argument D)) → Meets (λ c. c == b' ') (arguments_behind rest)
  arguments_behind-Meets [] = tt
  arguments_behind-Meets (a ∷ rest) = refl

  set_wire_loop-argument :
      (f : ℕ) (m : Markov D) (tag : ℕ) (b : Bool) (a : Argument D) (rest : List (Argument D))
      → IsPrinted a
      → IsChain m
      → a.node < m.nodes_count
      → set_wire_loop (suc f) m tag b (arguments_text (a ∷ rest))
        ≡ set_wire_loop f
            (record m { nodes = with_arguments tag b (a ∷ []) m.nodes })
            tag
            b
            (arguments_behind rest)
  unfolding set_wire_loop
  set_wire_loop-argument f m tag b a rest p v h =
      let t = arguments_behind rest in
      let s = argument_text a ++ t in
      let whole = direction_text a.direction ++ s in
      let figure = (subst (Only is_figure) p.number.cons p.number.figures).0 in
      let more = b'+' ∷ (a.plus_number ++ multiplier_text a.multiplier) in
      let start : s ≡ p.number.first ∷ _ =
        ap (λ x. ((x ++ more) ++ node_text a) ++ t) p.number.cons in
      let (c, u, e, no_blank) = direction_text-cons a.direction s p.number.first _ start figure in
      let again = λ (m' : Markov D). set_wire_loop f m' tag b in
      ap (λ x. value_round again m tag b (drop_while is_blank x)) e
      ∙ ap (value_round again m tag b) (drop_while-past is_blank [] (c ∷ u) tt no_blank ∙ sym e)
      ∙ value_round-cons again m tag b whole c u e
      ∙ ap (value_round_from again m tag b)
          (parse_direction-printed a.direction s p.number.first _ start figure)
      ∙ value_round_from-printed again m tag b a t (arguments_behind-Meets rest) p v h

  set_wire_loop-behind :
      (f : ℕ) (m : Markov D) (tag : ℕ) (b : Bool) (rest : List (Argument D))
      → set_wire_loop f m tag b (arguments_behind rest)
        ≡ set_wire_loop f m tag b (arguments_text rest)
  unfolding set_wire_loop drop_while
  set_wire_loop-behind f m tag b [] = refl
  set_wire_loop-behind zero m tag b (a ∷ rest) = refl
  set_wire_loop-behind (suc f) m tag b (a ∷ rest) = refl

  set_wire_loop-printed :
      (rest : List (Argument D)) (f : ℕ) (m : Markov D) (tag : ℕ) (b : Bool)
      → length rest < f
      → IsChain m
      → All IsPrinted rest
      → All (λ a. a.node < m.nodes_count) rest
      → set_wire_loop f m tag b (arguments_text rest)
        ≡ ok (record m { nodes = with_arguments tag b rest m.nodes })
  unfolding set_wire_loop value_round drop_while with_arguments
  set_wire_loop-printed rest zero m tag b h v p q = absurd (omega arith)
  set_wire_loop-printed [] (suc f) m tag b h v p q = refl
  set_wire_loop-printed (a ∷ rest) (suc f) m tag b h v p q =
      let m' = record m { nodes = with_arguments tag b (a ∷ []) m.nodes } in
      set_wire_loop-argument f m tag b a rest p.0 v q.0
      ∙ set_wire_loop-behind f m' tag b rest
      ∙ set_wire_loop-printed rest f m' tag b (omega arith)
          (record { allocated = v.allocated; capacity = v.capacity; within = v.within }) p.1 q.1

  length-arguments_behind :
      (rest : List (Argument D)) → length rest ≤ length (arguments_behind rest)
  length-arguments_behind [] = omega arith
  length-arguments_behind (a ∷ rest) = omega (
    arith,
    length-append (direction_text a.direction) (argument_text a ++ arguments_behind rest),
    length-append (argument_text a) (arguments_behind rest),
    length-arguments_behind rest,
  )

  length-arguments_text : (rest : List (Argument D)) → length rest ≤ length (arguments_text rest)
  length-arguments_text [] = omega arith
  length-arguments_text (a ∷ rest) = omega (
    arith,
    length-append (direction_text a.direction) (argument_text a ++ arguments_behind rest),
    length-append (argument_text a) (arguments_behind rest),
    length-append (numbers_text a) (node_text a),
    length-arguments_behind rest,
  )

  -- On the text of some arguments for nodes of a chain, with a blank between two of them, the parser comes to its
  -- end, and sets the values of the tag that the arguments stand for, one after the other. An argument gives its
  -- value to its direction, and to both if it names none or both share the value; nothing else of the chain
  -- changes.
  pub set_wire_value-printed :
      (m : Markov D) (tag : ℕ) (b : Bool) (rest : List (Argument D))
      → IsChain m
      → All IsPrinted rest
      → All (λ a. a.node < m.nodes_count) rest
      → set_wire_value m tag (some (arguments_text rest)) b
        ≡ ok (record m { nodes = with_arguments tag b rest m.nodes })
  unfolding set_wire_value
  set_wire_value-printed m tag b rest v p q =
      set_wire_loop-printed rest (length (arguments_text rest) + 1) m tag b
        (omega (arith, length-arguments_text rest)) v p q
