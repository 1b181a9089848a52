-- ===== src/Markov/Parse/Total.antt =====
-- `setWireValue` of includes/wf_markov.c on any string.
use vdeplug_wirefilter.Base.{
  ℕ, zero, suc, ◌+◌, ◌<◌, ◌≤◌, ◌≡◌, ◌≢◌, ◌⊎◌, inl, inr, refl, sym, ap, subst, ◌∙◌, arith, Bool,
  true, false, Bool-cases, ◌==◌, ltb, if◌then◌else◌, write, length, Option, none, some, List, [],
  ◌∷◌, Run, Returns, returns, Returns-bind, Returns-split, Returns-weaken,
}
use vdeplug_wirefilter.Base.Int.{ℤ, pos, negsuc}
use vdeplug_wirefilter.Double.{Double, DoubleText}
use vdeplug_wirefilter.Markov.{Markov, MarkovNode, set_node_value}
use vdeplug_wirefilter.Markov.Parse.{
  Parsed, parse_direction, parse_wire_value, directed, set_direction, set_parsed, set_argument,
  value_round_rest, value_round_from, value_round, set_wire_loop, set_wire_value,
}
use vdeplug_wirefilter.Markov.Parse.Printed.{set_parsed_lem}
use vdeplug_wirefilter.Markov.Resize.{IsChain}
use vdeplug_wirefilter.Packet.{Direction, left_to_right, right_to_left}
use vdeplug_wirefilter.Text.{is_blank, drop_while, split_at}

length-drop_while : (test : ℕ → Bool) (s : List ℕ) → length (drop_while test s) ≤ length s
unfolding drop_while
length-drop_while test [] = omega arith
length-drop_while test (c ∷ s) = elim (Bool-cases (test c)) [
  | inl e ↦ rw e (omega (arith, length-drop_while test s))
  | inr e ↦ rw e (omega arith)
]

drop_while-stops :
    (test : ℕ → Bool) (s : List ℕ)
    → (drop_while test s ≡ [])
      ⊎ ((c : ℕ) × (t : List ℕ) × (drop_while test s ≡ c ∷ t) × (test c ≡ false))
unfolding drop_while
drop_while-stops test [] = inl refl
drop_while-stops test (c ∷ s) = elim (Bool-cases (test c)) [
  | inl e ↦ rw e (drop_while-stops test s)
  | inr e ↦ inr (c, s, rw e refl, e)
]

length-split_at : (test : ℕ → Bool) (s : List ℕ) → length (split_at test s).1 ≤ length s
unfolding split_at
length-split_at test [] = omega arith
length-split_at test (c ∷ s) = elim (Bool-cases (test c)) [
  | inl e ↦ rw e (omega arith)
  | inr e ↦ rw e (omega (arith, length-split_at test s))
]

-- The string behind a direction is shorter, or there is no direction.
IsShorter : List ℕ → Option Direction × List ℕ → Type 0
IsShorter s r = (length r.1 < length s) ⊎ (r.1 ≡ s)

either_direction :
    (left right : Bool) (c d : ℕ) (t : List ℕ)
    → IsShorter (c ∷ d ∷ t) (
        if left
        then (some left_to_right, t)
        else if right
        then (some right_to_left, t)
        else (none, c ∷ d ∷ t))
unfolding IsShorter
either_direction true right c d t = inl (omega arith)
either_direction false true c d t = inl (omega arith)
either_direction false false c d t = inr refl

parse_direction-IsShorter : (c : ℕ) (t : List ℕ) → IsShorter (c ∷ t) (parse_direction (c ∷ t))
unfolding parse_direction
parse_direction-IsShorter c [] = unfold IsShorter in inr refl
parse_direction-IsShorter c (d ∷ t) = either_direction _ _ c d t

split_at-shorter :
    (c : ℕ) (t : List ℕ)
    → (c == b' ') ≡ false
    → length (split_at (λ d. d == b' ') (c ∷ t)).1 < length (c ∷ t)
unfolding split_at
split_at-shorter c t h = rw h (omega (arith, length-split_at (λ d. d == b' ') t))

rest-shorter :
    (c : ℕ) (t : List ℕ)
    → is_blank c ≡ false
    → length (split_at (λ d. d == b' ') (parse_direction (c ∷ t)).1).1 < length (c ∷ t)
unfolding IsShorter
rest-shorter c t h = elim (parse_direction-IsShorter c t) [
  | inl less ↦ omega (arith, length-split_at (λ d. d == b' ') (parse_direction (c ∷ t)).1)
  | inr same ↦
      let no_blank : (c == b' ') ≡ false = ground arith in
      subst (λ u. length (split_at (λ d. d == b' ') u).1 < length (c ∷ t)) (sym same)
        (split_at-shorter c t no_blank)
]

module _ {D : Type 0} ⦃double : Double D⦄ ⦃text : DoubleText D⦄ where
  -- The two chains differ in the values of one tag at most.
  pub record OnlyTag (tag : ℕ) (m m' : Markov D) : Type 0 where
    pub chain : IsChain m'
    pub nodes_count : m'.nodes_count ≡ m.nodes_count
    pub adjacency : m'.adjacency ≡ m.adjacency
    pub current_node : m'.current_node ≡ m.current_node
    pub change_frequency : m'.change_frequency ≡ m.change_frequency
    pub timerfd : m'.timerfd ≡ m.timerfd
    pub names : (i : ℕ) → (m'.nodes i).name ≡ (m.nodes i).name
    pub values : (i other : ℕ) → other ≢ tag → (m'.nodes i).values other ≡ (m.nodes i).values other

  OnlyTag-refl : (tag : ℕ) (m : Markov D) → IsChain m → OnlyTag tag m m
  OnlyTag-refl tag m v = record {
    chain = v;
    nodes_count = refl;
    adjacency = refl;
    current_node = refl;
    change_frequency = refl;
    timerfd = refl;
    names = λ i. refl;
    values = λ i other ne. refl;
  }

  OnlyTag-trans :
      {tag : ℕ} {m m' m'' : Markov D} → OnlyTag tag m m' → OnlyTag tag m' m'' → OnlyTag tag m m''
  OnlyTag-trans p q = record {
    chain = q.chain;
    nodes_count = q.nodes_count ∙ p.nodes_count;
    adjacency = q.adjacency ∙ p.adjacency;
    current_node = q.current_node ∙ p.current_node;
    change_frequency = q.change_frequency ∙ p.change_frequency;
    timerfd = q.timerfd ∙ p.timerfd;
    names = λ i. q.names i ∙ p.names i;
    values = λ i other ne. q.values i other ne ∙ p.values i other ne;
  }

  set_node_value-other :
      (node : MarkovNode D) (tag : ℕ) (d : Direction) (p : Parsed D) (other : ℕ)
      → other ≢ tag
      → (set_node_value node tag d p.value p.plus p.algorithm).values other ≡ node.values other
  unfolding set_node_value
  set_node_value-other node tag d p other ne =
      let elsewhere : (tag == other) ≡ false = ground arith in rw elsewhere refl

  set_direction-keeps :
      (d : Option Direction) (tag : ℕ) (p : Parsed D) (node : MarkovNode D)
      → ((set_direction d tag p node).name ≡ node.name)
        × ((other : ℕ)
            → other ≢ tag
            → (set_direction d tag p node).values other ≡ node.values other)
  unfolding set_node_value
  set_direction-keeps (some d) tag p node =
      (refl, λ other ne. set_node_value-other node tag d p other ne)
  set_direction-keeps none tag p node =
      let first = set_node_value node tag left_to_right p.value p.plus p.algorithm in
      (
        refl,
        λ other ne.
            set_node_value-other first tag right_to_left p other ne
            ∙ set_node_value-other node tag left_to_right p other ne,
      )

  write-keeps {ℓ} :
      {B : Type ℓ} (part : MarkovNode D → B) (nodes : ℕ → MarkovNode D) (i : ℕ)
      (node : MarkovNode D)
      → part node ≡ part (nodes i)
      → (j : ℕ) → part (write nodes i node j) ≡ part (nodes j)
  write-keeps part nodes i node h j = elim (Bool-cases (i == j)) [
    | inl e ↦ let here : i ≡ j = ground arith in rw e (h ∙ ap (λ k. part (nodes k)) here)
    | inr e ↦ rw e refl
  ]

  set_parsed-OnlyTag :
      (m : Markov D) (tag : ℕ) (d : Option Direction) (p : Parsed D) (node : ℤ)
      → IsChain m
      → Returns (λ (go_on, m'). OnlyTag tag m m') (set_parsed m tag d p node)
  set_parsed-OnlyTag m tag d p (negsuc i) v = unfold set_parsed in returns (OnlyTag-refl tag m v)
  set_parsed-OnlyTag m tag d p (pos i) v = elim (Bool-cases (ltb i m.nodes_count)) [
    | inl inside ↦
        let (name, values) = set_direction-keeps d tag p (m.nodes i) in
        let node = set_direction d tag p (m.nodes i) in
        subst (Returns (λ (go_on, m'). OnlyTag tag m m'))
          (sym (set_parsed_lem m tag d p i v (ground arith)))
          (returns (record {
            chain = record { allocated = v.allocated; capacity = v.capacity; within = v.within };
            nodes_count = refl;
            adjacency = refl;
            current_node = refl;
            change_frequency = refl;
            timerfd = refl;
            names = write-keeps (λ x. x.name) m.nodes i node name;
            values =
                λ j other ne. write-keeps (λ x. x.values other) m.nodes i node (values other ne) j;
          }))
    | inr outside ↦ unfold set_parsed in rw outside (returns (OnlyTag-refl tag m v))
  ]

  set_argument-OnlyTag :
      (m : Markov D) (tag : ℕ) (d : Option Direction) (p : Option (Parsed D))
      → IsChain m
      → Returns (λ (go_on, m'). OnlyTag tag m m') (set_argument m tag d p)
  unfolding set_argument
  set_argument-OnlyTag m tag d none v = returns (OnlyTag-refl tag m v)
  set_argument-OnlyTag m tag d (some p) v = set_parsed-OnlyTag m tag d p p.to_set_node v

  value_round_from-OnlyTag :
      (again : Markov D → List ℕ → Run (Markov D)) (m : Markov D) (tag : ℕ) (b : Bool)
      (r : Option Direction × List ℕ)
      → IsChain m
      → ((m' : Markov D)
          → IsChain m'
          → Returns (OnlyTag tag m') (again m' (split_at (λ d. d == b' ') r.1).1))
      → Returns (OnlyTag tag m) (value_round_from again m tag b r)
  unfolding value_round_from value_round_rest
  value_round_from-OnlyTag again m tag b (d, s) v h =
      let (argument, rest) = split_at (λ x. x == b' ') s in
      Returns-bind (set_argument-OnlyTag m tag (directed b d) (parse_wire_value argument) v)
        λ (go_on, m') q.
          Returns-split go_on (λ e. Returns-weaken (h m' q.chain) (λ m'' q'. OnlyTag-trans q q'))
            (λ e. returns q)

  set_wire_loop-OnlyTag :
      (f : ℕ) (m : Markov D) (tag : ℕ) (b : Bool) (s : List ℕ)
      → length s < f
      → IsChain m
      → Returns (OnlyTag tag m) (set_wire_loop f m tag b s)
  unfolding set_wire_loop value_round
  set_wire_loop-OnlyTag zero m tag b s h v = absurd (omega arith)
  set_wire_loop-OnlyTag (suc f) m tag b s h v = elim (drop_while-stops is_blank s) [
    | inl e ↦ rw e (returns (OnlyTag-refl tag m v))
    | inr (c, t, e, no_blank) ↦ rw e (
        value_round_from-OnlyTag (λ m'. set_wire_loop f m' tag b) m tag b (parse_direction (c ∷ t))
          v
          λ m' v'.
            set_wire_loop-OnlyTag f m' tag b
              (split_at (λ d. d == b' ') (parse_direction (c ∷ t)).1).1
              (omega (arith, rest-shorter c t no_blank, ap length e, length-drop_while is_blank s))
              v')
  ]

  -- On any string, for a chain whose nodes are in memory, the parser comes to its end without a fault, and
  -- changes nothing but values of its tag.
  pub set_wire_value-OnlyTag :
      (m : Markov D) (tag : ℕ) (b : Bool) (s : Option (List ℕ))
      → IsChain m
      → Returns (OnlyTag tag m) (set_wire_value m tag s b)
  unfolding set_wire_value
  set_wire_value-OnlyTag m tag b none v = returns (OnlyTag-refl tag m v)
  set_wire_value-OnlyTag m tag b (some s) v =
      set_wire_loop-OnlyTag (length s + 1) m tag b s (omega arith) v
