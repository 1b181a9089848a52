-- ===== src/Markov/Names/Printed.antt =====
-- What `markovSetNames` of includes/wf_markov.c makes of a string that names nodes in the format of its comment.
use vdeplug_wirefilter.Base.{
  ℕ, zero, suc, ◌+◌, ◌<◌, ◌≤◌, ◌^◌, ◌≡◌, refl, sym, ap, ap₂, subst, ◌∙◌, arith, true, Bool-cases,
  inl, inr, not, ◌==◌, if◌then◌else◌, ltb, write, length, length-append, Only, Meets, All, All-map,
  Option, some, List, [], ◌∷◌, ◌++◌, Run, ok, ◌>>=◌, Returns, returns, Returns-bind, Returns-weaken,
}
use vdeplug_wirefilter.Base.Int.{pos}
use vdeplug_wirefilter.Markov.{Markov, MarkovNode}
use vdeplug_wirefilter.Markov.Names.{
  set_name, next_name, read_name, names_round, set_names_loop, set_names,
}
use vdeplug_wirefilter.Markov.Resize.{IsChain}
use vdeplug_wirefilter.Text.{is_blank, is_digit, drop_while, scanned, atoi}
use vdeplug_wirefilter.Text.Scan.{
  Only-weaken, drop_while-past, split_at-past, decimal-Only, decimal-cons, scan_int-decimal,
}
use vdeplug_wirefilter.Wire.Forward.{decimal}

-- A node and its new name.
pub record Naming : Type 0 where
  pub node : ℕ
  pub name : List ℕ

pub record IsPrinted (a : Naming) : Type 0 where
  pub node : a.node < 10 ^ 20
  pub name : Only (λ c. not (c == b' ')) a.name

abbrev name_part : Naming → List ℕ → List ℕ
name_part a t = b',' ∷ (a.name ++ t)

-- The names that follow one, each with a blank before it.
abbrev pub names_behind : List Naming → List ℕ
names_behind [] = []
names_behind (a ∷ ns) = b' ' ∷ (decimal a.node ++ name_part a (names_behind ns))

-- The text of the names: each is its node, a comma and the name, with a blank between two of them.
abbrev pub names_text : List Naming → List ℕ
names_text [] = []
names_text (a ∷ ns) = decimal a.node ++ name_part a (names_behind ns)

names_behind-Meets : (ns : List Naming) → Meets (λ c. c == b' ') (names_behind ns)
names_behind-Meets [] = tt
names_behind-Meets (a ∷ ns) = refl

-- The name that a list gives a node, which has the name `old` before.
abbrev pub name_given : List Naming → ℕ → Option (List ℕ) → Option (List ℕ)
name_given [] i old = old
name_given (a ∷ ns) i old = name_given ns i (if a.node == i then some a.name else old)

length-naming : (a : Naming) (t : List ℕ) → length t < length (decimal a.node ++ name_part a t)
length-naming a t =
    omega (arith, length-append (decimal a.node) (name_part a t), length-append a.name t)

length-names_behind : (ns : List Naming) → length ns ≤ length (names_behind ns)
length-names_behind [] = omega arith
length-names_behind (a ∷ ns) =
    omega (arith, length-naming a (names_behind ns), length-names_behind ns)

length-names_text : (ns : List Naming) → length ns ≤ length (names_text ns)
length-names_text [] = omega arith
length-names_text (a ∷ ns) =
    omega (arith, length-naming a (names_behind ns), length-names_behind ns)

atoi-decimal : (n : ℕ) (t : List ℕ) → n < 10 ^ 20 → atoi (decimal n ++ (b',' ∷ t)) ≡ pos n
unfolding atoi
atoi-decimal n t h = ap scanned (scan_int-decimal n (b',' ∷ t) h refl)

no_comma : (c : ℕ) → is_digit c ≡ true → not (c == b',') ≡ true
no_comma c h = ground arith

module _ {D : Type 0} where
  read_name-printed :
      (again : Markov D → List ℕ → Run (Markov D)) (m : Markov D) (a : Naming) (t : List ℕ)
      → IsPrinted a
      → Meets (λ c. c == b' ') t
      → read_name again m (pos a.node) (name_part a t)
        ≡ (set_name m (pos a.node) a.name >>= λ m'. next_name again m' t)
  unfolding read_name
  read_name-printed again m a t p ends =
      ap (λ (name, rest). set_name m (pos a.node) name >>= λ m'. next_name again m' rest)
        (split_at-past (λ d. d == b' ') a.name t p.name ends)

  names_round-printed :
      (again : Markov D → List ℕ → Run (Markov D)) (m : Markov D) (a : Naming) (t : List ℕ) (c : ℕ)
      (w : List ℕ)
      → IsPrinted a
      → Meets (λ d. d == b' ') t
      → decimal a.node ≡ c ∷ w
      → names_round again m ((c ∷ w) ++ name_part a t)
        ≡ (set_name m (pos a.node) a.name >>= λ m'. next_name again m' t)
  unfolding names_round
  names_round-printed again m a t c w p ends e =
      ap₂ (read_name again m)
        (ap (λ x. atoi (x ++ name_part a t)) (sym e) ∙ atoi-decimal a.node (a.name ++ t) p.node)
        (drop_while-past (λ d. not (d == b',')) (c ∷ w) (name_part a t)
          (subst (Only (λ d. not (d == b','))) e (
            Only-weaken is_digit (λ d. not (d == b',')) (decimal a.node) no_comma
              (decimal-Only a.node)))
          refl)
      ∙ read_name-printed again m a t p ends

  -- The string goes on with the next name, or is at its end.
  next_name-behind :
      (f : ℕ) (ns : List Naming) (m : Markov D)
      → 0 < f
      → next_name (λ m'. set_names_loop f m') m (names_behind ns)
        ≡ set_names_loop f m (names_text ns)
  unfolding next_name set_names_loop names_round drop_while
  next_name-behind zero ns m h = absurd (omega arith)
  next_name-behind (suc f) [] m h = refl
  next_name-behind (suc f) (a ∷ ns) m h = refl

  set_names_loop-naming :
      (f : ℕ) (m : Markov D) (a : Naming) (ns : List Naming)
      → IsPrinted a
      → 0 < f
      → set_names_loop (suc f) m (names_text (a ∷ ns))
        ≡ (set_name m (pos a.node) a.name >>= λ m'. set_names_loop f m' (names_text ns))
  unfolding set_names_loop
  set_names_loop-naming f m a ns p h =
      let (c, w, e) = decimal-cons a.node in
      let digit = (subst (Only is_digit) e (decimal-Only a.node)).0 in
      let t = names_behind ns in
      let no_blank : not (is_blank c) ≡ true = ground arith in
      ap (λ x. set_names_loop (suc f) m (x ++ name_part a t)) e
      ∙ ap (names_round (λ m'. set_names_loop f m') m)
          (drop_while-past is_blank [] ((c ∷ w) ++ name_part a t) tt no_blank)
      ∙ names_round-printed (λ m'. set_names_loop f m') m a t c w p (names_behind-Meets ns) e
      ∙ ap (◌>>=◌ (set_name m (pos a.node) a.name)) (λ j m'. next_name-behind f ns m' h j)

  -- What the names of a list make of a chain.
  pub record Named (m : Markov D) (ns : List Naming) (m' : Markov D) : Type 0 where
    pub chain : IsChain m'
    pub nodes_count : m'.nodes_count ≡ m.nodes_count
    pub names : (i : ℕ) → (m'.nodes i).name ≡ name_given ns i (m.nodes i).name
    pub values : (i : ℕ) → (m'.nodes i).values ≡ (m.nodes i).values
    pub adjacency : m'.adjacency ≡ m.adjacency
    pub current_node : m'.current_node ≡ m.current_node
    pub change_frequency : m'.change_frequency ≡ m.change_frequency
    pub timerfd : m'.timerfd ≡ m.timerfd

  name_written :
      (nodes : ℕ → MarkovNode D) (a : Naming) (i : ℕ)
      → (write nodes a.node (record (nodes a.node) { name = some a.name }) i).name
        ≡ (if a.node == i then some a.name else (nodes i).name)
  name_written nodes a i = elim (Bool-cases (a.node == i)) [ inl e ↦ rw e refl | inr e ↦ rw e refl ]

  values_written :
      (nodes : ℕ → MarkovNode D) (a : Naming) (i : ℕ)
      → (write nodes a.node (record (nodes a.node) { name = some a.name }) i).values
        ≡ (nodes i).values
  values_written nodes a i = elim (Bool-cases (a.node == i)) [
    | inl e ↦ rw e (ap (λ j. (nodes j).values) (ground arith))
    | inr e ↦ rw e refl
  ]

  set_name_lem :
      (m : Markov D) (i : ℕ) (name : List ℕ)
      → IsChain m
      → i < m.nodes_count
      → set_name m (pos i) name
        ≡ ok (record m { nodes = write m.nodes i (record (m.nodes i) { name = some name }) })
  unfolding set_name
  set_name_lem m i name v h =
      let inside : ltb i m.nodes_count ≡ true = ground arith in
      rw (inside, v.allocated, v.capacity, inside) refl

  set_name-Named :
      (m : Markov D) (a : Naming)
      → IsChain m
      → a.node < m.nodes_count
      → Returns (Named m (a ∷ [])) (set_name m (pos a.node) a.name)
  set_name-Named m a v h =
      subst (Returns (Named m (a ∷ []))) (sym (set_name_lem m a.node a.name v h)) (
        returns (record {
          chain = record { allocated = v.allocated; capacity = v.capacity; within = v.within };
          nodes_count = refl;
          names = λ i. name_written m.nodes a i;
          values = λ i. values_written m.nodes a i;
          adjacency = refl;
          current_node = refl;
          change_frequency = refl;
          timerfd = refl;
        }))

  set_names_loop-printed :
      (ns : List Naming) (f : ℕ) (m : Markov D)
      → length ns < f
      → IsChain m
      → All IsPrinted ns
      → All (λ a. a.node < m.nodes_count) ns
      → Returns (Named m ns) (set_names_loop f m (names_text ns))
  unfolding set_names_loop names_round drop_while
  set_names_loop-printed ns zero m h v p q = absurd (omega arith)
  set_names_loop-printed [] (suc f) m h v p q = returns (record {
    chain = v;
    nodes_count = refl;
    names = λ i. refl;
    values = λ i. refl;
    adjacency = refl;
    current_node = refl;
    change_frequency = refl;
    timerfd = refl;
  })
  set_names_loop-printed (a ∷ ns) (suc f) m h v p q =
      subst (Returns (Named m (a ∷ ns))) (sym (set_names_loop-naming f m a ns p.0 (omega arith))) (
        Returns-bind (set_name-Named m a v q.0) λ m' first.
          Returns-weaken
            (set_names_loop-printed ns f m' (omega arith) first.chain p.1
              (All-map ns (λ b l. omega (arith, first.nodes_count, l)) q.1))
            (λ m'' more. record {
              chain = more.chain;
              nodes_count = more.nodes_count ∙ first.nodes_count;
              names = λ i. more.names i ∙ ap (name_given ns i) (first.names i);
              values = λ i. more.values i ∙ first.values i;
              adjacency = more.adjacency ∙ first.adjacency;
              current_node = more.current_node ∙ first.current_node;
              change_frequency = more.change_frequency ∙ first.change_frequency;
              timerfd = more.timerfd ∙ first.timerfd;
            }))

  -- On the text of some names for nodes of a chain, with a blank between two of them, the parser comes to its
  -- end. Each node then has the last name that the text gives it, or its old one when the text gives none, and
  -- nothing else of the chain has changed. A name has no blank.
  pub set_names-Named :
      (m : Markov D) (ns : List Naming)
      → IsChain m
      → All IsPrinted ns
      → All (λ a. a.node < m.nodes_count) ns
      → Returns (Named m ns) (set_names m (names_text ns))
  unfolding set_names
  set_names-Named m ns v p q =
      set_names_loop-printed ns (length (names_text ns) + 1) m (omega (arith, length-names_text ns))
        v p q
