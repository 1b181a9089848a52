-- ===== src/Markov/Parse/Argument.antt =====
-- What `parseWireValueString` of includes/wf_markov.c reads from an argument with all its parts.
use mathlib.Core.List.{
  reverse, reverse_aux, reverse_aux-append, reverse-cons, reverse-append, reverse-reverse,
  append_assoc, append-nil,
}
use vdeplug_wirefilter.Base.{
  ℕ, ◌<◌, ◌^◌, ◌≡◌, refl, sym, ap, ap₂, subst, ◌∙◌, arith, Bool, true, false, not, ◌==◌, Only,
  Meets, Option, some, List, [], ◌∷◌, ◌++◌,
}
use vdeplug_wirefilter.Base.Int.{ℤ, pos}
use vdeplug_wirefilter.Double.{Double, DoubleText, IsNumber, is_figure, ends_number}
use vdeplug_wirefilter.Markov.{algo_uniform, algo_gauss_normal}
use vdeplug_wirefilter.Markov.Parse.{
  Parsed, kilo, giga, trim_end, find_bracket, bracketed, parse_node, parse_algorithm,
  parse_multiplier, parse_numbers, parse_rest, parse_wire_value, scanned_plus, scanned_value,
}
use vdeplug_wirefilter.Packet.{Direction}
use vdeplug_wirefilter.Text.{is_blank, is_digit, scanned, scan_int}
use vdeplug_wirefilter.Text.Scan.{Only-weaken, decimal-Only, scan_int-decimal}
use vdeplug_wirefilter.Wire.Handlers.{mega}
use vdeplug_wirefilter.Wire.Forward.{decimal}

-- The letter of a multiplier, and of the algorithm.
pub data Multiplier : Type 0 where
  no_multiplier kilo_letter mega_letter giga_letter : Multiplier

abbrev pub multiplier_text : Multiplier → List ℕ
multiplier_text no_multiplier = []
multiplier_text kilo_letter = b'K' ∷ []
multiplier_text mega_letter = b'M' ∷ []
multiplier_text giga_letter = b'G' ∷ []

abbrev pub factor : Multiplier → ℕ
factor no_multiplier = 1
factor kilo_letter = kilo
factor mega_letter = mega
factor giga_letter = giga

abbrev pub algorithm_letter : Bool → ℕ
algorithm_letter true = b'N'
algorithm_letter false = b'U'

abbrev pub algorithm_of : Bool → ℕ
algorithm_of true = algo_gauss_normal
algorithm_of false = algo_uniform

-- An argument of `setWireValue`: a direction or both, two numbers with their texts, a multiplier, an
-- algorithm and a node.
pub record Argument (D : Type 0) : Type 0 where
  pub direction : Option Direction
  pub value : D
  pub number : List ℕ
  pub plus : D
  pub plus_number : List ℕ
  pub multiplier : Multiplier
  pub gauss : Bool
  pub node : ℕ

Only-reverse_aux :
    (test : ℕ → Bool) (s t : List ℕ) → Only test s → Only test t → Only test (reverse_aux s t)
Only-reverse_aux test [] t h k = k
Only-reverse_aux test (c ∷ s) t h k = Only-reverse_aux test s (c ∷ t) h.1 (h.0, k)

find_bracket-past :
    (after s rest : List ℕ)
    → Only (λ c. not (c == b'[')) s
    → find_bracket after (s ++ (b'[' ∷ rest)) ≡ some (rest, reverse_aux s after)
unfolding find_bracket
find_bracket-past after [] rest h = refl
find_bracket-past after (c ∷ s) rest h =
    let other : (c == b'[') ≡ false = ground arith in
    rw other (find_bracket-past (c ∷ after) s rest h.1)

no_bracket : (c : ℕ) → is_digit c ≡ true → not (c == b'[') ≡ true
no_bracket c h = ground arith

-- The brackets with a node at the end of a string, read from there.
parse_node-printed :
    (node : ℕ) (rest : List ℕ)
    → node < 10 ^ 20
    → parse_node (b']' ∷ (reverse (decimal node) ++ (b'[' ∷ rest))) ≡ some (pos node, rest)
unfolding parse_node
parse_node-printed node rest h =
    let digits = decimal node in
    let others : Only (λ c. not (c == b'[')) digits =
      Only-weaken is_digit (λ c. not (c == b'[')) digits no_bracket (decimal-Only node) in
    ap bracketed
      (find_bracket-past [] (reverse digits) rest (Only-reverse_aux _ digits [] others tt))
    ∙ ap (λ text. some (scanned (scan_int text), rest))
        (reverse-reverse digits ∙ sym (append-nil digits))
    ∙ ap (λ (r : Option (ℤ × List ℕ)). some (scanned r, rest)) (scan_int-decimal node [] h tt)

pub trim_end-ink : (c : ℕ) (s : List ℕ) → is_blank c ≡ false → trim_end (c ∷ s) ≡ c ∷ s
unfolding trim_end
trim_end-ink c [] h = refl
trim_end-ink c (d ∷ s) h = rw h refl

-- A figure at the end is not the letter of a multiplier.
pub parse_multiplier-figure :
    (c : ℕ) (s : List ℕ) → is_figure c ≡ true → parse_multiplier (c ∷ s) ≡ 1
unfolding parse_multiplier
parse_multiplier-figure c s h = ground arith

reverse_ends :
    (xs : List ℕ) (c d e : ℕ) (ys : List ℕ)
    → reverse (xs ++ (c ∷ d ∷ (ys ++ (e ∷ [])))) ≡ e ∷ (reverse ys ++ (d ∷ c ∷ reverse xs))
reverse_ends xs c d e ys = simp (reverse-append, reverse-cons, append_assoc)

-- The last character of a text that passes a test.
pub reverse_aux-first :
    (test : ℕ → Bool) (s : List ℕ) (c : ℕ) (t : List ℕ)
    → Only test s
    → test c ≡ true
    → (d : ℕ) × (u : List ℕ) × (reverse_aux s (c ∷ t) ≡ d ∷ u) × (test d ≡ true)
reverse_aux-first test [] c t h k = (c, t, refl, k)
reverse_aux-first test (d ∷ s) c t h k = reverse_aux-first test s d (c ∷ t) h.1 h.0

parse_multiplier-letter :
    (m : Multiplier) (xs ys : List ℕ) (c : ℕ) (others : List ℕ)
    → ys ≡ c ∷ others
    → Only is_figure ys
    → parse_multiplier (reverse ((xs ++ (b'+' ∷ ys)) ++ multiplier_text m)) ≡ factor m
unfolding parse_multiplier
parse_multiplier-letter no_multiplier xs ys c others e h =
    let figures = subst (Only is_figure) e h in
    let (d, u, last, figure) =
      reverse_aux-first is_figure others c (b'+' ∷ reverse xs) figures.1 figures.0 in
    ap (λ s. parse_multiplier (reverse s)) (append-nil (xs ++ (b'+' ∷ ys)))
    ∙ ap parse_multiplier (
        reverse_aux-append xs (b'+' ∷ ys) [] ∙ ap (λ s. reverse_aux s (b'+' ∷ reverse xs)) e ∙ last)
    ∙ parse_multiplier-figure d u figure
parse_multiplier-letter kilo_letter xs ys c others e h =
    ap parse_multiplier (reverse-append (xs ++ (b'+' ∷ ys)) (b'K' ∷ []))
parse_multiplier-letter mega_letter xs ys c others e h =
    ap parse_multiplier (reverse-append (xs ++ (b'+' ∷ ys)) (b'M' ∷ []))
parse_multiplier-letter giga_letter xs ys c others e h =
    ap parse_multiplier (reverse-append (xs ++ (b'+' ∷ ys)) (b'G' ∷ []))

parse_algorithm-letter :
    (gauss : Bool) (s : List ℕ)
    → parse_algorithm (algorithm_letter gauss ∷ s) ≡ (algorithm_of gauss, s)
unfolding parse_algorithm
parse_algorithm-letter true s = refl
parse_algorithm-letter false s = refl

multiplier_text-ends : (m : Multiplier) → Meets ends_number (multiplier_text m)
multiplier_text-ends no_multiplier = tt
multiplier_text-ends kilo_letter = refl
multiplier_text-ends mega_letter = refl
multiplier_text-ends giga_letter = refl

module _ {D : Type 0} ⦃double : Double D⦄ ⦃text : DoubleText D⦄ where
  open double use {of_ℕ, mul}
  open text use {scan}

  pub record IsPrinted (a : Argument D) : Type 0 where
    pub number : IsNumber a.number a.value
    pub plus_number : IsNumber a.plus_number a.plus
    pub node : a.node < 10 ^ 20

  -- The numbers and the multiplier; the algorithm and the node.
  abbrev pub numbers_text : Argument D → List ℕ
  numbers_text a = a.number ++ (b'+' ∷ (a.plus_number ++ multiplier_text a.multiplier))

  abbrev pub node_text : Argument D → List ℕ
  node_text a = algorithm_letter a.gauss ∷ b'[' ∷ (decimal a.node ++ (b']' ∷ []))

  -- The argument less its direction.
  abbrev pub argument_text : Argument D → List ℕ
  argument_text a = numbers_text a ++ node_text a

  -- What the argument stands for.
  abbrev pub argument_value : Argument D → Parsed D
  argument_value a = record {
    value = mul a.value (of_ℕ (factor a.multiplier));
    plus = a.plus;
    algorithm = algorithm_of a.gauss;
    to_set_node = pos a.node;
  }

  argument_text-reverse :
      (a : Argument D)
      → reverse (argument_text a)
        ≡ b']'
          ∷ (reverse (decimal a.node)
              ++ (b'[' ∷ algorithm_letter a.gauss ∷ reverse (numbers_text a)))
  argument_text-reverse a =
      reverse_ends (numbers_text a) (algorithm_letter a.gauss) b'[' b']' (decimal a.node)

  multiplier_letter :
      (a : Argument D)
      → IsPrinted a
      → parse_multiplier (reverse (numbers_text a)) ≡ factor a.multiplier
  multiplier_letter a p =
      ap (λ s. parse_multiplier (reverse s))
        (sym (append_assoc a.number (b'+' ∷ a.plus_number) (multiplier_text a.multiplier)))
      ∙ parse_multiplier-letter a.multiplier a.number a.plus_number p.plus_number.first
          p.plus_number.others p.plus_number.cons p.plus_number.figures

  parse_rest-printed :
      (a : Argument D)
      → IsPrinted a
      → parse_rest (some (pos a.node, algorithm_letter a.gauss ∷ reverse (numbers_text a)))
        ≡ some (argument_value a)
  unfolding parse_rest parse_numbers
  parse_rest-printed a p =
      let s = numbers_text a in
      let m = multiplier_text a.multiplier in
      ap (parse_numbers (pos a.node)) (parse_algorithm-letter a.gauss (reverse s))
      ∙ ap₂ (scanned_value (pos a.node) (algorithm_of a.gauss)) (multiplier_letter a p)
          (ap scan (reverse-reverse s) ∙ p.number.reads (b'+' ∷ (a.plus_number ++ m)) refl)
      ∙ ap (λ (r : Option (D × List ℕ)). some (record (argument_value a) { plus = scanned_plus r }))
          (p.plus_number.reads m (multiplier_text-ends a.multiplier))

  -- An argument with all its parts is read as what it stands for.
  pub parse_wire_value-printed :
      (a : Argument D) → IsPrinted a → parse_wire_value (argument_text a) ≡ some (argument_value a)
  unfolding parse_wire_value
  parse_wire_value-printed a p =
      let back =
        reverse (decimal a.node) ++ (b'[' ∷ algorithm_letter a.gauss ∷ reverse (numbers_text a)) in
      ap (λ s. parse_rest (parse_node (trim_end s))) (argument_text-reverse a)
      ∙ ap (λ s. parse_rest (parse_node s)) (trim_end-ink b']' back refl)
      ∙ ap parse_rest
          (parse_node-printed a.node (algorithm_letter a.gauss ∷ reverse (numbers_text a)) p.node)
      ∙ parse_rest-printed a p
