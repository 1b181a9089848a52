-- ===== src/Markov/Edges/Printed.antt =====
-- What `markovSetEdges` of includes/wf_markov.c makes of a string that names edges in the format of its comment.
use mathlib.Core.List.{append_assoc}
use vdeplug_wirefilter.Base.{
  ℕ, zero, suc, ◌+◌, ◌<◌, ◌≤◌, ◌^◌, ◌≡◌, refl, sym, ap, ap₂, subst, ◌∙◌, arith, false, not, length,
  length-append, Only, Meets, All, List, [], ◌∷◌, ◌++◌, Run, ok, ◌>>=◌,
}
use vdeplug_wirefilter.Base.Int.{pos}
use vdeplug_wirefilter.Double.{Double, DoubleText, IsNumber, is_figure, ends_number}
use vdeplug_wirefilter.Markov.{Markov}
use vdeplug_wirefilter.Markov.Edge.{set_edge}
use vdeplug_wirefilter.Markov.Edges.{
  EdgeVars, scan_edge, put_start, read_end, put_end, read_weight, put_weight, edges_round,
  set_edges, set_edges_loop,
}
use vdeplug_wirefilter.Text.{is_blank, is_digit, drop_while}
use vdeplug_wirefilter.Text.Scan.{
  in_word, digit-InWord, figure-InWord, Only-append, Only-weaken, drop_while-past, decimal-Only,
  decimal-cons, scan_int-decimal,
}
use vdeplug_wirefilter.Wire.Forward.{decimal}

-- An edge, with a number that stands for its weight.
pub record Edge (D : Type 0) : Type 0 where
  pub start_node : ℕ
  pub end_node : ℕ
  pub weight : D
  pub number : List ℕ

module _ {D : Type 0} ⦃double : Double D⦄ ⦃text : DoubleText D⦄ where
  pub record IsPrinted (e : Edge D) : Type 0 where
    pub start_node : e.start_node < 10 ^ 20
    pub end_node : e.end_node < 10 ^ 20
    pub number : IsNumber e.number e.weight

  abbrev edge_end : Edge D → List ℕ → List ℕ
  edge_end e t = b',' ∷ (decimal e.end_node ++ (b',' ∷ (e.number ++ t)))

  -- The edges that follow one, each with a blank before it.
  abbrev pub edges_behind : List (Edge D) → List ℕ
  edges_behind [] = []
  edges_behind (e ∷ es) = b' ' ∷ (decimal e.start_node ++ edge_end e (edges_behind es))

  -- The text of the edges: each is its two nodes and its weight, with commas between them, and a blank stands
  -- between two edges.
  abbrev pub edges_text : List (Edge D) → List ℕ
  edges_text [] = []
  edges_text (e ∷ es) = decimal e.start_node ++ edge_end e (edges_behind es)

  edges_behind-Meets : (es : List (Edge D)) → Meets (λ c. not (in_word c)) (edges_behind es)
  edges_behind-Meets [] = tt
  edges_behind-Meets (e ∷ es) = refl

  edges_behind-ends : (es : List (Edge D)) → Meets ends_number (edges_behind es)
  edges_behind-ends [] = tt
  edges_behind-ends (e ∷ es) = refl

  -- The edges are set one after the other.
  unfoldable pub set_all : Markov D → List (Edge D) → Run (Markov D)
  set_all m [] = ok m
  set_all m (e ∷ es) =
      set_edge m (pos e.start_node) (pos e.end_node) e.weight >>= λ m'. set_all m' es

  abbrev edge_vars : Edge D → EdgeVars D
  edge_vars e = record {
    start_node = pos e.start_node;
    end_node = pos e.end_node;
    weight = e.weight;
  }

  scan_edge-printed :
      (vars : EdgeVars D) (e : Edge D) (t : List ℕ)
      → IsPrinted e
      → Meets ends_number t
      → scan_edge vars (decimal e.start_node ++ edge_end e t) ≡ edge_vars e
  unfolding put_start read_end put_end read_weight put_weight
  scan_edge-printed vars e t p ends =
      ap (put_start vars) (scan_int-decimal e.start_node (edge_end e t) p.start_node refl)
      ∙ ap (put_end (record vars { start_node = pos e.start_node }))
          (scan_int-decimal e.end_node (b',' ∷ (e.number ++ t)) p.end_node refl)
      ∙ ap (put_weight (record vars { start_node = pos e.start_node; end_node = pos e.end_node }))
          (p.number.reads t ends)

  edges_round-word :
      (again : Markov D → EdgeVars D → List ℕ → Run (Markov D)) (m : Markov D)
      (vars vars' : EdgeVars D) (c : ℕ) (word t : List ℕ)
      → Only in_word (c ∷ word)
      → Meets (λ d. not (in_word d)) t
      → scan_edge vars ((c ∷ word) ++ t) ≡ vars'
      → edges_round again m vars ((c ∷ word) ++ t)
        ≡ (set_edge m vars'.start_node vars'.end_node vars'.weight >>= λ m'. again m' vars' t)
  unfolding edges_round
  edges_round-word again m vars vars' c word t h ends e =
      ap₂ (λ (v : EdgeVars D) s. set_edge m v.start_node v.end_node v.weight >>= λ m'. again m' v s)
        e (drop_while-past in_word (c ∷ word) t h ends)

  -- A round on a word of the string.
  set_edges_loop-word :
      (f : ℕ) (m : Markov D) (vars vars' : EdgeVars D) (c : ℕ) (word t : List ℕ)
      → is_blank c ≡ false
      → Only in_word (c ∷ word)
      → Meets (λ d. not (in_word d)) t
      → scan_edge vars ((c ∷ word) ++ t) ≡ vars'
      → set_edges_loop (suc f) m vars ((c ∷ word) ++ t) ≡ (
          set_edge m vars'.start_node vars'.end_node vars'.weight >>= λ m'.
          set_edges_loop f m' vars' t)
  unfolding set_edges_loop
  set_edges_loop-word f m vars vars' c word t no_blank h ends e =
      ap (edges_round (λ m'. set_edges_loop f m') m vars)
        (drop_while-past is_blank [] ((c ∷ word) ++ t) tt (ap not no_blank))
      ∙ edges_round-word (λ m'. set_edges_loop f m') m vars vars' c word t h ends e

  -- An edge as one word of the string.
  abbrev edge_word : Edge D → List ℕ
  edge_word e = decimal e.start_node ++ edge_end e []

  edge_word-InWord : (e : Edge D) → IsPrinted e → Only in_word (edge_word e)
  edge_word-InWord e p =
      let digits : (n : ℕ) → Only in_word (decimal n) =
        λ n. Only-weaken is_digit in_word (decimal n) digit-InWord (decimal-Only n) in
      Only-append in_word (decimal e.start_node) (edge_end e []) (digits e.start_node) (
        refl,
        Only-append in_word (decimal e.end_node) (b',' ∷ (e.number ++ [])) (digits e.end_node) (
          refl,
          Only-append in_word e.number []
              (Only-weaken is_figure in_word e.number figure-InWord p.number.figures) tt,
        ),
      )

  edge_word-append :
      (e : Edge D) (t : List ℕ) → edge_word e ++ t ≡ decimal e.start_node ++ edge_end e t
  edge_word-append e t = simp (append_assoc)

  edge_word-cons :
      (e : Edge D) → (c : ℕ) × (w : List ℕ) × (edge_word e ≡ c ∷ w) × (is_blank c ≡ false)
  edge_word-cons e =
      let (c, s, h) = decimal-cons e.start_node in
      let digit = (subst (Only is_digit) h (decimal-Only e.start_node)).0 in
      (c, s ++ edge_end e [], ap (λ x. x ++ edge_end e []) h, ground arith)

  set_edges_loop-edge :
      (f : ℕ) (m : Markov D) (vars : EdgeVars D) (e : Edge D) (es : List (Edge D))
      → IsPrinted e
      → set_edges_loop (suc f) m vars (edges_text (e ∷ es)) ≡ (
          set_edge m (pos e.start_node) (pos e.end_node) e.weight >>= λ m'.
          set_edges_loop f m' (edge_vars e) (edges_behind es))
  set_edges_loop-edge f m vars e es p =
      let (c, w, cons, no_blank) = edge_word-cons e in
      let t = edges_behind es in
      let whole : decimal e.start_node ++ edge_end e t ≡ (c ∷ w) ++ t =
        sym (edge_word-append e t) ∙ ap (λ x. x ++ t) cons in
      ap (set_edges_loop (suc f) m vars) whole
      ∙ set_edges_loop-word f m vars (edge_vars e) c w t no_blank
          (subst (Only in_word) cons (edge_word-InWord e p)) (edges_behind-Meets es)
          (ap (scan_edge vars) (sym whole) ∙ scan_edge-printed vars e t p (edges_behind-ends es))

  set_edges_loop-behind :
      (f : ℕ) (m : Markov D) (vars : EdgeVars D) (es : List (Edge D))
      → set_edges_loop f m vars (edges_behind es) ≡ set_edges_loop f m vars (edges_text es)
  unfolding set_edges_loop drop_while
  set_edges_loop-behind f m vars [] = refl
  set_edges_loop-behind zero m vars (e ∷ es) = refl
  set_edges_loop-behind (suc f) m vars (e ∷ es) = refl

  set_edges_loop-printed :
      (es : List (Edge D)) (f : ℕ) (m : Markov D) (vars : EdgeVars D)
      → length es < f
      → All IsPrinted es
      → set_edges_loop f m vars (edges_text es) ≡ set_all m es
  unfolding set_edges_loop edges_round drop_while set_all
  set_edges_loop-printed es zero m vars h p = absurd (omega arith)
  set_edges_loop-printed [] (suc f) m vars h p = refl
  set_edges_loop-printed (e ∷ es) (suc f) m vars h p =
      set_edges_loop-edge f m vars e es p.0
      ∙ ap (◌>>=◌ (set_edge m (pos e.start_node) (pos e.end_node) e.weight)) (λ j m'.
        (set_edges_loop-behind f m' (edge_vars e) es
            ∙ set_edges_loop-printed es f m' (edge_vars e) (omega arith) p.1)
          j)

  length-edge : (e : Edge D) (t : List ℕ) → length t < length (decimal e.start_node ++ edge_end e t)
  length-edge e t = omega (
    arith,
    length-append (decimal e.start_node) (edge_end e t),
    length-append (decimal e.end_node) (b',' ∷ (e.number ++ t)),
    length-append e.number t,
  )

  length-edges_behind : (es : List (Edge D)) → length es ≤ length (edges_behind es)
  length-edges_behind [] = omega arith
  length-edges_behind (e ∷ es) =
      omega (arith, length-edge e (edges_behind es), length-edges_behind es)

  length-edges_text : (es : List (Edge D)) → length es ≤ length (edges_text es)
  length-edges_text [] = omega arith
  length-edges_text (e ∷ es) =
      omega (arith, length-edge e (edges_behind es), length-edges_behind es)

  -- On the text of some edges whose nodes are below 10^20, with a blank between two of them, whatever the variables hold at first, the parser
  -- comes to its end and does what setting the edges one after the other does.
  pub set_edges-printed :
      (m : Markov D) (vars : EdgeVars D) (es : List (Edge D))
      → All IsPrinted es
      → set_edges m vars (edges_text es) ≡ set_all m es
  unfolding set_edges
  set_edges-printed m vars es p =
      set_edges_loop-printed es (length (edges_text es) + 1) m vars
        (omega (arith, length-edges_text es)) p
