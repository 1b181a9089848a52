-- ===== src/Markov/Select.antt =====
-- `markovStep`: the choice of the next node.
use native.Mathlib.Decide.{dec_lt}
use native.Mathlib.Nat.{mod-lt}
use native.Mathlib.Numerals.{add-one}
use vdeplug_wirefilter.Base.{
  ℕ, zero, suc, ◌+◌, ◌-◌, ◌%◌, ◌<◌, ◌≡◌, ◌⊎◌, inl, inr, refl, ap, subst, ◌∙◌, arith, true, false,
  Bool-cases, if◌then◌else◌,
}
use vdeplug_wirefilter.Double.{Double}
use vdeplug_wirefilter.Double.Exact.{IsExact, IsMonotone}
use vdeplug_wirefilter.Markov.{Markov, cell, select_node, next_node}
use vdeplug_wirefilter.Markov.Row.{spoke, row_sum}
use vdeplug_wirefilter.Markov.Sum.{sum_from, sum_from-suc, sum_from-rotate, add_zero, sub-add_self}

module _ {D : Type 0} ⦃double : Double D⦄ where
  open double use {of_ℕ, add, sub, mul, le}

  -- What is left of the drawn number after the edges to the j first nodes from `start` on.
  abbrev pub rest : ℕ → ℕ → (ℕ → D) → D → ℕ → D
  rest n start map drawn zero = drawn
  rest n start map drawn (suc j) = sub (rest n start map drawn j) (spoke n start map j)

  -- The k-th node from `start` on is the first one whose edge has a weight of at least what is left, or
  -- the last one if there is none.
  pub record IsChosen (n start : ℕ) (map : ℕ → D) (drawn : D) (k : ℕ) : Type 0 where
    pub inside : k < n
    pub passed : (j : ℕ) → j < k → le (rest n start map drawn j) (spoke n start map j) ≡ false
    pub stopped : (le (rest n start map drawn k) (spoke n start map k) ≡ true) ⊎ (k + 1 ≡ n)

  passed-suc :
      (n start : ℕ) (map : ℕ → D) (drawn : D) (j : ℕ)
      → ((i : ℕ) → i < j → le (rest n start map drawn i) (spoke n start map i) ≡ false)
      → le (rest n start map drawn j) (spoke n start map j) ≡ false
      → (i : ℕ) → i < suc j
      → le (rest n start map drawn i) (spoke n start map i) ≡ false
  passed-suc n start map drawn j passed pass i h = elim (dec_lt i j) [
    | yes l ↦ passed i l
    | no l ↦
        let same : j ≡ i = omega arith in
        subst (λ m. le (rest n start map drawn m) (spoke n start map m) ≡ false) same pass
  ]

  -- What the loop returns: one round first, then the rounds that are left.
  select_node-suc :
      (n start : ℕ) (map : ℕ → D) (p : D) (left j last : ℕ)
      → select_node n (suc left) j start map p last ≡ (
          if le p (spoke n start map j)
          then (start + j) % n
          else select_node n left (suc j) start map (sub p (spoke n start map j)) ((start + j) % n))
  unfolding select_node
  select_node-suc n start map p left j last = rw add-one

  select_node-zero :
      (n start : ℕ) (map : ℕ → D) (p : D) (j last : ℕ)
      → select_node n zero j start map p last ≡ last
  unfolding select_node
  select_node-zero n start map p j last = refl

  abbrev Chooses : (n start : ℕ) → (ℕ → D) → D → ℕ → Type 0
  Chooses n start map drawn result =
      (k : ℕ) × IsChosen n start map drawn k × (result ≡ (start + k) % n)

  select_node-Chooses :
      (n start : ℕ) (map : ℕ → D) (drawn : D) (left j last : ℕ)
      → j + suc left ≡ n
      → ((i : ℕ) → i < j → le (rest n start map drawn i) (spoke n start map i) ≡ false)
      → Chooses n start map drawn
          (select_node n (suc left) j start map (rest n start map drawn j) last)
  select_node-Chooses n start map drawn zero j last e passed =
      rw (select_node-suc n start map (rest n start map drawn j) zero j last)
        (elim (Bool-cases (le (rest n start map drawn j) (spoke n start map j))) [
          | inl stop ↦
              rw stop
                (j, record { inside = omega arith; passed = passed; stopped = inl stop }, refl)
          | inr pass ↦
              rw (pass, select_node-zero n start map)
                (
                  j,
                  record { inside = omega arith; passed = passed; stopped = inr (omega arith) },
                  refl,
                )
        ])
  select_node-Chooses n start map drawn (suc left) j last e passed =
      rw (select_node-suc n start map (rest n start map drawn j) (suc left) j last)
        (elim (Bool-cases (le (rest n start map drawn j) (spoke n start map j))) [
          | inl stop ↦
              rw stop
                (j, record { inside = omega arith; passed = passed; stopped = inl stop }, refl)
          | inr pass ↦ rw pass (
              select_node-Chooses n start map drawn left (suc j) ((start + j) % n) (omega arith)
                (passed-suc n start map drawn j passed pass))
        ])

  -- `markovStep` moves along the first edge, in the circle of nodes from the starting node on, whose
  -- weight is at least what the edges before it have left of the drawn number; if there is none, to the
  -- last node of the circle. So the new node is a node of the chain, if that has any.
  pub next_node_lem :
      (m : Markov D) (start : ℕ) (drawn : D)
      → 0 < m.nodes_count
      → (k : ℕ) × IsChosen m.nodes_count start m.adjacency (mul drawn (of_ℕ 100)) k
        × (next_node m start drawn ≡ (start + k) % m.nodes_count)
        × (next_node m start drawn < m.nodes_count)
  unfolding next_node
  next_node_lem m start drawn h =
      let more : m.nodes_count ≡ suc (m.nodes_count - 1) = omega arith in
      let (k, chosen, e) =
        select_node-Chooses m.nodes_count start m.adjacency (mul drawn (of_ℕ 100))
          (m.nodes_count - 1) 0 0 (omega arith) (λ i p. absurd (omega arith)) in
      let e' : next_node m start drawn ≡ (start + k) % m.nodes_count =
        ap (λ left. select_node m.nodes_count left 0 start m.adjacency (mul drawn (of_ℕ 100)) 0)
          more
        ∙ e in
      (k, chosen, e', rw e' (mod-lt (start + k) h))

  module _ (exact : IsExact D) (mono : IsMonotone D) (n start : ℕ) (map : ℕ → D) (drawn : D) where
    -- What is left of the drawn number is at most the sum of the weights ahead.
    rest-le :
        (j ahead : ℕ)
        → start < n
        → j + ahead ≡ n
        → row_sum n start map ≡ of_ℕ 100
        → le drawn (of_ℕ 100) ≡ true
        → le (rest n start map drawn j) (sum_from (spoke n start map) j ahead) ≡ true
    rest-le zero ahead h e full small =
        let all : ahead ≡ n = omega arith in
        rw (all, sum_from-rotate exact (λ j. map (cell n start j)) n start h, full) small
    rest-le (suc j) ahead h e full small =
        let before = rest-le j (suc ahead) h (omega arith) full small in
        let less = mono.sub_mono _ _ (spoke n start map j) before in
        let ahead_of : sub (sum_from (spoke n start map) j (suc ahead)) (spoke n start map j)
            ≡ sum_from (spoke n start map) (suc j) ahead =
          ap (λ y. sub y (spoke n start map j)) (sum_from-suc (spoke n start map) j ahead)
          ∙ sub-add_self exact (spoke n start map j) (sum_from (spoke n start map) (j + 1) ahead)
          ∙ ap (λ i. sum_from (spoke n start map) i ahead) (add-one j) in
        rw ahead_of at less

    -- The chosen edge is never one that the loop has fallen through to.
    IsChosen-reached :
        (k : ℕ)
        → start < n
        → row_sum n start map ≡ of_ℕ 100
        → le drawn (of_ℕ 100) ≡ true
        → IsChosen n start map drawn k
        → le (rest n start map drawn k) (spoke n start map k) ≡ true
    IsChosen-reached k h full small c = elim c.stopped [
      | inl stop ↦ stop
      | inr last ↦
          let one_left : sum_from (spoke n start map) k 1 ≡ spoke n start map k =
            unfold sum_from in add_zero exact (spoke n start map k) in
          rw one_left at (rest-le k 1 h last full small)
    ]

  -- If the weights from the starting node add up to 100, the number drawn is at most 100, and arithmetic is exact,
  -- `markovStep` moves along an edge whose weight is at least what the edges before it have left of the number, the
  -- first such edge in the circle of nodes from the starting node on: it never falls through to the last one.
  pub next_node-reached :
      (exact : IsExact D) (mono : IsMonotone D) (m : Markov D) (start : ℕ) (drawn : D)
      → start < m.nodes_count
      → row_sum m.nodes_count start m.adjacency ≡ of_ℕ 100
      → le (mul drawn (of_ℕ 100)) (of_ℕ 100) ≡ true
      → (k : ℕ) × (next_node m start drawn ≡ (start + k) % m.nodes_count)
        × IsChosen m.nodes_count start m.adjacency (mul drawn (of_ℕ 100)) k
        × (le
              (rest m.nodes_count start m.adjacency (mul drawn (of_ℕ 100)) k)
              (spoke m.nodes_count start m.adjacency k)
            ≡ true)
  next_node-reached exact mono m start drawn h full small =
      let (k, chosen, e, inside) = next_node_lem m start drawn (omega arith) in
      (
        k,
        e,
        chosen,
        IsChosen-reached exact mono m.nodes_count start m.adjacency (mul drawn (of_ℕ 100)) k h full
            small chosen,
      )
