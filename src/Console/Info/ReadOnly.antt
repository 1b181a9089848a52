-- ===== src/Console/Info/ReadOnly.antt =====
-- The commands of includes/wf_management.c that show the state leave it as it is.
use mathlib.Core.List.{append_assoc, append-nil}
use vdeplug_wirefilter.Base.{
  ℕ, zero, suc, ◌+◌, ◌<◌, ◌≡◌, refl, sym, ap, subst, ◌∙◌, arith, true, false, Bool-cases, inl, inr,
  ltb, if◌then◌else◌, Option, none, some, List, [], ◌∷◌, ◌++◌, ok, Returns, returns, Returns-bind,
  Returns-weaken,
}
use vdeplug_wirefilter.Base.Int.{ℤ, pos, negsuc, leb_ℤ}
use vdeplug_wirefilter.Conn.{Blink, Sys, Event, reply}
use vdeplug_wirefilter.Console.Info.{
  blink_restored, help, current_line, show_current, edge_line, show_edge, show_edges_loop,
  show_edges, show_info, node_within, node_or_current, show_edges_of, show_info_of, info_lines,
  state_lines,
}
use vdeplug_wirefilter.Console.Print.{line, print, print_all, help_lines}
use vdeplug_wirefilter.Double.{Double, DoubleText}
use vdeplug_wirefilter.Loop.Step.{noted}
use vdeplug_wirefilter.Markov.{Markov, get_node, cell}
use vdeplug_wirefilter.Markov.Resize.{IsChain}

-- The message of the blink socket has a blank behind the identifier.
abbrev pub IsMarked : Blink → Type 0
IsMarked b = blink_restored b ≡ b

-- The lines that the client is sent.
abbrev pub replies : ℕ → List (List ℕ) → List Event
replies fd [] = []
replies fd (text ∷ texts) = reply fd (line text) ∷ replies fd texts

replies-append :
    (fd : ℕ) (xs ys : List (List ℕ)) → replies fd (xs ++ ys) ≡ replies fd xs ++ replies fd ys
replies-append fd [] ys = refl
replies-append fd (x ∷ xs) ys = ap (◌∷◌ (reply fd (line x))) (replies-append fd xs ys)

some_inside : (k n i : ℕ) → (if ltb k n then some k else none) ≡ some i → i < n
some_inside k n i e = elim (Bool-cases (ltb k n)) [
  | inl h ↦
      let same : some k ≡ some i = subst (λ b. (if b then some k else none) ≡ some i) h e in
      ground (arith, same)
  | inr h ↦
      let same : none ≡ some i = subst (λ b. (if b then some k else none) ≡ some i) h e in
      ground (arith, same)
]

current_inside : (node : ℤ) (n k : ℕ) → node ≡ pos k → leb_ℤ (pos n) node ≡ false → k < n
current_inside node n k e h =
    let h' : leb_ℤ (pos n) (pos k) ≡ false = subst (λ x. leb_ℤ (pos n) x ≡ false) e h in
    ground (arith, h')

restored : (b : Blink) → IsMarked b → (if ltb 0 b.socket_fd then blink_restored b else b) ≡ b
restored b h = elim (Bool-cases (ltb 0 b.socket_fd)) [ inl e ↦ rw e h | inr e ↦ rw e refl ]

module _ {D : Type 0} where
  node_within-lt :
      (m : Markov D) (node : ℤ) (i : ℕ) → node_within m node ≡ some i → i < m.nodes_count
  node_within-lt m (negsuc k) i e = ground (arith, e)
  node_within-lt m (pos k) i e = some_inside k m.nodes_count i e

  -- All that has happened is that some lines were sent to the client.
  pub record OnlyTold (fd : ℕ) (s s' : Sys D) : Type 0 where
    pub texts : List (List ℕ)
    pub told : s' ≡ noted s (replies fd texts)

  OnlyTold-refl : (fd : ℕ) (s : Sys D) → OnlyTold fd s s
  OnlyTold-refl fd s = record {
    texts = [];
    told =
        ap (λ es. record s { world = record s.world { events = es } })
          (sym (append-nil s.world.events));
  }

  OnlyTold-trans :
      (fd : ℕ) (s s' s'' : Sys D) → OnlyTold fd s s' → OnlyTold fd s' s'' → OnlyTold fd s s''
  OnlyTold-trans fd s s' s'' p q = record {
    texts = p.texts ++ q.texts;
    told =
        q.told
        ∙ ap (λ (x : Sys D). noted x (replies fd q.texts)) p.told
        ∙ ap (λ es. record s { world = record s.world { events = es } })
            (append_assoc s.world.events (replies fd p.texts) (replies fd q.texts)
              ∙ ap (λ es. s.world.events ++ es) (sym (replies-append fd p.texts q.texts)));
  }

  print-OnlyTold :
      (fd : ℕ) (text : List ℕ) (s : Sys D)
      → Returns (λ (x, s'). OnlyTold fd s s') (print (pos fd) text s)
  unfolding print
  print-OnlyTold fd text s = returns (record { texts = text ∷ []; told = refl })

  print_all-OnlyTold :
      (fd : ℕ) (texts : List (List ℕ)) (s : Sys D)
      → Returns (λ (x, s'). OnlyTold fd s s') (print_all (pos fd) texts s)
  unfolding print_all
  print_all-OnlyTold fd [] s = returns (OnlyTold-refl fd s)
  print_all-OnlyTold fd (text ∷ texts) s = Returns-bind (print-OnlyTold fd text s) λ (x, s') p.
      Returns-weaken (print_all-OnlyTold fd texts s') λ (y, s'') q. OnlyTold-trans fd s s' s'' p q

  get_node-inside :
      (m : Markov D) (i : ℕ) → IsChain m → i < m.nodes_count → get_node m (pos i) ≡ ok (m.nodes i)
  get_node-inside m i v h =
      let inside : ltb i m.nodes_count ≡ true = ground arith in
      rw (v.allocated, v.capacity, inside) refl

  help-OnlyTold :
      (fd : ℕ) (s : Sys D)
      → Returns (λ (ret, s'). (ret ≡ pos 0) × OnlyTold fd s s') (help (pos fd) s)
  unfolding help
  help-OnlyTold fd s =
      Returns-bind (print_all-OnlyTold fd help_lines s) λ (x, s') p. returns (refl, p)

module _ {D : Type 0} ⦃double : Double D⦄ ⦃text : DoubleText D⦄ where
  open double use {of_ℕ, eq}

  show_edge-OnlyTold :
      (fd : ℕ) (m : Markov D) (i j : ℕ) (s : Sys D)
      → IsChain m
      → i < m.nodes_count
      → j < m.nodes_count
      → Returns (λ (x, s'). OnlyTold fd s s') (show_edge (pos fd) m i j s)
  unfolding show_edge
  show_edge-OnlyTold fd m i j s v h p =
      rw (get_node-inside m i v h, get_node-inside m j v p)
        (print-OnlyTold fd (edge_line m i j (m.nodes i) (m.nodes j)) s)

  show_edges_loop-OnlyTold :
      (left j : ℕ) (fd : ℕ) (m : Markov D) (i : ℕ) (s : Sys D)
      → IsChain m
      → i < m.nodes_count
      → left + j ≡ m.nodes_count
      → Returns (λ (x, s'). OnlyTold fd s s') (show_edges_loop (pos fd) m i left j s)
  unfolding show_edges_loop
  show_edges_loop-OnlyTold zero j fd m i s v h e = returns (OnlyTold-refl fd s)
  show_edges_loop-OnlyTold (suc left) j fd m i s v h e =
      let rest =
        λ (s' : Sys D). show_edges_loop-OnlyTold left (j + 1) fd m i s' v h (omega arith) in
      elim (Bool-cases (eq (m.adjacency (cell m.nodes_count i j)) (of_ℕ 0))) [
        | inl skip ↦ rw skip (rest s)
        | inr shown ↦ rw shown (
            Returns-bind (show_edge-OnlyTold fd m i j s v h (omega arith))
              λ (x, s') p. Returns-weaken (rest s') λ (y, s'') q. OnlyTold-trans fd s s' s'' p q)
      ]

  show_edges_of-OnlyTold :
      (fd : ℕ) (s : Sys D) (node : Option ℕ)
      → IsChain s.conn.markov
      → ((i : ℕ) → node ≡ some i → i < s.conn.markov.nodes_count)
      → Returns (λ (ret, s'). OnlyTold fd s s') (show_edges_of (pos fd) s.conn.markov node s)
  unfolding show_edges_loop show_edges_of
  show_edges_of-OnlyTold fd s none v h = returns (OnlyTold-refl fd s)
  show_edges_of-OnlyTold fd s (some i) v h =
      Returns-bind
        (show_edges_loop-OnlyTold s.conn.markov.nodes_count 0 fd s.conn.markov i s v (h i refl)
          (omega arith))
        (λ (x, s') p. returns p)

  info-OnlyTold :
      (sun_path : List ℕ) (fd : ℕ) (s : Sys D) (node : Option ℕ)
      → IsChain s.conn.markov
      → IsMarked s.conn.blink
      → ((i : ℕ) → node ≡ some i → i < s.conn.markov.nodes_count)
      → Returns (λ (ret, s'). OnlyTold fd s s') (show_info_of sun_path (pos fd) node s)
  unfolding show_info_of
  info-OnlyTold sun_path fd s none v b h = returns (OnlyTold-refl fd s)
  info-OnlyTold sun_path fd s (some i) v b h =
      let texts =
        info_lines s.conn.markov i (s.conn.markov.nodes i)
        ++ state_lines sun_path s.conn.queue s.conn.blink in
      rw (get_node-inside s.conn.markov i v (h i refl)) (
        Returns-bind (print_all-OnlyTold fd texts s) λ (x, s') p.
          let conn = record s.conn {
            blink =
                if ltb 0 s.conn.blink.socket_fd then blink_restored s.conn.blink else s.conn.blink;
          } in
          returns (record {
            texts = p.texts;
            told =
                ap (λ (y : Sys D). record y { conn = conn }) p.told
                ∙ ap
                    (λ bl. record (noted s (replies fd p.texts)) {
                      conn = record s.conn { blink = bl };
                    })
                    (restored s.conn.blink b);
          }))

  -- On a chain whose nodes are in memory and whose current node is one of them, with a blank behind the identifier
  -- in the message of the blink socket, `showinfo`, `showedges` and `showcurrent` return for any argument, and
  -- all they do is send lines to the client.
  pub show-OnlyTold :
      (sun_path arg : List ℕ) (fd : ℕ) (current : ℕ) (s : Sys D)
      → IsChain s.conn.markov
      → IsMarked s.conn.blink
      → s.conn.markov.current_node ≡ pos current
      → Returns (λ (ret, s'). OnlyTold fd s s') (show_info sun_path (pos fd) arg s)
        × Returns (λ (ret, s'). OnlyTold fd s s') (show_edges (pos fd) arg s)
        × Returns (λ (ret, s'). OnlyTold fd s s') (show_current (pos fd) s)
  unfolding show_info show_edges show_current
  show-OnlyTold sun_path arg fd current s v b e =
      let m = s.conn.markov in
      let node = node_within m (node_or_current m arg) in
      let inside = λ (i : ℕ). node_within-lt m (node_or_current m arg) i in
      let here : get_node m m.current_node ≡ ok (m.nodes current) =
        ap (get_node m) e
        ∙ get_node-inside m current v
            (current_inside m.current_node m.nodes_count current e v.within) in
      (
        info-OnlyTold sun_path fd s node v b inside,
        show_edges_of-OnlyTold fd s node v inside,
        rw here (returns (record { texts = current_line m (m.nodes current) ∷ []; told = refl })),
      )
