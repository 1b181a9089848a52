-- ===== src/Console/Keeps.antt =====
-- The functions of the commands of includes/wf_management.c, and the list of clients.
use vdeplug_wirefilter.Base.{
  ℕ, zero, suc, ◌+◌, ◌≡◌, refl, sym, ap, ◌∙◌, Bool, true, false, Bool-cases, inl, inr, ltb,
  if◌then◌else◌, ◌==◌, Option, none, some, List, [], ◌∷◌, ◌++◌, Run, ok, fault, exited, blocked,
  out_of_fuel, ◌>>=◌ as run_bind,
}
use vdeplug_wirefilter.Base.Int.{ℤ, pos, negsuc, eq_ℤ}
use vdeplug_wirefilter.Conn.{Management, Sys}
use vdeplug_wirefilter.Conn.Monad.{M, pure, lift}
use vdeplug_wirefilter.Console.Print.{print, print_all, help_lines}
use vdeplug_wirefilter.Console.Setters.{
  einval, set_value, set_current_node, set_node_name, set_edge_command, set_fifo, set_time,
  set_node_number, update_markov, debug_level_loop, debug_level_of, set_debug_level, shutdown,
}
use vdeplug_wirefilter.Console.Info.{
  help, show_current, current_line, show_edge, edge_line, show_edges_loop, show_edges,
  show_edges_of, show_info, show_info_of, info_lines, state_lines, node_within, node_or_current,
}
use vdeplug_wirefilter.Double.{Double, DoubleText}
use vdeplug_wirefilter.Markov.{Markov, markov_resize, get_node, current, cell}
use vdeplug_wirefilter.Markov.Edges.{EdgeVars, set_edges}
use vdeplug_wirefilter.Markov.Names.{set_names}
use vdeplug_wirefilter.Markov.Parse.{set_wire_value}
use vdeplug_wirefilter.Text.{atoi}

-- If the run ends with a value, the value satisfies P.
pub data Whenever {ℓ κ} {A : Type ℓ} (P : A → Type κ) : Run A → Type (ℓ ⊔ κ) where
  whenever : {a : A} → P a → Whenever P (ok a)
  no_fuel : Whenever P out_of_fuel
  failed : {x : vdeplug_wirefilter.Base.Fault} → Whenever P (fault x)
  ended : {status : ℕ} → Whenever P (exited status)
  waits : Whenever P blocked

pub Whenever-bind {ℓ ℓ' κ κ'} :
    {A : Type ℓ} {B : Type ℓ'} {P : A → Type κ} {Q : B → Type κ'} {first : Run A} {rest : A → Run B}
    → Whenever P first
    → ((a : A) → P a → Whenever Q (rest a))
    → Whenever Q (run_bind first rest)
Whenever-bind (whenever p) k = k _ p
Whenever-bind no_fuel k = no_fuel
Whenever-bind failed k = failed
Whenever-bind ended k = ended
Whenever-bind waits k = waits

pub Whenever-weaken {ℓ κ κ'} :
    {A : Type ℓ} {P : A → Type κ} {Q : A → Type κ'} {r : Run A}
    → Whenever P r
    → ((a : A) → P a → Q a)
    → Whenever Q r
Whenever-weaken (whenever p) k = whenever (k _ p)
Whenever-weaken no_fuel k = no_fuel
Whenever-weaken failed k = failed
Whenever-weaken ended k = ended
Whenever-weaken waits k = waits

Whenever-any {ℓ} : {A : Type ℓ} (r : Run A) → Whenever (λ _. Unit {0}) r
Whenever-any (ok a) = whenever tt
Whenever-any out_of_fuel = no_fuel
Whenever-any (fault x) = failed
Whenever-any (exited n) = ended
Whenever-any blocked = waits

-- The same clients, in the same order; their debug levels may differ.
pub record SameClients (m m' : Management) : Type 0 where
  pub connections_count : m'.connections_count ≡ m.connections_count
  pub connections : m'.connections ≡ m.connections

pub SameClients-refl : (m : Management) → SameClients m m
SameClients-refl m = record { connections_count = refl; connections = refl }

pub SameClients-trans :
    {m m' m'' : Management} → SameClients m m' → SameClients m' m'' → SameClients m m''
SameClients-trans p q = record {
  connections_count = q.connections_count ∙ p.connections_count;
  connections = q.connections ∙ p.connections;
}

debug_level_loop-SameClients :
    (left i fd level : ℕ) (m : Management) → SameClients m (debug_level_loop left i fd level m).1
unfolding debug_level_loop
debug_level_loop-SameClients zero i fd level m = SameClients-refl m
debug_level_loop-SameClients (suc left) i fd level m =
    elim (Bool-cases (eq_ℤ (pos (m.connections i)) (pos fd))) [
      | inl e ↦ rw e (record { connections_count = refl; connections = refl })
      | inr e ↦ rw e (debug_level_loop-SameClients left (i + 1) fd level m)
    ]

debug_level_of-SameClients :
    (fd level : ℤ) (m : Management) → SameClients m (debug_level_of fd level m).1
unfolding debug_level_of
debug_level_of-SameClients (negsuc n) level m = SameClients-refl m
debug_level_of-SameClients (pos fd) (negsuc n) m = SameClients-refl m
debug_level_of-SameClients (pos fd) (pos level) m =
    debug_level_loop-SameClients m.connections_count 0 fd level m

module _ {D : Type 0} where
  -- Whenever the call returns, the clients are the same.
  abbrev pub Keeps : {A : Type 0} → M D A → Type 0
  Keeps m =
      (s : Sys D) → Whenever (λ (a, s'). SameClients s.conn.management s'.conn.management) (m s)

  pub Keeps-bind :
      {A B : Type 0} {m : M D A} {f : A → M D B}
      → Keeps m
      → ((a : A) → Keeps (f a))
      → Keeps (λ s. run_bind (m s) (λ (a, s'). f a s'))
  Keeps-bind p q s =
      Whenever-bind (p s)
        λ (a, s') same. Whenever-weaken (q a s') λ (b, s'') same'. SameClients-trans same same'

  pub print-Keeps : (fd : ℤ) (text : List ℕ) → Keeps (print fd text)
  unfolding print
  print-Keeps (pos fd) text s = whenever (SameClients-refl s.conn.management)
  print-Keeps (negsuc n) text s = whenever (SameClients-refl s.conn.management)

  print_all-Keeps : (fd : ℤ) (texts : List (List ℕ)) → Keeps (print_all fd texts)
  unfolding print_all
  print_all-Keeps fd [] s = whenever (SameClients-refl s.conn.management)
  print_all-Keeps fd (text ∷ texts) s =
      Keeps-bind (print-Keeps fd text) (λ _. print_all-Keeps fd texts) s

  update_markov-Keeps : (f : Markov D → Run (Markov D)) → Keeps (update_markov f)
  unfolding update_markov
  update_markov-Keeps f s =
      Whenever-bind (Whenever-any (lift (f s.conn.markov) s))
        λ (markov, s') _. whenever (SameClients-refl s.conn.management)

  pub pure-Keeps : {A : Type 0} (a : A) → Keeps (pure a)
  pure-Keeps a s = whenever (SameClients-refl s.conn.management)

  lift-Keeps : {A : Type 0} (r : Run A) → Keeps (lift r)
  lift-Keeps r s =
      Whenever-bind (Whenever-any r) λ a _. whenever (SameClients-refl s.conn.management)

  pub Keeps-if :
      {A : Type 0} (b : Bool) {m n : M D A} → Keeps m → Keeps n → Keeps (if b then m else n)
  Keeps-if true p q = p
  Keeps-if false p q = q

  pub set_current_node-Keeps : (arg : List ℕ) → Keeps (set_current_node arg)
  unfolding set_current_node
  set_current_node-Keeps arg = update_markov-Keeps (λ m. ok (record m { current_node = atoi arg }))

  pub set_node_name-Keeps : (arg : List ℕ) → Keeps (set_node_name arg)
  unfolding set_node_name
  set_node_name-Keeps arg = update_markov-Keeps (λ m. set_names m arg)

  pub shutdown-Keeps : Keeps shutdown
  unfolding shutdown
  shutdown-Keeps s = ended

  pub help-Keeps : (fd : ℤ) → Keeps (help fd)
  unfolding help
  help-Keeps fd = Keeps-bind (print_all-Keeps fd help_lines) (λ _. pure-Keeps (pos 0))

  pub set_fifo-Keeps : (arg : List ℕ) → Keeps (set_fifo arg)
  unfolding set_fifo
  set_fifo-Keeps arg s = whenever (SameClients-refl s.conn.management)

  pub set_time-Keeps : (arg : List ℕ) → Keeps (set_time arg)
  unfolding set_time
  set_time-Keeps arg s = whenever (SameClients-refl s.conn.management)

  pub show_current-Keeps : (fd : ℤ) → Keeps (show_current fd)
  unfolding show_current
  show_current-Keeps fd s =
      Keeps-bind (lift-Keeps (current s.conn.markov))
        (λ node.
          Keeps-bind (print-Keeps fd (current_line s.conn.markov node)) (λ _. pure-Keeps (pos 0)))
        s

  pub set_debug_level-Keeps : (fd : ℤ) (arg : List ℕ) → Keeps (set_debug_level fd arg)
  unfolding set_debug_level
  set_debug_level-Keeps fd arg s =
      whenever (debug_level_of-SameClients fd (atoi arg) s.conn.management)

module _ {D : Type 0} ⦃double : Double D⦄ where
  pub set_node_number-Keeps : (arg : List ℕ) → Keeps {D = D} (set_node_number arg)
  unfolding set_node_number
  set_node_number-Keeps arg s =
      Whenever-bind (Whenever-any (markov_resize _ _ _ s.conn.markov (atoi arg)))
        λ (done, markov) _. whenever (SameClients-refl s.conn.management)

module _ {D : Type 0} ⦃double : Double D⦄ ⦃text : DoubleText D⦄ where
  open double use {of_ℕ, eq}

  show_edge-Keeps : (fd : ℤ) (m : Markov D) (i j : ℕ) → Keeps (show_edge fd m i j)
  unfolding show_edge
  show_edge-Keeps fd m i j = Keeps-bind (lift-Keeps (get_node m (pos i))) (λ x.
      Keeps-bind (lift-Keeps (get_node m (pos j))) (λ y. print-Keeps fd (edge_line m i j x y)))

  show_edges_loop-Keeps :
      (fd : ℤ) (m : Markov D) (i left j : ℕ) → Keeps (show_edges_loop fd m i left j)
  unfolding show_edges_loop show_edge
  show_edges_loop-Keeps fd m i zero j s = whenever (SameClients-refl s.conn.management)
  show_edges_loop-Keeps fd m i (suc left) j s =
      let rest = show_edges_loop-Keeps fd m i left (j + 1) in
      Keeps-if (eq (m.adjacency (cell m.nodes_count i j)) (of_ℕ 0)) rest
        (Keeps-bind (show_edge-Keeps fd m i j) (λ _. rest)) s

  show_edges_of-Keeps : (fd : ℤ) (m : Markov D) (node : Option ℕ) → Keeps (show_edges_of fd m node)
  unfolding show_edges_of
  show_edges_of-Keeps fd m none = pure-Keeps (pos einval)
  show_edges_of-Keeps fd m (some i) =
      Keeps-bind (show_edges_loop-Keeps fd m i m.nodes_count 0) (λ _. pure-Keeps (pos 0))

  show_info_of-Keeps :
      (sun_path : List ℕ) (fd : ℤ) (node : Option ℕ) → Keeps {D = D} (show_info_of sun_path fd node)
  unfolding show_info_of
  show_info_of-Keeps sun_path fd none s = pure-Keeps (pos einval) s
  show_info_of-Keeps sun_path fd (some i) s =
      Whenever-bind (Whenever-any (lift (get_node s.conn.markov (pos i)) s)) λ (node, s') _.
        Whenever-bind
          (Whenever-any (
            print_all fd
              (info_lines s.conn.markov i node ++ state_lines sun_path s.conn.queue s.conn.blink)
              s'))
          λ (x, s'') _. whenever (SameClients-refl s.conn.management)

  pub set_value-Keeps : (tag : ℕ) (b : Bool) (arg : List ℕ) → Keeps {D = D} (set_value tag b arg)
  unfolding set_value
  set_value-Keeps tag b arg = update_markov-Keeps (λ m. set_wire_value m tag (some arg) b)

  pub set_edge_command-Keeps :
      (vars : EdgeVars D) (arg : List ℕ) → Keeps {D = D} (set_edge_command vars arg)
  unfolding set_edge_command
  set_edge_command-Keeps vars arg = update_markov-Keeps (λ m. set_edges m vars arg)

  pub show_edges-Keeps : (fd : ℤ) (arg : List ℕ) → Keeps {D = D} (show_edges fd arg)
  unfolding show_edges
  show_edges-Keeps fd arg s =
      show_edges_of-Keeps fd s.conn.markov
        (node_within s.conn.markov (node_or_current s.conn.markov arg)) s

  pub show_info-Keeps :
      (sun_path : List ℕ) (fd : ℤ) (arg : List ℕ) → Keeps {D = D} (show_info sun_path fd arg)
  unfolding show_info
  show_info-Keeps sun_path fd arg s =
      show_info_of-Keeps sun_path fd (node_within s.conn.markov (node_or_current s.conn.markov arg))
        s
