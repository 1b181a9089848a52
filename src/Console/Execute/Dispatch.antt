-- ===== src/Console/Execute/Dispatch.antt =====
-- The dispatch of `executeCommand` in includes/wf_management.c: each command is found by its tag.
use mathlib.Core.List.{reverse, append-nil, reverse-append, reverse-reverse}
use vdeplug_wirefilter.Base.{
  Bool, true, if◌then◌else◌, ℕ, ◌≡◌, refl, sym, ap, ◌∙◌, false, not, ◌==◌, Bool-cases, inl, inr,
  Only, some, List, [], ◌∷◌, ◌++◌,
}
use vdeplug_wirefilter.Base.Int.{ℤ, pos}
use vdeplug_wirefilter.Conn.Monad.{M, pure, ◌>>=◌, ◌>>◌}
use vdeplug_wirefilter.Console.Execute.{
  Host, trim, is_gap, run_command, framed, run_found, execute_trimmed, execute_command,
}
use vdeplug_wirefilter.Console.Print.{show_code}
use vdeplug_wirefilter.Base.Int.{eq_ℤ}
use vdeplug_wirefilter.Console.Find.{
  with_file, Command, command_tag, command_list, find_command, find_command-tag, help, load,
  show_info, set_loss, set_bursty_loss, set_delay, set_duplicates, set_bandwidth, set_speed,
  set_noise, set_mtu, set_chanbufsize, set_fifo, shutdown, logout, set_node_number,
  set_current_node, set_node_name, set_time, set_edges_command, show_edges, show_current,
  set_debug_level,
}
use vdeplug_wirefilter.Console.Print.{print}
use vdeplug_wirefilter.Console.Setters.{enosys}
use vdeplug_wirefilter.Double.{Double, DoubleText}
use vdeplug_wirefilter.Markov.Parse.{trim_end}
use vdeplug_wirefilter.Markov.Parse.Argument.{trim_end-ink}
use vdeplug_wirefilter.Text.{codes, is_blank, drop_while}
use vdeplug_wirefilter.Text.Scan.{drop_while-past}

-- A string less the blanks at its end.
unfoldable pub without_end : List ℕ → List ℕ
unfolding drop_while
without_end s = reverse (drop_while is_blank (reverse s))

trim_end-past :
    (xs : List ℕ) (c : ℕ) (ys : List ℕ)
    → is_blank c ≡ false
    → trim_end (xs ++ (c ∷ ys)) ≡ drop_while is_blank xs ++ (c ∷ ys)
unfolding trim_end drop_while
trim_end-past [] c ys h = trim_end-ink c ys h
trim_end-past (x ∷ []) c ys h = elim (Bool-cases (is_blank x)) [
  | inl e ↦ rw e (trim_end-ink c ys h)
  | inr e ↦ rw e refl
]
trim_end-past (x ∷ y ∷ xs) c ys h = elim (Bool-cases (is_blank x)) [
  | inl e ↦ rw e (trim_end-past (y ∷ xs) c ys h)
  | inr e ↦ rw e refl
]

-- A word at the start of a string, without blanks at its ends.
pub record IsWord (word : List ℕ) : Type 0 where
  pub first : ℕ
  pub others : List ℕ
  pub cons : word ≡ first ∷ others
  pub ink : is_blank first ≡ false
  pub last : ℕ
  pub front : List ℕ
  pub reversed : reverse word ≡ last ∷ front
  pub last_ink : is_blank last ≡ false

trim-word :
    (blanks word s : List ℕ)
    → Only is_blank blanks
    → IsWord word
    → trim (blanks ++ (word ++ s)) ≡ word ++ without_end s
unfolding trim without_end
trim-word blanks word s b w =
    ap (λ t. reverse (trim_end (reverse t)))
      (ap (λ x. drop_while is_blank (blanks ++ (x ++ s))) w.cons
        ∙ drop_while-past is_blank blanks ((w.first ∷ w.others) ++ s) b (ap not w.ink)
        ∙ ap (λ x. x ++ s) (sym w.cons))
    ∙ ap (λ t. reverse (trim_end t)) (reverse-append word s ∙ ap (λ x. reverse s ++ x) w.reversed)
    ∙ ap reverse (
        trim_end-past (reverse s) w.last w.front w.last_ink
        ∙ ap (λ x. drop_while is_blank (reverse s) ++ x) (sym w.reversed))
    ∙ reverse-append (drop_while is_blank (reverse s)) (reverse word)
    ∙ ap (λ x. x ++ reverse (drop_while is_blank (reverse s))) (reverse-reverse word)

trim-blanks : (blanks : List ℕ) → Only is_blank blanks → trim blanks ≡ []
unfolding trim trim_end
trim-blanks blanks b =
    ap (λ t. reverse (trim_end (reverse t)))
      (ap (drop_while is_blank) (sym (append-nil blanks)) ∙ drop_while-past is_blank blanks [] b tt)

tag-IsWord :
    (word : List ℕ) (first : ℕ) (others : List ℕ) (last : ℕ) (front : List ℕ)
    → word ≡ first ∷ others
    → is_blank first ≡ false
    → reverse word ≡ last ∷ front
    → is_blank last ≡ false
    → IsWord word
tag-IsWord word first others last front e h e' h' = record {
  first = first;
  others = others;
  cons = e;
  ink = h;
  last = last;
  front = front;
  reversed = e';
  last_ink = h';
}

command_tag-IsWord : (command : Command) → IsWord (command_tag command)
command_tag-IsWord help = tag-IsWord (command_tag help) _ _ _ _ refl refl refl refl
command_tag-IsWord load = tag-IsWord (command_tag load) _ _ _ _ refl refl refl refl
command_tag-IsWord show_info = tag-IsWord (command_tag show_info) _ _ _ _ refl refl refl refl
command_tag-IsWord set_loss = tag-IsWord (command_tag set_loss) _ _ _ _ refl refl refl refl
command_tag-IsWord set_bursty_loss =
    tag-IsWord (command_tag set_bursty_loss) _ _ _ _ refl refl refl refl
command_tag-IsWord set_delay = tag-IsWord (command_tag set_delay) _ _ _ _ refl refl refl refl
command_tag-IsWord set_duplicates =
    tag-IsWord (command_tag set_duplicates) _ _ _ _ refl refl refl refl
command_tag-IsWord set_bandwidth =
    tag-IsWord (command_tag set_bandwidth) _ _ _ _ refl refl refl refl
command_tag-IsWord set_speed = tag-IsWord (command_tag set_speed) _ _ _ _ refl refl refl refl
command_tag-IsWord set_noise = tag-IsWord (command_tag set_noise) _ _ _ _ refl refl refl refl
command_tag-IsWord set_mtu = tag-IsWord (command_tag set_mtu) _ _ _ _ refl refl refl refl
command_tag-IsWord set_chanbufsize =
    tag-IsWord (command_tag set_chanbufsize) _ _ _ _ refl refl refl refl
command_tag-IsWord set_fifo = tag-IsWord (command_tag set_fifo) _ _ _ _ refl refl refl refl
command_tag-IsWord shutdown = tag-IsWord (command_tag shutdown) _ _ _ _ refl refl refl refl
command_tag-IsWord logout = tag-IsWord (command_tag logout) _ _ _ _ refl refl refl refl
command_tag-IsWord set_node_number =
    tag-IsWord (command_tag set_node_number) _ _ _ _ refl refl refl refl
command_tag-IsWord set_current_node =
    tag-IsWord (command_tag set_current_node) _ _ _ _ refl refl refl refl
command_tag-IsWord set_node_name =
    tag-IsWord (command_tag set_node_name) _ _ _ _ refl refl refl refl
command_tag-IsWord set_time = tag-IsWord (command_tag set_time) _ _ _ _ refl refl refl refl
command_tag-IsWord set_edges_command =
    tag-IsWord (command_tag set_edges_command) _ _ _ _ refl refl refl refl
command_tag-IsWord show_edges = tag-IsWord (command_tag show_edges) _ _ _ _ refl refl refl refl
command_tag-IsWord show_current = tag-IsWord (command_tag show_current) _ _ _ _ refl refl refl refl
command_tag-IsWord set_debug_level =
    tag-IsWord (command_tag set_debug_level) _ _ _ _ refl refl refl refl

no_comment :
    (command : Command) (s : List ℕ)
    → (c : ℕ) × (t : List ℕ) × (command_tag command ++ s ≡ c ∷ t) × ((c == b'#') ≡ false)
no_comment help s = (_, _, refl, refl)
no_comment load s = (_, _, refl, refl)
no_comment show_info s = (_, _, refl, refl)
no_comment set_loss s = (_, _, refl, refl)
no_comment set_bursty_loss s = (_, _, refl, refl)
no_comment set_delay s = (_, _, refl, refl)
no_comment set_duplicates s = (_, _, refl, refl)
no_comment set_bandwidth s = (_, _, refl, refl)
no_comment set_speed s = (_, _, refl, refl)
no_comment set_noise s = (_, _, refl, refl)
no_comment set_mtu s = (_, _, refl, refl)
no_comment set_chanbufsize s = (_, _, refl, refl)
no_comment set_fifo s = (_, _, refl, refl)
no_comment shutdown s = (_, _, refl, refl)
no_comment logout s = (_, _, refl, refl)
no_comment set_node_number s = (_, _, refl, refl)
no_comment set_current_node s = (_, _, refl, refl)
no_comment set_node_name s = (_, _, refl, refl)
no_comment set_time s = (_, _, refl, refl)
no_comment set_edges_command s = (_, _, refl, refl)
no_comment show_edges s = (_, _, refl, refl)
no_comment show_current s = (_, _, refl, refl)
no_comment set_debug_level s = (_, _, refl, refl)

-- The commands that answer with data.
abbrev pub tells : Command → Bool
tells command = elim command [
  | help ↦ true
  | load ↦ true
  | show_info ↦ true
  | show_edges ↦ true
  | show_current ↦ true
  | other ↦ false
]

with_file-tells : (command : Command) → with_file command ≡ tells command
with_file-tells help = refl
with_file-tells load = refl
with_file-tells show_info = refl
with_file-tells set_loss = refl
with_file-tells set_bursty_loss = refl
with_file-tells set_delay = refl
with_file-tells set_duplicates = refl
with_file-tells set_bandwidth = refl
with_file-tells set_speed = refl
with_file-tells set_noise = refl
with_file-tells set_mtu = refl
with_file-tells set_chanbufsize = refl
with_file-tells set_fifo = refl
with_file-tells shutdown = refl
with_file-tells logout = refl
with_file-tells set_node_number = refl
with_file-tells set_current_node = refl
with_file-tells set_node_name = refl
with_file-tells set_time = refl
with_file-tells set_edges_command = refl
with_file-tells show_edges = refl
with_file-tells show_current = refl
with_file-tells set_debug_level = refl

module _ {D : Type 0} ⦃double : Double D⦄ ⦃text : DoubleText D⦄ where
  -- The function of a command on its argument: one that tells data does so between two lines.
  abbrev pub answered : Host D → (ℤ → List ℕ → M D ℤ) → ℤ → Command → List ℕ → M D ℤ
  answered host load_file fd command arg =
      if tells command
      then (do
        print fd (codes "0000 DATA END WITH '.'")
        ret ← run_command host load_file fd command arg
        print fd (codes ".")
        pure ret)
      else run_command host load_file fd command arg

  framed-answered :
      (host : Host D) (load_file : ℤ → List ℕ → M D ℤ) (fd : ℤ) (command : Command) (arg : List ℕ)
      → framed host load_file fd command arg ≡ answered host load_file fd command arg
  unfolding framed
  framed-answered host load_file fd command arg =
      ap
        (λ b.
          if b
          then (do
            print fd (codes "0000 DATA END WITH '.'")
            ret ← run_command host load_file fd command arg
            print fd (codes ".")
            pure ret)
          else run_command host load_file fd command arg)
        (with_file-tells command)

  -- What a command does on the string behind its tag, with the line that says how it went: success for 0,
  -- else the error number and its text.
  unfoldable pub served : Host D → (ℤ → List ℕ → M D ℤ) → ℤ → Command → List ℕ → M D ℤ
  served host load_file fd command s = do
    ret ← answered host load_file fd command (drop_while is_gap (without_end s))
    print fd (
        if eq_ℤ ret (pos 0)
        then codes "1000 Success"
        else b'1' ∷ (show_code ret ++ (b' ' ∷ host.strerror ret)))
    pure ret

  execute_trimmed-cons :
      (host : Host D) (load_file : ℤ → List ℕ → M D ℤ) (fd : ℤ) (cmd : List ℕ) (c : ℕ) (t : List ℕ)
      (command : Command) (rest : List ℕ)
      → cmd ≡ c ∷ t
      → (c == b'#') ≡ false
      → find_command command_list cmd ≡ some (command, without_end rest)
      → execute_trimmed host load_file fd cmd ≡ served host load_file fd command rest
  unfolding execute_trimmed run_found served
  execute_trimmed-cons host load_file fd cmd c t command rest e h found =
      ap (execute_trimmed host load_file fd) e
      ∙ rw
          (
            h,
            sym (ap (find_command command_list) e) ∙ found,
            framed-answered host load_file fd command (drop_while is_gap (without_end rest)),
          )
          refl

  -- For any string behind the tag of a command, and blanks before it: the function of that command is called
  -- with the string less the blanks at its ends. Five commands, which tell data, do so between the two lines that
  -- frame it. Then the line on the result is sent: success for 0, else the error number and its text.
  pub execute_command-served :
      (host : Host D) (load_file : ℤ → List ℕ → M D ℤ) (fd : ℤ) (command : Command)
      (blanks s : List ℕ)
      → Only is_blank blanks
      → execute_command host load_file fd (blanks ++ (command_tag command ++ s))
        ≡ served host load_file fd command s
  unfolding execute_command
  execute_command-served host load_file fd command blanks s b =
      let (c, t, e, h) = no_comment command (without_end s) in
      ap (execute_trimmed host load_file fd)
        (trim-word blanks (command_tag command) s b (command_tag-IsWord command))
      ∙ execute_trimmed-cons host load_file fd (command_tag command ++ without_end s) c t command s
          e h (find_command-tag command (without_end s))

  -- A comment does nothing, with blanks before it or without, and neither does a line of blanks.
  execute_command-idle :
      (host : Host D) (load_file : ℤ → List ℕ → M D ℤ) (fd : ℤ) (blanks s : List ℕ)
      → Only is_blank blanks
      → (execute_command host load_file fd (blanks ++ (b'#' ∷ s)) ≡ pure (pos enosys))
        × (execute_command host load_file fd blanks ≡ pure (pos enosys))
  unfolding execute_command execute_trimmed
  execute_command-idle host load_file fd blanks s b = (
    ap (execute_trimmed host load_file fd)
        (trim-word blanks (b'#' ∷ []) s b (tag-IsWord (b'#' ∷ []) _ _ _ _ refl refl refl refl)),
    ap (execute_trimmed host load_file fd) (trim-blanks blanks b),
  )
