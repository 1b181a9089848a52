-- ===== src/Console/Execute.antt =====
-- `executeCommand`, `handleManagementCommand` and `loadConfig` of includes/wf_management.c, and the block of
-- `packetHandlerThread` in libvdeplug_wirefilter.c that calls them.
pub mod Dispatch
pub mod Values
pub mod Nested
pub mod Clients
use mathlib.Core.List.{reverse}
use vdeplug_wirefilter.Base.{
  ℕ, zero, suc, ◌+◌, Bool, true, false, ◌&&◌, ◌||◌, ◌==◌, if◌then◌else◌, Option, none, some, List,
  [], ◌∷◌, ◌++◌, Run,
}
use vdeplug_wirefilter.Base.Int.{ℤ, pos, negsuc, eq_ℤ}
use vdeplug_wirefilter.Conn.{Conn, Sys, reply}
use vdeplug_wirefilter.Conn.Monad.{M, pure, lift, emit, ◌>>=◌, ◌>>◌}
use vdeplug_wirefilter.Console.{Slot}
use vdeplug_wirefilter.Console.Find.{
  Command, command_list, find_command, with_file, help, load, show_info, set_loss, set_bursty_loss,
  set_delay, set_duplicates, set_bandwidth, set_speed, set_noise, set_mtu, set_chanbufsize,
  set_fifo, shutdown, logout, set_node_number, set_current_node, set_node_name, set_time,
  set_edges_command, show_edges, show_current, set_debug_level,
}
use vdeplug_wirefilter.Console.Info as Info
use vdeplug_wirefilter.Console.Print.{print, show_code}
use vdeplug_wirefilter.Console.Setters.{enosys, set_value}
use vdeplug_wirefilter.Console.Setters as Setters
use vdeplug_wirefilter.Double.{Double, DoubleText}
use vdeplug_wirefilter.Markov.{
  loss, bursty_loss, delay, dup, bandwidth, speed, noise, mtu, chan_buf_size,
}
use vdeplug_wirefilter.Markov.Edges.{EdgeVars}
use vdeplug_wirefilter.Markov.Parse.{trim_end}
use vdeplug_wirefilter.Text.{codes, is_blank, drop_while}

-- What the commands read of their surroundings: the text of an error number, the pieces that `fgets` reads of
-- a file (none if it cannot be opened), the path of the blink socket, and what the variables of `markovSetEdges`
-- hold at first.
pub record Host (D : Type 0) : Type 0 where
  pub strerror : ℤ → List ℕ
  pub files : List ℕ → Option (List (List ℕ))
  pub sun_path : List ℕ
  pub edge_vars : EdgeVars D

abbrev pub prompt : List ℕ
prompt = codes "\nVDEwf$ "

-- The blanks at both ends go, but for one that is the only character left.
unfoldable pub trim : List ℕ → List ℕ
unfolding drop_while trim_end
trim cmd = reverse (trim_end (reverse (drop_while is_blank cmd)))

-- The blanks between a tag and its argument.
abbrev pub is_gap : ℕ → Bool
is_gap c = c == b' ' || c == b'\t'

module _ {D : Type 0} ⦃double : Double D⦄ ⦃text : DoubleText D⦄ where
  -- `load_file` is `loadConfig` and `fd` the descriptor of the client, or -1 for a configuration file.
  unfoldable pub run_command :
      Host D → (load_file : ℤ → List ℕ → M D ℤ) → ℤ → Command → List ℕ → M D ℤ
  run_command host load_file fd help arg = Info.help fd
  run_command host load_file fd load arg = load_file fd arg
  run_command host load_file fd show_info arg = Info.show_info host.sun_path fd arg
  run_command host load_file fd set_loss arg = set_value loss false arg
  run_command host load_file fd set_bursty_loss arg = set_value bursty_loss false arg
  run_command host load_file fd set_delay arg = set_value delay false arg
  run_command host load_file fd set_duplicates arg = set_value dup false arg
  run_command host load_file fd set_bandwidth arg = set_value bandwidth false arg
  run_command host load_file fd set_speed arg = set_value speed false arg
  run_command host load_file fd set_noise arg = set_value noise false arg
  run_command host load_file fd set_mtu arg = set_value mtu true arg
  run_command host load_file fd set_chanbufsize arg = set_value chan_buf_size true arg
  run_command host load_file fd set_fifo arg = Setters.set_fifo arg
  run_command host load_file fd shutdown arg = Setters.shutdown
  run_command host load_file fd logout arg = pure (negsuc 0)
  run_command host load_file fd set_node_number arg = Setters.set_node_number arg
  run_command host load_file fd set_current_node arg = Setters.set_current_node arg
  run_command host load_file fd set_node_name arg = Setters.set_node_name arg
  run_command host load_file fd set_time arg = Setters.set_time arg
  run_command host load_file fd set_edges_command arg = Setters.set_edge_command host.edge_vars arg
  run_command host load_file fd show_edges arg = Info.show_edges fd arg
  run_command host load_file fd show_current arg = Info.show_current fd
  run_command host load_file fd set_debug_level arg = Setters.set_debug_level fd arg

  -- A command, between the lines that frame its data.
  unfoldable pub framed : Host D → (ℤ → List ℕ → M D ℤ) → ℤ → Command → List ℕ → M D ℤ
  unfolding run_command print
  framed host load_file fd command arg =
      if with_file command
      then (do
        print fd (codes "0000 DATA END WITH '.'")
        ret ← run_command host load_file fd command arg
        print fd (codes ".")
        pure ret)
      else run_command host load_file fd command arg

  abbrev pub status_line : Host D → ℤ → List ℕ
  status_line host ret =
      if eq_ℤ ret (pos 0)
      then codes "1000 Success"
      else b'1' ∷ (show_code ret ++ (b' ' ∷ host.strerror ret))

  unfoldable pub run_found : Host D → (ℤ → List ℕ → M D ℤ) → ℤ → Option (Command × List ℕ) → M D ℤ
  unfolding framed drop_while
  run_found host load_file fd none = pure (pos enosys)
  run_found host load_file fd (some (command, rest)) =
      framed host load_file fd command (drop_while is_gap rest)

  -- A line without blanks at its ends.
  unfoldable pub execute_trimmed : Host D → (ℤ → List ℕ → M D ℤ) → ℤ → List ℕ → M D ℤ
  unfolding run_found find_command print
  execute_trimmed host load_file fd [] = pure (pos enosys)
  execute_trimmed host load_file fd (c ∷ cmd) = if c == b'#' then pure (pos enosys) else (do
    ret ← run_found host load_file fd (find_command command_list (c ∷ cmd))
    print fd (status_line host ret)
    pure ret)

  unfoldable pub execute_command : Host D → (ℤ → List ℕ → M D ℤ) → ℤ → List ℕ → M D ℤ
  unfolding execute_trimmed trim
  execute_command host load_file fd cmd = execute_trimmed host load_file fd (trim cmd)

  unfoldable pub load_lines : Host D → (ℤ → List ℕ → M D ℤ) → ℤ → List ℕ → List (List ℕ) → M D ℤ
  unfolding execute_command print
  load_lines host load_file fd path [] = pure (pos 0)
  load_lines host load_file fd path (buf ∷ bufs) = do
    print fd (prompt ++ codes " (" ++ path ++ codes ") " ++ buf)
    _ ← execute_command host load_file fd buf
    load_lines host load_file fd path bufs

  unfoldable load_opened :
      Host D → (ℤ → List ℕ → M D ℤ) → ℤ → List ℕ → Option (List (List ℕ)) → M D ℤ
  unfolding load_lines
  load_opened host load_file fd path none = pure (negsuc 0)
  load_opened host load_file fd path (some bufs) = load_lines host load_file fd path bufs

  -- A file may load another one: `depth` files may be open, and then `fopen` gives NULL.
  unfoldable pub load_config : Host D → (depth : ℕ) → ℤ → List ℕ → M D ℤ
  unfolding load_opened
  load_config host zero fd path = pure (negsuc 0)
  load_config host (suc depth) fd path =
      load_opened host (λ fd'. load_config host depth fd') fd path (host.files path)

  -- The prompt follows a result of 0 and above.
  unfoldable pub send_prompt : ℕ → (sent : Bool) → ℤ → M D ℤ
  send_prompt fd sent (negsuc n) = pure (negsuc n)
  send_prompt fd true (pos n) = emit (reply fd prompt) >> pure (pos n)
  send_prompt fd false (pos n) = pure (negsuc 0)

  -- A command that is read from a client, `none` when `read` gives none; a string ends at its first NUL.
  unfoldable pub handle_command :
      Host D → (depth : ℕ) → ℕ → Option (List ℕ) → (prompt_sent : Bool) → M D ℤ
  unfolding execute_command load_config send_prompt
  handle_command host depth fd none prompt_sent = pure (negsuc 0)
  handle_command host depth fd (some buf) prompt_sent = do
    ret ← execute_command host (load_config host depth) (pos fd) buf
    send_prompt fd prompt_sent ret

  -- A client's descriptor, if the slot is in use.
  unfoldable serve : Host D → (depth : ℕ) → ℤ → Option (List ℕ) × Bool → M D ℤ
  unfolding handle_command
  serve host depth (negsuc n) input = pure (negsuc 0)
  serve host depth (pos fd) (received, prompt_sent) =
      handle_command host depth fd received prompt_sent

  -- The block of `packetHandlerThread` for commands, with `left` clients to look at from the i-th on; `inputs` has
  -- what `read` and the write of the prompt answer for each of them. A result is not looked at.
  unfoldable pub on_commands :
      Host D
      → (depth : ℕ) → (ℕ → Option (List ℕ) × Bool)
      → (ℕ → Slot)
      → (left i : ℕ) → M D (Unit {0})
  unfolding serve
  on_commands host depth inputs slots zero i = pure tt
  on_commands host depth inputs slots (suc left) i = do
    _ ← (if (slots i).readable then serve host depth (slots i).fd (inputs i) else pure (pos 0))
    on_commands host depth inputs slots left (i + 1)
