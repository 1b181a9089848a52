-- ===== src/Console/Execute/Clients.antt =====
-- `executeCommand`, `loadConfig` and `handleManagementCommand` of includes/wf_management.c, and the list of
-- clients.
use vdeplug_wirefilter.Base.{
  ℕ, zero, suc, ◌+◌, Bool, true, false, ◌==◌, Option, none, some, List, [], ◌∷◌, ◌++◌,
}
use vdeplug_wirefilter.Base.Int.{ℤ, pos, negsuc}
use vdeplug_wirefilter.Conn.{Sys}
use vdeplug_wirefilter.Conn.Monad.{M}
use vdeplug_wirefilter.Console.{Slot}
use vdeplug_wirefilter.Console.Execute.{
  Host, prompt, trim, is_gap, run_command, framed, status_line, run_found, execute_trimmed,
  execute_command, load_lines, load_opened, load_config, send_prompt, handle_command, serve,
  on_commands,
}
use vdeplug_wirefilter.Console.Find.{
  Command, command_list, find_command, with_file, help, load, show_info, set_loss, set_bursty_loss,
  set_delay, set_duplicates, set_bandwidth, set_speed, set_noise, set_mtu, set_chanbufsize,
  set_fifo, shutdown, logout, set_node_number, set_current_node, set_node_name, set_time,
  set_edges_command, show_edges, show_current, set_debug_level,
}
use vdeplug_wirefilter.Console.Keeps.{
  Whenever, whenever, SameClients, SameClients-refl, Keeps, Keeps-bind, Keeps-if, pure-Keeps,
  print-Keeps, help-Keeps, show_info-Keeps, show_edges-Keeps, show_current-Keeps, shutdown-Keeps,
  set_value-Keeps, set_fifo-Keeps, set_time-Keeps, set_node_number-Keeps, set_current_node-Keeps,
  set_node_name-Keeps, set_edge_command-Keeps, set_debug_level-Keeps,
}
use vdeplug_wirefilter.Console.Setters.{enosys}
use vdeplug_wirefilter.Double.{Double, DoubleText}
use vdeplug_wirefilter.Markov.{
  loss, bursty_loss, delay, dup, bandwidth, speed, noise, mtu, chan_buf_size,
}
use vdeplug_wirefilter.Text.{codes, drop_while}

module _ {D : Type 0} ⦃double : Double D⦄ ⦃text : DoubleText D⦄ where
  run_command-Keeps :
      (host : Host D) (load_file : ℤ → List ℕ → M D ℤ) (fd : ℤ) (command : Command) (arg : List ℕ)
      → ((fd' : ℤ) (path : List ℕ) → Keeps (load_file fd' path))
      → Keeps (run_command host load_file fd command arg)
  unfolding run_command
  run_command-Keeps host load_file fd help arg k = help-Keeps fd
  run_command-Keeps host load_file fd load arg k = k fd arg
  run_command-Keeps host load_file fd show_info arg k = show_info-Keeps host.sun_path fd arg
  run_command-Keeps host load_file fd set_loss arg k = set_value-Keeps loss false arg
  run_command-Keeps host load_file fd set_bursty_loss arg k = set_value-Keeps bursty_loss false arg
  run_command-Keeps host load_file fd set_delay arg k = set_value-Keeps delay false arg
  run_command-Keeps host load_file fd set_duplicates arg k = set_value-Keeps dup false arg
  run_command-Keeps host load_file fd set_bandwidth arg k = set_value-Keeps bandwidth false arg
  run_command-Keeps host load_file fd set_speed arg k = set_value-Keeps speed false arg
  run_command-Keeps host load_file fd set_noise arg k = set_value-Keeps noise false arg
  run_command-Keeps host load_file fd set_mtu arg k = set_value-Keeps mtu true arg
  run_command-Keeps host load_file fd set_chanbufsize arg k = set_value-Keeps chan_buf_size true arg
  run_command-Keeps host load_file fd set_fifo arg k = set_fifo-Keeps arg
  run_command-Keeps host load_file fd shutdown arg k = shutdown-Keeps
  run_command-Keeps host load_file fd logout arg k = pure-Keeps (negsuc 0)
  run_command-Keeps host load_file fd set_node_number arg k = set_node_number-Keeps arg
  run_command-Keeps host load_file fd set_current_node arg k = set_current_node-Keeps arg
  run_command-Keeps host load_file fd set_node_name arg k = set_node_name-Keeps arg
  run_command-Keeps host load_file fd set_time arg k = set_time-Keeps arg
  run_command-Keeps host load_file fd set_edges_command arg k =
      set_edge_command-Keeps host.edge_vars arg
  run_command-Keeps host load_file fd show_edges arg k = show_edges-Keeps fd arg
  run_command-Keeps host load_file fd show_current arg k = show_current-Keeps fd
  run_command-Keeps host load_file fd set_debug_level arg k = set_debug_level-Keeps fd arg

  framed-Keeps :
      (host : Host D) (load_file : ℤ → List ℕ → M D ℤ) (fd : ℤ) (command : Command) (arg : List ℕ)
      → ((fd' : ℤ) (path : List ℕ) → Keeps (load_file fd' path))
      → Keeps (framed host load_file fd command arg)
  unfolding framed
  framed-Keeps host load_file fd command arg k =
      let run = run_command-Keeps host load_file fd command arg k in
      Keeps-if (with_file command)
        (Keeps-bind (print-Keeps fd (codes "0000 DATA END WITH '.'")) (λ _.
          Keeps-bind run (λ ret. Keeps-bind (print-Keeps fd (codes ".")) (λ _. pure-Keeps ret))))
        run

  run_found-Keeps :
      (host : Host D) (load_file : ℤ → List ℕ → M D ℤ) (fd : ℤ) (found : Option (Command × List ℕ))
      → ((fd' : ℤ) (path : List ℕ) → Keeps (load_file fd' path))
      → Keeps (run_found host load_file fd found)
  unfolding run_found
  run_found-Keeps host load_file fd none k = pure-Keeps (pos enosys)
  run_found-Keeps host load_file fd (some (command, rest)) k =
      framed-Keeps host load_file fd command (drop_while is_gap rest) k

  execute_trimmed-Keeps :
      (host : Host D) (load_file : ℤ → List ℕ → M D ℤ) (fd : ℤ) (cmd : List ℕ)
      → ((fd' : ℤ) (path : List ℕ) → Keeps (load_file fd' path))
      → Keeps (execute_trimmed host load_file fd cmd)
  unfolding execute_trimmed
  execute_trimmed-Keeps host load_file fd [] k = pure-Keeps (pos enosys)
  execute_trimmed-Keeps host load_file fd (c ∷ cmd) k =
      Keeps-if (c == b'#') (pure-Keeps (pos enosys)) (
        Keeps-bind (run_found-Keeps host load_file fd (find_command command_list (c ∷ cmd)) k)
          (λ ret. Keeps-bind (print-Keeps fd (status_line host ret)) (λ _. pure-Keeps ret)))

  load_lines-Keeps :
      (host : Host D) (load_file : ℤ → List ℕ → M D ℤ) (fd : ℤ) (path : List ℕ)
      (bufs : List (List ℕ))
      → ((fd' : ℤ) (path' : List ℕ) → Keeps (load_file fd' path'))
      → Keeps (load_lines host load_file fd path bufs)
  unfolding load_lines execute_command
  load_lines-Keeps host load_file fd path [] k = pure-Keeps (pos 0)
  load_lines-Keeps host load_file fd path (buf ∷ bufs) k =
      Keeps-bind (print-Keeps fd (prompt ++ codes " (" ++ path ++ codes ") " ++ buf)) (λ _.
        Keeps-bind (execute_trimmed-Keeps host load_file fd (trim buf) k)
          (λ _. load_lines-Keeps host load_file fd path bufs k))

  load_opened-Keeps :
      (host : Host D) (load_file : ℤ → List ℕ → M D ℤ) (fd : ℤ) (path : List ℕ)
      (bufs : Option (List (List ℕ)))
      → ((fd' : ℤ) (path' : List ℕ) → Keeps (load_file fd' path'))
      → Keeps (load_opened host load_file fd path bufs)
  unfolding load_opened
  load_opened-Keeps host load_file fd path none k = pure-Keeps (negsuc 0)
  load_opened-Keeps host load_file fd path (some bufs) k =
      load_lines-Keeps host load_file fd path bufs k

  load_config-Keeps :
      (host : Host D) (depth : ℕ) (fd : ℤ) (path : List ℕ) → Keeps (load_config host depth fd path)
  unfolding load_config
  load_config-Keeps host zero fd path s = pure-Keeps (negsuc 0) s
  load_config-Keeps host (suc depth) fd path s =
      load_opened-Keeps host (λ fd'. load_config host depth fd') fd path (host.files path)
        (λ fd' path'. load_config-Keeps host depth fd' path') s

  send_prompt-Keeps : (fd : ℕ) (sent : Bool) (ret : ℤ) → Keeps {D = D} (send_prompt fd sent ret)
  unfolding send_prompt
  send_prompt-Keeps fd sent (negsuc n) s = pure-Keeps (negsuc n) s
  send_prompt-Keeps fd true (pos n) s = whenever (SameClients-refl s.conn.management)
  send_prompt-Keeps fd false (pos n) s = pure-Keeps (negsuc 0) s

  handle_command-Keeps :
      (host : Host D) (depth fd : ℕ) (received : Option (List ℕ)) (prompt_sent : Bool)
      → Keeps (handle_command host depth fd received prompt_sent)
  unfolding handle_command execute_command
  handle_command-Keeps host depth fd none prompt_sent = pure-Keeps (negsuc 0)
  handle_command-Keeps host depth fd (some buf) prompt_sent =
      Keeps-bind
        (execute_trimmed-Keeps host (load_config host depth) (pos fd) (trim buf)
          (load_config-Keeps host depth))
        (send_prompt-Keeps fd prompt_sent)

  serve-Keeps :
      (host : Host D) (depth : ℕ) (fd : ℤ) (input : Option (List ℕ) × Bool)
      → Keeps (serve host depth fd input)
  unfolding serve
  serve-Keeps host depth (negsuc n) input = pure-Keeps (negsuc 0)
  serve-Keeps host depth (pos fd) (received, prompt_sent) =
      handle_command-Keeps host depth fd received prompt_sent

  -- Whatever the clients send, when the block for commands returns, the same clients are connected, in the same
  -- order. A command may also end the program.
  pub on_commands-SameClients :
      (host : Host D) (depth : ℕ) (inputs : ℕ → Option (List ℕ) × Bool) (slots : ℕ → Slot) (n i : ℕ)
      (s : Sys D)
      → Whenever
          (λ (_, s'). SameClients s.conn.management s'.conn.management)
          (on_commands host depth inputs slots n i s)
  unfolding on_commands
  on_commands-SameClients host depth inputs slots zero i s = pure-Keeps tt s
  on_commands-SameClients host depth inputs slots (suc n) i s =
      Keeps-bind
        (Keeps-if (slots i).readable (serve-Keeps host depth (slots i).fd (inputs i))
          (pure-Keeps (pos 0)))
        (λ _ s'. on_commands-SameClients host depth inputs slots n (i + 1) s') s
