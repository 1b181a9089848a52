-- ===== src/Console/CommandTests.antt =====
-- Each theorem on the commands at a line and a state where its hypotheses hold. Integers stand for doubles.
use vdeplug_wirefilter.Base.{
  ℕ, ◌+◌, ◌≡◌, refl, arith, false, write, some, List, [], ◌∷◌, ◌++◌, Returns,
}
use vdeplug_wirefilter.Base.Int.{ℤ, pos}
use vdeplug_wirefilter.Conn.{Management, Sys}
use vdeplug_wirefilter.Conn.Sample.{calm}
use vdeplug_wirefilter.Console.Debug.{IsFirst, debug_level_of_lem}
use vdeplug_wirefilter.Console.Execute.{Host, execute_command, load_config}
use vdeplug_wirefilter.Console.Execute.Dispatch.{served, execute_command-served}
use vdeplug_wirefilter.Console.Execute.Nested.{load_line}
use vdeplug_wirefilter.Console.Execute.Values.{ValueSet, sets_loss, execute_command-ValueSet}
use vdeplug_wirefilter.Console.Find.{
  command_tag, command_list, find_command, find_command-tag, set_loss, show_info,
}
use vdeplug_wirefilter.Console.Info as Info
use vdeplug_wirefilter.Console.Info.ReadOnly.{OnlyTold, show-OnlyTold}
use vdeplug_wirefilter.Console.Setters.{debug_level_of}
use vdeplug_wirefilter.Double.Exact.{ℤ_double}
use vdeplug_wirefilter.Double.Whole.{ℤ_text}
use vdeplug_wirefilter.Markov.{loss}
use vdeplug_wirefilter.Text.{codes}

abbrev path : List ℕ
path = codes "rc"

-- The file "rc" loads itself.
abbrev pub host : Host ℤ
host = record {
  strerror = λ _. codes "?";
  files = λ _. some (load_line path ∷ []);
  sun_path = [];
  edge_vars = record { start_node = pos 0; end_node = pos 0; weight = pos 0 };
}

find_command-tag_example :
    find_command command_list (command_tag show_info ++ codes " 1") ≡ some (show_info, codes " 1")
find_command-tag_example = find_command-tag show_info (codes " 1")

execute_command-served_example :
    execute_command host
      (load_config host 3)
      (pos 9)
      (codes "  " ++ (command_tag set_loss ++ codes " 5\n"))
    ≡ served host (load_config host 3) (pos 9) set_loss (codes " 5\n")
execute_command-served_example =
    execute_command-served host (load_config host 3) (pos 9) set_loss (codes "  ") (codes " 5\n")
      (refl, (refl, tt))

execute_command-ValueSet_example :
    Returns
      (λ (ret, s'). ValueSet loss 9 calm ret s')
      (execute_command host
        (load_config host 3)
        (pos 9)
        ([] ++ (command_tag set_loss ++ codes " 5["))
        calm)
execute_command-ValueSet_example =
    execute_command-ValueSet host (load_config host 3) 9 set_loss loss false [] (codes " 5[") calm
      sets_loss tt (record { allocated = refl; capacity = refl; within = refl })

-- A state with a blink socket.
abbrev marked : Sys ℤ
marked = record calm {
  conn = record calm.conn {
    blink = record { socket_fd = 7; message = b'i' ∷ b' ' ∷ []; id_len = 1 };
  };
}

show-OnlyTold_example :
    Returns (λ (ret, s'). OnlyTold 9 marked s') (Info.show_info [] (pos 9) (codes "1") marked)
    × Returns (λ (ret, s'). OnlyTold 9 marked s') (Info.show_edges (pos 9) (codes "1") marked)
    × Returns (λ (ret, s'). OnlyTold 9 marked s') (Info.show_current (pos 9) marked)
show-OnlyTold_example =
    show-OnlyTold [] (codes "1") 9 0 marked
      (record { allocated = refl; capacity = refl; within = refl }) refl refl

-- Two clients with the descriptors 10 and 11.
abbrev two_clients : Management
two_clients = record {
  mode = 448;
  connections_count = 2;
  connections = λ i. 10 + i;
  debug_level = λ _. 0;
}

debug_level_of_lem_example :
    debug_level_of (pos 11) (pos 5) two_clients
    ≡ (pos 0, record two_clients { debug_level = write two_clients.debug_level 1 5 })
unfolding IsFirst
debug_level_of_lem_example =
    debug_level_of_lem two_clients 11 (pos 5) (some 1) (omega arith, refl, λ j h. omega arith)
