-- ===== src/Console/Execute/Nested.antt =====
-- `loadConfig` in includes/wf_management.c on a file that loads itself.
use vdeplug_wirefilter.Base.{ℕ, List, ◌∷◌, ◌++◌}
use vdeplug_wirefilter.Console.Find.{command_tag, load}
use vdeplug_wirefilter.Double.{Double}

-- The line that loads a file.
abbrev pub load_line : List ℕ → List ℕ
load_line path = command_tag load ++ (b' ' ∷ path)
