-- ===== src/Console/Print.antt =====
-- `print_mgmt` of includes/wf_management.c, and the directives of its formats.
use vdeplug_wirefilter.Base.{ℕ, zero, suc, ◌-◌, take, List, [], ◌∷◌, ◌++◌, Option, none, some}
use vdeplug_wirefilter.Base.Int.{ℤ, pos, negsuc}
use vdeplug_wirefilter.Conn.{reply}
use vdeplug_wirefilter.Conn.Monad.{M, pure, emit, ◌>>◌}
use vdeplug_wirefilter.Text.{codes}
use vdeplug_wirefilter.Wire.Forward.{decimal}

abbrev pub mngm_cmd_max_len : ℕ
mngm_cmd_max_len = 128

-- %d
abbrev pub show_int : ℤ → List ℕ
show_int (pos n) = decimal n
show_int (negsuc n) = b'-' ∷ decimal (suc n)

-- As many copies of a character as a text lacks to some width.
abbrev pub padding : (width : ℕ) → ℕ → List ℕ → List ℕ
padding zero c s = []
padding (suc width) c [] = c ∷ padding width c []
padding (suc width) c (d ∷ s) = padding width c s

-- %-2d
abbrev pub show_left : ℤ → List ℕ
show_left n = show_int n ++ padding 2 b' ' (show_int n)

-- %03d
abbrev pub show_code : ℤ → List ℕ
show_code (pos n) = padding 3 b'0' (decimal n) ++ decimal n
show_code (negsuc n) = b'-' ∷ (padding 2 b'0' (decimal (suc n)) ++ decimal (suc n))

-- A name, or "" for a name that is NULL.
abbrev pub name_text : Option (List ℕ) → List ℕ
name_text none = []
name_text (some name) = name

-- The line that is sent: the text is cut off at the size of the buffer, and a newline comes behind it.
abbrev pub line : List ℕ → List ℕ
line text = take (mngm_cmd_max_len - 1) text ++ (b'\n' ∷ [])

module _ {D : Type 0} where
  -- Writing to a descriptor of -1 does nothing.
  unfoldable pub print : ℤ → List ℕ → M D (Unit {0})
  print (negsuc n) text = pure tt
  print (pos fd) text = emit (reply fd (line text))

  unfoldable pub print_all : ℤ → List (List ℕ) → M D (Unit {0})
  unfolding print
  print_all fd [] = pure tt
  print_all fd (text ∷ texts) = do print fd text; print_all fd texts

abbrev pub help_lines : List (List ℕ)
help_lines =
    codes "COMMAND      HELP"
    ∷ codes "------------ ------------"
    ∷ codes "help         print a summary of mgmt commands"
    ∷ codes "load         load a configuration file"
    ∷ codes "showinfo     show status and parameter values"
    ∷ codes "loss         set loss percentage"
    ∷ codes "lostburst    mean length of lost packet bursts"
    ∷ codes "delay        set delay ms"
    ∷ codes "dup          set dup packet percentage"
    ∷ codes "bandwidth    set channel bandwidth bytes/sec"
    ∷ codes "speed        set interface speed bytes/sec"
    ∷ codes "noise        set noise factor bits/Mbyte"
    ∷ codes "mtu          set channel MTU (bytes)"
    ∷ codes "chanbufsize  set channel buffer size (bytes)"
    ∷ codes "fifo         set channel fifoness"
    ∷ codes "shutdown     shut the channel down"
    ∷ codes "logout       log out from this mgmt session"
    ∷ codes "markov-numnodes n  markov mode: set number of states"
    ∷ codes "markov-setnode n   markov mode: set current state"
    ∷ codes "markov-name n,name markov mode: set state's name"
    ∷ codes "markov-time ms     markov mode: transition period"
    ∷ codes "setedge n1,n2,w    markov mode: set edge weight"
    ∷ codes "showinfo n         markov mode: show parameter values"
    ∷ codes "showedges n        markov mode: show edge weights"
    ∷ codes "showcurrent        markov mode: show current state"
    ∷ codes "markov-debug n     markov mode: set debug level"
    ∷ []
