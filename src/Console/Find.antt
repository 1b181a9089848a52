-- ===== src/Console/Find.antt =====
-- The table of commands of includes/wf_management.c, and `findCommandIndex`.
use vdeplug_wirefilter.Base.{
  ℕ, ◌≡◌, refl, Bool, true, false, ◌==◌, if◌then◌else◌, Option, none, some, List, [], ◌∷◌, ◌++◌,
}
use vdeplug_wirefilter.Text.{codes}

-- The commands, by the functions that serve them.
pub data Command : Type 0 where
  help load show_info set_loss set_bursty_loss set_delay set_duplicates set_bandwidth set_speed
        set_noise set_mtu set_chanbufsize set_fifo shutdown logout set_node_number set_current_node
        set_node_name set_time set_edges_command show_edges show_current set_debug_level :
      Command

abbrev pub command_tag : Command → List ℕ
command_tag help = codes "help"
command_tag load = codes "load"
command_tag show_info = codes "showinfo"
command_tag set_loss = codes "loss"
command_tag set_bursty_loss = codes "lostburst"
command_tag set_delay = codes "delay"
command_tag set_duplicates = codes "dup"
command_tag set_bandwidth = codes "bandwidth"
command_tag set_speed = codes "speed"
command_tag set_noise = codes "noise"
command_tag set_mtu = codes "mtu"
command_tag set_chanbufsize = codes "chanbufsize"
command_tag set_fifo = codes "fifo"
command_tag shutdown = codes "shutdown"
command_tag logout = codes "logout"
command_tag set_node_number = codes "markov-numnodes"
command_tag set_current_node = codes "markov-setnode"
command_tag set_node_name = codes "markov-name"
command_tag set_time = codes "markov-time"
command_tag set_edges_command = codes "setedge"
command_tag show_edges = codes "showedges"
command_tag show_current = codes "showcurrent"
command_tag set_debug_level = codes "markov-debug"

-- WITHFILE
abbrev pub with_file : Command → Bool
with_file help = true
with_file load = true
with_file show_info = true
with_file set_loss = false
with_file set_bursty_loss = false
with_file set_delay = false
with_file set_duplicates = false
with_file set_bandwidth = false
with_file set_speed = false
with_file set_noise = false
with_file set_mtu = false
with_file set_chanbufsize = false
with_file set_fifo = false
with_file shutdown = false
with_file logout = false
with_file set_node_number = false
with_file set_current_node = false
with_file set_node_name = false
with_file set_time = false
with_file set_edges_command = false
with_file show_edges = true
with_file show_current = true
with_file set_debug_level = false

abbrev pub command_list : List Command
command_list =
    help ∷ load ∷ show_info ∷ set_loss ∷ set_bursty_loss ∷ set_delay ∷ set_duplicates
    ∷ set_bandwidth ∷ set_speed ∷ set_noise ∷ set_mtu ∷ set_chanbufsize ∷ set_fifo ∷ shutdown
    ∷ logout ∷ set_node_number ∷ set_current_node ∷ set_node_name ∷ set_time ∷ set_edges_command
    ∷ show_edges ∷ show_current ∷ set_debug_level ∷ []

-- The string behind a prefix, if it starts with that prefix.
unfoldable pub after_prefix : (prefix s : List ℕ) → Option (List ℕ)
after_prefix [] s = some s
after_prefix (p ∷ prefix) [] = none
after_prefix (p ∷ prefix) (c ∷ s) =
    let rest = after_prefix prefix s in if p == c then rest else none

abbrev pub chosen :
    Command → Option (List ℕ) → Option (Command × List ℕ) → Option (Command × List ℕ)
chosen command none others = others
chosen command (some rest) others = some (command, rest)

-- The first command of the list whose tag the string starts with, and the string behind the tag.
unfoldable pub find_command : List Command → List ℕ → Option (Command × List ℕ)
unfolding after_prefix
find_command [] s = none
find_command (command ∷ others) s =
    chosen command (after_prefix (command_tag command) s) (find_command others s)

-- No tag is a prefix of another: each command is found by its own tag, whatever comes behind it.
pub find_command-tag :
    (command : Command) (s : List ℕ)
    → find_command command_list (command_tag command ++ s) ≡ some (command, s)
unfolding find_command after_prefix
find_command-tag help s = refl
find_command-tag load s = refl
find_command-tag show_info s = refl
find_command-tag set_loss s = refl
find_command-tag set_bursty_loss s = refl
find_command-tag set_delay s = refl
find_command-tag set_duplicates s = refl
find_command-tag set_bandwidth s = refl
find_command-tag set_speed s = refl
find_command-tag set_noise s = refl
find_command-tag set_mtu s = refl
find_command-tag set_chanbufsize s = refl
find_command-tag set_fifo s = refl
find_command-tag shutdown s = refl
find_command-tag logout s = refl
find_command-tag set_node_number s = refl
find_command-tag set_current_node s = refl
find_command-tag set_node_name s = refl
find_command-tag set_time s = refl
find_command-tag set_edges_command s = refl
find_command-tag show_edges s = refl
find_command-tag show_current s = refl
find_command-tag set_debug_level s = refl
