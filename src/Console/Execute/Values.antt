-- ===== src/Console/Execute/Values.antt =====
-- The commands of includes/wf_management.c that set values of the wire, on any argument.
use vdeplug_wirefilter.Base.{
  ℕ, ◌≡◌, refl, sym, subst, Bool, true, false, Only, some, List, [], ◌∷◌, ◌++◌, Run, ok, Returns,
  returns, Returns-value,
}
use vdeplug_wirefilter.Base.Int.{ℤ, pos}
use vdeplug_wirefilter.Conn.{Sys, reply}
use vdeplug_wirefilter.Conn.Monad.{M}
use vdeplug_wirefilter.Console.Execute.{Host, run_command, execute_command, is_gap}
use vdeplug_wirefilter.Console.Execute.Dispatch.{
  answered, served, execute_command-served, without_end,
}
use vdeplug_wirefilter.Console.Find.{
  Command, command_tag, set_loss, set_bursty_loss, set_delay, set_duplicates, set_bandwidth,
  set_speed, set_noise, set_mtu, set_chanbufsize,
}
use vdeplug_wirefilter.Console.Print.{print, line}
use vdeplug_wirefilter.Console.Setters.{set_value, update_markov}
use vdeplug_wirefilter.Double.{Double, DoubleText}
use vdeplug_wirefilter.Markov.{
  Markov, loss, bursty_loss, delay, dup, bandwidth, speed, noise, mtu, chan_buf_size,
}
use vdeplug_wirefilter.Markov.Parse.{set_wire_value}
use vdeplug_wirefilter.Markov.Parse.Total.{OnlyTag, set_wire_value-OnlyTag}
use vdeplug_wirefilter.Markov.Resize.{IsChain}
use vdeplug_wirefilter.Text.{codes, is_blank, drop_while}

-- The command sets the values of the tag; `true` is for the values that both directions share.
pub data SetsValue : Command → ℕ → Bool → Type 0 where
  sets_loss : SetsValue set_loss loss false
  sets_bursty_loss : SetsValue set_bursty_loss bursty_loss false
  sets_delay : SetsValue set_delay delay false
  sets_duplicates : SetsValue set_duplicates dup false
  sets_bandwidth : SetsValue set_bandwidth bandwidth false
  sets_speed : SetsValue set_speed speed false
  sets_noise : SetsValue set_noise noise false
  sets_mtu : SetsValue set_mtu mtu true
  sets_chanbufsize : SetsValue set_chanbufsize chan_buf_size true

module _ {D : Type 0} ⦃double : Double D⦄ ⦃text : DoubleText D⦄ where
  -- What such a command leaves: values of the tag have changed at most, and the client has got one line.
  pub record ValueSet (tag fd : ℕ) (s : Sys D) (ret : ℤ) (s' : Sys D) : Type 0 where
    pub success : ret ≡ pos 0
    pub markov : OnlyTag tag s.conn.markov s'.conn.markov
    pub conn : s'.conn ≡ record s.conn { markov = s'.conn.markov }
    pub world :
        s'.world
        ≡ record s.world { events = s.world.events ++ reply fd (line (codes "1000 Success")) ∷ [] }

  answered-set_value :
      {command : Command} {tag : ℕ} {b : Bool} (host : Host D) (load_file : ℤ → List ℕ → M D ℤ)
      (fd : ℤ) (arg : List ℕ)
      → SetsValue command tag b
      → answered host load_file fd command arg ≡ set_value tag b arg
  unfolding run_command
  answered-set_value host load_file fd arg sets_loss = refl
  answered-set_value host load_file fd arg sets_bursty_loss = refl
  answered-set_value host load_file fd arg sets_delay = refl
  answered-set_value host load_file fd arg sets_duplicates = refl
  answered-set_value host load_file fd arg sets_bandwidth = refl
  answered-set_value host load_file fd arg sets_speed = refl
  answered-set_value host load_file fd arg sets_noise = refl
  answered-set_value host load_file fd arg sets_mtu = refl
  answered-set_value host load_file fd arg sets_chanbufsize = refl

  update_markov-ok :
      (f : Markov D → Run (Markov D)) (s : Sys D) (m : Markov D)
      → f s.conn.markov ≡ ok m
      → update_markov f s ≡ ok (pos 0, record s { conn = record s.conn { markov = m } })
  unfolding update_markov
  update_markov-ok f s m e = rw e refl

  served-ValueSet :
      (host : Host D) (load_file : ℤ → List ℕ → M D ℤ) (fd : ℕ) (command : Command) (tag : ℕ)
      (b : Bool) (rest : List ℕ) (s : Sys D)
      → SetsValue command tag b
      → IsChain s.conn.markov
      → Returns
          (λ (ret, s'). ValueSet tag fd s ret s')
          (served host load_file (pos fd) command rest s)
  unfolding served set_value print
  served-ValueSet host load_file fd command tag b rest s k v =
      let arg = drop_while is_gap (without_end rest) in
      let (m, e, only) = Returns-value (set_wire_value-OnlyTag s.conn.markov tag b (some arg) v) in
      rw
        (
          answered-set_value host load_file (pos fd) arg k,
          update_markov-ok (λ m'. set_wire_value m' tag (some arg) b) s m e,
        )
        (returns (record { success = refl; markov = only; conn = refl; world = refl }))

  -- Whatever stands behind the tag of such a command, for a chain whose nodes are in memory the command
  -- returns 0 without a fault, changes nothing of the connection but values of its tag, and sends the client
  -- one line, that of success.
  pub execute_command-ValueSet :
      (host : Host D) (load_file : ℤ → List ℕ → M D ℤ) (fd : ℕ) (command : Command) (tag : ℕ)
      (b : Bool) (blanks rest : List ℕ) (s : Sys D)
      → SetsValue command tag b
      → Only is_blank blanks
      → IsChain s.conn.markov
      → Returns
          (λ (ret, s'). ValueSet tag fd s ret s')
          (execute_command host load_file (pos fd) (blanks ++ (command_tag command ++ rest)) s)
  execute_command-ValueSet host load_file fd command tag b blanks rest s k only v =
      subst (λ (run : M D ℤ). Returns (λ (ret, s'). ValueSet tag fd s ret s') (run s))
        (sym (execute_command-served host load_file (pos fd) command blanks rest only))
        (served-ValueSet host load_file fd command tag b rest s k v)
