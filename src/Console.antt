-- ===== src/Console.antt =====
-- includes/wf_management.c and the blocks of `packetHandlerThread` in libvdeplug_wirefilter.c that serve
-- it: the clients of the management socket come and go.
pub mod Clients
pub mod HangUp
pub mod Accept
pub mod Init
pub mod Print
pub mod Find
pub mod Setters
pub mod Info
pub mod Execute
pub mod Debug
pub mod Keeps
pub mod Round
mod Tests
mod CommandTests
mod RoundTests
use vdeplug_wirefilter.Base.{
  ℕ, zero, suc, ◌+◌, ◌-◌, Bool, true, false, not, ◌&&◌, if◌then◌else◌, ltb, leb, ◌==◌, write,
  Option, none, some, Run, ok, fault, out_of_bounds, out_of_fuel, ◌>>=◌,
}
use vdeplug_wirefilter.Base.Int.{ℤ, pos, negsuc, eq_ℤ}
use vdeplug_wirefilter.Conn.{Management, mngm_max_conn}

-- One of the poll descriptors of the clients; an `fd` of -1 is not in use.
pub record Slot : Type 0 where
  pub fd : ℤ
  pub readable : Bool
  pub hang_up : Bool

-- The clients, and their poll descriptors: entry i stands for `poll_fd[POLL_MNGM + i]`.
pub record Console : Type 0 where
  pub management : Management
  pub slots : ℕ → Slot

-- What the calls of one `acceptManagementConnection` answer.
pub record Greeting : Type 0 where
  pub connection : Option ℕ
  pub header_sent : Bool
  pub prompt_sent : Bool

abbrev pub add_client : Management → ℕ → Management
add_client m fd = record m {
  connections = write m.connections m.connections_count fd;
  debug_level = write m.debug_level m.connections_count 0;
  connections_count = m.connections_count + 1;
}

-- A client that `accept` has given; `none` is the return of -1.
unfoldable pub greet : (header_sent prompt_sent : Bool) → ℕ → Management → Option ℕ × Management
greet header_sent prompt_sent fd m =
    if ltb m.connections_count mngm_max_conn
    then if header_sent && prompt_sent then (some fd, add_client m fd) else (none, m)
    else (none, m)

unfoldable pub accept_connection : Greeting → Management → Option ℕ × Management
unfolding greet
accept_connection g m = elim g.connection [
  | none ↦ (none, m)
  | some fd ↦ greet g.header_sent g.prompt_sent fd m
]

-- The rest of the block of POLL_MNGM.
unfoldable pub enroll : Console → Option ℕ × Management → Console
enroll c (none, m) = record c { management = m }
enroll c (some fd, m) =
    let old = c.slots m.connections_count in
    let slots = write c.slots m.connections_count (record old { fd = pos fd }) in
    record { management = m; slots = if ltb 0 fd then slots else c.slots }

-- POLL_MNGM
unfoldable pub on_connection : Greeting → Console → Console
unfolding accept_connection enroll
on_connection g c = enroll c (accept_connection g c.management)

-- The `while` of `closeManagementConnection`, with `left` clients to look at.
unfoldable pub find_connection : (left index : ℕ) → (ℕ → ℕ) → ℤ → ℕ
find_connection zero index connections fd = index
find_connection (suc left) index connections fd =
    let next = find_connection left (index + 1) connections fd in
    if eq_ℤ (pos (connections index)) fd then index else next

-- An array of n entries from `first` on, with entry `index` taken out by `memmove`.
abbrev pub shift {ℓ} : {A : Type ℓ} → (ℕ → A) → (index last : ℕ) → ℕ → A
shift f index last i = if leb index i && ltb i last then f (i + 1) else f i

-- `true` is the return of 0. With the index of no client, `memmove` gets a size below 0.
unfoldable pub close_connection : Management → ℤ → Run (Bool × Management)
unfolding find_connection
close_connection m fd =
    let index = find_connection m.connections_count 0 m.connections fd in
    let last = m.connections_count - 1 in
    if ltb index mngm_max_conn
    then if eq_ℤ (pos (m.connections index)) fd
      then if ltb index m.connections_count
        then ok (
          true,
          record m {
            connections = shift m.connections index last;
            debug_level = shift m.debug_level index last;
          },
        )
        else fault out_of_bounds
      else ok (false, m)
    else fault out_of_bounds

-- The rest of a round of the hang-up loop for entry i, when the client is closed.
abbrev pub drop_slot : Management → (ℕ → Slot) → ℕ → Console
drop_slot m slots i =
    let n = m.connections_count in
    let moved = shift slots i n in
    record {
      management = record m { connections_count = n - 1 };
      slots = write moved n (record (moved n) { fd = negsuc 0 });
    }

-- The hang-up loop of `packetHandlerThread`, from entry i on.
unfoldable pub hang_up_loop : ℕ → ℕ → Console → Run Console
unfolding close_connection
hang_up_loop zero i c = out_of_fuel
hang_up_loop (suc f) i c =
    let closed = close_connection c.management (c.slots i).fd >>= λ (_, m).
    hang_up_loop f i (drop_slot m c.slots i) in
    let next = hang_up_loop f (i + 1) c in
    if leb i c.management.connections_count
    then if (c.slots i).hang_up then closed else next
    else ok c

unfoldable pub on_hang_up : Console → Run Console
unfolding hang_up_loop
on_hang_up c = hang_up_loop (c.management.connections_count + 1) 1 c
