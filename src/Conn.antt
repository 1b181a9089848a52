-- ===== src/Conn.antt =====
-- includes/wf_conn.h: the state of a connection, and the world that its functions call.
pub mod Monad
pub mod Sample
use vdeplug_wirefilter.Base.{ℕ, Bool, List}
use vdeplug_wirefilter.Base.Int.{ℤ}
use vdeplug_wirefilter.Markov.{Markov}
use vdeplug_wirefilter.Packet.{Packet, PerDirection}
use vdeplug_wirefilter.Queue.{Queue}
use vdeplug_wirefilter.Time.{TimerSpec}

abbrev pub ok_burst : ℕ
ok_burst = 0

abbrev pub faulty_burst : ℕ
faulty_burst = 1

abbrev pub blink_message_content_size : ℕ
blink_message_content_size = 20

abbrev pub mngm_max_conn : ℕ
mngm_max_conn = 3

-- The `blink` member; a `socket_fd` of 0 means that there is no socket.
pub record Blink : Type 0 where
  pub socket_fd : ℕ
  pub message : List ℕ
  pub id_len : ℕ

-- The `management` member: the connected clients are the first `connections_count` ones.
pub record Management : Type 0 where
  pub mode : ℕ
  pub connections_count : ℕ
  pub connections : ℕ → ℕ
  pub debug_level : ℕ → ℕ

-- `struct vde_wirefilter_conn`, less the descriptors that the model of a call does not look at.
pub record Conn (D : Type 0) : Type 0 where
  pub queue : Queue
  pub markov : Markov D
  pub blink : Blink
  pub bursty_loss_status : PerDirection ℕ
  pub bandwidth_next : PerDirection ℕ
  pub speed_next : PerDirection ℕ
  pub speed_timer : ℕ
  pub management : Management

-- What the code does to the world, in order.
pub data Event : Type 0 where
  nested_send : Packet → Event
  receive_write : Packet → Event
  blink_send : List ℕ → Event
  timer : ℕ → TimerSpec → Event
  -- the debug line to a management client: its descriptor, the old node and the new one
  trace : ℕ → ℤ → ℕ → Event
  -- a line, or the prompt, that a management client is sent
  reply : ℕ → List ℕ → Event
  -- `usleep`, in microseconds
  usleep : ℕ → Event

-- The numbers that `drand48` gives, the times that `now_ns` gives and the answers of `malloc`, each with
-- the number of calls so far; the events so far; and the rounds that the model grants to a loop that
-- waits for a random number. `reader` says whether the program reads the packets that come in for it.
pub record World (D : Type 0) : Type 0 where
  pub randoms : ℕ → D
  pub drawn : ℕ
  pub clock : ℕ → ℕ
  pub ticks : ℕ
  pub memory : ℕ → Bool
  pub asked : ℕ
  pub events : List Event
  pub patience : ℕ
  pub reader : Bool

pub record Sys (D : Type 0) : Type 0 where
  pub conn : Conn D
  pub world : World D
