-- ===== src/Console/Round/Clients.antt =====
-- The clients over a round of the blocks of `packetHandlerThread` for the management socket.
use vdeplug_wirefilter.Base.{
  ℕ, zero, suc, ◌+◌, ◌<◌, ◌≡◌, ◌≢◌, refl, sym, ap, ap₂, ◌∙◌, arith, Bool, true, false, Bool-cases,
  inl, inr, ◌&&◌, if◌then◌else◌, ltb, Option, none, some, List, [], ◌∷◌, ◌++◌, Run, Returns,
  returns,
}
use vdeplug_wirefilter.Conn.{Management, Sys, mngm_max_conn}
use vdeplug_wirefilter.Console.{
  Slot, Console, Greeting, greet, accept_connection, enroll, on_connection,
}
use vdeplug_wirefilter.Console.Accept.{new_client, on_connection_lem}
use vdeplug_wirefilter.Console.Clients.{Client, clients, clients_from, staying, IsSynced}
use vdeplug_wirefilter.Console.Execute.{Host}
use vdeplug_wirefilter.Console.Execute.Clients.{on_commands-SameClients}
use vdeplug_wirefilter.Console.HangUp.{on_hang_up_lem}
use vdeplug_wirefilter.Console.Keeps.{Whenever, whenever, Whenever-bind, SameClients}
use vdeplug_wirefilter.Console.Round.{admit, with_management, on_management}
use vdeplug_wirefilter.Double.{Double, DoubleText}

-- What `accept` gives, if anything comes in.
abbrev pub arriving : Option Greeting → Option ℕ
arriving none = none
arriving (some g) = g.connection

-- The descriptor that comes in is above 0 and serves no client, and `poll` has found no hang-up at the entry that
-- is not in use.
pub record IsFresh (incoming : Option Greeting) (c : Console) : Type 0 where
  pub positive : (fd : ℕ) → arriving incoming ≡ some fd → 0 < fd
  pub apart :
      (fd : ℕ)
      → arriving incoming ≡ some fd
      → (i : ℕ) → i < c.management.connections_count
      → c.management.connections i ≢ fd
  pub calm : (c.slots (c.management.connections_count + 1)).hang_up ≡ false

-- The client that comes in, if there is room for it and both parts of the greeting can be sent.
abbrev pub welcomed : Bool → Bool → Bool → ℕ → List Client
welcomed room header_sent prompt_sent fd =
    if (header_sent && prompt_sent) && room then new_client fd ∷ [] else []

abbrev pub newcomer : Option Greeting → ℕ → List Client
newcomer none n = []
newcomer (some g) n = elim g.connection [
  | none ↦ []
  | some fd ↦ welcomed (ltb n mngm_max_conn) g.header_sent g.prompt_sent fd
]

-- The descriptors of clients.
abbrev pub fds : List Client → List ℕ
fds [] = []
fds (x ∷ xs) = x.fd ∷ fds xs

-- What a block makes of the clients.
record Now (c : Console) (expected : List Client) : Type 0 where
  synced : IsSynced c
  view : clients c ≡ expected

++-[] : (xs : List Client) → xs ++ [] ≡ xs
++-[] [] = refl
++-[] (x ∷ xs) = ap (◌∷◌ x) (++-[] xs)

unchanged : (c : Console) → IsSynced c → Now c (clients c ++ [])
unchanged c s = record { synced = s; view = sym (++-[] (clients c)) }

-- Without room, or without the whole greeting, nobody comes in.
greet_refused :
    (header_sent prompt_sent room : Bool) (fd : ℕ) (m : Management)
    → ltb m.connections_count mngm_max_conn ≡ room
    → (header_sent && prompt_sent) && room ≡ false
    → greet header_sent prompt_sent fd m ≡ (none, m)
unfolding greet
greet_refused header_sent prompt_sent false fd m full e = rw full refl
greet_refused true true true fd m full e = ground arith
greet_refused true false true fd m full e = rw full refl
greet_refused false prompt_sent true fd m full e = rw full refl

enter_lem :
    (header_sent prompt_sent room : Bool) (fd : ℕ) (c : Console)
    → IsSynced c
    → IsFresh
        (some
          (record { connection = some fd; header_sent = header_sent; prompt_sent = prompt_sent }))
        c
    → ltb c.management.connections_count mngm_max_conn ≡ room
    → Now
        (on_connection
          (record { connection = some fd; header_sent = header_sent; prompt_sent = prompt_sent })
          c)
        (clients c ++ welcomed room header_sent prompt_sent fd)
unfolding on_connection accept_connection enroll
enter_lem true true true fd c s fresh room =
    let (synced, view) =
      on_connection_lem c fd s (ground arith) (fresh.positive fd refl) (fresh.apart fd refl)
        fresh.calm in
    record { synced = synced; view = view }
enter_lem true true false fd c s fresh room =
    rw (greet_refused true true false fd c.management room refl) (unchanged c s)
enter_lem true false b fd c s fresh room =
    rw (greet_refused true false b fd c.management room refl) (unchanged c s)
enter_lem false prompt_sent b fd c s fresh room =
    rw (greet_refused false prompt_sent b fd c.management room refl) (unchanged c s)

connect_lem :
    (connection : Option ℕ) (header_sent prompt_sent : Bool) (c : Console)
    → IsSynced c
    → IsFresh
        (some (record {
          connection = connection;
          header_sent = header_sent;
          prompt_sent = prompt_sent;
        }))
        c
    → Now
        (on_connection
          (record { connection = connection; header_sent = header_sent; prompt_sent = prompt_sent })
          c)
        (clients c
          ++ newcomer
              (some (record {
                connection = connection;
                header_sent = header_sent;
                prompt_sent = prompt_sent;
              }))
              c.management.connections_count)
unfolding on_connection accept_connection enroll
connect_lem none header_sent prompt_sent c s fresh = unchanged c s
connect_lem (some fd) header_sent prompt_sent c s fresh =
    enter_lem header_sent prompt_sent (ltb c.management.connections_count mngm_max_conn) fd c s
      fresh refl

admit_lem :
    (incoming : Option Greeting) (c : Console)
    → IsSynced c
    → IsFresh incoming c
    → Now (admit incoming c) (clients c ++ newcomer incoming c.management.connections_count)
unfolding admit
admit_lem none c s fresh = unchanged c s
admit_lem (some g) c s fresh = connect_lem g.connection g.header_sent g.prompt_sent c s fresh

-- With other debug levels, the same clients stay.
staying_same :
    (n i : ℕ) (m m' : Management) (slots : ℕ → Slot)
    → m'.connections ≡ m.connections
    → fds (staying (clients_from n i (record { management = m'; slots = slots })))
      ≡ fds (staying (clients_from n i (record { management = m; slots = slots })))
staying_same zero i m m' slots same = refl
staying_same (suc n) i m m' slots same = elim (Bool-cases (slots (i + 1)).hang_up) [
  | inl gone ↦ rw gone (staying_same n (i + 1) m m' slots same)
  | inr here ↦ rw here (ap₂ ◌∷◌ (ap (λ f. f i) same) (staying_same n (i + 1) m m' slots same))
]

staying-SameClients :
    (m m' : Management) (slots : ℕ → Slot)
    → SameClients m m'
    → fds (staying (clients (record { management = m'; slots = slots })))
      ≡ fds (staying (clients (record { management = m; slots = slots })))
staying-SameClients m m' slots same =
    ap (λ n. fds (staying (clients_from n 0 (record { management = m'; slots = slots }))))
      same.connections_count
    ∙ (staying_same m.connections_count 0 m m' slots same.connections)

IsSynced-SameClients :
    (m m' : Management) (slots : ℕ → Slot)
    → SameClients m m'
    → IsSynced (record { management = m; slots = slots })
    → IsSynced (record { management = m'; slots = slots })
IsSynced-SameClients m m' slots same s = record {
  room = rw same.connections_count s.room;
  slots = rw (same.connections_count, same.connections) s.slots;
  apart = rw (same.connections_count, same.connections) s.apart;
}

Whenever-Returns {ℓ κ} : {A : Type ℓ} {P : A → Type κ} {r : Run A} → Returns P r → Whenever P r
Whenever-Returns (returns p) = whenever p

module _ {D : Type 0} ⦃double : Double D⦄ ⦃text : DoubleText D⦄ where
  -- Over a round of the three blocks for the management socket, with whatever the clients send: when it returns, the
  -- clients are those of before and the one that came in, if there was room for it and its greeting was sent, less
  -- those that hung up, in that order. There are at most 3, no descriptor serves two of them, and each poll
  -- descriptor belongs to its client. A descriptor that comes in is above 0 and new, and `poll` has found no hang-up
  -- at the entry that is not in use. A command may instead end the program or fail on memory.
  pub on_management_lem :
      (host : Host D) (depth : ℕ) (incoming : Option Greeting) (inputs : ℕ → Option (List ℕ) × Bool)
      (slots : ℕ → Slot) (s : Sys D)
      → IsSynced (record { management = s.conn.management; slots = slots })
      → IsFresh incoming (record { management = s.conn.management; slots = slots })
      → Whenever
          (λ (c', s').
            (s'.conn.management ≡ c'.management)
            × (IsSynced c'
                × (fds (clients c')
                    ≡ fds (
                        staying (
                          clients (record { management = s.conn.management; slots = slots })
                          ++ newcomer incoming s.conn.management.connections_count)))))
          (on_management host depth incoming inputs slots s)
  unfolding on_management with_management
  on_management_lem host depth incoming inputs slots s synced fresh =
      let before : Console = record { management = s.conn.management; slots = slots } in
      let c = admit incoming before in
      let now = admit_lem incoming before synced fresh in
      Whenever-bind
        (on_commands-SameClients host depth inputs c.slots c.management.connections_count 1
          (with_management s c.management))
        λ (_, s') same.
          let after : Console = record { management = s'.conn.management; slots = c.slots } in
          Whenever-bind
            (Whenever-Returns (
              on_hang_up_lem after
                (IsSynced-SameClients c.management s'.conn.management c.slots same now.synced)))
            λ c' (synced', view). whenever (
              refl,
              (
                synced',
                ap fds view
                    ∙ staying-SameClients c.management s'.conn.management c.slots same
                    ∙ ap (λ xs. fds (staying xs)) now.view,
              ),
            )
