-- ===== src/Console/Accept.antt =====
-- The block of `packetHandlerThread` for a new client, on the list of clients.
use native.Mathlib.Decide.{dec_lt}
use vdeplug_wirefilter.Base.{
  write_self, write-other, ℕ, ◌+◌, ◌≤◌, ◌<◌, ◌≡◌, ◌≢◌, refl, sym, ap, ap₂, subst, ◌∙◌, arith, true,
  false, ltb, write, some, [], ◌∷◌, ◌++◌,
}
use vdeplug_wirefilter.Base.Int.{pos}
use vdeplug_wirefilter.Conn.{Management, mngm_max_conn}
use vdeplug_wirefilter.Console.{Slot, Console, Greeting, add_client, greet, on_connection}
use vdeplug_wirefilter.Console.Clients.{
  Client, client, clients, IsSynced, clients_from-congr, clients_from-next, client_path,
}

-- The greeting of a client with descriptor `fd` that gets all that is written to it.
abbrev pub greeting : ℕ → Greeting
greeting fd = record { connection = some fd; header_sent = true; prompt_sent = true }

abbrev pub new_client : ℕ → Client
new_client fd = record { fd = fd; debug_level = 0; hang_up = false }

-- The console with one more client.
abbrev added : Console → ℕ → Console
added c fd =
    let n = c.management.connections_count + 1 in
    record {
      management = add_client c.management fd;
      slots = write c.slots n (record (c.slots n) { fd = pos fd });
    }

greet_room :
    (m : Management) (fd : ℕ)
    → m.connections_count < mngm_max_conn
    → greet true true fd m ≡ (some fd, add_client m fd)
unfolding greet
greet_room m fd room =
    let accepted : ltb m.connections_count mngm_max_conn ≡ true = ground arith in rw accepted refl

on_connection-added :
    (c : Console) (fd : ℕ)
    → c.management.connections_count < mngm_max_conn
    → 0 < fd
    → on_connection (greeting fd) c ≡ added c fd
unfolding on_connection
on_connection-added c fd room positive =
    let polled : ltb 0 fd ≡ true = ground arith in rw (greet_room c.management fd room, polled) refl

module _ (c : Console) (fd : ℕ) where
  abbrev n : ℕ
  n = c.management.connections_count

  abbrev slot : Slot
  slot = record (c.slots (n + 1)) { fd = pos fd }

  added-client-before : (j : ℕ) → j < n → client (added c fd) j ≡ client c j
  added-client-before j h =
      client_path (added c fd) c j j (write-other c.management.connections n fd j (omega arith))
        (write-other c.management.debug_level n 0 j (omega arith))
        (write-other c.slots (n + 1) slot (j + 1) (omega arith))

  added-client-last : (c.slots (n + 1)).hang_up ≡ false → client (added c fd) n ≡ new_client fd
  added-client-last calm = λ k. record {
    fd = write_self c.management.connections n fd k;
    debug_level = write_self c.management.debug_level n 0 k;
    hang_up = (ap (λ (x : Slot). x.hang_up) (write_self c.slots (n + 1) slot) ∙ calm) k;
  }

  added-slot :
      IsSynced c
      → (i : ℕ) → i ≤ n
      → ((added c fd).slots (i + 1)).fd ≡ pos ((added c fd).management.connections i)
  added-slot s i p = elim (dec_lt i n) [
    | yes old ↦
        ap (λ (x : Slot). x.fd) (write-other c.slots (n + 1) slot (i + 1) (omega arith))
        ∙ s.slots i old
        ∙ ap pos (sym (write-other c.management.connections n fd i (omega arith)))
    | no new ↦
        let last : n ≡ i = omega arith in
        subst (λ m. ((added c fd).slots (m + 1)).fd ≡ pos ((added c fd).management.connections m))
          last
          (ap (λ (x : Slot). x.fd) (write_self c.slots (n + 1) slot)
            ∙ ap pos (sym (write_self c.management.connections n fd)))
  ]

  added-apart :
      IsSynced c
      → ((i : ℕ) → i < n → c.management.connections i ≢ fd)
      → (i j : ℕ) → i ≤ n
      → j < i
      → (added c fd).management.connections j ≢ (added c fd).management.connections i
  added-apart s fresh i j p q = elim (dec_lt i n) [
    | yes old ↦ λ e. s.apart i j old q (
        sym (write-other c.management.connections n fd j (omega arith))
        ∙ e
        ∙ write-other c.management.connections n fd i (omega arith))
    | no new ↦
        let last : n ≡ i = omega arith in
        λ e. fresh j (omega arith) (
          sym (write-other c.management.connections n fd j (omega arith))
          ∙ e
          ∙ ap (λ m. (added c fd).management.connections m) (sym last)
          ∙ write_self c.management.connections n fd)
  ]

-- With fewer than 3 clients, a new one comes last in the list, with debug level 0, and its poll descriptor
-- belongs to it. Its descriptor is above 0 and serves no other client, and `poll` has found nothing at
-- the entry that was not in use.
pub on_connection_lem :
    (c : Console) (fd : ℕ)
    → IsSynced c
    → c.management.connections_count < mngm_max_conn
    → 0 < fd
    → ((i : ℕ) → i < c.management.connections_count → c.management.connections i ≢ fd)
    → (c.slots (c.management.connections_count + 1)).hang_up ≡ false
    → IsSynced (on_connection (greeting fd) c)
      × (clients (on_connection (greeting fd) c) ≡ clients c ++ new_client fd ∷ [])
on_connection_lem c fd s room positive fresh calm =
    let n = c.management.connections_count in
    rw (on_connection-added c fd room positive) (
      record {
        room = omega arith;
        slots = λ i p. added-slot c fd s i (omega arith);
        apart = λ i j p q. added-apart c fd s fresh i j (omega arith) q;
      },
      clients_from-next n (added c fd)
          ∙ ap₂ (λ xs x. xs ++ x ∷ [])
              (clients_from-congr n 0 (added c fd) c
                (λ j p q. added-client-before c fd j (omega arith)))
              (added-client-last c fd calm),
    )
