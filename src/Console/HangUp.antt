-- ===== src/Console/HangUp.antt =====
-- The block of `packetHandlerThread` for clients that hang up, on the list of clients.
use mathlib.Core.List.{append_assoc, append-nil}
use vdeplug_wirefilter.Base.{
  ℕ, zero, suc, ◌+◌, ◌≤◌, ◌<◌, ◌≡◌, refl, sym, ap, ap₂, ◌∙◌, arith, true, false, Bool-cases, inl,
  inr, if◌then◌else◌, leb, List, [], ◌∷◌, ◌++◌, Returns, returns, Returns-weaken,
}
use vdeplug_wirefilter.Console.{Console, hang_up_loop, on_hang_up}
use vdeplug_wirefilter.Console.Clients.{
  Client, client, clients_from, clients, staying, IsSynced, clients_from-congr, clients_from-next,
  close_connection_lem, removed, removed-client-before, removed-client-after, removed-IsSynced,
}

-- What the loop makes of the clients: the first `i` stay, and the `n` others if they have not hung up.
record Sifted (c : Console) (i n : ℕ) (c' : Console) : Type 0 where
  pub synced : IsSynced c'
  pub view : clients c' ≡ clients_from i 0 c ++ staying (clients_from n i c)

removed-clients_from-before :
    (c : Console) (i : ℕ)
    → i < c.management.connections_count
    → clients_from i 0 (removed c i) ≡ clients_from i 0 c
removed-clients_from-before c i h =
    clients_from-congr i 0 (removed c i) c (λ j p q. removed-client-before c i j h (omega arith))

removed-clients_from-after :
    (c : Console) (i n m : ℕ)
    → i ≤ m
    → m + n + 1 ≤ c.management.connections_count
    → clients_from n m (removed c i) ≡ clients_from n (m + 1) c
removed-clients_from-after c i zero m h p = refl
removed-clients_from-after c i (suc n) m h p =
    ap₂ ◌∷◌ (removed-client-after c i m h (omega arith))
      (removed-clients_from-after c i n (m + 1) (omega arith) (omega arith))

staying_here :
    (x : Client) (xs : List Client) → x.hang_up ≡ false → staying (x ∷ xs) ≡ x ∷ staying xs
staying_here x xs h = ap (λ b. if b then staying xs else x ∷ staying xs) h

hang_up_loop_lem :
    (n f i : ℕ) (c : Console)
    → n < f
    → IsSynced c
    → i + n ≡ c.management.connections_count
    → Returns (Sifted c i n) (hang_up_loop f (i + 1) c)
unfolding hang_up_loop
hang_up_loop_lem n zero i c enough s e = absurd (omega arith)
hang_up_loop_lem zero (suc f) i c enough s e =
    let over : leb (i + 1) c.management.connections_count ≡ false = ground arith in
    rw over (
      returns (record {
        synced = s;
        view = ap (λ m. clients_from m 0 c) (omega arith) ∙ sym (append-nil (clients_from i 0 c));
      }))
hang_up_loop_lem (suc n) (suc f) i c enough s e =
    let more : leb (i + 1) c.management.connections_count ≡ true = ground arith in
    elim (Bool-cases (c.slots (i + 1)).hang_up) [
      | inl gone ↦
          rw (more, gone, close_connection_lem c i s (omega arith))
            (Returns-weaken
              (hang_up_loop_lem n f i (removed c i) (omega arith)
                (removed-IsSynced c i s (omega arith)) (omega arith))
              λ c' l. record {
                synced = l.synced;
                view = rw gone (
                    l.view
                    ∙ ap₂ (λ xs ys. xs ++ staying ys)
                        (removed-clients_from-before c i (omega arith))
                        (removed-clients_from-after c i n i (omega arith) (omega arith)));
              })
      | inr here ↦
          rw (more, here)
            (Returns-weaken (hang_up_loop_lem n f (i + 1) c (omega arith) s (omega arith)) λ c' l.
              record {
                synced = l.synced;
                view =
                    l.view
                    ∙ ap (λ xs. xs ++ staying (clients_from n (i + 1) c)) (clients_from-next i c)
                    ∙ append_assoc (clients_from i 0 c) (client c i ∷ [])
                        (staying (clients_from n (i + 1) c))
                    ∙ ap (◌++◌ (clients_from i 0 c))
                        (sym (staying_here (client c i) (clients_from n (i + 1) c) here));
              })
    ]

-- The hang-up loop returns. Of the clients, with their debug levels, exactly those that have hung up are
-- gone, the others are in the same order, and each poll descriptor still belongs to its client.
pub on_hang_up_lem :
    (c : Console)
    → IsSynced c
    → Returns (λ c'. IsSynced c' × (clients c' ≡ staying (clients c))) (on_hang_up c)
unfolding on_hang_up
on_hang_up_lem c s =
    Returns-weaken
      (hang_up_loop_lem c.management.connections_count (c.management.connections_count + 1) 0 c
        (omega arith) s (omega arith))
      λ c' l. (l.synced, l.view)
