-- ===== src/Console/Clients.antt =====
-- The clients as a list: a new one is added at the end, and those that hang up are taken out.
use native.Mathlib.Numerals.{add-one}
use vdeplug_wirefilter.Base.{
  ℕ, zero, suc, ◌+◌, ◌-◌, ◌≤◌, ◌<◌, ◌≡◌, ◌≢◌, refl, sym, ap, ap₂, ◌∙◌, arith, Bool, true, false,
  Bool-cases, inl, inr, if◌then◌else◌, ltb, leb, ◌==◌, List, [], ◌∷◌, ◌++◌, ok,
}
use vdeplug_wirefilter.Base.Int.{pos, eq_ℤ, eq_ℤ-pos}
use vdeplug_wirefilter.Conn.{Management, mngm_max_conn}
use vdeplug_wirefilter.Console.{Slot, Console, shift, find_connection, close_connection, drop_slot}

-- What the console keeps of a client.
pub record Client : Type 0 where
  pub fd : ℕ
  pub debug_level : ℕ
  pub hang_up : Bool

abbrev pub client : Console → ℕ → Client
client c i = record {
  fd = c.management.connections i;
  debug_level = c.management.debug_level i;
  hang_up = (c.slots (i + 1)).hang_up;
}

-- The clients from the i-th on, `n` of them.
abbrev pub clients_from : (n i : ℕ) → Console → List Client
clients_from zero i c = []
clients_from (suc n) i c = client c i ∷ clients_from n (i + 1) c

abbrev pub clients : Console → List Client
clients c = clients_from c.management.connections_count 0 c

-- The clients that have not hung up.
abbrev pub staying : List Client → List Client
staying [] = []
staying (x ∷ xs) = if x.hang_up then staying xs else x ∷ staying xs

-- The clients' arrays and their poll descriptors agree, and no descriptor serves two clients.
pub record IsSynced (c : Console) : Type 0 where
  pub room : c.management.connections_count ≤ mngm_max_conn
  pub slots :
      (i : ℕ)
      → i < c.management.connections_count
      → (c.slots (i + 1)).fd ≡ pos (c.management.connections i)
  pub apart :
      (i j : ℕ)
      → i < c.management.connections_count
      → j < i
      → c.management.connections j ≢ c.management.connections i

pub clients_from-congr :
    (n i : ℕ) (c c' : Console)
    → ((j : ℕ) → i ≤ j → j < i + n → client c j ≡ client c' j)
    → clients_from n i c ≡ clients_from n i c'
clients_from-congr zero i c c' same = refl
clients_from-congr (suc n) i c c' same =
    ap₂ ◌∷◌ (same i (omega arith) (omega arith))
      (clients_from-congr n (i + 1) c c' (λ j p q. same j (omega arith) (omega arith)))

pub clients_from-last :
    (n i : ℕ) (c : Console) → clients_from (suc n) i c ≡ clients_from n i c ++ client c (i + n) ∷ []
clients_from-last zero i c = ap (λ j. client c j ∷ []) (omega arith)
clients_from-last (suc n) i c = ap (◌∷◌ (client c i)) (
    clients_from-last n (i + 1) c
    ∙ ap (λ j. clients_from n (i + 1) c ++ client c j ∷ []) (omega arith))

pub clients_from-next :
    (i : ℕ) (c : Console) → clients_from (i + 1) 0 c ≡ clients_from i 0 c ++ client c i ∷ []
clients_from-next i c =
    ap (λ m. clients_from m 0 c) (add-one i)
    ∙ clients_from-last i 0 c
    ∙ ap (λ j. clients_from i 0 c ++ client c j ∷ []) (omega arith)

-- `closeManagementConnection` finds a client at its own index.
find_connection_lem :
    (left i k : ℕ) (connections : ℕ → ℕ)
    → i ≤ k
    → k < i + left
    → ((j : ℕ) → j < k → connections j ≢ connections k)
    → find_connection left i connections (pos (connections k)) ≡ k
unfolding find_connection
find_connection_lem zero i k connections p q apart = absurd (omega arith)
find_connection_lem (suc left) i k connections p q apart =
    rw (eq_ℤ-pos (connections i) (connections k)) (elim (Bool-cases (i == k)) [
      | inl here ↦
          let same : i ≡ k = ground arith in
          let hit : (connections i == connections k) ≡ true = rw same (ground arith) in rw hit same
      | inr later ↦
          let before : i < k = ground arith in
          let other : (connections i == connections k) ≡ false = ground (arith, apart i before) in
          rw other
            (find_connection_lem left (i + 1) k connections (omega arith) (omega arith) apart)
    ])

-- Closing the client behind entry i + 1 takes it out of the arrays.
abbrev pub without : Management → ℕ → Management
without m i = record m {
  connections = shift m.connections i (m.connections_count - 1);
  debug_level = shift m.debug_level i (m.connections_count - 1);
}

pub close_connection_lem :
    (c : Console) (i : ℕ)
    → IsSynced c
    → i < c.management.connections_count
    → close_connection c.management (c.slots (i + 1)).fd ≡ ok (true, without c.management i)
unfolding close_connection
close_connection_lem c i s h =
    let found =
      find_connection_lem c.management.connections_count 0 i c.management.connections (omega arith)
        (omega arith) (λ j p. s.apart i j h p) in
    let inside : ltb i mngm_max_conn ≡ true = ground (arith, s.room) in
    let counted : ltb i c.management.connections_count ≡ true = ground arith in
    let hit : eq_ℤ (pos (c.management.connections i)) (pos (c.management.connections i)) ≡ true =
      ground arith in
    rw (s.slots i h, found, inside, hit, counted) refl

-- The console without the client behind entry i + 1.
abbrev pub removed : Console → ℕ → Console
removed c i = drop_slot (without c.management i) c.slots (i + 1)

shift-before {ℓ} :
    {A : Type ℓ} (f : ℕ → A) (index last j : ℕ) → j < index → shift f index last j ≡ f j
shift-before f index last j h = let below : leb index j ≡ false = ground arith in rw below refl

shift-after {ℓ} :
    {A : Type ℓ} (f : ℕ → A) (index last j : ℕ)
    → index ≤ j
    → j < last
    → shift f index last j ≡ f (j + 1)
shift-after f index last j h p =
    let above : leb index j ≡ true = ground arith in
    let inside : ltb j last ≡ true = ground arith in rw (above, inside) refl

-- The entries of the clients that stay are those that `memmove` has left.
removed_slot :
    (c : Console) (i j : ℕ)
    → j + 1 < c.management.connections_count
    → (removed c i).slots (j + 1) ≡ shift c.slots (i + 1) c.management.connections_count (j + 1)
removed_slot c i j h =
    let other : (c.management.connections_count == j + 1) ≡ false = ground arith in rw other refl

removed_slot-before :
    (c : Console) (i j : ℕ)
    → i < c.management.connections_count
    → j < i
    → (removed c i).slots (j + 1) ≡ c.slots (j + 1)
removed_slot-before c i j h p =
    removed_slot c i j (omega arith)
    ∙ shift-before c.slots (i + 1) c.management.connections_count (j + 1) (omega arith)

removed_slot-after :
    (c : Console) (i j : ℕ)
    → i ≤ j
    → j + 1 < c.management.connections_count
    → (removed c i).slots (j + 1) ≡ c.slots (j + 1 + 1)
removed_slot-after c i j h p =
    removed_slot c i j p
    ∙ shift-after c.slots (i + 1) c.management.connections_count (j + 1) (omega arith) p

pub client_path :
    (c c' : Console) (j j' : ℕ)
    → c.management.connections j ≡ c'.management.connections j'
    → c.management.debug_level j ≡ c'.management.debug_level j'
    → c.slots (j + 1) ≡ c'.slots (j' + 1)
    → client c j ≡ client c' j'
client_path c c' j j' p q r = λ k. record { fd = p k; debug_level = q k; hang_up = (r k).hang_up }

pub removed-client-before :
    (c : Console) (i j : ℕ)
    → i < c.management.connections_count
    → j < i
    → client (removed c i) j ≡ client c j
removed-client-before c i j h p =
    let last = c.management.connections_count - 1 in
    client_path (removed c i) c j j (shift-before c.management.connections i last j p)
      (shift-before c.management.debug_level i last j p) (removed_slot-before c i j h p)

pub removed-client-after :
    (c : Console) (i j : ℕ)
    → i ≤ j
    → j + 1 < c.management.connections_count
    → client (removed c i) j ≡ client c (j + 1)
removed-client-after c i j h p =
    let last = c.management.connections_count - 1 in
    client_path (removed c i) c j (j + 1)
      (shift-after c.management.connections i last j h (omega arith))
      (shift-after c.management.debug_level i last j h (omega arith)) (removed_slot-after c i j h p)

-- Where the client behind an entry was before.
abbrev origin : (i j : ℕ) → ℕ
origin i j = if ltb j i then j else j + 1

shift-origin {ℓ} :
    {A : Type ℓ} (f : ℕ → A) (index last j : ℕ)
    → j < last
    → shift f index last j ≡ f (origin index j)
shift-origin f index last j h = elim (Bool-cases (ltb j index)) [
  | inl before ↦ rw before (shift-before f index last j (ground arith))
  | inr after ↦ rw after (shift-after f index last j (ground arith) h)
]

pub removed-IsSynced :
    (c : Console) (i : ℕ) → IsSynced c → i < c.management.connections_count → IsSynced (removed c i)
removed-IsSynced c i s h =
    let last = c.management.connections_count - 1 in
    record {
      room = omega (arith, s.room);
      slots = λ j p. elim (Bool-cases (ltb j i)) [
        | inl before ↦
            let below : j < i = ground arith in
            ap (λ (x : Slot). x.fd) (removed_slot-before c i j h below)
            ∙ s.slots j (omega arith)
            ∙ ap pos (sym (shift-before c.management.connections i last j below))
        | inr after ↦
            let above : i ≤ j = ground arith in
            ap (λ (x : Slot). x.fd) (removed_slot-after c i j above (omega arith))
            ∙ s.slots (j + 1) (omega arith)
            ∙ ap pos (sym (shift-after c.management.connections i last j above p))
      ];
      apart = λ j k p q.
          let apart = s.apart (origin i j) (origin i k) (ground arith) (ground arith) in
          λ e. apart (
            sym (shift-origin c.management.connections i last k (omega arith))
            ∙ e
            ∙ shift-origin c.management.connections i last j p);
    }
