-- ===== src/Wire/Noise.antt =====
-- The breaking of bits by `noiseHandler`.
use Prim.Native.Nat.{bit_xor}
use vdeplug_wirefilter.Base.{
  ℕ, zero, suc, ◌+◌, ◌/◌, ◌%◌, ◌^◌, ◌<◌, ◌≡◌, ◌≢◌, refl, ap, subst, ◌∙◌, arith, List, [], ◌∷◌,
  length, Returns, returns, Returns-weaken, Returns-value,
}
use vdeplug_wirefilter.Conn.{Sys}
use vdeplug_wirefilter.Double.{Double}
use vdeplug_wirefilter.Packet.{Packet}
use vdeplug_wirefilter.Wire.Handlers.{flip, break_bits}

-- The byte at an index, and 0 where there is none.
abbrev pub byte_at : List ℕ → ℕ → ℕ
byte_at [] i = 0
byte_at (b ∷ buf) zero = b
byte_at (b ∷ buf) (suc i) = byte_at buf i

-- `buf'` is `buf` with the bits of `bit` changed in byte i, and in no other.
pub record Flipped (buf : List ℕ) (i bit : ℕ) (buf' : List ℕ) : Type 0 where
  pub size : length buf' ≡ length buf
  pub changed : byte_at buf' i ≡ bit_xor (byte_at buf i) bit
  pub kept : (j : ℕ) → j ≢ i → byte_at buf' j ≡ byte_at buf j

byte_at-zero :
    (b b' : ℕ) (buf : List ℕ) (j : ℕ) → j ≢ 0 → byte_at (b ∷ buf) j ≡ byte_at (b' ∷ buf) j
byte_at-zero b b' buf zero other = absurd (other refl)
byte_at-zero b b' buf (suc j) other = refl

byte_at-suc :
    (b : ℕ) (buf buf' : List ℕ) (i j : ℕ)
    → ((k : ℕ) → k ≢ i → byte_at buf' k ≡ byte_at buf k)
    → j ≢ suc i
    → byte_at (b ∷ buf') j ≡ byte_at (b ∷ buf) j
byte_at-suc b buf buf' i zero kept other = refl
byte_at-suc b buf buf' i (suc j) kept other = kept j (λ e. other (ap suc e))

flip-Flipped :
    (buf : List ℕ) (i bit : ℕ) → i < length buf → Returns (Flipped buf i bit) (flip buf i bit)
unfolding flip
flip-Flipped [] i bit inside = absurd (omega arith)
flip-Flipped (b ∷ buf) zero bit inside = returns (record {
  size = refl;
  changed = refl;
  kept = λ j other. byte_at-zero (bit_xor b bit) b buf j other;
})
flip-Flipped (b ∷ buf) (suc i) bit inside =
    let (rest, e, f) = Returns-value (flip-Flipped buf i bit (omega arith)) in
    rw e (
      returns (record {
        size = omega (arith, f.size);
        changed = f.changed;
        kept = λ j other. byte_at-suc b buf rest i j f.kept other;
      }))

-- What the breaking of bits leaves as it is.
pub record Broken (packet packet' : Packet) : Type 0 where
  pub size : length packet'.buf ≡ length packet.buf
  pub first : byte_at packet'.buf 0 ≡ byte_at packet.buf 0
  pub second : byte_at packet'.buf 1 ≡ byte_at packet.buf 1
  pub len : packet'.len ≡ packet.len
  pub direction : packet'.direction ≡ packet.direction

module _ {D : Type 0} ⦃double : Double D⦄ where
  open double use {of_ℕ, mul, truncate}

  -- The bit that a number drawn chooses, counted from the third byte on.
  abbrev pub chosen_bit : Packet → D → ℕ
  chosen_bit packet r = truncate (mul (mul r (of_ℕ packet.len)) (of_ℕ 8))

  abbrev pub chosen_byte : Packet → D → ℕ
  chosen_byte packet r = chosen_bit packet r / 8 + 2

  -- The next `n` numbers choose bytes of the payload.
  abbrev pub Inside : (ℕ → D) → Packet → ℕ → ℕ → Type 0
  Inside randoms packet i n =
      (k : ℕ) → k < n → chosen_byte packet (randoms (i + k)) < length packet.buf

  Inside-suc :
      (packet : Packet) (buf : List ℕ) (randoms : ℕ → D) (i n : ℕ)
      → length buf ≡ length packet.buf
      → Inside randoms packet i (suc n)
      → Inside randoms (record packet { buf = buf }) (suc i) n
  Inside-suc packet buf randoms i n same inside k h = rw same (
      subst (λ m. chosen_byte packet (randoms m) < length packet.buf) (omega arith)
        (inside (suc k) (omega arith)))

  -- The breaking of `n` bits whose numbers choose bytes of the payload returns. It draws n numbers, and
  -- leaves the packet's length, its direction and its first two bytes as they are.
  pub break_bits-Broken :
      (n : ℕ) (packet : Packet) (s : Sys D)
      → Inside s.world.randoms packet s.world.drawn n
      → Returns
          (λ (packet', s').
            Broken packet packet' × (s'.world.drawn ≡ s.world.drawn + n) × (s'.conn ≡ s.conn))
          (break_bits n packet s)
  unfolding break_bits
  break_bits-Broken zero packet s inside = returns (
    record { size = refl; first = refl; second = refl; len = refl; direction = refl },
    omega arith,
    refl,
  )
  break_bits-Broken (suc n) packet s inside =
      let r = s.world.randoms s.world.drawn in
      let i = chosen_byte packet r in
      let now : i < length packet.buf =
        subst (λ m. chosen_byte packet (s.world.randoms m) < length packet.buf) (omega arith)
          (inside 0 (omega arith)) in
      let (buf, e, f) =
        Returns-value (flip-Flipped packet.buf i (2 ^ (chosen_bit packet r % 8)) now) in
      let next = record packet { buf = buf } in
      let s' = record s { world = record s.world { drawn = suc s.world.drawn } } in
      rw e (
        Returns-weaken
          (break_bits-Broken n next s'
            (Inside-suc packet buf s.world.randoms s.world.drawn n f.size inside))
          λ (_, s'') (b, drawn, conn). (
            record {
              size = b.size ∙ f.size;
              first = b.first ∙ f.kept 0 (omega arith);
              second = b.second ∙ f.kept 1 (omega arith);
              len = b.len;
              direction = b.direction;
            },
            omega (arith, drawn),
            conn,
          ))
