-- ===== src/Wire/Message.antt =====
-- The blink messages of libvdeplug_wirefilter.c: `setBlinkId`, and what `sendPacket` sends.
use mathlib.Core.List.{append_assoc}
use native.Mathlib.Numerals.{add-one}
use vdeplug_wirefilter.Base.{
  ℕ, zero, suc, ◌+◌, ◌-◌, ◌*◌, ◌/◌, ◌%◌, ◌^◌, ◌≤◌, ◌<◌, ◌≡◌, refl, ap, ap₂, ◌∙◌, arith, true,
  Bool-cases, inl, inr, ◌==◌, List, [], ◌∷◌, ◌++◌, take, length, length-append, Option, none, some,
}
use vdeplug_wirefilter.Conn.{Blink, blink_message_content_size}
use vdeplug_wirefilter.Packet.{Packet, Direction, left_to_right, right_to_left}
use vdeplug_wirefilter.Wire.Forward.{decimal_loop, decimal, direction_name, blink_message}

abbrev pub blanks : ℕ → List ℕ
blanks zero = []
blanks (suc n) = b' ' ∷ blanks n

-- `setBlinkId` with the text of the process id; a failing `asprintf` is left out.
unfoldable pub set_blink_id : List ℕ → Option (List ℕ) → Blink → Blink
set_blink_id pid none b = record b {
  id_len = length pid;
  message = pid ++ (b' ' ∷ blanks blink_message_content_size);
}
set_blink_id pid (some id) b = record b {
  id_len = length id;
  message = id ++ (b' ' ∷ blanks blink_message_content_size);
}

-- The number that a text of digits stands for, behind digits that stand for `v`.
abbrev pub digits_value : ℕ → List ℕ → ℕ
digits_value v [] = v
digits_value v (d ∷ ds) = digits_value (v * 10 + (d - b'0')) ds

-- A number of at most f + 1 digits.
abbrev Fits : ℕ → ℕ → Type 0
Fits zero n = n < 10
Fits (suc f) n = Fits f (n / 10)

decimal_loop_value :
    (f n : ℕ) (acc : List ℕ)
    → Fits f n
    → digits_value 0 (decimal_loop (suc f) n acc) ≡ digits_value n acc
unfolding decimal_loop
decimal_loop_value zero n acc h =
    let done : (n / 10 == 0) ≡ true = ground arith in
    rw done (ap (λ v. digits_value v acc) (omega arith))
decimal_loop_value (suc f) n acc h = elim (Bool-cases (n / 10 == 0)) [
  | inl done ↦ rw done (ap (λ v. digits_value v acc) (ground arith))
  | inr more ↦ rw more (
      decimal_loop_value f (n / 10) ((b'0' + n % 10) ∷ acc) h
      ∙ ap (λ v. digits_value v acc) (omega arith))
]

length-decimal_loop :
    (k f n : ℕ) (acc : List ℕ)
    → k ≤ f
    → Fits k n
    → length (decimal_loop (suc f) n acc) ≤ length acc + suc k
unfolding decimal_loop
length-decimal_loop zero f n acc e h =
    let done : (n / 10 == 0) ≡ true = ground arith in rw done (omega arith)
length-decimal_loop (suc k) zero n acc e h = absurd (omega arith)
length-decimal_loop (suc k) (suc f) n acc e h =
    let rest = length-decimal_loop k f (n / 10) ((b'0' + n % 10) ∷ acc) (omega arith) h in
    elim (Bool-cases (n / 10 == 0)) [
      | inl done ↦ rw done (omega arith)
      | inr more ↦ rw more (omega (arith, rest))
    ]

take-all {ℓ} : {A : Type ℓ} (n : ℕ) (xs : List A) → length xs ≤ n → take n xs ≡ xs
take-all zero [] h = refl
take-all zero (x ∷ xs) h = absurd (omega arith)
take-all (suc n) [] h = refl
take-all (suc n) (x ∷ xs) h = ap (◌∷◌ x) (take-all n xs (omega arith))

take-prefix {ℓ} :
    {A : Type ℓ} (xs : List A) (y : A) (ys : List A)
    → take (suc (length xs)) (xs ++ y ∷ ys) ≡ xs ++ y ∷ []
take-prefix [] y ys = refl
take-prefix (x ∷ xs) y ys = ap (◌∷◌ x) (take-prefix xs y ys)

-- The length in a blink message is read back as it was, if it is below 10^20.
pub decimal_value : (n : ℕ) → n < 10 ^ 20 → digits_value 0 (decimal n) ≡ n
decimal_value n h = decimal_loop_value 19 n [] (omega arith)

abbrev pub content : Direction → ℕ → List ℕ
content d len = direction_name d ++ (b' ' ∷ (decimal len ++ (b'\n' ∷ [])))

content-length : (d : Direction) (len : ℕ) → len < 10 ^ 15 → length (content d len) ≤ 19
content-length left_to_right len h = omega (
  arith,
  length-decimal_loop 14 19 len [] (omega arith) (omega arith),
  length-append (decimal len) (b'\n' ∷ []),
)
content-length right_to_left len h = omega (
  arith,
  length-decimal_loop 14 19 len [] (omega arith) (omega arith),
  length-append (decimal len) (b'\n' ∷ []),
)

-- With the identifier `id`, the message for a packet of fewer than 10^15 bytes is the identifier, the
-- direction and the length, with blanks between them and a newline at the end, and nothing of it is cut
-- off; the length is read back as it was.
pub blink_message-content :
    (pid id : List ℕ) (b : Blink) (packet : Packet)
    → packet.len < 10 ^ 15
    → (blink_message (set_blink_id pid (some id) b) packet
        ≡ id ++ (b' ' ∷ content packet.direction packet.len))
      × (digits_value 0 (decimal packet.len) ≡ packet.len)
unfolding blink_message set_blink_id
blink_message-content pid id b packet h = (
  ap₂ ◌++◌
        (ap (λ n. take n (id ++ (b' ' ∷ blanks blink_message_content_size))) (add-one (length id))
          ∙ take-prefix id b' ' (blanks blink_message_content_size))
        (take-all 19 (content packet.direction packet.len)
          (content-length packet.direction packet.len h))
      ∙ append_assoc id (b' ' ∷ []) (content packet.direction packet.len),
  decimal_value packet.len (omega arith),
)
