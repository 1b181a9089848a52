-- ===== src/Text/Scan.antt =====
-- The laws of the functions on C strings: they go past a prefix whose characters pass their test, and a number
-- that is printed with its digits is read back.
use vdeplug_wirefilter.Base.{
  ℕ, zero, suc, ◌+◌, ◌-◌, ◌*◌, ◌/◌, ◌%◌, ◌^◌, ◌≡◌, ◌<◌, refl, sym, ap, subst, ◌∙◌, arith, Bool,
  true, false, Bool-cases, inl, inr, not, ◌==◌, Only, Meets, some, List, [], ◌∷◌, ◌++◌,
}
use vdeplug_wirefilter.Base.Int.{pos}
use vdeplug_wirefilter.Double.{is_figure}
use vdeplug_wirefilter.Text.{
  is_space, is_digit, drop_while, prepend, split_at, scan_digits, scan_signed, scan_int,
}
use vdeplug_wirefilter.Wire.Forward.{decimal_loop, decimal}
use vdeplug_wirefilter.Wire.Message.{digits_value, decimal_value}

-- A character that does not end a word.
abbrev pub in_word : ℕ → Bool
in_word c = not (c == b' ')

pub digit-InWord : (c : ℕ) → is_digit c ≡ true → in_word c ≡ true
digit-InWord c h = ground arith

pub figure-InWord : (c : ℕ) → is_figure c ≡ true → in_word c ≡ true
figure-InWord c h = ground arith

pub Only-append : (test : ℕ → Bool) (s t : List ℕ) → Only test s → Only test t → Only test (s ++ t)
Only-append test [] t h k = k
Only-append test (c ∷ s) t h k = (h.0, Only-append test s t h.1 k)

pub Only-weaken :
    (test other : ℕ → Bool) (s : List ℕ)
    → ((c : ℕ) → test c ≡ true → other c ≡ true)
    → Only test s
    → Only other s
Only-weaken test other [] k h = tt
Only-weaken test other (c ∷ s) k h = (k c h.0, Only-weaken test other s k h.1)

not-is_true : (b : Bool) → not b ≡ true → b ≡ false
not-is_true true h = ground arith
not-is_true false h = refl

pub drop_while-past :
    (test : ℕ → Bool) (s t : List ℕ)
    → Only test s
    → Meets (λ c. not (test c)) t
    → drop_while test (s ++ t) ≡ t
unfolding drop_while
drop_while-past test [] [] h k = refl
drop_while-past test [] (c ∷ t) h k = rw (not-is_true (test c) k) refl
drop_while-past test (c ∷ s) t h k = rw h.0 (drop_while-past test s t h.1 k)

pub split_at-past :
    (test : ℕ → Bool) (s t : List ℕ)
    → Only (λ c. not (test c)) s
    → Meets test t
    → split_at test (s ++ t) ≡ (s, t)
unfolding split_at
split_at-past test [] [] h k = refl
split_at-past test [] (c ∷ t) h k = rw k refl
split_at-past test (c ∷ s) t h k =
    rw (not-is_true (test c) h.0) (ap (prepend c) (split_at-past test s t h.1 k))

scan_digits-past :
    (v : ℕ) (s t : List ℕ)
    → Only is_digit s
    → Meets (λ c. not (is_digit c)) t
    → scan_digits v (s ++ t) ≡ (digits_value v s, t)
unfolding scan_digits
scan_digits-past v [] [] h k = refl
scan_digits-past v [] (c ∷ t) h k = rw (not-is_true (is_digit c) k) refl
scan_digits-past v (c ∷ s) t h k = rw h.0 (scan_digits-past (v * 10 + (c - b'0')) s t h.1 k)

digit-IsDigit : (n : ℕ) → is_digit (b'0' + n % 10) ≡ true
digit-IsDigit n = ground arith

decimal_loop-Only :
    (f n : ℕ) (acc : List ℕ) → Only is_digit acc → Only is_digit (decimal_loop f n acc)
unfolding decimal_loop
decimal_loop-Only zero n acc h = h
decimal_loop-Only (suc f) n acc h =
    let h' : Only is_digit ((b'0' + n % 10) ∷ acc) = (digit-IsDigit n, h) in
    elim (Bool-cases (n / 10 == 0)) [
      | inl done ↦ rw done h'
      | inr more ↦ rw more (decimal_loop-Only f (n / 10) ((b'0' + n % 10) ∷ acc) h')
    ]

pub decimal-Only : (n : ℕ) → Only is_digit (decimal n)
decimal-Only n = decimal_loop-Only 20 n [] tt

decimal_loop-cons :
    (f n c : ℕ) (acc : List ℕ) → (d : ℕ) × (s : List ℕ) × (decimal_loop f n (c ∷ acc) ≡ d ∷ s)
unfolding decimal_loop
decimal_loop-cons zero n c acc = (c, acc, refl)
decimal_loop-cons (suc f) n c acc = elim (Bool-cases (n / 10 == 0)) [
  | inl done ↦ rw done (b'0' + n % 10, c ∷ acc, refl)
  | inr more ↦ rw more (decimal_loop-cons f (n / 10) (b'0' + n % 10) (c ∷ acc))
]

pub decimal-cons : (n : ℕ) → (d : ℕ) × (s : List ℕ) × (decimal n ≡ d ∷ s)
unfolding decimal_loop
decimal-cons n = elim (Bool-cases (n / 10 == 0)) [
  | inl done ↦ rw done (b'0' + n % 10, [], refl)
  | inr more ↦ rw more (decimal_loop-cons 19 (n / 10) (b'0' + n % 10) [])
]

-- A number that starts with a digit is read to its end.
scan_int-past :
    (c : ℕ) (s t : List ℕ)
    → Only is_digit (c ∷ s)
    → Meets (λ d. not (is_digit d)) t
    → scan_int ((c ∷ s) ++ t) ≡ some (pos (digits_value 0 (c ∷ s)), t)
unfolding scan_int drop_while scan_signed
scan_int-past c s t h k =
    let no_space : is_space c ≡ false = ground arith in
    let no_minus : (c == b'-') ≡ false = ground arith in
    let no_plus : (c == b'+') ≡ false = ground arith in
    rw (no_space, no_minus, no_plus, h.0)
      (ap (λ (v, rest). some (pos v, rest)) (scan_digits-past (0 + (c - b'0')) s t h.1 k))

-- A number below 10^20 that is printed with its digits is read back, if no other digit follows.
pub scan_int-decimal :
    (n : ℕ) (t : List ℕ)
    → n < 10 ^ 20
    → Meets (λ d. not (is_digit d)) t
    → scan_int (decimal n ++ t) ≡ some (pos n, t)
scan_int-decimal n t h k =
    let (c, s, e) = decimal-cons n in
    ap (λ text. scan_int (text ++ t)) e
    ∙ scan_int-past c s t (subst (Only is_digit) e (decimal-Only n)) k
    ∙ ap (λ v. some (pos v, t)) (ap (digits_value 0) (sym e) ∙ decimal_value n h)
