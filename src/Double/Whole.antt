-- ===== src/Double/Whole.antt =====
-- The integers as numbers with a text: digits behind a sign.
use vdeplug_wirefilter.Base.{ℕ, suc, ◌<◌, ◌^◌, ◌≡◌, arith, true, not, Meets, List, [], ◌∷◌}
use vdeplug_wirefilter.Base.Int.{ℤ, pos, negsuc}
use vdeplug_wirefilter.Double.{DoubleText, IsNumber, ends_number, is_figure}
use vdeplug_wirefilter.Text.{is_digit, scan_int}
use vdeplug_wirefilter.Text.Scan.{Only-weaken, decimal-Only, decimal-cons, scan_int-decimal}
use vdeplug_wirefilter.Wire.Forward.{decimal}

abbrev pub show_ℤ : ℤ → List ℕ
show_ℤ (pos n) = decimal n
show_ℤ (negsuc n) = b'-' ∷ decimal (suc n)

instance abbrev pub ℤ_text : DoubleText ℤ
ℤ_text = record { scan = scan_int; show = show_ℤ }

digit-figure : (c : ℕ) → is_digit c ≡ true → is_figure c ≡ true
digit-figure c h = ground arith

no_digit_after : (t : List ℕ) → Meets ends_number t → Meets (λ c. not (is_digit c)) t
no_digit_after [] h = tt
no_digit_after (c ∷ t) h = ground arith

pub decimal-IsNumber : (n : ℕ) → n < 10 ^ 20 → IsNumber (decimal n) (pos n)
decimal-IsNumber n h =
    let (first, others, cons) = decimal-cons n in
    record {
      first = first;
      others = others;
      cons = cons;
      figures = Only-weaken is_digit is_figure (decimal n) digit-figure (decimal-Only n);
      reads = λ t k. scan_int-decimal n t h (no_digit_after t k);
    }
