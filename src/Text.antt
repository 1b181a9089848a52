-- ===== src/Text.antt =====
-- C strings, and what the code uses of the C library on them. A string is the list of its characters,
-- less the NUL at its end.
pub mod Scan
use Prim.Native.Char.{code}
use Prim.Native.String.{String}
use vdeplug_wirefilter.Base.{
  ℕ, zero, suc, ◌+◌, ◌-◌, ◌*◌, Bool, true, false, ◌&&◌, ◌||◌, not, if◌then◌else◌, leb, ◌==◌, Option,
  none, some, List, [], ◌∷◌,
}
use vdeplug_wirefilter.Base.Int.{ℤ, pos, ◌-ℤ◌}

abbrev pub codes : String → List ℕ
codes String.[] = []
codes (String.◌∷◌ c s) = code c ∷ codes s

-- The blanks that the parsers of the code skip: ' ', '\n' and '\t'.
abbrev pub is_blank : ℕ → Bool
is_blank c = c == b' ' || c == b'\n' || c == b'\t'

-- `isspace`
abbrev pub is_space : ℕ → Bool
is_space c = c == b' ' || leb 9 c && leb c 13

abbrev pub is_digit : ℕ → Bool
is_digit c = leb b'0' c && leb c b'9'

-- The string from its first character on that fails the test.
unfoldable pub drop_while : (ℕ → Bool) → List ℕ → List ℕ
drop_while test [] = []
drop_while test (c ∷ s) = let rest = drop_while test s in if test c then rest else c ∷ s

abbrev pub prepend : ℕ → List ℕ × List ℕ → List ℕ × List ℕ
prepend c (word, rest) = (c ∷ word, rest)

-- The characters before the first one that passes the test, and the string from that one on.
unfoldable pub split_at : (ℕ → Bool) → List ℕ → List ℕ × List ℕ
split_at test [] = ([], [])
split_at test (c ∷ s) =
    let more = prepend c (split_at test s) in if test c then ([], c ∷ s) else more

-- The digits of a number, behind those that stand for `v`.
unfoldable pub scan_digits : ℕ → List ℕ → ℕ × List ℕ
scan_digits v [] = (v, [])
scan_digits v (c ∷ s) =
    let more = scan_digits (v * 10 + (c - b'0')) s in if is_digit c then more else (v, c ∷ s)

-- A number with its sign read; `none` when no digit comes first.
unfoldable pub scan_signed : Bool → List ℕ → Option (ℤ × List ℕ)
unfolding scan_digits
scan_signed negative [] = none
scan_signed negative (c ∷ s) =
    let (v, rest) = scan_digits 0 (c ∷ s) in
    if is_digit c then some (if negative then pos 0 -ℤ pos v else pos v, rest) else none

abbrev signed : List ℕ → Option (ℤ × List ℕ)
unfolding scan_signed
signed [] = none
signed (c ∷ s) =
    if c == b'-'
    then scan_signed true s
    else if c == b'+'
    then scan_signed false s
    else scan_signed false (c ∷ s)

-- `%d` of `sscanf`: the number and the rest of the string. C leaves open what a number outside of an `int`
-- gives; here it is the number itself.
unfoldable pub scan_int : List ℕ → Option (ℤ × List ℕ)
unfolding drop_while scan_signed
scan_int s = signed (drop_while is_space s)

-- The number that has been read, and 0 when there is none.
abbrev pub scanned : Option (ℤ × List ℕ) → ℤ
scanned none = pos 0
scanned (some (v, rest)) = v

unfoldable pub atoi : List ℕ → ℤ
unfolding scan_int
atoi s = scanned (scan_int s)
