-- ===== src/Console/Init.antt =====
-- `initManagement` of includes/wf_management.c, less the calls of `createManagementSocket`.
use vdeplug_wirefilter.Base.{
  ℕ, ◌+◌, ◌-◌, ◌*◌, ◌%◌, ◌^◌, ◌<◌, ◌≡◌, refl, ap, ◌∙◌, arith, Bool, true, false, ◌&&◌, ◌==◌,
  if◌then◌else◌, leb, Option, none, some, List, [], ◌∷◌,
}
use vdeplug_wirefilter.Conn.{Management}
use vdeplug_wirefilter.Text.{is_space, drop_while}

abbrev pub is_octal : ℕ → Bool
is_octal c = leb b'0' c && leb c b'7'

-- The number of octal digits, behind those that stand for `v`.
unfoldable pub scan_octals : ℕ → List ℕ → ℕ
scan_octals v [] = v
scan_octals v (c ∷ s) =
    let more = scan_octals (v * 8 + (c - b'0')) s in if is_octal c then more else v

-- An `unsigned int` with its sign read: a negative number wraps around.
abbrev pub wrapped : Bool → ℕ → ℕ
wrapped false v = v % 2 ^ 32
wrapped true v = (2 ^ 32 - v % 2 ^ 32) % 2 ^ 32

unfoldable pub octal_behind : Bool → ℕ → List ℕ → ℕ
unfolding scan_octals
octal_behind negative mode [] = mode
octal_behind negative mode (c ∷ s) =
    if is_octal c then wrapped negative (scan_octals 0 (c ∷ s)) else mode

abbrev pub octal_signed : ℕ → List ℕ → ℕ
unfolding octal_behind
octal_signed mode [] = mode
octal_signed mode (c ∷ s) =
    if c == b'-'
    then octal_behind true mode s
    else if c == b'+'
    then octal_behind false mode s
    else octal_behind false mode (c ∷ s)

-- `%o` of `sscanf`: the mode stays when no number is read.
unfoldable pub scan_mode : ℕ → List ℕ → ℕ
unfolding octal_signed drop_while
scan_mode mode s = octal_signed mode (drop_while is_space s)

-- 0700, unless the URL gives a mode.
unfoldable pub init_mode : Option (List ℕ) → ℕ
unfolding scan_mode
init_mode none = 448
init_mode (some mode_str) = scan_mode 448 mode_str

unfoldable pub init_management : Option (List ℕ) → Management → Management
unfolding init_mode
init_management mode_str m = record m { mode = init_mode mode_str; connections_count = 0 }

-- Octal digits and the number that they stand for.
abbrev octal_text : List ℕ → List ℕ
octal_text [] = []
octal_text (d ∷ ds) = (b'0' + d) ∷ octal_text ds

abbrev octal_value : ℕ → List ℕ → ℕ
octal_value v [] = v
octal_value v (d ∷ ds) = octal_value (v * 8 + d) ds

abbrev Octals : List ℕ → Type 0
Octals [] = Unit {0}
Octals (d ∷ ds) = (d < 8) × Octals ds

octal_digit : (d : ℕ) → d < 8 → is_octal (b'0' + d) ≡ true
octal_digit d h = ground arith

scan_octals_lem :
    (v : ℕ) (ds : List ℕ) → Octals ds → scan_octals v (octal_text ds) ≡ octal_value v ds
unfolding scan_octals
scan_octals_lem v [] h = refl
scan_octals_lem v (d ∷ ds) h = rw (octal_digit d h.0) (
    ap (λ x. scan_octals (v * 8 + x) (octal_text ds)) (omega arith)
    ∙ scan_octals_lem (v * 8 + d) ds h.1)

-- A mode that is given by octal digits is the number that they stand for.
init_mode-Octals :
    (d : ℕ) (ds : List ℕ)
    → d < 8
    → Octals ds
    → octal_value d ds < 2 ^ 32
    → init_mode (some (octal_text (d ∷ ds))) ≡ octal_value d ds
unfolding init_mode scan_mode octal_behind drop_while
init_mode-Octals d ds h k small =
    let space : is_space (b'0' + d) ≡ false = ground arith in
    let minus : (b'0' + d == b'-') ≡ false = ground arith in
    let plus : (b'0' + d == b'+') ≡ false = ground arith in
    rw (space, minus, plus, octal_digit d h)
      (ap (λ x. scan_octals x (octal_text ds) % 2 ^ 32) (omega arith)
        ∙ ap (λ x. x % 2 ^ 32) (scan_octals_lem d ds k)
        ∙ omega (arith, small))
