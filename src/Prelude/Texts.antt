-- ===== src/Prelude/Texts.antt =====
-- Go strings as lists of bytes, with the few functions of fmt, strconv and strings that the
-- program calls: decimal printing and parsing of an int64, prefixes, and equality.
use Prim.Native.Nat.{ℕ, zero, suc, ◌+◌, ◌-◌, ◌*◌, ◌/◌, ◌%◌}
use Prim.Native.Char.{code}
use Prim.Native.String.{String}
use mathlib.Core.Path.{◌≡◌, refl}
use mathlib.Core.Bool.{Bool, true, false, ◌&&◌}
use mathlib.Core.Option.{Option, none, some}
use mathlib.Core.List.{List, [], ◌∷◌, ◌++◌}
use native.Mathlib.Omega.{arith}
use heisentick_strat.Prelude.Tests.{ltb, leb, ◌==◌, if◌then◌else◌}
use heisentick_strat.Prelude.Words.{Int64, bias, int, neg}

abbrev pub Text : Type 0
Text = List ℕ

-- The bytes of an ASCII literal.
abbrev pub bytes : String → Text
bytes String.[] = []
bytes (String.◌∷◌ c s) = code c ∷ bytes s

unfoldable pub text_eq : Text → Text → Bool
text_eq [] [] = true
text_eq (a ∷ s) (b ∷ t) = a == b && text_eq s t
text_eq _ _ = false

pub text_eq_refl : (s : Text) → text_eq s s ≡ true
unfolding text_eq
text_eq_refl [] = refl
text_eq_refl (a ∷ s) = ground (arith, text_eq_refl s)

pub text_eq→eq : (s t : Text) → text_eq s t ≡ true → s ≡ t
unfolding text_eq
text_eq→eq [] [] h = refl
text_eq→eq [] (b ∷ t) h = ground arith
text_eq→eq (a ∷ s) [] h = ground arith
text_eq→eq (a ∷ s) (b ∷ t) h = ground (arith, text_eq→eq s t)

-- strings.TrimPrefix guarded by strings.HasPrefix: what follows the prefix, or none.
unfoldable pub cut_prefix : Text → Text → Option Text
cut_prefix s [] = some s
cut_prefix [] (p ∷ ps) = none
cut_prefix (a ∷ s) (p ∷ ps) = if a == p then cut_prefix s ps else none

pub cut_prefix-append : (p s : Text) → cut_prefix (p ++ s) p ≡ some s
unfolding cut_prefix
cut_prefix-append [] s = refl
cut_prefix-append (a ∷ p) s = ground (arith, cut_prefix-append p s)

-- The decimal digits of n before `rest`; 20 digits hold every number below 2^64.
print_digits : ℕ → ℕ → Text → Text
print_digits zero n rest = rest
print_digits (suc f) n rest =
    let more = print_digits f (n / 10) ((48 + n % 10) ∷ rest) in
    if ltb n 10 then (48 + n % 10) ∷ rest else more

-- strconv.FormatInt(v, 10), and %d.
unfoldable pub format_int : Int64 → Text
unfolding print_digits
format_int v =
    if ltb v bias then 45 ∷ print_digits 20 (bias - v) [] else print_digits 20 (v - bias) []

parse_digits : ℕ → Text → Option ℕ
parse_digits acc [] = some acc
parse_digits acc (c ∷ s) =
    let rest = parse_digits (acc * 10 + (c - 48)) s in if leb 48 c && leb c 57 then rest else none

-- An unsigned digit string, at least one digit.
parse_magnitude : Text → Option ℕ
parse_magnitude [] = none
parse_magnitude (c ∷ s) = parse_digits 0 (c ∷ s)

non_negative : Option ℕ → Option Int64
non_negative none = none
non_negative (some n) = if ltb n bias then some (int n) else none

negative : Option ℕ → Option Int64
negative none = none
negative (some n) = if leb n bias then some (neg n) else none

-- strconv.ParseInt(s, 10, 64): an optional sign, digits, and a value in range.
unfoldable pub parse_int : Text → Option Int64
unfolding parse_digits parse_magnitude non_negative negative
parse_int [] = none
parse_int (c ∷ s) =
    if c == 45
    then negative (parse_magnitude s)
    else if c == 43
    then non_negative (parse_magnitude s)
    else non_negative (parse_magnitude (c ∷ s))

format_negative : format_int (neg 120) ≡ bytes "-120"
unfolding format_int
format_negative = refl

parse_most_negative : parse_int (bytes "-9223372036854775808") ≡ some (neg bias)
unfolding parse_int
parse_most_negative = refl

parse_too_large : parse_int (bytes "9223372036854775808") ≡ none
unfolding parse_int
parse_too_large = refl
