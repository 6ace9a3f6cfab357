-- ===== src/Js.antt =====
-- What the web application uses of JavaScript's numbers: `parseInt`, `parseFloat`, `toFixed`,
-- comparison and division by a positive constant. Doubles are those of Double.antt; -0 is
-- `finite true 0`.
pub mod Roundtrip
use solounlucky.Prelude.{
  ℕ, zero, suc, ◌+◌, ◌-◌, ◌*◌, ◌/◌, ◌%◌, ◌^◌, Bool, true, false, not, ◌&&◌, ◌||◌, List, [], ◌∷◌,
  ◌++◌, Text, codes, length, replicate, ltb, leb, ◌==◌, if◌then◌else◌, to_string,
}
use solounlucky.Double.{scale, round, div}

pub data Number : Type 0 where
  nan : Number
  infinite : (negative : Bool) → Number
  finite : (negative : Bool) (units : ℕ) → Number

unfoldable pub whole : ℕ → Number
whole n = finite false (round (n * scale) 1)

-- The white space and line terminators that are skipped at the start.
abbrev pub is_space : ℕ → Bool
is_space c =
    (leb 9 c && leb c 13)
    || c == 32
    || c == 0xa0
    || c == 0x1680
    || (leb 0x2000 c && leb c 0x200a)
    || c == 0x2028
    || c == 0x2029
    || c == 0x202f
    || c == 0x205f
    || c == 0x3000
    || c == 0xfeff

abbrev pub is_digit : ℕ → Bool
is_digit c = leb b'0' c && leb c b'9'

unfoldable pub skip_space : Text → Text
skip_space [] = []
skip_space (c ∷ s) = let rest = skip_space s in if is_space c then rest else c ∷ s

unfoldable pub sign_of : Text → Bool × Text
sign_of [] = (false, [])
sign_of (c ∷ s) = if c == b'-' then (true, s) else if c == b'+' then (false, s) else (false, c ∷ s)

-- The value and the number of the leading digits, after those already read, and the rest.
unfoldable pub scan_digits : Text → (value count : ℕ) → ℕ × ℕ × Text
scan_digits [] value count = (value, count, [])
scan_digits (c ∷ s) value count =
    let more = scan_digits s (value * 10 + (c - b'0')) (count + 1) in
    if is_digit c then more else (value, count, c ∷ s)

-- `parseInt(s, 10)`
unfoldable pub parse_int : Text → Number
parse_int s =
    let (negative, digits) = sign_of (skip_space s) in
    let (value, count, rest) = scan_digits digits 0 0 in
    if count == 0 then nan else finite negative (round (value * scale) 1)

-- `Number(s)` of a text that is empty or decimal digits, as a URL's port and a BIGINT's text are.
abbrev pub number_of_digits : Text → Number
number_of_digits [] = finite false 0
number_of_digits (c ∷ s) = parse_int (c ∷ s)

-- The exponent part, if there is one: its sign and value.
unfoldable pub exponent : Text → Bool × ℕ
exponent [] = (false, 0)
exponent (c ∷ s) =
    let (negative, digits) = sign_of s in
    let (value, count, rest) = scan_digits digits 0 0 in
    if (c == b'e' || c == b'E') && not (count == 0) then (negative, value) else (false, 0)

abbrev pub fraction : Text → ℕ → ℕ → ℕ × ℕ × Text
fraction [] value count = (value, count, [])
fraction (c ∷ s) value count =
    if c == b'.' then scan_digits s value count else (value, count, c ∷ s)

unfoldable pub has_prefix : Text → Text → Bool
has_prefix [] s = true
has_prefix (c ∷ p) [] = false
has_prefix (c ∷ p) (d ∷ s) = (c == d) && has_prefix p s

-- `parseFloat(s)`
unfoldable pub parse_float : Text → Number
parse_float s =
    let (negative, body) = sign_of (skip_space s) in
    let (whole_part, whole_count, after) = scan_digits body 0 0 in
    let (value, count, rest) = fraction after whole_part whole_count in
    let (down, power) = exponent rest in
    let places = count - whole_count in
    if has_prefix (codes "Infinity") body
    then infinite negative
    else if count == 0
    then nan
    else if down
    then finite negative (round (value * scale) (10 ^ (places + power)))
    else finite negative (round (value * scale * 10 ^ power) (10 ^ places))

-- x / d for a positive double d.
unfoldable pub div_by : Number → ℕ → Number
div_by nan d = nan
div_by (infinite negative) d = infinite negative
div_by (finite negative x) d = finite negative (div x d)

-- x < d and x >= d for a positive double d. All comparisons with NaN are false.
unfoldable pub is_below : Number → ℕ → Bool
is_below nan d = false
is_below (infinite negative) d = negative
is_below (finite negative x) d = negative || ltb x d

unfoldable pub is_at_least : Number → ℕ → Bool
is_at_least nan d = false
is_at_least (infinite negative) d = not negative
is_at_least (finite negative x) d = not negative && leb d x

-- `x > 0`, and `!x`: NaN and zero are falsy.
unfoldable pub is_positive : Number → Bool
is_positive nan = false
is_positive (infinite negative) = not negative
is_positive (finite negative x) = not negative && not (x == 0)

unfoldable pub is_falsy : Number → Bool
is_falsy nan = true
is_falsy (infinite negative) = false
is_falsy (finite negative x) = x == 0

-- The digits of n, with zeros in front up to the given length.
unfoldable pub padded : ℕ → ℕ → Text
padded places n = let s = to_string n in replicate (places - length s) b'0' ++ s

-- The whole number nearest to x * 10 ^ places; a tie goes up.
unfoldable pub fixed_units : ℕ → ℕ → ℕ
fixed_units places x = (2 * x * 10 ^ places + scale) / (2 * scale)

unfoldable pub fixed_text : ℕ → ℕ → Text
fixed_text zero n = to_string n
fixed_text (suc p) n = to_string (n / 10 ^ suc p) ++ (b'.' ∷ padded (suc p) (n % 10 ^ suc p))

-- `x.toFixed(places)`, for numbers below 10^21; from there on JavaScript prints an exponent.
unfoldable pub to_fixed : ℕ → Number → Text
to_fixed places nan = codes "NaN"
to_fixed places (infinite true) = codes "-Infinity"
to_fixed places (infinite false) = codes "Infinity"
to_fixed places (finite negative x) =
    let shown = fixed_text places (fixed_units places x) in
    if negative && not (x == 0) then b'-' ∷ shown else shown

-- What a test by evaluation unfolds.
unfoldable pub numbers : Unit {0}
unfolding to_string whole skip_space sign_of scan_digits parse_int exponent has_prefix parse_float
    div_by is_below is_at_least is_positive is_falsy padded fixed_units fixed_text to_fixed
numbers = tt
