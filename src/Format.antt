-- ===== src/Format.antt =====
-- web/lib/format.ts. A `Date` is its time in milliseconds since the epoch.
pub mod Laws
mod Tests
use solounlucky.Prelude.{
  ℕ, ◌+◌, ◌-◌, ◌*◌, ◌/◌, ◌^◌, false, ◌||◌, not, [], ◌∷◌, ◌++◌, ◌⊎◌, inl, inr, Text, codes, length,
  take, drop, ltb, ◌==◌, if◌then◌else◌, to_string,
}
use solounlucky.Double.{scale, literal, div, mul, sub}
use solounlucky.Js.{
  Number, finite, parse_float, div_by, is_below, is_at_least, is_falsy, is_positive, to_fixed,
}

-- A whole constant of the source, as a double.
abbrev pub constant : ℕ → ℕ
constant n = literal n 1

unfoldable pub format_btc : Number → Text
format_btc sats = to_fixed 4 (div_by sats (constant 100_000_000)) ++ codes " BTC"

-- `s.slice(-n)`: the last n code units, but `slice(-0)` is all of s.
abbrev pub slice_last : ℕ → Text → Text
slice_last n s = if n == 0 then s else drop (length s - n) s

unfoldable pub truncate : Text → (front back : ℕ) → Text
truncate addr front back =
    if ltb (front + back + 1) (length addr)
    then take front addr ++ (0x2026 ∷ slice_last back addr)
    else addr

-- `Math.floor` of a quotient of whole numbers is their quotient (Double.Percent). A difference below 0
-- has a negative floor.
unfoldable pub time_ago : (now date : ℕ) → Text
time_ago now date =
    let secs = (now - date) / 1000 in
    if ltb now date
    then codes "just now"
    else if ltb secs 60
    then to_string secs ++ codes "s ago"
    else if ltb secs 3600
    then to_string (secs / 60) ++ codes "m ago"
    else if ltb secs 86_400
    then to_string (secs / 3600) ++ codes "h ago"
    else to_string (secs / 86_400) ++ codes "d ago"

unfoldable pub format_hashrate : Number → Text
format_hashrate hs =
    let scaled = λ (k : ℕ) (u : Text). to_fixed 1 (div_by hs (constant k)) ++ u in
    if is_below hs (constant 1000)
    then to_fixed 1 hs ++ codes " H/s"
    else if is_below hs (constant (10 ^ 6))
    then scaled 1000 (codes " KH/s")
    else if is_below hs (constant (10 ^ 9))
    then scaled (10 ^ 6) (codes " MH/s")
    else if is_below hs (constant (10 ^ 12))
    then scaled (10 ^ 9) (codes " GH/s")
    else if is_below hs (constant (10 ^ 15))
    then scaled (10 ^ 12) (codes " TH/s")
    else if is_below hs (constant (10 ^ 18))
    then scaled (10 ^ 15) (codes " PH/s")
    else scaled (10 ^ 18) (codes " EH/s")

-- `Math.round` of a non-negative double: halves go up.
unfoldable pub round_half_up : ℕ → ℕ
round_half_up x = (2 * x + scale) / (2 * scale)

-- For a finite, non-negative number of seconds.
unfoldable pub format_duration : ℕ → Text
format_duration seconds =
    let fixed = λ (k : ℕ). to_fixed 1 (finite false (div seconds (constant k))) in
    if ltb seconds (constant 3600)
    then codes "~" ++ (to_string (round_half_up (div seconds (constant 60))) ++ codes " minutes")
    else if ltb seconds (constant 86_400)
    then codes "~" ++ (fixed 3600 ++ codes " hours")
    else if ltb seconds (constant (86_400 * 30))
    then codes "~" ++ (fixed 86_400 ++ codes " days")
    else if ltb seconds (constant (86_400 * 365))
    then codes "~" ++ (fixed (86_400 * 30) ++ codes " months")
    else codes "~" ++ (fixed (86_400 * 365) ++ codes " years")

-- The argument is a string (`inl`) or a number.
unfoldable pub format_best_share : Text ⊎ Number → Text
format_best_share diff =
    let n : Number = elim diff [ inl s ↦ parse_float s | inr x ↦ x ] in
    let scaled = λ (k : ℕ) (u : Text). to_fixed 2 (div_by n (constant k)) ++ u in
    if is_falsy n || not (is_positive n)
    then 0x2014 ∷ []
    else if is_at_least n (constant (10 ^ 15))
    then scaled (10 ^ 15) (codes " PH")
    else if is_at_least n (constant (10 ^ 12))
    then scaled (10 ^ 12) (codes " TH")
    else if is_at_least n (constant (10 ^ 9))
    then scaled (10 ^ 9) (codes " GH")
    else if is_at_least n (constant (10 ^ 6))
    then scaled (10 ^ 6) (codes " MH")
    else if is_at_least n (constant 1000)
    then scaled 1000 (codes " KH")
    else to_fixed 0 n ++ codes " H"

-- `exp_neg x` stands for `Math.exp(-x)`, whose rounding JavaScript leaves to the implementation; it
-- does not pass 1. The arguments are whole or computed doubles that are not negative.
unfoldable pub block_probability : (exp_neg : ℕ → ℕ) (expected_seconds window_seconds : ℕ) → Text
block_probability exp_neg expected_seconds window_seconds =
    let p = sub scale (exp_neg (div window_seconds expected_seconds)) in
    if expected_seconds == 0
    then codes "0%"
    else if ltb p (literal 1 1000)
    then codes "<0.1%"
    else to_fixed 2 (finite false (mul p (constant 100))) ++ codes "%"
