-- ===== src/Number.antt =====
-- JavaScript's integer numbers and their decimal texts.
-- Code: the calls `String(n)` and `Number(s)` of sdk/typescript/src/index.ts, and the decimal
-- strings that stand for 64-bit integers in sdk/typescript/src/gen/pgapp/v1.
-- A number is an integer; `Number` rounds to the 53 bits of a double, to nearest, ties to even.
-- Fractions, infinities, negative zero and the exponents of numbers from 10^21 on are left out: an
-- argument of `to_string` is an integer below 10^21 that is a double, as every number is.
pub mod Laws
use Prim.Native.Char.{Char, code}
use Prim.Native.String
use text.Mathlib.Text.{◌==◌ as str_eq}
use pgapp.Common.{
  ℕ, zero, suc, ◌+◌, ◌-◌, ◌*◌, ◌/◌, ◌%◌, ◌^◌, ◌≤◌, ◌<◌, ◌≡◌, String, Bool, Option, none, some, ltb,
  leb, ◌==◌, if◌then◌else◌, ◌&&◌, ◌||◌, not, ℤ, pos, negsuc,
}

digit : ℕ → String
digit d =
    if d == 0
    then "0"
    else if d == 1
    then "1"
    else if d == 2
    then "2"
    else if d == 3
    then "3"
    else if d == 4
    then "4"
    else if d == 5
    then "5"
    else if d == 6
    then "6"
    else if d == 7
    then "7"
    else if d == 8
    then "8"
    else "9"

-- The digits of `n`, on fuel above the number of digits.
digits_from : ℕ → ℕ → String
digits_from zero n = ""
digits_from (suc f) n =
    let higher = digits_from f (n / 10) in
    if ltb n 10 then digit n else String.◌++◌ higher (digit (n % 10))

unfoldable pub decimal : ℕ → String
unfolding digits_from digit
decimal n = digits_from (suc n) n

-- The digits of an integer, all of them: `toString()` of a `bigint`.
unfoldable pub integer_text : ℤ → String
unfolding decimal
integer_text (pos n) = decimal n
integer_text (negsuc n) = String.◌∷◌ "-" (decimal (suc n))

-- A double has 53 bits: from 2^53 on only multiples of a power of two are numbers.
round_at : ℕ → ℕ → ℕ
round_at unit n =
    let low = n / unit * unit in
    let twice = 2 * (n % unit) in
    if ltb twice unit || (twice == unit && n / unit % 2 == 0) then low else low + unit

round_from : ℕ → ℕ → ℕ → ℕ
round_from zero unit n = round_at unit n
round_from (suc f) unit n =
    let wider = round_from f (2 * unit) n in
    if ltb n (2 ^ 53 * unit) then round_at unit n else wider

-- The double nearest to `n`, for `n` below 2^117.
unfoldable pub round_double : ℕ → ℕ
unfolding round_at round_from
round_double n = round_from 64 1 n

-- The one of two neighbouring multiples of a unit, `low` and `low + unit`, that stands for the double
-- `n`: one that rounds to `n`, the closer one if both do, the one with the even digit if they are as
-- close. `none` if neither rounds to `n`.
multiple_for : ℕ → ℕ → Option ℕ
multiple_for unit n =
    let low = n / unit * unit in
    let high = n / unit * unit + unit in
    let twice = 2 * (n % unit) in
    let low_is_closer = ltb twice unit || (twice == unit && n / unit % 2 == 0) in
    let low_fits = round_double low == n in
    if round_double high == n
    then (if low_fits && low_is_closer then some low else some high)
    else if low_fits
    then some low
    else none

-- The shortest digits that stand for the double `n`, from multiples of `10 ^ k` downwards.
shortest_from : ℕ → ℕ → ℕ
shortest_from zero n = n
shortest_from (suc k) n =
    let longer = shortest_from k n in
    elim (multiple_for (10 ^ k * 10) n) [ none ↦ longer | some m ↦ m ]

-- `String(n)` writes the fewest digits that are read as `n` again, and zeros behind them: above 2^53
-- not all digits of `n`, in general.
unfoldable pub shortest : ℕ → ℕ
unfolding multiple_for shortest_from
shortest n = if leb n (2 ^ 53) then n else shortest_from 20 n

-- `String(n)`.
unfoldable pub to_string : ℤ → String
unfolding decimal shortest
to_string (pos n) = decimal (shortest n)
to_string (negsuc n) = String.◌∷◌ "-" (decimal (shortest (suc n)))

digit_value : Char → Option ℕ
digit_value c = if leb b'0' (code c) && leb (code c) b'9' then some (code c - b'0') else none

parse_from : ℕ → String → Option ℕ
parse_from n String.[] = some n
parse_from n (String.◌∷◌ c s) = elim (digit_value c) [
  | none ↦ none
  | some d ↦ parse_from (n * 10 + d) s
]

-- `Number("")` is 0.
parse_natural : String → Option ℕ
parse_natural s = parse_from 0 s

abbrev negate : ℕ → ℤ
negate zero = pos 0
negate (suc n) = negsuc n

parse_negative : String → Option ℤ
parse_negative String.[] = none
parse_negative (String.◌∷◌ c s) = elim (parse_natural s) [
  | none ↦ none
  | some n ↦ if code c == b'-' && not (str_eq s "") then some (negate (round_double n)) else none
]

-- `Number(s)` of a decimal text; `none` is any other result.
unfoldable pub number : String → Option ℤ
unfolding parse_natural parse_from parse_negative digit_value round_double
number s = elim (parse_natural s) [ none ↦ parse_negative s | some n ↦ some (pos (round_double n)) ]

-- The integers from -2^53 to 2^53.
abbrev pub IsSafe : ℤ → Type 0
IsSafe (pos n) = n ≤ 2 ^ 53
IsSafe (negsuc n) = n < 2 ^ 53

abbrev pub InInt64 : ℤ → Type 0
InInt64 (pos n) = n < 2 ^ 63
InInt64 (negsuc n) = n < 2 ^ 63

-- The canonical text of a 64-bit integer.
pub record IsInt64 (s : String) : Type 0 where
  pub integer : ℤ
  pub fits : InInt64 integer
  pub shown : s ≡ integer_text integer

pub record IsUint64 (s : String) : Type 0 where
  pub integer : ℕ
  pub fits : integer < 2 ^ 64
  pub shown : s ≡ decimal integer
