-- ===== src/Number/Laws.antt =====
-- Lemmas about decimal texts and rounding.
-- Code: sdk/typescript/src/index.ts

use Prim.Native.String
use native.Mathlib.Nat.{mul_left_comm}
use text.Mathlib.TextLemmas.{nil-append, cons-append}
use text.Mathlib.TextEquality.{eq_iff}
use pgapp.Common.{
  ℕ, zero, suc, ◌+◌, ◌*◌, ◌/◌, ◌%◌, ◌^◌, ◌≤◌, ◌<◌, ◌≡◌, ◌≢◌, refl, String, Option, none, some, ltb,
  ltb_no, leb, lt→ltb, sym, ℤ, pos, negsuc, arith, ap, ◌∙◌, Bool-cases, Option-cases, inl, inr,
}
use pgapp.Number.{
  digit, digits_from, decimal, to_string, integer_text, multiple_for, shortest_from, shortest,
  round_at, round_from, round_double, digit_value, parse_from, parse_natural, negate, number,
  IsSafe, IsInt64,
}

abbrev then_parse : Option ℕ → String → Option ℕ
then_parse none t = none
then_parse (some n) t = parse_from n t

then_parse-digit :
    (n : ℕ) (o : Option ℕ) (s t : String)
    → ((d : ℕ)
        → parse_from (n * 10 + d) (String.◌++◌ s t) ≡ then_parse (parse_from (n * 10 + d) s) t)
    → (elim o [ none ↦ none | some d ↦ parse_from (n * 10 + d) (String.◌++◌ s t) ])
      ≡ then_parse (elim o [ none ↦ none | some d ↦ parse_from (n * 10 + d) s ]) t
then_parse-digit n none s t h = refl
then_parse-digit n (some d) s t h = h d

parse_from-append :
    (n : ℕ) (s t : String) → parse_from n (String.◌++◌ s t) ≡ then_parse (parse_from n s) t
unfolding parse_from
parse_from-append n String.[] t = rw nil-append
parse_from-append n (String.◌∷◌ c s) t =
    rw cons-append
      (then_parse-digit n (digit_value c) s t (λ d. parse_from-append (n * 10 + d) s t))

parse_from-digit : (n d : ℕ) → d < 10 → parse_from n (digit d) ≡ some (n * 10 + d)
unfolding parse_from digit digit_value
parse_from-digit n zero h = refl
parse_from-digit n (suc zero) h = refl
parse_from-digit n (suc (suc zero)) h = refl
parse_from-digit n (suc (suc (suc zero))) h = refl
parse_from-digit n (suc (suc (suc (suc zero)))) h = refl
parse_from-digit n (suc (suc (suc (suc (suc zero))))) h = refl
parse_from-digit n (suc (suc (suc (suc (suc (suc zero)))))) h = refl
parse_from-digit n (suc (suc (suc (suc (suc (suc (suc zero))))))) h = refl
parse_from-digit n (suc (suc (suc (suc (suc (suc (suc (suc zero)))))))) h = refl
parse_from-digit n (suc (suc (suc (suc (suc (suc (suc (suc (suc zero))))))))) h = refl
parse_from-digit n (suc (suc (suc (suc (suc (suc (suc (suc (suc (suc k)))))))))) h =
    absurd (omega arith)

parse_from-digits_from : (f n : ℕ) → n ≤ f → parse_from 0 (digits_from (suc f) n) ≡ some n
unfolding digits_from
parse_from-digits_from zero zero h = unfold digit parse_from digit_value in refl
parse_from-digits_from zero (suc n) h = absurd (omega arith)
parse_from-digits_from (suc f) n h = elim (Bool-cases (ltb n 10)) [
  | inl small ↦ rw small (parse_from-digit 0 n (ground arith) ∙ ap some (omega arith))
  | inr large ↦
      rw (large, parse_from-append 0 (digits_from (suc f) (n / 10)) (digit (n % 10)))
        (rw
          (
            parse_from-digits_from f (n / 10) (ground arith),
            parse_from-digit (n / 10) (n % 10) (omega arith),
          )
          (ap some (omega arith)))
]

parse_natural-decimal : (n : ℕ) → parse_natural (decimal n) ≡ some n
unfolding parse_natural decimal
parse_natural-decimal n = parse_from-digits_from n n (omega arith)

decimal-ne-nil : (n : ℕ) → decimal (suc n) ≢ ""
decimal-ne-nil n e =
    let zero_read : parse_natural "" ≡ some 0 = unfold parse_natural parse_from in refl in
    ground (arith, zero_read, parse_natural-decimal (suc n), e)

-- Up to 2^53 every integer is a number.
round_exact : (f n : ℕ) → n ≤ 2 ^ 53 → round_from (suc (suc f)) 1 n ≡ n
unfolding round_from round_at
round_exact f n h = ground arith

round_double_exact : (n : ℕ) → n ≤ 2 ^ 53 → round_double n ≡ n
unfolding round_double
round_double_exact n h = round_exact 62 n h

number-eq_of_natural :
    (s : String) (n : ℕ) → parse_natural s ≡ some n → number s ≡ some (pos (round_double n))
unfolding number
number-eq_of_natural s n e = ground arith

number-eq_of_negative :
    (s : String) (n : ℕ)
    → parse_natural s ≡ some n
    → s ≢ ""
    → number (String.◌∷◌ "-" s) ≡ some (negate (round_double n))
unfolding number
number-eq_of_negative s n e nonempty = ground (arith, eq_iff s "")

-- `Number` reads the digits of an integer between -2^53 and 2^53 as that integer.
pub number-integer_text : (z : ℤ) → IsSafe z → number (integer_text z) ≡ some z
number-integer_text (pos n) h =
    unfold integer_text in
    rw (← ap (λ (k : ℕ). some (pos k)) (round_double_exact n h))
      (number-eq_of_natural (decimal n) n (parse_natural-decimal n))
number-integer_text (negsuc n) h =
    unfold integer_text in
    number-eq_of_negative (decimal (suc n)) (suc n) (parse_natural-decimal (suc n))
      (decimal-ne-nil n)
    ∙ ap (λ (k : ℕ). some (negate k)) (round_double_exact (suc n) h)

shortest-small : (n : ℕ) → n ≤ 2 ^ 53 → shortest n ≡ n
unfolding shortest
shortest-small n h = elim (Bool-cases (leb n (2 ^ 53))) [
  | inl e ↦ rw e refl
  | inr e ↦ absurd (ground arith)
]

pub safe-to_string : (z : ℤ) → IsSafe z → to_string z ≡ integer_text z
unfolding to_string integer_text
safe-to_string (pos n) h = ap decimal (shortest-small n h)
safe-to_string (negsuc n) h = ap (λ k. String.◌∷◌ "-" (decimal k)) (shortest-small (suc n) h)

pub safe-IsInt64 : (z : ℤ) → IsSafe z → IsInt64 (to_string z)
safe-IsInt64 (pos n) h = record {
  integer = pos n;
  fits = omega arith;
  shown = safe-to_string (pos n) h;
}
safe-IsInt64 (negsuc n) h = record {
  integer = negsuc n;
  fits = omega arith;
  shown = safe-to_string (negsuc n) h;
}

round_from-wider :
    (f unit n : ℕ) → 2 ^ 53 * unit ≤ n → round_from (suc f) unit n ≡ round_from f (2 * unit) n
unfolding round_from
round_from-wider f unit n h = rw (ltb_no n (2 ^ 53 * unit) h) refl

round_from-here : (f unit n : ℕ) → n < 2 ^ 53 * unit → round_from (suc f) unit n ≡ round_at unit n
unfolding round_from
round_from-here f unit n h = rw (lt→ltb n (2 ^ 53 * unit) h) refl

round_at-2 : (n : ℕ) → n % 2 ≡ 1 → round_at 2 n % 2 ≡ 0
unfolding round_at
round_at-2 n odd = ground arith

round_double_odd : (n : ℕ) → 2 ^ 53 < n → n < 2 ^ 54 → n % 2 ≡ 1 → round_double n % 2 ≡ 0
unfolding round_double
round_double_odd n low high odd =
    ap (λ (k : ℕ). k % 2)
      (round_from-wider 63 1 n (omega arith) ∙ round_from-here 62 2 n (omega arith))
    ∙ round_at-2 n odd

-- `Number` makes an even number of the text of an odd number between 2^53 and 2^54.
pub number-odd :
    (n : ℕ)
    → 2 ^ 53 < n
    → n < 2 ^ 54
    → n % 2 ≡ 1
    → (m : ℕ) × (number (integer_text (pos n)) ≡ some (pos m)) × (m % 2 ≡ 0)
unfolding integer_text
number-odd n low high odd = (
  round_double n,
  number-eq_of_natural (decimal n) n (parse_natural-decimal n),
  round_double_odd n low high odd,
)

-- Numbers with the same text are equal.
pub decimal-injective : (m n : ℕ) → decimal m ≡ decimal n → m ≡ n
decimal-injective m n e =
    let same : some m ≡ some n =
      sym (parse_natural-decimal m) ∙ (ap parse_natural e ∙ parse_natural-decimal n) in
    cc

doubled : (u : ℕ) → u * 10 ≡ 2 * (u * 5)
doubled u = omega arith

times-even : (q u : ℕ) → (q * (u * 10)) % 2 ≡ 0
times-even q u =
    let regroup : q * (u * 10) ≡ 2 * (q * (u * 5)) =
      ap (λ (x : ℕ). q * x) (doubled u) ∙ mul_left_comm q 2 (u * 5) in
    omega (arith, regroup)

multiple_for-even : (u n m : ℕ) → multiple_for (u * 10) n ≡ some m → m % 2 ≡ 0
unfolding multiple_for
multiple_for-even u n m e = ground (arith, e, times-even (n / (u * 10)) u, doubled u)

shortest_from-even : (k n : ℕ) → n % 2 ≡ 0 → shortest_from k n % 2 ≡ 0
unfolding shortest_from
shortest_from-even zero n h = h
shortest_from-even (suc k) n h = elim (Option-cases (multiple_for (10 ^ k * 10) n)) [
  | inl e ↦ rw (e, shortest_from) (shortest_from-even k n h)
  | inr (m, e) ↦ rw (e, shortest_from) (multiple_for-even (10 ^ k) n m e)
]

-- The digits that are written for an even number are those of an even number.
pub shortest-even : (n : ℕ) → n % 2 ≡ 0 → shortest n % 2 ≡ 0
unfolding shortest
shortest-even n h = elim (Bool-cases (leb n (2 ^ 53))) [
  | inl e ↦ rw e h
  | inr e ↦ rw e (shortest_from-even 20 n h)
]
