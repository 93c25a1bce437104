-- ===== src/Json/Number.antt =====
-- ParseNumber of src/common/json.cc. Its pointer `p` is the chars behind it, `*p` at the end the 0 that ends
-- the input's array, and its int64_t the number below 2 ^ 64 with its bits.
use xgboost.Prelude.{
  ℕ, ◌+◌, ◌-◌, ◌*◌, ◌%◌, ◌^◌, Bool, true, false, ◌&&◌, ◌||◌, List, [], ◌∷◌, Option, none, some,
  ◌==◌, leb, if◌then◌else◌, take, drop, length, get_or,
}
use xgboost.Prelude.Check.{◌>>=◌}
use xgboost.Json.Value.{FloatFormat, Json, number, integer}
use xgboost.Json.Cursor.{get_consecutive_chars}

abbrev pub is_digit : ℕ → Bool
is_digit c = leb 48 c && leb c 57

abbrev pub at : List ℕ → ℕ
at p = get_or p 0 0

-- `i` and `p` behind a loop over digits.
unfoldable pub read_digits : ℕ → List ℕ → ℕ × List ℕ
read_digits i [] = (i, [])
read_digits i (c ∷ p) = elim (is_digit c) [
  | true ↦ read_digits ((i * 10 + (c - 48)) % 2 ^ 64) p
  | false ↦ (i, c ∷ p)
]

unfoldable pub skip_digits : List ℕ → List ℕ
skip_digits [] = []
skip_digits (c ∷ p) = elim (is_digit c) [ true ↦ skip_digits p | false ↦ c ∷ p ]

-- The integer part: a 0 that leads and the digits.
unfoldable pub read_whole : List ℕ → ℕ × List ℕ
read_whole p = if at p == 48 then read_digits 0 (drop 1 p) else read_digits 0 p

-- The point with its digits, and whether it is there.
unfoldable pub read_fraction : List ℕ → Bool × List ℕ
read_fraction p = if at p == 46 then (true, skip_digits (drop 1 p)) else (false, p)

unfoldable pub skip_sign : List ℕ → List ℕ
skip_sign p = if (at p == 45) || (at p == 43) then drop 1 p else p

-- The exponent, and whether it is there.
unfoldable pub read_exponent : List ℕ → Option (Bool × List ℕ)
read_exponent p =
    let behind = skip_sign (drop 1 p) in
    if (at p == 69) || (at p == 101)
    then (if is_digit (at behind) then some (true, skip_digits behind) else none)
    else some (false, p)

module _ {F : FloatFormat} where
  -- The end of ParseNumber: from_chars reads from `beg` up to `p`, strtof as far as it goes.
  unfoldable pub finish_number : List ℕ → Bool → Bool → ℕ → List ℕ → Json F × List ℕ
  finish_number beg negative is_float i p =
      if is_float
      then elim (F.scan_float (take (length beg - length p) beg)) [
        | some f ↦ (number f, p)
        | none ↦ (number (F.strtof beg), p)
      ]
      else (integer (if negative then (2 ^ 64 - i) % 2 ^ 64 else i), p)

  -- The digits behind the point go on in `i`, which a float does not use.
  unfoldable pub scan_number : List ℕ → Bool → List ℕ → Option (Json F × List ℕ)
  scan_number beg negative p =
      let whole = read_whole p in
      let fraction = read_fraction whole.1 in
      read_exponent fraction.1 >>= λ exponent.
      some (finish_number beg negative (fraction.0 || exponent.0) whole.0 exponent.1)

  unfoldable pub parse_number : List ℕ → Option (Json F × List ℕ)
  parse_number beg =
      let negative = at beg == 45 in
      let p = skip_sign beg in
      if at beg == 78
      then get_consecutive_chars (78 ∷ 97 ∷ 78 ∷ []) beg
        >>= (λ rest. some (number F.quiet_nan, rest))
      else if at p == 73
      then get_consecutive_chars (73 ∷ 110 ∷ 102 ∷ 105 ∷ 110 ∷ 105 ∷ 116 ∷ 121 ∷ []) p
        >>= (λ rest. some (number (if negative then F.opposite F.infinity else F.infinity), rest))
      else scan_number beg negative p
