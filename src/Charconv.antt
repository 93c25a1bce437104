-- ===== src/Charconv.antt =====
-- The decimal printing of integers in src/common/charconv.h and src/common/charconv.cc. A char is its
-- code, an int64_t the number below 2 ^ 64 with its bits, the output array a list that a pointer
-- `first` into it is an index of.
pub mod Digits
pub mod Lut
pub mod Buffer
pub mod Itoa
mod Tests
use xgboost.Prelude.{
  ℕ, zero, suc, ◌+◌, ◌-◌, ◌*◌, ◌/◌, ◌%◌, ◌^◌, Bool, true, false, List, [], ◌∷◌, ◌==◌, ltb, leb,
  if◌then◌else◌, length, get_or, set,
}

-- Tens(0) does not end in the source; nothing calls it.
unfoldable pub tens : ℕ → ℕ
tens zero = 0
tens (suc zero) = 10
tens (suc (suc n)) = tens (suc n) * 10

abbrev pub itoa_lut : List ℕ
itoa_lut =
    48 ∷ 48 ∷ 48 ∷ 49 ∷ 48 ∷ 50 ∷ 48 ∷ 51 ∷ 48 ∷ 52 ∷ 48 ∷ 53 ∷ 48 ∷ 54 ∷ 48 ∷ 55 ∷ 48 ∷ 56 ∷ 48
    ∷ 57 ∷ 49 ∷ 48 ∷ 49 ∷ 49 ∷ 49 ∷ 50 ∷ 49 ∷ 51 ∷ 49 ∷ 52 ∷ 49 ∷ 53 ∷ 49 ∷ 54 ∷ 49 ∷ 55 ∷ 49 ∷ 56
    ∷ 49 ∷ 57 ∷ 50 ∷ 48 ∷ 50 ∷ 49 ∷ 50 ∷ 50 ∷ 50 ∷ 51 ∷ 50 ∷ 52 ∷ 50 ∷ 53 ∷ 50 ∷ 54 ∷ 50 ∷ 55 ∷ 50
    ∷ 56 ∷ 50 ∷ 57 ∷ 51 ∷ 48 ∷ 51 ∷ 49 ∷ 51 ∷ 50 ∷ 51 ∷ 51 ∷ 51 ∷ 52 ∷ 51 ∷ 53 ∷ 51 ∷ 54 ∷ 51 ∷ 55
    ∷ 51 ∷ 56 ∷ 51 ∷ 57 ∷ 52 ∷ 48 ∷ 52 ∷ 49 ∷ 52 ∷ 50 ∷ 52 ∷ 51 ∷ 52 ∷ 52 ∷ 52 ∷ 53 ∷ 52 ∷ 54 ∷ 52
    ∷ 55 ∷ 52 ∷ 56 ∷ 52 ∷ 57 ∷ 53 ∷ 48 ∷ 53 ∷ 49 ∷ 53 ∷ 50 ∷ 53 ∷ 51 ∷ 53 ∷ 52 ∷ 53 ∷ 53 ∷ 53 ∷ 54
    ∷ 53 ∷ 55 ∷ 53 ∷ 56 ∷ 53 ∷ 57 ∷ 54 ∷ 48 ∷ 54 ∷ 49 ∷ 54 ∷ 50 ∷ 54 ∷ 51 ∷ 54 ∷ 52 ∷ 54 ∷ 53 ∷ 54
    ∷ 54 ∷ 54 ∷ 55 ∷ 54 ∷ 56 ∷ 54 ∷ 57 ∷ 55 ∷ 48 ∷ 55 ∷ 49 ∷ 55 ∷ 50 ∷ 55 ∷ 51 ∷ 55 ∷ 52 ∷ 55 ∷ 53
    ∷ 55 ∷ 54 ∷ 55 ∷ 55 ∷ 55 ∷ 56 ∷ 55 ∷ 57 ∷ 56 ∷ 48 ∷ 56 ∷ 49 ∷ 56 ∷ 50 ∷ 56 ∷ 51 ∷ 56 ∷ 52 ∷ 56
    ∷ 53 ∷ 56 ∷ 54 ∷ 56 ∷ 55 ∷ 56 ∷ 56 ∷ 56 ∷ 57 ∷ 57 ∷ 48 ∷ 57 ∷ 49 ∷ 57 ∷ 50 ∷ 57 ∷ 51 ∷ 57 ∷ 52
    ∷ 57 ∷ 53 ∷ 57 ∷ 54 ∷ 57 ∷ 55 ∷ 57 ∷ 56 ∷ 57 ∷ 57 ∷ []

-- ItoaUnsignedImpl behind its loop.
unfoldable pub put_last : ℕ → List ℕ → ℕ → List ℕ
put_last first out value =
    if leb 10 value
    then set (set out first (get_or itoa_lut (value * 2) 0)) (first + 1)
        (get_or itoa_lut (value * 2 + 1) 0)
    else set out first (48 + value)

-- ItoaUnsignedImpl from its loop on, in `rounds` rounds at most; `position` is a uint32_t.
unfoldable pub itoa_loop : ℕ → ℕ → List ℕ → ℕ → ℕ → List ℕ
itoa_loop zero first out position value = put_last first out value
itoa_loop (suc rounds) first out position value =
    let num = value % tens 2 * 2 in
    let wide = set out (first + position) (get_or itoa_lut (num + 1) 0) in
    let out' = set wide (first + (position - 1)) (get_or itoa_lut num 0) in
    let rest = itoa_loop rounds first out' ((position + (2 ^ 32 - 2)) % 2 ^ 32) (value / tens 2) in
    if leb (tens 2) value then rest else put_last first out value

-- A round divides by 100, and behind nine of them a number below 2 ^ 64 is below 100. A length of 0 is
-- never given.
unfoldable pub itoa_unsigned_impl : ℕ → List ℕ → ℕ → ℕ → List ℕ
itoa_unsigned_impl first out length value = itoa_loop 9 first out (length - 1) value

unfoldable pub shortest_digit10_impl : ℕ → ℕ → ℕ → ℕ
shortest_digit10_impl zero value n = n
shortest_digit10_impl (suc rounds) value n =
    let rest = shortest_digit10_impl rounds (value / tens 4) (n + 4) in
    if ltb value 10
    then n
    else if ltb value (tens 2)
    then n + 1
    else if ltb value (tens 3)
    then n + 2
    else if ltb value (tens 4)
    then n + 3
    else rest

-- A round divides by 10000, and 10000 ^ 5 is above 2 ^ 64.
unfoldable pub shortest_digit10 : ℕ → ℕ
shortest_digit10 value = shortest_digit10_impl 5 value 1

pub data Errc : Type 0 where
  ok value_too_large : Errc

-- to_chars_result, with the array it was written to.
pub record ToCharsResult : Type 0 where
  pub out : List ℕ
  pub ptr : ℕ
  pub ec : Errc

-- `last` is the end of the array.
unfoldable pub to_chars_unsigned_impl : List ℕ → ℕ → ℕ → ToCharsResult
to_chars_unsigned_impl out first value =
    let output_len = shortest_digit10 value in
    if first == length out
    then record { out = out; ptr = length out; ec = value_too_large }
    else record {
      out = itoa_unsigned_impl first out output_len value;
      ptr = first + output_len;
      ec = ok;
    }

-- to_chars of an int64_t. The complement of the bits and one more is the opposite.
unfoldable pub to_chars : List ℕ → ℕ → ToCharsResult
to_chars out value =
    if length out == 0
    then record { out = out; ptr = 0; ec = value_too_large }
    else if value == 0
    then record { out = set out 0 48; ptr = 1; ec = ok }
    else if leb (2 ^ 63) value
    then to_chars_unsigned_impl (set out 0 45) 1 (((2 ^ 64 - 1 - value) + 1) % 2 ^ 64)
    else to_chars_unsigned_impl out 0 value

-- NumericLimits<int64_t>::kToCharsSize
abbrev pub to_chars_size : ℕ
to_chars_size = 18 + 3
