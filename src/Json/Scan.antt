-- ===== src/Json/Scan.antt =====
-- What ParseNumber reads of a number that JsonWriter wrote (src/common/json.cc).

use xgboost.Prelude.{
  ℕ, ◌+◌, ◌-◌, ◌*◌, ◌%◌, ◌^◌, ◌≤◌, ◌<◌, ◌≡◌, refl, ap, ◌∙◌, inl, inr, Bool, true, false, ◌||◌, List,
  [], ◌∷◌, ◌++◌, some, ◌==◌, leb, leb→le, if◌then◌else◌, Bool-cases, ==→eq, arith,
}
use xgboost.Charconv.Digits.{horner, IsDigit, AreDigits, Decimal, Integer}
use xgboost.Json.Value.{FloatFormat, integer}
use xgboost.Json.Number.{
  is_digit, at, read_digits, skip_digits, read_whole, read_fraction, skip_sign, read_exponent,
  finish_number, scan_number, parse_number,
}

-- The chars behind a number do not go on with it.
abbrev pub goes_on : ℕ → Bool
goes_on c = is_digit c || (c == 46) || (c == 69) || (c == 101)

abbrev pub Ends : List ℕ → Type 0
Ends rest = goes_on (at rest) ≡ false

pub digit_true : (c : ℕ) → IsDigit c → is_digit c ≡ true
digit_true c (low, high) = ground arith

horner-wrap :
    (ds : List ℕ) (x y : ℕ) → x % 2 ^ 64 ≡ y % 2 ^ 64 → horner x ds % 2 ^ 64 ≡ horner y ds % 2 ^ 64
unfolding horner
horner-wrap [] x y h = h
horner-wrap (c ∷ ds) x y h = horner-wrap ds (x * 10 + (c - 48)) (y * 10 + (c - 48)) (omega arith)

read_digits-stops :
    (i : ℕ) (rest : List ℕ) → is_digit (at rest) ≡ false → read_digits i rest ≡ (i, rest)
unfolding read_digits
read_digits-stops i [] h = refl
read_digits-stops i (c ∷ rest) h = rw (h, read_digits) refl

read_digits-horner :
    (ds rest : List ℕ) (i : ℕ)
    → AreDigits ds
    → is_digit (at rest) ≡ false
    → i < 2 ^ 64
    → read_digits i (ds ++ rest) ≡ (horner i ds % 2 ^ 64, rest)
unfolding read_digits horner
read_digits-horner [] rest i digits stop h =
    read_digits-stops i rest stop ∙ ap (λ n. (n, rest)) (omega arith)
read_digits-horner (c ∷ ds) rest i (d, digits) stop h =
    rw (digit_true c d, read_digits)
      (read_digits-horner ds rest ((i * 10 + (c - 48)) % 2 ^ 64) digits stop (omega arith)
        ∙ ap (λ n. (n, rest)) (horner-wrap ds _ _ (omega arith)))

skip_digits-stops : (rest : List ℕ) → is_digit (at rest) ≡ false → skip_digits rest ≡ rest
unfolding skip_digits
skip_digits-stops [] h = refl
skip_digits-stops (c ∷ rest) h = rw (h, skip_digits) refl

pub skip_digits-digits :
    (ds rest : List ℕ) → AreDigits ds → is_digit (at rest) ≡ false → skip_digits (ds ++ rest) ≡ rest
unfolding skip_digits
skip_digits-digits [] rest digits stop = skip_digits-stops rest stop
skip_digits-digits (c ∷ ds) rest (d, digits) stop =
    rw (digit_true c d, skip_digits) (skip_digits-digits ds rest digits stop)

-- A digit and more of them.
pub read_whole-horner :
    (c : ℕ) (ds rest : List ℕ)
    → AreDigits (c ∷ ds)
    → is_digit (at rest) ≡ false
    → read_whole ((c ∷ ds) ++ rest) ≡ (horner 0 (c ∷ ds) % 2 ^ 64, rest)
unfolding read_whole
read_whole-horner c ds rest digits stop = elim (Bool-cases (c == 48)) [
  | inl zero_first ↦
      let whole = read_digits-horner ds rest 0 digits.1 stop (omega arith) in
      let same : horner 0 ds ≡ horner 0 (c ∷ ds) =
        unfold horner in ap (λ n. horner n ds) (omega (arith, ==→eq c 48 zero_first)) in
      rw zero_first (whole ∙ ap (λ n. (n % 2 ^ 64, rest)) same)
  | inr other ↦ rw other (read_digits-horner (c ∷ ds) rest 0 digits stop (omega arith))
]

module _ {F : FloatFormat} where
  scan_number-integer :
      (beg : List ℕ) (negative : Bool) (c : ℕ) (ds rest : List ℕ)
      → AreDigits (c ∷ ds)
      → Ends rest
      → scan_number {F = F} beg negative ((c ∷ ds) ++ rest)
        ≡ some (finish_number {F = F} beg negative false (horner 0 (c ∷ ds) % 2 ^ 64) rest)
  unfolding scan_number read_fraction read_exponent
  scan_number-integer beg negative c ds rest digits ends =
      let stop : is_digit (at rest) ≡ false = ground arith in
      let no_point : (at rest == 46) ≡ false = ground arith in
      let no_exponent : ((at rest == 69) || (at rest == 101)) ≡ false = ground arith in
      rw (read_whole-horner c ds rest digits stop, no_point, no_exponent) refl

  parse_number-plain :
      (value : ℕ) (text rest : List ℕ)
      → value < 2 ^ 64
      → Decimal value text
      → Ends rest
      → parse_number {F = F} (text ++ rest) ≡ some (integer value, rest)
  unfolding parse_number finish_number skip_sign
  parse_number-plain value [] rest h decimal ends = absurd decimal.shortest
  parse_number-plain value (c ∷ ds) rest h decimal ends =
      let d : is_digit c ≡ true = digit_true c (decimal.digits.0) in
      let no_sign : ((c == 45) || (c == 43)) ≡ false = ground arith in
      let no_minus : (c == 45) ≡ false = ground arith in
      let no_n : (c == 78) ≡ false = ground arith in
      let no_i : (c == 73) ≡ false = ground arith in
      let size : horner 0 (c ∷ ds) % 2 ^ 64 ≡ value = omega (arith, decimal.value_eq) in
      let scan = scan_number-integer ((c ∷ ds) ++ rest) false c ds rest decimal.digits ends in
      rw (no_sign, no_minus, no_n, no_i) (scan ∙ rw size refl)

  parse_number-minus :
      (value : ℕ) (text rest : List ℕ)
      → 2 ^ 63 ≤ value
      → value < 2 ^ 64
      → Decimal (2 ^ 64 - value) text
      → Ends rest
      → parse_number {F = F} (45 ∷ (text ++ rest)) ≡ some (integer value, rest)
  unfolding parse_number finish_number skip_sign
  parse_number-minus value [] rest low h decimal ends = absurd decimal.shortest
  parse_number-minus value (c ∷ ds) rest low h decimal ends =
      let d : is_digit c ≡ true = digit_true c (decimal.digits.0) in
      let no_i : (c == 73) ≡ false = ground arith in
      let size : horner 0 (c ∷ ds) % 2 ^ 64 ≡ 2 ^ 64 - value = omega (arith, decimal.value_eq) in
      let back : (2 ^ 64 - (2 ^ 64 - value)) % 2 ^ 64 ≡ value = omega arith in
      let scan = scan_number-integer (45 ∷ (c ∷ ds) ++ rest) true c ds rest decimal.digits ends in
      rw no_i (scan ∙ rw (size, back) refl)

  -- The integer reader takes the shortest decimal text of an int64_t back to its bits, when no char behind it
  -- goes on with a number.
  pub parse_number-Integer :
      (value : ℕ) (text rest : List ℕ)
      → value < 2 ^ 64
      → Integer value text
      → Ends rest
      → parse_number {F = F} (text ++ rest) ≡ some (integer value, rest)
  unfolding Integer
  parse_number-Integer value text rest h spelled ends = go (leb (2 ^ 63) value) refl spelled
    where
      go :
          (b : Bool)
          → leb (2 ^ 63) value ≡ b
          → (if b
              then ((digits : List ℕ) × (text ≡ 45 ∷ digits) × Decimal (2 ^ 64 - value) digits)
              else Decimal value text)
          → parse_number {F = F} (text ++ rest) ≡ some (integer value, rest)
      go true low (digits, same, decimal) =
          ap (λ t. parse_number {F = F} (t ++ rest)) same
          ∙ parse_number-minus value digits rest (leb→le (2 ^ 63) value low) h decimal ends
      go false high decimal = parse_number-plain value text rest h decimal ends
