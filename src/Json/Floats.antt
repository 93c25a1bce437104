-- ===== src/Json/Floats.antt =====
-- What ParseNumber reads of a float that JsonWriter wrote (src/common/json.cc).
use mathlib.Core.List.{append_assoc}
use xgboost.Prelude.{
  ℕ, ◌-◌, ◌%◌, ◌^◌, ◌≡◌, refl, sym, ap, ◌∙◌, Bool, true, false, ◌||◌, List, [], ◌∷◌, ◌++◌, Option,
  none, some, ◌==◌, if◌then◌else◌, take, length, length-append, arith,
}
use xgboost.Charconv.Digits.{horner, AreDigits}
use xgboost.Charconv.Buffer.{take-append}
use xgboost.Json.Value.{FloatFormat, number}
use xgboost.Json.Number.{
  is_digit, at, read_fraction, skip_sign, read_exponent, finish_number, scan_number, parse_number,
}
use xgboost.Json.Cursor.{get_consecutive_chars, get_consecutive_char, get_next_char}
use xgboost.Json.Scan.{Ends, digit_true, skip_digits-digits, read_whole-horner}

abbrev pub sign_text : Bool → List ℕ
sign_text minus = if minus then 45 ∷ [] else []

-- The point and its digits, where there are any.
abbrev pub fraction_text : Option (List ℕ) → List ℕ
fraction_text none = []
fraction_text (some ds) = 46 ∷ ds

abbrev pub FractionDigits : Option (List ℕ) → Type 0
FractionDigits none = Unit
FractionDigits (some ds) = AreDigits ds

-- The chars of a float in the scientific notation of Ryu, [-]d[.ddd]E[-]dd, in which the exponent is never left out.
pub record Scientific : Type 0 where
  pub minus : Bool
  pub first : ℕ
  pub whole : List ℕ
  pub fraction : Option (List ℕ)
  pub down : Bool
  pub exponent_first : ℕ
  pub exponent : List ℕ
  pub whole_digits : AreDigits (first ∷ whole)
  pub fraction_digits : FractionDigits fraction
  pub exponent_digits : AreDigits (exponent_first ∷ exponent)

abbrev pub exponent_text : Scientific → List ℕ
exponent_text s = 69 ∷ (sign_text s.down ++ s.exponent_first ∷ s.exponent)

unfoldable pub scientific_text : Scientific → List ℕ
scientific_text s =
    sign_text s.minus ++ ((s.first ∷ s.whole) ++ (fraction_text s.fraction ++ exponent_text s))

-- `text` is how Ryu prints `x`, and from_chars reads `x` from it where it is no NaN and no infinity.
pub data Spelled (F : FloatFormat) (x : F.Carrier) (text : List ℕ) : Type 0 where
  nan_text : x ≡ F.quiet_nan → text ≡ 78 ∷ 97 ∷ 78 ∷ [] → Spelled F x text
  infinity_text :
      x ≡ F.infinity → text ≡ 73 ∷ 110 ∷ 102 ∷ 105 ∷ 110 ∷ 105 ∷ 116 ∷ 121 ∷ [] → Spelled F x text
  minus_text :
      x ≡ F.opposite F.infinity
      → text ≡ 45 ∷ 73 ∷ 110 ∷ 102 ∷ 105 ∷ 110 ∷ 105 ∷ 116 ∷ 121 ∷ []
      → Spelled F x text
  digits_text :
      (s : Scientific) → text ≡ scientific_text s → F.scan_float text ≡ some x → Spelled F x text

read_fraction-text :
    (fraction : Option (List ℕ)) (rest : List ℕ)
    → FractionDigits fraction
    → at rest ≡ 69
    → (read_fraction (fraction_text fraction ++ rest)).1 ≡ rest
unfolding read_fraction
read_fraction-text none rest digits e = rw e refl
read_fraction-text (some ds) rest digits e = skip_digits-digits ds rest digits (rw e refl)

read_exponent-text :
    (s : Scientific) (rest : List ℕ)
    → Ends rest
    → read_exponent (exponent_text s ++ rest) ≡ some (true, rest)
unfolding read_exponent skip_sign
read_exponent-text s rest ends = go s.down
  where
    stop : is_digit (at rest) ≡ false
    stop = ground arith

    first : is_digit s.exponent_first ≡ true
    first = digit_true s.exponent_first (s.exponent_digits.0)

    no_sign : ((s.exponent_first == 45) || (s.exponent_first == 43)) ≡ false
    no_sign = ground arith

    go :
        (down : Bool)
        → read_exponent (69 ∷ (sign_text down ++ s.exponent_first ∷ s.exponent) ++ rest)
          ≡ some (true, rest)
    go true = rw first (
        ap (λ p. some (true, p))
          (skip_digits-digits (s.exponent_first ∷ s.exponent) rest s.exponent_digits stop))
    go false =
        rw (no_sign, first)
          (ap (λ p. some (true, p))
            (skip_digits-digits (s.exponent_first ∷ s.exponent) rest s.exponent_digits stop))

-- The chars from the first digit on.
abbrev body : Scientific → List ℕ → List ℕ
body s rest = (s.first ∷ s.whole) ++ (fraction_text s.fraction ++ (exponent_text s ++ rest))

scientific_text-body :
    (s : Scientific) (rest : List ℕ) → scientific_text s ++ rest ≡ sign_text s.minus ++ body s rest
unfolding scientific_text
scientific_text-body s rest =
    append_assoc (sign_text s.minus)
      ((s.first ∷ s.whole) ++ (fraction_text s.fraction ++ exponent_text s)) rest
    ∙ ap (λ t. sign_text s.minus ++ t)
        (append_assoc (s.first ∷ s.whole) (fraction_text s.fraction ++ exponent_text s) rest
          ∙ ap (λ t. (s.first ∷ s.whole) ++ t)
              (append_assoc (fraction_text s.fraction) (exponent_text s) rest))

fraction_stop :
    (s : Scientific) (rest : List ℕ)
    → is_digit (at (fraction_text s.fraction ++ (exponent_text s ++ rest))) ≡ false
fraction_stop s rest = go s.fraction
  where
    go :
        (f : Option (List ℕ)) → is_digit (at (fraction_text f ++ (exponent_text s ++ rest))) ≡ false
    go none = refl
    go (some ds) = refl

or_true : (b : Bool) → (b || true) ≡ true
or_true true = refl
or_true false = refl

take-text : (text rest : List ℕ) → take (length (text ++ rest) - length rest) (text ++ rest) ≡ text
take-text text rest =
    let size : length (text ++ rest) - length rest ≡ length text =
      omega (arith, length-append text rest) in
    ap (λ n. take n (text ++ rest)) size ∙ take-append text rest

module _ {F : FloatFormat} where
  scan_number-text :
      (s : Scientific) (negative : Bool) (beg rest : List ℕ)
      → Ends rest
      → (v : ℕ) × (scan_number {F = F} beg negative (body s rest)
          ≡ some (finish_number {F = F} beg negative true v rest))
  unfolding scan_number
  scan_number-text s negative beg rest ends =
      let tail = fraction_text s.fraction ++ (exponent_text s ++ rest) in
      let whole = read_whole-horner s.first s.whole tail s.whole_digits (fraction_stop s rest) in
      let point = read_fraction-text s.fraction (exponent_text s ++ rest) s.fraction_digits refl in
      let end = read_exponent-text s rest ends in
      (
        horner 0 (s.first ∷ s.whole) % 2 ^ 64,
        rw (whole, point, end, or_true (read_fraction tail).0) refl,
      )

  parse_number-scan :
      (s : Scientific) (minus : Bool) (rest : List ℕ)
      → parse_number {F = F} (sign_text minus ++ body s rest)
        ≡ scan_number {F = F} (sign_text minus ++ body s rest) minus (body s rest)
  unfolding parse_number skip_sign
  parse_number-scan s minus rest = go minus
    where
      d : is_digit s.first ≡ true
      d = digit_true s.first (s.whole_digits.0)

      no_sign : ((s.first == 45) || (s.first == 43)) ≡ false
      no_sign = ground arith

      no_minus : (s.first == 45) ≡ false
      no_minus = ground arith

      no_n : (s.first == 78) ≡ false
      no_n = ground arith

      no_i : (s.first == 73) ≡ false
      no_i = ground arith

      go :
          (m : Bool)
          → parse_number {F = F} (sign_text m ++ body s rest)
            ≡ scan_number {F = F} (sign_text m ++ body s rest) m (body s rest)
      go true = rw no_i refl
      go false = rw (no_sign, no_minus, no_n, no_i) refl

  finish_number-text :
      (x : F.Carrier) (text rest : List ℕ) (negative : Bool) (v : ℕ)
      → F.scan_float text ≡ some x
      → finish_number {F = F} (text ++ rest) negative true v rest ≡ (number x, rest)
  unfolding finish_number
  finish_number-text x text rest negative v read =
      rw (take-text text rest, read, finish_number) refl

  parse_number-digits :
      (x : F.Carrier) (s : Scientific) (rest : List ℕ)
      → F.scan_float (scientific_text s) ≡ some x
      → Ends rest
      → parse_number {F = F} (scientific_text s ++ rest) ≡ some (number x, rest)
  parse_number-digits x s rest read ends =
      let whole = scientific_text-body s rest in
      let scan = scan_number-text s s.minus (sign_text s.minus ++ body s rest) rest ends in
      let end = finish_number-text x (scientific_text s) rest s.minus scan.0 read in
      ap (parse_number {F = F}) whole
      ∙ parse_number-scan s s.minus rest
      ∙ scan.1
      ∙ ap (λ beg. some (finish_number {F = F} beg s.minus true scan.0 rest)) (sym whole)
      ∙ ap some end

  -- The number reader takes the text that Ryu prints for a float back to the float, when no char behind it goes
  -- on with a number.
  pub parse_number-Spelled :
      (x : F.Carrier) (text rest : List ℕ)
      → Spelled F x text
      → Ends rest
      → parse_number {F = F} (text ++ rest) ≡ some (number x, rest)
  unfolding parse_number get_consecutive_chars get_consecutive_char get_next_char skip_sign
  parse_number-Spelled x text rest (nan_text e t) ends = rw (e, t) refl
  parse_number-Spelled x text rest (infinity_text e t) ends = rw (e, t) refl
  parse_number-Spelled x text rest (minus_text e t) ends = rw (e, t) refl
  parse_number-Spelled x text rest (digits_text s t read) ends =
      let read' : F.scan_float (scientific_text s) ≡ some x = ap F.scan_float (sym t) ∙ read in
      ap (λ c. parse_number {F = F} (c ++ rest)) t ∙ parse_number-digits x s rest read' ends
