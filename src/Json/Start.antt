-- ===== src/Json/Start.antt =====
-- The first char of a text that JsonWriter (src/common/json.cc) wrote.
use xgboost.Prelude.{
  ℕ, suc, ◌-◌, ◌^◌, ◌≡◌, ◌<◌, refl, sym, subst, Bool, true, false, ◌||◌, List, [], ◌∷◌, ◌++◌, ◌==◌,
  leb, if◌then◌else◌, arith,
}
use xgboost.Charconv.Digits.{IsDigit, Decimal, Integer, printed, printed-Integer}
use xgboost.Json.Value.{FloatFormat, Json, string, number, integer, object, array, boolean, null}
use xgboost.Json.Number.{is_digit, parse_number}
use xgboost.Json.Cursor.{eof, is_space, skip_spaces, peek_next_char}
use xgboost.Json.Scan.{digit_true}
use xgboost.Json.Reader.{refused, parse, parse_at}
use xgboost.Json.Floats.{
  Spelled, Scientific, scientific_text, sign_text, fraction_text, exponent_text, nan_text,
  infinity_text, minus_text, digits_text,
}
use xgboost.Json.Valid.{IsValid, IsReadable}
use xgboost.Json.Render.{render}

abbrev is_number_start : ℕ → Bool
is_number_start c = (c == 45) || is_digit c || (c == 78) || (c == 73)

pub record NumberStart (text : List ℕ) : Type 0 where
  pub char : ℕ
  pub chars : List ℕ
  pub text_eq : text ≡ char ∷ chars
  pub is_start : is_number_start char ≡ true

digit_start : (c : ℕ) → IsDigit c → is_number_start c ≡ true
digit_start c d = let yes : is_digit c ≡ true = digit_true c d in ground arith

Decimal-NumberStart : (v : ℕ) (text : List ℕ) → Decimal v text → NumberStart text
Decimal-NumberStart v [] decimal = absurd decimal.shortest
Decimal-NumberStart v (c ∷ cs) decimal = record {
  char = c;
  chars = cs;
  text_eq = refl;
  is_start = digit_start c decimal.digits.0;
}

pub printed-NumberStart : (i : ℕ) → i < 2 ^ 64 → NumberStart (printed i)
unfolding Integer
printed-NumberStart i h = go (leb (2 ^ 63) i) (printed-Integer i h)
  where
    go :
        (b : Bool)
        → (if b
            then ((digits : List ℕ) × (printed i ≡ 45 ∷ digits) × Decimal (2 ^ 64 - i) digits)
            else Decimal i (printed i))
        → NumberStart (printed i)
    go true (digits, e, d) = record { char = 45; chars = digits; text_eq = e; is_start = refl }
    go false d = Decimal-NumberStart i (printed i) d

scientific-NumberStart : (s : Scientific) → NumberStart (scientific_text s)
unfolding scientific_text
scientific-NumberStart s = go s.minus
  where
    tail : List ℕ
    tail = s.whole ++ (fraction_text s.fraction ++ exponent_text s)

    go : (m : Bool) → NumberStart (sign_text m ++ s.first ∷ tail)
    go true = record { char = 45; chars = s.first ∷ tail; text_eq = refl; is_start = refl }
    go false = record {
      char = s.first;
      chars = tail;
      text_eq = refl;
      is_start = digit_start s.first s.whole_digits.0;
    }

abbrev NotClosing : List ℕ → Type 0
NotClosing text = (peek_next_char text == 93) ≡ false

NumberStart-NotClosing : (text rest : List ℕ) → NumberStart text → NotClosing (text ++ rest)
unfolding peek_next_char
NumberStart-NotClosing text rest start =
    let open_ : (start.char == 93) ≡ false = ground (arith, start.is_start) in
    rw (start.text_eq, open_) refl

module _ {F : FloatFormat} where
  pub Spelled-NumberStart : (x : F.Carrier) (text : List ℕ) → Spelled F x text → NumberStart text
  Spelled-NumberStart x text (nan_text e t) = record {
    char = 78;
    chars = _;
    text_eq = t;
    is_start = refl;
  }
  Spelled-NumberStart x text (infinity_text e t) = record {
    char = 73;
    chars = _;
    text_eq = t;
    is_start = refl;
  }
  Spelled-NumberStart x text (minus_text e t) = record {
    char = 45;
    chars = _;
    text_eq = t;
    is_start = refl;
  }
  Spelled-NumberStart x text (digits_text s t read) =
      subst NumberStart (sym t) (scientific-NumberStart s)

  -- No value starts like the end of an array.
  pub peek-render :
      (v : Json F) (rest : List ℕ)
      → IsValid v
      → IsReadable v
      → (peek_next_char (render v ++ rest) == 93) ≡ false
  unfolding peek_next_char render IsValid IsReadable
  peek-render (string s) rest valid readable = refl
  peek-render (number x) rest valid readable =
      NumberStart-NotClosing _ rest (Spelled-NumberStart x _ readable)
  peek-render (integer i) rest valid readable =
      NumberStart-NotClosing _ rest (printed-NumberStart i valid)
  peek-render (object members) rest valid readable = refl
  peek-render (array elements) rest valid readable = refl
  peek-render (boolean true) rest valid readable = refl
  peek-render (boolean false) rest valid readable = refl
  peek-render null rest valid readable = refl

  -- Parse calls ParseNumber for a text that starts like a number.
  pub parse-NumberStart :
      (fuel : ℕ) (text rest : List ℕ)
      → NumberStart text
      → parse {F = F} refused (suc fuel) (text ++ rest) ≡ parse_number (text ++ rest)
  unfolding parse parse_at skip_spaces peek_next_char is_space
  parse-NumberStart fuel text rest start = rw start.text_eq (go start.char start.is_start)
    where
      go :
          (c : ℕ)
          → is_number_start c ≡ true
          → parse {F = F} refused (suc fuel) (c ∷ (start.chars ++ rest))
            ≡ parse_number (c ∷ (start.chars ++ rest))
      go c h =
          let solid : is_space c ≡ false = unfold is_space in ground arith in
          let there : (c == eof) ≡ false = ground arith in
          let no_object : (c == 123) ≡ false = ground arith in
          let no_array : (c == 91) ≡ false = ground arith in
          rw (solid, skip_spaces, there, no_object, no_array, h) refl
