-- ===== src/Json/Tests.antt =====
-- Runs and instances for the JSON documents of src/common/json.cc.
use xgboost.Prelude.{
  ℕ, leb, ◌==◌, ◌+◌, ◌-◌, ◌<◌, ◌≡◌, refl, true, false, List, [], ◌∷◌, ◌++◌, none, some, get_or,
  length, arith,
}
use xgboost.Prelude.Check.{◌>>=◌}
use xgboost.Json.Value.{
  FloatFormat, Json, Elements, string, number, integer, object, array, null, no_element, element,
  no_member, member, key_lt,
}
use xgboost.Json.Writer.{dump, save, visit_string, escape_all, escape}
use xgboost.Json.Cursor.{parse_string}
use xgboost.Json.Reader.{FuelOut, refused, load, parse}
use xgboost.Json.Strings.{behind, reread, parse_string-visit_string}
use xgboost.Json.Floats.{Scientific, scientific_text, digits_text}
use xgboost.Json.Valid.{IsValid, IsReadable}
use xgboost.Json.Render.{render, render_elements, render_members, save-render}
use xgboost.Charconv.Digits.{printed, spell, spell_last}
use xgboost.Json.Equal.{Exact, json_eq, json_eq-prefix}
use xgboost.Json.Fuel.{parse-fuel}
use xgboost.Json.RoundTrip.{parse-render, load-dump}

-- A float of one digit, printed as the digit and E0.
abbrev one_digit : FloatFormat
one_digit = record {
  Carrier = ℕ;
  quiet_nan = 10;
  infinity = 11;
  opposite = λ x. x + 1;
  print_float = λ x. (48 + x) ∷ 69 ∷ 48 ∷ [];
  scan_float = λ text. some (get_or text 0 0 - 48);
  strtof = λ text. 0;
  is_inf = λ x. leb 11 x;
  is_nan = λ x. x == 10;
  difference_is_zero = λ x y. x == y;
}

-- [1, -20, 3E0, null]
abbrev items : Elements one_digit
items =
    element (integer 1)
      (element (integer 18446744073709551596) (element (number 3) (element null no_element)))

-- A string of x, a line feed, a backslash and u.
abbrev chars : List ℕ
chars = 120 ∷ 10 ∷ 92 ∷ 117 ∷ []

-- {"a": [1, -20, 3E0, null], "b": "x\n\u", "c": {}}
abbrev document : Json one_digit
document = object (
    member (97 ∷ []) (array items)
      (member (98 ∷ []) (string chars) (member (99 ∷ []) (object no_member) no_member)))

three : Scientific
three = record {
  minus = false;
  first = 51;
  whole = [];
  fraction = none;
  down = false;
  exponent_first = 48;
  exponent = [];
  whole_digits = ((omega arith, omega arith), tt);
  fraction_digits = tt;
  exponent_digits = ((omega arith, omega arith), tt);
}

document-IsValid : IsValid document
unfolding IsValid key_lt
document-IsValid = (
  ((refl, (refl, tt)), ((refl, tt), (tt, tt))),
  ((omega arith, (omega arith, (tt, (tt, tt)))), (tt, ((tt, tt), tt))),
)

document-IsReadable : IsReadable document
unfolding IsReadable three scientific_text
document-IsReadable = (
  one_kept,
  (
    (tt, (tt, (digits_text three refl refl, (tt, tt)))),
    (
      one_kept,
      (((refl, refl), ((refl, refl), ((refl, refl), ((refl, refl), tt)))), (one_kept, (tt, tt))),
    ),
  ),
)
  where
    one_kept : ((false ≡ false) × (false ≡ false)) × Unit {0}
    one_kept = ((refl, refl), tt)

load-dump_example : (dump document >>= load) ≡ some document
load-dump_example = load-dump document document-IsValid document-IsReadable

document_read : parse refused 60 (render document ++ 44 ∷ []) ≡ some (document, 44 ∷ [])
document_read = parse-render document document-IsValid document-IsReadable 60 (44 ∷ []) few refl
  where
    few : length (render document) < 60
    few =
        unfold render render_elements render_members printed spell spell_last escape_all escape in
        omega arith

save-render_example : save document (91 ∷ []) ≡ some (91 ∷ render document)
save-render_example = save-render document document-IsValid (91 ∷ [])

parse_string-visit_string_example :
    parse_string (visit_string (1 ∷ chars) [] ++ 44 ∷ [])
    ≡ (reread (1 ∷ chars) >>= behind [] (44 ∷ []))
parse_string-visit_string_example = parse_string-visit_string (1 ∷ chars) (44 ∷ [])

-- [{}], with null as the answer for the end of the fuel.
abbrev null_out : FuelOut one_digit
null_out = record {
  value = some (null, []);
  elements = some (no_element, []);
  members = some (no_member, []);
}

abbrev nested : List ℕ
nested = 91 ∷ 123 ∷ 125 ∷ 93 ∷ []

parse-fuel_example : parse refused 60 nested ≡ parse null_out 5 nested
parse-fuel_example = parse-fuel null_out 60 5 nested (omega arith) (omega arith)

one_digit-Exact : Exact one_digit
one_digit-Exact x finite number_ = ground arith

abbrev one_item : Elements one_digit
one_item = element (integer 1) no_element

abbrev two_items : Elements one_digit
two_items = element (integer 1) (element null no_element)

abbrev three_items : Elements one_digit
three_items = element (integer 1) (element null (element null no_element))

json_eq-prefix_example :
    (json_eq document document ≡ some true)
    × (json_eq (array two_items) (array one_item) ≡ some true)
    × (json_eq (array one_item) (array three_items) ≡ none)
json_eq-prefix_example =
    json_eq-prefix one_digit one_digit-Exact document one_item (element null no_element) null
