-- ===== src/Json/Reader.antt =====
-- JsonReader of src/common/json.cc: Parse, ParseArray and ParseObject. `none` stands for Error and for a
-- failed CHECK. The fuel of a call bounds the calls of Parse inside each other and the turns of a loop, and
-- a number above the input's length is enough; `out` has the answers at its end.
use xgboost.Prelude.{
  ℕ, zero, suc, true, false, not, ◌||◌, List, Option, none, some, ◌==◌, if◌then◌else◌, length,
}
use xgboost.Prelude.Check.{◌>>=◌, ◌>>◌, check}
use xgboost.Json.Value.{
  FloatFormat, Json, Elements, Members, string, object, array, boolean, null, no_element, no_member,
  insert, push_back,
}
use xgboost.Json.Cursor.{
  eof, skip_spaces, peek_next_char, get_next_non_space_char, get_consecutive_char, parse_string,
  parse_null, parse_boolean,
}
use xgboost.Json.Number.{parse_number, is_digit}

-- A turn of the loop of ParseObject up to the value: the key, and the input behind the colon. The CHECK on
-- the end of the input fails where the test on the quote would.
unfoldable pub parse_key : List ℕ → Option (List ℕ × List ℕ)
parse_key input =
    let key = skip_spaces input in
    check (not (peek_next_char key == eof))
    >> check (peek_next_char key == 34)
    >> parse_string key
    >>= λ (str, rest).
        let next : ℕ × List ℕ = get_next_non_space_char rest in
        check (next.0 == 58) >> some (str, next.1)

-- The answers that stand for the end of the fuel.
pub record FuelOut (F : FloatFormat) : Type 0 where
  pub value : Option (Json F × List ℕ)
  pub elements : Option (Elements F × List ℕ)
  pub members : Option (Members F × List ℕ)

-- The same as an error.
abbrev pub refused : {F : FloatFormat} → FuelOut F
refused = record { value = none; elements = none; members = none }

module _ {F : FloatFormat} where
  -- The loop of ParseArray, with what it read so far; `parse` is Parse.
  unfoldable pub array_loop :
      FuelOut F
      → (List ℕ → Option (Json F × List ℕ))
      → ℕ
      → Elements F
      → List ℕ
      → Option (Elements F × List ℕ)
  array_loop out parse zero data_ input = out.elements
  array_loop out parse (suc fuel) data_ input = elim (peek_next_char input == 93) [
    | true ↦ get_consecutive_char 93 input >>= λ rest. some (data_, rest)
    | false ↦ parse input >>= λ (obj, rest).
        let next : ℕ × List ℕ = get_next_non_space_char rest in
        elim (next.0 == 93) [
          | true ↦ some (push_back data_ obj, next.1)
          | false ↦ elim (next.0 == 44) [
            | true ↦ array_loop out parse fuel (push_back data_ obj) next.1
            | false ↦ none
          ]
        ]
  ]

  unfoldable pub parse_array :
      FuelOut F → (List ℕ → Option (Json F × List ℕ)) → ℕ → List ℕ → Option (Json F × List ℕ)
  parse_array out parse fuel input = get_consecutive_char 91 input >>= λ rest.
      array_loop out parse fuel no_element rest >>= λ (elements, end). some (array elements, end)

  unfoldable pub object_loop :
      FuelOut F
      → (List ℕ → Option (Json F × List ℕ))
      → ℕ
      → Members F
      → List ℕ
      → Option (Members F × List ℕ)
  object_loop out parse zero data_ input = out.members
  object_loop out parse (suc fuel) data_ input = parse_key input >>= λ (key, behind).
      parse behind >>= λ (value, rest).
      let next : ℕ × List ℕ = get_next_non_space_char rest in
      elim (next.0 == 125) [
        | true ↦ some (insert key value data_, next.1)
        | false ↦ elim (next.0 == 44) [
          | true ↦ object_loop out parse fuel (insert key value data_) next.1
          | false ↦ none
        ]
      ]

  unfoldable pub parse_object :
      FuelOut F → (List ℕ → Option (Json F × List ℕ)) → ℕ → List ℕ → Option (Json F × List ℕ)
  parse_object out parse fuel input = get_consecutive_char 123 input >>= λ rest.
      let key = skip_spaces rest in
      elim (peek_next_char key == 125) [
        | true ↦ get_consecutive_char 125 key >>= λ end. some (object no_member, end)
        | false ↦ object_loop out parse fuel no_member key >>= λ (members, end).
            some (object members, end)
      ]

  -- Parse from its first char `c` on; `parse` is what an array and an object call.
  unfoldable pub parse_at :
      FuelOut F → (List ℕ → Option (Json F × List ℕ)) → ℕ → ℕ → List ℕ → Option (Json F × List ℕ)
  parse_at out parse fuel c input =
      if c == eof
      then some (null, input)
      else if c == 123
      then parse_object out parse fuel input
      else if c == 91
      then parse_array out parse fuel input
      else if (c == 45) || is_digit c || (c == 78) || (c == 73)
      then parse_number input
      else if c == 34
      then parse_string input >>= (λ (str, rest). some (string str, rest))
      else if (c == 116) || (c == 102)
      then parse_boolean input >>= (λ (val, rest). some (boolean val, rest))
      else if c == 110
      then parse_null input >>= (λ rest. some (null, rest))
      else none

  unfoldable pub parse : FuelOut F → ℕ → List ℕ → Option (Json F × List ℕ)
  parse out zero input = out.value
  parse out (suc fuel) input =
      let start = skip_spaces input in
      parse_at out (parse out fuel) fuel (peek_next_char start) start

  -- Json::Load, which leaves what stands behind the value unread.
  unfoldable pub load : List ℕ → Option (Json F)
  load input = parse refused (suc (length input)) input >>= λ (json, rest). some json
