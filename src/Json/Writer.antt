-- ===== src/Json/Writer.antt =====
-- JsonWriter of src/common/json.cc. A Visit appends to the chars of the stream; `none` is a failed CHECK.
use xgboost.Prelude.{
  ℕ, suc, ◌+◌, ◌-◌, ◌/◌, ◌%◌, Bool, true, false, List, [], ◌∷◌, ◌++◌, Option, some, ◌==◌, ltb, leb,
  if◌then◌else◌, take, replicate, get_or,
}
use xgboost.Prelude.Check.{◌>>=◌, ◌>>◌, check}
use xgboost.Charconv.{Errc, to_chars, to_chars_size, ok, value_too_large}
use xgboost.Json.Value.{
  FloatFormat, Json, Elements, Members, string, number, integer, object, array, boolean, null,
  no_element, element, no_member, member, num_elements, num_members,
}

abbrev pub hex_digit : ℕ → ℕ
hex_digit d = if ltb d 10 then 48 + d else 87 + d

-- "\\u%04x" of a char up to 0x1f
abbrev pub unicode_escape : ℕ → List ℕ
unicode_escape ch = 92 ∷ 117 ∷ 48 ∷ 48 ∷ hex_digit (ch / 16) ∷ hex_digit (ch % 16) ∷ []

-- What is added to the buffer for string[i] with string[i + 1] behind it.
unfoldable pub escape : ℕ → ℕ → List ℕ
escape ch next =
    if ch == 92
    then (if next == 117 then 92 ∷ [] else 92 ∷ 92 ∷ [])
    else if ch == 34
    then 92 ∷ 34 ∷ []
    else if ch == 8
    then 92 ∷ 98 ∷ []
    else if ch == 12
    then 92 ∷ 102 ∷ []
    else if ch == 10
    then 92 ∷ 110 ∷ []
    else if ch == 13
    then 92 ∷ 114 ∷ []
    else if ch == 9
    then 92 ∷ 116 ∷ []
    else if leb ch 31
    then unicode_escape ch
    else ch ∷ []

-- The loop; behind its last char a std::string has a 0.
unfoldable pub escape_all : List ℕ → List ℕ
escape_all [] = []
escape_all (ch ∷ chars) = escape ch (get_or chars 0 0) ++ escape_all chars

unfoldable pub visit_string : List ℕ → List ℕ → List ℕ
visit_string chars stream = stream ++ 34 ∷ (escape_all chars ++ 34 ∷ [])

abbrev is_ok : Errc → Bool
is_ok ok = true
is_ok value_too_large = false

unfoldable pub visit_integer : ℕ → List ℕ → Option (List ℕ)
visit_integer i stream =
    let ret = to_chars (replicate to_chars_size 0) i in
    check (is_ok ret.ec) >> some (stream ++ take ret.ptr ret.out)

unfoldable pub visit_null : List ℕ → List ℕ
visit_null stream = stream ++ 110 ∷ 117 ∷ 108 ∷ 108 ∷ []

unfoldable pub visit_boolean : Bool → List ℕ → List ℕ
visit_boolean val stream =
    if val then stream ++ 116 ∷ 114 ∷ 117 ∷ 101 ∷ [] else stream ++ 102 ∷ 97 ∷ 108 ∷ 115 ∷ 101 ∷ []

-- The comma behind all but the last of `size`.
unfoldable pub separate : ℕ → ℕ → List ℕ → List ℕ
separate i size stream = if i == size - 1 then stream else stream ++ 44 ∷ []

unfoldable pub visit_number : (F : FloatFormat) → F.Carrier → List ℕ → List ℕ
visit_number F num stream = stream ++ F.print_float num

module _ {F : FloatFormat} where
  unfoldable mutual
    pub save : Json F → List ℕ → Option (List ℕ)
    save (string chars) stream = some (visit_string chars stream)
    save (number num) stream = some (visit_number F num stream)
    save (integer i) stream = visit_integer i stream
    save (object members) stream =
        visit_members 0 (num_members members) members (stream ++ 123 ∷ []) >>= λ s.
        some (s ++ 125 ∷ [])
    save (array elements) stream =
        visit_elements 0 (num_elements elements) elements (stream ++ 91 ∷ []) >>= λ s.
        some (s ++ 93 ∷ [])
    save (boolean val) stream = some (visit_boolean val stream)
    save null stream = some (visit_null stream)

    -- The loop of Visit(JsonArray).
    pub visit_elements : ℕ → ℕ → Elements F → List ℕ → Option (List ℕ)
    visit_elements i size no_element stream = some stream
    visit_elements i size (element v rest) stream =
        save v stream >>= λ s. visit_elements (suc i) size rest (separate i size s)

    -- The loop of Visit(JsonObject).
    pub visit_members : ℕ → ℕ → Members F → List ℕ → Option (List ℕ)
    visit_members i size no_member stream = some stream
    visit_members i size (member k v rest) stream =
        save v (visit_string k stream ++ 58 ∷ []) >>= λ s.
        visit_members (suc i) size rest (separate i size s)

  -- Json::Dump
  unfoldable pub dump : Json F → Option (List ℕ)
  dump json = save json []
