-- ===== src/Json/Cursor.antt =====
-- The cursor of JsonReader (include/xgboost/json_io.h) and the parsers of src/common/json.cc that need no
-- other: the input is the chars from the cursor on, and `none` stands for Error, which throws. The char -1
-- of the end is the byte 255.
use xgboost.Prelude.{
  ℕ, Bool, true, false, ◌||◌, List, [], ◌∷◌, ◌++◌, Option, none, some, ◌==◌, if◌then◌else◌,
}
use xgboost.Prelude.Check.{◌>>=◌, ◌>>◌, check}

abbrev pub eof : ℕ
eof = 255

unfoldable pub is_space : ℕ → Bool
is_space c = (c == 32) || (c == 10) || (c == 13) || (c == 9)

unfoldable pub skip_spaces : List ℕ → List ℕ
skip_spaces [] = []
skip_spaces (c ∷ input) = elim (is_space c) [ true ↦ skip_spaces input | false ↦ c ∷ input ]

unfoldable pub get_next_char : List ℕ → ℕ × List ℕ
get_next_char [] = (eof, [])
get_next_char (c ∷ input) = (c, input)

unfoldable pub peek_next_char : List ℕ → ℕ
peek_next_char [] = eof
peek_next_char (c ∷ input) = c

unfoldable pub get_next_non_space_char : List ℕ → ℕ × List ℕ
get_next_non_space_char input = get_next_char (skip_spaces input)

-- The char it returns is the expected one.
unfoldable pub get_consecutive_char : ℕ → List ℕ → Option (List ℕ)
get_consecutive_char expected input =
    let next : ℕ × List ℕ = get_next_char input in check (next.0 == expected) >> some next.1

-- The loop `for (auto i : {'I', 'n', ...})`, and a call after the other.
unfoldable pub get_consecutive_chars : List ℕ → List ℕ → Option (List ℕ)
get_consecutive_chars [] input = some input
get_consecutive_chars (c ∷ chars) input =
    get_consecutive_char c input >>= λ rest. get_consecutive_chars chars rest

-- The switch on the char behind a backslash.
unfoldable pub unescape : ℕ → Option (List ℕ)
unescape next =
    if next == 114
    then some (13 ∷ [])
    else if next == 110
    then some (10 ∷ [])
    else if next == 92
    then some (92 ∷ [])
    else if next == 116
    then some (9 ∷ [])
    else if next == 34
    then some (34 ∷ [])
    else if next == 117
    then some (92 ∷ 117 ∷ [])
    else none

-- The loop of ParseString with what it read so far: the string, and the input behind its end. At the end of
-- the input the next char is -1, which is no escape and which Expect refuses.
unfoldable pub string_loop : List ℕ → List ℕ → Option (List ℕ × List ℕ)
string_loop str [] = none
string_loop str (ch ∷ []) = elim (ch == 34) [ true ↦ some (str, []) | false ↦ none ]
string_loop str (ch ∷ next ∷ input) = elim (ch == 92) [
  | true ↦ unescape next >>= λ chars. string_loop (str ++ chars) input
  | false ↦ elim (ch == 34) [
    | true ↦ some (str, next ∷ input)
    | false ↦ elim ((ch == eof) || (ch == 13) || (ch == 10)) [
      | true ↦ none
      | false ↦ string_loop (str ++ ch ∷ []) (next ∷ input)
    ]
  ]
]

unfoldable pub parse_string : List ℕ → Option (List ℕ × List ℕ)
parse_string input = get_consecutive_char 34 input >>= λ rest. string_loop [] rest

-- ParseNull: the first char without its spaces and three more.
unfoldable pub parse_null : List ℕ → Option (List ℕ)
parse_null input = get_consecutive_chars (110 ∷ 117 ∷ 108 ∷ 108 ∷ []) (skip_spaces input)

-- ParseBoolean: any first char but 't' is taken for an 'f'.
unfoldable pub parse_boolean : List ℕ → Option (Bool × List ℕ)
parse_boolean input =
    let next : ℕ × List ℕ = get_next_non_space_char input in
    if next.0 == 116
    then get_consecutive_chars (114 ∷ 117 ∷ 101 ∷ []) next.1 >>= (λ rest. some (true, rest))
    else get_consecutive_chars (97 ∷ 108 ∷ 115 ∷ 101 ∷ []) next.1 >>= (λ rest. some (false, rest))
