-- ===== src/Json/RoundTrip.antt =====
-- What JsonReader reads of a text that JsonWriter wrote (src/common/json.cc).
use mathlib.Core.List.{append_assoc, append-nil}
use xgboost.Prelude.{
  ℕ, zero, suc, ◌≡◌, ◌<◌, refl, ap, ◌∙◌, Bool, true, false, List, [], ◌∷◌, ◌++◌, Option, some,
  length, length-append, arith,
}
use xgboost.Prelude.Check.{◌>>=◌}
use xgboost.Charconv.Digits.{printed-Integer}
use xgboost.Json.Value.{
  FloatFormat, Json, Elements, Members, string, number, integer, object, array, boolean, null,
  no_element, element, no_member, member,
}
use xgboost.Json.Cursor.{
  is_space, skip_spaces, peek_next_char, get_next_char, get_next_non_space_char,
  get_consecutive_char, get_consecutive_chars, parse_null, parse_boolean,
}
use xgboost.Json.Scan.{Ends, parse_number-Integer}
use xgboost.Json.Floats.{parse_number-Spelled}
use xgboost.Json.Strings.{parse_string-AreKept}
use xgboost.Json.Writer.{dump}
use xgboost.Json.Reader.{
  refused, array_loop, parse_array, object_loop, parse_object, parse_at, parse, load,
}
use xgboost.Json.Valid.{IsValid, IsReadable}
use xgboost.Json.Render.{render, render_elements, render_members, save-render}
use xgboost.Json.Loops.{
  Reads, ReadsElements, ReadsMembers, member-ne-no_member, array_loop-end, array_loop-turn,
  object_loop-turn,
}
use xgboost.Json.Start.{parse-NumberStart, Spelled-NumberStart, printed-NumberStart}

module _ {F : FloatFormat} where
  abbrev closed : Members F × List ℕ → Option (Json F × List ℕ)
  closed (members, end) = some (object members, end)

  parse-object : (members : Members F) → ReadsMembers members → Reads (object members)
  unfolding parse parse_at parse_object render IsValid IsReadable skip_spaces is_space
      peek_next_char get_consecutive_char get_next_char
  parse-object members ih valid readable zero rest enough ends = absurd (omega arith)
  parse-object no_member ih valid readable (suc n) rest enough ends = refl
  parse-object (member k v xs) ih valid readable (suc n) rest enough ends =
      let inner = render_members (member k v xs) in
      let text : (inner ++ 125 ∷ []) ++ rest ≡ inner ++ 125 ∷ rest =
        append_assoc inner (125 ∷ []) rest in
      let size = length-append inner (125 ∷ []) in
      let loop =
        ih valid.1 readable n n no_member rest valid.0 (omega arith) (omega arith)
          (member-ne-no_member k v xs) in
      ap (λ t. object_loop refused (parse refused n) n no_member t >>= closed) text
      ∙ ap (λ o. o >>= closed) loop

  parse-array : (elements : Elements F) → ReadsElements elements → Reads (array elements)
  unfolding parse parse_at parse_array render IsValid IsReadable skip_spaces is_space peek_next_char
      get_consecutive_char get_next_char
  parse-array elements ih valid readable zero rest enough ends = absurd (omega arith)
  parse-array elements ih valid readable (suc n) rest enough ends =
      let inner = render_elements elements in
      let text : (inner ++ 93 ∷ []) ++ rest ≡ inner ++ 93 ∷ rest =
        append_assoc inner (93 ∷ []) rest in
      let size = length-append inner (93 ∷ []) in
      let loop = ih valid readable n n no_element rest (omega arith) (omega arith) in
      rw (text, loop) refl

  parse-string : (s : List ℕ) → Reads {F = F} (string s)
  unfolding parse parse_at render IsValid IsReadable skip_spaces is_space peek_next_char
  parse-string s valid readable zero rest enough ends = absurd (omega arith)
  parse-string s valid readable (suc n) rest enough ends =
      rw (parse_string-AreKept s rest readable) refl

  parse-number : (x : F.Carrier) → Reads {F = F} (number x)
  unfolding render IsValid IsReadable
  parse-number x valid readable zero rest enough ends = absurd (omega arith)
  parse-number x valid readable (suc n) rest enough ends =
      parse-NumberStart n _ rest (Spelled-NumberStart x _ readable)
      ∙ parse_number-Spelled x _ rest readable ends

  parse-integer : (i : ℕ) → Reads {F = F} (integer i)
  unfolding render IsValid IsReadable
  parse-integer i valid readable zero rest enough ends = absurd (omega arith)
  parse-integer i valid readable (suc n) rest enough ends =
      parse-NumberStart n _ rest (printed-NumberStart i valid)
      ∙ parse_number-Integer i _ rest valid (printed-Integer i valid) ends

  parse-boolean : (b : Bool) → Reads {F = F} (boolean b)
  unfolding parse parse_at parse_boolean render IsValid IsReadable skip_spaces is_space
      peek_next_char get_consecutive_char get_next_char get_consecutive_chars
      get_next_non_space_char
  parse-boolean b valid readable zero rest enough ends = absurd (omega arith)
  parse-boolean true valid readable (suc n) rest enough ends = refl
  parse-boolean false valid readable (suc n) rest enough ends = refl

  parse-null : Reads {F = F} null
  unfolding parse parse_at parse_null render IsValid IsReadable skip_spaces is_space peek_next_char
      get_consecutive_char get_next_char get_consecutive_chars
  parse-null valid readable zero rest enough ends = absurd (omega arith)
  parse-null valid readable (suc n) rest enough ends = refl

  -- With fuel above its length Parse reads the text that was written for a value off the front of the input, to
  -- the value and what stands behind it, when that does not go on with a number, the value is one that the
  -- library can hold, and its strings and floats are among those that come back.
  pub parse-render :
      (v : Json F)
      → IsValid v
      → IsReadable v
      → (n : ℕ) (rest : List ℕ) → length (render v) < n
      → Ends rest
      → parse refused n (render v ++ rest) ≡ some (v, rest)
  unfolding render render_elements render_members IsValid IsReadable array_loop
  parse-render v = elim v as (Reads {F = F}) (ReadsElements {F = F}) (ReadsMembers {F = F}) [
    | string s ↦ parse-string s
    | number x ↦ parse-number x
    | integer i ↦ parse-integer i
    | object (members → ih) ↦ parse-object members ih
    | array (elements → ih) ↦ parse-array elements ih
    | boolean b ↦ parse-boolean b
    | null ↦ parse-null
    | no_element ↦ λ valid readable n k data_ rest enough turns. array_loop-end n k data_ rest turns
    | element (w → ih) (xs → ihs) ↦ λ valid readable n k data_ rest enough turns.
        array_loop-turn w xs n k data_ rest ih ihs valid readable enough turns
    | no_member ↦ λ valid readable n k data_ rest sorted enough turns some_. absurd (some_ refl)
    | member key (w → ih) (xs → ihs) ↦ λ valid readable n k data_ rest sorted enough turns some_.
        object_loop-turn key w xs n k data_ rest ih ihs valid readable sorted enough turns
  ]

  abbrev value_read : Json F × List ℕ → Option (Json F)
  value_read (json, rest) = some json

  -- The library reads back what it writes: for a value with 64-bit integers and with objects in the order of their
  -- keys, whose strings, keys and floats are among those that come back, Dump gives a text, and Load gives the
  -- value again from that text.
  pub load-dump : (v : Json F) → IsValid v → IsReadable v → (dump v >>= load) ≡ some v
  unfolding dump load
  load-dump v valid readable =
      let read = parse-render v valid readable (suc (length (render v))) [] (omega arith) refl in
      let whole : parse refused (suc (length (render v))) (render v) ≡ some (v, []) =
        rw append-nil at read in
      ap (λ o. o >>= load) (save-render v valid []) ∙ ap (λ o. o >>= value_read) whole
