-- ===== src/Json/Render.antt =====
-- The text of a value by itself, and that JsonWriter (src/common/json.cc) appends it to its stream.
use mathlib.Core.List.{append_assoc, append-nil}
use xgboost.Prelude.{
  ℕ, suc, ◌+◌, ◌-◌, ◌^◌, ◌≡◌, ◌<◌, ◌≤◌, refl, sym, ap, ◌∙◌, Bool, true, false, List, [], ◌∷◌, ◌++◌,
  some, ◌==◌, replicate, length, arith,
}
use xgboost.Charconv.{to_chars_size}
use xgboost.Charconv.Digits.{printed}
use xgboost.Charconv.Itoa.{to_chars-printed}
use xgboost.Json.Value.{
  FloatFormat, Json, Elements, Members, string, number, integer, object, array, boolean, null,
  no_element, element, no_member, member, num_elements, num_members,
}
use xgboost.Json.Writer.{
  escape_all, visit_string, visit_integer, visit_number, visit_boolean, visit_null, separate, save,
  visit_elements, visit_members,
}
use xgboost.Json.Valid.{IsValid, AreValid, AreValidMembers}

module _ {F : FloatFormat} where
  abbrev pub elements_comma : Elements F → List ℕ
  elements_comma no_element = []
  elements_comma (element v rest) = 44 ∷ []

  abbrev pub members_comma : Members F → List ℕ
  members_comma no_member = []
  members_comma (member k v rest) = 44 ∷ []

abbrev pub boolean_text : Bool → List ℕ
boolean_text true = 116 ∷ 114 ∷ 117 ∷ 101 ∷ []
boolean_text false = 102 ∷ 97 ∷ 108 ∷ 115 ∷ 101 ∷ []

abbrev pub quoted : List ℕ → List ℕ
quoted s = 34 ∷ (escape_all s ++ 34 ∷ [])

module _ {F : FloatFormat} where
  unfoldable mutual
    pub render : Json F → List ℕ
    render (string s) = quoted s
    render (number x) = F.print_float x
    render (integer i) = printed i
    render (object members) = 123 ∷ (render_members members ++ 125 ∷ [])
    render (array elements) = 91 ∷ (render_elements elements ++ 93 ∷ [])
    render (boolean b) = boolean_text b
    render null = 110 ∷ 117 ∷ 108 ∷ 108 ∷ []

    pub render_elements : Elements F → List ℕ
    render_elements no_element = []
    render_elements (element v rest) = render v ++ (elements_comma rest ++ render_elements rest)

    pub render_members : Members F → List ℕ
    render_members no_member = []
    render_members (member k v rest) =
        quoted k ++ 58 ∷ (render v ++ (members_comma rest ++ render_members rest))

separate-last : (i size : ℕ) (s : List ℕ) → i + 1 ≡ size → separate i size s ≡ s
unfolding separate
separate-last i size s e = let last : (i == size - 1) ≡ true = ground arith in rw last refl

separate-more :
    (i n size : ℕ) (s : List ℕ) → i + suc (suc n) ≡ size → separate i size s ≡ s ++ 44 ∷ []
unfolding separate
separate-more i n size s e = let more : (i == size - 1) ≡ false = ground arith in rw more refl

visit_integer-printed :
    (i : ℕ) (stream : List ℕ) → i < 2 ^ 64 → visit_integer i stream ≡ some (stream ++ printed i)
unfolding visit_integer
visit_integer-printed i stream h =
    let refl_room : to_chars_size ≤ length (replicate {A = ℕ} to_chars_size 0) = omega arith in
    let done = to_chars-printed (replicate to_chars_size 0) i refl_room h in
    rw (done.0, done.1) refl

visit_boolean-text :
    (b : Bool) (stream : List ℕ) → visit_boolean b stream ≡ stream ++ boolean_text b
unfolding visit_boolean
visit_boolean-text true stream = refl
visit_boolean-text false stream = refl

module _ {F : FloatFormat} where
  abbrev Saves : Json F → Type 0
  Saves v = IsValid v → (stream : List ℕ) → save v stream ≡ some (stream ++ render v)

  abbrev SavesElements : Elements F → Type 0
  SavesElements xs =
      AreValid xs
      → (i size : ℕ) (stream : List ℕ) → i + num_elements xs ≡ size
      → visit_elements i size xs stream ≡ some (stream ++ render_elements xs)

  abbrev SavesMembers : Members F → Type 0
  SavesMembers xs =
      AreValidMembers xs
      → (i size : ℕ) (stream : List ℕ) → i + num_members xs ≡ size
      → visit_members i size xs stream ≡ some (stream ++ render_members xs)

  separate-elements :
      (xs : Elements F) (i size : ℕ) (s : List ℕ)
      → i + suc (num_elements xs) ≡ size
      → separate i size s ≡ s ++ elements_comma xs
  unfolding num_elements
  separate-elements no_element i size s e =
      separate-last i size s (omega arith) ∙ sym (append-nil s)
  separate-elements (element v xs) i size s e = separate-more i (num_elements xs) size s e

  separate-members :
      (xs : Members F) (i size : ℕ) (s : List ℕ)
      → i + suc (num_members xs) ≡ size
      → separate i size s ≡ s ++ members_comma xs
  unfolding num_members
  separate-members no_member i size s e = separate-last i size s (omega arith) ∙ sym (append-nil s)
  separate-members (member k v xs) i size s e = separate-more i (num_members xs) size s e

  -- For a value with 64-bit integers no CHECK of the writer fails, and it appends the value's text to the
  -- stream, a comma between two items and none behind the last.
  pub save-render :
      (v : Json F) → IsValid v → (stream : List ℕ) → save v stream ≡ some (stream ++ render v)
  unfolding save render IsValid visit_string visit_number visit_boolean visit_null num_elements
      num_members
  save-render v = elim v as Saves SavesElements SavesMembers [
    | string s ↦ λ h stream. refl
    | number x ↦ λ h stream. refl
    | integer i ↦ λ h stream. visit_integer-printed i stream h
    | object (members → ih) ↦ λ h stream.
        rw (ih h.1 0 (num_members members) (stream ++ 123 ∷ []) (omega arith))
          (ap some (simp append_assoc))
    | array (elements → ih) ↦ λ h stream.
        rw (ih h 0 (num_elements elements) (stream ++ 91 ∷ []) (omega arith))
          (ap some (simp append_assoc))
    | boolean b ↦ λ h stream. ap some (visit_boolean-text b stream)
    | null ↦ λ h stream. refl
    | no_element ↦ λ h i size stream e. ap some (sym (append-nil stream))
    | element (w → ih) (xs → ihs) ↦ λ h i size stream e.
        rw
          (
            ih h.0 stream,
            separate-elements xs i size (stream ++ render w) e,
            ihs h.1 (suc i) size _ (omega arith),
          )
          (ap some (simp append_assoc))
    | no_member ↦ λ h i size stream e. ap some (sym (append-nil stream))
    | member k (w → ih) (xs → ihs) ↦ λ h i size stream e.
        rw (ih h.0 _, separate-members xs i size _ e, ihs h.1 (suc i) size _ (omega arith))
          (ap some (simp append_assoc))
  ]
