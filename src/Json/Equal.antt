-- ===== src/Json/Equal.antt =====
-- The comparison of values, operator== of src/common/json.cc. `none` is a read behind the end of an array.
use xgboost.Prelude.{
  ℕ, ◌≡◌, refl, ap, inl, inr, Bool, true, false, not, ◌&&◌, List, [], ◌∷◌, Option, none, some, ◌==◌,
  if◌then◌else◌, Bool-cases, arith,
}
use xgboost.Prelude.Check.{◌>>=◌}
use xgboost.Json.Value.{
  FloatFormat, Json, Elements, Members, string, number, integer, object, array, boolean, null,
  no_element, element, no_member, member, num_members,
}
use xgboost.Json.Order.{append_elements}

-- operator== of std::string
unfoldable same_chars : List ℕ → List ℕ → Bool
same_chars [] [] = true
same_chars [] (d ∷ ds) = false
same_chars (c ∷ cs) [] = false
same_chars (c ∷ cs) (d ∷ ds) = (c == d) && same_chars cs ds

unfoldable same_bool : Bool → Bool → Bool
same_bool true b = b
same_bool false true = false
same_bool false false = true

-- operator== of JsonNumber, from the right-hand number on
unfoldable same_number : (F : FloatFormat) → F.Carrier → F.Carrier → Bool
same_number F l r =
    if F.is_inf l then F.is_inf r else if F.is_nan l then F.is_nan r else F.difference_is_zero l r

module _ {F : FloatFormat} where
  -- The comparison of an array calls that of its elements with the sides changed, so `flipped` says whether
  -- the first value is the right-hand one.
  unfoldable mutual
    compare_values : Bool → Json F → Json F → Option Bool
    compare_values flipped (string s) (string t) = some (same_chars s t)
    compare_values flipped (number x) (number y) =
        some (if flipped then same_number F y x else same_number F x y)
    compare_values flipped (integer i) (integer j) = some (i == j)
    compare_values flipped (object xs) (object ys) =
        let pairs = compare_members flipped xs ys in
        elim (num_members xs == num_members ys) [ true ↦ pairs | false ↦ some false ]
    compare_values flipped (array xs) (array ys) = compare_elements flipped xs ys
    compare_values flipped (boolean a) (boolean b) = some (same_bool a b)
    compare_values flipped null null = some true
    compare_values flipped x y = some false

    -- std::equal(arr.cbegin(), arr.cend(), vec_.cbegin()) with `arr` the right-hand array: it ends where that
    -- one does, and each pair is compared with its element on the left.
    compare_elements : Bool → Elements F → Elements F → Option Bool
    compare_elements flipped no_element no_element = some true
    compare_elements flipped no_element (element y ys) = if flipped then some true else none
    compare_elements flipped (element x xs) no_element = if flipped then none else some true
    compare_elements flipped (element x xs) (element y ys) =
        let rest = compare_elements flipped xs ys in
        compare_values (not flipped) x y >>= λ same. elim same [ true ↦ rest | false ↦ some false ]

    -- The pairs of two maps of one size, in their order.
    compare_members : Bool → Members F → Members F → Option Bool
    compare_members flipped no_member ys = some true
    compare_members flipped (member k v xs) no_member = some true
    compare_members flipped (member k v xs) (member k' v' ys) =
        let rest = compare_members flipped xs ys in
        let same_value = compare_values flipped v v' in
        elim (same_chars k k') [
          | true ↦ same_value >>= λ same. elim same [ true ↦ rest | false ↦ some false ]
          | false ↦ some false
        ]

  -- Json::operator==
  pub json_eq : Json F → Json F → Option Bool
  json_eq lhs rhs = compare_values false lhs rhs

same_chars_refl : (s : List ℕ) → same_chars s s ≡ true
unfolding same_chars
same_chars_refl [] = refl
same_chars_refl (c ∷ s) =
    let same : (c == c) ≡ true = ground arith in rw (same, same_chars_refl s) refl

-- A number without its value NaN or infinity is no further from itself than 0.
abbrev pub Exact : FloatFormat → Type 0
Exact F =
    (x : F.Carrier) → F.is_inf x ≡ false → F.is_nan x ≡ false → F.difference_is_zero x x ≡ true

same_number_refl : (F : FloatFormat) → Exact F → (x : F.Carrier) → same_number F x x ≡ true
unfolding same_number
same_number_refl F exact x = elim (Bool-cases (F.is_inf x)) [
  | inl infinite ↦ rw infinite refl
  | inr finite ↦ elim (Bool-cases (F.is_nan x)) [
    | inl nan ↦ rw (finite, nan) refl
    | inr other ↦ rw (finite, other) (exact x finite other)
  ]
]

module _ {F : FloatFormat} where
  abbrev Same : Json F → Type 0
  Same v = (flipped : Bool) → compare_values flipped v v ≡ some true

  abbrev SameElements : Elements F → Type 0
  SameElements xs = (flipped : Bool) → compare_elements flipped xs xs ≡ some true

  abbrev SameMembers : Members F → Type 0
  SameMembers xs = (flipped : Bool) → compare_members flipped xs xs ≡ some true

module _ (F : FloatFormat) where
  number-Same : Exact F → (x : F.Carrier) → Same {F = F} (number x)
  unfolding compare_values
  number-Same exact x true = ap some (same_number_refl F exact x)
  number-Same exact x false = ap some (same_number_refl F exact x)

  boolean-Same : (b : Bool) → Same {F = F} (boolean b)
  unfolding compare_values same_bool
  boolean-Same true flipped = refl
  boolean-Same false flipped = refl

  compare_values-Same : Exact F → (v : Json F) → Same {F = F} v
  unfolding compare_values
  compare_values-Same exact v =
      elim v as (Same {F = F}) (SameElements {F = F}) (SameMembers {F = F}) [
        | string s ↦ λ flipped. ap some (same_chars_refl s)
        | number x ↦ λ flipped. number-Same exact x flipped
        | integer i ↦ λ flipped. ap some (ground arith)
        | object (xs → ih) ↦ λ flipped.
            let size : (num_members xs == num_members xs) ≡ true = ground arith in
            rw (size, ih flipped, compare_values) refl
        | array (xs → ih) ↦ λ flipped. ih flipped
        | boolean b ↦ λ flipped. boolean-Same b flipped
        | null ↦ λ flipped. refl
        | no_element ↦ λ flipped. refl
        | element (w → ih) (xs → ihs) ↦
            λ flipped. rw (ih (not flipped), ihs flipped, compare_elements) refl
        | no_member ↦ λ flipped. refl
        | member k (w → ih) (xs → ihs) ↦
            λ flipped. rw (same_chars_refl k, ih flipped, ihs flipped, compare_members) refl
      ]

  append_elements-left :
      Exact F → (xs ys : Elements F) → compare_elements false (append_elements xs ys) xs ≡ some true
  unfolding compare_elements
  append_elements-left exact no_element no_element = refl
  append_elements-left exact no_element (element y ys) = refl
  append_elements-left exact (element x xs) ys =
      rw (compare_values-Same exact x true, append_elements-left exact xs ys, compare_elements) refl

  append_elements-right :
      Exact F
      → (xs ys : Elements F) (y : Json F)
      → compare_elements false xs (append_elements xs (element y ys)) ≡ none
  unfolding compare_elements
  append_elements-right exact no_element ys y = refl
  append_elements-right exact (element x xs) ys y =
      rw (compare_values-Same exact x true, append_elements-right exact xs ys y, compare_elements)
        refl

  -- With floats whose numbers are no further from themselves than 0: every value equals itself; an array equals
  -- each of its prefixes on its right; and a prefix on the left of a longer array is read behind its end.
  pub json_eq-prefix :
      Exact F
      → (v : Json F) (xs ys : Elements F) (y : Json F)
      → (json_eq v v ≡ some true)
        × (json_eq (array (append_elements xs ys)) (array xs) ≡ some true)
        × (json_eq (array xs) (array (append_elements xs (element y ys))) ≡ none)
  unfolding json_eq compare_values
  json_eq-prefix exact v xs ys y = (
    compare_values-Same exact v false,
    append_elements-left exact xs ys,
    append_elements-right exact xs ys y,
  )
