-- ===== src/Json/Value.antt =====
-- The values of include/xgboost/json.h. A string is the list of its bytes, an int64_t the number below
-- 2 ^ 64 with its bits.
use xgboost.Prelude.{ℕ, suc, Bool, true, false, List, [], ◌∷◌, Option, ◌==◌, ltb}

-- `float`, and what the repository's copy of Ryu does with it: `print_float` gives the chars before the
-- pointer of to_chars, `scan_float` the value, or `none` with an error code. strtof, isinf and isnan are the C library's, and
-- `difference_is_zero x y` is x - y == 0.
pub record FloatFormat : Type 1 where
  pub Carrier : Type 0
  pub quiet_nan : Carrier
  pub infinity : Carrier
  pub opposite : Carrier → Carrier
  pub print_float : Carrier → List ℕ
  pub scan_float : List ℕ → Option Carrier
  pub strtof : List ℕ → Carrier
  pub is_inf : Carrier → Bool
  pub is_nan : Carrier → Bool
  pub difference_is_zero : Carrier → Carrier → Bool

-- JsonString, JsonNumber, JsonInteger, JsonObject, JsonArray, JsonBoolean and JsonNull. `Elements` is the
-- vector of an array, `Members` the std::map of an object, in the order of its keys.
mutual
  pub data Json (F : FloatFormat) : Type 0 where
    string : List ℕ → Json F
    number : F.Carrier → Json F
    integer : ℕ → Json F
    object : Members F → Json F
    array : Elements F → Json F
    boolean : Bool → Json F
    null : Json F

  pub data Elements (F : FloatFormat) : Type 0 where
    no_element : Elements F
    element : Json F → Elements F → Elements F

  pub data Members (F : FloatFormat) : Type 0 where
    no_member : Members F
    member : List ℕ → Json F → Members F → Members F

-- operator< of std::string: by bytes, the shorter of two that agree first.
unfoldable pub key_lt : List ℕ → List ℕ → Bool
key_lt [] [] = false
key_lt [] (d ∷ ds) = true
key_lt (c ∷ cs) [] = false
key_lt (c ∷ cs) (d ∷ ds) = elim (c == d) [ true ↦ key_lt cs ds | false ↦ ltb c d ]

module _ {F : FloatFormat} where
  -- `map[key] = value`
  unfoldable pub insert : List ℕ → Json F → Members F → Members F
  insert key value no_member = member key value no_member
  insert key value (member k v rest) = elim (key_lt key k) [
    | true ↦ member key value (member k v rest)
    | false ↦ elim (key_lt k key) [
      | true ↦ member k v (insert key value rest)
      | false ↦ member k value rest
    ]
  ]

  -- emplace_back
  unfoldable pub push_back : Elements F → Json F → Elements F
  push_back no_element value = element value no_element
  push_back (element v rest) value = element v (push_back rest value)

  -- size() of a vector and of a map
  unfoldable pub num_elements : Elements F → ℕ
  num_elements no_element = 0
  num_elements (element v rest) = suc (num_elements rest)

  unfoldable pub num_members : Members F → ℕ
  num_members no_member = 0
  num_members (member k v rest) = suc (num_members rest)
