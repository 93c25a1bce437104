-- ===== src/Json/Valid.antt =====
-- What holds of every value of include/xgboost/json.h, and which values the writer and the reader keep.
use xgboost.Prelude.{ℕ, ◌^◌, ◌<◌, ◌≡◌, true, List}
use xgboost.Json.Value.{
  FloatFormat, Json, Elements, Members, string, number, integer, object, array, boolean, null,
  no_element, element, no_member, member, key_lt,
}
use xgboost.Json.Strings.{AreKept}
use xgboost.Json.Floats.{Spelled}

module _ {F : FloatFormat} where
  -- Every key of a map is above `key`.
  abbrev pub AllAbove : List ℕ → Members F → Type 0
  AllAbove key no_member = Unit
  AllAbove key (member k v rest) = (key_lt key k ≡ true) × AllAbove key rest

  -- The order of a std::map, each key once.
  abbrev pub Sorted : Members F → Type 0
  Sorted no_member = Unit
  Sorted (member k v rest) = AllAbove k rest × Sorted rest

  -- Integers of 64 bits, and maps in order.
  unfoldable mutual
    pub IsValid : Json F → Type 0
    IsValid (string s) = Unit
    IsValid (number x) = Unit
    IsValid (integer i) = i < 2 ^ 64
    IsValid (object members) = Sorted members × AreValidMembers members
    IsValid (array elements) = AreValid elements
    IsValid (boolean b) = Unit
    IsValid null = Unit

    pub AreValid : Elements F → Type 0
    AreValid no_element = Unit
    AreValid (element v rest) = IsValid v × AreValid rest

    pub AreValidMembers : Members F → Type 0
    AreValidMembers no_member = Unit
    AreValidMembers (member k v rest) = IsValid v × AreValidMembers rest

  -- Strings and keys of bytes that come back, and floats that Ryu prints and reads as documented.
  unfoldable mutual
    pub IsReadable : Json F → Type 0
    IsReadable (string s) = AreKept s
    IsReadable (number x) = Spelled F x (F.print_float x)
    IsReadable (integer i) = Unit
    IsReadable (object members) = AreReadableMembers members
    IsReadable (array elements) = AreReadable elements
    IsReadable (boolean b) = Unit
    IsReadable null = Unit

    pub AreReadable : Elements F → Type 0
    AreReadable no_element = Unit
    AreReadable (element v rest) = IsReadable v × AreReadable rest

    pub AreReadableMembers : Members F → Type 0
    AreReadableMembers no_member = Unit
    AreReadableMembers (member k v rest) = AreKept k × (IsReadable v × AreReadableMembers rest)
