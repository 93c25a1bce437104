-- ===== src/Json/Order.antt =====
-- The order of the keys of an object, std::map<std::string, Json> of include/xgboost/json.h.
use xgboost.Prelude.{
  ℕ, ◌≡◌, refl, sym, ap, inl, inr, true, false, List, [], ◌∷◌, ◌==◌, ltb, Bool-cases, arith,
}
use xgboost.Json.Value.{
  FloatFormat, Json, Elements, Members, no_element, element, no_member, member, key_lt, insert,
  push_back,
}
use xgboost.Json.Valid.{AllAbove, Sorted}

key_lt_asymm : (a b : List ℕ) → key_lt a b ≡ true → key_lt b a ≡ false
unfolding key_lt
key_lt_asymm [] [] h = refl
key_lt_asymm [] (d ∷ ds) h = refl
key_lt_asymm (c ∷ cs) [] h = sym h
key_lt_asymm (c ∷ cs) (d ∷ ds) h = elim (Bool-cases (c == d)) [
  | inl same ↦
      let back : (d == c) ≡ true = ground arith in
      let ih = key_lt_asymm cs ds (rw (same, key_lt) at h) in rw (back, key_lt) ih
  | inr other ↦
      let back : (d == c) ≡ false = ground arith in
      let below : ltb c d ≡ true = rw (other, key_lt) at h in
      let above : ltb d c ≡ false = ground arith in rw (back, key_lt) above
]

module _ {F : FloatFormat} where
  abbrev pub append_elements : Elements F → Elements F → Elements F
  append_elements no_element ys = ys
  append_elements (element v xs) ys = element v (append_elements xs ys)

  abbrev pub append_members : Members F → Members F → Members F
  append_members no_member ys = ys
  append_members (member k v xs) ys = member k v (append_members xs ys)

  pub append_elements-no_element : (xs : Elements F) → append_elements xs no_element ≡ xs
  append_elements-no_element no_element = refl
  append_elements-no_element (element v xs) = ap (element v) (append_elements-no_element xs)

  pub append_members-no_member : (xs : Members F) → append_members xs no_member ≡ xs
  append_members-no_member no_member = refl
  append_members-no_member (member k v xs) = ap (member k v) (append_members-no_member xs)

  pub append_elements-push_back :
      (xs ys : Elements F) (v : Json F)
      → append_elements (push_back xs v) ys ≡ append_elements xs (element v ys)
  unfolding push_back
  append_elements-push_back no_element ys v = refl
  append_elements-push_back (element w xs) ys v = ap (element w) (append_elements-push_back xs ys v)

  above_appended :
      (k key : List ℕ) (v : Json F) (xs ys : Members F)
      → AllAbove k (append_members xs (member key v ys))
      → key_lt k key ≡ true
  above_appended k key v no_member ys above = above.0
  above_appended k key v (member k' v' xs) ys above = above_appended k key v xs ys above.1

  -- A key above those of the map goes to its end.
  pub append_members-insert :
      (key : List ℕ) (v : Json F) (xs ys : Members F)
      → Sorted (append_members xs (member key v ys))
      → append_members (insert key v xs) ys ≡ append_members xs (member key v ys)
  unfolding insert
  append_members-insert key v no_member ys sorted = refl
  append_members-insert key v (member k w xs) ys sorted =
      let above = above_appended k key v xs ys sorted.0 in
      rw (key_lt_asymm k key above, above, insert)
        (ap (member k w) (append_members-insert key v xs ys sorted.1))
