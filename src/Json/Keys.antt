-- ===== src/Json/Keys.antt =====
-- An object stays a std::map in order under `map[key] = value` (src/common/json.cc).
use xgboost.Prelude.{
  ℕ, ◌≡◌, refl, inl, inr, true, false, List, [], ◌∷◌, ◌==◌, ltb, Bool-cases, arith,
}
use xgboost.Json.Value.{FloatFormat, Json, Members, no_member, member, key_lt, insert}
use xgboost.Json.Valid.{AllAbove, Sorted, IsValid, AreValidMembers}

key_lt_trans : (a b c : List ℕ) → key_lt a b ≡ true → key_lt b c ≡ true → key_lt a c ≡ true
unfolding key_lt
key_lt_trans [] [] c h k = k
key_lt_trans [] (y ∷ ys) [] h k = k
key_lt_trans [] (y ∷ ys) (z ∷ zs) h k = refl
key_lt_trans (x ∷ xs) [] c h k = absurd (ground (arith, h))
key_lt_trans (x ∷ xs) (y ∷ ys) [] h k = k
key_lt_trans (x ∷ xs) (y ∷ ys) (z ∷ zs) h k = elim (Bool-cases (x == y)) [
  | inl xy ↦ elim (Bool-cases (y == z)) [
    | inl yz ↦
        let xz : (x == z) ≡ true = ground arith in
        let ih = key_lt_trans xs ys zs (rw (xy, key_lt) at h) (rw (yz, key_lt) at k) in
        rw (xz, key_lt) ih
    | inr yz ↦
        let lt : ltb y z ≡ true = rw (yz, key_lt) at k in
        let xz : (x == z) ≡ false = ground arith in
        let above : ltb x z ≡ true = ground arith in rw (xz, key_lt) above
  ]
  | inr xy ↦ elim (Bool-cases (y == z)) [
    | inl yz ↦
        let lt : ltb x y ≡ true = rw (xy, key_lt) at h in
        let xz : (x == z) ≡ false = ground arith in
        let above : ltb x z ≡ true = ground arith in rw (xz, key_lt) above
    | inr yz ↦
        let lt : ltb x y ≡ true = rw (xy, key_lt) at h in
        let lt' : ltb y z ≡ true = rw (yz, key_lt) at k in
        let xz : (x == z) ≡ false = ground arith in
        let above : ltb x z ≡ true = ground arith in rw (xz, key_lt) above
  ]
]

module _ {F : FloatFormat} where
  AllAbove-trans :
      (a b : List ℕ) (xs : Members F) → key_lt a b ≡ true → AllAbove b xs → AllAbove a xs
  AllAbove-trans a b no_member h above = tt
  AllAbove-trans a b (member k v xs) h (first, rest) =
      (key_lt_trans a b k h first, AllAbove-trans a b xs h rest)

  AllAbove-insert :
      (a key : List ℕ) (value : Json F) (xs : Members F)
      → key_lt a key ≡ true
      → AllAbove a xs
      → AllAbove a (insert key value xs)
  unfolding insert
  AllAbove-insert a key value no_member h above = (h, tt)
  AllAbove-insert a key value (member k v xs) h (first, rest) = elim (Bool-cases (key_lt key k)) [
    | inl before ↦ rw (before, insert) (h, (first, rest))
    | inr no_before ↦ elim (Bool-cases (key_lt k key)) [
      | inl after ↦ rw (no_before, after, insert) (first, AllAbove-insert a key value xs h rest)
      | inr same ↦ rw (no_before, same, insert) (first, rest)
    ]
  ]

  -- `map[key] = value` keeps the keys in order and each of them once.
  pub insert-Sorted :
      (key : List ℕ) (value : Json F) (xs : Members F) → Sorted xs → Sorted (insert key value xs)
  unfolding insert
  insert-Sorted key value no_member sorted = (tt, tt)
  insert-Sorted key value (member k v xs) (above, sorted) = elim (Bool-cases (key_lt key k)) [
    | inl before ↦
        rw (before, insert) ((before, AllAbove-trans key k xs before above), (above, sorted))
    | inr no_before ↦ elim (Bool-cases (key_lt k key)) [
      | inl after ↦
          rw (no_before, after, insert)
            (AllAbove-insert k key value xs after above, insert-Sorted key value xs sorted)
      | inr same ↦ rw (no_before, same, insert) (above, sorted)
    ]
  ]

  pub AreValidMembers-insert :
      (key : List ℕ) (value : Json F) (xs : Members F)
      → IsValid value
      → AreValidMembers xs
      → AreValidMembers (insert key value xs)
  unfolding insert IsValid
  AreValidMembers-insert key value no_member valid rest = (valid, tt)
  AreValidMembers-insert key value (member k v xs) valid (first, rest) =
      elim (Bool-cases (key_lt key k)) [
        | inl before ↦ rw (before, insert) (valid, (first, rest))
        | inr no_before ↦ elim (Bool-cases (key_lt k key)) [
          | inl after ↦
              rw (no_before, after, insert) (first, AreValidMembers-insert key value xs valid rest)
          | inr same ↦ rw (no_before, same, insert) (valid, rest)
        ]
      ]
