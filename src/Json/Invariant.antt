-- ===== src/Json/Invariant.antt =====
-- What JsonReader (src/common/json.cc) returns for any input: a value that the library can hold, and no more of the
-- input than there was.
use xgboost.Prelude.{
  ℕ, ◌+◌, ◌-◌, ◌*◌, ◌%◌, ◌^◌, ◌≤◌, ◌<◌, inl, inr, Bool, true, false, ◌||◌, List, [], ◌∷◌, ◌==◌,
  Bool-cases, Option-cases, drop, take, length, arith,
}
use xgboost.Prelude.Check.{Holds, Holds->>=}
use xgboost.Json.Value.{FloatFormat, Json}
use xgboost.Json.Cursor.{get_consecutive_chars}
use xgboost.Json.Number.{
  is_digit, at, read_digits, skip_digits, read_whole, read_fraction, skip_sign, read_exponent,
  finish_number, scan_number, parse_number,
}
use xgboost.Json.Valid.{IsValid}
use xgboost.Json.Lengths.{Rest, RestOf, length-get_consecutive_chars}

length-read_digits :
    (s : List ℕ) (i : ℕ)
    → i < 2 ^ 64
    → ((read_digits i s).0 < 2 ^ 64) × (length (read_digits i s).1 ≤ length s)
unfolding read_digits
length-read_digits [] i h = (h, omega arith)
length-read_digits (c ∷ s) i h = elim (Bool-cases (is_digit c)) [
  | inl digit ↦
      let ih = length-read_digits s ((i * 10 + (c - 48)) % 2 ^ 64) (omega arith) in
      rw (digit, read_digits) (ih.0, omega (arith, ih.1))
  | inr other ↦ rw (other, read_digits) (h, omega arith)
]

length-skip_digits : (s : List ℕ) → length (skip_digits s) ≤ length s
unfolding skip_digits
length-skip_digits [] = omega arith
length-skip_digits (c ∷ s) = elim (Bool-cases (is_digit c)) [
  | inl digit ↦ rw (digit, skip_digits) omega (arith, length-skip_digits s)
  | inr other ↦ rw (other, skip_digits) omega arith
]

length-drop_one : (s : List ℕ) → length (drop 1 s) ≤ length s
length-drop_one [] = omega arith
length-drop_one (c ∷ s) = omega arith

length-read_whole :
    (s : List ℕ) → ((read_whole s).0 < 2 ^ 64) × (length (read_whole s).1 ≤ length s)
unfolding read_whole
length-read_whole s = elim (Bool-cases (at s == 48)) [
  | inl lead ↦
      let rest = length-read_digits (drop 1 s) 0 (omega arith) in
      rw lead (rest.0, omega (arith, rest.1, length-drop_one s))
  | inr other ↦ rw other (length-read_digits s 0 (omega arith))
]

length-read_fraction : (s : List ℕ) → length (read_fraction s).1 ≤ length s
unfolding read_fraction
length-read_fraction s = elim (Bool-cases (at s == 46)) [
  | inl point ↦ rw point omega (arith, length-skip_digits (drop 1 s), length-drop_one s)
  | inr other ↦ rw other omega arith
]

length-skip_sign : (s : List ℕ) → length (skip_sign s) ≤ length s
unfolding skip_sign
length-skip_sign s = elim (Bool-cases ((at s == 45) || (at s == 43))) [
  | inl sign ↦ rw sign (length-drop_one s)
  | inr other ↦ rw other omega arith
]

length-read_exponent : (s : List ℕ) → Holds (RestOf s) (read_exponent s)
unfolding read_exponent
length-read_exponent s = elim (Bool-cases ((at s == 69) || (at s == 101))) [
  | inl e ↦ elim (Bool-cases (is_digit (at (skip_sign (drop 1 s))))) [
    | inl digit ↦
        rw (e, digit) omega
          (
            arith,
            length-skip_digits (skip_sign (drop 1 s)),
            length-skip_sign (drop 1 s),
            length-drop_one s,
          )
    | inr other ↦ rw (e, other) tt
  ]
  | inr other ↦ rw other omega arith
]

module _ {F : FloatFormat} where
  -- A result for the input `s`.
  abbrev pub Good : List ℕ → Json F × List ℕ → Type 0
  Good s w = IsValid w.0 × (length w.1 ≤ length s)

module _ (F : FloatFormat) where
  finish_number-Good :
      (s beg p : List ℕ) (negative is_float : Bool) (i : ℕ)
      → i < 2 ^ 64
      → length p ≤ length s
      → Good {F = F} s (finish_number {F = F} beg negative is_float i p)
  unfolding finish_number IsValid
  finish_number-Good s beg p true false i h less = (omega arith, less)
  finish_number-Good s beg p false false i h less = (h, less)
  finish_number-Good s beg p negative true i h less =
      elim (Option-cases (F.scan_float (take (length beg - length p) beg))) [
        | inl failed ↦ rw (failed, finish_number) (tt, less)
        | inr (x, read) ↦ rw (read, finish_number) (tt, less)
      ]

  pub parse_number-Good : (s : List ℕ) → Holds (Good {F = F} s) (parse_number s)
  unfolding parse_number scan_number IsValid
  parse_number-Good s =
      let text = skip_sign s in
      let sign = length-skip_sign s in
      elim (Bool-cases (at s == 78)) [
        | inl nan ↦ rw nan (
            Holds->>= (Rest s) (Good {F = F} s) (get_consecutive_chars _ s) _
              (length-get_consecutive_chars _ s) (λ r h. (tt, h)))
        | inr other ↦ elim (Bool-cases (at text == 73)) [
          | inl infinite ↦
              rw (other, infinite)
                (Holds->>= (Rest text) (Good {F = F} s) (get_consecutive_chars _ text) _
                  (length-get_consecutive_chars _ text) (λ r h. (tt, omega arith)))
          | inr digits ↦
              rw (other, digits)
                (let whole = length-read_whole text in
                  let fraction = length-read_fraction (read_whole text).1 in
                  let behind = (read_fraction (read_whole text).1).1 in
                  Holds->>= (RestOf behind) (Good {F = F} s) (read_exponent behind) _
                    (length-read_exponent behind)
                    (λ e h. finish_number-Good s s e.1 _ _ _ whole.0 (omega (arith, whole.1))))
        ]
      ]
