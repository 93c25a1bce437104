-- ===== src/Charconv/Digits.antt =====
-- Decimal texts by themselves, which src/common/charconv.cc writes and src/common/json.cc reads.
use xgboost.Prelude.{
  ℕ, zero, suc, ◌+◌, ◌-◌, ◌*◌, ◌/◌, ◌%◌, ◌≤◌, ◌<◌, ◌≡◌, refl, ap, ◌∙◌, inl, inr, List, [], ◌∷◌,
  ◌++◌, ◌==◌, ◌^◌, leb, if◌then◌else◌, Bool-cases, leb→le, length, arith,
}

-- The number that digits spell behind the digits of `a`.
unfoldable pub horner : ℕ → List ℕ → ℕ
horner a [] = a
horner a (c ∷ cs) = horner (a * 10 + (c - 48)) cs

abbrev pub IsDigit : ℕ → Type 0
IsDigit c = (48 ≤ c) × (c ≤ 57)

abbrev pub AreDigits : List ℕ → Type 0
AreDigits [] = Unit
AreDigits (c ∷ cs) = IsDigit c × AreDigits cs

-- One digit at least, and no 0 before another digit.
abbrev pub Shortest : List ℕ → Type 0
Shortest [] = ⊥
Shortest (c ∷ []) = Unit
Shortest (c ∷ d ∷ cs) = 49 ≤ c

-- `text` is the decimal text of `value`.
pub record Decimal (value : ℕ) (text : List ℕ) : Type 0 where
  pub digits : AreDigits text
  pub value_eq : horner 0 text ≡ value
  pub shortest : Shortest text

unfoldable pub spell_last : ℕ → List ℕ → List ℕ
spell_last v acc = if leb 10 v then (48 + v / 10) ∷ (48 + v % 10) ∷ acc else (48 + v) ∷ acc

-- The digits of `v` before `acc`, two a round.
unfoldable pub spell : ℕ → ℕ → List ℕ → List ℕ
unfolding spell_last
spell zero v acc = spell_last v acc
spell (suc f) v acc =
    let rest = spell f (v / 100) ((48 + v % 100 / 10) ∷ (48 + v % 100 % 10) ∷ acc) in
    if leb 100 v then rest else spell_last v acc

unfoldable pub width_last : ℕ → ℕ
width_last v = if leb 10 v then 2 else 1

unfoldable pub width : ℕ → ℕ → ℕ
unfolding width_last
width zero v = width_last v
width (suc f) v = let rest = width f (v / 100) in if leb 100 v then 2 + rest else width_last v

-- What `f` rounds can spell.
unfoldable pub limit : ℕ → ℕ
limit zero = 100
limit (suc f) = 100 * limit f

pub digit : (d : ℕ) → d < 10 → IsDigit (48 + d)
digit d h = (omega arith, omega arith)

AreDigits-spell_last :
    (v : ℕ) (acc : List ℕ) → v < 100 → AreDigits acc → AreDigits (spell_last v acc)
unfolding spell_last
AreDigits-spell_last v acc h ok = elim (Bool-cases (leb 10 v)) [
  | inl big ↦ rw big (digit (v / 10) (omega arith), (digit (v % 10) (omega arith), ok))
  | inr small ↦ rw small (digit v (ground arith), ok)
]

AreDigits-spell : (f v : ℕ) (acc : List ℕ) → v < limit f → AreDigits acc → AreDigits (spell f v acc)
unfolding spell limit
AreDigits-spell zero v acc h ok = AreDigits-spell_last v acc h ok
AreDigits-spell (suc f) v acc h ok = elim (Bool-cases (leb 100 v)) [
  | inl big ↦ rw big (
      AreDigits-spell f (v / 100) _ (omega arith)
        (digit (v % 100 / 10) (omega arith), (digit (v % 100 % 10) (omega arith), ok)))
  | inr small ↦ rw small (AreDigits-spell_last v acc (ground arith) ok)
]

horner-spell_last : (v : ℕ) (acc : List ℕ) → v < 100 → horner 0 (spell_last v acc) ≡ horner v acc
unfolding spell_last horner
horner-spell_last v acc h = elim (Bool-cases (leb 10 v)) [
  | inl big ↦
      rw (big, horner)
        (ap (λ n. horner n acc)
          (let tens : 48 + v / 10 - 48 ≡ v / 10 = omega arith in
            let ones : 48 + v % 10 - 48 ≡ v % 10 = omega arith in rw (tens, ones) omega arith))
  | inr small ↦ rw (small, horner) (ap (λ n. horner n acc) (omega arith))
]

horner-spell : (f v : ℕ) (acc : List ℕ) → v < limit f → horner 0 (spell f v acc) ≡ horner v acc
unfolding spell limit horner
horner-spell zero v acc h = horner-spell_last v acc h
horner-spell (suc f) v acc h = elim (Bool-cases (leb 100 v)) [
  | inl big ↦
      rw (big, horner)
        (horner-spell f (v / 100) _ (omega arith) ∙ ap (λ n. horner n acc) (two_digits v))
  | inr small ↦ rw (small, horner) (horner-spell_last v acc (ground arith))
]
  where
    two_digits :
        (w : ℕ) → (w / 100 * 10 + (48 + w % 100 / 10 - 48)) * 10 + (48 + w % 100 % 10 - 48) ≡ w
    two_digits w = omega arith

Shortest-spell_last : (v : ℕ) (acc : List ℕ) → 1 ≤ v → Shortest (spell_last v acc)
unfolding spell_last
Shortest-spell_last v acc h = elim (Bool-cases (leb 10 v)) [
  | inl big ↦ rw big omega (arith, leb→le 10 v big)
  | inr small ↦ rw small (alone acc)
]
  where
    alone : (ys : List ℕ) → Shortest ((48 + v) ∷ ys)
    alone [] = tt
    alone (y ∷ ys) = omega arith

Shortest-spell : (f v : ℕ) (acc : List ℕ) → 1 ≤ v → Shortest (spell f v acc)
unfolding spell
Shortest-spell zero v acc h = Shortest-spell_last v acc h
Shortest-spell (suc f) v acc h = elim (Bool-cases (leb 100 v)) [
  | inl big ↦ rw big (Shortest-spell f (v / 100) _ (omega (arith, leb→le 100 v big)))
  | inr small ↦ rw small (Shortest-spell_last v acc h)
]

length-spell_last : (v : ℕ) (acc : List ℕ) → length (spell_last v acc) ≡ width_last v + length acc
unfolding spell_last width_last
length-spell_last v acc = elim (Bool-cases (leb 10 v)) [
  | inl big ↦ rw big omega arith
  | inr small ↦ rw small omega arith
]

pub length-spell : (f v : ℕ) (acc : List ℕ) → length (spell f v acc) ≡ width f v + length acc
unfolding spell width
length-spell zero v acc = length-spell_last v acc
length-spell (suc f) v acc = elim (Bool-cases (leb 100 v)) [
  | inl big ↦
      rw big omega
        (arith, length-spell f (v / 100) ((48 + v % 100 / 10) ∷ (48 + v % 100 % 10) ∷ acc))
  | inr small ↦ rw small (length-spell_last v acc)
]

-- What is spelled is the decimal text.
spell-Decimal : (f v : ℕ) → 1 ≤ v → v < limit f → Decimal v (spell f v [])
unfolding horner
spell-Decimal f v pos h = record {
  digits = AreDigits-spell f v [] h tt;
  value_eq = horner-spell f v [] h;
  shortest = Shortest-spell f v [] pos;
}

pub width_le : (f v : ℕ) → width f v ≤ 2 + 2 * f
unfolding width width_last
width_le zero v = ground arith
width_le (suc f) v = elim (Bool-cases (leb 100 v)) [
  | inl big ↦ rw big omega (arith, width_le f (v / 100))
  | inr small ↦ rw small ground arith
]

pub width_pos : (f v : ℕ) → 1 ≤ width f v
unfolding width width_last
width_pos zero v = ground arith
width_pos (suc f) v = ground arith

spell_last-append : (v : ℕ) (acc ys : List ℕ) → spell_last v (acc ++ ys) ≡ spell_last v acc ++ ys
unfolding spell_last
spell_last-append v acc ys = elim (Bool-cases (leb 10 v)) [
  | inl big ↦ rw big refl
  | inr small ↦ rw small refl
]

pub spell-append : (f v : ℕ) (acc ys : List ℕ) → spell f v (acc ++ ys) ≡ spell f v acc ++ ys
unfolding spell
spell-append zero v acc ys = spell_last-append v acc ys
spell-append (suc f) v acc ys = elim (Bool-cases (leb 100 v)) [
  | inl big ↦ rw big (spell-append f (v / 100) _ ys)
  | inr small ↦ rw small (spell_last-append v acc ys)
]

-- The decimal text of the integer whose bits are `value`.
unfoldable pub printed : ℕ → List ℕ
printed value =
    if value == 0
    then 48 ∷ []
    else if leb (2 ^ 63) value
    then 45 ∷ spell 9 (2 ^ 64 - value) []
    else spell 9 value []

-- `text` is the shortest decimal text of the int64_t whose bits are `value`.
unfoldable pub Integer : ℕ → List ℕ → Type 0
Integer value text =
    if leb (2 ^ 63) value
    then ((digits : List ℕ) × (text ≡ 45 ∷ digits) × Decimal (2 ^ 64 - value) digits)
    else Decimal value text

pub printed-Integer : (value : ℕ) → value < 2 ^ 64 → Integer value (printed value)
unfolding printed Integer
printed-Integer value h = elim (Bool-cases (value == 0)) [
  | inl empty ↦
      let nothing : value ≡ 0 = ground arith in
      rw (nothing, Integer, printed)
        (record {
          digits = ((omega arith, omega arith), tt);
          value_eq = unfold horner in refl;
          shortest = tt;
        })
  | inr other ↦ elim (Bool-cases (leb (2 ^ 63) value)) [
    | inl minus ↦
        rw (minus, other)
          ((
            spell 9 (2 ^ 64 - value) [],
            refl,
            spell-Decimal 9 (2 ^ 64 - value) (omega arith)
                (unfold limit in omega (arith, leb→le (2 ^ 63) value minus)),
          ))
    | inr plus ↦
        rw (plus, other) (spell-Decimal 9 value (ground arith) (unfold limit in omega arith))
  ]
]
