-- ===== src/Json/Escapes.antt =====
-- What ParseString reads of one char that JsonWriter wrote (src/common/json.cc).
use mathlib.Core.List.{append_assoc, append-nil}
use xgboost.Prelude.{
  ℕ, ◌/◌, ◌%◌, ◌≤◌, ◌≡◌, refl, sym, ap, ◌∙◌, subst, inl, inr, Bool, true, false, not, ◌&&◌, ◌||◌,
  List, [], ◌∷◌, ◌++◌, none, ◌==◌, leb, leb→le, if◌then◌else◌, Bool-cases, ==→eq, arith,
}
use xgboost.Json.Writer.{escape, unicode_escape, hex_digit}
use xgboost.Json.Cursor.{string_loop, unescape, eof}

-- Backspace and form feed are written as escapes that the reader does not know, and the byte 255 is taken
-- for the end of the input.
abbrev pub is_lost : ℕ → Bool
is_lost c = (c == 8) || (c == 12) || (c == eof)

-- The control characters without an escape of their own are written as \u00XX, which is read as it stands.
abbrev pub is_control : ℕ → Bool
is_control c = leb c 31 && not ((c == 10) || (c == 13) || (c == 9))

abbrev pub kept : ℕ → List ℕ
kept c = if is_control c then unicode_escape c else c ∷ []

-- A char that the loop takes as it stands.
abbrev is_plain : ℕ → Bool
is_plain c = not ((c == 92) || (c == 34) || (c == eof) || (c == 13) || (c == 10))

string_loop-plain :
    (str tail : List ℕ) (c : ℕ)
    → is_plain c ≡ true
    → string_loop str (c ∷ tail) ≡ string_loop (str ++ c ∷ []) tail
unfolding string_loop
string_loop-plain str [] c h = ground arith
string_loop-plain str (d ∷ tail) c h =
    let backslash : (c == 92) ≡ false = ground arith in
    let quote : (c == 34) ≡ false = ground arith in
    let stop : ((c == eof) || (c == 13) || (c == 10)) ≡ false = ground arith in
    rw (backslash, quote, stop, string_loop) refl

abbrev ArePlain : List ℕ → Type 0
ArePlain [] = Unit
ArePlain (c ∷ cs) = (is_plain c ≡ true) × ArePlain cs

string_loop-plains :
    (cs str tail : List ℕ)
    → ArePlain cs
    → string_loop str (cs ++ tail) ≡ string_loop (str ++ cs) tail
string_loop-plains [] str tail plain = ap (λ s. string_loop s tail) (sym (append-nil str))
string_loop-plains (c ∷ cs) str tail (h, plain) =
    string_loop-plain str (cs ++ tail) c h
    ∙ string_loop-plains cs (str ++ c ∷ []) tail plain
    ∙ ap (λ s. string_loop s tail) (append_assoc str (c ∷ []) cs)

string_loop-unicode :
    (str tail : List ℕ) (c : ℕ)
    → c ≤ 31
    → string_loop str (unicode_escape c ++ tail) ≡ string_loop (str ++ unicode_escape c) tail
unfolding string_loop unescape
string_loop-unicode str tail c h =
    let high : is_plain (hex_digit (c / 16)) ≡ true = ground arith in
    let low : is_plain (hex_digit (c % 16)) ≡ true = ground arith in
    let four = 48 ∷ 48 ∷ hex_digit (c / 16) ∷ hex_digit (c % 16) ∷ [] in
    string_loop-plains four (str ++ 92 ∷ 117 ∷ []) tail (refl, (refl, (high, (low, tt))))
    ∙ ap (λ s. string_loop s tail) (append_assoc str (92 ∷ 117 ∷ []) four)

string_loop-eof : (str tail : List ℕ) → string_loop str (eof ∷ tail) ≡ none
unfolding string_loop
string_loop-eof str [] = refl
string_loop-eof str (c ∷ tail) = refl

-- A char of the string that is no backslash.
pub string_loop-escape :
    (str tail : List ℕ) (c next : ℕ)
    → (c == 92) ≡ false
    → string_loop str (escape c next ++ tail)
      ≡ (if is_lost c then none else string_loop (str ++ kept c) tail)
unfolding string_loop unescape escape
string_loop-escape str tail c next other = elim (Bool-cases (c == 34)) [
  | inl quote ↦ at_char 34 quote refl
  | inr e1 ↦ elim (Bool-cases (c == 8)) [
    | inl e ↦ at_char 8 e refl
    | inr e2 ↦ elim (Bool-cases (c == 12)) [
      | inl e ↦ at_char 12 e refl
      | inr e3 ↦ elim (Bool-cases (c == 10)) [
        | inl e ↦ at_char 10 e refl
        | inr e4 ↦ elim (Bool-cases (c == 13)) [
          | inl e ↦ at_char 13 e refl
          | inr e5 ↦ elim (Bool-cases (c == 9)) [
            | inl e ↦ at_char 9 e refl
            | inr e6 ↦ elim (Bool-cases (leb c 31)) [
              | inl low ↦
                  let e7 : (c == eof) ≡ false = ground arith in
                  rw (other, e1, e2, e3, e4, e5, e6, low, e7)
                    (string_loop-unicode str tail c (leb→le c 31 low))
              | inr high ↦ elim (Bool-cases (c == eof)) [
                | inl e ↦ at_char eof e (string_loop-eof str tail)
                | inr e7 ↦
                    let plain : is_plain c ≡ true = rw (other, e1, e4, e5, e7) refl in
                    rw (other, e1, e2, e3, e4, e5, e6, high, e7)
                      (string_loop-plain str tail c plain)
              ]
            ]
          ]
        ]
      ]
    ]
  ]
]
  where
    Says : ℕ → Type 0
    Says d =
        string_loop str (escape d next ++ tail)
        ≡ (if is_lost d then none else string_loop (str ++ kept d) tail)

    at_char : (d : ℕ) → (c == d) ≡ true → Says d → Says c
    at_char d e said = subst Says (sym (==→eq c d e)) said

pub string_loop-backslash :
    (str tail : List ℕ) (next : ℕ)
    → (next == 117) ≡ false
    → string_loop str (escape 92 next ++ tail) ≡ string_loop (str ++ kept 92) tail
unfolding string_loop unescape escape
string_loop-backslash str tail next h = rw h refl
