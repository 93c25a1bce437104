-- ===== src/Base64/Alphabet.antt =====
-- The base64 text of RFC 4648, with its alphabet as a table and the 24 bits of three bytes as a number, against what
-- Base64OutStream (src/common/base64.h) writes.
use xgboost.Prelude.{
  ℕ, zero, suc, ◌+◌, ◌*◌, ◌/◌, ◌%◌, ◌<◌, ◌≡◌, refl, sym, ap, ◌∙◌, subst, List, [], ◌∷◌, ◌++◌, map,
  below, get_or, drop, ℕ_discrete, arith,
}
use xgboost.Base64.{encode_char, write, finish}
use xgboost.Base64.Spec.{encode, Bytes}
use xgboost.Base64.Out.{empty, ending, write-encode}

-- A to Z, a to z, 0 to 9, + and /.
abbrev alphabet : List ℕ
alphabet =
    65 ∷ 66 ∷ 67 ∷ 68 ∷ 69 ∷ 70 ∷ 71 ∷ 72 ∷ 73 ∷ 74 ∷ 75 ∷ 76 ∷ 77 ∷ 78 ∷ 79 ∷ 80 ∷ 81 ∷ 82 ∷ 83
    ∷ 84 ∷ 85 ∷ 86 ∷ 87 ∷ 88 ∷ 89 ∷ 90 ∷ 97 ∷ 98 ∷ 99 ∷ 100 ∷ 101 ∷ 102 ∷ 103 ∷ 104 ∷ 105 ∷ 106
    ∷ 107 ∷ 108 ∷ 109 ∷ 110 ∷ 111 ∷ 112 ∷ 113 ∷ 114 ∷ 115 ∷ 116 ∷ 117 ∷ 118 ∷ 119 ∷ 120 ∷ 121 ∷ 122
    ∷ 48 ∷ 49 ∷ 50 ∷ 51 ∷ 52 ∷ 53 ∷ 54 ∷ 55 ∷ 56 ∷ 57 ∷ 43 ∷ 47 ∷ []

abbrev symbol : ℕ → ℕ
symbol v = get_or alphabet v 0

-- The 24 bits of three bytes, as a number.
abbrev bits24 : ℕ → ℕ → ℕ → ℕ
bits24 a b c = a * 65536 + b * 256 + c

-- Three bytes are four symbols, and '=' stands for the symbols that have no bits.
unfoldable pub base64 : List ℕ → List ℕ
base64 [] = []
base64 (a ∷ []) = symbol (bits24 a 0 0 / 262144) ∷ symbol (bits24 a 0 0 / 4096 % 64) ∷ 61 ∷ 61 ∷ []
base64 (a ∷ b ∷ []) =
    symbol (bits24 a b 0 / 262144)
    ∷ symbol (bits24 a b 0 / 4096 % 64)
    ∷ symbol (bits24 a b 0 / 64 % 64)
    ∷ 61
    ∷ []
base64 (a ∷ b ∷ c ∷ bs) =
    symbol (bits24 a b c / 262144)
    ∷ symbol (bits24 a b c / 4096 % 64)
    ∷ symbol (bits24 a b c / 64 % 64)
    ∷ symbol (bits24 a b c % 64)
    ∷ base64 bs

agree-below : (n : ℕ) (f g : ℕ → ℕ) (i : ℕ) → map f (below n) ≡ map g (below n) → i < n → f i ≡ g i
unfolding below
agree-below zero f g i e h = absurd (omega arith)
agree-below (suc n) f g i e h = elim (ℕ_discrete i n) [
  | yes same ↦ subst (λ j. f j ≡ g j) (sym same) (ap (λ xs. get_or xs 0 (f n)) e)
  | no ne ↦ agree-below n f g i (ap (λ xs. drop 1 xs) e) (omega arith)
]

table : map encode_char (below 64) ≡ map symbol (below 64)
unfolding below encode_char
table = refl

encode_char-symbol : (v w : ℕ) → w < 64 → v ≡ w → encode_char v ≡ symbol w
encode_char-symbol v w h e = ap encode_char e ∙ agree-below 64 encode_char symbol w table h

-- For bytes, the quarters of the writer are the six bits.
encode-base64 : (ys : List ℕ) → Bytes ys → encode ys ≡ base64 ys
unfolding encode base64
encode-base64 [] h = refl
encode-base64 (a ∷ []) (ha, h) =
    rw
      (
        encode_char-symbol (a / 4) (bits24 a 0 0 / 262144) (omega arith) (omega arith),
        encode_char-symbol (a * 16 % 64) (bits24 a 0 0 / 4096 % 64) (omega arith) (omega arith),
      )
      refl
encode-base64 (a ∷ b ∷ []) (ha, (hb, h)) =
    rw
      (
        encode_char-symbol (a / 4) (bits24 a b 0 / 262144) (omega arith) (omega arith),
        encode_char-symbol ((a * 16 + b / 16) % 64) (bits24 a b 0 / 4096 % 64) (omega arith)
            (omega arith),
        encode_char-symbol (b * 4 % 64) (bits24 a b 0 / 64 % 64) (omega arith) (omega arith),
      )
      refl
encode-base64 (a ∷ b ∷ c ∷ bs) (ha, (hb, (hc, h))) =
    rw
      (
        encode_char-symbol (a / 4) (bits24 a b c / 262144) (omega arith) (omega arith),
        encode_char-symbol ((a * 16 + b / 16) % 64) (bits24 a b c / 4096 % 64) (omega arith)
            (omega arith),
        encode_char-symbol ((b * 4 + c / 64) % 64) (bits24 a b c / 64 % 64) (omega arith)
            (omega arith),
        encode_char-symbol (c % 64) (bits24 a b c % 64) (omega arith) (omega arith),
        encode-base64 bs h,
      )
      refl

-- Writes of the bytes `ys` to a fresh stream and Finish give the underlying stream the base64 text of `ys` by RFC
-- 4648, padded, and behind it the end character, unless that is EOF.
pub write-base64 :
    (endch : ℕ) (ys : List ℕ)
    → Bytes ys
    → (finish endch (write ys empty)).written ≡ base64 ys ++ ending endch
write-base64 endch ys h = write-encode endch ys ∙ ap (λ t. t ++ ending endch) (encode-base64 ys h)
