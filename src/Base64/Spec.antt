-- ===== src/Base64/Spec.antt =====
-- The base64 text of a list of bytes, by itself, and what its characters decode to (src/common/base64.h).
use xgboost.Prelude.{
  ℕ, zero, suc, ◌+◌, ◌*◌, ◌/◌, ◌%◌, ◌<◌, ◌≡◌, refl, sym, ap, subst, Bool, false, List, [], ◌∷◌, map,
  below, get_or, drop, ◌==◌, ℕ_discrete, arith,
}
use xgboost.Base64.{encode_char, decode_char, is_end, is_space, pad}

abbrev first_char : ℕ → ℕ
first_char a = encode_char (a / 4)

unfoldable pub encode : List ℕ → List ℕ
encode [] = []
encode (a ∷ []) = encode_char (a / 4) ∷ encode_char (a * 16 % 64) ∷ pad ∷ pad ∷ []
encode (a ∷ b ∷ []) =
    encode_char (a / 4) ∷ encode_char ((a * 16 + b / 16) % 64) ∷ encode_char (b * 4 % 64) ∷ pad ∷ []
encode (a ∷ b ∷ c ∷ bs) =
    encode_char (a / 4)
    ∷ encode_char ((a * 16 + b / 16) % 64)
    ∷ encode_char ((b * 4 + c / 64) % 64)
    ∷ encode_char (c % 64)
    ∷ encode bs

abbrev pub Bytes : List ℕ → Type 0
Bytes [] = Unit
Bytes (b ∷ bs) = (b < 256) × Bytes bs

-- Two functions that agree on the list of the numbers below `n` agree at each of them.
agree-below :
    (n : ℕ) (f g : ℕ → ℕ × Bool × Bool) (i : ℕ)
    → map f (below n) ≡ map g (below n)
    → i < n
    → f i ≡ g i
unfolding below
agree-below zero f g i e h = absurd (omega arith)
agree-below (suc n) f g i e h = elim (ℕ_discrete i n) [
  | yes same ↦ subst (λ j. f j ≡ g j) (sym same) (ap (λ xs. get_or xs 0 (f n)) e)
  | no ne ↦ agree-below n f g i (ap (λ xs. drop 1 xs) e) (omega arith)
]

-- What a character of the encoding's table decodes to, whether it ends a text, whether it is the padding.
abbrev seen : ℕ → ℕ × Bool × Bool
seen v = (decode_char (encode_char v), is_end (encode_char v), encode_char v == pad)

abbrev expected : ℕ → ℕ × Bool × Bool
expected v = (v, false, false)

table_seen : map seen (below 64) ≡ map expected (below 64)
unfolding below decode_char encode_char is_end is_space
table_seen = refl

pub decode-encode_char : (v : ℕ) → v < 64 → decode_char (encode_char v) ≡ v
decode-encode_char v h = ap (λ w. w.0) (agree-below 64 seen expected v table_seen h)

pub is_end-encode_char : (v : ℕ) → v < 64 → is_end (encode_char v) ≡ false
is_end-encode_char v h = ap (λ w. w.1) (agree-below 64 seen expected v table_seen h)

pub encode_char-not_pad : (v : ℕ) → v < 64 → (encode_char v == pad) ≡ false
encode_char-not_pad v h = ap (λ w. w.2) (agree-below 64 seen expected v table_seen h)
