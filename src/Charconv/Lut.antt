-- ===== src/Charconv/Lut.antt =====
-- The table kItoaLut of src/common/charconv.cc, and the rounds that count digits.
use xgboost.Prelude.{
  ℕ, zero, suc, ◌+◌, ◌*◌, ◌/◌, ◌%◌, ◌<◌, ◌≡◌, refl, sym, ap, subst, map, below, get_or, drop,
  ℕ_discrete, arith,
}
use xgboost.Charconv.{itoa_lut, shortest_digit10_impl, tens}
use xgboost.Charconv.Digits.{width, width_last, limit}

agree-below :
    (n : ℕ) (f g : ℕ → ℕ × ℕ) (i : ℕ) → map f (below n) ≡ map g (below n) → i < n → f i ≡ g i
unfolding below
agree-below zero f g i e h = absurd (omega arith)
agree-below (suc n) f g i e h = elim (ℕ_discrete i n) [
  | yes same ↦ subst (λ j. f j ≡ g j) (sym same) (ap (λ xs. get_or xs 0 (f n)) e)
  | no ne ↦ agree-below n f g i (ap (λ xs. drop 1 xs) e) (omega arith)
]

abbrev seen : ℕ → ℕ × ℕ
seen v = (get_or itoa_lut (v * 2) 0, get_or itoa_lut (v * 2 + 1) 0)

abbrev expected : ℕ → ℕ × ℕ
expected v = (48 + v / 10, 48 + v % 10)

table_seen : map seen (below 100) ≡ map expected (below 100)
unfolding below
table_seen = refl

pub tens_char : (v : ℕ) → v < 100 → get_or itoa_lut (v * 2) 0 ≡ 48 + v / 10
tens_char v h = ap (λ w. w.0) (agree-below 100 seen expected v table_seen h)

pub ones_char : (v : ℕ) → v < 100 → get_or itoa_lut (v * 2 + 1) 0 ≡ 48 + v % 10
ones_char v h = ap (λ w. w.1) (agree-below 100 seen expected v table_seen h)

-- The rounds of `width` that `f` rounds of the count stand for, less one.
abbrev pub rounds_of : ℕ → ℕ
rounds_of zero = 1
rounds_of (suc f) = suc (suc (rounds_of f))

-- The count is the number of the digits.
pub shortest_digit10_impl-width :
    (f v n : ℕ)
    → v < limit (rounds_of f)
    → shortest_digit10_impl (suc f) v (suc n) ≡ n + width (rounds_of f) v
unfolding shortest_digit10_impl width width_last limit tens
shortest_digit10_impl-width zero v n h = ground arith
shortest_digit10_impl-width (suc f) v n h =
    let ih = shortest_digit10_impl-width f (v / 10000) (n + 4) (omega arith) in
    let twice : v / 100 / 100 ≡ v / 10000 = omega arith in ground (arith, ih, twice)
