-- ===== src/Charconv/Buffer.antt =====
-- Chars written into an array, in the loop of src/common/charconv.cc.
use xgboost.Prelude.{
  ℕ, zero, suc, ◌+◌, ◌≤◌, ◌≡◌, refl, sym, ap, ◌∙◌, List, [], ◌∷◌, ◌++◌, take, set, length,
  length-append, arith,
}
use mathlib.Core.List.{append_assoc}

pub set_behind :
    (head ys : List ℕ) (i c : ℕ) → set (head ++ ys) (length head + i) c ≡ head ++ set ys i c
set_behind [] ys i c = ap (λ n. set ys n c) (omega arith)
set_behind (x ∷ head) ys i c =
    ap (λ n. set (x ∷ (head ++ ys)) n c) (succ (length head) i)
    ∙ ap (λ zs. x ∷ zs) (set_behind head ys i c)
  where
    succ : (a b : ℕ) → suc a + b ≡ suc (a + b)
    succ a b = omega arith

pub length-take_exact : (n : ℕ) (xs : List ℕ) → n ≤ length xs → length (take n xs) ≡ n
length-take_exact zero xs h = refl
length-take_exact (suc n) [] h = absurd (omega arith)
length-take_exact (suc n) (x ∷ xs) h = ap suc (length-take_exact n xs (omega arith))

-- Two chars written over the last two of `pre`.
pub put_two :
    (n : ℕ) (pre ys : List ℕ) (a b : ℕ)
    → length pre ≡ suc (suc n)
    → set (set (pre ++ ys) (suc n) b) n a ≡ take n pre ++ a ∷ b ∷ ys
put_two n [] ys a b h = absurd (omega arith)
put_two n (x ∷ []) ys a b h = absurd (omega arith)
put_two zero (x ∷ y ∷ []) ys a b h = refl
put_two zero (x ∷ y ∷ z ∷ pre) ys a b h = absurd (omega arith)
put_two (suc n) (x ∷ y ∷ pre) ys a b h =
    ap (λ zs. x ∷ zs) (put_two n (y ∷ pre) ys a b (omega arith))

pub set_at : (head ys : List ℕ) (y c : ℕ) → set (head ++ y ∷ ys) (length head) c ≡ head ++ c ∷ ys
set_at [] ys y c = refl
set_at (x ∷ head) ys y c = ap (λ zs. x ∷ zs) (set_at head ys y c)

pub take-append : (xs ys : List ℕ) → take (length xs) (xs ++ ys) ≡ xs
take-append [] ys = refl
take-append (x ∷ xs) ys = ap (λ zs. x ∷ zs) (take-append xs ys)

pub take-head :
    (head xs ys : List ℕ) → take (length head + length xs) (head ++ (xs ++ ys)) ≡ head ++ xs
take-head head xs ys =
    ap (λ n. take n (head ++ (xs ++ ys))) (sym (length-append head xs))
    ∙ ap (λ zs. take (length (head ++ xs)) zs) (sym (append_assoc head xs ys))
    ∙ take-append (head ++ xs) ys
