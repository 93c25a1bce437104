-- ===== src/Prelude/Sets.antt =====
-- std::unordered_set of numbers, as a list without repetition, and its tests. The order of the list
-- stands for the order of iteration.
use Prim.Native.Nat.{ℕ}
use native.Mathlib.Omega.{arith}
use mathlib.Core.Path.{◌≡◌, refl, ap, ◌∙◌}
use mathlib.Core.Logic.{inl, inr}
use mathlib.Core.Bool.{Bool, true, false, ◌&&◌, ◌||◌}
use mathlib.Core.List.{List, [], ◌∷◌}
use xgboost.Prelude.Tests.{◌==◌, if◌then◌else◌, Bool-cases, ==→eq}

-- `s.count(x)`
unfoldable pub elem : ℕ → List ℕ → Bool
elem x [] = false
elem x (y ∷ ys) = (x == y) || elem x ys

-- `s.insert(x)`
abbrev pub insert : ℕ → List ℕ → List ℕ
insert x s = if elem x s then s else x ∷ s

-- The elements of a sequence are inserted in turn.
unfoldable pub insert_all : List ℕ → List ℕ → List ℕ
insert_all [] s = s
insert_all (x ∷ xs) s = insert_all xs (insert x s)

-- Every element of the first set is in the second.
unfoldable pub subset : List ℕ → List ℕ → Bool
subset [] c = true
subset (x ∷ xs) c = elem x c && subset xs c

pub elem-insert : (y x : ℕ) (s : List ℕ) → elem y (insert x s) ≡ (y == x) || elem y s
unfolding elem
elem-insert y x s = elim (Bool-cases (elem x s)) [
  | inl e ↦ rw e (elim (Bool-cases (y == x)) [
    | inl same ↦ rw (same, ==→eq y x same) e
    | inr differ ↦ rw (differ) refl
  ])
  | inr e ↦ rw e refl
]

pub elem-insert_all : (y : ℕ) (xs s : List ℕ) → elem y (insert_all xs s) ≡ elem y xs || elem y s
unfolding insert_all elem
elem-insert_all y [] s = refl
elem-insert_all y (x ∷ xs) s =
    elem-insert_all y xs (insert x s)
    ∙ ap (λ b. elem y xs || b) (elem-insert y x s)
    ∙ swap (elem y xs) (y == x) (elem y s)
  where
    swap : (a b c : Bool) → a || (b || c) ≡ (b || a) || c
    swap true true c = refl
    swap true false c = refl
    swap false true c = refl
    swap false false c = refl

pub elem_of_subset : (x : ℕ) (s c : List ℕ) → elem x s ≡ true → subset s c ≡ true → elem x c ≡ true
unfolding elem subset
elem_of_subset x [] c m h = ground arith
elem_of_subset x (y ∷ ys) c m h = elim (Bool-cases (x == y)) [
  | inl same ↦ rw (==→eq x y same) (ground arith)
  | inr differ ↦ elem_of_subset x ys c (ground arith) (ground arith)
]

pub subset-insert : (x : ℕ) (s c : List ℕ) → subset (insert x s) c ≡ elem x c && subset s c
unfolding subset
subset-insert x s c = elim (Bool-cases (elem x s)) [
  | inl e ↦ rw e (elim (Bool-cases (subset s c)) [
    | inl all ↦ rw (all, elem_of_subset x s c e all) refl
    | inr fails ↦ rw fails (and_false (elem x c))
  ])
  | inr e ↦ rw e refl
]
  where
    and_false : (a : Bool) → false ≡ a && false
    and_false true = refl
    and_false false = refl
