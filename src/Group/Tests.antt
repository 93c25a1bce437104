-- ===== src/Group/Tests.antt =====
-- Runs and instances for ParallelGroupBuilder (src/common/group_data.h).
use xgboost.Prelude.{ℕ, ◌≡◌, refl, false, List, [], ◌∷◌, some, Bool-cases, inl, inr, arith, length}
use xgboost.Group.{ParallelGroupBuilder}
use xgboost.Group.Spec.{Call, items, hits, total}
use xgboost.Group.Grouped.{build, build-Grouped, Grouped}

-- A budget of 1 for each call.
unfoldable ones : List (Call ℕ) → List (Call ℕ)
ones [] = []
ones (call ∷ calls) = record call { item = 1 } ∷ ones calls

total-ones :
    (base : ℕ) (calls : List (Call ℕ)) (o t : ℕ)
    → total (items base (ones calls) o t) ≡ length (items base calls o t)
unfolding ones items total
total-ones base [] o t = refl
total-ones base (call ∷ calls) o t =
    let rest = total-ones base calls o t in
    elim (Bool-cases (hits base call o t)) [
      | inl h ↦ rw (h) (omega (arith, rest))
      | inr h ↦ rw (h) rest
    ]

abbrev test_call : ℕ → ℕ → ℕ → Call ℕ
test_call key thread item = record { key = key; thread = thread; item = item }

-- Two threads push to the keys 1 and 2, behind one old row.
abbrev test_calls : List (Call ℕ)
test_calls = test_call 1 1 20 ∷ test_call 2 1 30 ∷ test_call 1 0 10 ∷ test_call 1 1 21 ∷ []

build-Grouped_example :
    (b : ParallelGroupBuilder ℕ) × (build false 0
        (0 ∷ 2 ∷ [])
        (7 ∷ 8 ∷ [])
        1
        3
        2
        (ones test_calls)
        test_calls
      ≡ some b)
    × Grouped (0 ∷ 2 ∷ []) (7 ∷ 8 ∷ []) 1 2 test_calls b
unfolding ones
build-Grouped_example =
    build-Grouped 0 (0 ∷ 2 ∷ []) (7 ∷ 8 ∷ []) 1 3 2 (ones test_calls) test_calls refl refl
      (
        omega arith,
        omega arith,
        (omega arith, omega arith, (omega arith, omega arith, (omega arith, omega arith, tt))),
      )
      (
        omega arith,
        omega arith,
        (omega arith, omega arith, (omega arith, omega arith, (omega arith, omega arith, tt))),
      )
      (total-ones 1 test_calls)
