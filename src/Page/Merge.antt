-- ===== src/Page/Merge.antt =====
-- PushCSC of SparsePage (src/data/data.cc): each column of the batch comes behind the same column of the page.
use xgboost.Prelude.{true, false, List, [], ◌∷◌, ◌++◌, none, some, Bool, Option}
use xgboost.Float.{Float}

-- The rows of two pages, each behind the other.
unfoldable pub merge {ℓ} : {A : Type ℓ} → List (List A) → List (List A) → List (List A)
merge [] ys = ys
merge (x ∷ xs) [] = x ∷ xs
merge (x ∷ xs) (y ∷ ys) = (x ++ y) ∷ merge xs ys

-- No result: a check has failed.
unfoldable pub failed : {A : Type 0} → Option A → Bool
failed none = true
failed (some x) = false
