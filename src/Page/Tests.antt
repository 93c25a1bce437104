-- ===== src/Page/Tests.antt =====
-- Runs and instances for SparsePage (include/xgboost/data.h, src/data/data.cc).
use xgboost.Prelude.{ℕ, ◌≡◌, List, [], ◌∷◌, some, arith, min}
use xgboost.Page.{SparsePage, get_transpose}
use xgboost.Page.Merge.{merge}
use xgboost.Page.Transpose.{Transposed, get_transpose-Transposed}
use xgboost.Tree.Sample.{toy}
use xgboost.Tree.FVec.{Entry}

abbrev test_entry : ℕ → ℕ → Entry toy
test_entry index fvalue = record { index = index; fvalue = fvalue }

-- Three rows over three columns.
abbrev test_page : SparsePage toy
test_page = record {
  offset = 0 ∷ 2 ∷ 2 ∷ 4 ∷ [];
  data_vec = test_entry 0 50 ∷ test_entry 2 51 ∷ test_entry 1 52 ∷ test_entry 2 53 ∷ [];
  base_rowid = 10;
}

get_transpose-Transposed_example :
    (result : SparsePage toy) × (get_transpose 3 2 (λ i. min i 1) test_page ≡ some result)
    × Transposed test_page result
get_transpose-Transposed_example =
    get_transpose-Transposed 3 2 (λ i. min i 1) test_page (λ i. omega arith) (λ i j h. omega arith)

abbrev test_rows : List (List (Entry toy))
test_rows =
    (test_entry 0 50 ∷ test_entry 2 51 ∷ []) ∷ [] ∷ (test_entry 1 52 ∷ test_entry 2 53 ∷ []) ∷ []

abbrev test_merged : List (List (Entry toy))
test_merged = merge test_rows test_rows

abbrev short_page : SparsePage toy
short_page = record { offset = 0 ∷ 1 ∷ []; data_vec = test_entry 0 50 ∷ []; base_rowid = 0 }

abbrev short_rows : List (List (Entry toy))
short_rows = (test_entry 0 50 ∷ []) ∷ []
