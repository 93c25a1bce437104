-- ===== src/RowSet/Tests.antt =====
-- Instances of the theorems about RowSetCollection (src/common/row_set.h) on four rows.
use xgboost.Prelude.{◌≡◌, refl, [], ◌∷◌, some, arith}
use xgboost.RowSet.{RowSetCollection, init, size, elem_at, elem_of, add_split}
use xgboost.RowSet.Cover.{Covers, init-Covers}
use xgboost.RowSet.Split.{Divided, add_split-Covers}

abbrev bare : RowSetCollection
bare = record { row_indices = 4 ∷ 0 ∷ 3 ∷ 1 ∷ []; elem_of_each_node = [] }

abbrev rooted : RowSetCollection
rooted = record bare { elem_of_each_node = elem_of 0 4 0 ∷ [] }

rooted-Covers : Covers rooted (0 ∷ [])
unfolding init elem_at
rooted-Covers = record {
  chain = (4, refl, omega arith, omega arith, refl);
  distinct = (init-Covers bare refl).3.distinct;
}

add_split-Covers_example :
    (c' : RowSetCollection) × (add_split rooted 0 1 2 1 3 ≡ some c')
    × Covers c' (1 ∷ 2 ∷ [])
    × Divided rooted 0 1 2 1 c'
unfolding size elem_at
add_split-Covers_example =
    add_split-Covers rooted 0 [] [] rooted-Covers 1 2 1 3 (omega arith) (omega arith)
      (λ e. omega arith) refl
