-- ===== src/Threading/Tests.antt =====
-- Runs and instances of the theorems about src/common/threading_utils.h on a space of three rows.
use xgboost.Prelude.{ℕ, zero, suc, ◌+◌, ◌*◌, ◌≡◌, refl, [], ◌∷◌, some, length, arith}
use xgboost.Prelude.Check.{◌>>=◌}
use xgboost.Threading.{
  BlockedSpace2d, make_range, add_block, add_row, add_rows, div_up, blocked_space, parallel_for_2d,
}
use xgboost.Threading.Blocks.{covered, all_cells, Grained, blocked_space-covered}
use xgboost.Threading.Deal.{fold_cells, visit, parallel_for_2d-loop}

-- The example of the class's comment: rows of 2, 4 and 3 cells, cut into blocks of 2.
abbrev row_size : ℕ → ℕ
row_size zero = 2
row_size (suc zero) = 4
row_size (suc (suc i)) = 3

five_blocks :
    (blocked_space 3 row_size 2 >>= λ space. some space.first_dimension)
    ≡ some (0 ∷ 1 ∷ 1 ∷ 2 ∷ 2 ∷ [])
unfolding blocked_space add_rows add_row add_block make_range div_up
five_blocks = refl

blocked_space-covered_example :
    (space : BlockedSpace2d) × (blocked_space 3 row_size 2 ≡ some space)
    × (covered space.first_dimension space.ranges ≡ all_cells row_size 3 0)
    × (length space.first_dimension ≡ length space.ranges)
    × Grained 2 space.ranges
blocked_space-covered_example = blocked_space-covered 3 row_size 2 (omega arith)

abbrev add_cell : ℕ → ℕ → ℕ → ℕ
add_cell i j total = total * 3 + (i + j)

parallel_for_2d-loop_example :
    (blocked_space 3 row_size 2 >>= λ space. parallel_for_2d 8 space 4 (visit add_cell) 0)
    ≡ some (fold_cells add_cell (all_cells row_size 3 0) 0)
parallel_for_2d-loop_example = parallel_for_2d-loop add_cell 8 4 3 row_size 2 0 (omega arith)
