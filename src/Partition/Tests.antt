-- ===== src/Partition/Tests.antt =====
-- A run and an instance of the theorem about PartitionBuilder (src/common/row_set.h), on two nodes.
use xgboost.Prelude.{ℕ, ◌-◌, ◌≡◌, refl, List, [], ◌∷◌, ◌++◌, none, some, arith, length}
use xgboost.Partition.{
  BlockInfo, PartitionBuilder, calculate_row_offsets, merge_tasks, get_n_left_elems,
  get_n_right_elems,
}
use xgboost.Partition.Offsets.{all_blocks, total_left, total_right}
use xgboost.Partition.Merge.{lefts, rights}
use xgboost.Partition.Tasks.{merge_tasks-calculate_row_offsets}

abbrev block_of : List ℕ → List ℕ → BlockInfo
block_of l r = record {
  n_left = length l;
  n_right = length r;
  n_offset_left = 0;
  n_offset_right = 0;
  left_data = l;
  right_data = r;
}

abbrev first_node : List BlockInfo
first_node = block_of (3 ∷ []) (1 ∷ 2 ∷ []) ∷ block_of (5 ∷ 6 ∷ []) (4 ∷ []) ∷ []

abbrev second_node : List BlockInfo
second_node = block_of [] (8 ∷ []) ∷ []

abbrev builder : PartitionBuilder
builder = record {
  left_right_nodes_sizes = (0, 0) ∷ (0, 0) ∷ [];
  blocks_offsets = 0 ∷ 2 ∷ 3 ∷ [];
  mem_blocks =
      some (block_of (3 ∷ []) (1 ∷ 2 ∷ []))
      ∷ some (block_of (5 ∷ 6 ∷ []) (4 ∷ []))
      ∷ some (block_of [] (8 ∷ []))
      ∷ none
      ∷ [];
  max_n_tasks = 4;
}

merge_tasks-calculate_row_offsets_example :
    (merge_tasks 3 (calculate_row_offsets builder) 0 2 0 (1 ∷ 2 ∷ 3 ∷ 4 ∷ 5 ∷ 6 ∷ [])
      ≡ lefts first_node ++ rights first_node)
    × (get_n_left_elems (calculate_row_offsets builder) 0 ≡ total_left first_node)
    × (get_n_right_elems (calculate_row_offsets builder) 0 ≡ total_right first_node)
unfolding all_blocks total_left total_right
merge_tasks-calculate_row_offsets_example =
    merge_tasks-calculate_row_offsets 3 builder (first_node ∷ second_node ∷ []) (none ∷ []) 0
      first_node (1 ∷ 2 ∷ 3 ∷ 4 ∷ 5 ∷ 6 ∷ []) (omega arith) refl refl (refl, (refl, refl)) refl refl
      (omega arith, omega arith, (omega arith, omega arith, tt)) refl

abbrev tasks_of : ℕ → ℕ
tasks_of i = 2 - i
