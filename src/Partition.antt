-- ===== src/Partition.antt =====
-- PartitionBuilder of src/common/row_set.h: the tasks' partial results of dividing the nodes' rows, and
-- how they are merged. The blocks of one task each are filled before, and are lists here.
pub mod Offsets
pub mod Init
pub mod Nodes
pub mod Merge
pub mod Tasks
mod Tests
use xgboost.Prelude.{
  ℕ, zero, suc, ◌+◌, ◌-◌, ◌*◌, ◌/◌, List, [], ◌∷◌, Option, none, some, length, get_or, set, resize,
  take, Bool, true, false, ltb, if◌then◌else◌,
}

pub record BlockInfo : Type 0 where
  pub n_left : ℕ
  pub n_right : ℕ
  pub n_offset_left : ℕ
  pub n_offset_right : ℕ
  pub left_data : List ℕ
  pub right_data : List ℕ

-- A memory block is `none` where its pointer is null.
pub record PartitionBuilder : Type 0 where
  pub left_right_nodes_sizes : List (ℕ × ℕ)
  pub blocks_offsets : List ℕ
  pub mem_blocks : List (Option BlockInfo)
  pub max_n_tasks : ℕ

-- A block as `new` leaves it; its contents are indeterminate in the source.
abbrev pub new_block : BlockInfo
new_block = record {
  n_left = 0;
  n_right = 0;
  n_offset_left = 0;
  n_offset_right = 0;
  left_data = [];
  right_data = [];
}

-- *mem_blocks_[j], undefined for a null pointer.
unfoldable pub block : List (Option BlockInfo) → ℕ → BlockInfo
block bs j = value (get_or bs j none)
  where
    value : Option BlockInfo → BlockInfo
    value none = new_block
    value (some b) = b

-- The loop of Init: the offsets from the `i`-th on, where the last one was `prev`.
unfoldable pub offsets_from : (ℕ → ℕ) → ℕ → ℕ → ℕ → List ℕ
offsets_from func zero i prev = []
offsets_from func (suc n) i prev = (prev + func i) ∷ offsets_from func n (suc i) (prev + func i)

-- Init with `func` for the number of tasks of a node.
unfoldable pub init : PartitionBuilder → ℕ → ℕ → (ℕ → ℕ) → PartitionBuilder
init p n_tasks n_nodes func =
    let p1 = record p {
      left_right_nodes_sizes = resize n_nodes (0, 0) p.left_right_nodes_sizes;
      blocks_offsets = 0 ∷ offsets_from func n_nodes 0 0;
    } in
    if ltb p.max_n_tasks n_tasks
    then record p1 { mem_blocks = resize n_tasks none p.mem_blocks; max_n_tasks = n_tasks }
    else p1

unfoldable pub allocate_for_task : PartitionBuilder → ℕ → PartitionBuilder
allocate_for_task p id = allocate (get_or p.mem_blocks id none)
  where
    allocate : Option BlockInfo → PartitionBuilder
    allocate none = record p { mem_blocks = set p.mem_blocks id (some new_block) }
    allocate (some b) = p

module _ (block_size : ℕ) where
  unfoldable pub get_task_idx : PartitionBuilder → ℕ → ℕ → ℕ
  get_task_idx p nid begin = get_or p.blocks_offsets nid 0 + begin / block_size

  unfoldable pub set_n_left_elems : PartitionBuilder → ℕ → ℕ → ℕ → PartitionBuilder
  set_n_left_elems p nid begin n_left =
      let j = get_task_idx p nid begin in
      record p {
        mem_blocks = set p.mem_blocks j (some (record (block p.mem_blocks j) { n_left = n_left }));
      }

  unfoldable pub set_n_right_elems : PartitionBuilder → ℕ → ℕ → ℕ → PartitionBuilder
  set_n_right_elems p nid begin n_right =
      let j = get_task_idx p nid begin in
      record p {
        mem_blocks =
            set p.mem_blocks j (some (record (block p.mem_blocks j) { n_right = n_right }));
      }

unfoldable pub get_n_left_elems : PartitionBuilder → ℕ → ℕ
get_n_left_elems p nid = (get_or p.left_right_nodes_sizes nid (0, 0)).0

unfoldable pub get_n_right_elems : PartitionBuilder → ℕ → ℕ
get_n_right_elems p nid = (get_or p.left_right_nodes_sizes nid (0, 0)).1

-- The first loop over a node's blocks in CalculateRowOffsets, over the `count` blocks from `j` on.
unfoldable pub left_offsets : ℕ → ℕ → List (Option BlockInfo) → ℕ → List (Option BlockInfo) × ℕ
left_offsets zero j bs n_left = (bs, n_left)
left_offsets (suc count) j bs n_left =
    left_offsets count (suc j) (set bs j (some (record (block bs j) { n_offset_left = n_left })))
      (n_left + (block bs j).n_left)

-- The second loop, after `n_left` elements of all left parts.
unfoldable pub right_offsets : ℕ → ℕ → ℕ → List (Option BlockInfo) → ℕ → List (Option BlockInfo) × ℕ
right_offsets n_left zero j bs n_right = (bs, n_right)
right_offsets n_left (suc count) j bs n_right =
    right_offsets n_left count (suc j)
      (set bs j (some (record (block bs j) { n_offset_right = n_left + n_right })))
      (n_right + (block bs j).n_right)

-- The body of CalculateRowOffsets for the node `i`.
unfoldable pub node_offsets : PartitionBuilder → ℕ → PartitionBuilder
node_offsets p i =
    let begin = get_or p.blocks_offsets i 0 in
    let count = get_or p.blocks_offsets (suc i) 0 - begin in
    let (bs1, n_left) = left_offsets count begin p.mem_blocks 0 in
    let (bs2, n_right) = right_offsets n_left count begin bs1 0 in
    record p {
      mem_blocks = bs2;
      left_right_nodes_sizes = set p.left_right_nodes_sizes i (n_left, n_right);
    }

unfoldable pub offsets_of_nodes : ℕ → ℕ → PartitionBuilder → PartitionBuilder
offsets_of_nodes zero i p = p
offsets_of_nodes (suc rounds) i p = offsets_of_nodes rounds (suc i) (node_offsets p i)

unfoldable pub calculate_row_offsets : PartitionBuilder → PartitionBuilder
calculate_row_offsets p = offsets_of_nodes (length p.blocks_offsets - 1) 0 p

-- std::copy_n to the place `dst` of a vector.
unfoldable pub copy_to : List ℕ → ℕ → List ℕ → List ℕ
copy_to [] dst xs = xs
copy_to (y ∷ ys) dst xs = copy_to ys (suc dst) (set xs dst y)

-- The writes of MergeToArray for one block into the node's rows.
unfoldable pub merge_block : BlockInfo → List ℕ → List ℕ
merge_block b rows =
    copy_to (take b.n_right b.right_data) b.n_offset_right
      (copy_to (take b.n_left b.left_data) b.n_offset_left rows)

unfoldable pub merge_to_array : ℕ → PartitionBuilder → ℕ → ℕ → List ℕ → List ℕ
merge_to_array block_size p nid begin rows_indexes =
    merge_block (block p.mem_blocks (get_task_idx block_size p nid begin)) rows_indexes

-- The calls of MergeToArray in ApplySplit (src/tree/updater_quantile_hist.cc) for one node, one for
-- each of its tasks from the `k`-th on, in turn.
unfoldable pub merge_tasks : ℕ → PartitionBuilder → ℕ → ℕ → ℕ → List ℕ → List ℕ
merge_tasks block_size p nid zero k rows = rows
merge_tasks block_size p nid (suc count) k rows =
    merge_tasks block_size p nid count (suc k)
      (merge_to_array block_size p nid (k * block_size) rows)
