-- ===== src/Partition/Tasks.antt =====
-- CalculateRowOffsets and then MergeToArray for a node's tasks (src/common/row_set.h), as ApplySplit of
-- src/tree/updater_quantile_hist.cc calls them.
use native.Mathlib.Nat.{mul-div_cancel}
use mathlib.Core.List.{append_assoc}
use xgboost.Prelude.{
  ℕ, zero, suc, ◌+◌, ◌*◌, ◌/◌, ◌<◌, ◌≡◌, refl, sym, ap, ◌∙◌, List, [], ◌∷◌, ◌++◌, map, Option, some,
  some_inj, none-ne-some, length, get_elem?, get_or, arith, length-append,
}
use xgboost.Partition.{
  BlockInfo, PartitionBuilder, block, merge_block, get_task_idx, merge_to_array, merge_tasks,
  calculate_row_offsets, get_n_left_elems, get_n_right_elems,
}
use xgboost.Partition.Offsets.{
  total_left, total_right, placed, all_blocks, Offsets, length-placed, length-blocks,
}
use xgboost.Partition.Nodes.{totals, calculate_row_offsets-placed}
use xgboost.Partition.Merge.{lefts, rights, Filled, merge_all, merge_all-placed}

block-append :
    (done : List (Option BlockInfo)) (b : BlockInfo) (rest : List (Option BlockInfo))
    → block (done ++ (some b ∷ rest)) (length done) ≡ b
unfolding block
block-append [] b rest = refl
block-append (x ∷ done) b rest = block-append done b rest

module _ (block_size : ℕ) (positive : 0 < block_size) (p : PartitionBuilder) (nid : ℕ) where
  merge_tasks-all :
      (bs : List BlockInfo) (done rest : List (Option BlockInfo)) (k : ℕ) (rows : List ℕ)
      → p.mem_blocks ≡ done ++ (map some bs ++ rest)
      → get_or p.blocks_offsets nid 0 + k ≡ length done
      → merge_tasks block_size p nid (length bs) k rows ≡ merge_all bs rows
  unfolding merge_tasks merge_all merge_to_array get_task_idx
  merge_tasks-all [] done rest k rows mem at = refl
  merge_tasks-all (b ∷ bs) done rest k rows mem at =
      let index : get_or p.blocks_offsets nid 0 + k * block_size / block_size ≡ length done =
        ap (λ j. get_or p.blocks_offsets nid 0 + j) (mul-div_cancel k positive) ∙ at in
      let this : block p.mem_blocks (get_or p.blocks_offsets nid 0 + k * block_size / block_size)
          ≡ b =
        ap (block p.mem_blocks) index
        ∙ ap (λ m. block m (length done)) mem
        ∙ block-append done b (map some bs ++ rest) in
      ap (λ x. merge_tasks block_size p nid (length bs) (suc k) (merge_block x rows)) this
      ∙ merge_tasks-all bs (done ++ (some b ∷ [])) rest (suc k) (merge_block b rows)
          (mem ∙ sym (append_assoc done (some b ∷ []) (map some bs ++ rest)))
          (omega (arith, length-append done (some b ∷ [])))

-- Where the blocks of the node `nid` stand.
locate :
    (gs : List (List BlockInfo)) (offsets : List ℕ) (i b nid : ℕ) (g : List BlockInfo)
    (extra : List (Option BlockInfo))
    → Offsets offsets i b gs
    → get_elem? gs nid ≡ some g
    → (done : List (Option BlockInfo)) × (rest : List (Option BlockInfo)) × (all_blocks
            (map placed gs)
          ++ extra
        ≡ done ++ (map some (placed g) ++ rest))
      × (get_or offsets (i + nid) 0 ≡ b + length done)
unfolding all_blocks
locate [] offsets i b nid g extra at found = absurd (none-ne-some found)
locate (g0 ∷ gs) offsets i b zero g extra at found =
    let e : g0 ≡ g = some_inj found in
    (
      [],
      all_blocks (map placed gs) ++ extra,
      append_assoc (map some (placed g0)) (all_blocks (map placed gs)) extra
          ∙ ap (λ x. map some (placed x) ++ (all_blocks (map placed gs) ++ extra)) e,
      (let z : i + 0 ≡ i = omega arith in ap (λ j. get_or offsets j 0) z) ∙ at.0 ∙ omega arith,
    )
locate (g0 ∷ gs) offsets i b (suc nid) g extra at found =
    let (done, rest, blocks, offset) =
      locate gs offsets (suc i) (b + length g0) nid g extra at.1 found in
    (
      map some (placed g0) ++ done,
      rest,
      append_assoc (map some (placed g0)) (all_blocks (map placed gs)) extra
          ∙ ap (λ m. map some (placed g0) ++ m) blocks
          ∙ sym (append_assoc (map some (placed g0)) done (map some (placed g) ++ rest)),
      (let z : i + suc nid ≡ suc i + nid = omega arith in ap (λ j. get_or offsets j 0) z)
          ∙ offset
          ∙ omega (
            arith,
            length-append (map {B = Option BlockInfo} some (placed g0)) done,
            length-blocks g0,
          ),
    )

get_or-totals :
    (gs : List (List BlockInfo)) (nid : ℕ) (g : List BlockInfo)
    → get_elem? gs nid ≡ some g
    → get_or (map totals gs) nid (0, 0) ≡ totals g
get_or-totals [] nid g found = absurd (none-ne-some found)
get_or-totals (g0 ∷ gs) zero g found = ap totals (some_inj found)
get_or-totals (g0 ∷ gs) (suc nid) g found = get_or-totals gs nid g found

-- After CalculateRowOffsets, MergeToArray for all tasks of a node turns the node's rows into the left
-- parts of its blocks, in the order of the tasks, followed by the right parts, if
-- there are as many rows as the blocks hold; and GetNLeftElems and GetNRightElems return the two
-- numbers of elements.
pub merge_tasks-calculate_row_offsets :
    (block_size : ℕ) (p : PartitionBuilder) (gs : List (List BlockInfo))
    (extra : List (Option BlockInfo)) (nid : ℕ) (g : List BlockInfo) (rows : List ℕ)
    → 0 < block_size
    → p.mem_blocks ≡ all_blocks gs ++ extra
    → length p.blocks_offsets ≡ length gs + 1
    → Offsets p.blocks_offsets 0 0 gs
    → length p.left_right_nodes_sizes ≡ length gs
    → get_elem? gs nid ≡ some g
    → Filled g
    → length rows ≡ total_left g + total_right g
    → (merge_tasks block_size (calculate_row_offsets p) nid (length g) 0 rows ≡ lefts g ++ rights g)
      × (get_n_left_elems (calculate_row_offsets p) nid ≡ total_left g)
      × (get_n_right_elems (calculate_row_offsets p) nid ≡ total_right g)
unfolding get_n_left_elems get_n_right_elems
merge_tasks-calculate_row_offsets block_size p gs extra nid g rows positive mem count at sizes found
      filled len =
    let (mem', sizes', offsets') = calculate_row_offsets-placed p gs extra mem count at sizes in
    let (done, rest, blocks, offset) = locate gs p.blocks_offsets 0 0 nid g extra at found in
    let q = calculate_row_offsets p in
    let z : 0 + nid ≡ nid = omega arith in
    let place : get_or q.blocks_offsets nid 0 + 0 ≡ length done = omega (
      arith,
      ap (λ o. get_or o nid 0) offsets',
      ap (λ j. get_or p.blocks_offsets j 0) (sym z) ∙ offset,
    ) in
    let noted = ap (λ x. get_or x nid (0, 0)) sizes' ∙ get_or-totals gs nid g found in
    (
      ap (λ n. merge_tasks block_size q nid n 0 rows) (sym (length-placed g))
          ∙ merge_tasks-all block_size positive q nid (placed g) done rest 0 rows (mem' ∙ blocks)
              place
          ∙ merge_all-placed g rows filled len,
      ap (λ x. x.0) noted,
      ap (λ x. x.1) noted,
    )
