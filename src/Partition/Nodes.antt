-- ===== src/Partition/Nodes.antt =====
-- CalculateRowOffsets of PartitionBuilder (src/common/row_set.h) over all nodes.
use mathlib.Core.List.{append_assoc}
use xgboost.Prelude.{
  ℕ, suc, ◌+◌, ◌-◌, ◌≡◌, refl, sym, ap, ◌∙◌, subst, List, [], ◌∷◌, ◌++◌, map, Option, some, length,
  get_or, set, arith, length-append,
}
use xgboost.Partition.{
  BlockInfo, PartitionBuilder, left_offsets, right_offsets, node_offsets, offsets_of_nodes,
  calculate_row_offsets,
}
use xgboost.Partition.Offsets.{
  total_left, total_right, left_placed, placed, all_blocks, Offsets, left_offsets-placed,
  right_offsets-placed, length-left_placed, total_right-left_placed, length-blocks,
}

abbrev pub totals : List BlockInfo → ℕ × ℕ
totals bs = (total_left bs, total_right bs)

-- The sizes of the nodes from the `i`-th on are written.
unfoldable write_sizes : ℕ → List (List BlockInfo) → List (ℕ × ℕ) → List (ℕ × ℕ)
write_sizes i [] sizes = sizes
write_sizes i (g ∷ gs) sizes = write_sizes (suc i) gs (set sizes i (totals g))

module _ (p : PartitionBuilder) (i : ℕ) where
  -- The state after both loops over a node's blocks.
  abbrev after_right : ℕ → List (Option BlockInfo) × ℕ → PartitionBuilder
  after_right n_left q = record p {
    mem_blocks = q.0;
    left_right_nodes_sizes = set p.left_right_nodes_sizes i (n_left, q.1);
  }

  abbrev after_left : ℕ → ℕ → List (Option BlockInfo) × ℕ → PartitionBuilder
  after_left count begin q = after_right q.1 (right_offsets q.1 count begin q.0 0)

  node_offsets-placed :
      (done : List (Option BlockInfo)) (g : List BlockInfo) (rest : List (Option BlockInfo))
      → p.mem_blocks ≡ done ++ (map some g ++ rest)
      → get_or p.blocks_offsets i 0 ≡ length done
      → get_or p.blocks_offsets (suc i) 0 ≡ length done + length g
      → node_offsets p i
        ≡ after_right (total_left g) (done ++ (map some (placed g) ++ rest), total_right g)
  unfolding node_offsets
  node_offsets-placed done g rest mem begin stop =
      let lefts : 0 + total_left g ≡ total_left g = omega arith in
      let rights : 0 + total_right (left_placed 0 g) ≡ total_right g =
        omega (arith, total_right-left_placed 0 g) in
      let count : get_or p.blocks_offsets (suc i) 0 - get_or p.blocks_offsets i 0 ≡ length g =
        omega arith in
      ap
        (λ c.
          after_left c (get_or p.blocks_offsets i 0)
            (left_offsets c (get_or p.blocks_offsets i 0) p.mem_blocks 0))
        count
      ∙ ap (λ b. after_left (length g) b (left_offsets (length g) b p.mem_blocks 0)) begin
      ∙ ap (λ m. after_left (length g) (length done) (left_offsets (length g) (length done) m 0))
          mem
      ∙ ap (after_left (length g) (length done)) (left_offsets-placed done g rest 0)
      ∙ ap
          (λ k.
            after_left (length g) (length done) (done ++ (map some (left_placed 0 g) ++ rest), k))
          lefts
      ∙ ap
          (λ c. after_right (total_left g) (
            right_offsets (total_left g) c (length done)
              (done ++ (map some (left_placed 0 g) ++ rest)) 0))
          (sym (length-left_placed 0 g))
      ∙ ap (after_right (total_left g))
          (right_offsets-placed (total_left g) done (left_placed 0 g) rest 0)
      ∙ ap (λ k. after_right (total_left g) (done ++ (map some (placed g) ++ rest), k)) rights

Offsets-head :
    (offsets : List ℕ) (j b : ℕ) (hs : List (List BlockInfo))
    → Offsets offsets j b hs
    → get_or offsets j 0 ≡ b
Offsets-head offsets j b [] h = h
Offsets-head offsets j b (x ∷ hs) h = h.0

offsets_of_nodes-placed :
    (gs : List (List BlockInfo)) (i : ℕ) (p : PartitionBuilder)
    (done extra : List (Option BlockInfo))
    → p.mem_blocks ≡ done ++ (all_blocks gs ++ extra)
    → Offsets p.blocks_offsets i (length done) gs
    → offsets_of_nodes (length gs) i p ≡ record p {
      mem_blocks = done ++ (all_blocks (map placed gs) ++ extra);
      left_right_nodes_sizes = write_sizes i gs p.left_right_nodes_sizes;
    }
unfolding offsets_of_nodes all_blocks write_sizes
offsets_of_nodes-placed [] i p done extra mem at = ap (λ m. record p { mem_blocks = m }) mem
offsets_of_nodes-placed (g ∷ gs) i p done extra mem at =
    ap (offsets_of_nodes (length gs) (suc i)) (
      node_offsets-placed p i done g (all_blocks gs ++ extra)
        (mem ∙ ap (λ m. done ++ m) (append_assoc (map some g) (all_blocks gs) extra)) at.0
        (Offsets-head p.blocks_offsets (suc i) (length done + length g) gs at.1))
    ∙ offsets_of_nodes-placed gs (suc i) next (done ++ map some (placed g)) extra
        (sym (append_assoc done (map some (placed g)) (all_blocks gs ++ extra)))
        (subst (λ k. Offsets p.blocks_offsets (suc i) k gs) (sym done_length) at.1)
    ∙ ap
        (λ m. record p {
          mem_blocks = m;
          left_right_nodes_sizes =
              write_sizes (suc i) gs (set p.left_right_nodes_sizes i (totals g));
        })
        (append_assoc done (map some (placed g)) (all_blocks (map placed gs) ++ extra)
          ∙ ap (λ m. done ++ m)
              (sym (append_assoc (map some (placed g)) (all_blocks (map placed gs)) extra)))
  where
    next : PartitionBuilder
    next =
        after_right p i (total_left g)
          (done ++ (map some (placed g) ++ (all_blocks gs ++ extra)), total_right g)

    done_length :
        length (done ++ map {B = Option BlockInfo} some (placed g)) ≡ length done + length g
    done_length =
        length-append done (map some (placed g)) ∙ ap (λ k. length done + k) (length-blocks g)

write_sizes-cons :
    (i : ℕ) (gs : List (List BlockInfo)) (x : ℕ × ℕ) (sizes : List (ℕ × ℕ))
    → write_sizes (suc i) gs (x ∷ sizes) ≡ x ∷ write_sizes i gs sizes
unfolding write_sizes
write_sizes-cons i [] x sizes = refl
write_sizes-cons i (g ∷ gs) x sizes = write_sizes-cons (suc i) gs x (set sizes i (totals g))

write_sizes-totals :
    (gs : List (List BlockInfo)) (sizes : List (ℕ × ℕ))
    → length sizes ≡ length gs
    → write_sizes 0 gs sizes ≡ map totals gs
unfolding write_sizes
write_sizes-totals [] [] e = refl
write_sizes-totals [] (x ∷ sizes) e = absurd (omega arith)
write_sizes-totals (g ∷ gs) [] e = absurd (omega arith)
write_sizes-totals (g ∷ gs) (x ∷ sizes) e =
    write_sizes-cons 0 gs (totals g) sizes
    ∙ ap (λ ys. totals g ∷ ys) (write_sizes-totals gs sizes (omega arith))

-- CalculateRowOffsets, where the offsets of the tasks are those of the nodes' blocks, places the left
-- parts of each node's blocks one after the other from 0 on, the right parts behind all of them, and
-- notes the two totals of each node. The offsets of the tasks and the blocks behind the last node's
-- are left as they are.
pub calculate_row_offsets-placed :
    (p : PartitionBuilder) (gs : List (List BlockInfo)) (extra : List (Option BlockInfo))
    → p.mem_blocks ≡ all_blocks gs ++ extra
    → length p.blocks_offsets ≡ length gs + 1
    → Offsets p.blocks_offsets 0 0 gs
    → length p.left_right_nodes_sizes ≡ length gs
    → ((calculate_row_offsets p).mem_blocks ≡ all_blocks (map placed gs) ++ extra)
      × ((calculate_row_offsets p).left_right_nodes_sizes ≡ map totals gs)
      × ((calculate_row_offsets p).blocks_offsets ≡ p.blocks_offsets)
unfolding calculate_row_offsets
calculate_row_offsets-placed p gs extra mem count at sizes =
    let rounds : length p.blocks_offsets - 1 ≡ length gs = omega arith in
    let run =
      ap (λ k. offsets_of_nodes k 0 p) rounds ∙ offsets_of_nodes-placed gs 0 p [] extra mem at in
    (
      ap (λ q. q.mem_blocks) run,
      ap (λ q. q.left_right_nodes_sizes) run ∙ write_sizes-totals gs p.left_right_nodes_sizes sizes,
      ap (λ q. q.blocks_offsets) run,
    )
