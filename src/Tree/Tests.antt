-- ===== src/Tree/Tests.antt =====
-- Runs and instances of the theorems about include/xgboost/tree_model.h on concrete trees.
use xgboost.Prelude.{
  ℕ, ◌+◌, ◌≡◌, refl, sym, ap, none, Bool, true, false, not, List, [], ◌∷◌, ◌++◌, some, arith, ◌==◌,
}
use xgboost.Prelude.Check.{◌>>=◌}
use xgboost.Tree.Node.{left_child, right_child}
use xgboost.Tree.RegTree.{
  RegTree, delete_node, release, modify, node, alloc_node, expand_node, change_to_leaf, empty_tree,
}
use xgboost.Tree.Row.{drop_row-fill}
use xgboost.Tree.FVec.{Entry, init, fill, drop_row, is_missing}
use xgboost.Tree.Query.{
  get_next, leaf_from, get_leaf_index, get_depth, max_depth, walk_tree, get_num_leaves,
  get_num_split_nodes,
}
use xgboost.Tree.Shape.{prune, leaves, splits, height, depth_of}
use xgboost.Tree.Invariant.{IsTree}
use xgboost.Tree.Alloc.{Allocated, alloc-Allocated}
use xgboost.Tree.Expand.{Expanded, expand_node-Expanded}
use xgboost.Tree.Collapse.{Pruned, change_to_leaf-Pruned}
use xgboost.Tree.Depth.{max_depth-eq-height, get_depth-eq-depth_of}
use xgboost.Tree.Walk.{scan, visits, walk_tree-eq-scan, get_num-counts}
use xgboost.Tree.Predict.{route, goes_left, get_leaf_index-eq-route, get_leaf_index-agree}
use xgboost.Tree.Growth.{leaf_output, leaf_output-expand_node}
use xgboost.Tree.Regrow.{expand_node-change_to_leaf_swaps}
use xgboost.Tree.Categorical.{expand_categorical, Categorized, expand_categorical-Categorized}
use xgboost.Tree.Binary.{Item, load, save}
use xgboost.Tree.Loaded.{load-save}
use xgboost.Tree.Sample.{
  toy, stump, stump_shape, stump-IsTree, right_leaf, right_node, whole_twig, growth, row,
}

-- The row's feature 3 is not below 50.
row_goes_right : get_leaf_index 3 true stump row ≡ some 2
unfolding get_leaf_index leaf_from node get_next is_missing
row_goes_right = refl

alloc-Allocated_example :
    (id : ℕ) × (t' : RegTree toy) × (alloc_node stump ≡ some (id, t'))
    × Allocated stump stump_shape [] id t'
alloc-Allocated_example = alloc-Allocated stump-IsTree (omega arith)

expand_node-Expanded_example :
    (t' : RegTree toy) × (expand_node stump 2 growth ≡ some t')
    × Expanded stump stump_shape right_leaf growth t'
expand_node-Expanded_example =
    expand_node-Expanded stump-IsTree right_leaf growth (omega arith) (omega arith)

change_to_leaf-Pruned_example :
    (t' : RegTree toy) × (change_to_leaf stump 0 8 ≡ some t') × Pruned stump-IsTree whole_twig 8 t'
change_to_leaf-Pruned_example = change_to_leaf-Pruned stump-IsTree whole_twig 8

max_depth-eq-height_example : max_depth 3 stump 0 ≡ some (height stump_shape)
max_depth-eq-height_example = max_depth-eq-height stump-IsTree

get_depth-eq-depth_of_example : get_depth 3 stump 2 ≡ some (depth_of right_node)
get_depth-eq-depth_of_example = get_depth-eq-depth_of stump-IsTree right_node

-- Collects the ids visited, and stops at the node 2.
abbrev visitor : ℕ → List ℕ → List ℕ × Bool
visitor n seen = (n ∷ seen, not (n == 2))

walk_tree-eq-scan_example :
    walk_tree visitor 3 stump [] ≡ some (scan visitor (visits stump_shape) [])
unfolding node
walk_tree-eq-scan_example = walk_tree-eq-scan stump-IsTree (refl, refl) visitor []

get_num-counts_example :
    (get_num_leaves 3 stump ≡ some (leaves stump_shape))
    × (get_num_split_nodes 3 stump ≡ some (splits stump_shape))
unfolding node
get_num-counts_example = get_num-counts stump-IsTree (refl, refl)

get_leaf_index-eq-route_example :
    get_leaf_index 3 true stump row ≡ some (route (goes_left stump row) stump_shape)
get_leaf_index-eq-route_example = get_leaf_index-eq-route stump-IsTree row

get_leaf_index-agree_example : get_leaf_index 3 false stump row ≡ get_leaf_index 3 true stump row
unfolding is_missing node
get_leaf_index-agree_example = get_leaf_index-agree stump-IsTree row (refl, tt, tt) (refl, tt, tt)

leaf_output-expand_node_example :
    (t' : RegTree toy) × (expand_node stump 2 growth ≡ some t') × (leaf_output t' row ≡ some 5)
unfolding route node is_missing
leaf_output-expand_node_example =
    leaf_output-expand_node stump-IsTree right_leaf growth row (omega arith) (omega arith)

expand_node-change_to_leaf_swaps_example :
    (t' : RegTree toy) × ((change_to_leaf stump 0 8 >>= λ u. expand_node u 0 growth) ≡ some t')
    × (left_child (node t' 0) ≡ 2)
    × (right_child (node t' 0) ≡ 1)
    × (get_next true t' 0 30 false ≡ 1)
    × (get_next false t' 0 30 false ≡ 2 + 1)
expand_node-change_to_leaf_swaps_example =
    expand_node-change_to_leaf_swaps stump-IsTree whole_twig 8 growth 30 refl

abbrev sparse : ℕ → ℕ → Entry toy
sparse index fvalue = record { index = index; fvalue = fvalue }

-- Feature 1 comes twice, and feature 7 is beyond the vector's end.
drop_row-fill_example :
    (fill (sparse 1 4 ∷ sparse 1 5 ∷ sparse 7 6 ∷ []) (init 3)
      >>= drop_row (sparse 1 4 ∷ sparse 1 5 ∷ sparse 7 6 ∷ []))
    ≡ some (init 3)
drop_row-fill_example = drop_row-fill {F = toy} 3 (sparse 1 4 ∷ sparse 1 5 ∷ sparse 7 6 ∷ [])

-- The stump without its leaves, whose ids are on the free list.
abbrev bare : RegTree toy
bare = (change_to_leaf-Pruned stump-IsTree whole_twig 8).0

bare_roots : bare.param.deprecated_num_roots ≡ 1
unfolding change_to_leaf node delete_node release modify
bare_roots =
    ap (λ o. elim o [ none ↦ 1 | some t ↦ t.param.deprecated_num_roots ])
      (sym ((change_to_leaf-Pruned stump-IsTree whole_twig 8).1))

load-save_example :
    (items : List (Item toy)) × (t' : RegTree toy) × (save bare ≡ some items)
    × (load (empty_tree toy) (items ++ (Item.param_item stump.param ∷ []))
        ≡ some (t', Item.param_item stump.param ∷ []))
    × (t'.param ≡ bare.param)
    × (t'.nodes ≡ bare.nodes)
    × (t'.stats ≡ bare.stats)
    × IsTree t' (prune whole_twig)
load-save_example =
    load-save bare (empty_tree toy) (prune whole_twig) (Item.param_item stump.param ∷ [])
      ((change_to_leaf-Pruned stump-IsTree whole_twig 8).2.tree) bare_roots

expand_categorical-Categorized_example :
    (t' : RegTree toy) × (expand_categorical stump 2 growth (5 ∷ 6 ∷ []) ≡ some t')
    × Categorized stump-IsTree right_leaf growth (5 ∷ 6 ∷ []) t'
expand_categorical-Categorized_example =
    expand_categorical-Categorized stump-IsTree right_leaf growth (5 ∷ 6 ∷ []) (omega arith)
      (omega arith)
