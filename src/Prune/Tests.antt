-- ===== src/Prune/Tests.antt =====
-- Runs and instances of the theorems about src/tree/updater_prune.cc on a concrete tree.
use xgboost.Prelude.{ℕ, ◌≡◌, some, arith}
use xgboost.Tree.RegTree.{RegTree}
use xgboost.Tree.Sample.{toy, stump, stump_shape, stump-IsTree, right_leaf}
use xgboost.Prune.{TrainParam, try_prune_leaf, do_prune}
use xgboost.Prune.Sound.{Tried, try_prune_leaf-Tried}
use xgboost.Prune.Loop.{do_prune-Tried}
use xgboost.Prune.Parent.{leaf_depth}

-- The stump's split gains 4.
abbrev strict : TrainParam toy
strict = record { learning_rate = 2; min_split_loss = 5; max_depth = 6 }

try_prune_leaf-Tried_example :
    (r : RegTree toy × ℕ) × (try_prune_leaf 2 strict stump 2 1 0 ≡ some r)
    × Tried strict stump stump_shape 0 r
unfolding leaf_depth
try_prune_leaf-Tried_example =
    try_prune_leaf-Tried strict 2 stump stump_shape stump-IsTree 2 right_leaf 0 (omega arith)

do_prune-Tried_example :
    (r : RegTree toy × ℕ) × (do_prune strict stump ≡ some r) × Tried strict stump stump_shape 0 r
do_prune-Tried_example = do_prune-Tried strict stump-IsTree
